-- ===== src/Transports/WebSocket/Steps.antt =====
-- The events of the socket and the calls by the user as steps (webSocket.ts): each gives the new
-- state and what it does to the outside, in order. `send_throws` says on which ids socket.send throws;
-- `json_parse` is JSON.parse, `none` where it throws.
use tosdk.Prelude.{ℕ, suc, Bool, List, [], ◌∷◌, ◌++◌, Option, none, some, ◌==◌, if◌then◌else◌}
use tosdk.Strings.{Text}
use tosdk.Json.{Json}
use tosdk.Transports.WebSocket.State.{
  Call, Effect, StatePromise, SubscriptionHandler, Transport, TransportError, WebSocketState,
  connected, connecting, connection_closed, failed, map_delete, map_set, new_state, reject, report,
  send, send_failed, unset,
}
use tosdk.Transports.WebSocket.Messages.{handle_payload, same_key}

unfoldable pub reports : List (Option Json × SubscriptionHandler) → List Effect
reports [] = []
reports ((id, handler) ∷ rest) = elim handler.on_error [
  | none ↦ reports rest
  | some on_error ↦ report on_error connection_closed ∷ reports rest
]

unfoldable pub rejections : List (ℕ × Call) → List Effect
rejections [] = []
rejections ((id, call) ∷ rest) = reject call.caller connection_closed ∷ rejections rest

-- What the two loops of handleClose call.
unfoldable pub close_effects : WebSocketState → List Effect
unfolding reports rejections
close_effects state = rejections state.pending_requests ++ reports state.subscriptions

unfoldable pub without_subscription : Option Json → WebSocketState → WebSocketState
unfolding map_delete same_key
without_subscription id state = record state {
  subscriptions = map_delete same_key id state.subscriptions;
}

unfoldable pub forget_in : Option Json → StatePromise → StatePromise
unfolding without_subscription
forget_in id (connecting state calls) = connecting (without_subscription id state) calls
forget_in id (connected state) = connected (without_subscription id state)
forget_in id unset = unset
forget_in id (failed e) = failed e

-- A subscription is undone on the state of its own socket, which is none any more once that closed.
unfoldable pub forget : ℕ → Option Json → Transport → Transport
unfolding forget_in
forget socket id t =
    if socket == t.sockets then record t { promise = forget_in id t.promise } else t

-- A request by the user, with the error of createWebSocket where it throws; a subscription, with
-- its handler; a call of unsubscribe; and what the live socket reports.
pub data Event : Type 0 where
  request : Option TransportError → Call → Event
  unsubscribe : ℕ → Option Json → Option TransportError → Call → Event
  opened closed errored : Event
  message : Text → Event

unfoldable pub handle_close : Transport → Transport × List Effect
unfolding close_effects
handle_close t = elim t.promise [
  | connecting state calls ↦ (record t { promise = unset }, close_effects state)
  | connected state ↦ (record t { promise = unset }, close_effects state)
  | unset ↦ (t, [])
  | failed e ↦ (t, [])
]

module _ (json_parse : Text → Option Json) where
  -- event.data, parsed where it is not empty
  unfoldable pub parse_data : Text → Option Json
  parse_data [] = none
  parse_data (c ∷ s) = json_parse (c ∷ s)

  unfoldable pub handle_message : Text → Transport → Transport × List Effect
  unfolding handle_payload parse_data
  handle_message data_ t =
      let handle = handle_payload t.sockets (parse_data data_) in
      elim t.promise [
        | connecting state calls ↦
            (record t { promise = connecting (handle state).0 calls }, (handle state).1)
        | connected state ↦ (record t { promise = connected (handle state).0 }, (handle state).1)
        | unset ↦ (t, [])
        | failed e ↦ (t, [])
      ]

module _ (send_throws : ℕ → Bool) where
  -- `request` behind `await connect()`
  unfoldable pub run_call : Call → WebSocketState → WebSocketState × List Effect
  unfolding map_set
  run_call call state =
      let id = state.next_id in
      (
        record state {
          next_id = suc id;
          pending_requests = map_set ◌==◌ id call state.pending_requests;
        },
        (if send_throws id then reject call.caller send_failed else send id call.method call.params)
            ∷ [],
      )

  -- The calls that waited, in order.
  unfoldable pub run_calls : List Call → WebSocketState → WebSocketState × List Effect
  unfolding run_call
  run_calls [] state = (state, [])
  run_calls (call ∷ calls) state =
      let first = run_call call state in
      let rest = run_calls calls first.0 in (rest.0, first.1 ++ rest.1)

  unfoldable pub start_call : Option TransportError → Call → Transport → Transport × List Effect
  unfolding run_call
  start_call failure call t = elim t.promise [
    | unset ↦ elim failure [
      | some e ↦ (record t { promise = failed e }, reject call.caller e ∷ [])
      | none ↦ (record { promise = connecting new_state (call ∷ []); sockets = suc t.sockets }, [])
    ]
    | connecting state calls ↦ (record t { promise = connecting state (calls ++ (call ∷ [])) }, [])
    | connected state ↦ let r = run_call call state in (record t { promise = connected r.0 }, r.1)
    | failed e ↦ (t, reject call.caller e ∷ [])
  ]

  unfoldable pub handle_open : Transport → Transport × List Effect
  unfolding run_calls
  handle_open t = elim t.promise [
    | connecting state calls ↦
        let r = run_calls calls state in (record t { promise = connected r.0 }, r.1)
    | unset ↦ (t, [])
    | connected state ↦ (t, [])
    | failed e ↦ (t, [])
  ]

  module _ (json_parse : Text → Option Json) where
    unfoldable pub step : Event → Transport → Transport × List Effect
    unfolding start_call handle_open handle_close handle_message forget
    step (request failure call) t = start_call failure call t
    step (unsubscribe socket id failure call) t = start_call failure call (forget socket id t)
    step opened t = handle_open t
    step closed t = handle_close t
    step errored t = (t, [])
    step (message data_) t = handle_message json_parse data_ t

    unfoldable pub run : List Event → Transport → Transport × List Effect
    unfolding step
    run [] t = (t, [])
    run (event ∷ events) t =
        let first = step event t in let rest = run events first.0 in (rest.0, first.1 ++ rest.1)

abbrev pub initial : Transport
initial = record { promise = unset; sockets = 0 }
