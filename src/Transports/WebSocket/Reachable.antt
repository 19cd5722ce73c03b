-- ===== src/Transports/WebSocket/Reachable.antt =====
-- The invariant over the steps and in every state that they reach (webSocket.ts).
use tosdk.Prelude.{ℕ, refl, arith, Bool, List, [], ◌∷◌, Option, none, some}
use tosdk.Strings.{Text}
use tosdk.Json.{Json}
use tosdk.Transports.WebSocket.State.{
  Call, WebSocketState, StatePromise, unset, connecting, connected, failed, Transport,
  TransportError,
}
use tosdk.Transports.WebSocket.Steps.{
  forget, Event, request, unsubscribe, opened, closed, errored, message, run_call, run_calls,
  start_call, handle_open, handle_close, parse_data, handle_message, step, initial,
}
use tosdk.Transports.WebSocket.Ids.{
  IdsOf, IsWellFormed, IsWellFormedPromise, forget-IsWellFormed, handle_payload-Ids,
  handle_payload-new, map_set-Ids,
}

handle_close-IsWellFormed :
    (p : StatePromise) (n : ℕ)
    → IsWellFormedPromise p
    → IsWellFormed (handle_close (record { promise = p; sockets = n })).0
unfolding handle_close
handle_close-IsWellFormed unset n h = tt
handle_close-IsWellFormed (connecting s calls) n h = tt
handle_close-IsWellFormed (connected s) n h = tt
handle_close-IsWellFormed (failed e) n h = tt

module _ (json_parse : Text → Option Json) where
  handle_message-IsWellFormed :
      (text : Text) (p : StatePromise) (n : ℕ)
      → IsWellFormedPromise p
      → IsWellFormed (handle_message json_parse text (record { promise = p; sockets = n })).0
  unfolding handle_message
  handle_message-IsWellFormed text unset n h = tt
  handle_message-IsWellFormed text (connecting s calls) n h =
      rw h (handle_payload-new n (parse_data json_parse text))
  handle_message-IsWellFormed text (connected s) n h =
      handle_payload-Ids n (parse_data json_parse text) s h
  handle_message-IsWellFormed text (failed e) n h = tt

module _ (send_throws : ℕ → Bool) where
  pub run_call-Ids :
      (call : Call) (s : WebSocketState) → IdsOf s → IdsOf (run_call send_throws call s).0
  unfolding run_call
  run_call-Ids call s h = (map_set-Ids 1 s.next_id call s.pending_requests h).1

  run_calls-Ids :
      (calls : List Call) (s : WebSocketState) → IdsOf s → IdsOf (run_calls send_throws calls s).0
  unfolding run_calls
  run_calls-Ids [] s h = h
  run_calls-Ids (call ∷ calls) s h =
      run_calls-Ids calls (run_call send_throws call s).0 (run_call-Ids call s h)

  start_call-IsWellFormed :
      (failure : Option TransportError) (call : Call) (p : StatePromise) (n : ℕ)
      → IsWellFormedPromise p
      → IsWellFormed (start_call send_throws failure call (record { promise = p; sockets = n })).0
  unfolding start_call
  start_call-IsWellFormed none call unset n h = refl
  start_call-IsWellFormed (some e) call unset n h = tt
  start_call-IsWellFormed failure call (connecting s calls) n h = h
  start_call-IsWellFormed failure call (connected s) n h = run_call-Ids call s h
  start_call-IsWellFormed failure call (failed e) n h = tt

  handle_open-IsWellFormed :
      (p : StatePromise) (n : ℕ)
      → IsWellFormedPromise p
      → IsWellFormed (handle_open send_throws (record { promise = p; sockets = n })).0
  unfolding handle_open
  handle_open-IsWellFormed unset n h = tt
  handle_open-IsWellFormed (connecting s calls) n h = run_calls-Ids calls s (rw h (omega arith))
  handle_open-IsWellFormed (connected s) n h = h
  handle_open-IsWellFormed (failed e) n h = tt

  module _ (json_parse : Text → Option Json) where
    pub step-IsWellFormed :
        (event : Event) (t : Transport)
        → IsWellFormed t
        → IsWellFormed (step send_throws json_parse event t).0
    unfolding step
    step-IsWellFormed (request failure call) t h =
        start_call-IsWellFormed failure call t.promise t.sockets h
    step-IsWellFormed (unsubscribe socket id failure call) t h =
        let after = forget socket id t in
        start_call-IsWellFormed failure call after.promise after.sockets
          (forget-IsWellFormed socket id t h)
    step-IsWellFormed opened t h = handle_open-IsWellFormed t.promise t.sockets h
    step-IsWellFormed closed t h = handle_close-IsWellFormed t.promise t.sockets h
    step-IsWellFormed errored t h = h
    step-IsWellFormed (message text) t h =
        handle_message-IsWellFormed json_parse text t.promise t.sockets h

    -- The states that some events lead to.
    pub data Reachable : Transport → Type 0 where
      start : Reachable initial
      after :
          {t : Transport} (event : Event)
          → Reachable t
          → Reachable (step send_throws json_parse event t).0

    -- In every reachable state: a socket that is not open yet has nothing pending, no subscription and
    -- 1 as its next id; with an open one, the ids of the pending requests grow strictly from 1 on
    -- and are below the next id, so that no two requests share one.
    pub Reachable-IsWellFormed : {t : Transport} → Reachable t → IsWellFormed t
    Reachable-IsWellFormed start = tt
    Reachable-IsWellFormed (after event r) = step-IsWellFormed event _ (Reachable-IsWellFormed r)
