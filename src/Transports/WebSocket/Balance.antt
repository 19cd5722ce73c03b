-- ===== src/Transports/WebSocket/Balance.antt =====
-- Every call is waiting, pending, settled or dropped, step by step (webSocket.ts).
use tosdk.Prelude.{ℕ, ◌+◌, ◌≡◌, refl, arith, Bool, false, List, [], ◌∷◌, Option, none, some}
use tosdk.Strings.{Text}
use tosdk.Json.{Json}
use tosdk.Transports.WebSocket.State.{
  Call, WebSocketState, StatePromise, unset, connecting, connected, failed, Transport,
  TransportError, SubscriptionHandler,
}
use tosdk.Transports.WebSocket.Steps.{
  forget, forget_in, without_subscription, Event, request, unsubscribe, opened, closed, errored,
  message, run_call, run_calls, start_call, handle_open, handle_close, reports, rejections,
  close_effects, parse_data, handle_message, step,
}
use tosdk.Transports.WebSocket.Ids.{
  IsWellFormed, IsWellFormedPromise, Ids, map_set-Ids, forget-IsWellFormed,
}
use tosdk.Transports.WebSocket.Reachable.{run_call-Ids}
use tosdk.Transports.WebSocket.Ledger.{
  tally, waiting, unanswered, outstanding, settled, asked, dropped_payload, settled-++,
  unanswered-++, waiting-++, handle_payload_lem,
}

reports-settled :
    (c : ℕ) (subs : List (Option Json × SubscriptionHandler)) → settled c (reports subs) ≡ 0
unfolding reports
reports-settled c [] = refl
reports-settled c ((id, handler) ∷ rest) = ground (arith, reports-settled c rest)

rejections-settled :
    (c : ℕ) (pending : List (ℕ × Call)) → settled c (rejections pending) ≡ unanswered c pending
unfolding rejections
rejections-settled c [] = refl
rejections-settled c ((id, call) ∷ rest) = let ih = rejections-settled c rest in omega (arith, ih)

close_effects-settled :
    (c : ℕ) (s : WebSocketState) → settled c (close_effects s) ≡ unanswered c s.pending_requests
unfolding close_effects
close_effects-settled c s =
    let e = settled-++ c (rejections s.pending_requests) (reports s.subscriptions) in
    omega (arith, e, reports-settled c s.subscriptions, rejections-settled c s.pending_requests)

forget-outstanding :
    (c socket : ℕ) (id : Option Json) (p : StatePromise) (n : ℕ)
    → outstanding c (forget socket id (record { promise = p; sockets = n })).promise
      ≡ outstanding c p
unfolding forget forget_in without_subscription
forget-outstanding c socket id unset n = ground arith
forget-outstanding c socket id (connecting s calls) n = ground arith
forget-outstanding c socket id (connected s) n = ground arith
forget-outstanding c socket id (failed e) n = ground arith

-- The calls that a close drops: those that wait for a socket that never opened.
abbrev pub dropped_close : ℕ → StatePromise → ℕ
dropped_close c unset = 0
dropped_close c (connecting state calls) = waiting c calls
dropped_close c (connected state) = 0
dropped_close c (failed e) = 0

abbrev dropped_message : ℕ → Option Json → StatePromise → ℕ
dropped_message c payload unset = 0
dropped_message c payload (connecting state calls) = dropped_payload c payload state
dropped_message c payload (connected state) = dropped_payload c payload state
dropped_message c payload (failed e) = 0

module _ (json_parse : Text → Option Json) where
  -- The calls of `c` that a step forgets without settling them.
  abbrev pub dropped : ℕ → Event → Transport → ℕ
  dropped c (request failure call) t = 0
  dropped c (unsubscribe socket id failure call) t = 0
  dropped c opened t = 0
  dropped c closed t = dropped_close c t.promise
  dropped c errored t = 0
  dropped c (message text) t = dropped_message c (parse_data json_parse text) t.promise

  module _ (send_throws : ℕ → Bool) (sends : (id : ℕ) → send_throws id ≡ false) where
    run_call_lem :
        (c : ℕ) (call : Call) (s : WebSocketState)
        → Ids 1 s.next_id s.pending_requests
        → (settled c (run_call send_throws call s).1 ≡ 0)
          × (unanswered c (run_call send_throws call s).0.pending_requests
              ≡ tally c call.caller + unanswered c s.pending_requests)
    unfolding run_call
    run_call_lem c call s h =
        let e = (map_set-Ids 1 s.next_id call s.pending_requests h).0 in
        let a = unanswered-++ c s.pending_requests ((s.next_id, call) ∷ []) in
        rw (sends s.next_id, e) (refl, omega (arith, a))

    run_calls_lem :
        (c : ℕ) (calls : List Call) (s : WebSocketState)
        → Ids 1 s.next_id s.pending_requests
        → (settled c (run_calls send_throws calls s).1 ≡ 0)
          × (unanswered c (run_calls send_throws calls s).0.pending_requests
              ≡ waiting c calls + unanswered c s.pending_requests)
    unfolding run_calls
    run_calls_lem c [] s h = (refl, omega arith)
    run_calls_lem c (call ∷ calls) s h =
        let (e, f) = run_call_lem c call s h in
        let next = run_call send_throws call s in
        let ih = run_calls_lem c calls next.0 (run_call-Ids send_throws call s h) in
        (
          omega (arith, e, ih.0, settled-++ c next.1 (run_calls send_throws calls next.0).1),
          omega (arith, f, ih.1),
        )

    start_call_lem :
        (c : ℕ) (failure : Option TransportError) (call : Call) (p : StatePromise) (n : ℕ)
        → IsWellFormedPromise p
        → tally c call.caller + outstanding c p
          ≡ settled c (start_call send_throws failure call (record { promise = p; sockets = n })).1
            + outstanding c
                (start_call send_throws failure call
                  (record { promise = p; sockets = n })).0.promise
    unfolding start_call
    start_call_lem c none call unset n h = omega arith
    start_call_lem c (some e) call unset n h = omega arith
    start_call_lem c failure call (connecting s calls) n h =
        let a = waiting-++ c calls (call ∷ []) in omega (arith, a)
    start_call_lem c failure call (connected s) n h =
        let (a, b) = run_call_lem c call s h in omega (arith, a, b)
    start_call_lem c failure call (failed e) n h = omega arith

    handle_open_lem :
        (c : ℕ) (p : StatePromise) (n : ℕ)
        → IsWellFormedPromise p
        → outstanding c p
          ≡ settled c (handle_open send_throws (record { promise = p; sockets = n })).1
            + outstanding c
                (handle_open send_throws (record { promise = p; sockets = n })).0.promise
    unfolding handle_open
    handle_open_lem c unset n h = omega arith
    handle_open_lem c (connecting s calls) n h =
        let (a, b) = run_calls_lem c calls s (rw h (omega arith)) in omega (arith, a, b)
    handle_open_lem c (connected s) n h = omega arith
    handle_open_lem c (failed e) n h = omega arith

    handle_close_lem :
        (c : ℕ) (p : StatePromise) (n : ℕ)
        → outstanding c p
          ≡ settled c (handle_close (record { promise = p; sockets = n })).1
            + dropped_close c p
            + outstanding c (handle_close (record { promise = p; sockets = n })).0.promise
    unfolding handle_close
    handle_close_lem c unset n = omega arith
    handle_close_lem c (connecting s calls) n =
        let a = close_effects-settled c s in omega (arith, a)
    handle_close_lem c (connected s) n = let a = close_effects-settled c s in omega (arith, a)
    handle_close_lem c (failed e) n = omega arith

    handle_message_lem :
        (c : ℕ) (text : Text) (p : StatePromise) (n : ℕ)
        → outstanding c p
          ≡ settled c (handle_message json_parse text (record { promise = p; sockets = n })).1
            + dropped_message c (parse_data json_parse text) p
            + outstanding c
                (handle_message json_parse text (record { promise = p; sockets = n })).0.promise
    unfolding handle_message
    handle_message_lem c text unset n = omega arith
    handle_message_lem c text (connecting s calls) n =
        let a = handle_payload_lem c n (parse_data json_parse text) s in omega (arith, a)
    handle_message_lem c text (connected s) n =
        let a = handle_payload_lem c n (parse_data json_parse text) s in omega (arith, a)
    handle_message_lem c text (failed e) n = omega arith

    -- The balance of one step.
    pub step_lem :
        (c : ℕ) (event : Event) (t : Transport)
        → IsWellFormed t
        → asked c event + outstanding c t.promise
          ≡ settled c (step send_throws json_parse event t).1
            + dropped c event t
            + outstanding c (step send_throws json_parse event t).0.promise
    unfolding step
    step_lem c (request failure call) t h =
        let a = start_call_lem c failure call t.promise t.sockets h in omega (arith, a)
    step_lem c (unsubscribe socket id failure call) t h =
        let after = forget socket id t in
        let a =
          start_call_lem c failure call after.promise after.sockets
            (forget-IsWellFormed socket id t h) in
        let b = forget-outstanding c socket id t.promise t.sockets in omega (arith, a, b)
    step_lem c opened t h = let a = handle_open_lem c t.promise t.sockets h in omega (arith, a)
    step_lem c closed t h = let a = handle_close_lem c t.promise t.sockets in omega (arith, a)
    step_lem c errored t h = omega arith
    step_lem c (message text) t h =
        let a = handle_message_lem c text t.promise t.sockets in omega (arith, a)
