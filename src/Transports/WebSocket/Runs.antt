-- ===== src/Transports/WebSocket/Runs.antt =====
-- The balance of the calls over a run (webSocket.ts).
use tosdk.Prelude.{ℕ, ◌+◌, ◌≡◌, refl, arith, Bool, false, List, [], ◌∷◌, Option}
use tosdk.Strings.{Text}
use tosdk.Json.{Json}
use tosdk.Transports.WebSocket.State.{StatePromise, unset, connecting, connected, failed, Transport}
use tosdk.Transports.WebSocket.Steps.{Event, opened, closed, handle_open, handle_close, step, run}
use tosdk.Transports.WebSocket.Ids.{IsWellFormed}
use tosdk.Transports.WebSocket.Reachable.{step-IsWellFormed}
use tosdk.Transports.WebSocket.Ledger.{outstanding, settled, asked, settled-++}
use tosdk.Transports.WebSocket.Balance.{dropped, dropped_close, step_lem}

abbrev pub asked_in : ℕ → List Event → ℕ
asked_in c [] = 0
asked_in c (event ∷ events) = asked c event + asked_in c events

module _ (json_parse : Text → Option Json) where
  module _ (send_throws : ℕ → Bool) where
    -- The calls of `c` that are dropped along a run.
    abbrev pub dropped_in : ℕ → List Event → Transport → ℕ
    dropped_in c [] t = 0
    dropped_in c (event ∷ events) t =
        dropped json_parse c event t + dropped_in c events (step send_throws json_parse event t).0

    -- Where socket.send does not throw, from a well-formed state on and for each caller: the calls
    -- made in a run and those outstanding before it are, together, the promises settled, the calls
    -- dropped and those outstanding after it.
    pub run-balance :
        ((id : ℕ) → send_throws id ≡ false)
        → (c : ℕ) (events : List Event) (t : Transport) → IsWellFormed t
        → asked_in c events + outstanding c t.promise
          ≡ settled c (run send_throws json_parse events t).1
            + dropped_in c events t
            + outstanding c (run send_throws json_parse events t).0.promise
    unfolding run
    run-balance sends c [] t h = omega arith
    run-balance sends c (event ∷ events) t h =
        let now = step send_throws json_parse event t in
        let a = step_lem json_parse send_throws sends c event t h in
        let ih =
          run-balance sends c events now.0 (step-IsWellFormed send_throws json_parse event t h) in
        let b = settled-++ c now.1 (run send_throws json_parse events now.0).1 in
        omega (arith, a, ih, b)

    closed-outstanding :
        (c : ℕ) (p : StatePromise) (n : ℕ)
        → outstanding c (handle_close (record { promise = p; sockets = n })).0.promise ≡ 0
    unfolding handle_close
    closed-outstanding c unset n = refl
    closed-outstanding c (connecting s calls) n = refl
    closed-outstanding c (connected s) n = refl
    closed-outstanding c (failed e) n = refl

    opened-dropped_close :
        (c : ℕ) (p : StatePromise) (n : ℕ)
        → dropped_close c (handle_open send_throws (record { promise = p; sockets = n })).0.promise
          ≡ 0
    unfolding handle_open
    opened-dropped_close c unset n = refl
    opened-dropped_close c (connecting s calls) n = refl
    opened-dropped_close c (connected s) n = refl
    opened-dropped_close c (failed e) n = refl

    -- Where socket.send does not throw, in every well-formed state: once the socket has opened and
    -- then closes, every outstanding call is settled, just once, and none is outstanding.
    pub open_close_lem :
        ((id : ℕ) → send_throws id ≡ false)
        → (c : ℕ) (t : Transport) → IsWellFormed t
        → (settled c (run send_throws json_parse (opened ∷ closed ∷ []) t).1
            ≡ outstanding c t.promise)
          × (outstanding c (run send_throws json_parse (opened ∷ closed ∷ []) t).0.promise ≡ 0)
    unfolding run step
    open_close_lem sends c t h =
        let balance = run-balance sends c (opened ∷ closed ∷ []) t h in
        let now = (handle_open send_throws t).0 in
        let a = closed-outstanding c now.promise now.sockets in
        let b = opened-dropped_close c t.promise t.sockets in (omega (arith, balance, a, b), a)
