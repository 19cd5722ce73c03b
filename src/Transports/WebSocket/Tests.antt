-- ===== src/Transports/WebSocket/Tests.antt =====
-- A transport run on concrete events (webSocket.ts).
use tosdk.Prelude.{
  arith, ℕ, pos, ◌+◌, ◌≡◌, refl, Bool, false, List, [], ◌∷◌, Option, none, some, if◌then◌else◌,
}
use tosdk.Strings.{Text, codes, text_eq}
use tosdk.Json.{Json, null, number, string, object, nil, empty, field}
use tosdk.Transports.WebSocket.State.{
  Call, send, resolve, reject, connection_closed, connected, Transport,
}
use tosdk.Transports.WebSocket.Steps.{Event, request, opened, closed, message, step, run, initial}
use tosdk.Transports.WebSocket.Ids.{IsWellFormed}
use tosdk.Transports.WebSocket.Reachable.{start, after, Reachable-IsWellFormed}
use tosdk.Transports.WebSocket.Ledger.{settled, outstanding}
use tosdk.Transports.WebSocket.Runs.{asked_in, dropped_in, run-balance, open_close_lem}

abbrev sends : ℕ → Bool
sends id = false

-- The texts of three messages: the answer to request 1, one to it with `null` as its error, and
-- anything else.
abbrev parse : Text → Option Json
parse text =
    if text_eq text (codes "1")
    then some (
        object (
          field (codes "id") (number (pos 1)) (field (codes "result") (string (codes "0x")) empty)))
    else if text_eq text (codes "2")
    then some (object (field (codes "id") (number (pos 1)) (field (codes "error") null empty)))
    else none

abbrev call_of : ℕ → Call
call_of caller = record {
  caller = caller;
  method = codes "tos_blockNumber";
  params = nil;
  handler = none;
}

-- Two calls before the socket opens, the answer to the first, and the close.
abbrev events : List Event
events =
    request none (call_of 7) ∷ request none (call_of 8) ∷ opened ∷ message (codes "1") ∷ closed ∷ []

run_events :
    (run sends parse events initial).1
    ≡ send 1 (codes "tos_blockNumber") nil
      ∷ send 2 (codes "tos_blockNumber") nil
      ∷ resolve 7 (some (string (codes "0x")))
      ∷ reject 8 connection_closed
      ∷ []
unfolding run
run_events = refl

-- An answer whose error is `null` settles nothing.
null_error :
    (run sends parse
      (request none (call_of 7) ∷ opened ∷ message (codes "2") ∷ closed ∷ [])
      initial).1
    ≡ send 1 (codes "tos_blockNumber") nil ∷ []
unfolding run
null_error = refl

-- A close before the socket opened settles nothing.
early_close : (run sends parse (request none (call_of 7) ∷ closed ∷ []) initial).1 ≡ []
unfolding run
early_close = refl

Reachable-IsWellFormed_example :
    IsWellFormed (step sends parse opened (step sends parse (request none (call_of 7)) initial).0).0
Reachable-IsWellFormed_example =
    Reachable-IsWellFormed sends parse (after opened (after (request none (call_of 7)) start))

run-balance_example :
    asked_in 8 events + 0
    ≡ settled 8 (run sends parse events initial).1
      + dropped_in parse sends 8 events initial
      + outstanding 8 (run sends parse events initial).0.promise
run-balance_example = run-balance parse sends (λ id. refl) 8 events initial tt

abbrev one_pending : Transport
one_pending = record {
  promise =
      connected
        (record { next_id = 5; pending_requests = (4, call_of 7) ∷ []; subscriptions = [] });
  sockets = 1;
}

open_close_lem_example :
    (settled 7 (run sends parse (opened ∷ closed ∷ []) one_pending).1 ≡ 1)
    × (outstanding 7 (run sends parse (opened ∷ closed ∷ []) one_pending).0.promise ≡ 0)
open_close_lem_example =
    open_close_lem parse sends (λ id. refl) 7 one_pending (omega arith, omega arith)
