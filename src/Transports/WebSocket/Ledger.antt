-- ===== src/Transports/WebSocket/Ledger.antt =====
-- What becomes of the calls (webSocket.ts): by the number of a caller, the calls that wait for the
-- socket or for an answer, the promises that are settled, and the calls that are dropped unsettled.
use tosdk.Prelude.{
  ℕ, pos, negsuc, ◌+◌, ◌≡◌, refl, inl, inr, arith, List, [], ◌∷◌, ◌++◌, Option, none, some, ◌==◌,
  if◌then◌else◌, Bool-cases,
}
use tosdk.Strings.{codes}
use tosdk.Json.{Json, null, boolean, number, string, array, object, Fields, get_field}
use tosdk.Transports.WebSocket.State.{
  Call, Effect, send, resolve, reject, subscribed, deliver, report, WebSocketState, StatePromise,
  unset, connecting, connected, failed, map_delete, map_get,
}
use tosdk.Transports.WebSocket.Messages.{
  get_request, error_effects, settle, settle_as, answer_to, answer, notify, is_string,
  handle_payload,
}
use tosdk.Transports.WebSocket.Steps.{Event, request, unsubscribe, opened, closed, errored, message}

abbrev pub tally : ℕ → ℕ → ℕ
tally c caller = if caller == c then 1 else 0

abbrev pub waiting : ℕ → List Call → ℕ
waiting c [] = 0
waiting c (call ∷ calls) = tally c call.caller + waiting c calls

abbrev pub unanswered : ℕ → List (ℕ × Call) → ℕ
unanswered c [] = 0
unanswered c ((id, call) ∷ rest) = tally c call.caller + unanswered c rest

-- The calls of `c` that are not done with.
abbrev pub outstanding : ℕ → StatePromise → ℕ
outstanding c unset = 0
outstanding c (connecting state calls) = waiting c calls + unanswered c state.pending_requests
outstanding c (connected state) = unanswered c state.pending_requests
outstanding c (failed e) = 0

abbrev pub settled : ℕ → List Effect → ℕ
settled c [] = 0
settled c (send id method params ∷ rest) = settled c rest
settled c (resolve caller value ∷ rest) = tally c caller + settled c rest
settled c (reject caller error ∷ rest) = tally c caller + settled c rest
settled c (subscribed caller socket id ∷ rest) = tally c caller + settled c rest
settled c (deliver handler value ∷ rest) = settled c rest
settled c (report handler error ∷ rest) = settled c rest

-- The calls that an event makes.
abbrev pub asked : ℕ → Event → ℕ
asked c (request failure call) = tally c call.caller
asked c (unsubscribe socket id failure call) = tally c call.caller
asked c opened = 0
asked c closed = 0
asked c errored = 0
asked c (message text) = 0

-- An answer whose error is `null` leaves its promise unsettled.
abbrev dropped_by : ℕ → ℕ → Option Json → ℕ
dropped_by c caller (some null) = tally c caller
dropped_by c caller none = 0
dropped_by c caller (some (boolean b)) = 0
dropped_by c caller (some (number n)) = 0
dropped_by c caller (some (string s)) = 0
dropped_by c caller (some (array items)) = 0
dropped_by c caller (some (object fields)) = 0

abbrev dropped_to : ℕ → Fields → Option (ℕ × Call) → ℕ
dropped_to c payload none = 0
dropped_to c payload (some (id, call)) =
    dropped_by c call.caller (get_field (codes "error") payload)

abbrev pub dropped_payload : ℕ → Option Json → WebSocketState → ℕ
dropped_payload c (some (object payload)) state =
    if is_string (codes "tos_subscription") (get_field (codes "method") payload)
    then 0
    else dropped_to c payload (get_request (get_field (codes "id") payload) state.pending_requests)
dropped_payload c none state = 0
dropped_payload c (some null) state = 0
dropped_payload c (some (boolean b)) state = 0
dropped_payload c (some (number n)) state = 0
dropped_payload c (some (string s)) state = 0
dropped_payload c (some (array items)) state = 0

pub settled-++ : (c : ℕ) (xs ys : List Effect) → settled c (xs ++ ys) ≡ settled c xs + settled c ys
settled-++ c [] ys = omega arith
settled-++ c (send id method params ∷ rest) ys = settled-++ c rest ys
settled-++ c (resolve caller value ∷ rest) ys = let ih = settled-++ c rest ys in omega (arith, ih)
settled-++ c (reject caller error ∷ rest) ys = let ih = settled-++ c rest ys in omega (arith, ih)
settled-++ c (subscribed caller socket id ∷ rest) ys =
    let ih = settled-++ c rest ys in omega (arith, ih)
settled-++ c (deliver handler value ∷ rest) ys = settled-++ c rest ys
settled-++ c (report handler error ∷ rest) ys = settled-++ c rest ys

pub unanswered-++ :
    (c : ℕ) (xs ys : List (ℕ × Call)) → unanswered c (xs ++ ys) ≡ unanswered c xs + unanswered c ys
unanswered-++ c [] ys = omega arith
unanswered-++ c ((id, call) ∷ rest) ys = let ih = unanswered-++ c rest ys in omega (arith, ih)

pub waiting-++ : (c : ℕ) (xs ys : List Call) → waiting c (xs ++ ys) ≡ waiting c xs + waiting c ys
waiting-++ c [] ys = omega arith
waiting-++ c (call ∷ rest) ys = let ih = waiting-++ c rest ys in omega (arith, ih)

-- Taking a pending request out.
unanswered-map_delete :
    (c id : ℕ) (call : Call) (pending : List (ℕ × Call))
    → map_get ◌==◌ id pending ≡ some call
    → unanswered c pending ≡ tally c call.caller + unanswered c (map_delete ◌==◌ id pending)
unfolding map_get map_delete
unanswered-map_delete c id call [] h = absurd (ground (arith, h))
unanswered-map_delete c id call ((k, d) ∷ rest) h =
    ground (arith, h, unanswered-map_delete c id call rest)

error_effects-settled :
    (c caller : ℕ) (error : Json)
    → settled c (error_effects caller error) + dropped_by c caller (some error) ≡ tally c caller
unfolding error_effects
error_effects-settled c caller null = omega arith
error_effects-settled c caller (boolean b) = omega arith
error_effects-settled c caller (number n) = omega arith
error_effects-settled c caller (string s) = omega arith
error_effects-settled c caller (array items) = omega arith
error_effects-settled c caller (object fields) = omega arith

settle_lem :
    (c socket : ℕ) (call : Call) (payload : Fields) (s : WebSocketState) (error : Option Json)
    → (settled c (settle_as socket call payload s error).1 + dropped_by c call.caller error
        ≡ tally c call.caller)
      × ((settle_as socket call payload s error).0.pending_requests ≡ s.pending_requests)
unfolding settle_as
settle_lem c socket call payload s (some error) = (error_effects-settled c call.caller error, refl)
settle_lem c socket call payload s none = ground arith

-- The request that an id finds, if it finds any.
get_request-map_get :
    (id : Option Json) (n : ℕ) (call : Call) (pending : List (ℕ × Call))
    → get_request id pending ≡ some (n, call)
    → map_get ◌==◌ n pending ≡ some call
unfolding get_request
get_request-map_get (some (number (pos m))) n call pending h = ground (arith, h)
get_request-map_get none n call pending h = cc
get_request-map_get (some null) n call pending h = cc
get_request-map_get (some (boolean b)) n call pending h = cc
get_request-map_get (some (number (negsuc m))) n call pending h = cc
get_request-map_get (some (string t)) n call pending h = cc
get_request-map_get (some (array items)) n call pending h = cc
get_request-map_get (some (object fields)) n call pending h = cc

answer_to_lem :
    (c socket : ℕ) (payload : Fields) (s : WebSocketState) (found : Option (ℕ × Call))
    → get_request (get_field (codes "id") payload) s.pending_requests ≡ found
    → unanswered c s.pending_requests
      ≡ settled c (answer_to socket payload s found).1
        + dropped_to c payload found
        + unanswered c (answer_to socket payload s found).0.pending_requests
unfolding answer_to settle
answer_to_lem c socket payload s none h = omega arith
answer_to_lem c socket payload s (some (id, call)) h =
    let left = record s { pending_requests = map_delete ◌==◌ id s.pending_requests } in
    let (e, same) = settle_lem c socket call payload left (get_field (codes "error") payload) in
    let d =
      unanswered-map_delete c id call s.pending_requests
        (get_request-map_get (get_field (codes "id") payload) id call s.pending_requests h) in
    rw same (omega (arith, e, d))

notify-settled : (c : ℕ) (payload : Fields) (s : WebSocketState) → settled c (notify payload s) ≡ 0
unfolding notify
notify-settled c payload s = ground arith

pub handle_payload_lem :
    (c socket : ℕ) (payload : Option Json) (s : WebSocketState)
    → unanswered c s.pending_requests
      ≡ settled c (handle_payload socket payload s).1
        + dropped_payload c payload s
        + unanswered c (handle_payload socket payload s).0.pending_requests
unfolding handle_payload answer
handle_payload_lem c socket (some (object payload)) s =
    elim (Bool-cases (is_string (codes "tos_subscription") (get_field (codes "method") payload))) [
      | inl e ↦ rw (e, notify-settled c payload s) (omega arith)
      | inr e ↦ rw e (
          answer_to_lem c socket payload s
            (get_request (get_field (codes "id") payload) s.pending_requests) refl)
    ]
handle_payload_lem c socket none s = omega arith
handle_payload_lem c socket (some null) s = omega arith
handle_payload_lem c socket (some (boolean b)) s = omega arith
handle_payload_lem c socket (some (number n)) s = omega arith
handle_payload_lem c socket (some (string t)) s = omega arith
handle_payload_lem c socket (some (array items)) s = omega arith
