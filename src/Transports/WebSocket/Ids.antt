-- ===== src/Transports/WebSocket/Ids.antt =====
-- The ids of the requests that are pending (webSocket.ts).
use tosdk.Prelude.{
  ℕ, suc, pos, negsuc, ◌≤◌, ◌≡◌, refl, ap, inl, inr, arith, false, List, [], ◌∷◌, ◌++◌, Option,
  none, some, ◌==◌, Bool-cases,
}
use tosdk.Strings.{codes}
use tosdk.Json.{Json, null, boolean, number, string, array, object, Fields, get_field}
use tosdk.Transports.WebSocket.Messages.{
  answer_to, is_string, get_request, settle, settle_as, answer, handle_payload,
}
use tosdk.Transports.WebSocket.State.{
  map_get, Call, WebSocketState, StatePromise, unset, connecting, connected, failed, Transport,
  new_state, map_delete, map_set,
}
use tosdk.Transports.WebSocket.Steps.{forget_in, without_subscription, forget}

-- The ids grow strictly, from `low` on, and all are below `high`.
abbrev pub Ids : ℕ → ℕ → List (ℕ × Call) → Type 0
Ids low high [] = low ≤ high
Ids low high ((id, call) ∷ rest) = (low ≤ id) × Ids (suc id) high rest

pub Ids-bounds : (low high : ℕ) (pending : List (ℕ × Call)) → Ids low high pending → low ≤ high
Ids-bounds low high [] h = h
Ids-bounds low high ((id, call) ∷ rest) h =
    let b = Ids-bounds (suc id) high rest h.1 in omega (arith, h.0)

-- A new id goes to the end.
pub map_set-Ids :
    (low high : ℕ) (call : Call) (pending : List (ℕ × Call))
    → Ids low high pending
    → (map_set ◌==◌ high call pending ≡ pending ++ ((high, call) ∷ []))
      × Ids low (suc high) (map_set ◌==◌ high call pending)
unfolding map_set
map_set-Ids low high call [] h = (refl, (h, omega arith))
map_set-Ids low high call ((id, c) ∷ rest) h =
    let b = Ids-bounds (suc id) high rest h.1 in
    let ih = map_set-Ids (suc id) high call rest h.1 in
    let e : (id == high) ≡ false = ground (arith, b) in
    rw e (ap (λ l. (id, c) ∷ l) ih.0, (h.0, ih.1))

Ids-lower :
    (low lower high : ℕ) (pending : List (ℕ × Call))
    → lower ≤ low
    → Ids low high pending
    → Ids lower high pending
Ids-lower low lower high [] l h = omega (arith, l, h)
Ids-lower low lower high ((id, c) ∷ rest) l h = (omega (arith, l, h.0), h.1)

pub map_delete-Ids :
    (low high id : ℕ) (pending : List (ℕ × Call))
    → Ids low high pending
    → Ids low high (map_delete ◌==◌ id pending)
unfolding map_delete
map_delete-Ids low high id [] h = h
map_delete-Ids low high id ((k, c) ∷ rest) h = elim (Bool-cases (k == id)) [
  | inl e ↦ rw e (Ids-lower (suc k) low high rest (omega (arith, h.0)) h.1)
  | inr e ↦ rw e (h.0, map_delete-Ids (suc k) high id rest h.1)
]

abbrev pub IsWellFormedPromise : StatePromise → Type 0
IsWellFormedPromise unset = Unit
IsWellFormedPromise (connecting state calls) = state ≡ new_state
IsWellFormedPromise (connected state) = Ids 1 state.next_id state.pending_requests
IsWellFormedPromise (failed e) = Unit

-- Before the socket is open its state is untouched; then the ids of the pending requests grow
-- strictly, from 1 on, and are below the next one.
abbrev pub IsWellFormed : Transport → Type 0
IsWellFormed t = IsWellFormedPromise t.promise

abbrev pub IdsOf : WebSocketState → Type 0
IdsOf s = Ids 1 s.next_id s.pending_requests

settle_as-Ids :
    (socket : ℕ) (call : Call) (payload : Fields) (s : WebSocketState) (error : Option Json)
    → IdsOf s
    → IdsOf (settle_as socket call payload s error).0
unfolding settle_as
settle_as-Ids socket call payload s (some error) h = h
settle_as-Ids socket call payload s none h = ground (arith, h)

answer_to-Ids :
    (socket : ℕ) (payload : Fields) (s : WebSocketState) (found : Option (ℕ × Call))
    → IdsOf s
    → IdsOf (answer_to socket payload s found).0
unfolding answer_to settle
answer_to-Ids socket payload s none h = h
answer_to-Ids socket payload s (some (id, call)) h =
    settle_as-Ids socket call payload
      (record s { pending_requests = map_delete ◌==◌ id s.pending_requests })
      (get_field (codes "error") payload) (map_delete-Ids 1 s.next_id id s.pending_requests h)

pub handle_payload-Ids :
    (socket : ℕ) (payload : Option Json) (s : WebSocketState)
    → IdsOf s
    → IdsOf (handle_payload socket payload s).0
unfolding handle_payload answer
handle_payload-Ids socket (some (object payload)) s h =
    elim (Bool-cases (is_string (codes "tos_subscription") (get_field (codes "method") payload))) [
      | inl e ↦ rw e h
      | inr e ↦ rw e (
          answer_to-Ids socket payload s
            (get_request (get_field (codes "id") payload) s.pending_requests) h)
    ]
handle_payload-Ids socket none s h = h
handle_payload-Ids socket (some null) s h = h
handle_payload-Ids socket (some (boolean b)) s h = h
handle_payload-Ids socket (some (number n)) s h = h
handle_payload-Ids socket (some (string t)) s h = h
handle_payload-Ids socket (some (array items)) s h = h

-- Nothing is pending in a new state, so no message changes it.
get_request-none : (id : Option Json) → get_request id [] ≡ none
unfolding get_request map_get
get_request-none none = refl
get_request-none (some null) = refl
get_request-none (some (boolean b)) = refl
get_request-none (some (number (pos n))) = refl
get_request-none (some (number (negsuc n))) = refl
get_request-none (some (string t)) = refl
get_request-none (some (array items)) = refl
get_request-none (some (object fields)) = refl

pub handle_payload-new :
    (socket : ℕ) (payload : Option Json) → (handle_payload socket payload new_state).0 ≡ new_state
unfolding handle_payload answer answer_to
handle_payload-new socket (some (object payload)) =
    elim (Bool-cases (is_string (codes "tos_subscription") (get_field (codes "method") payload))) [
      | inl e ↦ rw e refl
      | inr e ↦ rw (e, get_request-none (get_field (codes "id") payload)) refl
    ]
handle_payload-new socket none = refl
handle_payload-new socket (some null) = refl
handle_payload-new socket (some (boolean b)) = refl
handle_payload-new socket (some (number n)) = refl
handle_payload-new socket (some (string t)) = refl
handle_payload-new socket (some (array items)) = refl

pub forget_in-IsWellFormed :
    (id : Option Json) (p : StatePromise)
    → IsWellFormedPromise p
    → IsWellFormedPromise (forget_in id p)
unfolding forget_in without_subscription map_delete
forget_in-IsWellFormed id unset h = tt
forget_in-IsWellFormed id (connecting s calls) h = rw h refl
forget_in-IsWellFormed id (connected s) h = h
forget_in-IsWellFormed id (failed e) h = tt

pub forget-IsWellFormed :
    (socket : ℕ) (id : Option Json) (t : Transport)
    → IsWellFormed t
    → IsWellFormed (forget socket id t)
unfolding forget
forget-IsWellFormed socket id t h = elim (Bool-cases (socket == t.sockets)) [
  | inl e ↦ rw e (forget_in-IsWellFormed id t.promise h)
  | inr e ↦ rw e h
]
