-- ===== src/Transports/WebSocket/Messages.antt =====
-- What a message of the socket does (handleMessage in webSocket.ts).
use tosdk.Prelude.{
  ℕ, pos, negsuc, Bool, true, false, List, [], ◌∷◌, Option, none, some, ◌==◌, if◌then◌else◌,
}
use tosdk.Strings.{Text, codes, text_eq}
use tosdk.Json.{Json, null, boolean, number, string, object, Fields, get_field}
use tosdk.Transports.WebSocket.State.{
  Call, Effect, WebSocketState, deliver, map_delete, map_get, map_set, reject, resolve,
  response_error, subscribed,
}

-- Whether two values are one key of a Map: objects and arrays that were parsed apart never are.
unfoldable pub same_key : Option Json → Option Json → Bool
same_key none none = true
same_key (some null) (some null) = true
same_key (some (boolean true)) (some (boolean b)) = b
same_key (some (boolean false)) (some (boolean true)) = false
same_key (some (boolean false)) (some (boolean false)) = true
same_key (some (number (pos m))) (some (number (pos n))) = m == n
same_key (some (number (negsuc m))) (some (number (negsuc n))) = m == n
same_key (some (string s)) (some (string t)) = text_eq s t
same_key _ _ = false

-- value.name where it does not throw
unfoldable pub member : Text → Option Json → Option Json
unfolding get_field
member name (some (object fields)) = get_field name fields
member name _ = none

-- value === text
unfoldable pub is_string : Text → Option Json → Bool
unfolding text_eq
is_string text (some (string s)) = text_eq s text
is_string text _ = false

-- state.pendingRequests.get(id)
unfoldable pub get_request : Option Json → List (ℕ × Call) → Option (ℕ × Call)
unfolding map_get
get_request (some (number (pos n))) pending = elim (map_get ◌==◌ n pending) [
  | none ↦ none
  | some call ↦ some (n, call)
]
get_request _ pending = none

-- `null` as the error of an answer throws before anything is settled.
unfoldable pub error_effects : ℕ → Json → List Effect
unfolding member
error_effects caller null = []
error_effects caller error =
    reject caller (
      response_error (member (codes "code") (some error)) (member (codes "data") (some error))
        (member (codes "message") (some error)))
    ∷ []

-- By the error of the answer, if it has one. A subscription is entered under its id.
unfoldable pub settle_as :
    ℕ → Call → Fields → WebSocketState → Option Json → WebSocketState × List Effect
unfolding error_effects map_set same_key get_field
settle_as socket call payload state (some error) = (state, error_effects call.caller error)
settle_as socket call payload state none =
    let result = get_field (codes "result") payload in
    elim call.handler [
      | none ↦ (state, resolve call.caller result ∷ [])
      | some handler ↦ (
        record state { subscriptions = map_set same_key result handler state.subscriptions },
        subscribed call.caller socket result ∷ [],
      )
    ]

-- What becomes of a request that is answered.
unfoldable pub settle : ℕ → Call → Fields → WebSocketState → WebSocketState × List Effect
unfolding settle_as get_field
settle socket call payload state =
    settle_as socket call payload state (get_field (codes "error") payload)

unfoldable pub answer_to :
    ℕ → Fields → WebSocketState → Option (ℕ × Call) → WebSocketState × List Effect
unfolding map_delete settle
answer_to socket payload state none = (state, [])
answer_to socket payload state (some (id, call)) =
    settle socket call payload
      (record state { pending_requests = map_delete ◌==◌ id state.pending_requests })

unfoldable pub answer : ℕ → Fields → WebSocketState → WebSocketState × List Effect
unfolding get_request answer_to get_field
answer socket payload state =
    answer_to socket payload state
      (get_request (get_field (codes "id") payload) state.pending_requests)

-- Where value.name throws, undefined and null are none.
unfoldable pub non_null : Option Json → Option Json
non_null none = none
non_null (some null) = none
non_null (some value) = some value

unfoldable pub notify : Fields → WebSocketState → List Effect
unfolding member map_get same_key get_field non_null
notify payload state = elim (non_null (get_field (codes "params") payload)) [
  | none ↦ []
  | some params ↦
      elim (map_get same_key (member (codes "subscription") (some params)) state.subscriptions) [
        | none ↦ []
        | some handler ↦ deliver handler.on_data (member (codes "result") (some params)) ∷ []
      ]
]

-- handleMessage on what was parsed; nothing is done where it throws.
unfoldable pub handle_payload : ℕ → Option Json → WebSocketState → WebSocketState × List Effect
unfolding answer notify is_string get_field
handle_payload socket (some (object payload)) state =
    if is_string (codes "tos_subscription") (get_field (codes "method") payload)
    then (state, notify payload state)
    else answer socket payload state
handle_payload socket _ state = (state, [])
