-- ===== src/Transports/WebSocket/State.antt =====
-- The state of a transport over a web socket (src/transports/webSocket.ts): the requests that are
-- pending and the subscriptions of its one live socket, the promise `statePromise` with the calls that
-- await it, and the methods of Map. A call's promise is named by a number, its caller.
use tosdk.Prelude.{ℕ, Bool, List, [], ◌∷◌, Option, none, some, if◌then◌else◌}
use tosdk.Strings.{Text}
use tosdk.Json.{Json, Items}

pub data TransportError : Type 0 where
  web_socket_unavailable connection_closed send_failed : TransportError
  -- RpcResponseError: code, data and message
  response_error : Option Json → Option Json → Option Json → TransportError

-- The callbacks of a subscription, named by a number; onError may be left out.
pub record SubscriptionHandler : Type 0 where
  pub on_data : ℕ
  pub on_error : Option ℕ

-- A call of `request`, or the request that `subscribe` makes for its handler.
pub record Call : Type 0 where
  pub caller : ℕ
  pub method : Text
  pub params : Items
  pub handler : Option SubscriptionHandler

pub data Effect : Type 0 where
  send : ℕ → Text → Items → Effect
  resolve : ℕ → Option Json → Effect
  reject : ℕ → TransportError → Effect
  -- the promise of subscribe: the number of the socket and the id
  subscribed : ℕ → ℕ → Option Json → Effect
  deliver : ℕ → Option Json → Effect
  report : ℕ → TransportError → Effect

pub record WebSocketState : Type 0 where
  pub next_id : ℕ
  pub pending_requests : List (ℕ × Call)
  pub subscriptions : List (Option Json × SubscriptionHandler)

-- The variable statePromise, with the calls that await it.
pub data StatePromise : Type 0 where
  unset : StatePromise
  connecting : WebSocketState → List Call → StatePromise
  connected : WebSocketState → StatePromise
  failed : TransportError → StatePromise

-- `sockets` counts the sockets made so far; the last of them is the live one.
pub record Transport : Type 0 where
  pub promise : StatePromise
  pub sockets : ℕ

abbrev pub new_state : WebSocketState
new_state = record { next_id = 1; pending_requests = []; subscriptions = [] }

-- The methods of Map, on any test of two keys.
module _ {K V : Type 0} (same : K → K → Bool) where
  unfoldable pub map_get : K → List (K × V) → Option V
  map_get key [] = none
  map_get key ((k, v) ∷ rest) = let later = map_get key rest in if same k key then some v else later

  unfoldable pub map_delete : K → List (K × V) → List (K × V)
  map_delete key [] = []
  map_delete key ((k, v) ∷ rest) =
      let later = map_delete key rest in if same k key then rest else (k, v) ∷ later

  unfoldable pub map_set : K → V → List (K × V) → List (K × V)
  map_set key value [] = (key, value) ∷ []
  map_set key value ((k, v) ∷ rest) =
      let later = map_set key value rest in
      if same k key then (key, value) ∷ rest else (k, v) ∷ later
