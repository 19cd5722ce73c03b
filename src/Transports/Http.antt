-- ===== src/Transports/Http.antt =====
-- src/transports/http.ts: requests over HTTP. The function that fetches, JSON.stringify and the body
-- of a response are parameters; the state is the world and the id of the next request.
use tosdk.Prelude.{ℕ, ◌+◌, pos, Bool, Option, none, some, if◌then◌else◌}
use tosdk.Prelude.Results.{Result, ok, err, type_error, rpc_url_required, rpc_request, rpc_response}
use tosdk.Strings.{Text, codes}
use tosdk.Json.{
  Json, null, boolean, number, string, array, object, Items, Fields, empty, field, get_field,
  set_field,
}
use tosdk.Surfaces.Client.{Async, ◌>>=◌, return}
use tosdk.Surfaces.Preferences.{truthy_text}
use tosdk.Surfaces.Runtime.Normalize.{or_else}

pub record FetchOptions : Type 0 where
  pub body : Text
  pub headers : Fields
  pub method : Text

-- What a fetch answers: its body can be read as text, or as JSON, which may throw.
pub record Response (W : Type 0) : Type 0 where
  pub is_ok : Bool
  pub text : Async W Text
  pub json : Async W Json

-- config.url ?? chain?.rpcUrls.default.http[0], which has to be there
unfoldable pub resolve_url : Option Text → Option Text → Result Text
resolve_url config_url chain_url = elim (truthy_text (or_else config_url chain_url)) [
  | none ↦ err rpc_url_required
  | some url ↦ ok url
]

-- The fields of a record, and those of another over them.
unfoldable pub spread : Fields → Fields → Fields
unfolding set_field
spread base empty = base
spread base (field name value rest) = spread (set_field name value base) rest

-- { 'content-type': 'application/json', ...(config.headers ?? {}) }
unfoldable pub headers_of : Option Fields → Fields
unfolding spread
headers_of none = field (codes "content-type") (string (codes "application/json")) empty
headers_of (some given) =
    spread (field (codes "content-type") (string (codes "application/json")) empty) given

-- { id, jsonrpc: '2.0', method, params }
unfoldable pub envelope : ℕ → Text → Items → Json
envelope id method params = object (
    field (codes "id") (number (pos id)) (
      field (codes "jsonrpc") (string (codes "2.0"))
        (field (codes "method") (string method) (field (codes "params") (array params) empty))))

-- new RpcResponseError({ code: payload.error.code, ... }): a null has no fields, and a value that is
-- no record has none of these.
unfoldable pub response_error : Json → Result Json
response_error null = err type_error
response_error (boolean b) = err rpc_response
response_error (number n) = err rpc_response
response_error (string s) = err rpc_response
response_error (array items) = err rpc_response
response_error (object fields) = err rpc_response

-- payload.result. (JSON has no undefined: a payload without a result answers null here.)
unfoldable pub result_of : Option Json → Json
result_of none = null
result_of (some j) = j

-- 'error' in payload: only a record or an array may be asked for its names.
unfoldable pub read_payload : Json → Result Json
unfolding get_field response_error result_of
read_payload (object fields) = elim (get_field (codes "error") fields) [
  | some e ↦ response_error e
  | none ↦ ok (result_of (get_field (codes "result") fields))
]
read_payload (array items) = ok null
read_payload null = err type_error
read_payload (boolean b) = err type_error
read_payload (number n) = err type_error
read_payload (string s) = err type_error

module _ {W : Type 0} where
  -- A response that is not ok has its body read for the exception.
  unfoldable pub read_response : Response W → Async W Json
  unfolding read_payload
  read_response response =
      if response.is_ok
      then (response.json >>= λ payload. return (read_payload payload))
      else (response.text >>= λ body. return (err rpc_request))

module _ {W : Type 0} (fetch_fn : Text → FetchOptions → Async W (Response W))
    (json_stringify : Json → Text) (headers : Option Fields) (url : Text) where
  unfoldable pub options_of : ℕ → Text → Items → FetchOptions
  unfolding headers_of envelope
  options_of id method params = record {
    body = json_stringify (envelope id method params);
    headers = headers_of headers;
    method = codes "POST";
  }

  -- The exchange for one id.
  unfoldable pub exchange : ℕ → Text → Items → Async W Json
  unfolding read_response
  exchange id method params =
      fetch_fn url (options_of id method params) >>= λ response. read_response response

  unfoldable pub http_request : Text → Items → Async (W × ℕ) Json
  http_request method params s = let r = exchange s.1 method params s.0 in (r.0, (r.1, s.1 + 1))
