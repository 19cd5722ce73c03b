-- ===== src/Transports/Url.antt =====
-- The URL of a transport: resolveWebSocketUrl (webSocket.ts).
use tosdk.Prelude.{◌++◌, Option, none, some, if◌then◌else◌, drop, length}
use tosdk.Strings.{Text, codes, starts_with}
use tosdk.Surfaces.Preferences.{truthy_text}

-- chain.rpcUrls.default: the first URL of each list, if there is one
pub record ChainRpcUrls : Type 0 where
  pub http : Option Text
  pub web_socket : Option Text

abbrev https_prefix : Text
https_prefix = codes "https://"

abbrev http_prefix : Text
http_prefix = codes "http://"

-- The URL of a web socket beside that of HTTP.
unfoldable pub from_http : Option Text → Option Text
from_http none = none
from_http (some url) =
    if starts_with https_prefix url
    then some (codes "wss://" ++ drop (length https_prefix) url)
    else if starts_with http_prefix url
    then some (codes "ws://" ++ drop (length http_prefix) url)
    else none

unfoldable pub from_chain : Option ChainRpcUrls → Option Text
unfolding from_http
from_chain none = none
from_chain (some urls) = elim (truthy_text urls.web_socket) [
  | some url ↦ some url
  | none ↦ from_http (truthy_text urls.http)
]

unfoldable pub resolve_web_socket_url : Option Text → Option ChainRpcUrls → Option Text
unfolding from_chain
resolve_web_socket_url config_url chain = elim (truthy_text config_url) [
  | some url ↦ some url
  | none ↦ from_chain chain
]
