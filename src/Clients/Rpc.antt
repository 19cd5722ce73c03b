-- ===== src/Clients/Rpc.antt =====
-- What the methods of createPublicClient.ts share: the state, the values of JSON, and the helpers
-- normalizeBlockTag and parseRpcQuantity.
use tosdk.Prelude.{
  ℕ, zero, ◌+◌, ◌-◌, ◌*◌, ℤ, pos, negsuc, sub_ℕ, Bool, true, false, ◌&&◌, ◌||◌, List, [], ◌∷◌,
  Option, none, some, leb, ◌==◌, if◌then◌else◌, drop,
}
use tosdk.Prelude.Results.{Result, ok, err, syntax_error, type_error}
use tosdk.Strings.{Text, codes, prefix_0x, starts_with, from_base16}
use tosdk.Json.{
  Json, null, boolean, number, string, array, object, Items, nil, cons, Fields, empty, field,
  get_field,
}
use tosdk.Lru.{LruMap}
use tosdk.Address.{Caches, get_address, decimal_fuel, bool_text}
use tosdk.Encoding.Hex.{Numeric, number_to_hex}
use tosdk.Surfaces.Client.{Async, ◌>>=◌, return}

-- What a method of a client does to the world outside and to the caches of the addresses.
abbrev pub Call : Type 0 → Type 0 → Type 0
Call W A = Async (W × Caches) A

-- BlockTag | number | bigint
pub data BlockTag : Type 0 where
  tag : Text → BlockTag
  height : Numeric → BlockTag

unfoldable pub normalize_block_tag : BlockTag → Result Text
unfolding number_to_hex
normalize_block_tag (tag t) = ok t
normalize_block_tag (height n) = number_to_hex n false none

-- The value of decimal digits, behind those read before.
unfoldable pub from_decimal : ℕ → Text → Option ℕ
from_decimal n [] = some n
from_decimal n (c ∷ s) =
    let rest = from_decimal (n * 10 + (c - b'0')) s in
    if leb b'0' c && leb c b'9' then rest else none

unfoldable pub or_syntax_error : Option ℕ → Result ℤ
or_syntax_error none = err syntax_error
or_syntax_error (some n) = ok (pos n)

unfoldable pub negated : Option ℕ → Result ℤ
negated none = err syntax_error
negated (some n) = ok (sub_ℕ 0 n)

-- The digits behind a sign; one at least.
unfoldable pub signed_decimal : Bool → Text → Result ℤ
signed_decimal minus [] = err syntax_error
signed_decimal false (c ∷ s) = or_syntax_error (from_decimal 0 (c ∷ s))
signed_decimal true (c ∷ s) = negated (from_decimal 0 (c ∷ s))

unfoldable pub decimal_big_int : Text → Result ℤ
unfolding signed_decimal
decimal_big_int [] = ok (pos 0)
decimal_big_int (c ∷ s) =
    if c == b'-'
    then signed_decimal true s
    else if c == b'+'
    then signed_decimal false s
    else signed_decimal false (c ∷ s)

-- BigInt of a string: digits behind 0x, or decimal digits. (White space around the digits and the
-- prefixes 0b and 0o, which BigInt takes too, are refused here.)
unfoldable pub text_big_int : Text → Result ℤ
unfolding from_base16 decimal_big_int or_syntax_error
text_big_int s =
    if starts_with prefix_0x s || starts_with (b'0' ∷ b'X' ∷ []) s
    then or_syntax_error (from_base16 (drop 2 s))
    else decimal_big_int s

-- BigInt(value), where `none` is undefined. The text of an object is no number; an array, whose text
-- may be one, is refused as well.
unfoldable pub parse_rpc_quantity : Option Json → Result ℤ
unfolding text_big_int
parse_rpc_quantity none = err type_error
parse_rpc_quantity (some null) = err type_error
parse_rpc_quantity (some (boolean true)) = ok (pos 1)
parse_rpc_quantity (some (boolean false)) = ok (pos 0)
parse_rpc_quantity (some (number n)) = ok n
parse_rpc_quantity (some (string s)) = text_big_int s
parse_rpc_quantity (some (array items)) = err syntax_error
parse_rpc_quantity (some (object fields)) = err syntax_error

-- value.name: a null or an undefined value has no fields, and those of another value that is no
-- record are undefined.
unfoldable pub member : Text → Json → Result (Option Json)
unfolding get_field
member name null = err type_error
member name (object fields) = ok (get_field name fields)
member name (boolean b) = ok none
member name (number n) = ok none
member name (string s) = ok none
member name (array items) = ok none

unfoldable pub items : List Json → Items
items [] = nil
items (j ∷ js) = cons j (items js)

-- A record literal: its fields that are there, in order; `...(test ? { name: value } : {})` is a
-- field that may be left out.
unfoldable pub fields : List (Text × Option Json) → Fields
fields [] = empty
fields ((name, none) ∷ rest) = fields rest
fields ((name, some value) ∷ rest) = field name value (fields rest)

abbrev pub record_of : List (Text × Option Json) → Json
record_of entries = object (fields entries)

-- `if (value)` for a value of JSON.
unfoldable pub is_truthy : Option Json → Bool
is_truthy none = false
is_truthy (some null) = false
is_truthy (some (boolean b)) = b
is_truthy (some (number (pos zero))) = false
is_truthy (some (number n)) = true
is_truthy (some (string [])) = false
is_truthy (some (string (c ∷ s))) = true
is_truthy (some (array items_)) = true
is_truthy (some (object fields_)) = true

-- The text of a value that is no array, as a template string has it.
unfoldable pub text_of : Option Json → Text
unfolding decimal_fuel bool_text
text_of none = codes "undefined"
text_of (some null) = codes "null"
text_of (some (boolean b)) = bool_text b
text_of (some (number (pos n))) = decimal_fuel n n
text_of (some (number (negsuc n))) = b'-' ∷ decimal_fuel (n + 1) (n + 1)
text_of (some (string s)) = s
text_of (some (array items_)) = []
text_of (some (object fields_)) = codes "[object Object]"

module _ {W : Type 0} where
  -- getAddress(address)
  unfoldable pub canonical : Text → Call W Text
  canonical address s = let r = get_address address none s.1 in (r.0, (s.0, r.1))

  -- The caches of the addresses hold the cache that a check asks.
  unfoldable pub checked : {A : Type 0} → (LruMap Bool → Result A × LruMap Bool) → Call W A
  checked m s =
      let r = m s.1.is_address_cache in (r.0, (s.0, record s.1 { is_address_cache = r.1 }))

  -- getAddress of a value as the node sent it. (An array of one address, which the test of an
  -- address takes for its text, is refused.)
  unfoldable pub canonical_value : Option Json → Call W Text
  unfolding text_of
  canonical_value value = canonical (text_of value)

  -- numberToHex(value)
  unfoldable pub quantity : Numeric → Call W Json
  quantity value s =
      (elim (number_to_hex value false none) [ err e ↦ err e | ok t ↦ ok (string t) ], s)

  -- typeof value !== 'undefined' ? { name: numberToHex(value) } : {}
  unfoldable pub given_quantity : Option Numeric → Call W (Option Json)
  given_quantity none = return (ok none)
  given_quantity (some value) = quantity value >>= λ j. return (ok (some j))

  -- parseRpcQuantity of an answer
  unfoldable pub as_quantity : Json → Call W ℤ
  unfolding parse_rpc_quantity
  as_quantity answer = return (parse_rpc_quantity (some answer))

  unfoldable pub canonical_json : Text → Call W Json
  canonical_json address = canonical address >>= λ a. return (ok (string a))

  unfoldable pub given_address : Option Text → Call W (Option Json)
  given_address none = return (ok none)
  given_address (some address) = canonical_json address >>= λ j. return (ok (some j))

  unfoldable pub block_json : BlockTag → Call W Json
  unfolding normalize_block_tag
  block_json block s =
      (elim (normalize_block_tag block) [ err e ↦ err e | ok t ↦ ok (string t) ], s)

  -- parseRpcQuantity(record.name)
  unfoldable pub quantity_field : Text → Json → Call W ℤ
  unfolding member parse_rpc_quantity
  quantity_field name value s =
      (elim (member name value) [ err e ↦ err e | ok v ↦ parse_rpc_quantity v ], s)

  unfoldable pub value_field : Text → Json → Call W (Option Json)
  unfolding member
  value_field name value s = (member name value, s)

  unfoldable pub address_field : Text → Json → Call W Text
  address_field name value = value_field name value >>= canonical_value

-- transport.request, which goes over the network: the method and its parameters to the answer.
abbrev pub Request : Type 0 → Type 0
Request W = Text → Items → Async W Json

module _ {W : Type 0} (request : Request W) where
  unfoldable pub send : Text → List Json → Call W Json
  unfolding items
  send method params s = let r = request method (items params) s.0 in (r.0, (r.1, s.1))

  -- request(method, [getAddress(address), normalizeBlockTag(blockTag)])
  unfoldable pub send_at : Text → Text → BlockTag → Call W Json
  send_at method address block =
      canonical_json address >>= λ a. block_json block >>= λ b. send method (a ∷ b ∷ [])

  -- request(method, [value, normalizeBlockTag(blockTag)])
  unfoldable pub send_value_at : Text → Text → BlockTag → Call W Json
  send_value_at method value block = block_json block >>= λ b. send method (string value ∷ b ∷ [])

  -- request(method, [getAddress(address)])
  unfoldable pub send_address : Text → Text → Call W Json
  send_address method address = canonical_json address >>= λ a. send method (a ∷ [])

  -- request(method, [getAddress(address), value])
  unfoldable pub send_address_value : Text → Text → Json → Call W Json
  send_address_value method address value =
      canonical_json address >>= λ a. send method (a ∷ value ∷ [])

  -- request(method)
  unfoldable pub ask : Text → Call W Json
  ask method = send method []

-- { name = otherwise } of a parameter
abbrev pub default {ℓ} : {A : Type ℓ} → Option A → A → A
default none otherwise = otherwise
default (some value) otherwise = value

abbrev pub latest : BlockTag
latest = tag (codes "latest")

abbrev pub pending : BlockTag
pending = tag (codes "pending")
