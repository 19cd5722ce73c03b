-- ===== src/Address.antt =====
-- src/utils/address/{isAddress,getAddress,isAddressEqual}.ts: the test of an address, its
-- canonical form and the comparison of two, each behind the module's caches. The caches are the
-- modules' variables, so every function passes them on.
use tosdk.Prelude.{
  ℕ, zero, suc, ◌+◌, ◌/◌, ◌%◌, Bool, true, false, ◌&&◌, List, [], ◌∷◌, ◌++◌, Option, none, some,
  ltb, ◌==◌, if◌then◌else◌, length, drop,
}
use tosdk.Prelude.Results.{Result, ok, err, invalid_address}
use tosdk.Strings.{Text, codes, prefix_0x, text_eq, starts_with, to_lower_case, all_hex_digits}
use tosdk.Lru.{LruMap, has, get, set}
mod Keys
pub mod Cached
pub mod Canonical
pub mod Fixtures
mod Tests

-- /^0x[a-fA-F0-9]{64}$/
unfoldable pub address_regex : Text → Bool
address_regex a = starts_with prefix_0x a && ((length a == 66) && all_hex_digits (drop 2 a))

unfoldable pub bool_text : Bool → Text
bool_text true = codes "true"
bool_text false = codes "false"

-- `${address}.${strict}`
unfoldable pub is_address_key : Text → Bool → Text
unfolding bool_text
is_address_key address strict = address ++ (b'.' ∷ bool_text strict)

-- The function that computes the result of isAddress when the cache has none.
unfoldable pub is_address_result : Text → Bool → Bool
unfolding address_regex
is_address_result address strict =
    if address_regex address
    then if text_eq (to_lower_case address) address
      then true
      else if strict
      then text_eq address (to_lower_case address)
      else true
    else false

-- isAddressCache.get(cacheKey)! where no value is false to its reader.
unfoldable pub known : Option Bool → Bool
known none = false
known (some b) = b

-- `strict` is none where the options leave it out.
abbrev pub strict_of : Option Bool → Bool
strict_of none = true
strict_of (some strict) = strict

unfoldable pub is_address : Text → Option Bool → LruMap Bool → Bool × LruMap Bool
unfolding is_address_key is_address_result known
is_address address strict cache =
    let key = is_address_key address (strict_of strict) in
    let result = is_address_result address (strict_of strict) in
    if has key cache
    then (known (get key cache).0, (get key cache).1)
    else (result, set key result cache)

-- The decimal digits of a number, on fuel: n rounds are enough, since each divides by 10.
unfoldable pub decimal_fuel : ℕ → ℕ → Text
decimal_fuel zero n = (b'0' + n % 10) ∷ []
decimal_fuel (suc f) n =
    let high = decimal_fuel f (n / 10) in
    if ltb n 10 then (b'0' + n) ∷ [] else high ++ ((b'0' + n % 10) ∷ [])

-- `${chainId}`
unfoldable pub chain_id_text : Option ℕ → Text
unfolding decimal_fuel
chain_id_text none = codes "undefined"
chain_id_text (some n) = decimal_fuel n n

-- `${address_}.${chainId}`
unfoldable pub checksum_address_key : Text → Option ℕ → Text
unfolding chain_id_text
checksum_address_key address chain_id = address ++ (b'.' ∷ chain_id_text chain_id)

-- checksumAddressCache.get(...)!
unfoldable pub known_address : Option Text → Text
known_address none = []
known_address (some a) = a

unfoldable pub checksum_address : Text → Option ℕ → LruMap Text → Text × LruMap Text
unfolding checksum_address_key known_address
checksum_address address chain_id cache =
    let key = checksum_address_key address chain_id in
    let result = to_lower_case address in
    if has key cache
    then (known_address (get key cache).0, (get key cache).1)
    else (result, set key result cache)

-- The variables isAddressCache and checksumAddressCache.
pub record Caches : Type 0 where
  pub is_address_cache : LruMap Bool
  pub checksum_address_cache : LruMap Text

unfoldable pub get_address : Text → Option ℕ → Caches → Result Text × Caches
get_address address chain_id s =
    let test = is_address address (some false) s.is_address_cache in
    let found = checksum_address address chain_id s.checksum_address_cache in
    if test.0
    then (ok found.0, record { is_address_cache = test.1; checksum_address_cache = found.1 })
    else (err invalid_address, record s { is_address_cache = test.1 })

unfoldable pub is_address_equal : Text → Text → LruMap Bool → Result Bool × LruMap Bool
is_address_equal a b cache =
    let first = is_address a (some false) cache in
    let second = is_address b (some false) first.1 in
    if first.0
    then if second.0
      then (ok (text_eq (to_lower_case a) (to_lower_case b)), second.1)
      else (err invalid_address, second.1)
    else (err invalid_address, first.1)
