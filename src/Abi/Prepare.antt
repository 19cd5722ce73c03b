-- ===== src/Abi/Prepare.antt =====
-- encodeAbiParameters over types that nest (encodeAbiParameters.ts). prepareParam recurses on the type,
-- here on fuel. A value is of the type that its parameter names, as the types of the source ask;
-- what else the elementary encoders do with another value is not modelled and counts as a TypeError.
use tosdk.Prelude.{
  ℕ, zero, suc, ◌%◌, pos, Bool, true, false, ◌&&◌, ◌||◌, List, [], ◌∷◌, Option, none, some, ltb,
  leb, ◌==◌, if◌then◌else◌, length, drop,
}
use tosdk.Prelude.Results.{
  Result, ok, err, ◌>>=◌, base_error, range_error, type_error, invalid_array,
  invalid_abi_encoding_type, abi_encoding_array_length_mismatch, abi_encoding_length_mismatch,
}
use tosdk.Strings.{Text, codes, prefix_0x, text_eq, starts_with}
use tosdk.Data.{HexOrBytes, hex, bytes, concat}
use tosdk.Encoding.Hex.{Numeric, number, number_to_hex}
use tosdk.Lru.{LruMap}
use tosdk.Address.{decimal_fuel}
use tosdk.Abi.{
  PreparedParam, encode_params, encode_address, encode_bool, encode_number, encode_bytes,
  encode_string, parse_int, get_array_components,
}

mutual
  -- The name, the type and the components.
  pub data AbiParameter : Type 0 where
    parameter : Option Text → Text → Components → AbiParameter

  pub data Components : Type 0 where
    no_components : Components
    component : AbiParameter → Components → Components

mutual
  pub data Value : Type 0 where
    undefined : Value
    boolean : Bool → Value
    numeric : Numeric → Value
    string : Text → Value
    array : Elements → Value
    object : Members → Value

  pub data Elements : Type 0 where
    no_elements : Elements
    element : Value → Elements → Elements

  pub data Members : Type 0 where
    no_members : Members
    member : Text → Value → Members → Members

-- What a function that may throw answers, and the cache of isAddress behind it.
abbrev pub Encoded : Type 0 → Type 0
Encoded A = Result A × LruMap Bool

abbrev pub and_then : {A B : Type 0} → Encoded A → (A → LruMap Bool → Encoded B) → Encoded B
and_then (ok a, cache) rest = rest a cache
and_then (err e, cache) rest = (err e, cache)

-- integerRegex.exec(type): the size in the type, if it is one of those that the expression lists.
unfoldable pub integer_bits : Text → ℕ
unfolding parse_int decimal_fuel
integer_bits suffix = elim (parse_int suffix) [
  | none ↦ 256
  | some n ↦
      if (n % 8 == 0) && (leb 8 n && (leb n 256 && text_eq suffix (decimal_fuel n n)))
      then n
      else 256
]

unfoldable pub encode_integer : Text → Value → Result PreparedParam
unfolding integer_bits
encode_integer type (numeric n) =
    if starts_with (codes "int") type
    then encode_number n true (integer_bits (drop 3 type))
    else encode_number n false (integer_bits (drop 4 type))
encode_integer type _ = err type_error

unfoldable pub encode_bytes_value : Text → Value → Result PreparedParam
encode_bytes_value type (string s) = encode_bytes s type
encode_bytes_value type _ = err type_error

unfoldable pub encode_string_value : Value → Result PreparedParam
encode_string_value (string s) = encode_string s
encode_string_value _ = err type_error

unfoldable pub encode_bool_value : Value → Result PreparedParam
encode_bool_value (boolean b) = encode_bool b
encode_bool_value _ = err base_error

unfoldable pub encode_address_value : Value → LruMap Bool → Encoded PreparedParam
encode_address_value (string s) cache = encode_address s cache
encode_address_value _ cache = (err type_error, cache)

-- The tests of prepareParam behind arrays and tuples.
unfoldable pub encode_elementary : Text → Value → LruMap Bool → Encoded PreparedParam
unfolding encode_integer encode_bytes_value encode_string_value encode_bool_value
encode_elementary type value cache =
    if text_eq type (codes "address")
    then encode_address_value value cache
    else if text_eq type (codes "bool")
    then (encode_bool_value value, cache)
    else if starts_with (codes "uint") type || starts_with (codes "int") type
    then (encode_integer type value, cache)
    else if starts_with (codes "bytes") type
    then (encode_bytes_value type value, cache)
    else if text_eq type (codes "string")
    then (encode_string_value value, cache)
    else (err invalid_abi_encoding_type, cache)

unfoldable pub has_dynamic : List PreparedParam → Bool
has_dynamic [] = false
has_dynamic (p ∷ ps) = p.dynamic || has_dynamic ps

unfoldable pub encodings : List PreparedParam → List HexOrBytes
encodings [] = []
encodings (p ∷ ps) = p.encoded ∷ encodings ps

-- One encoding for all, in the layout if one is dynamic.
unfoldable pub finish_static : List PreparedParam → Result PreparedParam
unfolding has_dynamic encodings
finish_static ps = (if has_dynamic ps then encode_params ps else concat (encodings ps)) >>= λ data_.
    ok (record { dynamic = has_dynamic ps; encoded = data_ })

unfoldable pub finish_array : Option ℕ → List PreparedParam → Result PreparedParam
unfolding finish_static
finish_array (some n) ps = finish_static ps
finish_array none ps = encode_params ps >>= λ data_.
    number_to_hex (number (pos (length ps))) false (some 32) >>= λ n.
    (if ltb 0 (length ps) then concat (hex n ∷ data_ ∷ []) else ok (hex n)) >>= λ encoded.
    ok (record { dynamic = true; encoded = encoded })

unfoldable pub elements : Elements → List Value
elements no_elements = []
elements (element v es) = v ∷ elements es

unfoldable pub lookup : Text → Members → Value
lookup name no_members = undefined
lookup name (member n v rest) = let later = lookup name rest in if text_eq n name then v else later

-- value[index], where the index is the position in an array and else the name, which is
-- `undefined` where it is left out.
unfoldable pub value_at : Option Text → Value → Value
unfolding lookup
value_at name (array no_elements) = undefined
value_at name (array (element v es)) = v
value_at none (object members) = lookup (codes "undefined") members
value_at (some name) (object members) = lookup name members
value_at name _ = undefined

unfoldable pub rest_of : Value → Value
rest_of (array no_elements) = array no_elements
rest_of (array (element v es)) = array es
rest_of value = value

unfoldable pub is_undefined : Value → Bool
is_undefined undefined = true
is_undefined _ = false

module _ (prepare : AbiParameter → Value → LruMap Bool → Encoded PreparedParam) where
  unfoldable pub prepare_elements :
      AbiParameter → List Value → LruMap Bool → Encoded (List PreparedParam)
  prepare_elements param [] cache = (ok [], cache)
  prepare_elements param (v ∷ vs) cache =
      and_then (prepare param v cache)
        (λ p c. and_then (prepare_elements param vs c) (λ ps d. (ok (p ∷ ps), d)))

  unfoldable pub prepare_components :
      Components → Value → LruMap Bool → Encoded (List PreparedParam)
  unfolding value_at rest_of
  prepare_components no_components value cache = (ok [], cache)
  prepare_components (component (parameter name type cs) rest) value cache =
      and_then (prepare (parameter name type cs) (value_at name value) cache)
        (λ p c. and_then (prepare_components rest (rest_of value) c) (λ ps d. (ok (p ∷ ps), d)))

  unfoldable pub encode_tuple : Components → Value → LruMap Bool → Encoded PreparedParam
  unfolding is_undefined
  encode_tuple no_components value cache = (finish_static [], cache)
  encode_tuple (component p rest) value cache =
      if is_undefined value
      then (err type_error, cache)
      else and_then (prepare_components (component p rest) value cache)
          (λ ps c. (finish_static ps, c))

  unfoldable pub encode_elements :
      Option ℕ → AbiParameter → List Value → LruMap Bool → Encoded PreparedParam
  encode_elements none param vs cache =
      and_then (prepare_elements param vs cache) (λ ps c. (finish_array none ps, c))
  encode_elements (some n) param vs cache =
      if length vs == n
      then and_then (prepare_elements param vs cache) (λ ps c. (finish_array (some n) ps, c))
      else (err abi_encoding_array_length_mismatch, cache)

  unfoldable pub encode_array :
      Option ℕ → AbiParameter → Value → LruMap Bool → Encoded PreparedParam
  unfolding elements
  encode_array size param (array es) cache = encode_elements size param (elements es) cache
  encode_array size param _ cache = (err invalid_array, cache)

  -- By what getArrayComponents finds in the type.
  unfoldable pub prepare_as :
      Option (Option ℕ × Text) → AbiParameter → Value → LruMap Bool → Encoded PreparedParam
  prepare_as (some found) (parameter name type cs) value cache =
      encode_array found.0 (parameter name found.1 cs) value cache
  prepare_as none (parameter name type cs) value cache =
      if text_eq type (codes "tuple")
      then encode_tuple cs value cache
      else encode_elementary type value cache

  unfoldable pub prepare_with : AbiParameter → Value → LruMap Bool → Encoded PreparedParam
  prepare_with (parameter name type cs) value cache =
      prepare_as (get_array_components type) (parameter name type cs) value cache

-- The recursion on fuel, with what it answers where that runs out.
unfoldable pub prepare_or :
    (LruMap Bool → Encoded PreparedParam)
    → ℕ
    → AbiParameter
    → Value
    → LruMap Bool
    → Encoded PreparedParam
unfolding prepare_with
prepare_or stopped zero param value cache = stopped cache
prepare_or stopped (suc f) param value cache = prepare_with (prepare_or stopped f) param value cache

-- Fuel says how much is enough: the answer where it runs out is then never given.
unfoldable pub prepare_param : ℕ → AbiParameter → Value → LruMap Bool → Encoded PreparedParam
unfolding prepare_or
prepare_param f param value cache = prepare_or (λ c. (err range_error, c)) f param value cache

-- Each parameter with the value at its place.
unfoldable pub prepare_all :
    ℕ → List AbiParameter → List Value → LruMap Bool → Encoded (List PreparedParam)
unfolding prepare_param
prepare_all f [] vs cache = (ok [], cache)
prepare_all f (p ∷ ps) [] cache = (err type_error, cache)
prepare_all f (p ∷ ps) (v ∷ vs) cache =
    and_then (prepare_param f p v cache)
      (λ q c. and_then (prepare_all f ps vs c) (λ qs d. (ok (q ∷ qs), d)))

-- An empty byte array is no text: `0x` stands for it.
unfoldable pub or_prefix : HexOrBytes → HexOrBytes
or_prefix (hex s) = hex s
or_prefix (bytes []) = hex prefix_0x
or_prefix (bytes (b ∷ bs)) = bytes (b ∷ bs)

unfoldable pub encode_abi_parameters :
    ℕ → List AbiParameter → List Value → LruMap Bool → Encoded HexOrBytes
unfolding prepare_all or_prefix
encode_abi_parameters f params values cache =
    if length params == length values
    then and_then (prepare_all f params values cache)
        (λ ps c. (encode_params ps >>= λ data_. ok (or_prefix data_), c))
    else (err abi_encoding_length_mismatch, cache)
