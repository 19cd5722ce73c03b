-- ===== src/Abi.antt =====
-- src/utils/abi/encodeAbiParameters.ts: the encoders of the elementary types and the layout of
-- encoded parameters. A parameter's type is its text.
use tosdk.Prelude.{
  ℕ, zero, suc, ◌+◌, ◌-◌, ◌*◌, ◌/◌, ◌%◌, ◌^◌, ℤ, pos, negsuc, Bool, true, false, ◌&&◌, not, List,
  [], ◌∷◌, ◌++◌, Option, none, some, ltb, leb, ◌==◌, if◌then◌else◌, length, drop,
}
use tosdk.Prelude.Results.{
  Result, ok, err, throw_if, ◌>>=◌, ◌>>◌, invalid_address, integer_out_of_range,
  abi_encoding_bytes_size_mismatch,
}
use tosdk.Strings.{Text, to_lower_case}
use tosdk.Data.{HexOrBytes, hex, Dir, left, right, size, pad_hex, slice_hex, concat}
use tosdk.Encoding.Hex.{Numeric, number, to_big_int, number_to_hex, bool_to_hex, string_to_hex}
use tosdk.Lru.{LruMap}
use tosdk.Address.{is_address}
use mathlib.Core.List.{reverse}
pub mod Layout
pub mod Words
pub mod Prepare
pub mod Sizes
pub mod Fuel
mod Tests

pub record PreparedParam : Type 0 where
  pub dynamic : Bool
  pub encoded : HexOrBytes

-- The first loop of encodeParams, from `acc` on.
unfoldable pub static_size : ℕ → List PreparedParam → ℕ
unfolding size
static_size acc [] = acc
static_size acc (p ∷ ps) = static_size (acc + (if p.dynamic then 32 else size p.encoded)) ps

-- The second loop, behind dynamic parameters of `dynamic_size` bytes: what it pushes onto
-- staticParams and onto dynamicParams.
unfoldable pub split_params :
    ℕ → ℕ → List PreparedParam → Result (List HexOrBytes × List HexOrBytes)
unfolding size number_to_hex
split_params static dynamic_size [] = ok ([], [])
split_params static dynamic_size (p ∷ ps) = elim p.dynamic [
  | true ↦ number_to_hex (number (pos (static + dynamic_size))) false (some 32) >>= λ offset.
      split_params static (dynamic_size + size p.encoded) ps >>= λ rest.
      ok (hex offset ∷ rest.0, p.encoded ∷ rest.1)
  | false ↦ split_params static dynamic_size ps >>= λ rest. ok (p.encoded ∷ rest.0, rest.1)
]

unfoldable pub encode_params : List PreparedParam → Result HexOrBytes
unfolding static_size split_params concat
encode_params ps = split_params (static_size 0 ps) 0 ps >>= λ parts. concat (parts.0 ++ parts.1)

unfoldable pub static_param : Text → PreparedParam
static_param encoded = record { dynamic = false; encoded = hex encoded }

unfoldable pub encode_address : Text → LruMap Bool → Result PreparedParam × LruMap Bool
unfolding static_param
encode_address value cache =
    let test = is_address value none cache in
    if test.0
    then (pad_hex left (some 32) (to_lower_case value) >>= λ t. ok (static_param t), test.1)
    else (err invalid_address, test.1)

unfoldable pub encode_bool : Bool → Result PreparedParam
unfolding static_param
encode_bool value =
    bool_to_hex value none >>= λ t. pad_hex left (some 32) t >>= λ u. ok (static_param u)

-- value > max || value < min, for the integers of `bits` bits
unfoldable pub is_out_of_bits : ℤ → Bool → ℕ → Bool
is_out_of_bits (pos n) true bits = ltb (2 ^ (bits - 1) - 1) n
is_out_of_bits (pos n) false bits = ltb (2 ^ bits - 1) n
is_out_of_bits (negsuc n) true bits = ltb (2 ^ (bits - 1) - 1) n
is_out_of_bits (negsuc n) false bits = true

unfoldable pub encode_number : Numeric → Bool → ℕ → Result PreparedParam
unfolding is_out_of_bits to_big_int number_to_hex static_param
encode_number value signed bits = do
  throw_if (is_out_of_bits (to_big_int value) signed bits) integer_out_of_range
  t ← number_to_hex value signed (some 32)
  ok (static_param t)

-- Number.parseInt(s, 10) of a text that starts with a digit; `none` for NaN.
unfoldable pub digits_from : ℕ → Text → ℕ
digits_from acc [] = acc
digits_from acc (c ∷ s) =
    let rest = digits_from (acc * 10 + (c - b'0')) s in
    if leb b'0' c && leb c b'9' then rest else acc

unfoldable pub parse_int : Text → Option ℕ
unfolding digits_from
parse_int [] = none
parse_int (c ∷ s) = if leb b'0' c && leb c b'9' then some (digits_from 0 (c ∷ s)) else none

-- bytesSize !== Number.parseInt(paramSize, 10)
unfoldable pub size_differs : ℕ → Option ℕ → Bool
size_differs n none = true
size_differs n (some m) = not (n == m)

-- The bytes behind `bytes`: padded at the end up to whole words, with their number in front.
unfoldable pub encode_dynamic_bytes : Text → Result PreparedParam
unfolding size number_to_hex concat
encode_dynamic_bytes value = do
  let bytes_size = size (hex value)
  value_ ←
      (if not (bytes_size % 32 == 0)
        then pad_hex right (some ((length value - 2 + 63) / 64 * 32)) value
        else ok value)
  n ← number_to_hex (number (pos bytes_size)) false (some 32)
  head ← pad_hex left (some 32) n
  encoded ← concat (hex head ∷ hex value_ ∷ [])
  ok (record { dynamic = true; encoded = encoded })

-- `type` is `bytes`, or `bytes` with a number behind.
unfoldable pub encode_bytes : Text → Text → Result PreparedParam
unfolding parse_int size_differs encode_dynamic_bytes static_param size
encode_bytes value type = elim (drop 5 type) [
  | [] ↦ encode_dynamic_bytes value
  | c ∷ param_size ↦
      throw_if (size_differs (size (hex value)) (parse_int (c ∷ param_size)))
        abi_encoding_bytes_size_mismatch
      >> (pad_hex right (some 32) value >>= λ t. ok (static_param t))
]

-- The loop of encodeString for the parts i, …, i + n - 1.
unfoldable pub string_parts : Text → ℕ → ℕ → Result (List HexOrBytes)
unfolding slice_hex
string_parts hex_value i zero = ok []
string_parts hex_value i (suc n) = do
  part ← slice_hex (some (i * 32)) (some ((i + 1) * 32)) false hex_value
  padded ← pad_hex right (some 32) part
  parts ← string_parts hex_value (suc i) n
  ok (hex padded ∷ parts)

unfoldable pub encode_string : Text → Result PreparedParam
unfolding string_parts size number_to_hex concat
encode_string value = do
  hex_value ← string_to_hex value none
  let bytes_size = size (hex hex_value)
  parts ← string_parts hex_value 0 ((bytes_size + 31) / 32)
  n ← number_to_hex (number (pos bytes_size)) false (some 32)
  head ← pad_hex left (some 32) n
  encoded ← concat (hex head ∷ parts)
  ok (record { dynamic = true; encoded = encoded })

-- The end of a type, read from the back: digits and the bracket before them.
unfoldable pub array_length : Text → Text → Option (Text × Text)
array_length digits [] = none
array_length digits (c ∷ s) =
    let rest = array_length (c ∷ digits) s in
    if c == b'[' then some (digits, reverse s) else if leb b'0' c && leb c b'9' then rest else none

-- A dynamic array has no length.
unfoldable pub fixed_length : Text → Option ℕ
unfolding digits_from
fixed_length [] = none
fixed_length (c ∷ s) = some (digits_from 0 (c ∷ s))

-- Behind the digits and the bracket, by the last letter of the type.
unfoldable pub components_from : ℕ → Option (Text × Text) → Option (Option ℕ × Text)
unfolding fixed_length
components_from c none = none
components_from c (some found) = if c == b']' then some (fixed_length found.0, found.1) else none

unfoldable pub reversed_components : Text → Option (Option ℕ × Text)
unfolding array_length components_from
reversed_components [] = none
reversed_components (c ∷ s) = components_from c (array_length [] s)

-- type.match(/^(.*)\[(\d+)?\]$/), with the length and the inner type
unfoldable pub get_array_components : Text → Option (Option ℕ × Text)
unfolding reversed_components
get_array_components type = reversed_components (reverse type)
