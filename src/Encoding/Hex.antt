-- ===== src/Encoding/Hex.antt =====
-- src/utils/encoding/toHex.ts, toBytes.ts and fromHex.ts: numbers, booleans, strings and byte
-- arrays as hex strings and back. An option that is left out is `none`, and `signed` is false.
use tosdk.Prelude.{
  ℕ, suc, ◌+◌, ◌-◌, ◌*◌, ◌/◌, ◌%◌, ◌^◌, Bool, true, false, ◌&&◌, ◌||◌, not, List, [], ◌∷◌, ◌++◌,
  Option, none, some, ltb, leb, ◌==◌, if◌then◌else◌, ℤ, pos, negsuc, pos_part, neg_part, sub_ℕ,
  ◌-ℤ◌, ltb_ℤ, is_negative, length, take, drop,
}
use tosdk.Prelude.Results.{
  Result, ok, err, throw_if, ◌>>=◌, ◌>>◌, size_overflow, integer_out_of_range, invalid_hex_boolean,
  base_error, syntax_error, range_error,
}
use tosdk.Strings.{
  Text, prefix_0x, text_eq, pad_start, digit_value, to_base16, from_base16, text_encode,
}
use tosdk.Data.{
  HexOrBytes, hex, bytes, Dir, left, right, is_hex, size, pad_hex, pad_bytes, trim_hex, trim_bytes,
}
pub mod Bytes
pub mod Numbers
pub mod Bools
pub mod Sized
mod Tests

-- number | bigint; a number is integral.
pub data Numeric : Type 0 where
  number bigint : ℤ → Numeric

unfoldable pub to_big_int : Numeric → ℤ
to_big_int (number v) = v
to_big_int (bigint v) = v

-- `if (size)`: a size of 0 counts as none.
unfoldable pub truthy : Option ℕ → Option ℕ
truthy none = none
truthy (some n) = if n == 0 then none else some n

abbrev pub max_safe_integer : ℕ
max_safe_integer = 9007199254740991

unfoldable pub assert_size : HexOrBytes → ℕ → Result (Unit {0})
assert_size value size_ = throw_if (ltb size_ (size value)) size_overflow

-- hexes[b]
unfoldable pub hexes : ℕ → Text
hexes b = pad_start 2 b'0' (to_base16 b)

unfoldable pub bytes_string : List ℕ → Text
unfolding hexes
bytes_string [] = []
bytes_string (b ∷ bs) = hexes b ++ bytes_string bs

-- `assertSize` and `pad` where a size is given.
unfoldable pub fit_hex : Dir → Option ℕ → Text → Result Text
unfolding assert_size pad_hex
fit_hex dir none s = ok s
fit_hex dir (some n) s = assert_size (hex s) n >> pad_hex dir (some n) s

unfoldable pub fit_bytes : Dir → Option ℕ → List ℕ → Result (List ℕ)
unfolding assert_size pad_bytes
fit_bytes dir none bs = ok bs
fit_bytes dir (some n) bs = assert_size (bytes bs) n >> pad_bytes dir (some n) bs

unfoldable pub bytes_to_hex : List ℕ → Option ℕ → Result Text
unfolding bytes_string fit_hex
bytes_to_hex value size_ = fit_hex right size_ (prefix_0x ++ bytes_string value)

unfoldable pub bool_to_hex : Bool → Option ℕ → Result Text
unfolding fit_hex
bool_to_hex value size_ = fit_hex left size_ (prefix_0x ++ ((if value then b'1' else b'0') ∷ []))

unfoldable pub string_to_hex : Text → Option ℕ → Result Text
unfolding bytes_to_hex
string_to_hex value size_ = bytes_to_hex (text_encode value) size_

-- `maxValue`, if there is one.
unfoldable pub max_value : Numeric → Bool → Option ℕ → Option ℕ
max_value v true (some k) = some (2 ^ (8 * k - 1) - 1)
max_value v false (some k) = some (2 ^ (8 * k) - 1)
max_value (number v) signed none = some max_safe_integer
max_value (bigint v) signed none = none

-- (maxValue && value > maxValue) || value < minValue, where minValue is -maxValue - 1 if there is
-- a maxValue and the number is signed, and else 0.
unfoldable pub out_of_range : ℤ → Bool → Option ℕ → Bool
out_of_range v signed none = is_negative v
out_of_range v signed (some max) =
    (not (max == 0) && ltb_ℤ (pos max) v) || ltb_ℤ v (if signed then negsuc max else pos 0)

-- signed && value < 0 ? (1n << BigInt(size * 8)) + value : value. With no size, BigInt is handed
-- NaN and throws.
unfoldable pub twos_complement : ℤ → Bool → Option ℕ → Result ℕ
twos_complement v signed size_ =
    if signed && is_negative v
    then elim size_ [ none ↦ err range_error | some k ↦ ok (2 ^ (8 * k) - neg_part v) ]
    else ok (pos_part v)

unfoldable pub number_to_hex : Numeric → Bool → Option ℕ → Result Text
unfolding to_big_int truthy max_value out_of_range twos_complement
number_to_hex value_ signed size_ = do
  let size = truthy size_
  let value = to_big_int value_
  throw_if (out_of_range value signed (max_value value_ signed size)) integer_out_of_range
  n ← twos_complement value signed size
  elim size [
    | none ↦ ok (prefix_0x ++ to_base16 n)
    | some k ↦ pad_hex left (some k) (prefix_0x ++ to_base16 n)
  ]

-- A value of toHex and toBytes.
pub data Encodable : Type 0 where
  numeric : Numeric → Encodable
  string : Text → Encodable
  boolean : Bool → Encodable
  byte_array : List ℕ → Encodable

unfoldable pub to_hex : Encodable → Option ℕ → Result Text
unfolding number_to_hex string_to_hex bool_to_hex bytes_to_hex
to_hex (numeric v) size_ = number_to_hex v false size_
to_hex (string s) size_ = string_to_hex s size_
to_hex (boolean b) size_ = bool_to_hex b size_
to_hex (byte_array bs) size_ = bytes_to_hex bs size_

-- The loop of hexToBytes, two digits a round.
unfoldable pub byte_pairs : Text → Result (List ℕ)
byte_pairs [] = ok []
byte_pairs (c ∷ []) = ok []
byte_pairs (c ∷ d ∷ s) = elim (digit_value c) [
  | none ↦ err base_error
  | some h ↦ elim (digit_value d) [
    | none ↦ err base_error
    | some l ↦ byte_pairs s >>= λ bs. ok ((h * 16 + l) ∷ bs)
  ]
]

unfoldable pub even_digits : Text → Text
even_digits s = if length s % 2 == 0 then s else b'0' ∷ s

unfoldable pub hex_to_bytes : Text → Option ℕ → Result (List ℕ)
unfolding truthy fit_hex even_digits byte_pairs
hex_to_bytes hex_ size_ = do
  s ← fit_hex right (truthy size_) hex_
  byte_pairs (even_digits (drop 2 s))

unfoldable pub number_to_bytes : Numeric → Bool → Option ℕ → Result (List ℕ)
unfolding number_to_hex hex_to_bytes
number_to_bytes value signed size_ = do s ← number_to_hex value signed size_; hex_to_bytes s none

unfoldable pub bool_to_bytes : Bool → Option ℕ → Result (List ℕ)
unfolding fit_bytes
bool_to_bytes value size_ = fit_bytes left size_ ((if value then 1 else 0) ∷ [])

unfoldable pub string_to_bytes : Text → Option ℕ → Result (List ℕ)
unfolding fit_bytes
string_to_bytes value size_ = fit_bytes right size_ (text_encode value)

-- A byte array is not among the values that toBytes takes; it is handed back.
unfoldable pub to_bytes : Encodable → Option ℕ → Result (List ℕ)
unfolding number_to_bytes bool_to_bytes hex_to_bytes string_to_bytes is_hex
to_bytes (numeric v) size_ = number_to_bytes v false size_
to_bytes (boolean b) size_ = bool_to_bytes b size_
to_bytes (string s) size_ = if is_hex true s then hex_to_bytes s size_ else string_to_bytes s size_
to_bytes (byte_array bs) size_ = ok bs

-- BigInt(hex) for a string with the prefix: digits follow, and one at least. (White space at the
-- end, which BigInt passes over, is refused here.)
unfoldable pub parse_big_int : Text → Result ℕ
unfolding from_base16
parse_big_int s = elim (from_base16 (drop 2 s)) [ none ↦ err syntax_error | some n ↦ ok n ]

-- The signed branch: the size is half the number of digits, and BigInt refuses a half.
unfoldable pub to_signed : Text → ℕ → Result ℤ
unfolding from_base16
to_signed s value =
    let digits = length s - 2 in
    let size_ = digits / 2 in
    if digits % 2 == 1
    then err range_error
    else if leb value (2 ^ (8 * size_ - 1) - 1)
    then ok (pos value)
    else elim (from_base16 (pad_start (size_ * 2) b'f' (b'f' ∷ []))) [
      | none ↦ err syntax_error
      | some ones ↦ ok (sub_ℕ value (ones + 1))
    ]

unfoldable pub hex_to_big_int : Text → Bool → Option ℕ → Result ℤ
unfolding truthy assert_size parse_big_int to_signed
hex_to_big_int s signed size_ = do
  elim (truthy size_) [ none ↦ ok tt | some k ↦ assert_size (hex s) k ]
  value ← parse_big_int s
  if signed then to_signed s value else ok (pos value)

-- Number(value) is safe just where the integer lies in the range, since rounding keeps it outside.
unfoldable pub hex_to_number : Text → Bool → Option ℕ → Result ℤ
unfolding hex_to_big_int
hex_to_number s signed size_ = do
  value ← hex_to_big_int s signed size_
  throw_if (ltb_ℤ (pos max_safe_integer) value || ltb_ℤ value (negsuc (max_safe_integer - 1)))
      integer_out_of_range
  ok value

abbrev hex_00 : Text
hex_00 = prefix_0x ++ (b'0' ∷ b'0' ∷ [])

abbrev hex_01 : Text
hex_01 = prefix_0x ++ (b'0' ∷ b'1' ∷ [])

unfoldable pub bool_of_hex : Text → Result Bool
unfolding text_eq
bool_of_hex s =
    if text_eq s hex_00
    then ok false
    else if text_eq s hex_01
    then ok true
    else err invalid_hex_boolean

unfoldable pub hex_to_bool : Text → Option ℕ → Result Bool
unfolding truthy assert_size bool_of_hex trim_hex
hex_to_bool hex_ size_ = do
  s ← elim (truthy size_) [
    | none ↦ ok hex_
    | some k ↦ assert_size (hex hex_) k >> ok (trim_hex left hex_)
  ]
  bool_of_hex (trim_hex left s)

-- TextDecoder turns the bytes that are left into a string, which is not modelled.
unfoldable pub hex_to_string_bytes : Text → Option ℕ → Result (List ℕ)
unfolding truthy assert_size hex_to_bytes trim_bytes
hex_to_string_bytes s size_ = do
  bs ← hex_to_bytes s none
  elim (truthy size_) [
    | none ↦ ok bs
    | some k ↦ assert_size (bytes bs) k >> ok (trim_bytes right bs)
  ]
