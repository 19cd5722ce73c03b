-- ===== src/Strings.antt =====
-- JavaScript strings as lists of UTF-16 code units, and the functions of the language on strings
-- that the sources use: startsWith, replace('0x', ''), padStart, padEnd, toLowerCase, the radix-16
-- toString and BigInt of a number, and TextEncoder.
use Prim.Native.String.{String}
use Prim.Native.Char.{code}
use tosdk.Prelude.{
  ℕ, zero, suc, ◌+◌, ◌-◌, ◌*◌, ◌/◌, ◌%◌, Bool, true, false, ◌&&◌, ◌||◌, List, [], ◌∷◌, ◌++◌, Option,
  none, some, ltb, leb, ◌==◌, if◌then◌else◌, length, replicate,
}
pub mod Base16
pub mod Laws

abbrev pub Text : Type 0
Text = List ℕ

-- The code units of an ASCII literal.
abbrev pub codes : String → Text
codes String.[] = []
codes (String.◌∷◌ c s) = code c ∷ codes s

abbrev pub prefix_0x : Text
prefix_0x = b'0' ∷ b'x' ∷ []

-- a === b
unfoldable pub text_eq : Text → Text → Bool
text_eq [] [] = true
text_eq [] (b ∷ bs) = false
text_eq (a ∷ as') [] = false
text_eq (a ∷ as') (b ∷ bs) = a == b && text_eq as' bs

unfoldable pub starts_with : Text → Text → Bool
starts_with [] s = true
starts_with (a ∷ p) [] = false
starts_with (a ∷ p) (c ∷ s) = a == c && starts_with p s

-- s.replace('0x', ''): the first occurrence goes.
unfoldable pub remove_0x : Text → Text
remove_0x [] = []
remove_0x (c ∷ []) = c ∷ []
remove_0x (c ∷ d ∷ s) = if c == b'0' && d == b'x' then s else c ∷ remove_0x (d ∷ s)

unfoldable pub pad_start : ℕ → ℕ → Text → Text
pad_start n c s = replicate (n - length s) c ++ s

unfoldable pub pad_end : ℕ → ℕ → Text → Text
pad_end n c s = s ++ replicate (n - length s) c

-- toLowerCase on ASCII letters; other code units are kept.
unfoldable pub lower : ℕ → ℕ
lower c = if leb b'A' c && leb c b'Z' then c + 32 else c

unfoldable pub to_lower_case : Text → Text
unfolding lower
to_lower_case [] = []
to_lower_case (c ∷ s) = lower c ∷ to_lower_case s

-- [0-9a-fA-F]
unfoldable pub is_hex_digit : ℕ → Bool
is_hex_digit c =
    (leb b'0' c && leb c b'9') || (leb b'a' c && leb c b'f') || (leb b'A' c && leb c b'F')

unfoldable pub all_hex_digits : Text → Bool
all_hex_digits [] = true
all_hex_digits (c ∷ s) = is_hex_digit c && all_hex_digits s

-- The digit of radix 16 with the value d, in lower case.
unfoldable pub base16_digit : ℕ → ℕ
base16_digit d = if ltb d 10 then b'0' + d else b'a' + (d - 10)

-- The value of a digit, in either case.
unfoldable pub digit_value : ℕ → Option ℕ
digit_value c =
    if leb b'0' c && leb c b'9'
    then some (c - b'0')
    else if leb b'A' c && leb c b'F'
    then some (c - 55)
    else if leb b'a' c && leb c b'f'
    then some (c - 87)
    else none

-- n.toString(16), on fuel: n rounds are enough, since each divides by 16.
unfoldable pub base16_fuel : ℕ → ℕ → Text
unfolding base16_digit
base16_fuel zero n = base16_digit n ∷ []
base16_fuel (suc f) n =
    let high = base16_fuel f (n / 16) in
    if ltb n 16 then base16_digit n ∷ [] else high ++ (base16_digit (n % 16) ∷ [])

unfoldable pub to_base16 : ℕ → Text
unfolding base16_fuel
to_base16 n = base16_fuel n n

-- The value of digits of radix 16 behind those that make up `acc`.
unfoldable pub base16_from : ℕ → Text → Option ℕ
unfolding digit_value
base16_from acc [] = some acc
base16_from acc (c ∷ s) = elim (digit_value c) [
  | none ↦ none
  | some d ↦ base16_from (acc * 16 + d) s
]

-- BigInt('0x' + s): at least one digit, and digits only.
unfoldable pub from_base16 : Text → Option ℕ
unfolding base16_from
from_base16 [] = none
from_base16 (c ∷ s) = base16_from 0 (c ∷ s)

-- TextEncoder.encode: UTF-8, with U+FFFD for a surrogate that stands alone.
unfoldable pub utf8_point : ℕ → List ℕ
utf8_point c =
    if ltb c 0x80
    then c ∷ []
    else if ltb c 0x800
    then (0xc0 + c / 64) ∷ (0x80 + c % 64) ∷ []
    else if ltb c 0x10000
    then (0xe0 + c / 4096) ∷ (0x80 + c / 64 % 64) ∷ (0x80 + c % 64) ∷ []
    else (0xf0 + c / 262144) ∷ (0x80 + c / 4096 % 64) ∷ (0x80 + c / 64 % 64) ∷ (0x80 + c % 64) ∷ []

unfoldable pub is_high_surrogate : ℕ → Bool
is_high_surrogate c = leb 0xd800 c && leb c 0xdbff

unfoldable pub is_low_surrogate : ℕ → Bool
is_low_surrogate c = leb 0xdc00 c && leb c 0xdfff

-- `high` is a high surrogate that waits for its low one.
unfoldable pub utf8_from : Option ℕ → Text → List ℕ
unfolding utf8_point is_high_surrogate is_low_surrogate
utf8_from none [] = []
utf8_from (some h) [] = utf8_point 0xfffd
utf8_from none (c ∷ s) =
    (if is_high_surrogate c then [] else utf8_point (if is_low_surrogate c then 0xfffd else c))
    ++ utf8_from (if is_high_surrogate c then some c else none) s
utf8_from (some h) (c ∷ s) =
    (if is_low_surrogate c
      then utf8_point (0x10000 + (h - 0xd800) * 1024 + (c - 0xdc00))
      else utf8_point 0xfffd ++ (if is_high_surrogate c then [] else utf8_point c))
    ++ utf8_from (if is_high_surrogate c then some c else none) s

unfoldable pub text_encode : Text → List ℕ
unfolding utf8_from
text_encode = utf8_from none

-- The white space of the language, which trim takes off.
unfoldable pub is_space : ℕ → Bool
is_space c =
    (leb 9 c && leb c 13)
    || (c == 0x20)
    || (c == 0xa0)
    || (c == 0x1680)
    || (leb 0x2000 c && leb c 0x200a)
    || (c == 0x2028)
    || (c == 0x2029)
    || (c == 0x202f)
    || (c == 0x205f)
    || (c == 0x3000)
    || (c == 0xfeff)

-- !s.trim()
unfoldable pub is_blank : Text → Bool
unfolding is_space
is_blank [] = true
is_blank (c ∷ s) = is_space c && is_blank s
