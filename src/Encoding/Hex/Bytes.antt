-- ===== src/Encoding/Hex/Bytes.antt =====
-- Byte arrays as hex strings and back.
use tosdk.Prelude.{
  ℕ, ◌+◌, ◌*◌, ◌/◌, ◌%◌, ◌<◌, ◌≡◌, refl, ap, ◌∙◌, arith, true, false, List, [], ◌∷◌, ◌++◌, none,
  some, length, all_below, all_below_sound, Option-cases, inl, inr,
}
use tosdk.Prelude.Results.{ok, err, ◌>>=◌, base_error}
use tosdk.Strings.{
  Text, prefix_0x, base16_digit, digit_value, to_base16, pad_start, is_hex_digit, all_hex_digits,
  to_lower_case, lower, text_eq,
}
use tosdk.Strings.Laws.{text_eq→eq}
use tosdk.Strings.Base16.{digit_value-base16_digit}
use tosdk.Encoding.Hex.{hexes, bytes_string, bytes_to_hex, byte_pairs, even_digits, hex_to_bytes}

abbrev pub AllBytes : List ℕ → Type 0
AllBytes [] = Unit {0}
AllBytes (b ∷ bs) = (b < 256) × AllBytes bs

-- The table of two digits for each byte, checked entry by entry.
two_digits : ℕ → Text
two_digits b = base16_digit (b / 16) ∷ base16_digit (b % 16) ∷ []

hexes-table : all_below 256 (λ b. text_eq (hexes b) (two_digits b)) ≡ true
unfolding all_below text_eq hexes two_digits pad_start to_base16 base16_digit
hexes-table = refl

pub hexes-digits : (b : ℕ) → b < 256 → hexes b ≡ base16_digit (b / 16) ∷ base16_digit (b % 16) ∷ []
unfolding two_digits
hexes-digits b h = text_eq→eq _ _ (all_below_sound 256 _ b hexes-table h)

byte_pairs-bytes_string : (bs : List ℕ) → AllBytes bs → byte_pairs (bytes_string bs) ≡ ok bs
unfolding byte_pairs bytes_string
byte_pairs-bytes_string [] h = refl
byte_pairs-bytes_string (b ∷ bs) h = rw (hexes-digits b h.0) (
    ground (
      arith,
      digit_value-base16_digit (b / 16),
      digit_value-base16_digit (b % 16),
      byte_pairs-bytes_string bs h.1,
    ))

even-bytes_string : (bs : List ℕ) → AllBytes bs → length (bytes_string bs) % 2 ≡ 0
unfolding bytes_string
even-bytes_string [] h = refl
even-bytes_string (b ∷ bs) h = rw (hexes-digits b h.0) (omega (arith, even-bytes_string bs h.1))

-- A digit has a value below 16, whose digit is the same one in lower case.
digit_value-hex :
    (c : ℕ)
    → is_hex_digit c ≡ true
    → (d : ℕ) × (digit_value c ≡ some d) × (d < 16) × (base16_digit d ≡ lower c)
unfolding is_hex_digit digit_value base16_digit lower
digit_value-hex c h = elim (Option-cases (digit_value c)) [
  | inl e ↦ absurd (ground arith)
  | inr (d, e) ↦ (d, e, ground arith, ground arith)
]

digit_value-none : (c : ℕ) → is_hex_digit c ≡ false → digit_value c ≡ none
unfolding is_hex_digit digit_value
digit_value-none c h = ground arith

hexes-pair : (h l : ℕ) → h < 16 → l < 16 → hexes (h * 16 + l) ≡ base16_digit h ∷ base16_digit l ∷ []
hexes-pair h l hh hl =
    let high : (h * 16 + l) / 16 ≡ h = omega arith in
    let low : (h * 16 + l) % 16 ≡ l = omega arith in
    hexes-digits (h * 16 + l) (omega arith) ∙ rw (high, low)

-- Pairs of digits are read as bytes that print as the same digits in lower case.
byte_pairs-hex :
    (s : Text)
    → length s % 2 ≡ 0
    → all_hex_digits s ≡ true
    → (bs : List ℕ) × (byte_pairs s ≡ ok bs) × AllBytes bs × (bytes_string bs ≡ to_lower_case s)
unfolding byte_pairs all_hex_digits to_lower_case bytes_string
byte_pairs-hex [] even h = ([], refl, tt, refl)
byte_pairs-hex (c ∷ []) even h = absurd (omega arith)
byte_pairs-hex (c ∷ d ∷ s) even h =
    let (m, em, hm, pm) = digit_value-hex c (ground arith) in
    let (n, en, hn, pn) = digit_value-hex d (ground arith) in
    let (bs, e, small, printed) = byte_pairs-hex s (omega arith) (ground arith) in
    (
      (m * 16 + n) ∷ bs,
      ground (arith, em, en, e),
      (omega arith, small),
      ground (arith, hexes-pair m n hm hn, pm, pn, printed),
    )

byte_pairs-bad :
    (s : Text) → length s % 2 ≡ 0 → all_hex_digits s ≡ false → byte_pairs s ≡ err base_error
unfolding byte_pairs all_hex_digits
byte_pairs-bad [] even h = cc
byte_pairs-bad (c ∷ []) even h = absurd (omega arith)
byte_pairs-bad (c ∷ d ∷ s) even h =
    ground (arith, digit_value-none c, digit_value-none d, byte_pairs-bad s (omega arith))

even_digits-even : (s : Text) → length (even_digits s) % 2 ≡ 0
unfolding even_digits
even_digits-even s = ground arith

all_hex_digits-even_digits : (s : Text) → all_hex_digits (even_digits s) ≡ all_hex_digits s
unfolding all_hex_digits is_hex_digit even_digits
all_hex_digits-even_digits s = ground arith

-- Digits after the prefix are read if and only if all of them are hex digits. What is read are
-- bytes, and they print as the same digits in lower case, with a 0 in front if their number is
-- odd; anything else is the error of an invalid byte sequence.
pub hex_to_bytes_lem :
    (s : Text)
    → (all_hex_digits s ≡ true
        → (bs : List ℕ) × (hex_to_bytes (prefix_0x ++ s) none ≡ ok bs)
          × AllBytes bs
          × (bytes_to_hex bs none ≡ ok (prefix_0x ++ to_lower_case (even_digits s))))
      × (all_hex_digits s ≡ false → hex_to_bytes (prefix_0x ++ s) none ≡ err base_error)
unfolding hex_to_bytes bytes_to_hex
hex_to_bytes_lem s =
    let even = even_digits-even s in
    let same = all_hex_digits-even_digits s in
    (
      λ h.
          let (bs, e, small, printed) = byte_pairs-hex (even_digits s) even (same ∙ h) in
          (bs, e, small, ap (λ t. ok (prefix_0x ++ t)) printed),
      λ h. byte_pairs-bad (even_digits s) even (same ∙ h),
    )

-- Bytes that are printed as a hex string are read back.
pub hex_to_bytes-bytes_to_hex :
    (bs : List ℕ) → AllBytes bs → (bytes_to_hex bs none >>= λ s. hex_to_bytes s none) ≡ ok bs
unfolding bytes_to_hex hex_to_bytes even_digits
hex_to_bytes-bytes_to_hex bs h =
    ground (arith, even-bytes_string bs h, byte_pairs-bytes_string bs h)
