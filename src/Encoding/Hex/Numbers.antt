-- ===== src/Encoding/Hex/Numbers.antt =====
-- Numbers as hex strings and back, signed and not.
use tosdk.Prelude.{
  ℕ, zero, suc, ◌+◌, ◌-◌, ◌*◌, ◌^◌, ◌≤◌, ◌<◌, ◌≡◌, refl, ap, ◌∙◌, arith, Bool, true, false, [], ◌∷◌,
  ◌++◌, some, length, replicate, ℤ, pos, negsuc, length-append,
}
use tosdk.Prelude.Results.{ok, err, integer_out_of_range}
use tosdk.Strings.{Text, prefix_0x, to_base16, from_base16, base16_from, pad_start, digit_value}
use tosdk.Strings.Base16.{
  base16_from-append, base16_from-to_base16, base16_from-zeros, base16_from-all_f, length-to_base16,
  to_base16-nonempty, from_base16_lem,
}
use tosdk.Strings.Laws.{length-pad_start}
use tosdk.Data.{hex, left, pad_hex, size}
use tosdk.Encoding.Hex.{
  Numeric, number, bigint, to_big_int, number_to_hex, parse_big_int, to_signed, hex_to_big_int,
  assert_size,
}
use native.Mathlib.Numerals.{towards_suc}

pow2_add8 : (n : ℕ) → 2 ^ (n + 8) ≡ 256 * 2 ^ n
pow2_add8 n = simp towards_suc (omega arith)

pow2_pred : (n : ℕ) → 0 < n → 2 ^ n ≡ 2 * 2 ^ (n - 1)
pow2_pred zero h = absurd (omega arith)
pow2_pred (suc n) h = let e : suc n - 1 ≡ n = omega arith in rw e (omega arith)

pow2_pos : (n : ℕ) → 0 < 2 ^ n
pow2_pos zero = omega arith
pow2_pos (suc n) = omega (arith, pow2_pos n)

pow16_pos : (n : ℕ) → 0 < 16 ^ n
pow16_pos zero = omega arith
pow16_pos (suc n) = omega (arith, pow16_pos n)

-- A byte is two digits.
pow16-pow2 : (k : ℕ) → 16 ^ (k * 2) ≡ 2 ^ (8 * k)
pow16-pow2 zero = refl
pow16-pow2 (suc k) =
    let e : suc k * 2 ≡ suc (suc (k * 2)) = omega arith in
    let e' : 8 * suc k ≡ 8 * k + 8 = omega arith in
    rw (e, e', pow2_add8) (omega (arith, pow16-pow2 k))

-- The digits of n, padded on the left, read as n.
from_base16-pad_start : (k n : ℕ) → from_base16 (pad_start k b'0' (to_base16 n)) ≡ some n
unfolding pad_start
from_base16-pad_start k n =
    let zeros = k - length (to_base16 n) in
    from_base16_lem (replicate zeros b'0' ++ to_base16 n)
      (omega (arith, length-append (replicate zeros b'0') (to_base16 n), to_base16-nonempty n))
    ∙ base16_from-zeros zeros (to_base16 n)
    ∙ base16_from-to_base16 n

-- The string that a number n of k bytes is written as.
abbrev written : ℕ → ℕ → Text
written n k = prefix_0x ++ pad_start (k * 2) b'0' (to_base16 n)

module _ (n k : ℕ) (some_byte : 0 < k) (fits : n < 2 ^ (8 * k)) where
  short : length (to_base16 n) ≤ k * 2
  short = length-to_base16 n (k * 2) (omega arith) (omega (arith, pow16-pow2 k))

  length-written : length (written n k) ≡ 2 + k * 2
  length-written = omega (arith, length-pad_start (k * 2) b'0' (to_base16 n) short)

  pad_hex-written : pad_hex left (some k) (prefix_0x ++ to_base16 n) ≡ ok (written n k)
  unfolding pad_hex
  pad_hex-written = ground (arith, short)

  parse_big_int-written : parse_big_int (written n k) ≡ ok n
  unfolding parse_big_int
  parse_big_int-written = ground (arith, from_base16-pad_start (k * 2) n)

  assert_size-written : assert_size (hex (written n k)) k ≡ ok tt
  unfolding assert_size size
  assert_size-written = ground (arith, length-written)

-- The integers that k bytes hold, in two's complement if signed.
abbrev pub Fits : Bool → ℤ → ℕ → Type 0
Fits true (pos n) k = n < 2 ^ (8 * k - 1)
Fits true (negsuc n) k = n < 2 ^ (8 * k - 1)
Fits false (pos n) k = n < 2 ^ (8 * k)
Fits false (negsuc n) k = ⊥

-- The unsigned integer with the same bits.
abbrev bit_pattern : ℤ → ℕ → ℕ
bit_pattern (pos n) k = n
bit_pattern (negsuc n) k = 2 ^ (8 * k) - suc n

bit_pattern-lt :
    (signed : Bool) (v : ℤ) (k : ℕ) → 0 < k → Fits signed v k → bit_pattern v k < 2 ^ (8 * k)
bit_pattern-lt true (pos n) k h f = omega (arith, pow2_pred (8 * k))
bit_pattern-lt true (negsuc n) k h f = omega (arith, pow2_pred (8 * k), pow2_pos (8 * k))
bit_pattern-lt false (pos n) k h f = f
bit_pattern-lt false (negsuc n) k h f = absurd f

-- The checks let a value that fits through, and its bits are written.
checked :
    (value : Numeric) (signed : Bool) (k : ℕ)
    → 0 < k
    → Fits signed (to_big_int value) k
    → number_to_hex value signed (some k)
      ≡ pad_hex left (some k) (prefix_0x ++ to_base16 (bit_pattern (to_big_int value) k))
unfolding number_to_hex
checked (number (pos n)) true k h f = ground (arith, pow2_pos (8 * k - 1))
checked (number (negsuc n)) true k h f = ground (arith, pow2_pos (8 * k - 1))
checked (number (pos n)) false k h f = ground (arith, pow2_pos (8 * k))
checked (number (negsuc n)) false k h f = absurd f
checked (bigint (pos n)) true k h f = ground (arith, pow2_pos (8 * k - 1))
checked (bigint (negsuc n)) true k h f = ground (arith, pow2_pos (8 * k - 1))
checked (bigint (pos n)) false k h f = ground (arith, pow2_pos (8 * k))
checked (bigint (negsuc n)) false k h f = absurd f

-- `0x${'f'.padStart(size * 2, 'f')}` is 2 ^ (8 * size) - 1.
all_ones :
    (k : ℕ) → 0 < k → from_base16 (pad_start (k * 2) b'f' (b'f' ∷ [])) ≡ some (2 ^ (8 * k) - 1)
unfolding pad_start base16_from digit_value
all_ones k h =
    let m = k * 2 - 1 in
    let fs : Text = replicate m b'f' in
    let e : k * 2 ≡ suc m = omega arith in
    from_base16_lem (fs ++ (b'f' ∷ [])) (omega (arith, length-append fs (b'f' ∷ [])))
    ∙ base16_from-append 0 (16 ^ m - 1) fs (b'f' ∷ []) (base16_from-all_f m)
    ∙ ap some (omega (arith, pow16-pow2 k, ap (λ (t : ℕ). 16 ^ t) e, pow16_pos m))

to_signed-written :
    (v : ℤ) (k : ℕ)
    → 0 < k
    → Fits true v k
    → to_signed (written (bit_pattern v k) k) (bit_pattern v k) ≡ ok v
unfolding to_signed
to_signed-written (pos n) k h f =
    ground (arith, length-written n k h (bit_pattern-lt true (pos n) k h f))
to_signed-written (negsuc n) k h f = ground (
  arith,
  length-written (bit_pattern (negsuc n) k) k h (bit_pattern-lt true (negsuc n) k h f),
  all_ones k h,
  pow2_pred (8 * k),
)

read_back :
    (signed : Bool) (v : ℤ) (k : ℕ)
    → 0 < k
    → Fits signed v k
    → hex_to_big_int (written (bit_pattern v k) k) signed (some k) ≡ ok v
unfolding hex_to_big_int
read_back true v k h f =
    let small = bit_pattern-lt true v k h f in
    ground (
      arith,
      assert_size-written (bit_pattern v k) k h small,
      parse_big_int-written (bit_pattern v k) k h small,
      to_signed-written v k h f,
    )
read_back false (pos n) k h f =
    ground (arith, assert_size-written n k h f, parse_big_int-written n k h f)
read_back false (negsuc n) k h f = absurd f

-- An integer that a size of at least one byte holds, in two's complement if the number is signed,
-- is written as a hex string of just that many bytes, and the string is read back as the integer.
pub hex_to_big_int-number_to_hex :
    (value : Numeric) (signed : Bool) (k : ℕ)
    → 0 < k
    → Fits signed (to_big_int value) k
    → (s : Text) × (number_to_hex value signed (some k) ≡ ok s)
      × (length s ≡ 2 + k * 2)
      × (hex_to_big_int s signed (some k) ≡ ok (to_big_int value))
hex_to_big_int-number_to_hex value signed k h f =
    let v = to_big_int value in
    let small = bit_pattern-lt signed v k h f in
    (
      written (bit_pattern v k) k,
      checked value signed k h f ∙ pad_hex-written (bit_pattern v k) k h small,
      length-written (bit_pattern v k) k h small,
      read_back signed v k h f,
    )

-- The largest value is never 0, at which the source would skip the check.
wide : (k : ℕ) → 0 < k → (1 < 2 ^ (8 * k - 1)) × (1 < 2 ^ (8 * k))
wide zero h = absurd (omega arith)
wide (suc k) h =
    let e : 8 * suc k - 1 ≡ suc (8 * k + 6) = omega arith in
    let e' : 8 * suc k ≡ suc (8 * k + 7) = omega arith in
    rw (e, e') (omega (arith, pow2_pos (8 * k + 6)), omega (arith, pow2_pos (8 * k + 7)))

-- An integer that the size does not hold is refused as out of range.
pub number_to_hex-integer_out_of_range :
    (value : Numeric) (signed : Bool) (k : ℕ)
    → 0 < k
    → ¬ Fits signed (to_big_int value) k
    → number_to_hex value signed (some k) ≡ err integer_out_of_range
unfolding number_to_hex
number_to_hex-integer_out_of_range (number (pos n)) true k h f = ground (arith, wide k h)
number_to_hex-integer_out_of_range (number (negsuc n)) true k h f = ground (arith, wide k h)
number_to_hex-integer_out_of_range (number (pos n)) false k h f = ground (arith, wide k h)
number_to_hex-integer_out_of_range (number (negsuc n)) false k h f = ground (arith, wide k h)
number_to_hex-integer_out_of_range (bigint (pos n)) true k h f = ground (arith, wide k h)
number_to_hex-integer_out_of_range (bigint (negsuc n)) true k h f = ground (arith, wide k h)
number_to_hex-integer_out_of_range (bigint (pos n)) false k h f = ground (arith, wide k h)
number_to_hex-integer_out_of_range (bigint (negsuc n)) false k h f = ground (arith, wide k h)

-- A natural number of k bytes, as the string it is written as.
pub number_to_hex-word :
    (n k : ℕ)
    → 0 < k
    → n < 2 ^ (8 * k)
    → (number_to_hex (number (pos n)) false (some k)
        ≡ ok (prefix_0x ++ pad_start (k * 2) b'0' (to_base16 n)))
      × (length (pad_start (k * 2) b'0' (to_base16 n)) ≡ k * 2)
      × (hex_to_big_int (prefix_0x ++ pad_start (k * 2) b'0' (to_base16 n)) false (some k)
          ≡ ok (pos n))
unfolding to_big_int
number_to_hex-word n k h f = (
  checked (number (pos n)) false k h f ∙ pad_hex-written n k h f,
  length-pad_start (k * 2) b'0' (to_base16 n) (short n k h f),
  read_back false (pos n) k h f,
)
