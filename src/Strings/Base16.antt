-- ===== src/Strings/Base16.antt =====
-- Printing and reading numbers in radix 16.
use tosdk.Prelude.{
  ℕ, zero, suc, ◌+◌, ◌-◌, ◌*◌, ◌/◌, ◌%◌, ◌^◌, ◌≤◌, ◌<◌, ◌≡◌, refl, ap, ◌∙◌, arith, true, [], ◌∷◌,
  ◌++◌, some, length, replicate, length-append, Option-cases, inl, inr,
}
use tosdk.Strings.{
  Text, base16_digit, digit_value, base16_fuel, to_base16, base16_from, from_base16, is_hex_digit,
}

pub digit_value-base16_digit : (d : ℕ) → d < 16 → digit_value (base16_digit d) ≡ some d
unfolding digit_value base16_digit
digit_value-base16_digit d h = ground arith

pub is_hex_digit-base16_digit : (d : ℕ) → d < 16 → is_hex_digit (base16_digit d) ≡ true
unfolding is_hex_digit base16_digit
is_hex_digit-base16_digit d h = ground arith

pub digit_value-lt : (c d : ℕ) → digit_value c ≡ some d → d < 16
unfolding digit_value
digit_value-lt c d h = ground arith

-- Reading goes on behind what has been read.
pub base16_from-append :
    (acc v : ℕ) (s t : Text)
    → base16_from acc s ≡ some v
    → base16_from acc (s ++ t) ≡ base16_from v t
unfolding base16_from
base16_from-append acc v [] t h = ground arith
base16_from-append acc v (c ∷ s) t h = elim (Option-cases (digit_value c)) [
  | inl e ↦ absurd (ground arith)
  | inr (d, e) ↦ ground (arith, e, base16_from-append (acc * 16 + d) v s t)
]

-- A printed number is read back.
base16_from-base16_fuel : (f n : ℕ) → n ≤ f → base16_from 0 (base16_fuel f n) ≡ some n
unfolding base16_fuel base16_from
base16_from-base16_fuel zero n h = ground (arith, digit_value-base16_digit n)
base16_from-base16_fuel (suc f) n h = ground (
  arith,
  digit_value-base16_digit n,
  digit_value-base16_digit (n % 16),
  base16_from-base16_fuel f (n / 16),
  base16_from-append 0 (n / 16) (base16_fuel f (n / 16)) (base16_digit (n % 16) ∷ []),
)

pub base16_from-to_base16 : (n : ℕ) → base16_from 0 (to_base16 n) ≡ some n
unfolding to_base16
base16_from-to_base16 n = base16_from-base16_fuel n n (omega arith)

-- Zeros in front do not count.
pub base16_from-zeros : (k : ℕ) (s : Text) → base16_from 0 (replicate k b'0' ++ s) ≡ base16_from 0 s
unfolding base16_from digit_value
base16_from-zeros zero s = refl
base16_from-zeros (suc k) s = base16_from-zeros k s

pow16_suc : (k : ℕ) → 16 ^ suc k ≡ 16 * 16 ^ k
pow16_suc k = omega arith

base16_from-fs : (k acc : ℕ) → base16_from acc (replicate k b'f') ≡ some ((acc + 1) * 16 ^ k - 1)
unfolding base16_from digit_value
base16_from-fs zero acc = ground arith
base16_from-fs (suc k) acc =
    base16_from-fs k (acc * 16 + 15) ∙ ap (λ (t : ℕ). some (t - 1)) (rw (pow16_suc k) (omega arith))

-- k digits f are 16 ^ k - 1.
pub base16_from-all_f : (k : ℕ) → base16_from 0 (replicate k b'f') ≡ some (16 ^ k - 1)
base16_from-all_f k = base16_from-fs k 0 ∙ ground arith

length-base16_fuel : (f n k : ℕ) → n ≤ f → n < 16 ^ suc k → length (base16_fuel f n) ≤ suc k
unfolding base16_fuel
length-base16_fuel zero n k h hk = omega arith
length-base16_fuel (suc f) n zero h hk = ground arith
length-base16_fuel (suc f) n (suc k) h hk = ground (
  arith,
  pow16_suc (suc k),
  length-base16_fuel f (n / 16) k,
  length-append (base16_fuel f (n / 16)) (base16_digit (n % 16) ∷ []),
)

-- A number below 16 ^ k has at most k digits.
pub length-to_base16 : (n k : ℕ) → 0 < k → n < 16 ^ k → length (to_base16 n) ≤ k
unfolding to_base16
length-to_base16 n zero hk h = absurd (omega arith)
length-to_base16 n (suc k) hk h = length-base16_fuel n n k (omega arith) h

pub to_base16-nonempty : (n : ℕ) → 0 < length (to_base16 n)
unfolding to_base16 base16_fuel
to_base16-nonempty zero = omega arith
to_base16-nonempty (suc n) =
    ground (arith, length-append (base16_fuel n (suc n / 16)) (base16_digit (suc n % 16) ∷ []))

-- `from_base16` wants a digit, and else reads as the loop does.
pub from_base16_lem : (s : Text) → 0 < length s → from_base16 s ≡ base16_from 0 s
unfolding from_base16
from_base16_lem [] h = absurd (omega arith)
from_base16_lem (c ∷ s) h = refl
