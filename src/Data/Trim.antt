-- ===== src/Data/Trim.antt =====
-- trim: what it drops, and that padding gives it back.
use tosdk.Prelude.{
  ℕ, zero, suc, ◌+◌, ◌-◌, ◌%◌, ◌≤◌, ◌<◌, ◌≡◌, ◌≢◌, refl, sym, ap, ◌∙◌, arith, List, [], ◌∷◌, ◌++◌,
  some, ◌==◌, if◌then◌else◌, length, replicate, take, drop, get_or, length-append, length-replicate,
  take-append_exact, Bool-cases, inl, inr,
}
use tosdk.Prelude.Results.{ok}
use tosdk.Strings.{Text, prefix_0x, digit_value, base16_from}
use tosdk.Strings.Laws.{remove_0x-prefix}
use tosdk.Data.{Dir, left, right, zeros_run, trim_run, trim_hex, trim_bytes, pad_bytes}
use tosdk.Data.Pad.{pad_bytes_lem}
use mathlib.Core.List.{reverse, reverse-append, reverse-reverse}

zeros_run-split :
    (z : ℕ) (xs : List ℕ) → replicate (zeros_run z xs) z ++ drop (zeros_run z xs) xs ≡ xs
unfolding zeros_run
zeros_run-split z [] = refl
zeros_run-split z (x ∷ []) = refl
zeros_run-split z (x ∷ y ∷ xs) = ground (arith, zeros_run-split z (y ∷ xs))

zeros_run-le : (z : ℕ) (xs : List ℕ) → zeros_run z xs ≤ length xs
unfolding zeros_run
zeros_run-le z [] = omega arith
zeros_run-le z (x ∷ []) = omega arith
zeros_run-le z (x ∷ y ∷ xs) = ground (arith, zeros_run-le z (y ∷ xs))

base16_from-trim : (s : Text) → base16_from 0 (trim_run left b'0' s) ≡ base16_from 0 s
unfolding trim_run zeros_run base16_from digit_value
base16_from-trim [] = refl
base16_from-trim (x ∷ []) = refl
base16_from-trim (x ∷ y ∷ s) = ground (arith, base16_from-trim (y ∷ s))

trim_run-first :
    (s : Text) → 1 < length (trim_run left b'0' s) → get_or (trim_run left b'0' s) 0 0 ≢ b'0'
unfolding trim_run zeros_run
trim_run-first [] h = ground (arith, h)
trim_run-first (x ∷ []) h = ground (arith, h)
trim_run-first (x ∷ y ∷ s) h = ground (arith, h, trim_run-first (y ∷ s))

replicate-snoc : (n z : ℕ) → replicate n z ++ (z ∷ []) ≡ replicate (suc n) z
replicate-snoc zero z = refl
replicate-snoc (suc n) z = ap (λ t. z ∷ t) (replicate-snoc n z)

reverse-replicate : (n z : ℕ) → reverse (replicate n z) ≡ replicate n z
reverse-replicate zero z = refl
reverse-replicate (suc n) z =
    reverse-append (z ∷ []) (replicate n z)
    ∙ ap (λ t. t ++ (z ∷ [])) (reverse-replicate n z)
    ∙ replicate-snoc n z

take-trim :
    (w xs : List ℕ) (k z : ℕ)
    → xs ≡ w ++ replicate k z
    → take (length xs - k) xs ++ replicate k z ≡ xs
take-trim w xs k z e = rw e (
    ap (λ t. t ++ replicate k z)
      (ap (λ n. take n (w ++ replicate k z))
          (omega (arith, length-append w (replicate k z), length-replicate k z))
        ∙ take-append_exact w (replicate k z)))

trim_run-split_right :
    (z : ℕ) (xs : List ℕ) → trim_run right z xs ++ replicate (zeros_run z (reverse xs)) z ≡ xs
unfolding trim_run
trim_run-split_right z xs =
    let n = zeros_run z (reverse xs) in
    take-trim (reverse (drop n (reverse xs))) xs n z (
      sym (reverse-reverse xs)
      ∙ ap reverse (sym (zeros_run-split z (reverse xs)))
      ∙ reverse-append (replicate n z) (drop n (reverse xs))
      ∙ ap (λ t. reverse (drop n (reverse xs)) ++ t) (reverse-replicate n z))

trim_run-split_left :
    (z : ℕ) (xs : List ℕ) → replicate (zeros_run z xs) z ++ trim_run left z xs ≡ xs
unfolding trim_run
trim_run-split_left z xs = zeros_run-split z xs

pad_left_back :
    (w : List ℕ) (bs : List ℕ) (k : ℕ)
    → replicate k 0 ++ w ≡ bs
    → pad_bytes left (some (length bs)) w ≡ ok bs
pad_left_back w bs k e =
    let l : length bs ≡ k + length w =
      ap length (sym e)
      ∙ length-append (replicate k 0) w
      ∙ ap (λ n. n + length w) (length-replicate k 0) in
    ((pad_bytes_lem w (length bs)).0 (omega (arith, l))).0
    ∙ ap (λ n. ok (replicate n 0 ++ w)) (omega (arith, l))
    ∙ ap ok e

pad_right_back :
    (w : List ℕ) (bs : List ℕ) (k : ℕ)
    → w ++ replicate k 0 ≡ bs
    → pad_bytes right (some (length bs)) w ≡ ok bs
pad_right_back w bs k e =
    let l : length bs ≡ length w + k =
      ap length (sym e)
      ∙ length-append w (replicate k 0)
      ∙ ap (λ n. length w + n) (length-replicate k 0) in
    ((pad_bytes_lem w (length bs)).0 (omega (arith, l))).1
    ∙ ap (λ n. ok (w ++ replicate n 0)) (omega (arith, l))
    ∙ ap ok e

-- Padding a trimmed byte array to its old length on the side that was trimmed gives the array back.
pub pad_bytes-trim_bytes :
    (dir : Dir) (bs : List ℕ) → pad_bytes dir (some (length bs)) (trim_bytes dir bs) ≡ ok bs
unfolding trim_bytes
pad_bytes-trim_bytes left bs =
    pad_left_back (trim_run left 0 bs) bs (zeros_run 0 bs) (trim_run-split_left 0 bs)
pad_bytes-trim_bytes right bs =
    pad_right_back (trim_run right 0 bs) bs (zeros_run 0 (reverse bs)) (trim_run-split_right 0 bs)

-- The digits that trim writes on the left: an even number of them.
abbrev pub even_run : Text → Text
even_run run = if length run % 2 == 1 then b'0' ∷ run else run

pub trim_hex-left :
    (s : Text) → trim_hex left (prefix_0x ++ s) ≡ prefix_0x ++ even_run (trim_run left b'0' s)
unfolding trim_hex
trim_hex-left s = rw (remove_0x-prefix s) refl

base16_from-even_run : (s : Text) → base16_from 0 (even_run s) ≡ base16_from 0 s
unfolding base16_from digit_value
base16_from-even_run s = ground arith

length-even_run : (s : Text) → length (prefix_0x ++ even_run s) % 2 ≡ 0
length-even_run s = ground arith

even_run-first :
    (s : Text)
    → (1 < length s → get_or s 0 0 ≢ b'0')
    → 4 < length (prefix_0x ++ even_run s)
    → get_or (prefix_0x ++ even_run s) 2 0 ≡ b'0'
    → get_or (prefix_0x ++ even_run s) 3 0 ≢ b'0'
even_run-first s f l e h = elim (Bool-cases (length s % 2 == 1)) [
  | inl t ↦ f (ground (arith, t, l)) (ground (arith, t, h))
  | inr t ↦ f (ground (arith, t, l)) (ground (arith, t, e))
]

-- Trimming a hex string on the left keeps the number it writes, leaves whole bytes, and leaves no
-- zero byte in front of another byte.
pub trim_hex_left_lem :
    (s : Text)
    → (base16_from 0 (drop 2 (trim_hex left (prefix_0x ++ s))) ≡ base16_from 0 s)
      × (length (trim_hex left (prefix_0x ++ s)) % 2 ≡ 0)
      × (4 < length (trim_hex left (prefix_0x ++ s))
          → get_or (trim_hex left (prefix_0x ++ s)) 2 0 ≡ b'0'
          → get_or (trim_hex left (prefix_0x ++ s)) 3 0 ≢ b'0')
trim_hex_left_lem s = rw (trim_hex-left s) (
  base16_from-even_run (trim_run left b'0' s) ∙ base16_from-trim s,
  length-even_run (trim_run left b'0' s),
  even_run-first (trim_run left b'0' s) (trim_run-first s),
)
