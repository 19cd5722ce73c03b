-- ===== src/Accounts/Halves.antt =====
-- The two halves of the bytes of a signature (nativeSigner.ts).
use tosdk.Prelude.{
  ℕ, ◌+◌, ◌≡◌, sym, ap, ◌∙◌, arith, List, [], ◌∷◌, ◌++◌, append-nil, length, take, drop,
  length-append, take-append_exact, drop-append_exact,
}
use tosdk.Data.{concat_bytes}
use tosdk.Data.Join.{concat_bytes-joined}

pub take-append_at : (n : ℕ) (xs ys : List ℕ) → length xs ≡ n → take n (xs ++ ys) ≡ xs
take-append_at n xs ys e = rw (sym e) (take-append_exact xs ys)

pub drop-append_at : (n : ℕ) (xs ys : List ℕ) → length xs ≡ n → drop n (xs ++ ys) ≡ ys
drop-append_at n xs ys e = rw (sym e) (drop-append_exact xs ys)

take-all : (n : ℕ) (xs : List ℕ) → length xs ≡ n → take n xs ≡ xs
take-all n xs e = ap (take n) (sym (append-nil xs)) ∙ take-append_at n xs [] e

pub concat_bytes-two : (a b : List ℕ) → concat_bytes (a ∷ b ∷ []) ≡ a ++ b
concat_bytes-two a b = concat_bytes-joined (a ∷ b ∷ []) ∙ ap (◌++◌ a) (append-nil b)

pub halves_lem :
    (n : ℕ) (a b : List ℕ)
    → length a ≡ n
    → length b ≡ n
    → (length (a ++ b) ≡ n + n)
      × (take n (a ++ b) ≡ a)
      × (drop n (a ++ b) ≡ b)
      × (take n (drop n (a ++ b)) ≡ b)
halves_lem n a b la lb = (
  omega (arith, length-append a b),
  take-append_at n a b la,
  drop-append_at n a b la,
  ap (take n) (drop-append_at n a b la) ∙ take-all n b lb,
)
