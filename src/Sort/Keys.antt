-- ===== src/Sort/Keys.antt =====
-- Orders that are said by their keys, and lists that are in such an order.
use tosdk.Prelude.{
  ℤ, pos, negsuc, ◌-ℤ◌, ltb_ℤ, ◌≡◌, ap, ◌⊎◌, inl, inr, arith, true, false, ◌||◌, List, [], ◌∷◌,
  if◌then◌else◌, Bool-cases,
}
use tosdk.Sort.{is_positive, is_below}
use tosdk.Sort.Laws.{Ordered}
use tosdk.Arrays.{All}

-- Every item stands so to all behind it.
abbrev pub InOrder : {A : Type 0} → (A → A → Type 0) → List A → Type 0
InOrder R [] = Unit
InOrder R (x ∷ xs) = All (R x) xs × InOrder R xs

-- The larger number first; equal ones leave it to the rest.
abbrev pub Descending : ℤ → ℤ → Type 0 → Type 0
Descending x y rest = (ltb_ℤ y x ≡ true) ⊎ ((x ≡ y) × rest)

module _ {A : Type 0} (compare : A → A → ℤ) (R : A → A → Type 0)
    (means : (a b : A) → is_positive (compare a b) ≡ false → R a b) where
  All-means : (a : A) (xs : List A) → All (λ y. is_positive (compare a y) ≡ false) xs → All (R a) xs
  All-means a [] h = tt
  All-means a (x ∷ xs) h = (means a x h.0, All-means a xs h.1)

  pub Ordered-InOrder : (xs : List A) → Ordered compare xs → InOrder R xs
  Ordered-InOrder [] h = tt
  Ordered-InOrder (x ∷ xs) h = (All-means x xs h.0, Ordered-InOrder xs h.1)

below_lem : (x y : ℤ) → is_below (y -ℤ x) ≡ true → ltb_ℤ y x ≡ true
below_lem (pos m) (pos n) h = ground (arith, h)
below_lem (pos m) (negsuc n) h = ground (arith, h)
below_lem (negsuc m) (pos n) h = ground (arith, h)
below_lem (negsuc m) (negsuc n) h = ground (arith, h)

level_lem : (x y : ℤ) → is_positive (y -ℤ x) ≡ false → is_below (y -ℤ x) ≡ false → x ≡ y
level_lem (pos m) (pos n) h k = let e : m ≡ n = ground (arith, h, k) in ap pos e
level_lem (pos m) (negsuc n) h k = absurd (ground (arith, h, k))
level_lem (negsuc m) (pos n) h k = absurd (ground (arith, h, k))
level_lem (negsuc m) (negsuc n) h k = let e : m ≡ n = ground (arith, h, k) in ap negsuc e

-- `if (y - x !== 0) return y - x; return z`
pub Descending_lem :
    (x y z : ℤ) (rest : Type 0)
    → (is_positive z ≡ false → rest)
    → is_positive (if is_positive (y -ℤ x) || is_below (y -ℤ x) then y -ℤ x else z) ≡ false
    → Descending x y rest
Descending_lem x y z rest then_ h = elim (Bool-cases (is_positive (y -ℤ x))) [
  | inl p ↦ absurd (ground (arith, p, h))
  | inr p ↦ elim (Bool-cases (is_below (y -ℤ x))) [
    | inl b ↦ inl (below_lem x y b)
    | inr b ↦ inr (level_lem x y p b, then_ (ground (arith, p, b, h)))
  ]
]
