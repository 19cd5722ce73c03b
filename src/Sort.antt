-- ===== src/Sort.antt =====
-- Array.prototype.sort with a comparator: the stable order, which is what the language promises
-- for a comparator that orders its arguments consistently (IsComparator).
use tosdk.Prelude.{
  ℕ, zero, suc, ℤ, pos, negsuc, ◌≡◌, Bool, true, false, not, List, [], ◌∷◌, if◌then◌else◌,
}
pub mod Orders
pub mod Laws
pub mod Keys
pub mod Choice

abbrev pub is_positive : ℤ → Bool
is_positive (pos zero) = false
is_positive (pos (suc n)) = true
is_positive (negsuc n) = false

abbrev pub is_below : ℤ → Bool
is_below (pos n) = false
is_below (negsuc n) = true

-- An item goes in front of what it does not follow: equal items keep their order.
unfoldable pub insert {ℓ} : {A : Type ℓ} → (A → A → ℤ) → A → List A → List A
insert compare x [] = x ∷ []
insert compare x (y ∷ ys) =
    let rest = insert compare x ys in if is_positive (compare x y) then y ∷ rest else x ∷ y ∷ ys

unfoldable pub sort {ℓ} : {A : Type ℓ} → (A → A → ℤ) → List A → List A
unfolding insert
sort compare [] = []
sort compare (x ∷ xs) = insert compare x (sort compare xs)

-- The sign of a comparison turns with its arguments, and "not after" is transitive.
pub record IsComparator {ℓ} {A : Type ℓ} (compare : A → A → ℤ) : Type ℓ where
  pub turned : (a b : A) → is_positive (compare b a) ≡ is_below (compare a b)
  pub chained :
      (a b c : A)
      → is_positive (compare a b) ≡ false
      → is_positive (compare b c) ≡ false
      → is_positive (compare a c) ≡ false
