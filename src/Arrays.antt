-- ===== src/Arrays.antt =====
-- The methods of JavaScript arrays that the sources use with a test: filter, find and includes,
-- and what is in an array.
use tosdk.Prelude.{
  ◌≡◌, refl, ◌∙◌, sym, ap, ◌⊎◌, inl, inr, arith, Bool, true, false, ◌||◌, List, [], ◌∷◌, Option,
  none, some, if◌then◌else◌, Bool-cases, map,
}
use tosdk.Strings.{Text, text_eq}
use mathlib.Core.Path.{subst}

abbrev pub All {ℓ κ} : {A : Type ℓ} → (A → Type κ) → List A → Type κ
All P [] = Unit
All P (x ∷ xs) = P x × All P xs

abbrev pub Member : {A : Type 0} → A → List A → Type 0
Member a [] = ⊥
Member a (x ∷ xs) = (a ≡ x) ⊎ Member a xs

unfoldable pub filter {ℓ} : {A : Type ℓ} → (A → Bool) → List A → List A
filter test [] = []
filter test (x ∷ xs) = let rest = filter test xs in if test x then x ∷ rest else rest

unfoldable pub find_first {ℓ} : {A : Type ℓ} → (A → Bool) → List A → Option A
find_first test [] = none
find_first test (x ∷ xs) = let rest = find_first test xs in if test x then some x else rest

unfoldable pub includes : List Text → Text → Bool
includes [] s = false
includes (t ∷ ts) s = text_eq t s || includes ts s

-- xs[0]
unfoldable pub first {ℓ} : {A : Type ℓ} → List A → Option A
first [] = none
first (x ∷ xs) = some x

module _ {A : Type 0} where
  pub Member-filter :
      (test : A → Bool) (a : A) (xs : List A)
      → (Member a (filter test xs) → Member a xs × (test a ≡ true))
        × (Member a xs → test a ≡ true → Member a (filter test xs))
  unfolding filter
  Member-filter test a [] = (λ m. absurd m, λ m h. m)
  Member-filter test a (x ∷ xs) =
      let ih = Member-filter test a xs in
      elim (Bool-cases (test x)) [
        | inl e ↦ rw e (
          λ m. elim m [ inl q ↦ (inl q, ap test q ∙ e) | inr n ↦ (inr (ih.0 n).0, (ih.0 n).1) ],
          λ m h. elim m [ inl q ↦ inl q | inr n ↦ inr (ih.1 n h) ],
        )
        | inr e ↦ rw e (
          λ m. (inr (ih.0 m).0, (ih.0 m).1),
          λ m h. elim m [ inl q ↦ absurd (ground (arith, e, h, ap test q)) | inr n ↦ ih.1 n h ],
        )
      ]

  pub Member-map :
      {B : Type 0} (f : A → B) (a : A) (xs : List A) → Member a xs → Member (f a) (map f xs)
  Member-map f a [] m = m
  Member-map f a (x ∷ xs) (inl q) = inl (ap f q)
  Member-map f a (x ∷ xs) (inr m) = inr (Member-map f a xs m)

  pub Member-map_back :
      {B : Type 0} (f : A → B) (b : B) (xs : List A)
      → Member b (map f xs)
      → (a : A) × (b ≡ f a) × Member a xs
  Member-map_back f b [] m = absurd m
  Member-map_back f b (x ∷ xs) (inl q) = (x, q, inl refl)
  Member-map_back f b (x ∷ xs) (inr m) = let (a, q, n) = Member-map_back f b xs m in (a, q, inr n)

  pub All-filter {κ} :
      (P : A → Type κ) (test : A → Bool) (xs : List A) → All P xs → All P (filter test xs)
  unfolding filter
  All-filter P test [] h = tt
  All-filter P test (x ∷ xs) h = elim (Bool-cases (test x)) [
    | inl e ↦ rw e (h.0, All-filter P test xs h.1)
    | inr e ↦ rw e (All-filter P test xs h.1)
  ]

  pub All-Member {κ} : (P : A → Type κ) (a : A) (xs : List A) → All P xs → Member a xs → P a
  All-Member P a [] h m = absurd m
  All-Member P a (x ∷ xs) h (inl q) = subst P (sym q) h.0
  All-Member P a (x ∷ xs) h (inr m) = All-Member P a xs h.1 m

-- Tests and functions that agree on every item.
pub filter-same :
    {A : Type 0} (f g : A → Bool)
    → ((a : A) → f a ≡ g a)
    → (xs : List A) → filter f xs ≡ filter g xs
unfolding filter
filter-same f g h [] = refl
filter-same f g h (x ∷ xs) = rw (h x, filter-same f g h xs) refl

pub map-same :
    {A B : Type 0} (f g : A → B) → ((a : A) → f a ≡ g a) → (xs : List A) → map f xs ≡ map g xs
map-same f g h [] = refl
map-same f g h (x ∷ xs) = rw (h x, map-same f g h xs) refl
