-- ===== src/Lru/Entries.antt =====
-- Lookups in an ordered list of entries after a write and a removal.
use tosdk.Prelude.{
  ◌+◌, ◌≡◌, refl, arith, false, List, [], ◌∷◌, ◌++◌, none, some, if◌then◌else◌, length, Bool-cases,
  inl, inr, ◌∙◌,
}
use tosdk.Strings.{Text, text_eq}
use tosdk.Strings.Laws.{text_eq_iff}
use tosdk.Lru.{find, remove, store}

module _ {ℓ} {V : Type ℓ} where
  abbrev pub keys : List (Text × V) → List Text
  keys [] = []
  keys ((k, v) ∷ m) = k ∷ keys m

  pub find-store :
      (key j : Text) (value : V) (m : List (Text × V))
      → find j (store key value m) ≡ (if text_eq key j then some value else find j m)
  unfolding find store
  find-store key j value [] = refl
  find-store key j value ((k, v) ∷ m) =
      ground
        (arith, text_eq_iff k key, text_eq_iff key j, text_eq_iff k j, find-store key j value m)

  -- No key stands twice.
  abbrev pub Distinct : List (Text × V) → Type ℓ
  Distinct [] = Unit
  Distinct ((k, v) ∷ m) = (find k m ≡ none) × Distinct m

  pub find-remove_ne :
      (key j : Text) (m : List (Text × V))
      → text_eq key j ≡ false
      → find j (remove key m) ≡ find j m
  unfolding find remove
  find-remove_ne key j [] h = refl
  find-remove_ne key j ((k, v) ∷ m) h =
      ground
        (arith, text_eq_iff k key, text_eq_iff key j, text_eq_iff k j, find-remove_ne key j m h)

  pub find-remove_self :
      (key : Text) (m : List (Text × V)) → Distinct m → find key (remove key m) ≡ none
  unfolding find remove
  find-remove_self key [] d = refl
  find-remove_self key ((k, v) ∷ m) d =
      ground (arith, text_eq_iff k key, find-remove_self key m d.1)

  pub Distinct-remove : (key : Text) (m : List (Text × V)) → Distinct m → Distinct (remove key m)
  unfolding remove
  Distinct-remove key [] d = d
  Distinct-remove key ((k, v) ∷ m) d = elim (Bool-cases (text_eq k key)) [
    | inl t ↦ rw t d.1
    | inr f ↦ rw f (
      find-remove_ne key k m (ground (arith, text_eq_iff k key, text_eq_iff key k)) ∙ d.0,
      Distinct-remove key m d.1,
    )
  ]

  pub Distinct-store :
      (key : Text) (value : V) (m : List (Text × V)) → Distinct m → Distinct (store key value m)
  unfolding store find
  Distinct-store key value [] d = (refl, tt)
  Distinct-store key value ((k, v) ∷ m) d = elim (Bool-cases (text_eq k key)) [
    | inl t ↦ rw t (ground (arith, text_eq_iff k key, d.0), d.1)
    | inr f ↦ rw f (
      find-store key k value m ∙ ground (arith, text_eq_iff k key, text_eq_iff key k, d.0),
      Distinct-store key value m d.1,
    )
  ]

  pub length-remove :
      (key : Text) (m : List (Text × V)) {v : V}
      → find key m ≡ some v
      → length (remove key m) + 1 ≡ length m
  unfolding find remove
  length-remove key [] h = cc
  length-remove key ((k, w) ∷ m) {v} h = ground (arith, length-remove key m {v = v})

  pub length-store_new :
      (key : Text) (value : V) (m : List (Text × V))
      → find key m ≡ none
      → length (store key value m) ≡ length m + 1
  unfolding find store
  length-store_new key value [] h = omega arith
  length-store_new key value ((k, w) ∷ m) h = ground (arith, length-store_new key value m)

  pub length-store_old :
      (key : Text) (value : V) (m : List (Text × V)) {v : V}
      → find key m ≡ some v
      → length (store key value m) ≡ length m
  unfolding find store
  length-store_old key value [] h = cc
  length-store_old key value ((k, w) ∷ m) {v} h =
      ground (arith, length-store_old key value m {v = v})

  pub keys-store_new :
      (key : Text) (value : V) (m : List (Text × V))
      → find key m ≡ none
      → keys (store key value m) ≡ keys m ++ (key ∷ [])
  unfolding find store
  keys-store_new key value [] h = refl
  keys-store_new key value ((k, w) ∷ m) h = ground (arith, keys-store_new key value m)
