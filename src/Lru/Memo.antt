-- ===== src/Lru/Memo.antt =====
-- What a function that remembers its results in a cache needs of it.
use tosdk.Prelude.{◌≡◌, ◌≢◌, ◌⊎◌, inl, inr, refl, arith, true, false, [], none, some, Bool-cases}
use tosdk.Strings.{Text, text_eq}
use tosdk.Strings.Laws.{text_eq_iff}
use tosdk.Lru.{LruMap, find, has, set}
use tosdk.Lru.Policy.{IsValid, find-set}

module _ {ℓ} {V : Type ℓ} where
  pub has-some :
      (key : Text) (c : LruMap V) {v : V} → find key c.entries ≡ some v → has key c ≡ true
  unfolding has
  has-some key c e = rw (has, e) refl

  pub has-none : (key : Text) (c : LruMap V) → find key c.entries ≡ none → has key c ≡ false
  unfolding has
  has-none key c e = rw (has, e) refl

  some_inj : {a b : V} → some a ≡ some b → a ≡ b
  some_inj e = cc

  -- What a write leaves comes from the write or was there before.
  pub find-set_cases :
      (key j : Text) (value v : V) (c : LruMap V)
      → IsValid c
      → key ≢ []
      → find j (set key value c).entries ≡ some v
      → ((key ≡ j) × (value ≡ v)) ⊎ (find j c.entries ≡ some v)
  find-set_cases key j value v c w k e = elim (Bool-cases (text_eq key j)) [
    | inl t ↦ inl ((text_eq_iff key j).0 t, ground (arith, t, e, find-set key j value c w k))
    | inr f ↦ inr (ground (arith, f, e, find-set key j value c w k))
  ]
