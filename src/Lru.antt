-- ===== src/Lru.antt =====
-- src/utils/lru.ts: a Map of strings with a bound on its size. A Map keeps its entries in the
-- order of insertion, the oldest first, and a write to a key that it holds keeps the key's place.
-- No value is undefined.
use tosdk.Prelude.{
  ℕ, ◌+◌, Bool, true, false, ◌&&◌, not, List, [], ◌∷◌, ◌++◌, Option, none, some, ltb, ◌==◌,
  if◌then◌else◌, length,
}
use tosdk.Strings.{Text, text_eq}
pub mod Entries
pub mod Policy
pub mod Memo
mod Tests

pub record LruMap {ℓ} (V : Type ℓ) : Type ℓ where
  pub entries : List (Text × V)
  pub max_size : ℕ

module _ {ℓ} {V : Type ℓ} where
  -- super.get
  unfoldable pub find : Text → List (Text × V) → Option V
  find key [] = none
  find key ((k, v) ∷ m) = if text_eq k key then some v else find key m

  -- this.delete
  unfoldable pub remove : Text → List (Text × V) → List (Text × V)
  remove key [] = []
  remove key ((k, v) ∷ m) = if text_eq k key then m else (k, v) ∷ remove key m

  -- super.set
  unfoldable pub store : Text → V → List (Text × V) → List (Text × V)
  store key value [] = (key, value) ∷ []
  store key value ((k, v) ∷ m) =
      if text_eq k key then (k, value) ∷ m else (k, v) ∷ store key value m

  unfoldable pub has : Text → LruMap V → Bool
  unfolding find
  has key c = elim (find key c.entries) [ none ↦ false | some v ↦ true ]

  -- A hit moves the key behind all others.
  unfoldable pub get : Text → LruMap V → Option V × LruMap V
  unfolding find remove store
  get key c = elim (find key c.entries) [
    | none ↦ (none, c)
    | some v ↦ (some v, record c { entries = store key v (remove key c.entries) })
  ]

  -- `if (firstKey) this.delete(firstKey)`: the empty string is no true value.
  unfoldable pub delete_first : List (Text × V) → List (Text × V)
  unfolding remove
  delete_first [] = []
  delete_first (([], v) ∷ m) = ([], v) ∷ m
  delete_first ((c ∷ k, v) ∷ m) = remove (c ∷ k) ((c ∷ k, v) ∷ m)

  -- this.maxSize && this.size > this.maxSize
  unfoldable pub is_over : ℕ → List (Text × V) → Bool
  is_over max m = not (max == 0) && ltb max (length m)

  unfoldable pub set : Text → V → LruMap V → LruMap V
  unfolding store delete_first is_over
  set key value c =
      let m = store key value c.entries in
      record c { entries = if is_over c.max_size m then delete_first m else m }
