-- ===== src/Lru/Policy.antt =====
-- What a cache promises: a bound on its size, lookups that a read leaves alone, and the entry that
-- a write gives up.
use tosdk.Prelude.{
  ◌+◌, ◌≤◌, ◌<◌, ◌≡◌, ◌≢◌, inl, inr, refl, sym, ap, ◌∙◌, arith, Bool, true, false, List, [], ◌∷◌,
  ◌++◌, none, some, if◌then◌else◌, length, not, ◌&&◌, ◌==◌, Bool-cases, Option-cases,
}
use tosdk.Strings.{Text, text_eq}
use tosdk.Strings.Laws.{text_eq_iff, text_eq_refl}
use tosdk.Lru.{LruMap, find, remove, store, has, get, set, delete_first, is_over}
use tosdk.Lru.Entries.{
  keys, Distinct, find-store, find-remove_ne, find-remove_self, Distinct-remove, Distinct-store,
  length-remove, length-store_new, length-store_old, keys-store_new,
}

pub record IsValid {ℓ} {V : Type ℓ} (c : LruMap V) : Type ℓ where
  pub bound : 0 < c.max_size
  pub bounded : length c.entries ≤ c.max_size
  pub distinct : Distinct c.entries
  pub nonempty_keys : find [] c.entries ≡ none

module _ {ℓ} {V : Type ℓ} where
  -- Whether a key is the oldest one.
  abbrev pub is_oldest : Text → List (Text × V) → Bool
  is_oldest j [] = false
  is_oldest j ((k, v) ∷ m) = text_eq k j

  find-hit :
      (key j : Text) (c : LruMap V) (v : V)
      → find key c.entries ≡ some v
      → find j (store key v (remove key c.entries)) ≡ find j c.entries
  find-hit key j c v e = elim (Bool-cases (text_eq key j)) [
    | inl t ↦
        rw (find-store key j v (remove key c.entries), t)
          (sym e ∙ ap (λ k. find k c.entries) ((text_eq_iff key j).0 t))
    | inr f ↦ rw (find-store key j v (remove key c.entries), f) (find-remove_ne key j c.entries f)
  ]

  -- What a hit leaves.
  hit-IsValid :
      (key : Text) (c : LruMap V) (v : V)
      → IsValid c
      → find key c.entries ≡ some v
      → IsValid (record c { entries = store key v (remove key c.entries) })
  hit-IsValid key c v w e = record {
    bound = w.bound;
    bounded = ground (
      arith,
      w.bounded,
      length-store_new key v (remove key c.entries) (find-remove_self key c.entries w.distinct),
      length-remove key c.entries e,
    );
    distinct =
        Distinct-store key v (remove key c.entries) (Distinct-remove key c.entries w.distinct);
    nonempty_keys = find-hit key [] c v e ∙ w.nonempty_keys;
  }

  -- A read returns what is stored, changes no lookup, keeps the cache valid, and leaves a key
  -- that it found as the newest one.
  pub get_lem :
      (key : Text) (c : LruMap V)
      → IsValid c
      → ((get key c).0 ≡ find key c.entries)
        × ((j : Text) → find j (get key c).1.entries ≡ find j c.entries)
        × IsValid (get key c).1
        × (has key c ≡ true
            → keys (get key c).1.entries ≡ keys (remove key c.entries) ++ (key ∷ []))
  unfolding get has
  get_lem key c w = elim (Option-cases (find key c.entries)) [
    | inl e ↦ rw (e, get) (refl, λ j. refl, w, λ h. ground (arith, e))
    | inr (v, e) ↦
        rw (e, get)
          (
            refl,
            λ j. find-hit key j c v e,
            hit-IsValid key c v w e,
            λ h.
                keys-store_new key v (remove key c.entries)
                  (find-remove_self key c.entries w.distinct),
          )
  ]

  -- Without an empty key, deleting the first key drops the first entry.
  delete_first_lem :
      (m : List (Text × V))
      → Distinct m
      → find [] m ≡ none
      → Distinct (delete_first m)
        × (find [] (delete_first m) ≡ none)
        × (0 < length m → length (delete_first m) + 1 ≡ length m)
        × ((j : Text) → find j (delete_first m) ≡ (if is_oldest j m then none else find j m))
  unfolding delete_first remove find
  delete_first_lem [] d n = (tt, refl, λ h. ground (arith, h), λ j. refl)
  delete_first_lem (([], v) ∷ m) d n = ground (arith, n, text_eq_refl [])
  delete_first_lem ((x ∷ k, v) ∷ m) d n =
      rw (text_eq_refl (x ∷ k))
        (d.1, ground (arith, n), λ h. omega arith, λ j. ground (arith, text_eq_iff (x ∷ k) j, d.0))

  is_oldest-store :
      (key j : Text) (value : V) (m : List (Text × V))
      → 0 < length m
      → is_oldest j (store key value m) ≡ is_oldest j m
  unfolding store
  is_oldest-store key j value [] h = ground (arith, h)
  is_oldest-store key j value ((k, v) ∷ m) h = ground arith

  is_oldest-new : (key : Text) (m : List (Text × V)) → find key m ≡ none → is_oldest key m ≡ false
  unfolding find
  is_oldest-new key [] e = refl
  is_oldest-new key ((k, v) ∷ m) e = ground arith

  set-known :
      (key : Text) (value : V) (c : LruMap V) (v : V)
      → IsValid c
      → find key c.entries ≡ some v
      → set key value c ≡ (record c { entries = store key value c.entries })
  unfolding set is_over
  set-known key value c v w e = ground (arith, w.bounded, length-store_old key value c.entries e)

  set-spare :
      (key : Text) (value : V) (c : LruMap V)
      → find key c.entries ≡ none
      → length c.entries < c.max_size
      → set key value c ≡ (record c { entries = store key value c.entries })
  unfolding set is_over
  set-spare key value c e l = ground (arith, length-store_new key value c.entries e)

  set-full :
      (key : Text) (value : V) (c : LruMap V)
      → IsValid c
      → find key c.entries ≡ none
      → length c.entries ≡ c.max_size
      → set key value c ≡ (record c { entries = delete_first (store key value c.entries) })
  unfolding set is_over
  set-full key value c w e l = ground (arith, w.bound, length-store_new key value c.entries e)

  find_empty-store :
      (key : Text) (value : V) (m : List (Text × V))
      → key ≢ []
      → find [] m ≡ none
      → find [] (store key value m) ≡ none
  find_empty-store key value m k n =
      rw (find-store key [] value m) (ground (arith, n, k, text_eq_iff key []))

  -- A write to a key that is not empty keeps the cache valid: within its bound, with no key twice.
  pub set-IsValid :
      (key : Text) (value : V) (c : LruMap V) → IsValid c → key ≢ [] → IsValid (set key value c)
  set-IsValid key value c w k =
      let n = find_empty-store key value c.entries k w.nonempty_keys in
      let d = Distinct-store key value c.entries w.distinct in
      elim (Option-cases (find key c.entries)) [
        | inl e ↦ elim (Bool-cases (length c.entries == c.max_size)) [
          | inl full ↦
              let l = delete_first_lem (store key value c.entries) d n in
              rw (set-full key value c w e (ground (arith, full))) (record {
                bound = w.bound;
                bounded = ground (arith, w.bounded, l.2, length-store_new key value c.entries e);
                distinct = l.0;
                nonempty_keys = l.1;
              })
          | inr spare ↦ rw (set-spare key value c e (ground (arith, spare, w.bounded))) (record {
            bound = w.bound;
            bounded = ground (arith, spare, w.bounded, length-store_new key value c.entries e);
            distinct = d;
            nonempty_keys = n;
          })
        ]
        | inr (v, e) ↦ rw (set-known key value c v w e) (record {
          bound = w.bound;
          bounded = ground (arith, w.bounded, length-store_old key value c.entries e);
          distinct = d;
          nonempty_keys = n;
        })
      ]

  -- A write is read back, and touches no other key, but for the oldest one of a full cache that did not hold the key written.
  pub find-set :
      (key j : Text) (value : V) (c : LruMap V)
      → IsValid c
      → key ≢ []
      → find j (set key value c).entries ≡ (
          if text_eq key j
          then some value
          else if not (has key c) && ((length c.entries == c.max_size) && is_oldest j c.entries)
          then none
          else find j c.entries)
  unfolding has
  find-set key j value c w k = elim (Option-cases (find key c.entries)) [
    | inl e ↦ elim (Bool-cases (length c.entries == c.max_size)) [
      | inl full ↦
          let l =
            delete_first_lem (store key value c.entries)
              (Distinct-store key value c.entries w.distinct)
              (find_empty-store key value c.entries k w.nonempty_keys) in
          rw (set-full key value c w e (ground (arith, full))) (
            ground (
              arith,
              full,
              e,
              w.bound,
              l.3 j,
              is_oldest-store key j value c.entries,
              is_oldest-new key c.entries e,
              find-store key j value c.entries,
              text_eq_iff key j,
            ))
      | inr spare ↦
          rw (set-spare key value c e (ground (arith, spare, w.bounded)))
            (ground (arith, spare, find-store key j value c.entries))
    ]
    | inr (v, e) ↦
        rw (set-known key value c v w e) (ground (arith, e, find-store key j value c.entries))
  ]
