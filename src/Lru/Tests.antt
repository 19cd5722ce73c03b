-- ===== src/Lru/Tests.antt =====
-- Runs of the bounded map.
use tosdk.Prelude.{
  ℕ, ◌≡◌, refl, arith, true, not, ◌&&◌, [], ◌∷◌, ◌++◌, some, none, length, ◌==◌, if◌then◌else◌,
}
use tosdk.Strings.{Text, codes, text_eq}
use tosdk.Lru.{LruMap, find, remove, store, delete_first, is_over, has, get, set}
use tosdk.Lru.Entries.{keys}
use tosdk.Lru.Policy.{IsValid, is_oldest, get_lem, find-set, set-IsValid}

abbrev full : LruMap ℕ
full = record { entries = (codes "a", 1) ∷ (codes "b", 2) ∷ []; max_size = 2 }

full-IsValid : IsValid full
unfolding find text_eq
full-IsValid = record {
  bound = omega arith;
  bounded = omega arith;
  distinct = (refl, (refl, tt));
  nonempty_keys = refl;
}

get_lem_example :
    ((get (codes "a") full).0 ≡ find (codes "a") full.entries)
    × ((j : Text) → find j (get (codes "a") full).1.entries ≡ find j full.entries)
    × IsValid (get (codes "a") full).1
    × (has (codes "a") full ≡ true
        → keys (get (codes "a") full).1.entries
          ≡ keys (remove (codes "a") full.entries) ++ (codes "a" ∷ []))
get_lem_example = get_lem (codes "a") full full-IsValid

set-IsValid_example : IsValid (set (codes "c") 3 full)
set-IsValid_example = set-IsValid (codes "c") 3 full full-IsValid (λ e. ground (arith, e))

find-set_example : find (codes "a") (set (codes "c") 3 full).entries ≡ (
    if text_eq (codes "c") (codes "a")
    then some 3
    else if not (has (codes "c") full)
        && ((length full.entries == full.max_size) && is_oldest (codes "a") full.entries)
    then none
    else find (codes "a") full.entries)
find-set_example = find-set (codes "c") (codes "a") 3 full full-IsValid (λ e. ground (arith, e))

-- A write to a full cache gives up its oldest entry, and a write to a key that it holds keeps the
-- key's place.
runs :
    ((set (codes "c") 3 full).entries ≡ (codes "b", 2) ∷ (codes "c", 3) ∷ [])
    × ((set (codes "a") 3 full).entries ≡ (codes "a", 3) ∷ (codes "b", 2) ∷ [])
unfolding set store delete_first is_over remove text_eq
runs = (refl, refl)
