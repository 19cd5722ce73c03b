-- ===== src/Address/Cached.antt =====
-- isAddress behind its cache: a cache with right answers gives right answers and keeps them.
use tosdk.Prelude.{
  ◌≡◌, ◌∙◌, sym, ap, refl, inl, inr, Bool, true, false, ◌&&◌, not, ◌||◌, arith, Option, some,
  Option-cases,
}
use tosdk.Strings.{Text, text_eq, to_lower_case}
use tosdk.Strings.Laws.{text_eq_iff}
use tosdk.Lru.{LruMap, find, has, get, set}
use tosdk.Lru.Policy.{IsValid, get_lem, set-IsValid}
use tosdk.Lru.Memo.{find-set_cases, has-some, has-none}
use tosdk.Address.{address_regex, is_address_key, is_address_result, strict_of, known, is_address}
use tosdk.Address.Keys.{is_address_key_inj, is_address_key-ne_nil}

-- A cache whose entries answer what they are asked.
pub record IsCoherent (cache : LruMap Bool) : Type 0 where
  pub valid : IsValid cache
  pub right :
      (a : Text) (s v : Bool)
      → find (is_address_key a s) cache.entries ≡ some v
      → v ≡ is_address_result a s

set-IsCoherent :
    (a : Text) (s : Bool) (cache : LruMap Bool)
    → IsCoherent cache
    → IsCoherent (set (is_address_key a s) (is_address_result a s) cache)
set-IsCoherent a s cache w = record {
  valid =
      set-IsValid (is_address_key a s) (is_address_result a s) cache w.valid
        (is_address_key-ne_nil a s);
  right = λ b t v e.
      elim (find-set_cases (is_address_key a s) (is_address_key b t) (is_address_result a s) v cache
        w.valid (is_address_key-ne_nil a s) e) [
          | inl (k, u) ↦
              let i = is_address_key_inj a b s t k in
              sym u ∙ ap (λ x. is_address_result x s) i.0 ∙ ap (is_address_result b) i.1
          | inr old ↦ w.right b t v old
        ];
}

-- The test itself: 0x and 64 hexadecimal digits, which a strict test wants in lower case.
pub is_address_result_lem :
    (a : Text) (s : Bool)
    → is_address_result a s ≡ address_regex a && (not s || text_eq (to_lower_case a) a)
unfolding is_address_result
is_address_result_lem a s =
    ground (arith, text_eq_iff a (to_lower_case a), text_eq_iff (to_lower_case a) a)

is_address-hit :
    (a : Text) (strict : Option Bool) (cache : LruMap Bool) (v : Bool)
    → (get (is_address_key a (strict_of strict)) cache).0 ≡ some v
    → has (is_address_key a (strict_of strict)) cache ≡ true
    → is_address a strict cache ≡ (v, (get (is_address_key a (strict_of strict)) cache).1)
unfolding is_address known
is_address-hit a strict cache v g h = rw (h, g) refl

is_address-miss :
    (a : Text) (strict : Option Bool) (cache : LruMap Bool)
    → has (is_address_key a (strict_of strict)) cache ≡ false
    → is_address a strict cache ≡ (
      is_address_result a (strict_of strict),
      set (is_address_key a (strict_of strict)) (is_address_result a (strict_of strict)) cache,
    )
unfolding is_address
is_address-miss a strict cache h = rw h refl

-- With a cache of right answers, isAddress answers whether the text is 0x and 64 hexadecimal digits,
-- in lower case unless the test is told not to be strict, and leaves a cache of right answers.
pub is_address_lem :
    (a : Text) (strict : Option Bool) (cache : LruMap Bool)
    → IsCoherent cache
    → ((is_address a strict cache).0
        ≡ address_regex a && (not (strict_of strict) || text_eq (to_lower_case a) a))
      × IsCoherent (is_address a strict cache).1
is_address_lem a strict cache w =
    let key = is_address_key a (strict_of strict) in
    let g = get_lem key cache w.valid in
    elim (Option-cases (find key cache.entries)) [
      | inl e ↦
          rw (is_address-miss a strict cache (has-none key cache e)) (
            is_address_result_lem a (strict_of strict),
            set-IsCoherent a (strict_of strict) cache w,
          )
      | inr (v, e) ↦ rw (is_address-hit a strict cache v (g.0 ∙ e) (has-some key cache e)) (
        w.right a (strict_of strict) v e ∙ is_address_result_lem a (strict_of strict),
        record {
          valid = g.2;
          right = λ b t u f. w.right b t u (sym (g.1 (is_address_key b t)) ∙ f);
        },
      )
    ]
