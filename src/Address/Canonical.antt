-- ===== src/Address/Canonical.antt =====
-- getAddress and isAddressEqual behind the caches.
use tosdk.Prelude.{
  ◌≡◌, ◌∙◌, sym, ap, refl, inl, inr, Bool, true, false, ◌&&◌, ℕ, arith, Option, some, Bool-cases,
  length, Option-cases, if◌then◌else◌,
}
use tosdk.Prelude.Results.{ok, err, invalid_address}
use tosdk.Strings.{Text, text_eq, to_lower_case}
use tosdk.Lru.{LruMap, find, has, get, set}
use tosdk.Lru.Policy.{IsValid, get_lem, set-IsValid}
use tosdk.Lru.Memo.{find-set_cases, has-some, has-none}
use tosdk.Address.{
  Caches, address_regex, checksum_address_key, checksum_address, known_address, is_address,
  get_address, is_address_equal,
}
use tosdk.Address.Keys.{checksum_address_key_inj, checksum_address_key-ne_nil}
use tosdk.Address.Cached.{IsCoherent, is_address_lem}

-- A cache that holds canonical forms of addresses, each under a key of its address.
pub record IsCanonical (cache : LruMap Text) : Type 0 where
  pub valid : IsValid cache
  pub right :
      (key v : Text)
      → find key cache.entries ≡ some v
      → (a : Text) × (c : Option ℕ) × (key ≡ checksum_address_key a c)
        × (length a ≡ 66)
        × (v ≡ to_lower_case a)

set-IsCanonical :
    (a : Text) (c : Option ℕ) (cache : LruMap Text)
    → IsCanonical cache
    → length a ≡ 66
    → IsCanonical (set (checksum_address_key a c) (to_lower_case a) cache)
set-IsCanonical a c cache w l = record {
  valid =
      set-IsValid (checksum_address_key a c) (to_lower_case a) cache w.valid
        (checksum_address_key-ne_nil a c);
  right = λ key v e.
      elim (find-set_cases (checksum_address_key a c) key (to_lower_case a) v cache w.valid
        (checksum_address_key-ne_nil a c) e) [
          | inl (k, u) ↦ (a, c, sym k, l, sym u)
          | inr old ↦ w.right key v old
        ];
}

checksum_address-hit :
    (a : Text) (c : Option ℕ) (cache : LruMap Text) (v : Text)
    → (get (checksum_address_key a c) cache).0 ≡ some v
    → has (checksum_address_key a c) cache ≡ true
    → checksum_address a c cache ≡ (v, (get (checksum_address_key a c) cache).1)
unfolding checksum_address known_address
checksum_address-hit a c cache v g h = rw (h, g) refl

checksum_address-miss :
    (a : Text) (c : Option ℕ) (cache : LruMap Text)
    → has (checksum_address_key a c) cache ≡ false
    → checksum_address a c cache
      ≡ (to_lower_case a, set (checksum_address_key a c) (to_lower_case a) cache)
unfolding checksum_address
checksum_address-miss a c cache h = rw h refl

checksum_address_lem :
    (a : Text) (c : Option ℕ) (cache : LruMap Text)
    → IsCanonical cache
    → length a ≡ 66
    → ((checksum_address a c cache).0 ≡ to_lower_case a)
      × IsCanonical (checksum_address a c cache).1
checksum_address_lem a c cache w l =
    let key = checksum_address_key a c in
    let g = get_lem key cache w.valid in
    elim (Option-cases (find key cache.entries)) [
      | inl e ↦
          rw (checksum_address-miss a c cache (has-none key cache e))
            (refl, set-IsCanonical a c cache w l)
      | inr (v, e) ↦
          let r = w.right key v e in
          rw (checksum_address-hit a c cache v (g.0 ∙ e) (has-some key cache e)) (
            r.4 ∙ ap to_lower_case (sym (checksum_address_key_inj a r.0 c r.1 (l ∙ sym r.3) r.2)),
            record { valid = g.2; right = λ j u f. w.right j u (sym (g.1 j) ∙ f) },
          )
    ]

length-address_regex : (a : Text) → address_regex a ≡ true → length a ≡ 66
unfolding address_regex
length-address_regex a h = ground (arith, h)

-- With right caches, getAddress gives the lower case of an address of 0x and 64 hexadecimal digits,
-- whatever the chain id, refuses any other text, and leaves right caches.
pub get_address_lem :
    (a : Text) (c : Option ℕ) (s : Caches)
    → IsCoherent s.is_address_cache
    → IsCanonical s.checksum_address_cache
    → ((get_address a c s).0
        ≡ (if address_regex a then ok (to_lower_case a) else err invalid_address))
      × IsCoherent (get_address a c s).1.is_address_cache
      × IsCanonical (get_address a c s).1.checksum_address_cache
unfolding get_address
get_address_lem a c s w k =
    let t = is_address_lem a (some false) s.is_address_cache w in
    elim (Bool-cases (address_regex a)) [
      | inl h ↦
          let p : (is_address a (some false) s.is_address_cache).0 ≡ true =
            ground (arith, t.0, h) in
          let d = checksum_address_lem a c s.checksum_address_cache k (length-address_regex a h) in
          rw (p, h) (ap ok d.0, t.1, d.1)
      | inr h ↦
          let p : (is_address a (some false) s.is_address_cache).0 ≡ false =
            ground (arith, t.0, h) in
          rw (p, h) (refl, t.1, k)
    ]

-- With a cache of right answers, isAddressEqual compares two addresses without regard to case, and
-- refuses a text that is none.
pub is_address_equal_lem :
    (a b : Text) (cache : LruMap Bool)
    → IsCoherent cache
    → ((is_address_equal a b cache).0 ≡ (
        if address_regex a && address_regex b
        then ok (text_eq (to_lower_case a) (to_lower_case b))
        else err invalid_address))
      × IsCoherent (is_address_equal a b cache).1
unfolding is_address_equal
is_address_equal_lem a b cache w =
    let t = is_address_lem a (some false) cache w in
    let first = is_address a (some false) cache in
    let u = is_address_lem b (some false) first.1 t.1 in
    elim (Bool-cases (address_regex a)) [
      | inl h ↦
          let p : first.0 ≡ true = ground (arith, t.0, h) in
          elim (Bool-cases (address_regex b)) [
            | inl k ↦
                let q : (is_address b (some false) first.1).0 ≡ true = ground (arith, u.0, k) in
                rw (p, q, h, k) (refl, u.1)
            | inr k ↦
                let q : (is_address b (some false) first.1).0 ≡ false = ground (arith, u.0, k) in
                rw (p, q, h, k) (refl, u.1)
          ]
      | inr h ↦ let p : first.0 ≡ false = ground (arith, t.0, h) in rw (p, h) (refl, t.1)
    ]
