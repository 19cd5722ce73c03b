-- ===== src/Transaction/Checks.antt =====
-- Which transactions the checks let through, whatever the cache of isAddress holds.
use tosdk.Prelude.{
  ◌≡◌, refl, sym, ◌∙◌, inl, inr, ◌↔◌, ◌⊎◌, Bool, true, false, ◌&&◌, not, [], ◌∷◌, Option, none,
  some,
}
use tosdk.Prelude.Results.{
  Error, Result, ok, err, throw_if, invalid_address, invalid_chain_id, base_error,
}
use tosdk.Strings.{is_blank, Text, text_eq, to_lower_case}
use tosdk.Lru.{LruMap}
use tosdk.Address.{address_regex}
use tosdk.Address.Cached.{IsCoherent, is_address_lem}
use tosdk.Transaction.{
  TransactionSerializableNative, Checked, and_then, refuse, require_address, require_recipient,
  refuse_some, is_not_positive, is_below_zero, is_absent_or_blank, is_undefined, is_hash,
  assert_transaction_base, assert_sponsor_fields_absent, assert_sponsor_fields, assert_sponsor,
  assert_transaction_native,
}

-- A check that passes exactly where `b` holds, and leaves a coherent cache coherent.
abbrev Answers : Checked (Unit {0}) → Bool → Type 0
Answers m b =
    (cache : LruMap Bool)
    → IsCoherent cache
    → IsCoherent (m cache).1 × (((m cache).0 ≡ ok tt) ↔ (b ≡ true))

pub Result-cases : (r : Result (Unit {0})) → (r ≡ ok tt) ⊎ ((e : Error) × (r ≡ err e))
Result-cases (ok tt) = inl refl
Result-cases (err e) = inr (e, refl)

throw_if_iff : (b : Bool) (e : Error) → (throw_if (not b) e ≡ ok tt) ↔ (b ≡ true)
throw_if_iff true e = (λ h. refl, λ h. refl)
throw_if_iff false e = (λ h. cc, λ h. cc)

refused_iff :
    {r : Result (Unit {0})} {e : Error} (a b : Bool)
    → r ≡ err e
    → ((r ≡ ok tt) ↔ (a ≡ true))
    → (Path (Result (Unit {0})) (err e) (ok tt)) ↔ ((a && b) ≡ true)
refused_iff true b h p = (λ g. cc, λ g. sym h ∙ p.1 refl)
refused_iff false b h p = (λ g. cc, λ g. cc)

Answers-and_then :
    {m k : Checked (Unit {0})} {a b : Bool}
    → Answers m a
    → Answers k b
    → Answers (and_then m k) (a && b)
unfolding and_then
Answers-and_then {m} {k} {a} {b} p q cache w =
    let r = p cache w in
    elim (Result-cases (m cache).0) [
      | inl h ↦ rw (and_then, h, r.1.0 h) (q (m cache).1 r.0)
      | inr (e, h) ↦ rw (and_then, h) (r.0, refused_iff a b h r.1)
    ]

Answers-refuse_unless : (b : Bool) (e : Error) → Answers (refuse (not b) e) b
unfolding refuse
Answers-refuse_unless b e cache w = (w, throw_if_iff b e)

Answers-refuse : (test : Bool) (e : Error) → Answers (refuse test e) (not test)
unfolding refuse
Answers-refuse true e cache w = (w, throw_if_iff false e)
Answers-refuse false e cache w = (w, throw_if_iff true e)

-- 0x and 64 hexadecimal digits in lower case.
unfoldable pub is_strict_address : Text → Bool
is_strict_address a = address_regex a && text_eq (to_lower_case a) a

Answers-require_address : (a : Text) → Answers (require_address a) (is_strict_address a)
unfolding require_address is_strict_address
Answers-require_address a cache w =
    let t = is_address_lem a none cache w in
    (t.1, rw t.0 (throw_if_iff (is_strict_address a) invalid_address))

unfoldable pub is_recipient : Option Text → Bool
is_recipient none = true
is_recipient (some []) = true
is_recipient (some (c ∷ s)) = is_strict_address (c ∷ s)

Answers-require_recipient : (to : Option Text) → Answers (require_recipient to) (is_recipient to)
unfolding require_recipient is_recipient
Answers-require_recipient none cache w = (w, (λ h. refl, λ h. refl))
Answers-require_recipient (some []) cache w = (w, (λ h. refl, λ h. refl))
Answers-require_recipient (some (c ∷ s)) cache w = Answers-require_address (c ∷ s) cache w

-- Whether a test holds of a field that is there.
unfoldable pub all_some {ℓ} : {A : Type ℓ} → (A → Bool) → Option A → Bool
all_some test none = true
all_some test (some a) = test a

Answers-refuse_some {ℓ} :
    {A : Type ℓ} (test good : A → Bool) (o : Option A)
    → ((a : A) → test a ≡ not (good a))
    → Answers (refuse_some test o) (all_some good o)
unfolding refuse_some all_some
Answers-refuse_some test good none h cache w = (w, (λ h. refl, λ h. refl))
Answers-refuse_some test good (some a) h cache w =
    rw (h a) (Answers-refuse_unless (good a) base_error cache w)

-- The chain id and the signer type are there, and the addresses are strict ones.
unfoldable pub is_base : TransactionSerializableNative → Bool
is_base t =
    not (is_not_positive t.chain_id)
    && (not (is_blank t.signer_type) && (is_strict_address t.from && is_recipient t.to))

unfoldable pub has_no_sponsor_fields : TransactionSerializableNative → Bool
has_no_sponsor_fields t =
    is_undefined t.sponsor_signer_type
    && (is_undefined t.sponsor_nonce
        && (is_undefined t.sponsor_expiry && is_undefined t.sponsor_policy_hash))

unfoldable pub has_sponsor_fields : Text → TransactionSerializableNative → Bool
has_sponsor_fields sponsor t =
    is_strict_address sponsor
    && (not (is_absent_or_blank t.sponsor_signer_type)
        && (not (is_undefined t.sponsor_nonce)
            && (not (is_undefined t.sponsor_expiry)
                && (not (is_undefined t.sponsor_policy_hash)
                    && (all_some (λ v. not (is_below_zero v)) t.sponsor_nonce
                        && (all_some (λ v. not (is_not_positive v)) t.sponsor_expiry
                            && all_some is_hash t.sponsor_policy_hash))))))

unfoldable pub is_sponsored : Option Text → TransactionSerializableNative → Bool
is_sponsored none t = has_no_sponsor_fields t
is_sponsored (some sponsor) t = has_sponsor_fields sponsor t

-- What the checks ask of a native transaction: without a sponsor no sponsor field, and with one
-- all of them.
unfoldable pub is_well_formed : TransactionSerializableNative → Bool
is_well_formed t = is_base t && is_sponsored t.sponsor t

not-not : (b : Bool) → b ≡ not (not b)
not-not true = refl
not-not false = refl

Answers-base : (t : TransactionSerializableNative) → Answers (assert_transaction_base t) (is_base t)
unfolding assert_transaction_base is_base
Answers-base t = Answers-and_then (Answers-refuse (is_not_positive t.chain_id) invalid_chain_id) (
    Answers-and_then (Answers-refuse (is_blank t.signer_type) base_error)
      (Answers-and_then (Answers-require_address t.from) (Answers-require_recipient t.to)))

Answers-absent :
    (t : TransactionSerializableNative)
    → Answers (assert_sponsor_fields_absent t) (has_no_sponsor_fields t)
unfolding assert_sponsor_fields_absent has_no_sponsor_fields
Answers-absent t =
    Answers-and_then (Answers-refuse_unless (is_undefined t.sponsor_signer_type) base_error) (
      Answers-and_then (Answers-refuse_unless (is_undefined t.sponsor_nonce) base_error) (
        Answers-and_then (Answers-refuse_unless (is_undefined t.sponsor_expiry) base_error)
          (Answers-refuse_unless (is_undefined t.sponsor_policy_hash) base_error)))

Answers-sponsor :
    (s : Text) (t : TransactionSerializableNative)
    → Answers (assert_sponsor_fields s t) (has_sponsor_fields s t)
unfolding assert_sponsor_fields has_sponsor_fields
Answers-sponsor s t = Answers-and_then (Answers-require_address s) (
    Answers-and_then (Answers-refuse (is_absent_or_blank t.sponsor_signer_type) base_error) (
      Answers-and_then (Answers-refuse (is_undefined t.sponsor_nonce) base_error) (
        Answers-and_then (Answers-refuse (is_undefined t.sponsor_expiry) base_error) (
          Answers-and_then (Answers-refuse (is_undefined t.sponsor_policy_hash) base_error) (
            Answers-and_then
              (Answers-refuse_some is_below_zero (λ v. not (is_below_zero v)) t.sponsor_nonce
                (λ v. not-not (is_below_zero v)))
              (Answers-and_then
                (Answers-refuse_some is_not_positive (λ v. not (is_not_positive v)) t.sponsor_expiry
                  (λ v. not-not (is_not_positive v)))
                (Answers-refuse_some (λ h. not (is_hash h)) is_hash t.sponsor_policy_hash
                  (λ h. refl))))))))

Answers-rest :
    (o : Option Text) (t : TransactionSerializableNative)
    → Answers (assert_sponsor o t) (is_sponsored o t)
unfolding assert_sponsor is_sponsored
Answers-rest none t = Answers-absent t
Answers-rest (some s) t = Answers-sponsor s t

-- With a cache of right answers, the checks of a native transaction pass exactly the well-formed
-- ones, and keep the cache right, also where they throw.
pub assert_transaction_native_lem :
    (t : TransactionSerializableNative) (cache : LruMap Bool)
    → IsCoherent cache
    → IsCoherent (assert_transaction_native t cache).1
      × (((assert_transaction_native t cache).0 ≡ ok tt) ↔ (is_well_formed t ≡ true))
unfolding assert_transaction_native is_well_formed
assert_transaction_native_lem t cache w =
    Answers-and_then (Answers-base t) (Answers-rest t.sponsor t) cache w
