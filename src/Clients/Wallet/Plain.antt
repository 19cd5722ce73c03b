-- ===== src/Clients/Wallet/Plain.antt =====
-- buildTransaction on parameters that leave nothing to ask the node (createWalletClient.ts).
use tosdk.Prelude.{
  ℤ, Option-cases, ◌≡◌, refl, ap, Bool, true, ◌&&◌, Bool-cases, inl, inr, Option, none, some,
  if◌then◌else◌, pos,
}
use tosdk.Prelude.Results.{ok, err, invalid_address}
use tosdk.Strings.{Text, prefix_0x, to_lower_case}
use tosdk.Address.{Caches, get_address, address_regex}
use tosdk.Address.Canonical.{get_address_lem}
use tosdk.Encoding.Hex.{Numeric, bigint, to_big_int}
use tosdk.Transaction.{TransactionSerializableNative}
use tosdk.Clients.Rpc.{Request, canonical, default}
use tosdk.Clients.Contracts.{IsSound}
use tosdk.Clients.Wallet.{
  LocalAccount, SignTransactionParameters, given_canonical, sponsor_fields, sponsor_to_ask,
  sponsor_nonce_of, all_of, filled, chain_id_of, nonce_of, resolve_numbers, resolve_account,
  build_transaction,
}

-- The transaction of parameters that give the chain id and the nonce and no sponsor.
abbrev pub plain_transaction :
    {W : Type 0}
    → SignTransactionParameters W
    → LocalAccount W
    → Numeric
    → Numeric
    → Text
    → Option Text
    → TransactionSerializableNative
plain_transaction p account chain_id nonce from to = record {
  type = none;
  chain_id = bigint (to_big_int chain_id);
  nonce = bigint (to_big_int nonce);
  gas = bigint (to_big_int (default p.gas (bigint (pos 21000))));
  to = to;
  value = bigint (to_big_int (default p.value (bigint (pos 0))));
  data_ = some (default p.data_ prefix_0x);
  from = from;
  signer_type = default p.signer_type account.signer_type;
  sponsor = none;
  sponsor_signer_type = none;
  sponsor_nonce = none;
  sponsor_expiry = none;
  sponsor_policy_hash = none;
  terminal_class = none;
  trust_tier = none;
}

-- An address that is left out, or is one.
abbrev pub is_recipient : Option Text → Bool
is_recipient none = true
is_recipient (some address) = address_regex address

abbrev pub lowered : Option Text → Option Text
lowered none = none
lowered (some address) = some (to_lower_case address)

module _ {W : Type 0} where
  -- getAddress answers, leaves the world alone and the caches right.
  canonical_lem :
      (address : Text) (s : W × Caches)
      → IsSound s.1
      → (caches : Caches) × (canonical address s ≡ (
        if address_regex address then ok (to_lower_case address) else err invalid_address,
        (s.0, caches),
      ))
        × IsSound caches
  unfolding canonical
  canonical_lem address s sound =
      let g = get_address_lem address none s.1 sound.coherent sound.lowered in
      let caches = (get_address address none s.1).1 in
      (caches, ap (λ r. (r, (s.0, caches))) g.0, record { coherent = g.1; lowered = g.2 })

  given_canonical_lem :
      (address : Option Text) (s : W × Caches)
      → IsSound s.1
      → (caches : Caches) × (given_canonical address s ≡ (
        if is_recipient address then ok (lowered address) else err invalid_address,
        (s.0, caches),
      ))
        × IsSound caches
  unfolding given_canonical
  given_canonical_lem none s sound = (s.1, refl, sound)
  given_canonical_lem (some a) s sound =
      let c = canonical_lem a s sound in
      elim (Bool-cases (address_regex a)) [
        | inl y ↦ (c.0, rw (c.1, y) refl, c.2)
        | inr n ↦ (c.0, rw (c.1, n) refl, c.2)
      ]

module _ {W : Type 0} (request : Request W) where
  resolve_numbers-plain :
      (p : SignTransactionParameters W) (from : Text) (c n : Numeric) (s : W × Caches)
      → p.chain_id ≡ some c
      → p.nonce ≡ some n
      → p.sponsor ≡ none
      → (asked : Option ℤ) × (resolve_numbers request p from s ≡ (
        ok (record { chain_id = to_big_int c; nonce = to_big_int n; sponsor_nonce = asked }),
        s,
      ))
  unfolding resolve_numbers chain_id_of nonce_of sponsor_to_ask sponsor_nonce_of all_of
      given_canonical
  resolve_numbers-plain p from c n s hc hn hs = elim (Option-cases p.sponsor_nonce) [
    | inl e ↦ (none, rw (hc, hn, hs, e) refl)
    | inr (v, e) ↦ (some (to_big_int v), rw (hc, hn, hs, e) refl)
  ]

  filled-plain :
      (p : SignTransactionParameters W) (account : LocalAccount W) (from : Text) (c n : Numeric)
      (asked : Option ℤ) (s : W × Caches)
      → IsSound s.1
      → p.sponsor ≡ none
      → (caches : Caches) × (filled p account from
            (record { chain_id = to_big_int c; nonce = to_big_int n; sponsor_nonce = asked })
            s
          ≡ (
            if is_recipient p.to
                then ok (plain_transaction p account c n from (lowered p.to))
                else err invalid_address,
            (s.0, caches),
          ))
        × IsSound caches
  unfolding filled sponsor_fields
  filled-plain p account from c n asked s sound hs =
      let to = given_canonical_lem p.to s sound in
      elim (Bool-cases (is_recipient p.to)) [
        | inl y ↦ (to.0, rw (hs, to.1, y) refl, to.2)
        | inr i ↦ (to.0, rw (hs, to.1, i) refl, to.2)
      ]

-- With caches of right answers and parameters that give the chain id and the nonce and no sponsor:
-- buildTransaction asks the node nothing, leaves right caches, and returns the transaction of the
-- parameters if the sender, which is the account where it is left out, and the recipient, where there
-- is one, are addresses; else it throws an InvalidAddressError.
pub build_transaction_lem :
    {W : Type 0} (request : Request W) (config_account : LocalAccount W)
    (p : SignTransactionParameters W) (c n : Numeric) (s : W × Caches)
    → IsSound s.1
    → p.chain_id ≡ some c
    → p.nonce ≡ some n
    → p.sponsor ≡ none
    → (caches : Caches) × (build_transaction request config_account p s ≡ (
      if address_regex (default p.from (resolve_account config_account p.account).address)
            && is_recipient p.to
          then ok (
              plain_transaction p
                (resolve_account config_account p.account)
                c
                n
                (to_lower_case (default p.from (resolve_account config_account p.account).address))
                (lowered p.to))
          else err invalid_address,
      (s.0, caches),
    ))
      × IsSound caches
unfolding build_transaction
build_transaction_lem {W} request config_account p c n s sound hc hn hs =
    let account = resolve_account config_account p.account in
    let sender = default p.from account.address in
    let from = to_lower_case sender in
    let got = canonical_lem sender s sound in
    let t : W × Caches = (s.0, got.0) in
    let asked = resolve_numbers-plain request p from c n t hc hn hs in
    let made = filled-plain request p account from c n asked.0 t got.2 hs in
    elim (Bool-cases (address_regex sender)) [
      | inl y ↦ (made.0, rw (got.1, y, asked.1, made.1) refl, made.2)
      | inr i ↦ (got.0, rw (got.1, i) refl, got.2)
    ]
