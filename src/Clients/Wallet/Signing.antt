-- ===== src/Clients/Wallet/Signing.antt =====
-- What a wallet signs and sends (createWalletClient.ts).
use tosdk.Prelude.{◌≡◌, refl, ap, true, false, [], ◌∷◌, Option, none, some, arith, length}
use tosdk.Prelude.Results.{throw_if, plain_error}
use tosdk.Strings.{Text, text_eq, to_lower_case, starts_with}
use tosdk.Json.{Items}
use tosdk.Address.{Caches, address_regex}
use tosdk.Transaction.{TransactionSerializableNative}
use tosdk.Surfaces.Client.{return}
use tosdk.Clients.Rpc.{Request}
use tosdk.Clients.Contracts.{Holds, IsSound, Keeps, bind-Keeps, Sound}
use tosdk.Clients.Wallet.Contracts.{raw_method}
use tosdk.Clients.Wallet.Building.{
  IsFormOfGiven, IsBuilt, IsSponsored, fields_of, build_transaction-Keeps,
}
use tosdk.Clients.Wallet.{
  LocalAccount, SignTransactionParameters, SponsorFields, lacks_sponsor, resolve_account,
  build_transaction, sign_transaction, send_raw_transaction, send_transaction,
}

-- An address is not empty, so its canonical form counts as a sponsor.
lacks_sponsor-form :
    (address : Text) (a : Option Text)
    → IsFormOfGiven (some address) a
    → lacks_sponsor a none ≡ true
unfolding lacks_sponsor address_regex to_lower_case starts_with
lacks_sponsor-form address none h = elim h [ ]
lacks_sponsor-form [] (some a) (r, e) = ground (arith, r)
lacks_sponsor-form (c ∷ s) (some []) (r, e) =
    let no : ⊥ = (let n = ap length e in omega arith) in elim no [ ]
lacks_sponsor-form (c ∷ s) (some (d ∷ t)) (r, e) = refl

lacks_sponsor-given :
    {W : Type 0} (p : SignTransactionParameters W) (x : Text) (sponsor : Option Text)
    (f : SponsorFields)
    → sponsor ≡ some x
    → IsSponsored p sponsor f
    → lacks_sponsor f.sponsor none ≡ true
lacks_sponsor-given p x none f e h = ground (arith, e)
lacks_sponsor-given p x (some y) f e h = lacks_sponsor-form y f.sponsor h.0

module _ {W : Type 0} (J : W → Type 0) (request : Request W) (config_account : LocalAccount W)
    (p : SignTransactionParameters W) where
  -- Behind an exception nothing is answered.
  refused-Keeps :
      (a : Option Text)
      → lacks_sponsor a none ≡ true
      → Keeps (Sound J) (λ (u : Unit {0}). ⊥) (return (throw_if (lacks_sponsor a none) plain_error))
  refused-Keeps a l s i = rw l (i, tt)

  sign_transaction-Keeps :
      ((method : Text) (params : Items) (w : W)
        → text_eq method raw_method ≡ false
        → J w
        → J (request method params w).1)
      → ((t : TransactionSerializableNative)
          → Keeps
              (Sound J)
              (λ _. Unit)
              ((resolve_account config_account p.account).sign_authorization t))
      → (x : Text) → p.sponsor ≡ some x
      → p.sponsor_signature ≡ none
      → Keeps (Sound J) (λ _. ⊥) (sign_transaction request config_account p)
  unfolding sign_transaction
  sign_transaction-Keeps kept signs x given unsigned =
      let account = resolve_account config_account p.account in
      bind-Keeps (Sound J) (IsBuilt p account) (λ _. ⊥) (build_transaction request config_account p)
        _ (build_transaction-Keeps J request config_account p kept)
        (λ t built.
          bind-Keeps (Sound J) (λ _. Unit) (λ _. ⊥) (account.sign_authorization t) _ (signs t)
            (λ execution _.
              bind-Keeps (Sound J) (λ _. ⊥) (λ _. ⊥)
                (return (throw_if (lacks_sponsor t.sponsor p.sponsor_signature) plain_error)) _
                (rw unsigned (
                  refused-Keeps t.sponsor
                    (lacks_sponsor-given p x p.sponsor (fields_of t) given built.sponsored)))
                (λ u no. elim no [ ])))

-- With caches of right answers, and an account whose signing keeps them: sendTransaction of a
-- transaction with a sponsor and without the sponsor's signature throws, and it does to the world only
-- what requests other than that of a signed transaction and the signing do.
pub send_transaction-unsponsored :
    {W : Type 0} (J : W → Type 0) (request : Request W) (config_account : LocalAccount W)
    (p : SignTransactionParameters W)
    → ((method : Text) (params : Items) (w : W)
        → text_eq method raw_method ≡ false
        → J w
        → J (request method params w).1)
    → ((t : TransactionSerializableNative)
        → Keeps
            (Sound J)
            (λ _. Unit)
            ((resolve_account config_account p.account).sign_authorization t))
    → (x : Text) → p.sponsor ≡ some x
    → p.sponsor_signature ≡ none
    → (s : W × Caches) → J s.0
    → IsSound s.1
    → J (send_transaction request config_account p s).1.0
      × IsSound (send_transaction request config_account p s).1.1
      × Holds (λ _. ⊥) (send_transaction request config_account p s).0
unfolding send_transaction
send_transaction-unsponsored J request config_account p kept signs x given unsigned s j sound =
    let r =
      bind-Keeps (Sound J) (λ _. ⊥) (λ _. ⊥) (sign_transaction request config_account p)
        (send_raw_transaction request config_account)
        (sign_transaction-Keeps J request config_account p kept signs x given unsigned)
        (λ text no. elim no [ ]) s (j, sound) in
    (r.0.0, r.0.1, r.1)
