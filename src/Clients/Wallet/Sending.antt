-- ===== src/Clients/Wallet/Sending.antt =====
-- The texts that a wallet sends as signed transactions (createWalletClient.ts).
use tosdk.Prelude.{◌≡◌, refl, sym, inl, inr, Bool, true, false, Bool-cases, [], ◌∷◌}
use tosdk.Prelude.Results.{Result, ok, err, throw_if, plain_error}
use tosdk.Strings.{Text, text_eq}
use tosdk.Json.{Items, string}
use tosdk.Lru.{LruMap}
use tosdk.Address.{Caches}
use tosdk.Address.Cached.{IsCoherent}
use tosdk.Transaction.{
  TransactionSerializableNative, Signature, SignatureInput, bundle, serialized_transaction,
  serialize_transaction,
}
use tosdk.Transaction.Checks.{is_well_formed}
use tosdk.Transaction.Fields.{laid_out, serialize_transaction_lem}
use tosdk.Surfaces.Client.{return}
use tosdk.Clients.Rpc.{Call, Request, checked, items}
use tosdk.Clients.Contracts.{
  Holds, Holds-Unit, IsSound, Keeps, bind-Keeps, return-Keeps, Sound, send-Keeps,
}
use tosdk.Clients.Wallet.Contracts.{raw_method}
use tosdk.Clients.Wallet.Building.{IsBuilt, build_transaction-Keeps}
use tosdk.Clients.Wallet.{
  LocalAccount, SignTransactionParameters, lacks_sponsor, resolve_account, build_transaction,
  sign_transaction, send_raw_transaction, send_transaction,
}

-- A text made of a transaction that is well formed and the one that the parameters ask for, and of a
-- signature that the account gave it.
pub record IsSigned {W : Type 0} (p : SignTransactionParameters W) (account : LocalAccount W)
    (text : Text) : Type 0 where
  pub transaction : TransactionSerializableNative
  pub built : IsBuilt p account transaction
  pub formed : is_well_formed transaction ≡ true
  pub execution : Signature
  pub before : W × Caches
  pub after : W × Caches
  pub signed : account.sign_authorization transaction before ≡ (ok execution, after)
  pub laid :
      laid_out (serialized_transaction transaction (bundle execution p.sponsor_signature)) ≡ ok text

-- What a well-formed transaction is serialized to.
abbrev IsText : TransactionSerializableNative → SignatureInput → Text → Type 0
IsText t signature text =
    (is_well_formed t ≡ true) × (laid_out (serialized_transaction t signature) ≡ ok text)

Holds-text :
    (t : TransactionSerializableNative) (signature : SignatureInput) (r : Result Text)
    → is_well_formed t ≡ true
    → r ≡ laid_out (serialized_transaction t signature)
    → Holds (IsText t signature) r
Holds-text t signature (ok text) formed e = (formed, sym e)
Holds-text t signature (err e) formed h = tt

Holds-none : {A : Type 0} (Q : A → Type 0) (r : Result A) (e : _) → r ≡ err e → Holds Q r
Holds-none Q (ok a) e h = cc
Holds-none Q (err e) f h = tt

serialize-Holds :
    (t : TransactionSerializableNative) (signature : SignatureInput) (cache : LruMap Bool)
    → IsCoherent cache
    → Holds (IsText t signature) (serialize_transaction t signature cache).0
serialize-Holds t signature cache w =
    let lem = serialize_transaction_lem t signature cache w in
    elim (Bool-cases (is_well_formed t)) [
      | inl y ↦ Holds-text t signature _ y (lem.1 y)
      | inr n ↦ let refused = lem.2 n in Holds-none (IsText t signature) _ refused.0 refused.1
    ]

Holds-map :
    {A : Type 0} (P Q : A → Type 0) → ((a : A) → P a → Q a) → (r : Result A) → Holds P r → Holds Q r
Holds-map P Q f (ok a) h = f a h
Holds-map P Q f (err e) h = tt

-- An answer of a run, with the run that gave it.
answer-Holds :
    {W A : Type 0} (m : Call W A) (s : W × Caches) (r : Result A × (W × Caches))
    → m s ≡ r
    → Holds (λ a. (before : W × Caches) × (after : W × Caches) × (m before ≡ (ok a, after))) r.0
answer-Holds m s (ok a, t) e = (s, t, e)
answer-Holds m s (err e, t) h = tt

module _ {W : Type 0} (J : W → Type 0) (request : Request W) (config_account : LocalAccount W)
    (p : SignTransactionParameters W) where
  serialize-Keeps :
      (t : TransactionSerializableNative) (signature : SignatureInput)
      → Keeps (Sound J) (IsText t signature) (checked (serialize_transaction t signature))
  unfolding checked
  serialize-Keeps t signature s i =
      let cache = s.1.is_address_cache in
      (
        (
          i.0,
          record {
            coherent = (serialize_transaction_lem t signature cache i.1.coherent).0;
            lowered = i.1.lowered;
          },
        ),
        serialize-Holds t signature cache i.1.coherent,
      )

  -- A body that yields the text of a signed transaction, from its serialization.
  serialize-IsSigned :
      (t : TransactionSerializableNative) (execution : Signature)
      → IsBuilt p (resolve_account config_account p.account) t
      → (run : (before : W × Caches) × (after : W × Caches) × ((resolve_account config_account
                p.account).sign_authorization
              t before
            ≡ (ok execution, after)))
      → Keeps
          (Sound J)
          (IsSigned p (resolve_account config_account p.account))
          (checked (serialize_transaction t (bundle execution p.sponsor_signature)))
  serialize-IsSigned t execution built run s i =
      let r = serialize-Keeps t (bundle execution p.sponsor_signature) s i in
      (
        r.0,
        Holds-map (IsText t (bundle execution p.sponsor_signature))
            (IsSigned p (resolve_account config_account p.account))
            (λ text laid. record {
              transaction = t;
              built = built;
              formed = laid.0;
              execution = execution;
              before = run.0;
              after = run.1;
              signed = run.2;
              laid = laid.1;
            })
            _ r.1,
      )

  sign_transaction-IsSigned :
      ((method : Text) (params : Items) (w : W)
        → text_eq method raw_method ≡ false
        → J w
        → J (request method params w).1)
      → ((t : TransactionSerializableNative)
          → Keeps
              (Sound J)
              (λ _. Unit)
              ((resolve_account config_account p.account).sign_authorization t))
      → Keeps
          (Sound J)
          (IsSigned p (resolve_account config_account p.account))
          (sign_transaction request config_account p)
  unfolding sign_transaction
  sign_transaction-IsSigned kept signs =
      let account = resolve_account config_account p.account in
      bind-Keeps (Sound J) (IsBuilt p account) (IsSigned p account)
        (build_transaction request config_account p) _
        (build_transaction-Keeps J request config_account p kept)
        (λ t built.
          bind-Keeps (Sound J)
            (λ e.
              (before : W × Caches) × (after : W × Caches) × (account.sign_authorization t before
                ≡ (ok e, after)))
            (IsSigned p account) (account.sign_authorization t) _
            (λ s i. ((signs t s i).0, answer-Holds (account.sign_authorization t) s _ refl))
            (λ execution run.
              bind-Keeps (Sound J) (λ _. Unit) (IsSigned p account)
                (return (throw_if (lacks_sponsor t.sponsor p.sponsor_signature) plain_error)) _
                (return-Keeps (Sound J) (λ _. Unit) _ (Holds-Unit _))
                (λ _ _. serialize-IsSigned t execution built run)))

-- With caches of right answers, and an account whose signing keeps them: what sendTransaction sends
-- as a signed transaction is the serialization of a well-formed transaction, which is the one that the
-- parameters ask for and which the account signed; whatever such texts and the other requests keep of
-- the world, it keeps.
pub send_transaction_lem :
    {W : Type 0} (J : W → Type 0) (request : Request W) (config_account : LocalAccount W)
    (p : SignTransactionParameters W)
    → ((method : Text) (params : Items) (w : W)
        → text_eq method raw_method ≡ false
        → J w
        → J (request method params w).1)
    → ((t : TransactionSerializableNative)
        → Keeps
            (Sound J)
            (λ _. Unit)
            ((resolve_account config_account p.account).sign_authorization t))
    → ((text : Text) (w : W)
        → IsSigned p (resolve_account config_account p.account) text
        → J w
        → J (request raw_method (items (string text ∷ [])) w).1)
    → (s : W × Caches) → J s.0
    → IsSound s.1
    → J (send_transaction request config_account p s).1.0
      × IsSound (send_transaction request config_account p s).1.1
unfolding send_transaction send_raw_transaction
send_transaction_lem J request config_account p kept signs sends s j sound =
    let account = resolve_account config_account p.account in
    (bind-Keeps (Sound J) (IsSigned p account) (λ _. Unit)
      (sign_transaction request config_account p) (send_raw_transaction request config_account)
      (sign_transaction-IsSigned J request config_account p kept signs)
      (λ text signed.
        send-Keeps J request raw_method (string text ∷ []) (λ w k. sends text w signed k))
      s (j, sound)).0
