-- ===== src/Clients/Wallet/Building.antt =====
-- The transaction that buildTransaction makes (createWalletClient.ts).
use tosdk.Prelude.{ℤ, pos, ◌≡◌, refl, ap, false, Option, none, some}
use tosdk.Prelude.Results.{ok, err, type_error}
use tosdk.Strings.{Text, codes, prefix_0x, text_eq}
use tosdk.Json.{Items}
use tosdk.Encoding.Hex.{Numeric, bigint, to_big_int}
use tosdk.Transaction.{TransactionSerializableNative}
use tosdk.Clients.Rpc.{Request, canonical, default}
use tosdk.Clients.Contracts.{Keeps, bind-Keeps, return-Keeps, Sound, IsFormOf, canonical-Keeps}
use tosdk.Clients.Wallet.Contracts.{
  raw_method, resolve_numbers-Keeps, IsAnswered, IsNumber, IsGivenNumber,
}
use tosdk.Clients.Wallet.{
  LocalAccount, SignTransactionParameters, Numbers, SponsorFields, no_sponsor, bigint_of,
  given_canonical, required_big_int, sponsor_fields, filled, resolve_numbers, resolve_account,
  build_transaction,
}

-- The canonical form of an address that may be left out.
abbrev pub IsFormOfGiven : Option Text → Option Text → Type 0
IsFormOfGiven none none = Unit
IsFormOfGiven none (some a) = ⊥
IsFormOfGiven (some address) none = ⊥
IsFormOfGiven (some address) (some a) = IsFormOf address a

-- A number that is given, or the one asked for.
abbrev pub IsGiven : Option Numeric → Numeric → Type 0
IsGiven none n = Unit
IsGiven (some given) n = n ≡ bigint (to_big_int given)

abbrev pub IsGivenOption : Option Numeric → Option Numeric → Type 0
IsGivenOption none n = Unit
IsGivenOption (some given) n = n ≡ some (bigint (to_big_int given))

-- A sponsor's fields, of parameters and of a transaction: with no sponsor none of them is there.
abbrev pub IsSponsored :
    {W : Type 0} → SignTransactionParameters W → Option Text → SponsorFields → Type 0
IsSponsored p none fields = fields ≡ no_sponsor
IsSponsored p (some sponsor) fields =
    IsFormOfGiven (some sponsor) fields.sponsor
    × (fields.sponsor_signer_type ≡ some (default p.sponsor_signer_type (codes "secp256k1")))
    × IsGivenOption p.sponsor_nonce fields.sponsor_nonce
    × ((e : Numeric) × (p.sponsor_expiry ≡ some e)
        × (fields.sponsor_expiry ≡ some (bigint (to_big_int e))))
    × (fields.sponsor_policy_hash ≡ p.sponsor_policy_hash)

abbrev pub fields_of : TransactionSerializableNative → SponsorFields
fields_of t = record {
  sponsor = t.sponsor;
  sponsor_signer_type = t.sponsor_signer_type;
  sponsor_nonce = t.sponsor_nonce;
  sponsor_expiry = t.sponsor_expiry;
  sponsor_policy_hash = t.sponsor_policy_hash;
}

-- The transaction that the parameters ask for, for an account.
pub record IsBuilt {W : Type 0} (p : SignTransactionParameters W) (account : LocalAccount W)
    (t : TransactionSerializableNative) : Type 0 where
  pub sender : IsFormOf (default p.from account.address) t.from
  pub recipient : IsFormOfGiven p.to t.to
  pub sponsored : IsSponsored p p.sponsor (fields_of t)
  pub chain_id : IsGiven p.chain_id t.chain_id
  pub nonce : IsGiven p.nonce t.nonce
  pub gas : t.gas ≡ bigint (to_big_int (default p.gas (bigint (pos 21000))))
  pub value : t.value ≡ bigint (to_big_int (default p.value (bigint (pos 0))))
  pub data_ : t.data_ ≡ some (default p.data_ prefix_0x)
  pub signer_type : t.signer_type ≡ default p.signer_type account.signer_type

IsNumber-IsGiven : (given : Option Numeric) (n : ℤ) → IsNumber given n → IsGiven given (bigint n)
IsNumber-IsGiven none n h = tt
IsNumber-IsGiven (some g) n h = ap bigint h

IsGivenNumber-IsGivenOption :
    (given : Option Numeric) (n : Option ℤ)
    → IsGivenNumber given n
    → IsGivenOption given (bigint_of n)
unfolding bigint_of
IsGivenNumber-IsGivenOption none n h = tt
IsGivenNumber-IsGivenOption (some g) n h = ap bigint_of h

module _ {W : Type 0} (J : W → Type 0) where
  given_canonical-Keeps :
      (address : Option Text) → Keeps (Sound J) (IsFormOfGiven address) (given_canonical address)
  unfolding given_canonical
  given_canonical-Keeps none = return-Keeps (Sound J) (IsFormOfGiven none) (ok none) tt
  given_canonical-Keeps (some a) =
      bind-Keeps (Sound J) (IsFormOf a) (IsFormOfGiven (some a)) (canonical a) _
        (canonical-Keeps J a)
        (λ b f. return-Keeps (Sound J) (IsFormOfGiven (some a)) (ok (some b)) f)

  -- The number behind a value that has to be there.
  abbrev IsRequired : Option Numeric → ℤ → Type 0
  IsRequired value n = (e : Numeric) × (value ≡ some e) × (n ≡ to_big_int e)

  required_big_int-Keeps :
      (value : Option Numeric) → Keeps (Sound J) (IsRequired value) (required_big_int value)
  unfolding required_big_int
  required_big_int-Keeps none = return-Keeps (Sound J) (IsRequired none) (err type_error) tt
  required_big_int-Keeps (some v) =
      return-Keeps (Sound J) (IsRequired (some v)) (ok (to_big_int v)) (v, refl, refl)

  sponsor_fields-Keeps :
      (p : SignTransactionParameters W) (sponsor : Option Text) (asked : Option ℤ)
      → IsGivenNumber p.sponsor_nonce asked
      → Keeps (Sound J) (IsSponsored p sponsor) (sponsor_fields p sponsor asked)
  unfolding sponsor_fields
  sponsor_fields-Keeps p none asked known =
      return-Keeps (Sound J) (IsSponsored p none) (ok no_sponsor) refl
  sponsor_fields-Keeps p (some sponsor) asked known =
      bind-Keeps (Sound J) (IsFormOf sponsor) (IsSponsored p (some sponsor)) (canonical sponsor) _
        (canonical-Keeps J sponsor)
        (λ a form.
          bind-Keeps (Sound J) (IsRequired p.sponsor_expiry) (IsSponsored p (some sponsor))
            (required_big_int p.sponsor_expiry) _ (required_big_int-Keeps p.sponsor_expiry)
            (λ n required s i. (
              i,
              (
                form,
                refl,
                IsGivenNumber-IsGivenOption p.sponsor_nonce asked known,
                (required.0, required.1, ap (λ x. some (bigint x)) required.2),
                refl,
              ),
            )))

  filled-Keeps :
      (p : SignTransactionParameters W) (account : LocalAccount W) (from : Text) (numbers : Numbers)
      → IsFormOf (default p.from account.address) from
      → IsAnswered p numbers
      → Keeps (Sound J) (IsBuilt p account) (filled p account from numbers)
  unfolding filled
  filled-Keeps p account from numbers sender answered =
      bind-Keeps (Sound J) (IsSponsored p p.sponsor) (IsBuilt p account)
        (sponsor_fields p p.sponsor numbers.sponsor_nonce) _
        (sponsor_fields-Keeps p p.sponsor numbers.sponsor_nonce answered.2)
        (λ f sponsored.
          bind-Keeps (Sound J) (IsFormOfGiven p.to) (IsBuilt p account) (given_canonical p.to) _
            (given_canonical-Keeps p.to)
            (λ to recipient s i. (
              i,
              record {
                sender = sender;
                recipient = recipient;
                sponsored = sponsored;
                chain_id = IsNumber-IsGiven p.chain_id numbers.chain_id answered.0;
                nonce = IsNumber-IsGiven p.nonce numbers.nonce answered.1;
                gas = refl;
                value = refl;
                data_ = refl;
                signer_type = refl;
              },
            )))

-- What buildTransaction keeps and makes.
pub build_transaction-Keeps :
    {W : Type 0} (J : W → Type 0) (request : Request W) (config_account : LocalAccount W)
    (p : SignTransactionParameters W)
    → ((method : Text) (params : Items) (w : W)
        → text_eq method raw_method ≡ false
        → J w
        → J (request method params w).1)
    → Keeps
        (Sound J)
        (IsBuilt p (resolve_account config_account p.account))
        (build_transaction request config_account p)
unfolding build_transaction
build_transaction-Keeps J request config_account p kept =
    let account = resolve_account config_account p.account in
    let sender = default p.from account.address in
    bind-Keeps (Sound J) (IsFormOf sender) (IsBuilt p account) (canonical sender) _
      (canonical-Keeps J sender)
      (λ from form.
        bind-Keeps (Sound J) (IsAnswered p) (IsBuilt p account) (resolve_numbers request p from) _
          (resolve_numbers-Keeps J request kept p from)
          (λ numbers answered. filled-Keeps J p account from numbers form answered))
