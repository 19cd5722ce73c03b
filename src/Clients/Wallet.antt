-- ===== src/Clients/Wallet.antt =====
-- src/clients/createWalletClient.ts: the transactions that a wallet builds, signs and sends. An
-- account signs in its own way, which is a parameter.
use tosdk.Prelude.{ℤ, pos, Bool, true, false, List, [], ◌∷◌, Option, none, some}
use tosdk.Prelude.Results.{Result, ok, err, throw_if, type_error, plain_error}
use tosdk.Strings.{Text, codes, prefix_0x}
use tosdk.Json.{Json, null, boolean, number, string, array, object}
use tosdk.Address.{Caches}
use tosdk.Transaction.{TransactionSerializableNative, Signature, bundle, serialize_transaction}
use tosdk.Encoding.Hex.{Numeric, bigint, to_big_int}
use tosdk.Surfaces.Client.{await_step, ◌>>=◌, return}
use tosdk.Surfaces.Runtime.Normalize.{or_else}
use tosdk.Clients.Rpc.{Call, Request, canonical, checked, send, default, pending}
use tosdk.Clients.Types.{BuiltTransactionResult}
use tosdk.Clients.Public.Accounts.{get_transaction_count, get_sponsor_nonce}
use tosdk.Clients.Public.Blocks.{get_chain_id}
pub mod Actions
pub mod Requests
pub mod Contracts
pub mod Building
pub mod Signing
pub mod Sending
pub mod Plain

pub record LocalAccount (W : Type 0) : Type 0 where
  pub address : Text
  pub signer_type : Text
  pub sign_authorization : TransactionSerializableNative → Call W Signature

pub record SignTransactionParameters (W : Type 0) : Type 0 where
  pub account : Option (LocalAccount W)
  pub chain_id : Option Numeric
  pub nonce : Option Numeric
  pub gas : Option Numeric
  pub to : Option Text
  pub value : Option Numeric
  pub data_ : Option Text
  pub from : Option Text
  pub signer_type : Option Text
  pub sponsor : Option Text
  pub sponsor_signer_type : Option Text
  pub sponsor_nonce : Option Numeric
  pub sponsor_expiry : Option Numeric
  pub sponsor_policy_hash : Option Text
  pub sponsor_signature : Option Signature

-- What is filled in of a transaction: chain id, nonce, and the sponsor's nonce.
pub record Numbers : Type 0 where
  pub chain_id : ℤ
  pub nonce : ℤ
  pub sponsor_nonce : Option ℤ

-- The fields of a transaction that are the sponsor's.
pub record SponsorFields : Type 0 where
  pub sponsor : Option Text
  pub sponsor_signer_type : Option Text
  pub sponsor_nonce : Option Numeric
  pub sponsor_expiry : Option Numeric
  pub sponsor_policy_hash : Option Text

abbrev pub no_sponsor : SponsorFields
no_sponsor = record {
  sponsor = none;
  sponsor_signer_type = none;
  sponsor_nonce = none;
  sponsor_expiry = none;
  sponsor_policy_hash = none;
}

unfoldable pub bigint_of : Option ℤ → Option Numeric
bigint_of none = none
bigint_of (some n) = some (bigint n)

-- transaction.sponsor && !parameters.sponsorSignature
unfoldable pub lacks_sponsor : Option Text → Option Signature → Bool
lacks_sponsor none signature = false
lacks_sponsor (some []) signature = false
lacks_sponsor (some (c ∷ s)) none = true
lacks_sponsor (some (c ∷ s)) (some signature) = false

-- What Promise.all makes of three answers that are all there.
unfoldable pub all_of : Result ℤ → Result ℤ → Result (Option ℤ) → Result Numbers
all_of (err e) n m = err e
all_of (ok c) (err e) m = err e
all_of (ok c) (ok n) (err e) = err e
all_of (ok c) (ok n) (ok m) = ok (record { chain_id = c; nonce = n; sponsor_nonce = m })

module _ {W : Type 0} where
  unfoldable pub given_canonical : Option Text → Call W (Option Text)
  given_canonical none = return (ok none)
  given_canonical (some address) = canonical address >>= λ a. return (ok (some a))

  -- BigInt(value!): undefined is refused.
  unfoldable pub required_big_int : Option Numeric → Call W ℤ
  unfolding to_big_int
  required_big_int none = return (err type_error)
  required_big_int (some value) = return (ok (to_big_int value))

  -- needsSponsorNonce ? getAddress(sponsor!) : undefined
  unfoldable pub sponsor_to_ask : Option Text → Option Numeric → Call W (Option Text)
  unfolding given_canonical
  sponsor_to_ask sponsor none = given_canonical sponsor
  sponsor_to_ask sponsor (some nonce) = return (ok none)

  -- ...(typeof sponsor !== 'undefined' ? { sponsor: getAddress(sponsor), ... } : {})
  unfoldable pub sponsor_fields :
      SignTransactionParameters W → Option Text → Option ℤ → Call W SponsorFields
  unfolding bigint_of
  sponsor_fields p none asked = return (ok no_sponsor)
  sponsor_fields p (some sponsor) asked = canonical sponsor >>= λ s.
      required_big_int p.sponsor_expiry >>= λ expiry. return (
        ok (record {
          sponsor = some s;
          sponsor_signer_type = some (default p.sponsor_signer_type (codes "secp256k1"));
          sponsor_nonce = bigint_of asked;
          sponsor_expiry = some (bigint expiry);
          sponsor_policy_hash = p.sponsor_policy_hash;
        }))

  -- The transaction, when the numbers are there. (An account has a type of signer, so the last
  -- alternative of `signerType ?? resolvedAccount.signerType ?? 'secp256k1'` is left out.)
  unfoldable pub filled :
      SignTransactionParameters W
      → LocalAccount W
      → Text
      → Numbers
      → Call W TransactionSerializableNative
  unfolding to_big_int given_canonical sponsor_fields
  filled p account from numbers = sponsor_fields p p.sponsor numbers.sponsor_nonce >>= λ sponsored.
      given_canonical p.to >>= λ to. return (
        ok (record {
          type = none;
          chain_id = bigint numbers.chain_id;
          nonce = bigint numbers.nonce;
          gas = bigint (to_big_int (default p.gas (bigint (pos 21000))));
          to = to;
          value = bigint (to_big_int (default p.value (bigint (pos 0))));
          data_ = some (default p.data_ prefix_0x);
          from = from;
          signer_type = default p.signer_type account.signer_type;
          sponsor = sponsored.sponsor;
          sponsor_signer_type = sponsored.sponsor_signer_type;
          sponsor_nonce = sponsored.sponsor_nonce;
          sponsor_expiry = sponsored.sponsor_expiry;
          sponsor_policy_hash = sponsored.sponsor_policy_hash;
          terminal_class = none;
          trust_tier = none;
        }))

module _ {W : Type 0} (request : Request W) where
  -- typeof chainId === 'undefined' ? publicClient.getChainId() : BigInt(chainId)
  unfoldable pub chain_id_of : Option Numeric → Call W ℤ
  unfolding to_big_int
  chain_id_of none = get_chain_id request
  chain_id_of (some chain_id) = return (ok (to_big_int chain_id))

  unfoldable pub nonce_of : Option Numeric → Text → Call W ℤ
  unfolding to_big_int
  nonce_of none from = get_transaction_count request from (some pending)
  nonce_of (some nonce) from = return (ok (to_big_int nonce))

  -- The sponsor's nonce: asked for, left out, or given.
  unfoldable pub sponsor_nonce_of : Option Text → Option Numeric → Call W (Option ℤ)
  unfolding to_big_int
  sponsor_nonce_of (some sponsor) none =
      get_sponsor_nonce request sponsor (some pending) >>= λ n. return (ok (some n))
  sponsor_nonce_of none none = return (ok none)
  sponsor_nonce_of sponsor (some nonce) = return (ok (some (to_big_int nonce)))

  -- await Promise.all([...]): the three are begun in order, and all of them also when one fails; only
  -- an invalid sponsor ends the body while it begins them. Of the exceptions the first in order is
  -- thrown. (They run side by side: a world in which they interleave is not modelled.)
  unfoldable pub resolve_numbers : SignTransactionParameters W → Text → Call W Numbers
  unfolding all_of sponsor_to_ask chain_id_of nonce_of sponsor_nonce_of
  resolve_numbers p from s =
      let c = chain_id_of p.chain_id s in
      let n = nonce_of p.nonce from c.1 in
      await_step (sponsor_to_ask p.sponsor p.sponsor_nonce n.1) (λ sponsor t.
        let m = sponsor_nonce_of sponsor p.sponsor_nonce t in (all_of c.0 n.0 m.0, m.1))

-- account ?? config.account
unfoldable pub resolve_account :
    {W : Type 0} → LocalAccount W → Option (LocalAccount W) → LocalAccount W
resolve_account config_account account = default account config_account

module _ {W : Type 0} (request : Request W) (config_account : LocalAccount W) where
  unfoldable pub build_transaction :
      SignTransactionParameters W → Call W TransactionSerializableNative
  unfolding resolve_account resolve_numbers filled
  build_transaction p =
      let account = resolve_account config_account p.account in
      canonical (default p.from account.address) >>= λ from.
      resolve_numbers request p from >>= λ numbers. filled p account from numbers

  unfoldable pub sign_authorization : SignTransactionParameters W → Call W Signature
  sign_authorization p =
      build_transaction p >>= λ t. (resolve_account config_account p.account).sign_authorization t

  unfoldable pub assemble_transaction :
      SignTransactionParameters W → Signature → Option Signature → Call W Text
  assemble_transaction p execution sponsor =
      build_transaction p >>= λ t. checked (serialize_transaction t (bundle execution sponsor))

  unfoldable pub sign_transaction : SignTransactionParameters W → Call W Text
  unfolding lacks_sponsor
  sign_transaction p = build_transaction p >>= λ t.
      (resolve_account config_account p.account).sign_authorization t >>= λ execution.
      return (throw_if (lacks_sponsor t.sponsor p.sponsor_signature) plain_error) >>= λ _.
      checked (serialize_transaction t (bundle execution p.sponsor_signature))

  unfoldable pub send_raw_transaction : Text → Call W Json
  unfolding send
  send_raw_transaction serialized =
      send request (codes "tos_sendRawTransaction") (string serialized ∷ [])

  unfoldable pub send_transaction : SignTransactionParameters W → Call W Json
  send_transaction p = sign_transaction p >>= send_raw_transaction
