-- ===== src/Transaction.antt =====
-- src/utils/transaction/{assertTransaction,getTransactionType,serializeTransaction}.ts: the checks
-- of a native transaction and its serialization. The checks ask isAddress, so they pass its cache
-- on; `undefined` and, for `to`, `null` are `none`.
use tosdk.Prelude.{
  ℕ, zero, Bool, true, false, ◌&&◌, ◌||◌, not, List, [], ◌∷◌, ◌++◌, Option, none, some, leb, ◌==◌,
  length, drop, if◌then◌else◌, ltb_ℤ, ℤ, pos, replicate,
}
use tosdk.Prelude.Results.{
  Error, Result, ok, err, ◌>>=◌, throw_if, invalid_address, invalid_chain_id, base_error,
  range_error, invalid_serializable_transaction, map_result,
}
use tosdk.Strings.{
  Text, codes, prefix_0x, text_eq, starts_with, all_hex_digits, text_encode, is_blank,
}
use tosdk.Lru.{LruMap}
use tosdk.Address.{is_address}
use tosdk.Data.{hex, concat_hex}
use tosdk.Encoding.Hex.{Numeric, number, bigint, to_big_int, number_to_hex, bytes_string}
use tosdk.Encoding.Rlp.{RecursiveArray, Elements, leaf, array, nil, cons, to_rlp_hex}
pub mod Checks
pub mod Quantities
pub mod Fields
pub mod FieldList
mod Tests

pub record TransactionSerializableNative : Type 0 where
  pub type : Option Text
  pub chain_id : Numeric
  pub nonce : Numeric
  pub gas : Numeric
  pub to : Option Text
  pub value : Numeric
  pub data_ : Option Text
  pub from : Text
  pub signer_type : Text
  pub sponsor : Option Text
  pub sponsor_signer_type : Option Text
  pub sponsor_nonce : Option Numeric
  pub sponsor_expiry : Option Numeric
  pub sponsor_policy_hash : Option Text
  pub terminal_class : Option ℤ
  pub trust_tier : Option ℤ

-- Code that asks isAddress: its cache goes in and out, also when it throws.
abbrev pub Checked : Type 0 → Type 0
Checked A = LruMap Bool → Result A × LruMap Bool

unfoldable pub and_then : Checked (Unit {0}) → Checked (Unit {0}) → Checked (Unit {0})
and_then m k cache = let r = m cache in elim r.0 [ err e ↦ (err e, r.1) | ok u ↦ k r.1 ]

-- `if (test) throw e`
unfoldable pub refuse : Bool → Error → Checked (Unit {0})
refuse test e cache = (throw_if test e, cache)

-- if (!isAddress(address)) throw new InvalidAddressError({ address })
unfoldable pub require_address : Text → Checked (Unit {0})
require_address address cache =
    let r = is_address address none cache in (throw_if (not r.0) invalid_address, r.1)

-- !sponsorSignerType?.trim()
unfoldable pub is_absent_or_blank : Option Text → Bool
unfolding is_blank
is_absent_or_blank none = true
is_absent_or_blank (some s) = is_blank s

unfoldable pub is_undefined {ℓ} : {A : Type ℓ} → Option A → Bool
is_undefined none = true
is_undefined (some a) = false

-- BigInt(v) <= 0n, BigInt(v) < 0n
unfoldable pub is_not_positive : Numeric → Bool
unfolding to_big_int
is_not_positive v = not (ltb_ℤ (pos 0) (to_big_int v))

unfoldable pub is_below_zero : Numeric → Bool
unfolding to_big_int
is_below_zero v = ltb_ℤ (to_big_int v) (pos 0)

-- /^0x[0-9a-fA-F]{64}$/
unfoldable pub is_hash : Text → Bool
is_hash s = starts_with prefix_0x s && ((length s == 66) && all_hex_digits (drop 2 s))

-- `if (to && !isAddress(to))`: the empty string is no true value.
unfoldable pub require_recipient : Option Text → Checked (Unit {0})
require_recipient none cache = (ok tt, cache)
require_recipient (some []) cache = (ok tt, cache)
require_recipient (some (c ∷ to)) cache = require_address (c ∷ to) cache

unfoldable pub assert_transaction_base : TransactionSerializableNative → Checked (Unit {0})
assert_transaction_base t = and_then (refuse (is_not_positive t.chain_id) invalid_chain_id) (
    and_then (refuse (is_blank t.signer_type) base_error)
      (and_then (require_address t.from) (require_recipient t.to)))

unfoldable pub assert_sponsor_fields_absent : TransactionSerializableNative → Checked (Unit {0})
assert_sponsor_fields_absent t =
    and_then (refuse (not (is_undefined t.sponsor_signer_type)) base_error) (
      and_then (refuse (not (is_undefined t.sponsor_nonce)) base_error) (
        and_then (refuse (not (is_undefined t.sponsor_expiry)) base_error)
          (refuse (not (is_undefined t.sponsor_policy_hash)) base_error)))

-- The checks of a field that is there; that it is there has been checked before them.
unfoldable pub refuse_some {ℓ} : {A : Type ℓ} → (A → Bool) → Option A → Checked (Unit {0})
refuse_some test none cache = (ok tt, cache)
refuse_some test (some a) cache = refuse (test a) base_error cache

unfoldable pub assert_sponsor_fields : Text → TransactionSerializableNative → Checked (Unit {0})
assert_sponsor_fields sponsor t = and_then (require_address sponsor) (
    and_then (refuse (is_absent_or_blank t.sponsor_signer_type) base_error) (
      and_then (refuse (is_undefined t.sponsor_nonce) base_error) (
        and_then (refuse (is_undefined t.sponsor_expiry) base_error) (
          and_then (refuse (is_undefined t.sponsor_policy_hash) base_error) (
            and_then (refuse_some is_below_zero t.sponsor_nonce) (
              and_then (refuse_some is_not_positive t.sponsor_expiry)
                (refuse_some (λ h. not (is_hash h)) t.sponsor_policy_hash)))))))

-- What follows the base checks, for the transaction's sponsor.
unfoldable pub assert_sponsor : Option Text → TransactionSerializableNative → Checked (Unit {0})
assert_sponsor none t = assert_sponsor_fields_absent t
assert_sponsor (some sponsor) t = assert_sponsor_fields sponsor t

unfoldable pub assert_transaction_native : TransactionSerializableNative → Checked (Unit {0})
assert_transaction_native t = and_then (assert_transaction_base t) (assert_sponsor t.sponsor t)

unfoldable pub get_transaction_type : Option Text → Option Text → Option Text → Result Text
get_transaction_type type from signer_type =
    let native : Bool = elim type [ none ↦ false | some s ↦ text_eq s (codes "native") ] in
    if native || (not (is_undefined from) && not (is_undefined signer_type))
    then ok (codes "native")
    else err invalid_serializable_transaction

-- hex.replace(/^0x0+/, '0x')
unfoldable pub drop_zeros : Text → Text
drop_zeros [] = []
drop_zeros (c ∷ s) = if c == b'0' then drop_zeros s else c ∷ s

unfoldable pub strip_zeros : Text → Text
unfolding drop_zeros
strip_zeros hex_ =
    if starts_with prefix_0x hex_ then prefix_0x ++ drop_zeros (drop 2 hex_) else hex_

unfoldable pub rlp_hex : Text → Text
unfolding strip_zeros
rlp_hex hex_ =
    let stripped = strip_zeros hex_ in
    if text_eq hex_ prefix_0x
    then hex_
    else if text_eq stripped prefix_0x
    then prefix_0x ++ (b'0' ∷ [])
    else stripped

unfoldable pub to_minimal_quantity_hex : Option Numeric → Result Text
unfolding number_to_hex
to_minimal_quantity_hex none = ok prefix_0x
to_minimal_quantity_hex (some value) = number_to_hex value false none >>= λ s. ok (rlp_hex s)

-- `!value`: a number that is left out, or 0.
unfoldable pub to_optional_uint8_hex : Option ℤ → Result Text
unfolding number_to_hex
to_optional_uint8_hex none = ok prefix_0x
to_optional_uint8_hex (some (pos zero)) = ok prefix_0x
to_optional_uint8_hex (some value) = number_to_hex (number value) false none >>= λ s. ok (rlp_hex s)

pub record Signature : Type 0 where
  pub r : Text
  pub s : Text
  pub v : Option ℤ
  pub y_parity : Option ℤ

-- Signature | TransactionSignatureBundle | undefined, told apart by the field `execution`.
pub data SignatureInput : Type 0 where
  absent : SignatureInput
  single : Signature → SignatureInput
  bundle : Signature → Option Signature → SignatureInput

unfoldable pub execution_signature : SignatureInput → Option Signature
execution_signature absent = none
execution_signature (single s) = some s
execution_signature (bundle execution sponsor) = some execution

unfoldable pub sponsor_signature : SignatureInput → Option Signature
sponsor_signature absent = none
sponsor_signature (single s) = none
sponsor_signature (bundle execution sponsor) = sponsor

-- signature.v ?? BigInt(signature.yParity ?? 0)
unfoldable pub recovery : Signature → Numeric
recovery g = bigint (elim g.v [ some v ↦ v | none ↦ elim g.y_parity [ some y ↦ y | none ↦ pos 0 ] ])

unfoldable pub to_native_signature_array : Option Signature → Bool → Result (List Text)
to_native_signature_array none pad_absent =
    ok (if pad_absent then prefix_0x ∷ prefix_0x ∷ prefix_0x ∷ [] else [])
to_native_signature_array (some g) pad_absent =
    to_minimal_quantity_hex (some (recovery g)) >>= λ v. ok (v ∷ rlp_hex g.r ∷ rlp_hex g.s ∷ [])

-- `value ?? fallback`
unfoldable pub or_text : Option Text → Text → Text
or_text none fallback = fallback
or_text (some s) fallback = s

-- '0x' and 64 zeros: the zero address and the zero hash.
abbrev pub zero_word : Text
zero_word = prefix_0x ++ replicate 64 b'0'

-- Hex fields of an RLP list, in front of others.
unfoldable pub leaves : List Text → Elements → Elements
leaves [] rest = rest
leaves (s ∷ fields) rest = cons (leaf (hex s)) (leaves fields rest)

-- The array that serializeTransactionNative encodes; its elements are computed in order.
unfoldable pub serialized_transaction :
    TransactionSerializableNative → SignatureInput → Result RecursiveArray
serialized_transaction t signature = do
  chain_id ← to_minimal_quantity_hex (some t.chain_id)
  nonce ← to_minimal_quantity_hex (some t.nonce)
  gas ← to_minimal_quantity_hex (some t.gas)
  value ← to_minimal_quantity_hex (some t.value)
  sponsor_nonce ← to_minimal_quantity_hex t.sponsor_nonce
  sponsor_expiry ← to_minimal_quantity_hex t.sponsor_expiry
  terminal_class ← to_optional_uint8_hex t.terminal_class
  trust_tier ← to_optional_uint8_hex t.trust_tier
  execution ← to_native_signature_array (execution_signature signature) false
  sponsor ← to_native_signature_array (sponsor_signature signature) true
  let head =
      chain_id ∷ nonce ∷ gas ∷ or_text t.to prefix_0x ∷ value ∷ or_text t.data_ prefix_0x ∷ []
  let tail =
      t.from
      ∷ (prefix_0x ++ bytes_string (text_encode t.signer_type))
      ∷ or_text t.sponsor zero_word
      ∷ (prefix_0x ++ bytes_string (text_encode (or_text t.sponsor_signer_type [])))
      ∷ sponsor_nonce
      ∷ sponsor_expiry
      ∷ or_text t.sponsor_policy_hash zero_word
      ∷ terminal_class
      ∷ trust_tier
      ∷ (execution ++ sponsor)
  ok (array (leaves head (cons (array nil) (leaves tail nil))))

unfoldable pub serialize_transaction_native :
    TransactionSerializableNative → SignatureInput → Checked Text
serialize_transaction_native t signature cache =
    let checked = assert_transaction_native t cache in
    (
      checked.0 >>= λ _. serialized_transaction t signature >>= λ list.
          to_rlp_hex list >>= λ rlp. ok (concat_hex ((prefix_0x ++ (b'0' ∷ b'0' ∷ [])) ∷ rlp ∷ [])),
      checked.1,
    )

unfoldable pub serialize_transaction : TransactionSerializableNative → SignatureInput → Checked Text
serialize_transaction t signature cache =
    let type = get_transaction_type t.type (some t.from) (some t.signer_type) in
    elim type [
      | err e ↦ (err e, cache)
      | ok name ↦
          if text_eq name (codes "native")
          then serialize_transaction_native t signature cache
          else (err base_error, cache)
    ]
