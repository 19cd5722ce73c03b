-- ===== src/Transaction/Fields.antt =====
-- What serializeTransaction returns and when it throws.
use tosdk.Prelude.{
  ◌≡◌, refl, ap, ◌∙◌, inl, inr, arith, Bool, true, false, List, [], ◌∷◌, ◌++◌, some, none, Option,
  ℕ,
}
use tosdk.Prelude.Results.{Error, Result, ok, err, ◌>>=◌}
use tosdk.Strings.{Text, codes, prefix_0x, remove_0x}
use tosdk.Strings.Laws.{text_eq_refl}
use tosdk.Lru.{LruMap}
use tosdk.Address.Cached.{IsCoherent}
use tosdk.Data.{concat_hex}
use tosdk.Encoding.Hex.{bytes_string, bytes_to_hex}
use tosdk.Encoding.Rlp.{RecursiveArray, to_rlp_hex}
use tosdk.Encoding.Rlp.Layout.{layout}
use tosdk.Encoding.Rlp.Correct.{to_rlp-layout}
use tosdk.Transaction.{
  TransactionSerializableNative, SignatureInput, get_transaction_type, is_undefined,
  assert_transaction_native, serialized_transaction, serialize_transaction_native,
  serialize_transaction,
}
use tosdk.Transaction.Checks.{Result-cases, is_well_formed, assert_transaction_native_lem}

-- The type byte 0x00 and the RLP layout of the fields.
abbrev pub envelope : List ℕ → Text
envelope bs = prefix_0x ++ ((b'0' ∷ b'0' ∷ []) ++ bytes_string bs)

concat_hex-envelope :
    (bs : List ℕ)
    → concat_hex ((prefix_0x ++ (b'0' ∷ b'0' ∷ [])) ∷ (prefix_0x ++ bytes_string bs) ∷ [])
      ≡ envelope bs
unfolding concat_hex remove_0x
concat_hex-envelope bs = refl

to_rlp_hex-layout :
    (x : RecursiveArray) → to_rlp_hex x ≡ (layout x >>= λ bs. ok (prefix_0x ++ bytes_string bs))
unfolding to_rlp_hex bytes_to_hex
to_rlp_hex-layout x = ap (λ r. r >>= λ bs. ok (prefix_0x ++ bytes_string bs)) (to_rlp-layout x)

glued :
    (r : Result (List ℕ))
    → ((r >>= λ bs. ok (prefix_0x ++ bytes_string bs)) >>= λ rlp.
        ok (concat_hex ((prefix_0x ++ (b'0' ∷ b'0' ∷ [])) ∷ rlp ∷ [])))
      ≡ (r >>= λ bs. ok (envelope bs))
glued (ok bs) = ap ok (concat_hex-envelope bs)
glued (err e) = refl

-- What follows the checks.
abbrev encode_fields : Result RecursiveArray → Result Text
encode_fields r = r >>= λ list.
    to_rlp_hex list >>= λ rlp. ok (concat_hex ((prefix_0x ++ (b'0' ∷ b'0' ∷ [])) ∷ rlp ∷ []))

-- The code and the layout of the fields.
abbrev pub laid_out : Result RecursiveArray → Result Text
laid_out r = r >>= λ list. layout list >>= λ bs. ok (envelope bs)

encode_fields_lem : (r : Result RecursiveArray) → encode_fields r ≡ laid_out r
encode_fields_lem (err e) = refl
encode_fields_lem (ok x) =
    ap (λ r. r >>= λ rlp. ok (concat_hex ((prefix_0x ++ (b'0' ∷ b'0' ∷ [])) ∷ rlp ∷ [])))
      (to_rlp_hex-layout x)
    ∙ glued (layout x)

get_transaction_type-native :
    (type : Option Text) (from signer_type : Text)
    → get_transaction_type type (some from) (some signer_type) ≡ ok (codes "native")
unfolding get_transaction_type is_undefined
get_transaction_type-native none f s = refl
get_transaction_type-native (some type) f s = ground arith

serialize_transaction-native :
    (t : TransactionSerializableNative) (signature : SignatureInput) (cache : LruMap Bool)
    → serialize_transaction t signature cache ≡ serialize_transaction_native t signature cache
unfolding serialize_transaction
serialize_transaction-native t signature cache =
    rw
      (
        serialize_transaction,
        get_transaction_type-native t.type t.from t.signer_type,
        text_eq_refl (codes "native"),
      )
      refl

serialize_transaction_native_lem :
    (t : TransactionSerializableNative) (signature : SignatureInput) (cache : LruMap Bool)
    → IsCoherent cache
    → IsCoherent (serialize_transaction_native t signature cache).1
      × (is_well_formed t ≡ true
          → (serialize_transaction_native t signature cache).0
            ≡ laid_out (serialized_transaction t signature))
      × (is_well_formed t ≡ false
          → (e : Error) × ((serialize_transaction_native t signature cache).0 ≡ err e))
unfolding serialize_transaction_native
serialize_transaction_native_lem t signature cache w =
    let a = assert_transaction_native_lem t cache w in
    let rest : Result (Unit {0}) → Result Text =
      λ r. r >>= λ _. encode_fields (serialized_transaction t signature) in
    (
      a.0,
      λ h. ap rest (a.1.1 h) ∙ encode_fields_lem (serialized_transaction t signature),
      λ h. elim (Result-cases (assert_transaction_native t cache).0) [
        | inl k ↦ absurd (ground (arith, h, a.1.0 k))
        | inr (e, k) ↦ (e, ap rest k)
      ],
    )

-- With a cache of right answers, a well-formed transaction becomes the byte 0x00 and the RLP layout of its fields, or the exception that a field or a length raises; any other is refused. The cache stays right.
pub serialize_transaction_lem :
    (t : TransactionSerializableNative) (signature : SignatureInput) (cache : LruMap Bool)
    → IsCoherent cache
    → IsCoherent (serialize_transaction t signature cache).1
      × (is_well_formed t ≡ true
          → (serialize_transaction t signature cache).0
            ≡ laid_out (serialized_transaction t signature))
      × (is_well_formed t ≡ false
          → (e : Error) × ((serialize_transaction t signature cache).0 ≡ err e))
serialize_transaction_lem t signature cache w =
    rw (serialize_transaction-native t signature cache)
      (serialize_transaction_native_lem t signature cache w)
