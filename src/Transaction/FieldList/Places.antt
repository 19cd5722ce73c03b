-- ===== src/Transaction/FieldList/Places.antt =====
-- Each field of a serialized transaction stands at its place (serializeTransaction.ts).
use tosdk.Prelude.{
  ℕ, ◌≡◌, refl, sym, inl, inr, true, false, List, [], ◌∷◌, ◌++◌, append-nil, Option, none, some,
  Bool,
}
use tosdk.Prelude.Results.{Error, Result, ok, err, ◌>>=◌}
use tosdk.Strings.{Text, prefix_0x}
use mathlib.Core.Path.{subst}
use tosdk.Arrays.{Member}
use tosdk.Lru.{LruMap}
use tosdk.Address.Cached.{IsCoherent}
use tosdk.Data.{hex}
use tosdk.Encoding.Rlp.{RecursiveArray, Elements, leaf, array, nil, cons}
use tosdk.Encoding.Rlp.Layout.{layout}
use tosdk.Transaction.{
  TransactionSerializableNative, SignatureInput, to_minimal_quantity_hex, to_optional_uint8_hex,
  to_native_signature_array, execution_signature, sponsor_signature, zero_word, or_text, leaves,
  serialized_transaction, serialize_transaction,
}
use tosdk.Transaction.Checks.{is_well_formed}
use tosdk.Transaction.Fields.{envelope, laid_out, serialize_transaction_lem}
use tosdk.Transaction.FieldList.{
  nth, behind, IsHexOr, HasSignatures, IsFieldList, recoveries, numbers, encoded_text, IsSerialized,
}
use tosdk.Transaction.FieldList.Signatures.{
  leaves-append, signatures_lem, recovery-Member, Member-behind,
}

IsHexOr_lem :
    (t : Option Text) (otherwise : Text)
    → IsHexOr t otherwise (some (leaf (hex (or_text t otherwise))))
unfolding or_text
IsHexOr_lem none otherwise = refl
IsHexOr_lem (some t) otherwise = refl

-- The array from the hex of its numbers and its signatures.
abbrev assembled :
    TransactionSerializableNative
    → Result Text
    → Result Text
    → Result Text
    → Result Text
    → Result Text
    → Result Text
    → Result Text
    → Result Text
    → Result (List Text)
    → Result (List Text)
    → Result RecursiveArray
assembled t c n g v sn se tc tt_ ex sp = do
  chain_id ← c
  nonce ← n
  gas ← g
  value ← v
  sponsor_nonce ← sn
  sponsor_expiry ← se
  terminal_class ← tc
  trust_tier ← tt_
  execution ← ex
  sponsor ← sp
  ok (
      array (
        leaves
          (chain_id ∷ nonce ∷ gas ∷ or_text t.to prefix_0x ∷ value ∷ or_text t.data_ prefix_0x ∷ [])
          (cons (array nil) (
            leaves
              (t.from
                ∷ encoded_text t.signer_type
                ∷ or_text t.sponsor zero_word
                ∷ encoded_text (or_text t.sponsor_signer_type [])
                ∷ sponsor_nonce
                ∷ sponsor_expiry
                ∷ or_text t.sponsor_policy_hash zero_word
                ∷ terminal_class
                ∷ trust_tier
                ∷ (execution ++ sponsor))
              nil))))

-- An array with each field at its place, or the exception of a number.
abbrev IsMade : TransactionSerializableNative → SignatureInput → Result RecursiveArray → Type 0
IsMade t signature (ok list) = (xs : Elements) × (list ≡ array xs) × IsFieldList t signature xs
IsMade t signature (err e) = Member (err e) (numbers t signature)

module _ (t : TransactionSerializableNative) (signature : SignatureInput) where
  assembled-IsMade :
      (c n g v sn se tc tt_ : Result Text) (ex sp : Result (List Text))
      → to_minimal_quantity_hex (some t.chain_id) ≡ c
      → to_minimal_quantity_hex (some t.nonce) ≡ n
      → to_minimal_quantity_hex (some t.gas) ≡ g
      → to_minimal_quantity_hex (some t.value) ≡ v
      → to_minimal_quantity_hex t.sponsor_nonce ≡ sn
      → to_minimal_quantity_hex t.sponsor_expiry ≡ se
      → to_optional_uint8_hex t.terminal_class ≡ tc
      → to_optional_uint8_hex t.trust_tier ≡ tt_
      → to_native_signature_array (execution_signature signature) false ≡ ex
      → to_native_signature_array (sponsor_signature signature) true ≡ sp
      → IsMade t signature (assembled t c n g v sn se tc tt_ ex sp)
  unfolding leaves nth behind
  assembled-IsMade (err e) n g v sn se tc tt_ ex sp p0 p1 p2 p3 p4 p5 p6 p7 p8 p9 = inl (sym p0)
  assembled-IsMade (ok c) (err e) g v sn se tc tt_ ex sp p0 p1 p2 p3 p4 p5 p6 p7 p8 p9 =
      inr (inl (sym p1))
  assembled-IsMade (ok c) (ok n) (err e) v sn se tc tt_ ex sp p0 p1 p2 p3 p4 p5 p6 p7 p8 p9 =
      inr (inr (inl (sym p2)))
  assembled-IsMade (ok c) (ok n) (ok g) (err e) sn se tc tt_ ex sp p0 p1 p2 p3 p4 p5 p6 p7 p8 p9 =
      inr (inr (inr (inl (sym p3))))
  assembled-IsMade (ok c) (ok n) (ok g) (ok v) (err e) se tc tt_ ex sp p0 p1 p2 p3 p4 p5 p6 p7 p8
        p9 =
      inr (inr (inr (inr (inl (sym p4)))))
  assembled-IsMade (ok c) (ok n) (ok g) (ok v) (ok sn) (err e) tc tt_ ex sp p0 p1 p2 p3 p4 p5 p6 p7
        p8 p9 =
      inr (inr (inr (inr (inr (inl (sym p5))))))
  assembled-IsMade (ok c) (ok n) (ok g) (ok v) (ok sn) (ok se) (err e) tt_ ex sp p0 p1 p2 p3 p4 p5
        p6 p7 p8 p9 =
      inr (inr (inr (inr (inr (inr (inl (sym p6)))))))
  assembled-IsMade (ok c) (ok n) (ok g) (ok v) (ok sn) (ok se) (ok tc) (err e) ex sp p0 p1 p2 p3 p4
        p5 p6 p7 p8 p9 =
      inr (inr (inr (inr (inr (inr (inr (inl (sym p7))))))))
  assembled-IsMade (ok c) (ok n) (ok g) (ok v) (ok sn) (ok se) (ok tc) (ok tt_) (err e) sp p0 p1 p2
        p3 p4 p5 p6 p7 p8 p9 =
      let m =
        recovery-Member (execution_signature signature) false e
          (recoveries (sponsor_signature signature)) p8 in
      inr (inr (inr (inr (inr (inr (inr (inr m)))))))
  assembled-IsMade (ok c) (ok n) (ok g) (ok v) (ok sn) (ok se) (ok tc) (ok tt_) (ok ex) (err e) p0
        p1 p2 p3 p4 p5 p6 p7 p8 p9 =
      let m =
        Member-behind (execution_signature signature) e (recoveries (sponsor_signature signature)) (
          subst (Member (err e)) (append-nil (recoveries (sponsor_signature signature)))
            (recovery-Member (sponsor_signature signature) true e [] p9)) in
      inr (inr (inr (inr (inr (inr (inr (inr m)))))))
  assembled-IsMade (ok c) (ok n) (ok g) (ok v) (ok sn) (ok se) (ok tc) (ok tt_) (ok ex) (ok sp) p0
        p1 p2 p3 p4 p5 p6 p7 p8 p9 =
      (
        _,
        refl,
        record {
          chain_id = (c, p0, refl);
          nonce = (n, p1, refl);
          gas = (g, p2, refl);
          to = IsHexOr_lem t.to prefix_0x;
          value = (v, p3, refl);
          data_ = IsHexOr_lem t.data_ prefix_0x;
          access_list = refl;
          from = refl;
          signer_type = refl;
          sponsor = IsHexOr_lem t.sponsor zero_word;
          sponsor_signer_type = refl;
          sponsor_nonce = (sn, p4, refl);
          sponsor_expiry = (se, p5, refl);
          sponsor_policy_hash = IsHexOr_lem t.sponsor_policy_hash zero_word;
          terminal_class = (tc, p6, refl);
          trust_tier = (tt_, p7, refl);
          signatures =
              subst (HasSignatures signature) (sym (leaves-append ex sp nil))
                (signatures_lem signature ex sp p8 p9);
        },
      )

  serialized_transaction-IsMade : IsMade t signature (serialized_transaction t signature)
  unfolding serialized_transaction
  serialized_transaction-IsMade =
      assembled-IsMade _ _ _ _ _ _ _ _ _ _ refl refl refl refl refl refl refl refl refl refl

  laid :
      (xs : Elements) (r : Result (List ℕ))
      → layout (array xs) ≡ r
      → IsFieldList t signature xs
      → IsSerialized t signature (r >>= λ bs. ok (envelope bs))
  laid xs (ok bs) e h = (xs, bs, h, e, refl)
  laid xs (err x) e h = inr (xs, h, e)

  laid_out-IsSerialized :
      (r : Result RecursiveArray) → IsMade t signature r → IsSerialized t signature (laid_out r)
  laid_out-IsSerialized (ok list) (xs, e, h) =
      subst (λ l. IsSerialized t signature (layout l >>= λ bs. ok (envelope bs))) (sym e)
        (laid xs (layout (array xs)) refl h)
  laid_out-IsSerialized (err e) m = inl m

-- With a cache of right answers: a well-formed transaction becomes the byte 0x00 and the RLP layout of
-- an array that has each of its fields, the empty access list and the signatures at their places, the
-- numbers as minimal hex, and a default where a field may be left out; or the exception of such a
-- number or of the layout. Any other transaction is refused. The cache stays right.
pub serialize_transaction_places :
    (t : TransactionSerializableNative) (signature : SignatureInput) (cache : LruMap Bool)
    → IsCoherent cache
    → IsCoherent (serialize_transaction t signature cache).1
      × (is_well_formed t ≡ true
          → IsSerialized t signature (serialize_transaction t signature cache).0)
      × (is_well_formed t ≡ false
          → (e : Error) × ((serialize_transaction t signature cache).0 ≡ err e))
serialize_transaction_places t signature cache w =
    let lem = serialize_transaction_lem t signature cache w in
    (
      lem.0,
      λ formed. subst (IsSerialized t signature) (sym (lem.1 formed)) (
          laid_out-IsSerialized t signature (serialized_transaction t signature)
            (serialized_transaction-IsMade t signature)),
      lem.2,
    )
