-- ===== src/Transaction/FieldList.antt =====
-- The place of each field in a serialized transaction (serializeTransaction.ts).
use tosdk.Prelude.{ℕ, zero, suc, ℤ, pos, ◌≡◌, ◌⊎◌, List, [], ◌∷◌, ◌++◌, Option, none, some}
use tosdk.Prelude.Results.{Result, ok, err}
use tosdk.Strings.{Text, prefix_0x, text_encode}
use tosdk.Arrays.{Member}
use tosdk.Data.{hex}
use tosdk.Encoding.Hex.{Numeric, bigint, bytes_string}
use tosdk.Encoding.Rlp.{RecursiveArray, Elements, leaf, array, nil, cons}
use tosdk.Encoding.Rlp.Layout.{layout}
use tosdk.Transaction.{
  TransactionSerializableNative, Signature, SignatureInput, absent, single, bundle, recovery,
  rlp_hex, to_minimal_quantity_hex, to_optional_uint8_hex, execution_signature, sponsor_signature,
  zero_word, or_text,
}
use tosdk.Transaction.Fields.{envelope}
pub mod Signatures
pub mod Places

-- The element at a place of an array, and what is behind its first elements.
unfoldable pub nth : ℕ → Elements → Option RecursiveArray
nth n nil = none
nth zero (cons x xs) = some x
nth (suc n) (cons x xs) = nth n xs

unfoldable pub behind : ℕ → Elements → Elements
behind zero xs = xs
behind (suc n) nil = nil
behind (suc n) (cons x xs) = behind n xs

abbrev pub IsHex : Text → Option RecursiveArray → Type 0
IsHex t e = e ≡ some (leaf (hex t))

-- A text, or what stands for one that is left out.
abbrev pub IsHexOr : Option Text → Text → Option RecursiveArray → Type 0
IsHexOr none otherwise e = IsHex otherwise e
IsHexOr (some t) otherwise e = IsHex t e

abbrev pub IsQuantity : Option Numeric → Option RecursiveArray → Type 0
IsQuantity n e = (t : Text) × (to_minimal_quantity_hex n ≡ ok t) × IsHex t e

abbrev pub IsUint8 : Option ℤ → Option RecursiveArray → Type 0
IsUint8 n e = (t : Text) × (to_optional_uint8_hex n ≡ ok t) × IsHex t e

-- A text in UTF-8, as hex.
abbrev pub encoded_text : Text → Text
encoded_text t = prefix_0x ++ bytes_string (text_encode t)

-- v, or without it the parity of y, or 0.
abbrev pub IsRecovery : Signature → ℤ → Type 0
IsRecovery g n =
    (g.v ≡ some n) ⊎ ((g.v ≡ none) × ((g.y_parity ≡ some n) ⊎ ((g.y_parity ≡ none) × (n ≡ pos 0))))

-- The recovery, r and s of a signature, and what is behind them.
abbrev pub IsSignatureThen : Signature → Elements → Elements → Type 0
IsSignatureThen g xs rest =
    (n : ℤ) × IsRecovery g n
    × ((v : Text) × (to_minimal_quantity_hex (some (bigint n)) ≡ ok v)
        × (xs
            ≡ cons (leaf (hex v))
                (cons (leaf (hex (rlp_hex g.r))) (cons (leaf (hex (rlp_hex g.s))) rest))))

-- What stands for a sponsor's signature that is left out.
abbrev pub no_signature : Elements
no_signature =
    cons (leaf (hex prefix_0x)) (cons (leaf (hex prefix_0x)) (cons (leaf (hex prefix_0x)) nil))

abbrev pub HasSignatures : SignatureInput → Elements → Type 0
HasSignatures absent xs = xs ≡ no_signature
HasSignatures (single g) xs = IsSignatureThen g xs no_signature
HasSignatures (bundle g none) xs = IsSignatureThen g xs no_signature
HasSignatures (bundle g (some h)) xs =
    (rest : Elements) × IsSignatureThen g xs rest × IsSignatureThen h rest nil

-- The array of a transaction, place by place.
pub record IsFieldList (t : TransactionSerializableNative) (signature : SignatureInput)
    (xs : Elements) : Type 0 where
  pub chain_id : IsQuantity (some t.chain_id) (nth 0 xs)
  pub nonce : IsQuantity (some t.nonce) (nth 1 xs)
  pub gas : IsQuantity (some t.gas) (nth 2 xs)
  pub to : IsHexOr t.to prefix_0x (nth 3 xs)
  pub value : IsQuantity (some t.value) (nth 4 xs)
  pub data_ : IsHexOr t.data_ prefix_0x (nth 5 xs)
  pub access_list : nth 6 xs ≡ some (array nil)
  pub from : IsHex t.from (nth 7 xs)
  pub signer_type : IsHex (encoded_text t.signer_type) (nth 8 xs)
  pub sponsor : IsHexOr t.sponsor zero_word (nth 9 xs)
  pub sponsor_signer_type : IsHex (encoded_text (or_text t.sponsor_signer_type [])) (nth 10 xs)
  pub sponsor_nonce : IsQuantity t.sponsor_nonce (nth 11 xs)
  pub sponsor_expiry : IsQuantity t.sponsor_expiry (nth 12 xs)
  pub sponsor_policy_hash : IsHexOr t.sponsor_policy_hash zero_word (nth 13 xs)
  pub terminal_class : IsUint8 t.terminal_class (nth 14 xs)
  pub trust_tier : IsUint8 t.trust_tier (nth 15 xs)
  pub signatures : HasSignatures signature (behind 16 xs)

-- The hex of a signature's recovery.
abbrev pub recoveries : Option Signature → List (Result Text)
recoveries none = []
recoveries (some g) = to_minimal_quantity_hex (some (recovery g)) ∷ []

-- The hex of the numbers of a transaction and its signatures, or the exceptions in their place.
abbrev pub numbers : TransactionSerializableNative → SignatureInput → List (Result Text)
numbers t signature =
    to_minimal_quantity_hex (some t.chain_id)
    ∷ to_minimal_quantity_hex (some t.nonce)
    ∷ to_minimal_quantity_hex (some t.gas)
    ∷ to_minimal_quantity_hex (some t.value)
    ∷ to_minimal_quantity_hex t.sponsor_nonce
    ∷ to_minimal_quantity_hex t.sponsor_expiry
    ∷ to_optional_uint8_hex t.terminal_class
    ∷ to_optional_uint8_hex t.trust_tier
    ∷ (recoveries (execution_signature signature) ++ recoveries (sponsor_signature signature))

-- What the serialization of a well-formed transaction is: its bytes are 0x00 and the RLP layout of the
-- fields, each at its place; or the exception of a number, or of the layout.
abbrev pub IsSerialized : TransactionSerializableNative → SignatureInput → Result Text → Type 0
IsSerialized t signature (ok text) =
    (xs : Elements) × (bs : List ℕ) × IsFieldList t signature xs
    × (layout (array xs) ≡ ok bs)
    × (text ≡ envelope bs)
IsSerialized t signature (err e) =
    Member (err e) (numbers t signature)
    ⊎ ((xs : Elements) × IsFieldList t signature xs × (layout (array xs) ≡ err e))
