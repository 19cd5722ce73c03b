-- ===== src/Accounts/Tests.antt =====
-- Signatures over a small group, and their bytes (nativeSigner.ts).
use tosdk.Prelude.{
  ℕ, ◌+◌, ◌≡◌, refl, arith, true, List, [], ◌∷◌, ◌++◌, Option, none, some, replicate,
}
use tosdk.Prelude.Results.{ok}
use tosdk.Strings.{codes, text_eq, to_lower_case, is_space}
use tosdk.Surfaces.Preferences.{truthy_text}
use tosdk.Encoding.Hex.Bytes.{AllBytes}
use tosdk.Accounts.SignerType.{secp256k1, bls12_381, part_length, normalize_signer_type}
use tosdk.Accounts.Signatures.{raw_bytes_to_signature}
use tosdk.Accounts.RoundTrip.{IsRead, raw_bytes_to_signature_lem}
use tosdk.Accounts.Elgamal.{
  random_elgamal_scalar, elgamal_public_key_from_private_key, sign_elgamal, verify_elgamal,
  bytes_to_big_int_le, random_bytes, elgamal_hash_to_scalar,
}
use tosdk.Accounts.Fixtures.{F3, f1, word3, act3, group3, group3-IsGroup}
use tosdk.Accounts.Elgamal.Verified.{verify_elgamal-sign_elgamal}

-- Random bytes that are the number of the draw.
abbrev counted : ℕ → ℕ → List ℕ × ℕ
counted n w = (w ∷ replicate 63 0, w + 1)

abbrev hashed : List ℕ → List ℕ
hashed bs = 1 ∷ []

drawn : random_elgamal_scalar group3 hashed counted 5 (3, none) ≡ (ok f1, (5, none))
unfolding random_elgamal_scalar random_bytes bytes_to_big_int_le
drawn = refl

verify_elgamal-sign_elgamal_example :
    (signature : List ℕ) × (public_key : List ℕ) × (u : ℕ × Option F3) × (sign_elgamal group3 hashed
        counted 5
        (7 ∷ [])
        (word3 f1)
        (3, none)
      ≡ (ok signature, u))
    × (elgamal_public_key_from_private_key group3 hashed counted (word3 f1) u ≡ (ok public_key, u))
    × (verify_elgamal group3 hashed counted (7 ∷ []) public_key signature u ≡ (ok true, u))
unfolding elgamal_hash_to_scalar bytes_to_big_int_le
verify_elgamal-sign_elgamal_example =
    verify_elgamal-sign_elgamal group3 hashed counted act3 group3-IsGroup 5 (7 ∷ []) f1 f1 (3, none)
      (5, none) refl drawn refl refl

ones-AllBytes : AllBytes (replicate 32 1)
ones-AllBytes = omega arith

raw_bytes_to_signature_lem_example :
    IsRead secp256k1
      (replicate 32 1)
      (replicate 32 1)
      (28 ∷ [])
      (raw_bytes_to_signature (replicate 32 1 ++ (replicate 32 1 ++ (28 ∷ []))) secp256k1)
unfolding part_length
raw_bytes_to_signature_lem_example =
    raw_bytes_to_signature_lem secp256k1 (replicate 32 1) (replicate 32 1) (28 ∷ []) ones-AllBytes
      ones-AllBytes refl refl tt

-- Spaces and case do not matter to the name of a type.
spelled_type : normalize_signer_type (some (codes " BLS12381 ")) ≡ ok bls12_381
unfolding normalize_signer_type text_eq to_lower_case truthy_text is_space
spelled_type = refl
