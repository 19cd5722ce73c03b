-- ===== src/Accounts/SignerType.antt =====
-- The types of signer (nativeSigner.ts).
use tosdk.Prelude.{ℕ, [], ◌∷◌, Option, none, some, if◌then◌else◌}
use mathlib.Core.List.{reverse}
use tosdk.Prelude.Results.{Result, ok, err, plain_error}
use tosdk.Strings.{Text, codes, text_eq, to_lower_case, is_space}
use tosdk.Surfaces.Preferences.{truthy_text}

pub data SignerType : Type 0 where
  secp256k1 secp256r1 ed25519 bls12_381 elgamal : SignerType

unfoldable pub drop_spaces : Text → Text
drop_spaces [] = []
drop_spaces (c ∷ s) = let rest = drop_spaces s in if is_space c then rest else c ∷ s

-- value.trim()
unfoldable pub trim : Text → Text
unfolding drop_spaces
trim s = reverse (drop_spaces (reverse (drop_spaces s)))

-- value || 'secp256k1'
unfoldable pub or_secp256k1 : Option Text → Text
or_secp256k1 value = elim (truthy_text value) [ none ↦ codes "secp256k1" | some t ↦ t ]

-- The type of a name that is trimmed and in lower case.
unfoldable pub type_of_name : Text → Result SignerType
type_of_name name =
    if text_eq name (codes "ethereum_secp256k1")
    then ok secp256k1
    else if text_eq name (codes "bls12381")
    then ok bls12_381
    else if text_eq name (codes "secp256k1")
    then ok secp256k1
    else if text_eq name (codes "secp256r1")
    then ok secp256r1
    else if text_eq name (codes "ed25519")
    then ok ed25519
    else if text_eq name (codes "bls12-381")
    then ok bls12_381
    else if text_eq name (codes "elgamal")
    then ok elgamal
    else err plain_error

unfoldable pub normalize_signer_type : Option Text → Result SignerType
unfolding trim or_secp256k1 type_of_name
normalize_signer_type value = type_of_name (to_lower_case (trim (or_secp256k1 value)))

-- The bytes of one of the two parts of a signature.
unfoldable pub part_length : SignerType → ℕ
part_length bls12_381 = 48
part_length secp256k1 = 32
part_length secp256r1 = 32
part_length ed25519 = 32
part_length elgamal = 32
