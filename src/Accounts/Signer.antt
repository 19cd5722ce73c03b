-- ===== src/Accounts/Signer.antt =====
-- Signing, verifying and the address of a public key, for every type of signer (nativeSigner.ts).
use tosdk.Prelude.{ℕ, Bool, List, [], ◌∷◌, Option, none, some, drop}
use tosdk.Prelude.Results.{Result, ok, err, ◌>>=◌}
use tosdk.Strings.{Text, codes}
use tosdk.Data.{HexOrBytes, concat_bytes}
use tosdk.Encoding.Hex.{bytes_to_hex, hex_to_bytes}
use tosdk.Address.{Caches, get_address}
use tosdk.Transaction.{Signature}
use tosdk.Surfaces.Client.{await_step}
use tosdk.Clients.Packages.{keccak256}
use tosdk.Accounts.SignerType.{
  SignerType, secp256k1, secp256r1, ed25519, bls12_381, elgamal, normalize_signer_type,
}
use tosdk.Accounts.Signatures.{
  SignatureForm, bytes_form, hex_form, record_form, raw_bytes_to_signature, raw_bytes_of,
  signature_to_canonical_bytes, signature_to_canonical_hex,
}
use tosdk.Accounts.Elgamal.{Ristretto, Signing, sign_elgamal, verify_elgamal}

-- Hex | boolean, and what of it the curve is handed.
pub data HexOrFlag : Type 0 where
  hex_entropy : Text → HexOrFlag
  flag : Bool → HexOrFlag

pub data ExtraEntropy : Type 0 where
  entropy : List ℕ → ExtraEntropy
  entropy_flag : Bool → ExtraEntropy

-- The curves but ristretto255: signing and verifying, which may throw, and points of the two curves
-- that have compressed ones. `sign_secp256k1` answers the compact bytes and the recovery.
pub record Curves : Type 0 where
  pub sign_secp256k1 : List ℕ → List ℕ → Option ExtraEntropy → Result (List ℕ × Option ℕ)
  pub sign_secp256r1 : List ℕ → List ℕ → Result (List ℕ)
  pub sign_ed25519 : List ℕ → List ℕ → Result (List ℕ)
  pub sign_bls12_381 : List ℕ → List ℕ → Text → Result (List ℕ)
  pub verify_secp256k1 : List ℕ → List ℕ → List ℕ → Result Bool
  pub verify_secp256r1 : List ℕ → List ℕ → List ℕ → Result Bool
  pub verify_ed25519 : List ℕ → List ℕ → List ℕ → Result Bool
  pub verify_bls12_381 : List ℕ → List ℕ → List ℕ → Text → Result Bool
  pub uncompressed_secp256k1 : List ℕ → Result (List ℕ)
  pub uncompressed_secp256r1 : List ℕ → Result (List ℕ)

abbrev bls_signature_dst : Text
bls_signature_dst = codes "GTOS_BLS_SIG_BLS12381G2_XMD:SHA-256_SSWU_RO_"

-- What `to` asks signHash for.
pub data To : Type 0 where
  to_object to_bytes to_hex : To

-- signature.recovery || 0
unfoldable pub or_zero : Option ℕ → ℕ
or_zero none = 0
or_zero (some n) = n

-- The extra entropy with its hex read.
unfoldable pub entropy_bytes : Option HexOrFlag → Result (Option ExtraEntropy)
unfolding hex_to_bytes
entropy_bytes none = ok none
entropy_bytes (some (flag b)) = ok (some (entropy_flag b))
entropy_bytes (some (hex_entropy t)) = hex_to_bytes t none >>= λ bs. ok (some (entropy bs))

unfoldable pub sign_secp256k1_hash : Curves → List ℕ → List ℕ → Option HexOrFlag → Result (List ℕ)
unfolding entropy_bytes or_zero concat_bytes
sign_secp256k1_hash curves hash private_key extra_entropy = do
  extra ← entropy_bytes extra_entropy
  signature ← curves.sign_secp256k1 hash private_key extra
  ok (concat_bytes (signature.0 ∷ (or_zero signature.1 ∷ []) ∷ []))

-- The signature in the form that `to` asks for.
unfoldable pub in_form : To → Signature → SignerType → Result SignatureForm
unfolding signature_to_canonical_bytes signature_to_canonical_hex
in_form to_object g type = ok (record_form g)
in_form to_bytes g type = signature_to_canonical_bytes g type >>= λ bs. ok (bytes_form bs)
in_form to_hex g type = signature_to_canonical_hex g type >>= λ t. ok (hex_form t)

module _ {W Point Scalar : Type 0} (curves : Curves) (group : Ristretto Point Scalar)
    (sha3_512 : List ℕ → List ℕ) (get_random_values : ℕ → W → List ℕ × W) where
  -- Code that may sign over ristretto255.
  abbrev pub Run : Type 0 → Type 0
  Run A = Signing group sha3_512 get_random_values A

  abbrev plain : {A : Type 0} → Result A → Run A
  plain r s = (r, s)

  -- The raw signature by the type; `f` is the fuel of the draws of a scalar.
  unfoldable pub raw_signature : ℕ → SignerType → List ℕ → List ℕ → Option HexOrFlag → Run (List ℕ)
  unfolding sign_secp256k1_hash sign_elgamal
  raw_signature f secp256k1 hash key extra = plain (sign_secp256k1_hash curves hash key extra)
  raw_signature f secp256r1 hash key extra = plain (curves.sign_secp256r1 hash key)
  raw_signature f ed25519 hash key extra = plain (curves.sign_ed25519 hash key)
  raw_signature f bls12_381 hash key extra =
      plain (curves.sign_bls12_381 hash key bls_signature_dst)
  raw_signature f elgamal hash key extra = sign_elgamal group sha3_512 get_random_values f hash key

  -- The type, the bytes of the hash and those of the key.
  unfoldable pub read_arguments : Option Text → Text → Text → Result (SignerType × List ℕ × List ℕ)
  unfolding normalize_signer_type hex_to_bytes
  read_arguments signer_type hash key = do
    type ← normalize_signer_type signer_type
    hash_bytes ← hex_to_bytes hash none
    key_bytes ← hex_to_bytes key none
    ok (type, hash_bytes, key_bytes)

  unfoldable pub sign_hash :
      ℕ → Text → Text → Option Text → To → Option HexOrFlag → Run SignatureForm
  unfolding read_arguments raw_signature raw_bytes_to_signature in_form
  sign_hash f hash private_key signer_type to extra s =
      await_step (plain (read_arguments signer_type hash private_key) s) (λ arguments. λ t.
        await_step (raw_signature f arguments.0 arguments.1 arguments.2 extra t)
          (λ raw u. (raw_bytes_to_signature raw arguments.0 >>= λ g. in_form to g arguments.0, u)))

  unfoldable pub verify_raw : SignerType → List ℕ → List ℕ → List ℕ → Run Bool
  unfolding verify_elgamal
  verify_raw secp256k1 hash key sig = plain (curves.verify_secp256k1 sig hash key)
  verify_raw secp256r1 hash key sig = plain (curves.verify_secp256r1 sig hash key)
  verify_raw ed25519 hash key sig = plain (curves.verify_ed25519 sig hash key)
  verify_raw bls12_381 hash key sig = plain (curves.verify_bls12_381 sig hash key bls_signature_dst)
  verify_raw elgamal hash key sig = verify_elgamal group sha3_512 get_random_values hash key sig

  unfoldable pub verify_hash_signature : Text → Text → Option Text → SignatureForm → Run Bool
  unfolding read_arguments raw_bytes_of verify_raw
  verify_hash_signature hash public_key signer_type signature s =
      await_step (plain (read_arguments signer_type hash public_key) s) (λ arguments t.
        await_step (plain (raw_bytes_of signature arguments.0) t)
          (λ sig. verify_raw arguments.0 arguments.1 arguments.2 sig))

-- What is hashed for an address: the coordinates of a point, or the key itself.
unfoldable pub hash_input : Curves → SignerType → List ℕ → Result Text
unfolding bytes_to_hex
hash_input curves secp256k1 key =
    curves.uncompressed_secp256k1 key >>= λ point. bytes_to_hex (drop 1 point) none
hash_input curves secp256r1 key =
    curves.uncompressed_secp256r1 key >>= λ point. bytes_to_hex (drop 1 point) none
hash_input curves ed25519 key = bytes_to_hex key none
hash_input curves bls12_381 key = bytes_to_hex key none
hash_input curves elgamal key = bytes_to_hex key none

module _ (curves : Curves) (keccak_256 : HexOrBytes → List ℕ) where
  unfoldable pub key_digest : Text → Option Text → Result Text
  unfolding normalize_signer_type hex_to_bytes hash_input keccak256
  key_digest public_key signer_type = do
    type ← normalize_signer_type signer_type
    key ← hex_to_bytes public_key none
    input ← hash_input curves type key
    keccak256 keccak_256 input

  unfoldable pub public_key_to_native_address : Text → Option Text → Caches → Result Text × Caches
  unfolding key_digest
  public_key_to_native_address public_key signer_type caches =
      elim (key_digest public_key signer_type) [
        | err e ↦ (err e, caches)
        | ok digest ↦ get_address digest none caches
      ]
