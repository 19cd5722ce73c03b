-- ===== src/Accounts/Signatures.antt =====
-- Signatures as bytes and as records of two hex strings (nativeSigner.ts).
use tosdk.Prelude.{
  ℕ, ◌-◌, ◌%◌, ℤ, pos, negsuc, Bool, true, false, ◌&&◌, ◌||◌, not, List, [], ◌∷◌, Option, none,
  some, ◌==◌, if◌then◌else◌, length, take, drop,
}
use tosdk.Prelude.Results.{Result, ok, err, ◌>>=◌, plain_error}
use tosdk.Strings.{Text}
use tosdk.Data.{left, pad_bytes, concat_bytes}
use tosdk.Encoding.Hex.{bytes_to_hex, hex_to_bytes}
use tosdk.Transaction.{Signature}
use tosdk.Accounts.SignerType.{
  SignerType, secp256k1, secp256r1, ed25519, bls12_381, elgamal, part_length, normalize_signer_type,
}

unfoldable pub normalize_recovery : ℕ → ℕ
normalize_recovery value = if value == 27 || value == 28 then value - 27 else value % 2

-- signature[64]!, where there are 65 bytes
unfoldable pub last_byte : List ℕ → ℕ
last_byte [] = 0
last_byte (b ∷ bs) = b

-- The recovery of a signature over secp256k1.
unfoldable pub recovery_of : List ℕ → ℕ
unfolding normalize_recovery last_byte
recovery_of signature =
    if length signature == 65 then normalize_recovery (last_byte (drop 64 signature)) else 0

unfoldable pub compact_of : List ℕ → List ℕ
compact_of signature = if length signature == 65 then take 64 signature else signature

unfoldable pub recovered_signature : List ℕ → Result Signature
unfolding recovery_of compact_of bytes_to_hex
recovered_signature signature = do
  let compact = compact_of signature
  let recovery = recovery_of signature
  r ← bytes_to_hex (take 32 compact) (some 32)
  s ← bytes_to_hex (take 32 (drop 32 compact)) (some 32)
  ok (record {
    r = r;
    s = s;
    v = some (if recovery == 0 then pos 27 else pos 28);
    y_parity = some (pos recovery);
  })

unfoldable pub plain_signature : ℕ → List ℕ → Result Signature
unfolding bytes_to_hex
plain_signature n signature = do
  r ← bytes_to_hex (take n signature) (some n)
  s ← bytes_to_hex (drop n signature) (some n)
  ok (record { r = r; s = s; v = some (pos 0); y_parity = none })

unfoldable pub raw_bytes_to_signature : List ℕ → SignerType → Result Signature
unfolding recovered_signature plain_signature part_length
raw_bytes_to_signature signature secp256k1 = recovered_signature signature
raw_bytes_to_signature signature secp256r1 = plain_signature 32 signature
raw_bytes_to_signature signature ed25519 = plain_signature 32 signature
raw_bytes_to_signature signature bls12_381 = plain_signature 48 signature
raw_bytes_to_signature signature elgamal = plain_signature 32 signature

unfoldable pub of_length : ℕ → List ℕ → Result (List ℕ)
of_length n signature = if length signature == n then ok signature else err plain_error

unfoldable pub normalize_raw_signature : List ℕ → SignerType → Result (List ℕ)
unfolding last_byte of_length
normalize_raw_signature signature secp256k1 =
    if length signature == 64
    then ok signature
    else if length signature == 65
    then ok (take 64 signature)
    else err plain_error
normalize_raw_signature signature secp256r1 =
    if length signature == 64
    then ok signature
    else if length signature == 65 && last_byte (drop 64 signature) == 0
    then ok (take 64 signature)
    else err plain_error
normalize_raw_signature signature bls12_381 = of_length 96 signature
normalize_raw_signature signature ed25519 = of_length 64 signature
normalize_raw_signature signature elgamal = of_length 64 signature

-- Hex | ByteArray | Signature
pub data SignatureForm : Type 0 where
  hex_form : Text → SignatureForm
  bytes_form : List ℕ → SignatureForm
  record_form : Signature → SignatureForm

-- pad(hexToBytes(part), { size })
unfoldable pub padded_part : ℕ → Text → Result (List ℕ)
unfolding hex_to_bytes pad_bytes
padded_part n part = hex_to_bytes part none >>= λ bs. pad_bytes left (some n) bs

unfoldable pub both_parts : ℕ → Signature → Result (List ℕ)
unfolding padded_part concat_bytes
both_parts n g =
    padded_part n g.r >>= λ r. padded_part n g.s >>= λ s. ok (concat_bytes (r ∷ s ∷ []))

unfoldable pub raw_bytes_of : SignatureForm → SignerType → Result (List ℕ)
unfolding hex_to_bytes normalize_raw_signature both_parts part_length
raw_bytes_of (hex_form t) type = hex_to_bytes t none >>= λ bs. normalize_raw_signature bs type
raw_bytes_of (bytes_form bs) type = normalize_raw_signature bs type
raw_bytes_of (record_form g) type = both_parts (part_length type) g

unfoldable pub signature_to_raw_bytes : SignatureForm → Option Text → Result (List ℕ)
unfolding raw_bytes_of normalize_signer_type
signature_to_raw_bytes signature signer_type =
    normalize_signer_type signer_type >>= λ type. raw_bytes_of signature type

-- v === n, for a number n
unfoldable pub is_pos : ℤ → ℕ → Bool
is_pos (pos m) n = m == n
is_pos (negsuc m) n = false

-- signature.yParity ?? (signature.v === 28n ? 1 : 0), where 0 is a recovery of 0
unfoldable pub is_even : Signature → Bool
unfolding is_pos
is_even g = elim g.y_parity [
  | some y ↦ is_pos y 0
  | none ↦ elim g.v [ none ↦ true | some v ↦ not (is_pos v 28) ]
]

unfoldable pub signature_to_canonical_bytes : Signature → SignerType → Result (List ℕ)
unfolding hex_to_bytes both_parts part_length is_even
signature_to_canonical_bytes g secp256k1 = do
  r ← hex_to_bytes g.r none
  s ← hex_to_bytes g.s none
  ok (concat_bytes (r ∷ s ∷ ((if is_even g then 27 else 28) ∷ []) ∷ []))
signature_to_canonical_bytes g secp256r1 = both_parts 32 g
signature_to_canonical_bytes g ed25519 = both_parts 32 g
signature_to_canonical_bytes g bls12_381 = both_parts 48 g
signature_to_canonical_bytes g elgamal = both_parts 32 g

unfoldable pub signature_to_canonical_hex : Signature → SignerType → Result Text
unfolding signature_to_canonical_bytes bytes_to_hex
signature_to_canonical_hex g type =
    signature_to_canonical_bytes g type >>= λ bs. bytes_to_hex bs none
