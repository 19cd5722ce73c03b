-- ===== src/Accounts/RoundTrip.antt =====
-- Signatures as records of hex strings and back (nativeSigner.ts).
use tosdk.Prelude.{
  ℕ, ◌+◌, ◌%◌, ◌-◌, ◌≡◌, refl, sym, ap, ◌∙◌, arith, true, false, List, [], ◌∷◌, ◌++◌, pos, none,
  some, ◌==◌, if◌then◌else◌, length, take, drop, append-nil, append_assoc, length-append, replicate,
}
use tosdk.Prelude.Results.{Result, ok}
use tosdk.Strings.{Text}
use tosdk.Data.{left, pad_bytes}
use tosdk.Data.Pad.{pad_bytes_lem}
use tosdk.Data.Join.{concat_bytes-joined}
use tosdk.Encoding.Hex.{hex_to_bytes}
use tosdk.Encoding.Hex.Bytes.{AllBytes}
use tosdk.Encoding.Hex.Sized.{bytes_to_hex-sized}
use tosdk.Transaction.{Signature}
use tosdk.Accounts.Halves.{concat_bytes-two, halves_lem, take-append_at, drop-append_at}
use tosdk.Accounts.SignerType.{
  SignerType, secp256k1, secp256r1, ed25519, bls12_381, elgamal, part_length,
}
use tosdk.Accounts.Signatures.{
  normalize_recovery, last_byte, recovery_of, compact_of, recovered_signature, plain_signature,
  raw_bytes_to_signature, padded_part, both_parts, record_form, raw_bytes_of, is_even, is_pos,
  signature_to_canonical_bytes,
}

padded_part-full :
    (n : ℕ) (t : Text) (bs : List ℕ)
    → hex_to_bytes t none ≡ ok bs
    → length bs ≡ n
    → padded_part n t ≡ ok bs
unfolding padded_part
padded_part-full n t bs e l =
    let none_left : n - length bs ≡ 0 = omega (arith, l) in
    let same : pad_bytes left (some n) bs ≡ ok bs =
      ((pad_bytes_lem bs n).0 (omega (arith, l))).0
      ∙ ap (λ k. ok (replicate k 0 ++ bs)) none_left in
    rw (e, same) refl

both_parts-full :
    (n : ℕ) (g : Signature) (a b : List ℕ)
    → hex_to_bytes g.r none ≡ ok a
    → hex_to_bytes g.s none ≡ ok b
    → length a ≡ n
    → length b ≡ n
    → both_parts n g ≡ ok (a ++ b)
unfolding both_parts
both_parts-full n g a b ea eb la lb =
    rw (padded_part-full n g.r a ea la, padded_part-full n g.s b eb lb, concat_bytes-two a b) refl

-- The byte of a signature behind its two parts: the recovery, which only secp256k1 has.
abbrev pub IsTail : SignerType → List ℕ → Type 0
IsTail type [] = Unit
IsTail secp256k1 (v ∷ []) = Unit
IsTail secp256k1 (v ∷ w ∷ tail) = ⊥
IsTail secp256r1 (v ∷ tail) = ⊥
IsTail ed25519 (v ∷ tail) = ⊥
IsTail bls12_381 (v ∷ tail) = ⊥
IsTail elgamal (v ∷ tail) = ⊥

-- The byte that stands for a recovery: 27 and 28 for themselves, another number by its last bit.
abbrev pub canonical_byte : ℕ → ℕ
canonical_byte v = if v == 27 then 27 else if v == 28 then 28 else 27 + v % 2

canonical_byte_lem : (v : ℕ) → (if normalize_recovery v == 0 then 27 else 28) ≡ canonical_byte v
unfolding normalize_recovery
canonical_byte_lem v = ground arith

-- The byte behind the parts in the canonical bytes.
unfoldable pub canonical_tail : SignerType → List ℕ → List ℕ
canonical_tail secp256k1 [] = 27 ∷ []
canonical_tail secp256k1 (v ∷ tail) = canonical_byte v ∷ []
canonical_tail secp256r1 tail = []
canonical_tail ed25519 tail = []
canonical_tail bls12_381 tail = []
canonical_tail elgamal tail = []

-- The record of a signature stands for its two parts.
abbrev pub IsRead : SignerType → List ℕ → List ℕ → List ℕ → Result Signature → Type 0
IsRead type a b tail r =
    (g : Signature) × (r ≡ ok g)
    × (raw_bytes_of (record_form g) type ≡ ok (a ++ b))
    × (signature_to_canonical_bytes g type ≡ ok (a ++ (b ++ canonical_tail type tail)))

plain-lem :
    (n : ℕ) (a b : List ℕ)
    → AllBytes a
    → AllBytes b
    → length a ≡ n
    → length b ≡ n
    → (g : Signature) × (plain_signature n (a ++ (b ++ [])) ≡ ok g) × (both_parts n g ≡ ok (a ++ b))
unfolding plain_signature
plain-lem n a b ha hb la lb =
    let halves = halves_lem n a b la lb in
    let r = bytes_to_hex-sized a n ha la in
    let s = bytes_to_hex-sized b n hb lb in
    let g : Signature = record { r = r.0; s = s.0; v = some (pos 0); y_parity = none } in
    (g, rw (append-nil b, halves.1, halves.2, r.1, s.1) refl, both_parts-full n g a b r.2 s.2 la lb)

recovered-lem :
    (raw a b : List ℕ) (recovery : ℕ)
    → compact_of raw ≡ a ++ b
    → recovery_of raw ≡ recovery
    → AllBytes a
    → AllBytes b
    → length a ≡ 32
    → length b ≡ 32
    → (g : Signature) × (recovered_signature raw ≡ ok g)
      × (both_parts 32 g ≡ ok (a ++ b))
      × (signature_to_canonical_bytes g secp256k1
          ≡ ok (a ++ (b ++ ((if recovery == 0 then 27 else 28) ∷ []))))
unfolding recovered_signature signature_to_canonical_bytes is_even is_pos
recovered-lem raw a b recovery ec er ha hb la lb =
    let halves = halves_lem 32 a b la lb in
    let r = bytes_to_hex-sized a 32 ha la in
    let s = bytes_to_hex-sized b 32 hb lb in
    let g : Signature = record {
      r = r.0;
      s = s.0;
      v = some (if recovery == 0 then pos 27 else pos 28);
      y_parity = some (pos recovery);
    } in
    (
      g,
      rw (ec, er, halves.1, halves.3, r.1, s.1) refl,
      both_parts-full 32 g a b r.2 s.2 la lb,
      rw (r.2, s.2, concat_bytes-joined (a ∷ b ∷ ((if recovery == 0 then 27 else 28) ∷ []) ∷ []))
          refl,
    )

secp256k1-IsRead :
    (a b tail : List ℕ)
    → AllBytes a
    → AllBytes b
    → length a ≡ 32
    → length b ≡ 32
    → IsTail secp256k1 tail
    → IsRead secp256k1 a b tail (raw_bytes_to_signature (a ++ (b ++ tail)) secp256k1)
unfolding raw_bytes_to_signature raw_bytes_of canonical_tail compact_of recovery_of last_byte
secp256k1-IsRead a b [] ha hb la lb h =
    let long : (length (a ++ (b ++ [])) == 65) ≡ false =
      rw (append-nil b) (ground (arith, length-append a b, la, lb)) in
    recovered-lem (a ++ (b ++ [])) a b 0 (rw (long, append-nil b) refl) (rw long refl) ha hb la lb
secp256k1-IsRead a b (v ∷ []) ha hb la lb h =
    let long : (length (a ++ (b ++ (v ∷ []))) == 65) ≡ true =
      ground (arith, length-append a (b ++ (v ∷ [])), length-append b (v ∷ []), la, lb) in
    let split : a ++ (b ++ (v ∷ [])) ≡ (a ++ b) ++ (v ∷ []) = sym (append_assoc a b (v ∷ [])) in
    let both : length (a ++ b) ≡ 64 = omega (arith, length-append a b, la, lb) in
    rw (sym (canonical_byte_lem v)) (
      recovered-lem (a ++ (b ++ (v ∷ []))) a b (normalize_recovery v)
        (rw long (ap (take 64) split ∙ take-append_at 64 (a ++ b) (v ∷ []) both))
        (rw long (
          ap (λ t. normalize_recovery (last_byte t))
            (ap (drop 64) split ∙ drop-append_at 64 (a ++ b) (v ∷ []) both)))
        ha hb la lb)
secp256k1-IsRead a b (v ∷ w ∷ t) ha hb la lb h = elim h [ ]

plain-IsRead :
    (type : SignerType) (n : ℕ) (a b : List ℕ) (r : Result Signature)
    → r ≡ plain_signature n (a ++ (b ++ []))
    → ((g : Signature)
        → both_parts n g ≡ ok (a ++ b)
        → raw_bytes_of (record_form g) type ≡ ok (a ++ b))
    → ((g : Signature)
        → both_parts n g ≡ ok (a ++ b)
        → signature_to_canonical_bytes g type ≡ ok (a ++ (b ++ canonical_tail type [])))
    → AllBytes a
    → AllBytes b
    → length a ≡ n
    → length b ≡ n
    → IsRead type a b [] r
plain-IsRead type n a b r e raw canonical ha hb la lb =
    let p = plain-lem n a b ha hb la lb in (p.0, e ∙ p.1, raw p.0 p.2, canonical p.0 p.2)

-- For every type of signer, a signature of two parts of the type's length, each of bytes, and for
-- secp256k1 a recovery behind them or none: it is read as a record, whose raw bytes are the two parts
-- again, and whose canonical bytes are the two parts and, for secp256k1, 27 without a recovery and else 27 or 28: a
-- recovery of 27 or 28 itself, and of another one 27 and its last bit.
pub raw_bytes_to_signature_lem :
    (type : SignerType) (a b tail : List ℕ)
    → AllBytes a
    → AllBytes b
    → length a ≡ part_length type
    → length b ≡ part_length type
    → IsTail type tail
    → IsRead type a b tail (raw_bytes_to_signature (a ++ (b ++ tail)) type)
unfolding raw_bytes_to_signature raw_bytes_of signature_to_canonical_bytes canonical_tail
    part_length
raw_bytes_to_signature_lem secp256k1 a b tail ha hb la lb h =
    secp256k1-IsRead a b tail ha hb la lb h
raw_bytes_to_signature_lem secp256r1 a b [] ha hb la lb h =
    plain-IsRead secp256r1 32 a b _ refl (λ g e. e)
      (λ g e. e ∙ ap (λ t. ok (a ++ t)) (sym (append-nil b))) ha hb la lb
raw_bytes_to_signature_lem ed25519 a b [] ha hb la lb h =
    plain-IsRead ed25519 32 a b _ refl (λ g e. e)
      (λ g e. e ∙ ap (λ t. ok (a ++ t)) (sym (append-nil b))) ha hb la lb
raw_bytes_to_signature_lem bls12_381 a b [] ha hb la lb h =
    plain-IsRead bls12_381 48 a b _ refl (λ g e. e)
      (λ g e. e ∙ ap (λ t. ok (a ++ t)) (sym (append-nil b))) ha hb la lb
raw_bytes_to_signature_lem elgamal a b [] ha hb la lb h =
    plain-IsRead elgamal 32 a b _ refl (λ g e. e)
      (λ g e. e ∙ ap (λ t. ok (a ++ t)) (sym (append-nil b))) ha hb la lb
raw_bytes_to_signature_lem secp256r1 a b (v ∷ t) ha hb la lb h = elim h [ ]
raw_bytes_to_signature_lem ed25519 a b (v ∷ t) ha hb la lb h = elim h [ ]
raw_bytes_to_signature_lem bls12_381 a b (v ∷ t) ha hb la lb h = elim h [ ]
raw_bytes_to_signature_lem elgamal a b (v ∷ t) ha hb la lb h = elim h [ ]
