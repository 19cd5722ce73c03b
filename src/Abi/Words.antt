-- ===== src/Abi/Words.antt =====
-- The encoding of dynamic bytes in whole words (encodeBytes in encodeAbiParameters.ts).
use tosdk.Prelude.{
  ℕ, ◌+◌, ◌-◌, ◌*◌, ◌/◌, ◌%◌, ◌^◌, ◌<◌, ◌≡◌, refl, ap, ◌∙◌, inl, inr, arith, true, false, not, ◌++◌,
  some, if◌then◌else◌, length, ◌==◌, ltb, replicate, append-nil, Bool-cases,
}
use tosdk.Prelude.Results.{ok}
use tosdk.Strings.{Text, prefix_0x, pad_start, pad_end, codes}
use tosdk.Strings.Laws.{remove_0x-prefix}
use tosdk.Data.{left, right, pad_hex, size}
use tosdk.Abi.{encode_dynamic_bytes, encode_bytes}
use tosdk.Abi.Layout.{hexed, word, size-hexed, word_lem}

-- The zeros behind `n` digits that fill their last word.
abbrev pub filler : ℕ → ℕ
filler n = (n + 63) / 64 * 64 - n

pad_hex-right :
    (s : Text) (k : ℕ)
    → ltb (k * 2) (length s) ≡ false
    → pad_hex right (some k) (prefix_0x ++ s)
      ≡ ok (prefix_0x ++ (s ++ replicate (k * 2 - length s) b'0'))
unfolding pad_hex pad_end
pad_hex-right s k h = rw (remove_0x-prefix s, h) refl

pad_hex-left_word :
    (s : Text) → length s ≡ 64 → pad_hex left (some 32) (prefix_0x ++ s) ≡ ok (prefix_0x ++ s)
unfolding pad_hex pad_start
pad_hex-left_word s h = rw (remove_0x-prefix s, h) refl

padded :
    (s : Text)
    → length s % 2 ≡ 0
    → (if not (size (hexed s) % 32 == 0)
        then pad_hex right (some ((length (prefix_0x ++ s) - 2 + 63) / 64 * 32)) (prefix_0x ++ s)
        else ok (prefix_0x ++ s))
      ≡ ok (prefix_0x ++ (s ++ replicate (filler (length s)) b'0'))
padded s h =
    let n = length s in
    let k = (length (prefix_0x ++ s) - 2 + 63) / 64 * 32 in
    elim (Bool-cases (n / 2 % 32 == 0)) [
      | inl e ↦
          let none_left : filler n ≡ 0 = ground (arith, e, h) in
          rw (size-hexed s h, e, none_left, append-nil s) refl
      | inr e ↦
          let count : k * 2 - n ≡ filler n = omega arith in
          rw (size-hexed s h, e)
            (pad_hex-right s k (ground arith)
              ∙ ap (λ m. ok (prefix_0x ++ (s ++ replicate m b'0'))) count)
    ]

-- For bytes of hex digits, fewer than 2^256: encodeBytes of the type `bytes` is dynamic, and gives
-- the word that reads as the number of the bytes, the bytes, and zeros that fill the last word.
pub encode_bytes_lem :
    (s : Text)
    → length s % 2 ≡ 0
    → length s / 2 < 2 ^ 256
    → (encode_bytes (prefix_0x ++ s) (codes "bytes")
        ≡ ok (record {
          dynamic = true;
          encoded = hexed (word (length s / 2) ++ (s ++ replicate (filler (length s)) b'0'));
        }))
      × ((length s + filler (length s)) % 64 ≡ 0)
      × (filler (length s) < 64)
unfolding encode_bytes encode_dynamic_bytes
encode_bytes_lem s h b =
    let (written, long, read) = word_lem (length s / 2) b in
    (
      rw (padded s h, size-hexed s h, written, pad_hex-left_word (word (length s / 2)) long) refl,
      omega arith,
      omega arith,
    )
