-- ===== src/Encoding/Rlp/Closures.antt =====
-- The closures that toRlp builds have the length that they state and write the layout.
use tosdk.Prelude.{
  ℕ, ◌+◌, ◌≤◌, ◌<◌, ◌≡◌, ap, ◌∙◌, arith, false, List, [], ◌∷◌, ◌++◌, leb, length, length-append,
  Bool-cases, inl, inr, if◌then◌else◌,
}
use tosdk.Prelude.Results.{ok}
use tosdk.Cursor
use tosdk.Cursor.{
  Cursor, M, push_byte, push_bytes, push_uint8, push_uint16, push_uint24, push_uint32,
  create_cursor,
}
use tosdk.Encoding.Rlp.{
  Encodable, is_single, get_size_of_length, push_length, encode_all, encode_list, list_length,
  encode_bytes, bytes_length,
}
use tosdk.Encoding.Rlp.Layout.{header, string_layout}
use tosdk.Encoding.Rlp.Pushes.{
  push_byte-Writes, push_bytes-Writes, push_length-Writes, uint_bytes, uint_bytes-big_endian,
}
use tosdk.Encoding.Rlp.Writes.{Writes, >>-Writes}
use mathlib.Core.List.{foldl}

-- The header that is pushed, by the size of the length.
head : ℕ → ℕ → ℕ → M (Unit {0})
head offset k n =
    if leb n 55
    then push_byte (offset + n)
    else Cursor.◌>>◌ (push_byte (offset + 55 + k)) (push_length k n)

head_bytes : ℕ → ℕ → ℕ → List ℕ
head_bytes offset k n = if leb n 55 then (offset + n) ∷ [] else (offset + 55 + k) ∷ uint_bytes k n

module _ (offset n k : ℕ) (small : offset ≤ 0xc0) (size : get_size_of_length n ≡ ok k) where
  head-Writes : Writes (head offset k n) (head_bytes offset k n)
  unfolding head head_bytes
  head-Writes =
      let (same, long, one, four) = uint_bytes-big_endian n k size in
      elim (Bool-cases (leb n 55)) [
        | inl t ↦ rw t (push_byte-Writes (offset + n) (ground arith))
        | inr f ↦ rw f (
            >>-Writes (push_byte (offset + 55 + k)) (push_length k n) ((offset + 55 + k) ∷ [])
              (uint_bytes k n) (push_byte-Writes (offset + 55 + k) (omega arith))
              (push_length-Writes k n) (omega arith))
      ]

  head_bytes-header : head_bytes offset k n ≡ header offset n
  unfolding header head_bytes
  head_bytes-header = ground (arith, uint_bytes-big_endian n k size)

  length-head_bytes :
      (1 ≤ length (head_bytes offset k n))
      × (length (head_bytes offset k n) ≡ (if leb n 55 then 1 else 1 + k))
  unfolding head_bytes
  length-head_bytes = ground (arith, uint_bytes-big_endian n k size)

-- A closure of the length that it writes, and a list of such closures.
pub record Good (e : Encodable) (out : List ℕ) : Type 0 where
  pub sized : e.size ≡ length out
  pub some_byte : 0 < length out
  pub writes : Writes e.encode out

pub record AllGood (es : List Encodable) (body : List ℕ) : Type 0 where
  pub sized : (acc : ℕ) → foldl (λ n (x : Encodable). n + x.size) acc es ≡ acc + length body
  pub writes : Writes (encode_all es) body

pub encode_all-nil : Writes (encode_all []) []
unfolding encode_all
encode_all-nil c pre [] post e h =
    ap (λ (p : ℕ). (ok tt, record c { bytes = pre ++ post; position = p })) (omega arith)
encode_all-nil c pre (x ∷ old) post e h = absurd (omega arith)

pub AllGood-cons :
    (e : Encodable) (es : List Encodable) (a b : List ℕ)
    → Good e a
    → AllGood es b
    → AllGood (e ∷ es) (a ++ b)
unfolding encode_all
AllGood-cons e es a b g gs = record {
  sized = λ acc. gs.sized (acc + e.size) ∙ omega (arith, g.sized, length-append a b);
  writes = >>-Writes e.encode (encode_all es) a b g.writes gs.writes g.some_byte;
}

pub list_Good :
    (es : List Encodable) (body : List ℕ) (k : ℕ)
    → AllGood es body
    → get_size_of_length (length body) ≡ ok k
    → Good
        (record { size = list_length (length body) k; encode = encode_list es (length body) k })
        (header 0xc0 (length body) ++ body)
unfolding encode_list list_length head
list_Good es body k g size =
    let n = length body in
    let eq = head_bytes-header 0xc0 n k (omega arith) size in
    let bytes = head_bytes 0xc0 k n in
    let (one, long) = length-head_bytes 0xc0 n k (omega arith) size in
    let total = length-append bytes body in
    rw (← eq) (record {
      sized = ground (arith, one, long, total);
      some_byte = omega (arith, one, total);
      writes =
          >>-Writes (head 0xc0 k n) (encode_all es) bytes body
            (head-Writes 0xc0 n k (omega arith) size) g.writes one;
    })

encode_bytes-Writes :
    (bs : List ℕ) (k : ℕ)
    → get_size_of_length (length bs) ≡ ok k
    → is_single bs ≡ false
    → Writes (encode_bytes bs k) (head_bytes 0x80 k (length bs) ++ bs)
unfolding encode_bytes head_bytes
encode_bytes-Writes bs k size many =
    let n = length bs in
    let (same, long, one, four) = uint_bytes-big_endian n k size in
    rw many (elim (Bool-cases (leb n 55)) [
      | inl t ↦ rw t (
          >>-Writes (push_byte (0x80 + n)) (push_bytes bs) ((0x80 + n) ∷ []) bs
            (push_byte-Writes (0x80 + n) (ground arith)) (push_bytes-Writes bs) (omega arith))
      | inr f ↦ rw f (
          >>-Writes (push_byte (0x80 + 55 + k)) (Cursor.◌>>◌ (push_length k n) (push_bytes bs))
            ((0x80 + 55 + k) ∷ []) (uint_bytes k n ++ bs)
            (push_byte-Writes (0x80 + 55 + k) (omega arith))
            (>>-Writes (push_length k n) (push_bytes bs) (uint_bytes k n) bs
              (push_length-Writes k n) (push_bytes-Writes bs) (omega (arith, long)))
            (omega arith))
    ])

pub bytes_Good :
    (bs : List ℕ) (k : ℕ)
    → get_size_of_length (length bs) ≡ ok k
    → Good (record { size = bytes_length bs k; encode = encode_bytes bs k }) (string_layout bs)
unfolding string_layout
bytes_Good bs k size = elim (Bool-cases (is_single bs)) [
  | inl t ↦ rw t (record {
    sized = unfold bytes_length is_single in ground (arith, t);
    some_byte = unfold is_single in ground (arith, t);
    writes = unfold encode_bytes in rw t (push_bytes-Writes bs);
  })
  | inr f ↦
      let eq = head_bytes-header 0x80 (length bs) k (omega arith) size in
      let bytes = head_bytes 0x80 k (length bs) in
      let (one, long) = length-head_bytes 0x80 (length bs) k (omega arith) size in
      let total = length-append bytes bs in
      rw (f, ← eq)
        (record {
          sized = unfold bytes_length is_single in ground (arith, f, one, long, total);
          some_byte = omega (arith, one, total);
          writes = encode_bytes-Writes bs k size f;
        })
]
