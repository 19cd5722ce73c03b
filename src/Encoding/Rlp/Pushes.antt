-- ===== src/Encoding/Rlp/Pushes.antt =====
-- The pushes that toRlp makes, as writes, and the size of a length.
use tosdk.Prelude.{
  ℕ, ◌%◌, ◌^◌, ◌≤◌, ◌<◌, ◌≡◌, ap, ◌∙◌, arith, List, [], ◌∷◌, ltb, ◌==◌, ◌⊎◌, length, Bool-cases,
  inl, inr, if◌then◌else◌,
}
use tosdk.Prelude.Results.{ok, err, base_error}
use tosdk.Cursor
use tosdk.Cursor.{
  Cursor, M, push_byte, push_bytes, push_uint8, push_uint16, push_uint24, push_uint32,
  create_cursor,
}
use tosdk.Cursor.Returns.{
  written, push_byte-written, push_bytes-written, push_uint8-written, push_uint16-written,
  push_uint24-written, push_uint32-written,
}
use tosdk.Encoding.Rlp.{get_size_of_length, push_length}
use tosdk.Encoding.Rlp.Layout.{big_endian}
use tosdk.Encoding.Rlp.Writes.{Writes, push-Writes}

pub push_byte-Writes : (v : ℕ) → v < 256 → Writes (push_byte v) (v ∷ [])
push_byte-Writes v h =
    let e : v % 256 ≡ v = omega arith in
    push-Writes (push_byte v) (v ∷ [])
      (λ c room h'. push_byte-written v c room ∙ ap (λ (w : ℕ). (ok tt, written (w ∷ []) c)) e)

pub push_bytes-Writes : (bs : List ℕ) → Writes (push_bytes bs) bs
push_bytes-Writes bs = push-Writes (push_bytes bs) bs (push_bytes-written bs)

-- What push_length writes, by the size.
unfoldable pub uint_bytes : ℕ → ℕ → List ℕ
uint_bytes k n =
    if k == 1
    then Cursor.uint8_bytes n
    else if k == 2
    then Cursor.uint16_bytes n
    else if k == 3
    then Cursor.uint24_bytes n
    else Cursor.uint32_bytes n

pub push_length-Writes : (k n : ℕ) → Writes (push_length k n) (uint_bytes k n)
unfolding push_length uint_bytes
push_length-Writes k n = elim (Bool-cases (k == 1)) [
  | inl t ↦ rw t (push-Writes _ (Cursor.uint8_bytes n) (λ c room h. push_uint8-written n c room))
  | inr f ↦ rw f (elim (Bool-cases (k == 2)) [
    | inl t ↦
        rw t (push-Writes _ (Cursor.uint16_bytes n) (λ c room h. push_uint16-written n c room))
    | inr f' ↦ rw f' (elim (Bool-cases (k == 3)) [
      | inl t ↦
          rw t (push-Writes _ (Cursor.uint24_bytes n) (λ c room h. push_uint24-written n c room))
      | inr f'' ↦
          rw f'' (push-Writes _ (Cursor.uint32_bytes n) (λ c room h. push_uint32-written n c room))
    ])
  ])
]

-- The size that is computed is the number of the shortest big-endian bytes, which are pushed.
pub uint_bytes-big_endian :
    (n k : ℕ)
    → get_size_of_length n ≡ ok k
    → (uint_bytes k n ≡ big_endian 4 n) × (length (uint_bytes k n) ≡ k) × (0 < k) × (k ≤ 4)
unfolding get_size_of_length uint_bytes big_endian
uint_bytes-big_endian n k h = ground arith

pub get_size_of_length-cases :
    (n : ℕ)
    → ((n < 2 ^ 32) × ((k : ℕ) × (get_size_of_length n ≡ ok k)))
      ⊎ ((2 ^ 32 ≤ n) × (get_size_of_length n ≡ err base_error))
unfolding get_size_of_length
get_size_of_length-cases n = elim (Bool-cases (ltb n (2 ^ 8))) [
  | inl a ↦ inl (ground arith, (1, ground arith))
  | inr a ↦ elim (Bool-cases (ltb n (2 ^ 16))) [
    | inl b ↦ inl (ground arith, (2, ground arith))
    | inr b ↦ elim (Bool-cases (ltb n (2 ^ 24))) [
      | inl c ↦ inl (ground arith, (3, ground arith))
      | inr c ↦ elim (Bool-cases (ltb n (2 ^ 32))) [
        | inl d ↦ inl (ground arith, (4, ground arith))
        | inr d ↦ inr (ground arith, ground arith)
      ]
    ]
  ]
]
