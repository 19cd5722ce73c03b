-- ===== src/Cursor/RoundTrip.antt =====
-- What is pushed is read back.
use tosdk.Prelude.{
  ℕ, ◌+◌, ◌^◌, ◌≤◌, ◌<◌, ◌≡◌, ap, ◌∙◌, arith, true, List, pos, length, get_or-set_all,
  length-set_all,
}
use tosdk.Prelude.Results.{ok}
use tosdk.Cursor
use tosdk.Cursor.{Cursor, M, ◌>>=◌, ◌>>◌}
use tosdk.Cursor.Returns.{
  >>=-ok, written, can_read, push_uint8-written, push_uint16-written, push_uint24-written,
  push_uint32-written, set_position-seek, read_uint8-value, read_uint16-value, read_uint24-value,
  read_uint32-value,
}

-- Push, go back to where the push began, and read.
abbrev pub push_and_read : {A : Type 0} → M (Unit {0}) → M A → M A
push_and_read push read = do
  p ← Cursor.gets (λ c. c.position)
  push
  _ ← Cursor.set_position (pos p)
  read

push_and_read-written :
    {A : Type 0} (push : M (Unit {0})) (read : M A) (vs : List ℕ) (c : Cursor)
    → push c ≡ (ok tt, written vs c)
    → 0 < length vs
    → c.position + length vs ≤ length c.bytes
    → push_and_read push read c ≡ read (record (written vs c) { position = c.position })
push_and_read-written push read vs c e some_byte room =
    let seek = Cursor.set_position (pos c.position) in
    >>=-ok push (λ _. seek >>= λ _. read) c e
    ∙ >>=-ok seek (λ _. read) (written vs c)
        (set_position-seek c.position (written vs c)
          (omega (arith, length-set_all c.bytes c.position vs)))

module _ (c : Cursor) (v : ℕ) (can : can_read c ≡ true) where
  back : List ℕ → Cursor
  back vs = record (written vs c) { position = c.position }

  read-push_uint8 :
      c.position + 1 ≤ length c.bytes
      → v < 2 ^ 8
      → (push_and_read (Cursor.push_uint8 v) Cursor.read_uint8 c).0 ≡ ok v
  unfolding Cursor.inspect_uint8 back
  read-push_uint8 h hv =
      let bs = Cursor.uint8_bytes v in
      let long = length-set_all c.bytes c.position bs in
      ap (λ r. r.0)
        (push_and_read-written (Cursor.push_uint8 v) Cursor.read_uint8 bs c
          (push_uint8-written v c h) (omega arith) h)
      ∙ (read_uint8-value (back bs) can (omega (arith, long))
          ∙ ground (arith, long, get_or-set_all c.bytes c.position bs 0 c.position 0))

  read-push_uint16 :
      c.position + 2 ≤ length c.bytes
      → v < 2 ^ 16
      → (push_and_read (Cursor.push_uint16 v) Cursor.read_uint16 c).0 ≡ ok v
  unfolding Cursor.inspect_uint16 back
  read-push_uint16 h hv =
      let bs = Cursor.uint16_bytes v in
      let long = length-set_all c.bytes c.position bs in
      ap (λ r. r.0)
        (push_and_read-written (Cursor.push_uint16 v) Cursor.read_uint16 bs c
          (push_uint16-written v c h) (omega arith) h)
      ∙ (read_uint16-value (back bs) can (omega (arith, long))
          ∙ ground (
            arith,
            long,
            get_or-set_all c.bytes c.position bs 0 c.position 0,
            get_or-set_all c.bytes c.position bs 1 (c.position + 1) 0,
          ))

  read-push_uint24 :
      c.position + 3 ≤ length c.bytes
      → v < 2 ^ 24
      → (push_and_read (Cursor.push_uint24 v) Cursor.read_uint24 c).0 ≡ ok v
  unfolding Cursor.inspect_uint24 back
  read-push_uint24 h hv =
      let bs = Cursor.uint24_bytes v in
      let long = length-set_all c.bytes c.position bs in
      ap (λ r. r.0)
        (push_and_read-written (Cursor.push_uint24 v) Cursor.read_uint24 bs c
          (push_uint24-written v c h) (omega arith) h)
      ∙ (read_uint24-value (back bs) can (omega (arith, long))
          ∙ ground (
            arith,
            long,
            get_or-set_all c.bytes c.position bs 0 c.position 0,
            get_or-set_all c.bytes c.position bs 1 (c.position + 1) 0,
            get_or-set_all c.bytes c.position bs 2 (c.position + 2) 0,
          ))

  read-push_uint32 :
      c.position + 4 ≤ length c.bytes
      → v < 2 ^ 32
      → (push_and_read (Cursor.push_uint32 v) Cursor.read_uint32 c).0 ≡ ok v
  unfolding Cursor.inspect_uint32 back
  read-push_uint32 h hv =
      let bs = Cursor.uint32_bytes v in
      let long = length-set_all c.bytes c.position bs in
      ap (λ r. r.0)
        (push_and_read-written (Cursor.push_uint32 v) Cursor.read_uint32 bs c
          (push_uint32-written v c h) (omega arith) h)
      ∙ (read_uint32-value (back bs) can (omega (arith, long))
          ∙ ground (
            arith,
            long,
            get_or-set_all c.bytes c.position bs 0 c.position 0,
            get_or-set_all c.bytes c.position bs 1 (c.position + 1) 0,
            get_or-set_all c.bytes c.position bs 2 (c.position + 2) 0,
            get_or-set_all c.bytes c.position bs 3 (c.position + 3) 0,
          ))

-- An unsigned integer of each width, pushed where there is room for just its bytes and then read at the place
-- where it was pushed, comes back as it was, if the limit lets the read through.
pub read-push :
    (c : Cursor) (v : ℕ)
    → can_read c ≡ true
    → (c.position + 1 ≤ length c.bytes
        → v < 2 ^ 8
        → (push_and_read (Cursor.push_uint8 v) Cursor.read_uint8 c).0 ≡ ok v)
      × (c.position + 2 ≤ length c.bytes
          → v < 2 ^ 16
          → (push_and_read (Cursor.push_uint16 v) Cursor.read_uint16 c).0 ≡ ok v)
      × (c.position + 3 ≤ length c.bytes
          → v < 2 ^ 24
          → (push_and_read (Cursor.push_uint24 v) Cursor.read_uint24 c).0 ≡ ok v)
      × (c.position + 4 ≤ length c.bytes
          → v < 2 ^ 32
          → (push_and_read (Cursor.push_uint32 v) Cursor.read_uint32 c).0 ≡ ok v)
read-push c v can = (
  read-push_uint8 c v can,
  read-push_uint16 c v can,
  read-push_uint24 c v can,
  read-push_uint32 c v can,
)
