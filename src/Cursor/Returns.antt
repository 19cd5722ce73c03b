-- ===== src/Cursor/Returns.antt =====
-- Calls that return: what a push, a seek and a read do where there is room for them.
use tosdk.Prelude.{
  ℕ, ◌+◌, ◌≤◌, ◌<◌, ◌≡◌, ap, arith, Bool, true, List, none, some, ltb, pos, length, set_all,
}
use tosdk.Prelude.Results.{ok}
use tosdk.Cursor
use tosdk.Cursor.{Cursor, M, ◌>>=◌}

-- A call that returns hands its value and its cursor on.
pub >>=-ok :
    {A B : Type 0} (m : M A) (f : A → M B) (c : Cursor) {a : A} {c' : Cursor}
    → m c ≡ (ok a, c')
    → (m >>= f) c ≡ f a c'
>>=-ok m f c e = ap (Cursor.resume f) e

-- The cursor after a write of `vs` at its position.
abbrev pub written : List ℕ → Cursor → Cursor
written vs c = record c { bytes = set_all c.bytes c.position vs; position = c.position + length vs }

module _ (v : ℕ) (c : Cursor) where
  pub push_byte-written :
      c.position + 1 ≤ length c.bytes
      → Cursor.push_byte v c ≡ (ok tt, written (Cursor.uint8_bytes v) c)
  unfolding Cursor.push_byte
  push_byte-written h = ground arith

  pub push_uint8-written :
      c.position + 1 ≤ length c.bytes
      → Cursor.push_uint8 v c ≡ (ok tt, written (Cursor.uint8_bytes v) c)
  unfolding Cursor.push_uint8
  push_uint8-written h = ground arith

  pub push_uint16-written :
      c.position + 2 ≤ length c.bytes
      → Cursor.push_uint16 v c ≡ (ok tt, written (Cursor.uint16_bytes v) c)
  unfolding Cursor.push_uint16
  push_uint16-written h = ground arith

  pub push_uint24-written :
      c.position + 3 ≤ length c.bytes
      → Cursor.push_uint24 v c ≡ (ok tt, written (Cursor.uint24_bytes v) c)
  unfolding Cursor.push_uint24
  push_uint24-written h = ground arith

  pub push_uint32-written :
      c.position + 4 ≤ length c.bytes
      → Cursor.push_uint32 v c ≡ (ok tt, written (Cursor.uint32_bytes v) c)
  unfolding Cursor.push_uint32
  push_uint32-written h = ground arith

-- An empty block is written too, except at position 0, where -1 would be asserted.
pub push_bytes-written :
    (vs : List ℕ) (c : Cursor)
    → c.position + length vs ≤ length c.bytes
    → 0 < c.position + length vs
    → Cursor.push_bytes vs c ≡ (ok tt, written vs c)
unfolding Cursor.push_bytes
push_bytes-written vs c h room = ground arith

pub set_position-seek :
    (p : ℕ) (c : Cursor)
    → p < length c.bytes
    → Cursor.set_position (pos p) c ≡ (ok c.position, record c { position = p })
unfolding Cursor.set_position
set_position-seek p c h = ground arith

-- The limit lets a read through.
abbrev pub can_read : Cursor → Bool
can_read c = elim c.recursive_read_limit [ none ↦ true | some l ↦ ltb c.recursive_read_count l ]

module _ (c : Cursor) (can : can_read c ≡ true) where
  pub read_uint8-value :
      c.position + 1 ≤ length c.bytes → (Cursor.read_uint8 c).0 ≡ (Cursor.inspect_uint8 none c).0
  unfolding Cursor.read_uint8
  read_uint8-value h = ground arith

  pub read_uint16-value :
      c.position + 2 ≤ length c.bytes → (Cursor.read_uint16 c).0 ≡ (Cursor.inspect_uint16 none c).0
  unfolding Cursor.read_uint16
  read_uint16-value h = ground arith

  pub read_uint24-value :
      c.position + 3 ≤ length c.bytes → (Cursor.read_uint24 c).0 ≡ (Cursor.inspect_uint24 none c).0
  unfolding Cursor.read_uint24
  read_uint24-value h = ground arith

  pub read_uint32-value :
      c.position + 4 ≤ length c.bytes → (Cursor.read_uint32 c).0 ≡ (Cursor.inspect_uint32 none c).0
  unfolding Cursor.read_uint32
  read_uint32-value h = ground arith
