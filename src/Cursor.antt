-- ===== src/Cursor.antt =====
-- src/utils/cursor.ts: a position in a byte array, with reads, writes and a limit on re-reads.
-- A method runs on the cursor and leaves a cursor also when it throws, since `readByte` and its
-- like have touched the position before they look at the bytes. Lengths, values and positions
-- handed to reads and writes are non-negative integers; an offset and an asserted position are
-- signed. The cursor's `dataView` is a view of the same bytes, read and written big-endian.
use tosdk.Prelude.{
  ℕ, suc, ◌+◌, ◌-◌, ◌*◌, ◌/◌, ◌%◌, ◌^◌, Bool, true, false, ◌||◌, ◌&&◌, List, [], ◌∷◌, Option, none,
  some, ltb, leb, ◌==◌, if◌then◌else◌, ℤ, pos, negsuc, sub_ℕ, pos_part, ◌+ℤ◌, ◌-ℤ◌, ltb_ℤ,
  is_negative, length, get_or, set, set_all, take, drop,
}
use tosdk.Prelude.Results.{
  Error, position_out_of_bounds, negative_offset, recursive_read_limit_exceeded, Result, ok, err,
}
pub mod Steps
pub mod Returns
pub mod Bounds
pub mod ReadLimit
pub mod RoundTrip
mod Tests

-- `positionReadCount`, a map from positions to counts: the latest entry first.
abbrev pub Counts : Type 0
Counts = List (ℕ × ℕ)

pub record Cursor : Type 0 where
  pub bytes : List ℕ
  pub position : ℕ
  pub position_read_count : Counts
  pub recursive_read_count : ℕ
  -- `none` is Number.POSITIVE_INFINITY
  pub recursive_read_limit : Option ℕ

-- What a call returns or throws, and the cursor that it leaves.
abbrev pub M : Type 0 → Type 0
M A = Cursor → Result A × Cursor

abbrev pub resume : {A B : Type 0} → (A → M B) → Result A × Cursor → Result B × Cursor
resume f (ok a, c) = f a c
resume f (err e, c) = (err e, c)

infixl 5 ◌>>=◌ ◌>>◌
abbrev pub ◌>>=◌ : {A B : Type 0} → M A → (A → M B) → M B
◌>>=◌ m f c = resume f (m c)

abbrev pub ◌>>◌ : {B : Type 0} → M (Unit {0}) → M B → M B
m >> k = m >>= λ _. k

abbrev pub pure : {A : Type 0} → A → M A
pure a c = (ok a, c)

abbrev pub throw_when : Bool → Error → M (Unit {0})
throw_when true e c = (err e, c)
throw_when false e c = (ok tt, c)

abbrev pub gets : {A : Type 0} → (Cursor → A) → M A
gets f c = (ok (f c), c)

abbrev pub modify : (Cursor → Cursor) → M (Unit {0})
modify f c = (ok tt, f c)

unfoldable pub read_count_at : Counts → ℕ → ℕ
read_count_at [] p = 0
read_count_at ((q, n) ∷ m) p = if q == p then n else read_count_at m p

unfoldable pub count_set : Counts → ℕ → ℕ → Counts
count_set [] p n = (p, n) ∷ []
count_set ((q, k) ∷ m) p n = if q == p then (p, n) ∷ m else (q, k) ∷ count_set m p n

unfoldable pub assert_read_limit : M (Unit {0})
assert_read_limit c = elim c.recursive_read_limit [
  | none ↦ (ok tt, c)
  | some limit ↦ throw_when (leb limit c.recursive_read_count) recursive_read_limit_exceeded c
]

-- position < 0 || position > this.bytes.length - 1
unfoldable pub assert_position : ℤ → M (Unit {0})
assert_position p c =
    throw_when (is_negative p || ltb_ℤ (sub_ℕ (length c.bytes) 1) p) position_out_of_bounds c

-- The position is stored after the assertion, so it is not negative.
unfoldable pub store_position : ℤ → M (Unit {0})
store_position p = modify (λ c. record c { position = pos_part p })

unfoldable pub decrement_position : ℤ → M (Unit {0})
unfolding assert_position store_position
decrement_position offset = do
  throw_when (is_negative offset) negative_offset
  p ← gets (λ c. pos c.position -ℤ offset)
  assert_position p
  store_position p

unfoldable pub increment_position : ℤ → M (Unit {0})
unfolding assert_position store_position
increment_position offset = do
  throw_when (is_negative offset) negative_offset
  p ← gets (λ c. pos c.position +ℤ offset)
  assert_position p
  store_position p

-- The function that `setPosition` returns is a write of the old position.
unfoldable pub set_position : ℤ → M ℕ
unfolding assert_position store_position
set_position p = do old ← gets (λ c. c.position); assert_position p; store_position p; pure old

-- `position || this.position`: a position of 0 counts as none.
unfoldable pub get_read_count : Option ℕ → Cursor → ℕ
unfolding read_count_at
get_read_count none c = read_count_at c.position_read_count c.position
get_read_count (some p) c = read_count_at c.position_read_count (if p == 0 then c.position else p)

unfoldable pub inspect_position : Option ℕ → Cursor → ℕ
inspect_position none c = c.position
inspect_position (some p) c = p

unfoldable pub byte_at : ℕ → Cursor → ℕ
byte_at p c = get_or c.bytes p 0

unfoldable pub inspect_byte : Option ℕ → M ℕ
unfolding assert_position inspect_position byte_at
inspect_byte p_ = do p ← gets (inspect_position p_); assert_position (pos p); gets (byte_at p)

unfoldable pub inspect_bytes : ℕ → Option ℕ → M (List ℕ)
unfolding assert_position inspect_position
inspect_bytes n p_ = do
  p ← gets (inspect_position p_)
  assert_position (sub_ℕ (p + n) 1)
  gets (λ c. take n (drop p c.bytes))

unfoldable pub inspect_uint8 : Option ℕ → M ℕ
unfolding assert_position inspect_position byte_at
inspect_uint8 p_ = do p ← gets (inspect_position p_); assert_position (pos p); gets (byte_at p)

unfoldable pub inspect_uint16 : Option ℕ → M ℕ
unfolding assert_position inspect_position byte_at
inspect_uint16 p_ = do
  p ← gets (inspect_position p_)
  assert_position (pos (p + 1))
  gets (λ c. byte_at p c * 256 + byte_at (p + 1) c)

unfoldable pub inspect_uint24 : Option ℕ → M ℕ
unfolding assert_position inspect_position byte_at
inspect_uint24 p_ = do
  p ← gets (inspect_position p_)
  assert_position (pos (p + 2))
  gets (λ c. (byte_at p c * 256 + byte_at (p + 1) c) * 256 + byte_at (p + 2) c)

unfoldable pub inspect_uint32 : Option ℕ → M ℕ
unfolding assert_position inspect_position byte_at
inspect_uint32 p_ = do
  p ← gets (inspect_position p_)
  assert_position (pos (p + 3))
  gets (λ c.
      ((byte_at p c * 256 + byte_at (p + 1) c) * 256 + byte_at (p + 2) c) * 256 + byte_at (p + 3) c)

-- A write of some bytes at the position, which then moves behind them.
unfoldable pub write : List ℕ → M (Unit {0})
write vs =
    modify
      λ c. record c { bytes = set_all c.bytes c.position vs; position = c.position + length vs }

-- The bytes of the integer that is stored, big-endian; a wider value is cut to its low bits.
abbrev pub uint8_bytes : ℕ → List ℕ
uint8_bytes v = v % 256 ∷ []

abbrev pub uint16_bytes : ℕ → List ℕ
uint16_bytes v = v / 256 % 256 ∷ v % 256 ∷ []

-- `value >> 8` as two bytes, then `value & 255`
abbrev pub uint24_bytes : ℕ → List ℕ
uint24_bytes v = v / 256 / 256 % 256 ∷ v / 256 % 256 ∷ v % 256 ∷ []

abbrev pub uint32_bytes : ℕ → List ℕ
uint32_bytes v = v / 16777216 % 256 ∷ v / 65536 % 256 ∷ v / 256 % 256 ∷ v % 256 ∷ []

unfoldable pub push_byte : ℕ → M (Unit {0})
unfolding assert_position write
push_byte v = do p ← gets (λ c. c.position); assert_position (pos p); write (uint8_bytes v)

unfoldable pub push_bytes : List ℕ → M (Unit {0})
unfolding assert_position write
push_bytes vs = do p ← gets (λ c. c.position); assert_position (sub_ℕ (p + length vs) 1); write vs

unfoldable pub push_uint8 : ℕ → M (Unit {0})
unfolding assert_position write
push_uint8 v = do p ← gets (λ c. c.position); assert_position (pos p); write (uint8_bytes v)

unfoldable pub push_uint16 : ℕ → M (Unit {0})
unfolding assert_position write
push_uint16 v = do p ← gets (λ c. c.position); assert_position (pos (p + 1)); write (uint16_bytes v)

unfoldable pub push_uint24 : ℕ → M (Unit {0})
unfolding assert_position write
push_uint24 v = do p ← gets (λ c. c.position); assert_position (pos (p + 2)); write (uint24_bytes v)

unfoldable pub push_uint32 : ℕ → M (Unit {0})
unfolding assert_position write
push_uint32 v = do p ← gets (λ c. c.position); assert_position (pos (p + 3)); write (uint32_bytes v)

-- `_touch`: with a finite limit, the reads at a position are counted, and all but the first add up.
unfoldable pub touch : M (Unit {0})
unfolding get_read_count count_set
touch c = elim c.recursive_read_limit [
  | none ↦ (ok tt, c)
  | some limit ↦
      let count = get_read_count none c in
      (
        ok tt,
        record c {
          position_read_count = count_set c.position_read_count c.position (count + 1);
          recursive_read_count =
              if ltb 0 count then c.recursive_read_count + 1 else c.recursive_read_count;
        },
      )
]

unfoldable pub advance : ℕ → M (Unit {0})
advance n = modify (λ c. record c { position = c.position + n })

-- The body that the reads share: the limit, the touch, the look at the bytes, the step.
unfoldable pub read_with : {A : Type 0} → M A → ℕ → M A
unfolding assert_read_limit touch advance
read_with look n = do assert_read_limit; touch; value ← look; advance n; pure value

unfoldable pub read_byte : M ℕ
unfolding read_with inspect_byte
read_byte = read_with (inspect_byte none) 1

-- `this.position += size ?? length`
unfoldable pub read_bytes : ℕ → Option ℕ → M (List ℕ)
unfolding read_with inspect_bytes
read_bytes n size = read_with (inspect_bytes n none) (elim size [ none ↦ n | some k ↦ k ])

unfoldable pub read_uint8 : M ℕ
unfolding read_with inspect_uint8
read_uint8 = read_with (inspect_uint8 none) 1

unfoldable pub read_uint16 : M ℕ
unfolding read_with inspect_uint16
read_uint16 = read_with (inspect_uint16 none) 2

unfoldable pub read_uint24 : M ℕ
unfolding read_with inspect_uint24
read_uint24 = read_with (inspect_uint24 none) 3

unfoldable pub read_uint32 : M ℕ
unfolding read_with inspect_uint32
read_uint32 = read_with (inspect_uint32 none) 4

-- `this.bytes.length - this.position`, which is negative past the end.
unfoldable pub remaining : Cursor → ℤ
remaining c = sub_ℕ (length c.bytes) c.position

-- `recursiveReadLimit = 8_192` where the caller names none
unfoldable pub create_cursor : List ℕ → Option (Option ℕ) → Cursor
create_cursor bytes limit = record {
  bytes = bytes;
  position = 0;
  position_read_count = [];
  recursive_read_count = 0;
  recursive_read_limit = elim limit [ none ↦ some 8192 | some l ↦ l ];
}
