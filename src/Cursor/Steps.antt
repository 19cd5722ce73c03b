-- ===== src/Cursor/Steps.antt =====
-- The methods of the cursor that change it, as one type of steps, and runs of such steps.
use tosdk.Prelude.{ℕ, ℤ, Option, List, [], ◌∷◌}
use tosdk.Cursor
use tosdk.Cursor.{Cursor}

-- A method with its arguments.
pub data Op : Type 0 where
  decrement_position increment_position set_position : ℤ → Op
  push_byte push_uint8 push_uint16 push_uint24 push_uint32 : ℕ → Op
  push_bytes : List ℕ → Op
  read_byte read_uint8 read_uint16 read_uint24 read_uint32 : Op
  read_bytes : ℕ → Option ℕ → Op

-- The cursor that a method leaves, whether it returns or throws.
unfoldable pub after : Op → Cursor → Cursor
after (decrement_position d) c = (Cursor.decrement_position d c).1
after (increment_position d) c = (Cursor.increment_position d c).1
after (set_position p) c = (Cursor.set_position p c).1
after (push_byte v) c = (Cursor.push_byte v c).1
after (push_uint8 v) c = (Cursor.push_uint8 v c).1
after (push_uint16 v) c = (Cursor.push_uint16 v c).1
after (push_uint24 v) c = (Cursor.push_uint24 v c).1
after (push_uint32 v) c = (Cursor.push_uint32 v c).1
after (push_bytes vs) c = (Cursor.push_bytes vs c).1
after read_byte c = (Cursor.read_byte c).1
after read_uint8 c = (Cursor.read_uint8 c).1
after read_uint16 c = (Cursor.read_uint16 c).1
after read_uint24 c = (Cursor.read_uint24 c).1
after read_uint32 c = (Cursor.read_uint32 c).1
after (read_bytes n size) c = (Cursor.read_bytes n size c).1

unfoldable pub run : List Op → Cursor → Cursor
run [] c = c
run (op ∷ ops) c = run ops (after op c)
