-- ===== src/Cursor/Bounds.antt =====
-- No method grows, shrinks or leaves the array.
use tosdk.Prelude.{ℕ, ◌≤◌, ◌≡◌, arith, List, [], ◌∷◌, some, length, length-set_all}
use tosdk.Cursor
use tosdk.Cursor.{Cursor}
use tosdk.Cursor.Steps.{Op, after, run}

-- `readBytes` may be told to step on by more than it reads: with no such `size` a step is tight.
abbrev pub IsTight : Op → Type 0
IsTight (Op.read_bytes n (some k)) = k ≤ n
IsTight _ = Unit {0}

abbrev pub AllTight : List Op → Type 0
AllTight [] = Unit {0}
AllTight (op ∷ ops) = IsTight op × AllTight ops

pub record Within (size : ℕ) (c : Cursor) : Type 0 where
  pub size_kept : length c.bytes ≡ size
  pub inside : c.position ≤ size

-- The methods that write: what `set_all` leaves of the length is all that they need.
push-Within :
    (size : ℕ) (c : Cursor) (v : ℕ) (vs : List ℕ)
    → Within size c
    → Within size (after (Op.push_bytes vs) c)
      × Within size (after (Op.push_byte v) c)
      × Within size (after (Op.push_uint8 v) c)
      × Within size (after (Op.push_uint16 v) c)
      × Within size (after (Op.push_uint24 v) c)
      × Within size (after (Op.push_uint32 v) c)
unfolding after Cursor.push_bytes Cursor.push_byte Cursor.push_uint8 Cursor.push_uint16
    Cursor.push_uint24 Cursor.push_uint32
push-Within size c v vs w = (
  ground (arith, length-set_all c.bytes c.position vs),
  ground (arith, length-set_all c.bytes c.position (Cursor.uint8_bytes v)),
  ground (arith, length-set_all c.bytes c.position (Cursor.uint8_bytes v)),
  ground (arith, length-set_all c.bytes c.position (Cursor.uint16_bytes v)),
  ground (arith, length-set_all c.bytes c.position (Cursor.uint24_bytes v)),
  ground (arith, length-set_all c.bytes c.position (Cursor.uint32_bytes v)),
)

after-Within :
    (size : ℕ) (op : Op) (c : Cursor) → IsTight op → Within size c → Within size (after op c)
unfolding after Cursor.decrement_position Cursor.increment_position Cursor.set_position
    Cursor.read_byte Cursor.read_uint8 Cursor.read_uint16 Cursor.read_uint24 Cursor.read_uint32
    Cursor.read_bytes
after-Within size (Op.push_bytes vs) c t w = (push-Within size c 0 vs w).0
after-Within size (Op.push_byte v) c t w = (push-Within size c v [] w).1
after-Within size (Op.push_uint8 v) c t w = (push-Within size c v [] w).2
after-Within size (Op.push_uint16 v) c t w = (push-Within size c v [] w).3
after-Within size (Op.push_uint24 v) c t w = (push-Within size c v [] w).4
after-Within size (Op.push_uint32 v) c t w = (push-Within size c v [] w).5
after-Within size (Op.read_bytes n (some k)) c t w = ground arith
after-Within size op c t w = ground arith

-- Whatever methods run on a cursor, in any order and with any exceptions among them, the array
-- keeps its length and the position stays within it or at its end, as long as no `readBytes` is
-- told to step further than it reads.
pub run-Within :
    (size : ℕ) (ops : List Op) (c : Cursor) → AllTight ops → Within size c → Within size (run ops c)
unfolding run
run-Within size [] c t w = w
run-Within size (op ∷ ops) c t w =
    run-Within size ops (after op c) t.1 (after-Within size op c t.0 w)
