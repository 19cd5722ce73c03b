-- ===== src/Cursor/ReadLimit.antt =====
-- The limit on re-reads: `recursiveReadCount` counts the reads of positions read before, and a
-- read is refused once the count has reached the limit.
use tosdk.Prelude.{
  ℕ, ◌+◌, ◌≤◌, ◌≡◌, Bool, true, false, ◌&&◌, List, [], ◌∷◌, some, ltb, ◌==◌, if◌then◌else◌,
}
use tosdk.Cursor
use tosdk.Cursor.{Cursor, count_set, read_count_at}
use tosdk.Cursor.Steps.{
  Op, decrement_position, increment_position, set_position, push_byte, push_uint8, push_uint16,
  push_uint24, push_uint32, push_bytes, read_byte, read_uint8, read_uint16, read_uint24,
  read_uint32, read_bytes, after,
}

-- The positions of the reads, the latest first; how often one is among them, and how many of the
-- reads are of a position that was read before.
abbrev pub Log : Type 0
Log = List ℕ

unfoldable pub occurrences : ℕ → Log → ℕ
occurrences p [] = 0
occurrences p (q ∷ log) = (if q == p then 1 else 0) + occurrences p log

unfoldable pub rereads : Log → ℕ
unfolding occurrences
rereads [] = 0
rereads (p ∷ log) = (if ltb 0 (occurrences p log) then 1 else 0) + rereads log

unfoldable pub is_read : Op → Bool
is_read (decrement_position d) = false
is_read (increment_position d) = false
is_read (set_position p) = false
is_read (push_byte v) = false
is_read (push_uint8 v) = false
is_read (push_uint16 v) = false
is_read (push_uint24 v) = false
is_read (push_uint32 v) = false
is_read (push_bytes vs) = false
is_read read_byte = true
is_read read_uint8 = true
is_read read_uint16 = true
is_read read_uint24 = true
is_read read_uint32 = true
is_read (read_bytes n size) = true

-- A read is let through as long as fewer than `limit` reads were of a position read before.
unfoldable pub logged : ℕ → Op → Cursor → Log → Log
unfolding is_read rereads
logged limit op c log = if is_read op && ltb (rereads log) limit then c.position ∷ log else log

-- The reads of a run, behind those of before.
unfoldable pub read_log : ℕ → List Op → Cursor → Log → Log
unfolding logged after
read_log limit [] c log = log
read_log limit (op ∷ ops) c log = read_log limit ops (after op c) (logged limit op c log)

-- The counts of a cursor are those of the reads that were done, and the limit is not passed.
pub record Counted (limit : ℕ) (log : Log) (c : Cursor) : Type 0 where
  pub limit_kept : c.recursive_read_limit ≡ some limit
  pub counts : (p : ℕ) → read_count_at c.position_read_count p ≡ occurrences p log
  pub exact : c.recursive_read_count ≡ rereads log
  pub bounded : c.recursive_read_count ≤ limit

-- What a method does to the counts.
record Steps (limit : ℕ) (op : Op) (c : Cursor) : Type 0 where
  limit_kept : (after op c).recursive_read_limit ≡ some limit
  counts : (after op c).position_read_count ≡ (
      if is_read op && ltb c.recursive_read_count limit
      then count_set c.position_read_count c.position
          (read_count_at c.position_read_count c.position + 1)
      else c.position_read_count)
  count : (after op c).recursive_read_count ≡ (
      if is_read op && ltb c.recursive_read_count limit
      then (if ltb 0 (read_count_at c.position_read_count c.position) then 1 else 0)
        + c.recursive_read_count
      else c.recursive_read_count)
