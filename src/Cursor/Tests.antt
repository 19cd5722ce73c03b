-- ===== src/Cursor/Tests.antt =====
-- Runs of the cursor.
use tosdk.Prelude.{◌+◌, ◌^◌, ◌≤◌, ◌<◌, ◌≡◌, refl, arith, true, [], ◌∷◌, some, none, pos, List}
use tosdk.Prelude.Results.{ok}
use tosdk.Cursor
use tosdk.Cursor.{Cursor, create_cursor}
use tosdk.Cursor.Steps.{Op, after, run}
use tosdk.Cursor.Bounds.{Within, run-Within}
use tosdk.Cursor.ReadLimit.{occurrences, rereads, is_read, logged, read_log}
use tosdk.Cursor.Returns.{can_read}
use tosdk.Cursor.RoundTrip.{push_and_read, read-push}

abbrev four : Cursor
four = create_cursor (0 ∷ 0 ∷ 0 ∷ 0 ∷ []) (some (some 1))

abbrev steps : List Op
steps =
    Op.push_uint16 515
    ∷ Op.set_position (pos 0)
    ∷ Op.read_uint8
    ∷ Op.read_bytes 2 none
    ∷ Op.read_uint32
    ∷ []

four-Within : Within 4 four
unfolding create_cursor
four-Within = record { size_kept = omega arith; inside = omega arith }

four-can_read : can_read four ≡ true
unfolding create_cursor
four-can_read = ground arith

run-Within_example : Within 4 (run steps four)
run-Within_example = run-Within 4 steps four (tt, (tt, (tt, (tt, (tt, tt))))) four-Within

-- The first read is of position 0, the second of position 1, and the third, of position 3, throws.
logged_reads : read_log 1 steps four [] ≡ 3 ∷ 1 ∷ 0 ∷ []
unfolding create_cursor read_log logged is_read rereads occurrences after Cursor.set_position
    Cursor.push_uint16 Cursor.read_uint8 Cursor.read_bytes
logged_reads = refl

read-push_example :
    (0 + 1 ≤ 4
      → 200 < 2 ^ 8
      → (push_and_read (Cursor.push_uint8 200) Cursor.read_uint8 four).0 ≡ ok 200)
    × (0 + 2 ≤ 4
        → 200 < 2 ^ 16
        → (push_and_read (Cursor.push_uint16 200) Cursor.read_uint16 four).0 ≡ ok 200)
    × (0 + 3 ≤ 4
        → 200 < 2 ^ 24
        → (push_and_read (Cursor.push_uint24 200) Cursor.read_uint24 four).0 ≡ ok 200)
    × (0 + 4 ≤ 4
        → 200 < 2 ^ 32
        → (push_and_read (Cursor.push_uint32 200) Cursor.read_uint32 four).0 ≡ ok 200)
unfolding create_cursor
read-push_example = read-push four 200 four-can_read
