-- ===== src/Data/Tests.antt =====
-- Runs of padding, joining and trimming.
use tosdk.Prelude.{◌<◌, ◌≡◌, ◌≢◌, refl, [], ◌∷◌, some, length, get_or, drop, ◌%◌}
use tosdk.Prelude.Results.{ok}
use tosdk.Strings.{codes, base16_from, remove_0x}
use tosdk.Data.{left, right, pad_bytes, trim_bytes, trim_hex, trim_run, zeros_run}
use tosdk.Data.Trim.{pad_bytes-trim_bytes, trim_hex_left_lem}

pad_bytes-trim_bytes_example :
    pad_bytes right (some 4) (trim_bytes right (1 ∷ 2 ∷ 0 ∷ 0 ∷ [])) ≡ ok (1 ∷ 2 ∷ 0 ∷ 0 ∷ [])
pad_bytes-trim_bytes_example = pad_bytes-trim_bytes right (1 ∷ 2 ∷ 0 ∷ 0 ∷ [])

trim_hex_left_lem_example :
    (base16_from 0 (drop 2 (trim_hex left (codes "0x00012345"))) ≡ base16_from 0 (codes "00012345"))
    × (length (trim_hex left (codes "0x00012345")) % 2 ≡ 0)
    × (4 < length (trim_hex left (codes "0x00012345"))
        → get_or (trim_hex left (codes "0x00012345")) 2 0 ≡ b'0'
        → get_or (trim_hex left (codes "0x00012345")) 3 0 ≢ b'0')
trim_hex_left_lem_example = trim_hex_left_lem (codes "00012345")

-- A zero digit of the last byte is dropped, and the digits that are left move.
trim_hex-right_moved : trim_hex right (codes "0x1230") ≡ codes "0x0123"
unfolding trim_hex remove_0x trim_run zeros_run
trim_hex-right_moved = refl
