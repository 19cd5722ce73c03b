-- ===== src/Encoding/Hex/Sized.antt =====
-- Byte arrays as hex strings of a given size (toHex.ts, fromHex.ts).
use tosdk.Prelude.{
  ℕ, ◌*◌, ◌-◌, ◌≡◌, refl, ap, ◌∙◌, arith, false, List, [], ◌∷◌, ◌++◌, none, some, ltb, length,
  append-nil,
}
use tosdk.Prelude.Results.{ok}
use tosdk.Strings.{Text, prefix_0x, pad_end, starts_with}
use tosdk.Strings.Laws.{remove_0x-prefix}
use tosdk.Data.{hex, right, size, pad_hex, is_hex}
use tosdk.Encoding.Hex.{bytes_string, fit_hex, assert_size, bytes_to_hex, hex_to_bytes}
use tosdk.Encoding.Hex.Bytes.{AllBytes, hexes-digits, hex_to_bytes-bytes_to_hex}

pub length-bytes_string : (bs : List ℕ) → AllBytes bs → length (bytes_string bs) ≡ 2 * length bs
unfolding bytes_string
length-bytes_string [] h = refl
length-bytes_string (b ∷ bs) h = rw (hexes-digits b h.0) (omega (arith, length-bytes_string bs h.1))

size-prefixed : (s : Text) (n : ℕ) → length s ≡ 2 * n → size (hex (prefix_0x ++ s)) ≡ n
unfolding size is_hex starts_with
size-prefixed s n e = ground (arith, e)

fit_hex-full :
    (s : Text) (n : ℕ)
    → length s ≡ 2 * n
    → fit_hex right (some n) (prefix_0x ++ s) ≡ ok (prefix_0x ++ s)
unfolding fit_hex assert_size pad_hex pad_end
fit_hex-full s n e =
    let fits : ltb n n ≡ false = ground arith in
    let long : ltb (n * 2) (length s) ≡ false = ground (arith, e) in
    let none_left : n * 2 - length s ≡ 0 = omega (arith, e) in
    rw (size-prefixed s n e, fits, remove_0x-prefix s, long, none_left, append-nil s) refl

-- Bytes of the size that is given are written as they are, and read back.
pub bytes_to_hex-sized :
    (bs : List ℕ) (n : ℕ)
    → AllBytes bs
    → length bs ≡ n
    → (t : Text) × (bytes_to_hex bs (some n) ≡ ok t) × (hex_to_bytes t none ≡ ok bs)
unfolding bytes_to_hex
bytes_to_hex-sized bs n h e = (
  prefix_0x ++ bytes_string bs,
  fit_hex-full (bytes_string bs) n (length-bytes_string bs h ∙ ap (◌*◌ 2) e),
  hex_to_bytes-bytes_to_hex bs h,
)
