-- ===== src/Encoding/Hex/Tests.antt =====
-- Runs of the conversions between hex strings, bytes and numbers.
use tosdk.Prelude.{
  ℕ, ◌≡◌, arith, true, false, List, [], ◌∷◌, ◌++◌, some, none, length, negsuc, pos, ◌+◌, ◌*◌,
}
use tosdk.Prelude.Results.{ok, err, ◌>>=◌, base_error, integer_out_of_range}
use tosdk.Strings.{Text, codes, prefix_0x, all_hex_digits, to_lower_case}
use tosdk.Encoding.Hex.{
  to_big_int, number, bigint, number_to_hex, hex_to_big_int, bytes_to_hex, hex_to_bytes,
  even_digits,
}
use tosdk.Encoding.Hex.Bytes.{AllBytes, hex_to_bytes_lem, hex_to_bytes-bytes_to_hex}
use tosdk.Encoding.Hex.Numbers.{hex_to_big_int-number_to_hex, number_to_hex-integer_out_of_range}

hex_to_big_int-number_to_hex_example :
    (s : Text) × (number_to_hex (number (negsuc 1)) true (some 2) ≡ ok s)
    × (length s ≡ 2 + 2 * 2)
    × (hex_to_big_int s true (some 2) ≡ ok (negsuc 1))
unfolding to_big_int
hex_to_big_int-number_to_hex_example =
    hex_to_big_int-number_to_hex (number (negsuc 1)) true 2 (omega arith) (omega arith)

number_to_hex-integer_out_of_range_example :
    number_to_hex (bigint (pos 256)) false (some 1) ≡ err integer_out_of_range
unfolding to_big_int
number_to_hex-integer_out_of_range_example =
    number_to_hex-integer_out_of_range (bigint (pos 256)) false 1 (omega arith)
      (λ h. omega (arith, h))

hex_to_bytes_lem_example :
    (all_hex_digits (codes "aBc") ≡ true
      → (bs : List ℕ) × (hex_to_bytes (prefix_0x ++ codes "aBc") none ≡ ok bs)
        × AllBytes bs
        × (bytes_to_hex bs none ≡ ok (prefix_0x ++ to_lower_case (even_digits (codes "aBc")))))
    × (all_hex_digits (codes "aBc") ≡ false
        → hex_to_bytes (prefix_0x ++ codes "aBc") none ≡ err base_error)
hex_to_bytes_lem_example = hex_to_bytes_lem (codes "aBc")

hex_to_bytes-bytes_to_hex_example :
    (bytes_to_hex (0 ∷ 171 ∷ []) none >>= λ s. hex_to_bytes s none) ≡ ok (0 ∷ 171 ∷ [])
hex_to_bytes-bytes_to_hex_example =
    hex_to_bytes-bytes_to_hex (0 ∷ 171 ∷ []) (omega arith, (omega arith, tt))
