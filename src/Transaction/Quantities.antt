-- ===== src/Transaction/Quantities.antt =====
-- The hex strings of the numbers in a serialized transaction.
use tosdk.Prelude.{ℕ, ◌≤◌, ◌≡◌, ◌≢◌, refl, arith, [], ◌∷◌, some, get_or, pos, negsuc}
use tosdk.Prelude.Results.{err, integer_out_of_range}
use tosdk.Strings.{Text}
use tosdk.Encoding.Hex.{
  Numeric, number, bigint, number_to_hex, max_safe_integer, to_big_int, truthy, max_value,
  out_of_range, twos_complement,
}
use tosdk.Transaction.{drop_zeros, to_minimal_quantity_hex}

drop_zeros-first : (s : Text) → get_or s 0 b'0' ≢ b'0' → drop_zeros s ≡ s
unfolding drop_zeros
drop_zeros-first [] h = refl
drop_zeros-first (c ∷ s) h = ground (arith, h)

-- Whether numberToHex takes a number with no size given: not a negative one, and not a `number`
-- that is no safe integer.
abbrev pub IsEncodable : Numeric → ℕ → Type 0
IsEncodable (number v) n = (v ≡ pos n) × (n ≤ max_safe_integer)
IsEncodable (bigint v) n = v ≡ pos n

-- A negative number is refused.
to_minimal_quantity_hex-negative :
    (value : Numeric) (n : ℕ)
    → to_big_int value ≡ negsuc n
    → to_minimal_quantity_hex (some value) ≡ err integer_out_of_range
unfolding to_minimal_quantity_hex number_to_hex to_big_int truthy max_value out_of_range
    twos_complement
to_minimal_quantity_hex-negative (number v) n h = ground (arith, h)
to_minimal_quantity_hex-negative (bigint v) n h = ground (arith, h)
