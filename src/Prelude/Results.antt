-- ===== src/Prelude/Results.antt =====
-- Code that throws: a value, or the class of the exception.
use mathlib.Core.Bool.{Bool, true, false}
use mathlib.Core.List.{List, [], ◌∷◌}

-- The exceptions that the modelled code throws, by class (errors/*.ts and the built-in errors of
-- the language). The message and the payload are not kept.
pub data Error : Type 0 where
  position_out_of_bounds negative_offset recursive_read_limit_exceeded : Error
  size_exceeds_padding_size size_overflow slice_offset_out_of_bounds : Error
  integer_out_of_range invalid_hex_boolean : Error
  invalid_address invalid_chain_id invalid_serializable_transaction : Error
  base_error syntax_error range_error type_error : Error
  abi_encoding_bytes_size_mismatch abi_encoding_array_length_mismatch invalid_array : Error
  invalid_abi_encoding_type abi_encoding_length_mismatch : Error
  invalid_log_filter transaction_receipt_timeout subscriptions_unsupported : Error
  plain_error rpc_url_required rpc_request rpc_response : Error

pub data Result {ℓ} (Value : Type ℓ) : Type ℓ where
  ok : (value : Value) → Result Value
  err : (thrown : Error) → Result Value

infixl 5 ◌>>=◌ ◌>>◌
-- The rest of a body runs on what was returned, and not at all behind an exception.
abbrev pub ◌>>=◌ {ℓ κ} : {V : Type ℓ} {W : Type κ} → Result V → (rest : V → Result W) → Result W
err thrown >>= rest = err thrown
ok value >>= rest = rest value

-- `if (test) throw e`
abbrev pub throw_if : (test : Bool) → Error → Result (Unit {0})
throw_if false thrown = ok tt
throw_if true thrown = err thrown

abbrev pub ◌>>◌ {ℓ} : {W : Type ℓ} → Result (Unit {0}) → (rest : Result W) → Result W
first >> rest = first >>= λ done. rest

-- `xs.map(f)` where `f` may throw: the first exception in order is the one thrown.
abbrev pub map_result {ℓ κ} : {A : Type ℓ} {B : Type κ} → (A → Result B) → List A → Result (List B)
map_result f [] = ok []
map_result f (x ∷ xs) = f x >>= λ y. map_result f xs >>= λ ys. ok (y ∷ ys)
