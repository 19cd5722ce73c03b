-- ===== src/Abi/Tests.antt =====
-- Encodings of concrete parameters (encodeAbiParameters.ts).
use tosdk.Prelude.{
  arith, ℕ, Bool, ◌+◌, ◌*◌, ◌%◌, ◌<◌, ◌≤◌, ◌≡◌, refl, true, false, List, [], ◌∷◌, ◌++◌, some, none,
  map, length, replicate,
}
use tosdk.Prelude.Results.{ok}
use tosdk.Strings.{Text, prefix_0x, codes, text_eq, to_base16}
use tosdk.Data.{hex}
use tosdk.Lru.{LruMap}
use tosdk.Abi.Prepare.{
  AbiParameter, parameter, no_components, Encoded, prepare_or, Value, boolean, array, element,
  no_elements, prepare_with, encode_abi_parameters, prepare_as, encode_array, encode_elements,
  prepare_elements, encode_elementary, finish_array,
}
use tosdk.Abi.Sizes.{param_size}
use tosdk.Abi.Fuel.{prepared, prepare_param_lem}
use tosdk.Encoding.Hex.{bool_to_hex}
use tosdk.Abi.{PreparedParam, encode_bool, encode_params, encode_bytes, get_array_components}
use tosdk.Abi.Layout.{Item, hexed, word, param_of, head_size, tail_size, Placed, encode_params_lem}
use tosdk.Abi.Words.{filler, encode_bytes_lem}

array_of_arrays : get_array_components (codes "uint8[][3]") ≡ some (some 3, codes "uint8[]")
unfolding get_array_components
array_of_arrays = refl

no_array : get_array_components (codes "uint8") ≡ none
unfolding get_array_components
no_array = refl

abbrev one_of_each : List Item
one_of_each = (false, replicate 64 b'1') ∷ (true, replicate 64 b'2') ∷ []

encode_params_lem_example :
    (digits : Text) × (encode_params (map param_of one_of_each) ≡ ok (hex (prefix_0x ++ digits)))
    × (length digits ≡ 2 * (head_size one_of_each + tail_size one_of_each))
    × Placed digits 0 one_of_each
encode_params_lem_example =
    encode_params_lem (false, replicate 64 b'1') ((true, replicate 64 b'2') ∷ []) (refl, (refl, tt))
      (omega arith)

encode_bytes_lem_example :
    (encode_bytes (prefix_0x ++ codes "abcd") (codes "bytes")
      ≡ ok (record {
        dynamic = true;
        encoded = hexed (word 2 ++ (codes "abcd" ++ replicate (filler 4) b'0'));
      }))
    × ((4 + filler 4) % 64 ≡ 0)
    × (filler 4 < 64)
encode_bytes_lem_example = encode_bytes_lem (codes "abcd") refl (omega arith)

abbrev flags : AbiParameter
flags = parameter none (codes "bool[]") no_components

abbrev two_flags : Value
two_flags = array (element (boolean true) (element (boolean false) no_elements))

abbrev empty_cache : LruMap Bool
empty_cache = record { entries = []; max_size = 8192 }

prepare_param_lem_example :
    ((stopped : LruMap Bool → Encoded PreparedParam) (f : ℕ)
      → param_size flags ≤ f
      → prepare_or stopped f flags two_flags empty_cache ≡ prepared flags two_flags empty_cache)
    × (prepared flags two_flags empty_cache ≡ prepare_with prepared flags two_flags empty_cache)
prepare_param_lem_example = prepare_param_lem flags two_flags empty_cache

-- The place of the array, its length, and the two flags.
encoded_flags :
    (encode_abi_parameters 7 (flags ∷ []) (two_flags ∷ []) empty_cache).0
    ≡ ok (hex (prefix_0x ++ (word 32 ++ (word 2 ++ (word 1 ++ word 0)))))
unfolding encode_abi_parameters prepare_as get_array_components encode_array encode_elements
    prepare_elements text_eq encode_elementary encode_bool bool_to_hex finish_array encode_params
    to_base16
encoded_flags = refl
