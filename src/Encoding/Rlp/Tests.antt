-- ===== src/Encoding/Rlp/Tests.antt =====
-- Runs of toRlp.
use tosdk.Prelude.{◌≡◌, refl, [], ◌∷◌}
use tosdk.Prelude.Results.{ok}
use tosdk.Strings.{codes, digit_value}
use tosdk.Data.{hex, bytes}
use tosdk.Encoding.Rlp.{RecursiveArray, leaf, array, nil, cons, leaf_bytes, to_rlp}
use tosdk.Encoding.Hex.{hex_to_bytes}
use tosdk.Encoding.Rlp.Layout.{layout, string_layout}
use tosdk.Encoding.Rlp.Correct.{to_rlp-layout}

-- [ "cat", [], 0x0400 ]
abbrev nested : RecursiveArray
nested = array (
    cons (leaf (bytes (99 ∷ 97 ∷ 116 ∷ [])))
      (cons (array nil) (cons (leaf (hex (codes "0x0400"))) nil)))

layout-nested : layout nested ≡ ok (200 ∷ 131 ∷ 99 ∷ 97 ∷ 116 ∷ 192 ∷ 130 ∷ 4 ∷ 0 ∷ [])
unfolding layout leaf_bytes hex_to_bytes digit_value string_layout
layout-nested = refl

to_rlp-layout_example : to_rlp nested ≡ layout nested
to_rlp-layout_example = to_rlp-layout nested
