-- ===== src/Encoding/Rlp/Layout.antt =====
-- The RLP layout, said without cursors: a payload behind a header of its length.
use tosdk.Prelude.{
  ℕ, zero, suc, ◌+◌, ◌/◌, ◌%◌, ◌^◌, List, [], ◌∷◌, ◌++◌, ltb, leb, if◌then◌else◌, not, length,
}
use tosdk.Prelude.Results.{Result, ok, throw_if, ◌>>=◌, ◌>>◌, base_error}
use tosdk.Encoding.Rlp.{RecursiveArray, Elements, leaf, array, nil, cons, leaf_bytes, is_single}

-- The shortest big-endian bytes of n; four rounds are enough below 2 ^ 32.
unfoldable pub big_endian : ℕ → ℕ → List ℕ
big_endian zero n = []
big_endian (suc f) n =
    let high = big_endian f (n / 256) in if ltb n 256 then n ∷ [] else high ++ (n % 256 ∷ [])

-- A short length stands in the first byte, a long one behind a byte that tells its size.
unfoldable pub header : ℕ → ℕ → List ℕ
unfolding big_endian
header offset n =
    if leb n 55 then (offset + n) ∷ [] else (offset + 55 + length (big_endian 4 n)) ∷ big_endian 4 n

unfoldable pub string_layout : List ℕ → List ℕ
unfolding is_single header
string_layout bs = if is_single bs then bs else header 0x80 (length bs) ++ bs

abbrev pub check_length : ℕ → Result (Unit {0})
check_length n = throw_if (not (ltb n (2 ^ 32))) base_error

unfoldable mutual
  pub layout : RecursiveArray → Result (List ℕ)
  layout (leaf value) = leaf_bytes value >>= λ bs. check_length (length bs) >> ok (string_layout bs)
  layout (array xs) =
      layouts xs >>= λ body. check_length (length body) >> ok (header 0xc0 (length body) ++ body)

  pub layouts : Elements → Result (List ℕ)
  layouts nil = ok []
  layouts (cons x xs) = layout x >>= λ a. layouts xs >>= λ b. ok (a ++ b)
