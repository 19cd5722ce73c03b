-- ===== src/Encoding/Rlp.antt =====
-- src/utils/encoding/toRlp.ts: nested arrays of byte strings, encoded through the cursor. An
-- `Encodable` is the length that was computed and the closure that writes.
use tosdk.Prelude.{
  ℕ, suc, ◌+◌, ◌^◌, Bool, true, false, ◌&&◌, List, [], ◌∷◌, Option, none, some, ltb, leb, ◌==◌,
  if◌then◌else◌, length, replicate, get_or,
}
use tosdk.Prelude.Results.{Result, ok, err, ◌>>=◌, base_error}
use tosdk.Strings.{Text}
use tosdk.Cursor
use tosdk.Cursor.{
  Cursor, M, push_byte, push_bytes, push_uint8, push_uint16, push_uint24, push_uint32,
  create_cursor,
}
use tosdk.Data.{HexOrBytes, hex, bytes}
use tosdk.Encoding.Hex.{hex_to_bytes, bytes_to_hex}
use mathlib.Core.List.{foldl}
pub mod Layout
pub mod Writes
pub mod Pushes
pub mod Closures
pub mod Correct
mod Tests

-- RecursiveArray<ByteArray> | RecursiveArray<Hex>
mutual
  pub data RecursiveArray : Type 0 where
    leaf : HexOrBytes → RecursiveArray
    array : Elements → RecursiveArray

  pub data Elements : Type 0 where
    nil : Elements
    cons : RecursiveArray → Elements → Elements

pub record Encodable : Type 0 where
  pub size : ℕ
  pub encode : M (Unit {0})

unfoldable pub get_size_of_length : ℕ → Result ℕ
get_size_of_length n =
    if ltb n (2 ^ 8)
    then ok 1
    else if ltb n (2 ^ 16)
    then ok 2
    else if ltb n (2 ^ 24)
    then ok 3
    else if ltb n (2 ^ 32)
    then ok 4
    else err base_error

-- cursor.pushUint8(n), pushUint16, pushUint24 or pushUint32, by the size.
unfoldable pub push_length : ℕ → ℕ → M (Unit {0})
push_length k n =
    if k == 1
    then push_uint8 n
    else if k == 2
    then push_uint16 n
    else if k == 3
    then push_uint24 n
    else push_uint32 n

-- for (const { encode } of list) encode(cursor)
unfoldable pub encode_all : List Encodable → M (Unit {0})
encode_all [] = Cursor.pure tt
encode_all (x ∷ list) = Cursor.◌>>◌ (x.encode) (encode_all list)

unfoldable pub list_length : ℕ → ℕ → ℕ
list_length body k = if leb body 55 then 1 + body else 1 + k + body

unfoldable pub encode_list : List Encodable → ℕ → ℕ → M (Unit {0})
unfolding push_length encode_all
encode_list list body k =
    Cursor.◌>>◌
      (if leb body 55
        then push_byte (0xc0 + body)
        else Cursor.◌>>◌ (push_byte (0xc0 + 55 + k)) (push_length k body))
      (encode_all list)

unfoldable pub get_encodable_list : List Encodable → Result Encodable
get_encodable_list list = do
  let body = foldl (λ acc (x : Encodable). acc + x.size) 0 list
  k ← get_size_of_length body
  ok (record { size = list_length body k; encode = encode_list list body k })

-- bytes.length === 1 && bytes[0] < 0x80
unfoldable pub is_single : List ℕ → Bool
is_single bs = length bs == 1 && ltb (get_or bs 0 0) 0x80

unfoldable pub bytes_length : List ℕ → ℕ → ℕ
unfolding is_single
bytes_length bs k =
    if is_single bs then 1 else if leb (length bs) 55 then 1 + length bs else 1 + k + length bs

unfoldable pub encode_bytes : List ℕ → ℕ → M (Unit {0})
unfolding is_single push_length
encode_bytes bs k =
    if is_single bs
    then push_bytes bs
    else if leb (length bs) 55
    then Cursor.◌>>◌ (push_byte (0x80 + length bs)) (push_bytes bs)
    else Cursor.◌>>◌ (push_byte (0x80 + 55 + k))
        (Cursor.◌>>◌ (push_length k (length bs)) (push_bytes bs))

unfoldable pub leaf_bytes : HexOrBytes → Result (List ℕ)
leaf_bytes (hex s) = hex_to_bytes s none
leaf_bytes (bytes bs) = ok bs

unfoldable pub get_encodable_bytes : HexOrBytes → Result Encodable
get_encodable_bytes value = do
  bs ← leaf_bytes value
  k ← get_size_of_length (length bs)
  ok (record { size = bytes_length bs k; encode = encode_bytes bs k })

unfoldable mutual
  pub get_encodable : RecursiveArray → Result Encodable
  get_encodable (leaf value) = get_encodable_bytes value
  get_encodable (array xs) = get_encodables xs >>= λ list. get_encodable_list list

  -- bytes.map((x) => getEncodable(x))
  pub get_encodables : Elements → Result (List Encodable)
  get_encodables nil = ok []
  get_encodables (cons x xs) = get_encodable x >>= λ e. get_encodables xs >>= λ es. ok (e ∷ es)

-- The bytes of the cursor after the closure has run on it, unless it threw.
unfoldable pub final_bytes : Result (Unit {0}) × Cursor → Result (List ℕ)
final_bytes (r, c) = r >>= λ _. ok c.bytes

unfoldable pub run_encodable : Encodable → Result (List ℕ)
unfolding final_bytes
run_encodable e = final_bytes (e.encode (create_cursor (replicate e.size 0) none))

-- toRlp(bytes, 'bytes')
unfoldable pub to_rlp : RecursiveArray → Result (List ℕ)
unfolding get_encodable run_encodable
to_rlp x = get_encodable x >>= λ e. run_encodable e

-- toRlp(bytes, 'hex')
unfoldable pub to_rlp_hex : RecursiveArray → Result Text
unfolding to_rlp
to_rlp_hex x = to_rlp x >>= λ bs. bytes_to_hex bs none
