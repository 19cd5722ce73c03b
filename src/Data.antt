-- ===== src/Data.antt =====
-- src/utils/data/*.ts: size, padding, trimming, slicing and joining of hex strings and byte arrays.
-- A hex string is its code units with the prefix; a byte array is the list of its bytes. Sizes and
-- offsets are non-negative integers. An option that is left out is `none`.
use tosdk.Prelude.{
  ℕ, zero, suc, ◌+◌, ◌-◌, ◌*◌, ◌/◌, ◌%◌, Bool, true, false, ◌&&◌, ◌||◌, not, List, [], ◌∷◌, ◌++◌,
  Option, none, some, ltb, leb, ◌==◌, if◌then◌else◌, length, replicate, get_or, set, set_all, take,
  drop,
}
use tosdk.Prelude.Results.{
  Result, ok, err, throw_if, ◌>>=◌, ◌>>◌, size_exceeds_padding_size, slice_offset_out_of_bounds,
  type_error,
}
use tosdk.Strings.{Text, prefix_0x, starts_with, remove_0x, pad_start, pad_end, all_hex_digits}
use mathlib.Core.List.{foldl, reverse, map}
pub mod Pad
pub mod Join
pub mod Trim
pub mod Slice
mod Tests

-- Hex | ByteArray
pub data HexOrBytes : Type 0 where
  hex : Text → HexOrBytes
  bytes : List ℕ → HexOrBytes

pub data Dir : Type 0 where
  left right : Dir

-- isHex on a string, strict and not: /^0x[0-9a-fA-F]*$/, or the prefix alone.
unfoldable pub is_hex : Bool → Text → Bool
unfolding starts_with all_hex_digits
is_hex strict s =
    if strict then starts_with prefix_0x s && all_hex_digits (drop 2 s) else starts_with prefix_0x s

-- Math.ceil((value.length - 2) / 2) for a string with the prefix, else the length.
unfoldable pub size : HexOrBytes → ℕ
unfolding is_hex
size (hex s) = if is_hex false s then (length s - 2 + 1) / 2 else length s
size (bytes bs) = length bs

-- `size` is null where it is `none`; the default of 32 is the caller's to give.
unfoldable pub pad_hex : Dir → Option ℕ → Text → Result Text
unfolding remove_0x pad_start pad_end
pad_hex dir none hex_ = ok hex_
pad_hex dir (some size) hex_ = do
  let digits = remove_0x hex_
  throw_if (ltb (size * 2) (length digits)) size_exceeds_padding_size
  ok (
      prefix_0x ++ elim dir [
        | right ↦ pad_end (size * 2) b'0' digits
        | left ↦ pad_start (size * 2) b'0' digits
      ])

-- The loop of padBytes for i = i, …, i + n - 1. An index outside `bytes` reads undefined, which is
-- stored as 0.
unfoldable pub pad_loop : Dir → List ℕ → ℕ → ℕ → ℕ → List ℕ → List ℕ
pad_loop dir bs size zero i padded = padded
pad_loop dir bs size (suc n) i padded = pad_loop dir bs size n (suc i) (elim dir [
  | right ↦ set padded i (get_or bs i 0)
  | left ↦
      set padded (size - i - 1) (if ltb i (length bs) then get_or bs (length bs - i - 1) 0 else 0)
])

unfoldable pub pad_bytes : Dir → Option ℕ → List ℕ → Result (List ℕ)
unfolding pad_loop
pad_bytes dir none bs = ok bs
pad_bytes dir (some size) bs = do
  throw_if (ltb size (length bs)) size_exceeds_padding_size
  ok (pad_loop dir bs size size 0 (replicate size 0))

unfoldable pub pad : Dir → Option ℕ → HexOrBytes → Result HexOrBytes
unfolding pad_hex pad_bytes
pad dir size (hex s) = pad_hex dir size s >>= λ t. ok (hex t)
pad dir size (bytes bs) = pad_bytes dir size bs >>= λ cs. ok (bytes cs)

-- The loop of trim, over `data` from the side that is trimmed: zeros are counted up to the last
-- entry, which is never counted.
unfoldable pub zeros_run : ℕ → List ℕ → ℕ
zeros_run z [] = 0
zeros_run z (x ∷ []) = 0
zeros_run z (x ∷ y ∷ xs) = let more = suc (zeros_run z (y ∷ xs)) in if x == z then more else 0

unfoldable pub trim_run : Dir → ℕ → List ℕ → List ℕ
unfolding zeros_run
trim_run left z xs = drop (zeros_run z xs) xs
trim_run right z xs = take (length xs - zeros_run z (reverse xs)) xs

unfoldable pub trim_hex : Dir → Text → Text
unfolding remove_0x trim_run
trim_hex dir s =
    let run = trim_run dir b'0' (remove_0x s) in
    let lone : Bool = elim dir [ right ↦ length run == 1 | left ↦ false ] in
    let digits = if lone then run ++ (b'0' ∷ []) else run in
    prefix_0x ++ (if length digits % 2 == 1 then b'0' ∷ digits else digits)

unfoldable pub trim_bytes : Dir → List ℕ → List ℕ
unfolding trim_run
trim_bytes dir bs = trim_run dir 0 bs

-- start > 0 && start > size(value) - 1
unfoldable pub assert_start_offset : HexOrBytes → Option ℕ → Result (Unit {0})
unfolding size
assert_start_offset value none = ok tt
assert_start_offset value (some start) =
    throw_if (ltb 0 start && ltb (size value) (start + 1)) slice_offset_out_of_bounds

-- size(value) !== end - start, where both are given; a negative difference is no size.
unfoldable pub assert_end_offset : HexOrBytes → Option ℕ → Option ℕ → Result (Unit {0})
unfolding size
assert_end_offset value none end = ok tt
assert_end_offset value (some start) none = ok tt
assert_end_offset value (some start) (some end) =
    throw_if (not (size value + start == end)) slice_offset_out_of_bounds

-- xs.slice(start, end)
unfoldable pub slice_between : ℕ → ℕ → List ℕ → List ℕ
slice_between start end xs = take (end - start) (drop start xs)

abbrev or_else : Option ℕ → ℕ → ℕ
or_else none d = d
or_else (some n) d = n

unfoldable pub slice_bytes : Option ℕ → Option ℕ → Bool → List ℕ → Result (List ℕ)
unfolding assert_start_offset assert_end_offset slice_between
slice_bytes start end strict bs = do
  assert_start_offset (bytes bs) start
  let value = slice_between (or_else start 0) (or_else end (length bs)) bs
  if strict then assert_end_offset (bytes value) start end else ok tt
  ok value

unfoldable pub slice_hex : Option ℕ → Option ℕ → Bool → Text → Result Text
unfolding assert_start_offset assert_end_offset slice_between remove_0x
slice_hex start end strict s = do
  assert_start_offset (hex s) start
  let value =
      prefix_0x ++ slice_between (or_else start 0 * 2) (or_else end (length s) * 2) (remove_0x s)
  if strict then assert_end_offset (hex value) start end else ok tt
  ok value

-- A value of the type Hex has the prefix, by which the source tells the two apart.
unfoldable pub slice : Option ℕ → Option ℕ → Bool → HexOrBytes → Result HexOrBytes
unfolding slice_bytes slice_hex
slice start end strict (hex s) = slice_hex start end strict s >>= λ t. ok (hex t)
slice start end strict (bytes bs) = slice_bytes start end strict bs >>= λ cs. ok (bytes cs)

-- The first loop of concatBytes: the lengths added up.
unfoldable pub total_length : ℕ → List (List ℕ) → ℕ
total_length acc [] = acc
total_length acc (arr ∷ values) = total_length (acc + length arr) values

-- The second loop: each array written behind the last.
unfoldable pub fill : List ℕ → ℕ → List (List ℕ) → List ℕ
fill result offset [] = result
fill result offset (arr ∷ values) = fill (set_all result offset arr) (offset + length arr) values

unfoldable pub concat_bytes : List (List ℕ) → List ℕ
unfolding total_length fill
concat_bytes values = fill (replicate (total_length 0 values) 0) 0 values

unfoldable pub concat_hex : List Text → Text
unfolding remove_0x
concat_hex values = prefix_0x ++ foldl (λ acc x. acc ++ remove_0x x) [] values

-- The digits of hex strings; `x.replace` throws on a byte array.
unfoldable pub all_hex : List HexOrBytes → Result (List Text)
all_hex [] = ok []
all_hex (hex s ∷ values) = all_hex values >>= λ ts. ok (s ∷ ts)
all_hex (bytes bs ∷ values) = err type_error

-- What Uint8Array.set takes from a value: of a string, the number that each of its letters is, if it
-- is a digit, and else 0.
unfoldable pub as_array : HexOrBytes → List ℕ
as_array (bytes bs) = bs
as_array (hex s) = map (λ c. if leb b'0' c && leb c b'9' then c - b'0' else 0) s

-- By the type of the first value: no values at all are an empty byte array.
unfoldable pub concat : List HexOrBytes → Result HexOrBytes
unfolding concat_hex concat_bytes all_hex as_array
concat [] = ok (bytes [])
concat (hex s ∷ values) = all_hex values >>= λ ts. ok (hex (concat_hex (s ∷ ts)))
concat (bytes bs ∷ values) = ok (bytes (concat_bytes (bs ∷ map as_array values)))
