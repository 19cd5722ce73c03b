-- ===== src/Data/Slice.antt =====
-- A strict slice of a byte array: what it returns, and where it throws.
use tosdk.Prelude.{
  ℕ, zero, suc, ◌+◌, ◌-◌, ◌≤◌, ◌<◌, ◌≡◌, refl, sym, ap, ◌∙◌, arith, true, List, [], ◌∷◌, ◌++◌, some,
  length, take, drop, min, length-take, length-drop, take-append-drop,
}
use tosdk.Prelude.Results.{ok, err, slice_offset_out_of_bounds}
use tosdk.Data.{size, assert_start_offset, assert_end_offset, slice_between, slice_bytes}

length-slice_between :
    (start end : ℕ) (xs : List ℕ)
    → length (slice_between start end xs) ≡ min (end - start) (length xs - start)
unfolding slice_between
length-slice_between start end xs =
    length-take (end - start) (drop start xs) ∙ ap (min (end - start)) (length-drop start xs)

drop-nil : (n : ℕ) → drop {A = ℕ} n [] ≡ []
drop-nil zero = refl
drop-nil (suc n) = refl

drop-drop : (i j : ℕ) (xs : List ℕ) → drop j (drop i xs) ≡ drop (i + j) xs
drop-drop zero j xs = ap (λ n. drop n xs) (omega arith)
drop-drop (suc i) j [] = drop-nil j ∙ sym (drop-nil (suc i + j))
drop-drop (suc i) j (x ∷ xs) =
    let e : suc i + j ≡ suc (i + j) = omega arith in
    drop-drop i j xs ∙ sym (ap (λ n. drop n (x ∷ xs)) e)

slice_between-rest :
    (start end : ℕ) (xs : List ℕ)
    → start ≤ end
    → take start xs ++ (slice_between start end xs ++ drop end xs) ≡ xs
unfolding slice_between
slice_between-rest start end xs h =
    let e : start + (end - start) ≡ end = omega arith in
    ap (λ n. take start xs ++ (take (end - start) (drop start xs) ++ drop n xs)) (sym e)
    ∙ ap (λ t. take start xs ++ (take (end - start) (drop start xs) ++ t))
        (sym (drop-drop start (end - start) xs))
    ∙ ap (λ t. take start xs ++ t) (take-append-drop (end - start) (drop start xs))
    ∙ take-append-drop start xs

-- A strict slice within a byte array is the part of it between the offsets. One that ends behind
-- the array, or starts at its end and not at 0, is refused.
pub slice_bytes_lem :
    (start end : ℕ) (bs : List ℕ)
    → start ≤ end
    → (start < length bs
        → end ≤ length bs
        → (out : List ℕ) × (slice_bytes (some start) (some end) true bs ≡ ok out)
          × (take start bs ++ (out ++ drop end bs) ≡ bs)
          × (length out + start ≡ end))
      × (length bs < end
          → slice_bytes (some start) (some end) true bs ≡ err slice_offset_out_of_bounds)
      × (0 < start
          → length bs ≤ start
          → slice_bytes (some start) (some end) true bs ≡ err slice_offset_out_of_bounds)
unfolding slice_bytes assert_start_offset assert_end_offset size
slice_bytes_lem start end bs h = (
  λ s e. (
    slice_between start end bs,
    ground (arith, length-slice_between start end bs),
    slice_between-rest start end bs h,
    omega (arith, length-slice_between start end bs),
  ),
  λ e. ground (arith, length-slice_between start end bs),
  λ p e. ground arith,
)
