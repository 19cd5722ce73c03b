-- ===== src/Data/Pad.antt =====
-- Padding of byte arrays: the loop with its computed indices against plain concatenation.
use tosdk.Prelude.{
  ℕ, zero, suc, ◌+◌, ◌-◌, ◌≤◌, ◌<◌, ◌≡◌, refl, sym, ◌∙◌, arith, List, ◌++◌, some, ltb,
  if◌then◌else◌, length, replicate, get_or, length-set, length-append, length-replicate,
  get_or-set_self, get_or-set_ne, eq_of_get_or, get_or-append_left, get_or-append_right,
  get_or-replicate, get_or_past, Bool-cases, inl, inr,
}
use tosdk.Prelude.Results.{ok, err, size_exceeds_padding_size}
use tosdk.Data.{Dir, left, right, pad_loop, pad_bytes}

length-pad_loop :
    (dir : Dir) (bs : List ℕ) (size n i : ℕ) (padded : List ℕ)
    → length (pad_loop dir bs size n i padded) ≡ length padded
unfolding pad_loop
length-pad_loop dir bs size zero i padded = refl
length-pad_loop left bs size (suc n) i padded =
    length-pad_loop left bs size n (suc i) _ ∙ length-set padded _ _
length-pad_loop right bs size (suc n) i padded =
    length-pad_loop right bs size n (suc i) _ ∙ length-set padded _ _

-- Rounds i to i + n - 1 write the entries i to i + n - 1.
right_kept :
    (bs : List ℕ) (size n i : ℕ) (padded : List ℕ) (j : ℕ)
    → j < i
    → get_or (pad_loop right bs size n i padded) j 0 ≡ get_or padded j 0
unfolding pad_loop
right_kept bs size zero i padded j h = refl
right_kept bs size (suc n) i padded j h =
    right_kept bs size n (suc i) _ j (omega arith) ∙ get_or-set_ne padded i j _ 0 (omega arith)

right_written :
    (bs : List ℕ) (size n i : ℕ) (padded : List ℕ) (j : ℕ)
    → i + n ≤ length padded
    → i ≤ j
    → j < i + n
    → get_or (pad_loop right bs size n i padded) j 0 ≡ get_or bs j 0
unfolding pad_loop
right_written bs size zero i padded j h hj hn = absurd (omega arith)
right_written bs size (suc n) i padded j h hj hn = elim (Bool-cases (ltb i j)) [
  | inl later ↦
      right_written bs size n (suc i) _ j (omega (arith, length-set padded i (get_or bs i 0)))
        (ground arith) (omega arith)
  | inr now ↦
      let e : j ≡ i = ground arith in
      rw e (
        right_kept bs size n (suc i) _ i (omega arith) ∙ get_or-set_self padded i _ 0 (omega arith))
]

-- The entry that a left pad writes in round i is the one of the padded array.
left_entry :
    (bs : List ℕ) (size i : ℕ)
    → length bs ≤ size
    → i < size
    → (if ltb i (length bs) then get_or bs (length bs - i - 1) 0 else 0)
      ≡ get_or (replicate (size - length bs) 0 ++ bs) (size - i - 1) 0
left_entry bs size i hb hi =
    let zeros : List ℕ = replicate (size - length bs) 0 in
    let count = length-replicate {A = ℕ} (size - length bs) 0 in
    elim (Bool-cases (ltb i (length bs))) [
      | inl t ↦ rw t (
          sym (
            get_or-append_right zeros bs (size - i - 1) (length bs - i - 1) 0
              (ground (arith, count))))
      | inr t ↦ rw t (
          sym (
            get_or-append_left zeros bs (size - i - 1) 0 (ground (arith, count))
            ∙ get_or-replicate (size - length bs) (size - i - 1) 0))
    ]

-- Rounds i to i + n - 1 write the entries counted from the end, last first.
left_kept :
    (bs : List ℕ) (size n i : ℕ) (padded : List ℕ) (j : ℕ)
    → size ≤ i + j
    → i + n ≤ size
    → get_or (pad_loop left bs size n i padded) j 0 ≡ get_or padded j 0
unfolding pad_loop
left_kept bs size zero i padded j h hn = refl
left_kept bs size (suc n) i padded j h hn =
    left_kept bs size n (suc i) _ j (omega arith) (omega arith)
    ∙ get_or-set_ne padded (size - i - 1) j _ 0 (omega arith)

left_written :
    (bs : List ℕ) (size n i : ℕ) (padded : List ℕ) (j : ℕ)
    → length padded ≡ size
    → length bs ≤ size
    → i + n ≤ size
    → i + j < size
    → size ≤ i + n + j
    → get_or (pad_loop left bs size n i padded) j 0
      ≡ get_or (replicate (size - length bs) 0 ++ bs) j 0
unfolding pad_loop
left_written bs size zero i padded j hp hb hi hj hn = absurd (omega arith)
left_written bs size (suc n) i padded j hp hb hi hj hn = elim (Bool-cases (ltb (suc i + j) size)) [
  | inl later ↦
      left_written bs size n (suc i) _ j (length-set padded _ _ ∙ hp) hb (omega arith)
        (ground arith) (omega arith)
  | inr now ↦
      let e : j ≡ size - i - 1 = ground arith in
      rw e (
        left_kept bs size n (suc i) _ (size - i - 1) (omega arith) (omega arith)
        ∙ get_or-set_self padded (size - i - 1) _ 0 (omega arith)
        ∙ left_entry bs size i hb (omega arith))
]

pad_loop-left :
    (bs : List ℕ) (size : ℕ)
    → length bs ≤ size
    → pad_loop left bs size size 0 (replicate size 0) ≡ replicate (size - length bs) 0 ++ bs
pad_loop-left bs size h =
    let zeros = length-replicate {A = ℕ} size 0 in
    let long = length-pad_loop left bs size size 0 (replicate size 0) ∙ zeros in
    let front = length-replicate {A = ℕ} (size - length bs) 0 in
    eq_of_get_or _ _ 0
      (omega (arith, long, front, length-append (replicate (size - length bs) 0) bs))
      (λ j hj.
        left_written bs size size 0 (replicate size 0) j zeros h (omega arith)
          (omega (arith, long, hj)) (omega arith))

pad_loop-right :
    (bs : List ℕ) (size : ℕ)
    → length bs ≤ size
    → pad_loop right bs size size 0 (replicate size 0) ≡ bs ++ replicate (size - length bs) 0
pad_loop-right bs size h =
    let zeros = length-replicate {A = ℕ} size 0 in
    let long = length-pad_loop right bs size size 0 (replicate size 0) ∙ zeros in
    let back = length-replicate {A = ℕ} (size - length bs) 0 in
    eq_of_get_or _ _ 0
      (omega (arith, long, back, length-append bs (replicate (size - length bs) 0)))
      (λ j hj.
        right_written bs size size 0 (replicate size 0) j (omega (arith, zeros)) (omega arith)
          (omega (arith, long, hj))
        ∙ elim (Bool-cases (ltb j (length bs))) [
          | inl t ↦ sym (get_or-append_left bs _ j 0 (ground arith))
          | inr t ↦
              get_or_past bs j 0 (ground arith)
              ∙ sym (
                  get_or-append_right bs (replicate (size - length bs) 0) j (j - length bs) 0
                    (ground arith)
                  ∙ get_or-replicate (size - length bs) (j - length bs) 0)
        ])

-- A byte array that fits is padded with zeros in front or behind to the size asked for, byte for
-- byte, and one that is longer is refused.
pub pad_bytes_lem :
    (bs : List ℕ) (size : ℕ)
    → (length bs ≤ size
        → (pad_bytes left (some size) bs ≡ ok (replicate (size - length bs) 0 ++ bs))
          × (pad_bytes right (some size) bs ≡ ok (bs ++ replicate (size - length bs) 0)))
      × (size < length bs
          → (dir : Dir) → pad_bytes dir (some size) bs ≡ err size_exceeds_padding_size)
unfolding pad_bytes
pad_bytes_lem bs size = (
  λ h. (ground (arith, pad_loop-left bs size h), ground (arith, pad_loop-right bs size h)),
  λ h dir. ground arith,
)
