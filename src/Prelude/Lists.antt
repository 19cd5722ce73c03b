-- ===== src/Prelude/Lists.antt =====
-- Lists measured and indexed by native numbers, under the library's names.
use Prim.Native.Nat.{ℕ, zero, suc, ◌+◌, ◌-◌, ◌≤◌, ◌<◌, min}
use mathlib.Core.Path.{◌≡◌, refl, ap, ◌∙◌}
use mathlib.Core.Logic.{◌≢◌}
use mathlib.Core.List.{List, [], ◌∷◌, ◌++◌, map, append_assoc}
use mathlib.Core.Option.{Option, none, some}
use native.Mathlib.Omega.{arith}

module _ {ℓ} {A : Type ℓ} where
  abbrev pub length : List A → ℕ
  length [] = 0
  length (x ∷ xs) = suc (length xs)

  abbrev pub get_elem? : List A → ℕ → Option A
  get_elem? [] i = none
  get_elem? (x ∷ xs) zero = some x
  get_elem? (x ∷ xs) (suc i) = get_elem? xs i

  -- A write out of bounds changes nothing.
  abbrev pub set : List A → ℕ → A → List A
  set [] i v = []
  set (x ∷ xs) zero v = v ∷ xs
  set (x ∷ xs) (suc i) v = x ∷ set xs i v

  pub length-append : (xs ys : List A) → length (xs ++ ys) ≡ length xs + length ys
  length-append [] ys = omega arith
  length-append (x ∷ xs) ys = omega (arith, length-append xs ys)

module _ {ℓ} {A : Type ℓ} where
  pub length-set : (xs : List A) (i : ℕ) (v : A) → length (set xs i v) ≡ length xs
  length-set [] i v = refl
  length-set (x ∷ xs) zero v = refl
  length-set (x ∷ xs) (suc i) v = ap suc (length-set xs i v)

  pub get_elem?-set_self :
      (xs : List A) (i : ℕ) (v : A) → i < length xs → get_elem? (set xs i v) i ≡ some v
  get_elem?-set_self [] i v h = elim h [ ]
  get_elem?-set_self (x ∷ xs) zero v h = refl
  get_elem?-set_self (x ∷ xs) (suc i) v h = get_elem?-set_self xs i v (omega arith)

  pub get_elem?-set_ne :
      (xs : List A) {i j : ℕ} (v : A) → i ≢ j → get_elem? (set xs i v) j ≡ get_elem? xs j
  get_elem?-set_ne [] v h = refl
  get_elem?-set_ne (x ∷ xs) {i = zero} {j = zero} v h = absurd (h refl)
  get_elem?-set_ne (x ∷ xs) {i = zero} {j = suc j} v h = refl
  get_elem?-set_ne (x ∷ xs) {i = suc i} {j = zero} v h = refl
  get_elem?-set_ne (x ∷ xs) {i = suc i} {j = suc j} v h = get_elem?-set_ne xs v (λ e. h (ap suc e))

module _ {ℓ} {A : Type ℓ} where
  abbrev pub get_or : List A → ℕ → A → A
  get_or [] i d = d
  get_or (x ∷ xs) zero d = x
  get_or (x ∷ xs) (suc i) d = get_or xs i d

  abbrev pub take : ℕ → List A → List A
  take zero xs = []
  take (suc n) [] = []
  take (suc n) (x ∷ xs) = x ∷ take n xs

  abbrev pub drop : ℕ → List A → List A
  drop zero xs = xs
  drop (suc n) [] = []
  drop (suc n) (x ∷ xs) = drop n xs

  abbrev pub replicate : ℕ → A → List A
  replicate zero a = []
  replicate (suc n) a = a ∷ replicate n a

  pub take-append-drop : (n : ℕ) (xs : List A) → take n xs ++ drop n xs ≡ xs
  take-append-drop zero xs = refl
  take-append-drop (suc n) [] = refl
  take-append-drop (suc n) (x ∷ xs) = rw (take-append-drop n xs)

  pub length-take : (n : ℕ) (xs : List A) → length (take n xs) ≡ min n (length xs)
  length-take zero xs = omega arith
  length-take (suc n) [] = omega arith
  length-take (suc n) (x ∷ xs) = omega (arith, length-take n xs)

  pub length-drop : (n : ℕ) (xs : List A) → length (drop n xs) ≡ length xs - n
  length-drop zero xs = omega arith
  length-drop (suc n) [] = omega arith
  length-drop (suc n) (x ∷ xs) = omega (arith, length-drop n xs)

  pub length-replicate : (n : ℕ) (a : A) → length (replicate n a) ≡ n
  length-replicate zero a = refl
  length-replicate (suc n) a = ap suc (length-replicate n a)

  pub length-map {κ} : {B : Type κ} (xs : List A) (f : A → B) → length (map f xs) ≡ length xs
  length-map [] f = refl
  length-map (x ∷ xs) f = ap suc (length-map xs f)

module _ {ℓ} {A : Type ℓ} where
  -- `xs.set(vs, i)` of a typed array: the block `vs` written from index `i` on.
  abbrev pub set_all : List A → ℕ → List A → List A
  set_all xs i [] = xs
  set_all xs i (v ∷ vs) = set_all (set xs i v) (suc i) vs

  pub length-set_all : (xs : List A) (i : ℕ) (vs : List A) → length (set_all xs i vs) ≡ length xs
  length-set_all xs i [] = refl
  length-set_all xs i (v ∷ vs) =
      omega (arith, length-set_all (set xs i v) (suc i) vs, length-set xs i v)

  -- `xs.slice(i, j)` within bounds.
  abbrev pub slice_range : ℕ → ℕ → List A → List A
  slice_range i j xs = take (j - i) (drop i xs)

  pub get_or-set_self :
      (xs : List A) (i : ℕ) (v d : A) → i < length xs → get_or (set xs i v) i d ≡ v
  get_or-set_self [] i v d h = elim h [ ]
  get_or-set_self (x ∷ xs) zero v d h = refl
  get_or-set_self (x ∷ xs) (suc i) v d h = get_or-set_self xs i v d (omega arith)

  pub get_or-set_ne :
      (xs : List A) (i j : ℕ) (v d : A) → i ≢ j → get_or (set xs i v) j d ≡ get_or xs j d
  get_or-set_ne [] i j v d h = refl
  get_or-set_ne (x ∷ xs) zero zero v d h = absurd (h refl)
  get_or-set_ne (x ∷ xs) zero (suc j) v d h = refl
  get_or-set_ne (x ∷ xs) (suc i) zero v d h = refl
  get_or-set_ne (x ∷ xs) (suc i) (suc j) v d h = get_or-set_ne xs i j v d (λ e. h (ap suc e))

  -- Before the block nothing changes.
  pub get_or-set_all_before :
      (xs : List A) (i : ℕ) (vs : List A) (j : ℕ) (d : A)
      → j < i
      → get_or (set_all xs i vs) j d ≡ get_or xs j d
  get_or-set_all_before xs i [] j d h = refl
  get_or-set_all_before xs i (v ∷ vs) j d h =
      get_or-set_all_before (set xs i v) (suc i) vs j d (omega arith)
      ∙ get_or-set_ne xs i j v d (omega arith)

  -- In the block its entries are read back.
  pub get_or-set_all :
      (xs : List A) (i : ℕ) (vs : List A) (j k : ℕ) (d : A)
      → i + length vs ≤ length xs
      → j < length vs
      → k ≡ i + j
      → get_or (set_all xs i vs) k d ≡ get_or vs j d
  get_or-set_all xs i [] j k d h hj e = absurd (omega arith)
  get_or-set_all xs i (v ∷ vs) zero k d h hj e =
      let k_eq : k ≡ i = omega arith in
      rw k_eq (
        get_or-set_all_before (set xs i v) (suc i) vs i d (omega arith)
        ∙ get_or-set_self xs i v d (omega arith))
  get_or-set_all xs i (v ∷ vs) (suc j) k d h hj e =
      get_or-set_all (set xs i v) (suc i) vs j k d (omega (arith, length-set xs i v)) (omega arith)
        (omega arith)

  -- The block as a list: `xs` with the middle part replaced.
  pub set-append :
      (pre : List A) (x : A) (post : List A) (v : A)
      → set (pre ++ (x ∷ post)) (length pre) v ≡ pre ++ (v ∷ post)
  set-append [] x post v = refl
  set-append (p ∷ pre) x post v = ap (◌∷◌ p) (set-append pre x post v)

  pub set_all-append :
      (pre old post vs : List A)
      → length old ≡ length vs
      → set_all (pre ++ (old ++ post)) (length pre) vs ≡ pre ++ (vs ++ post)
  set_all-append pre [] post [] h = refl
  set_all-append pre [] post (v ∷ vs) h = absurd (omega arith)
  set_all-append pre (x ∷ old) post [] h = absurd (omega arith)
  set_all-append pre (x ∷ old) post (v ∷ vs) h =
      let here = set-append pre x (old ++ post) v in
      let there : set_all ((pre ++ (v ∷ [])) ++ (old ++ post)) (length (pre ++ (v ∷ []))) vs
          ≡ (pre ++ (v ∷ [])) ++ (vs ++ post) =
        set_all-append (pre ++ (v ∷ [])) old post vs (omega arith) in
      let at_end : length (pre ++ (v ∷ [])) ≡ suc (length pre) =
        omega (arith, length-append pre (v ∷ [])) in
      rw (here, ← append_assoc pre (v ∷ []) (old ++ post), ← append_assoc pre (v ∷ []) (vs ++ post))
        (rw at_end at there)

  -- A list is its first `i` entries, the block of `n` behind them, and the rest.
  pub take_split : (n : ℕ) (xs : List A) → n ≤ length xs → length (take n xs) ≡ n
  take_split zero xs h = refl
  take_split (suc n) [] h = absurd (omega arith)
  take_split (suc n) (x ∷ xs) h = ap suc (take_split n xs (omega arith))

  pub take-append_exact : (xs ys : List A) → take (length xs) (xs ++ ys) ≡ xs
  take-append_exact [] ys = refl
  take-append_exact (x ∷ xs) ys = ap (◌∷◌ x) (take-append_exact xs ys)

  pub drop-append_exact : (xs ys : List A) → drop (length xs) (xs ++ ys) ≡ ys
  drop-append_exact [] ys = refl
  drop-append_exact (x ∷ xs) ys = drop-append_exact xs ys

module _ {ℓ} {A : Type ℓ} where
  -- Lists of one length with the same entries are equal.
  pub eq_of_get_or :
      (xs ys : List A) (d : A)
      → length xs ≡ length ys
      → ((j : ℕ) → j < length xs → get_or xs j d ≡ get_or ys j d)
      → xs ≡ ys
  eq_of_get_or [] [] d h e = refl
  eq_of_get_or [] (y ∷ ys) d h e = absurd (omega arith)
  eq_of_get_or (x ∷ xs) [] d h e = absurd (omega arith)
  eq_of_get_or (x ∷ xs) (y ∷ ys) d h e =
      cc
        (e zero (omega arith), eq_of_get_or xs ys d (omega arith) (λ j hj. e (suc j) (omega arith)))

  pub get_or-append_left :
      (xs ys : List A) (j : ℕ) (d : A) → j < length xs → get_or (xs ++ ys) j d ≡ get_or xs j d
  get_or-append_left [] ys j d h = absurd (omega arith)
  get_or-append_left (x ∷ xs) ys zero d h = refl
  get_or-append_left (x ∷ xs) ys (suc j) d h = get_or-append_left xs ys j d (omega arith)

  pub get_or-append_right :
      (xs ys : List A) (j k : ℕ) (d : A) → j ≡ length xs + k → get_or (xs ++ ys) j d ≡ get_or ys k d
  get_or-append_right [] ys j k d h = let e : j ≡ k = omega arith in rw e refl
  get_or-append_right (x ∷ xs) ys zero k d h = absurd (omega arith)
  get_or-append_right (x ∷ xs) ys (suc j) k d h = get_or-append_right xs ys j k d (omega arith)

  pub get_or-replicate : (n j : ℕ) (a : A) → get_or (replicate n a) j a ≡ a
  get_or-replicate zero j a = refl
  get_or-replicate (suc n) zero a = refl
  get_or-replicate (suc n) (suc j) a = get_or-replicate n j a

  pub get_or_past : (xs : List A) (j : ℕ) (d : A) → length xs ≤ j → get_or xs j d ≡ d
  get_or_past [] j d h = refl
  get_or_past (x ∷ xs) zero d h = absurd (omega arith)
  get_or_past (x ∷ xs) (suc j) d h = get_or_past xs j d (omega arith)

  -- The lists of a list, one behind the other.
  abbrev pub joined : List (List A) → List A
  joined [] = []
  joined (xs ∷ xss) = xs ++ joined xss
