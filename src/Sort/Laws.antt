-- ===== src/Sort/Laws.antt =====
-- Sorting gives the same items in order.
use tosdk.Prelude.{ℤ, ◌≡◌, inl, inr, arith, Bool, false, List, [], ◌∷◌, Bool-cases}
use tosdk.Sort.{is_positive, insert, sort, IsComparator}
use tosdk.Arrays.{All, Member, filter, All-filter}
use mathlib.Core.List.{Perm}
use mathlib.Core.List.Perm

module _ {A : Type 0} (compare : A → A → ℤ) where
  -- Every item is not after those behind it.
  abbrev pub Ordered : List A → Type 0
  Ordered [] = Unit
  Ordered (x ∷ xs) = All (λ y. is_positive (compare x y) ≡ false) xs × Ordered xs

  insert-perm : (x : A) (ys : List A) → Perm (insert compare x ys) (x ∷ ys)
  unfolding insert
  insert-perm x [] = Perm.refl (x ∷ [])
  insert-perm x (y ∷ ys) = elim (Bool-cases (is_positive (compare x y))) [
    | inl e ↦ rw e (Perm.trans (Perm.cons y (insert-perm x ys)) (Perm.swap x y ys))
    | inr e ↦ rw e (Perm.refl (x ∷ y ∷ ys))
  ]

  pub sort-perm : (xs : List A) → Perm (sort compare xs) xs
  unfolding sort
  sort-perm [] = Perm.refl []
  sort-perm (x ∷ xs) = Perm.trans (insert-perm x (sort compare xs)) (Perm.cons x (sort-perm xs))

  module _ (c : IsComparator compare) where
    All-insert :
        (a x : A) (ys : List A)
        → is_positive (compare a x) ≡ false
        → All (λ y. is_positive (compare a y) ≡ false) ys
        → All (λ y. is_positive (compare a y) ≡ false) (insert compare x ys)
    unfolding insert
    All-insert a x [] p h = (p, tt)
    All-insert a x (y ∷ ys) p h = elim (Bool-cases (is_positive (compare x y))) [
      | inl e ↦ rw e (h.0, All-insert a x ys p h.1)
      | inr e ↦ rw e (p, h)
    ]

    All-chained :
        (a b : A) (ys : List A)
        → is_positive (compare a b) ≡ false
        → All (λ y. is_positive (compare b y) ≡ false) ys
        → All (λ y. is_positive (compare a y) ≡ false) ys
    All-chained a b [] p h = tt
    All-chained a b (y ∷ ys) p h = (c.chained a b y p h.0, All-chained a b ys p h.1)

    insert-Ordered : (x : A) (ys : List A) → Ordered ys → Ordered (insert compare x ys)
    unfolding insert
    insert-Ordered x [] h = (tt, tt)
    insert-Ordered x (y ∷ ys) h = elim (Bool-cases (is_positive (compare x y))) [
      | inl e ↦ rw e (
        All-insert y x ys (ground (arith, e, c.turned x y, c.turned y x)) h.0,
        insert-Ordered x ys h.1,
      )
      | inr e ↦ rw e ((e, All-chained x y ys e h.0), h)
    ]

    pub sort-Ordered : (xs : List A) → Ordered (sort compare xs)
    unfolding sort
    sort-Ordered [] = tt
    sort-Ordered (x ∷ xs) = insert-Ordered x (sort compare xs) (sort-Ordered xs)

  pub filter-Ordered : (test : A → Bool) (xs : List A) → Ordered xs → Ordered (filter test xs)
  unfolding filter
  filter-Ordered test [] h = tt
  filter-Ordered test (x ∷ xs) h = elim (Bool-cases (test x)) [
    | inl e ↦ rw e (
      All-filter (λ y. is_positive (compare x y) ≡ false) test xs h.0,
      filter-Ordered test xs h.1,
    )
    | inr e ↦ rw e (filter-Ordered test xs h.1)
  ]

  Member-insert :
      (a x : A) (ys : List A)
      → (Member a (insert compare x ys) → Member a (x ∷ ys))
        × (Member a (x ∷ ys) → Member a (insert compare x ys))
  unfolding insert
  Member-insert a x [] = (λ m. m, λ m. m)
  Member-insert a x (y ∷ ys) =
      let ih = Member-insert a x ys in
      elim (Bool-cases (is_positive (compare x y))) [
        | inl e ↦ rw e (
          λ m. elim m [
            | inl q ↦ inr (inl q)
            | inr n ↦ elim (ih.0 n) [ inl q ↦ inl q | inr o ↦ inr (inr o) ]
          ],
          λ m. elim m [
            | inl q ↦ inr (ih.1 (inl q))
            | inr n ↦ elim n [ inl q ↦ inl q | inr o ↦ inr (ih.1 (inr o)) ]
          ],
        )
        | inr e ↦ rw e (λ m. m, λ m. m)
      ]

  pub Member-sort :
      (a : A) (xs : List A)
      → (Member a (sort compare xs) → Member a xs) × (Member a xs → Member a (sort compare xs))
  unfolding sort
  Member-sort a [] = (λ m. m, λ m. m)
  Member-sort a (x ∷ xs) =
      let ih = Member-sort a xs in
      let here = Member-insert a x (sort compare xs) in
      (
        λ m. elim (here.0 m) [ inl q ↦ inl q | inr n ↦ inr (ih.0 n) ],
        λ m. here.1 (elim m [ inl q ↦ inl q | inr n ↦ inr (ih.1 n) ]),
      )
