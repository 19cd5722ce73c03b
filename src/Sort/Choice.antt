-- ===== src/Sort/Choice.antt =====
-- The first suitable item of a filtered and sorted array, as `xs.filter(..).map(..).sort(..)`,
-- `.filter(..)` and `[0]` give it.
use tosdk.Prelude.{
  ℤ, ◌≡◌, refl, sym, ap, ◌∙◌, inl, inr, ◌⊎◌, arith, Bool, true, false, ◌&&◌, List, [], ◌∷◌, none,
  some, map, Bool-cases,
}
use tosdk.Arrays.{Member, filter, first, Member-filter, Member-map, Member-map_back, All-Member}
use tosdk.Sort.{is_positive, sort, IsComparator}
use tosdk.Sort.Orders.{not_after_itself}
use tosdk.Sort.Laws.{Ordered, filter-Ordered, sort-Ordered, Member-sort}
use mathlib.Core.Path.{subst}

-- An admitted item of the list that suits, with no such item before it in the order.
pub record IsBest {A B : Type 0} (admits : A → Bool) (view : A → B) (suits : B → Bool)
    (compare : B → B → ℤ) (xs : List A) (b : B) : Type 0 where
  pub item : A
  pub viewed : b ≡ view item
  pub among : Member item xs
  pub qualified : admits item && suits (view item) ≡ true
  pub ahead :
      (q : A)
      → Member q xs
      → admits q && suits (view q) ≡ true
      → is_positive (compare b (view q)) ≡ false

module _ {A B : Type 0} (admits : A → Bool) (view : A → B) (suits : B → Bool) (compare : B → B → ℤ)
    (c : IsComparator compare) (xs : List A) where
  ranked : List B
  ranked = sort compare (map view (filter admits xs))

  candidates : List B
  unfolding ranked
  candidates = filter suits ranked

  qualified-candidate :
      (q : A) → Member q xs → admits q && suits (view q) ≡ true → Member (view q) candidates
  unfolding candidates
  qualified-candidate q m h =
      (Member-filter suits (view q) ranked).1
        ((Member-sort compare (view q) (map view (filter admits xs))).1 (
          Member-map view q (filter admits xs)
            ((Member-filter admits q xs).1 m (ground (arith, h)))))
        (ground (arith, h))

  candidate_qualified :
      (b : B)
      → Member b candidates
      → (a : A) × (b ≡ view a) × Member a xs × (admits a && suits (view a) ≡ true)
  unfolding candidates
  candidate_qualified b m =
      let f = (Member-filter suits b ranked).0 m in
      let (a, e, n) =
        Member-map_back view b (filter admits xs)
          ((Member-sort compare b (map view (filter admits xs))).0 f.0) in
      let g = (Member-filter admits a xs).0 n in
      let s : suits (view a) ≡ true = sym (ap suits e) ∙ f.1 in (a, e, g.0, ground (arith, g.1, s))

  head_ahead :
      (b : B) (rest : List B)
      → Ordered compare (b ∷ rest)
      → (u : B) → Member u (b ∷ rest)
      → is_positive (compare b u) ≡ false
  head_ahead b rest o u (inl e) =
      ap (λ v. is_positive (compare b v)) e ∙ not_after_itself compare c b
  head_ahead b rest o u (inr m) = All-Member (λ v. is_positive (compare b v) ≡ false) u rest o.0 m

  candidates-Ordered : Ordered compare candidates
  unfolding candidates
  candidates-Ordered =
      filter-Ordered compare suits ranked (sort-Ordered compare c (map view (filter admits xs)))

  -- By the list of the candidates: a first one, or none of them.
  chosen_from :
      (cs : List B)
      → cs ≡ candidates
      → ((b : B) × (first cs ≡ some b) × IsBest admits view suits compare xs b)
        ⊎ ((first cs ≡ none) × ((q : A) → Member q xs → admits q && suits (view q) ≡ false))
  unfolding first
  chosen_from [] e = inr (
    refl,
    λ q m. elim (Bool-cases (admits q && suits (view q))) [
      | inl h ↦ absurd (subst (Member (view q)) (sym e) (qualified-candidate q m h))
      | inr h ↦ h
    ],
  )
  chosen_from (b ∷ rest) e =
      let o = subst (Ordered compare) (sym e) candidates-Ordered in
      let (a, s, m, h) = candidate_qualified b (subst (Member b) e (inl refl)) in
      inl (
        b,
        refl,
        record {
          item = a;
          viewed = s;
          among = m;
          qualified = h;
          ahead = λ q n k.
              head_ahead b rest o (view q)
                (subst (Member (view q)) (sym e) (qualified-candidate q n k));
        },
      )

  pub choice_lem :
      ((b : B) × (first (filter suits (sort compare (map view (filter admits xs)))) ≡ some b)
        × IsBest admits view suits compare xs b)
      ⊎ ((first (filter suits (sort compare (map view (filter admits xs)))) ≡ none)
          × ((q : A) → Member q xs → admits q && suits (view q) ≡ false))
  unfolding candidates
  choice_lem = chosen_from candidates refl
