-- ===== src/Abi/Sizes.antt =====
-- The sizes of parameters, and the inner type of an array, which is shorter (getArrayComponents in
-- encodeAbiParameters.ts).
use tosdk.Prelude.{
  ℕ, suc, ◌+◌, ◌<◌, ◌≡◌, refl, ap, inl, inr, arith, ◌&&◌, [], ◌∷◌, Option, none, some, leb, ◌==◌,
  length, Bool-cases,
}
use tosdk.Strings.{Text}
use mathlib.Core.List.{reverse, reverse_aux}
use tosdk.Abi.{get_array_components, array_length, components_from, reversed_components}
use tosdk.Abi.Prepare.{AbiParameter, parameter, Components, no_components, component}

unfoldable mutual
  -- The length of the type and the sizes of the components, and one more.
  pub param_size : AbiParameter → ℕ
  param_size (parameter name type cs) = suc (length type + components_size cs)

  pub components_size : Components → ℕ
  components_size no_components = 0
  components_size (component p rest) = param_size p + components_size rest

length-reverse_aux : (s acc : Text) → length (reverse_aux s acc) ≡ length s + length acc
length-reverse_aux [] acc = omega arith
length-reverse_aux (c ∷ s) acc = let ih = length-reverse_aux s (c ∷ acc) in omega (arith, ih)

length-reverse : (s : Text) → length (reverse s) ≡ length s
length-reverse s = let e = length-reverse_aux s [] in omega (arith, e)

array_length-shorter :
    (digits s : Text) (found : Text × Text)
    → array_length digits s ≡ some found
    → length found.1 < length s
unfolding array_length
array_length-shorter digits [] found h = absurd (ground (arith, h))
array_length-shorter digits (c ∷ s) found h = elim (Bool-cases (c == b'[')) [
  | inl e ↦
      let q : (digits, reverse s) ≡ found = ground (arith, h, e) in
      omega (arith, length-reverse s, ap (λ x. length x.1) q)
  | inr e ↦ elim (Bool-cases (leb b'0' c && leb c b'9')) [
    | inl d ↦
        let q : array_length (c ∷ digits) s ≡ some found = ground (arith, h, e, d) in
        let ih = array_length-shorter (c ∷ digits) s found q in omega (arith, ih)
    | inr d ↦ absurd (ground (arith, h, e, d))
  ]
]

components_from-shorter :
    (c n : ℕ) (met : Option (Text × Text)) (found : Option ℕ × Text)
    → ((m : Text × Text) → met ≡ some m → length m.1 < n)
    → components_from c met ≡ some found
    → length found.1 < n
unfolding components_from
components_from-shorter c n none found k h = absurd (ground (arith, h))
components_from-shorter c n (some m) found k h =
    let q : m.1 ≡ found.1 = ground (arith, h) in omega (arith, k m refl, ap (λ t. length t) q)

reversed-shorter :
    (s : Text) (found : Option ℕ × Text)
    → reversed_components s ≡ some found
    → length found.1 < length s
unfolding reversed_components
reversed-shorter [] found h = absurd (ground (arith, h))
reversed-shorter (c ∷ s) found h =
    let less =
      components_from-shorter c (length s) (array_length [] s) found
        (λ m q. array_length-shorter [] s m q) h in
    omega (arith, less)

pub inner-shorter :
    (type : Text) (found : Option ℕ × Text)
    → get_array_components type ≡ some found
    → length found.1 < length type
unfolding get_array_components
inner-shorter type found h =
    omega (arith, reversed-shorter (reverse type) found h, length-reverse type)
