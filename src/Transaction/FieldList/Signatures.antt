-- ===== src/Transaction/FieldList/Signatures.antt =====
-- The signatures behind the fields of a serialized transaction (serializeTransaction.ts).
use tosdk.Prelude.{
  ℤ, pos, ◌≡◌, refl, sym, ap, ◌∙◌, ◌⊎◌, inl, inr, arith, Bool, true, false, List, [], ◌∷◌, ◌++◌,
  Option, none, some,
}
use tosdk.Prelude.Results.{Error, Result, ok, err, ◌>>=◌}
use tosdk.Strings.{Text, prefix_0x}
use mathlib.Core.Path.{subst}
use tosdk.Arrays.{Member}
use tosdk.Data.{hex}
use tosdk.Encoding.Hex.{bigint}
use tosdk.Encoding.Rlp.{Elements, leaf, nil, cons}
use tosdk.Transaction.{
  Signature, SignatureInput, absent, single, bundle, recovery, rlp_hex, to_minimal_quantity_hex,
  to_native_signature_array, execution_signature, sponsor_signature, leaves,
}
use tosdk.Transaction.FieldList.{
  IsRecovery, IsSignatureThen, no_signature, HasSignatures, recoveries,
}

-- The recovery that the code takes.
chosen :
    (v y : Option ℤ)
    → (n : ℤ) × ((v ≡ some n) ⊎ ((v ≡ none) × ((y ≡ some n) ⊎ ((y ≡ none) × (n ≡ pos 0)))))
      × ((elim v [ some w ↦ w | none ↦ elim y [ some z ↦ z | none ↦ pos 0 ] ]) ≡ n)
chosen (some v) y = (v, inl refl, refl)
chosen none (some y) = (y, inr (refl, inl refl), refl)
chosen none none = (pos 0, inr (refl, inr (refl, refl)), refl)

recovery_lem : (g : Signature) → (n : ℤ) × IsRecovery g n × (recovery g ≡ bigint n)
unfolding recovery
recovery_lem g = let c = chosen g.v g.y_parity in (c.0, c.1, ap bigint c.2)

-- The hex of a signature, or the exception of its recovery.
abbrev pub Signed : Signature → Result (List Text) → Type 0
Signed g (ok xs) =
    (v : Text) × (to_minimal_quantity_hex (some (recovery g)) ≡ ok v)
    × (xs ≡ v ∷ rlp_hex g.r ∷ rlp_hex g.s ∷ [])
Signed g (err e) = err e ≡ to_minimal_quantity_hex (some (recovery g))

Signed-from :
    (g : Signature) (r : Result Text)
    → to_minimal_quantity_hex (some (recovery g)) ≡ r
    → Signed g (r >>= λ v. ok (v ∷ rlp_hex g.r ∷ rlp_hex g.s ∷ []))
Signed-from g (ok v) p = (v, p, refl)
Signed-from g (err e) p = sym p

to_native_signature_array-Signed :
    (g : Signature) (pad : Bool) (r : Result (List Text))
    → to_native_signature_array (some g) pad ≡ r
    → Signed g r
unfolding to_native_signature_array
to_native_signature_array-Signed g pad r e =
    subst (Signed g) e (Signed-from g (to_minimal_quantity_hex (some (recovery g))) refl)

-- The elements of a signature's hex.
Signed-IsSignatureThen :
    (g : Signature) (xs : List Text) (rest : Elements)
    → Signed g (ok xs)
    → IsSignatureThen g (leaves xs rest) rest
unfolding leaves
Signed-IsSignatureThen g xs rest (v, p, e) =
    let n = recovery_lem g in
    (
      n.0,
      n.1,
      (v, ap (λ m. to_minimal_quantity_hex (some m)) (sym n.2) ∙ p, ap (λ ys. leaves ys rest) e),
    )

pub leaves-append :
    (xs ys : List Text) (rest : Elements) → leaves (xs ++ ys) rest ≡ leaves xs (leaves ys rest)
unfolding leaves
leaves-append [] ys rest = refl
leaves-append (x ∷ xs) ys rest = ap (cons (leaf (hex x))) (leaves-append xs ys rest)

-- Without a signature.
unsigned :
    (ys : List Text) → to_native_signature_array none true ≡ ok ys → leaves ys nil ≡ no_signature
unfolding to_native_signature_array leaves
unsigned ys e =
    let p : prefix_0x ∷ prefix_0x ∷ prefix_0x ∷ [] ≡ ys = cc in ap (λ zs. leaves zs nil) (sym p)

nothing : (xs : List Text) → to_native_signature_array none false ≡ ok xs → xs ≡ []
unfolding to_native_signature_array
nothing xs e = let p : [] ≡ xs = cc in sym p

signature_then :
    (g : Signature) (pad : Bool) (xs : List Text) (rest : Elements)
    → to_native_signature_array (some g) pad ≡ ok xs
    → IsSignatureThen g (leaves xs rest) rest
signature_then g pad xs rest e =
    Signed-IsSignatureThen g xs rest (to_native_signature_array-Signed g pad (ok xs) e)

pub signatures_lem :
    (signature : SignatureInput) (xs ys : List Text)
    → to_native_signature_array (execution_signature signature) false ≡ ok xs
    → to_native_signature_array (sponsor_signature signature) true ≡ ok ys
    → HasSignatures signature (leaves xs (leaves ys nil))
unfolding execution_signature sponsor_signature leaves
signatures_lem absent xs ys p q =
    ap (λ zs. leaves zs (leaves ys nil)) (nothing xs p) ∙ unsigned ys q
signatures_lem (single g) xs ys p q =
    subst (λ rest. IsSignatureThen g (leaves xs (leaves ys nil)) rest) (unsigned ys q)
      (signature_then g false xs (leaves ys nil) p)
signatures_lem (bundle g none) xs ys p q =
    subst (λ rest. IsSignatureThen g (leaves xs (leaves ys nil)) rest) (unsigned ys q)
      (signature_then g false xs (leaves ys nil) p)
signatures_lem (bundle g (some h)) xs ys p q =
    (leaves ys nil, signature_then g false xs (leaves ys nil) p, signature_then h true ys nil q)

pub recovery-Member :
    (o : Option Signature) (pad : Bool) (e : Error) (rest : List (Result Text))
    → to_native_signature_array o pad ≡ err e
    → Member (err e) (recoveries o ++ rest)
unfolding to_native_signature_array
recovery-Member none pad e rest p = absurd (ground (arith, p))
recovery-Member (some g) pad e rest p = inl (to_native_signature_array-Signed g pad (err e) p)

pub Member-behind :
    (o : Option Signature) (e : Error) (rest : List (Result Text))
    → Member (err e) rest
    → Member (err e) (recoveries o ++ rest)
Member-behind none e rest m = m
Member-behind (some g) e rest m = inr m
