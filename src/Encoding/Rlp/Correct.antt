-- ===== src/Encoding/Rlp/Correct.antt =====
-- toRlp writes the RLP layout of its argument, and throws exactly where that has none.
use tosdk.Prelude.{
  ℕ, ◌+◌, ◌^◌, ◌≡◌, refl, sym, ap, ◌∙◌, arith, false, List, [], ◌∷◌, ◌++◌, none, ltb, length,
  replicate, length-replicate, append-nil, lt→ltb, inl, inr,
}
use tosdk.Prelude.Results.{Result, ok, err, ◌>>=◌, ◌>>◌}
use tosdk.Cursor.{create_cursor}
use tosdk.Encoding.Rlp.{
  RecursiveArray, Elements, Encodable, leaf, array, nil, cons, leaf_bytes, get_size_of_length,
  encode_bytes, bytes_length, get_encodable, get_encodables, get_encodable_list,
  get_encodable_bytes, final_bytes, run_encodable, to_rlp,
}
use tosdk.Encoding.Rlp.Layout.{header, string_layout, check_length, layout, layouts}
use tosdk.Encoding.Rlp.Pushes.{get_size_of_length-cases}
use tosdk.Encoding.Rlp.Closures.{Good, AllGood, encode_all-nil, AllGood-cons, list_Good, bytes_Good}
use mathlib.Core.List.{foldl}

-- An outcome of the code and one of the layout: a closure and the bytes that belong to it, or the
-- same exception.
abbrev Agree {ℓ} : {A : Type ℓ} → (A → List ℕ → Type 0) → Result A → Result (List ℕ) → Type 0
Agree P (ok a) (ok out) = P a out
Agree P (ok a) (err e) = ⊥
Agree P (err e) (ok out) = ⊥
Agree P (err e) (err e') = e ≡ e'

leaf_Agree :
    (r : Result (List ℕ))
    → Agree Good
        (r >>= λ bs. get_size_of_length (length bs) >>= λ k.
          ok (record { size = bytes_length bs k; encode = encode_bytes bs k }))
        (r >>= λ bs. check_length (length bs) >> ok (string_layout bs))
leaf_Agree (err e) = refl
leaf_Agree (ok bs) = elim (get_size_of_length-cases (length bs)) [
  | inl (short, (k, e)) ↦ rw (e, lt→ltb _ _ short) (bytes_Good bs k e)
  | inr (long, e) ↦ let f : ltb (length bs) (2 ^ 32) ≡ false = ground arith in rw (e, f) refl
]

list_Agree :
    (r : Result (List Encodable)) (s : Result (List ℕ))
    → Agree AllGood r s
    → Agree Good
        (r >>= λ es. get_encodable_list es)
        (s >>= λ body. check_length (length body) >> ok (header 0xc0 (length body) ++ body))
unfolding get_encodable_list
list_Agree (ok es) (ok body) g =
    let total : foldl (λ n (x : Encodable). n + x.size) 0 es ≡ length body =
      g.sized 0 ∙ omega arith in
    rw total (elim (get_size_of_length-cases (length body)) [
      | inl (short, (k, e)) ↦ rw (e, lt→ltb _ _ short) (list_Good es body k g e)
      | inr (long, e) ↦ let f : ltb (length body) (2 ^ 32) ≡ false = ground arith in rw (e, f) refl
    ])
list_Agree (ok es) (err e) g = absurd g
list_Agree (err e) (ok body) g = absurd g
list_Agree (err e) (err e') g = g

cons_Agree :
    (r : Result Encodable) (s : Result (List ℕ)) (rs : Result (List Encodable))
    (ss : Result (List ℕ))
    → Agree Good r s
    → Agree AllGood rs ss
    → Agree AllGood (r >>= λ e. rs >>= λ es. ok (e ∷ es)) (s >>= λ a. ss >>= λ b. ok (a ++ b))
cons_Agree (ok e) (ok a) (ok es) (ok b) g gs = AllGood-cons e es a b g gs
cons_Agree (ok e) (ok a) (ok es) (err y) g gs = absurd gs
cons_Agree (ok e) (ok a) (err x) (ok b) g gs = absurd gs
cons_Agree (ok e) (ok a) (err x) (err y) g gs = gs
cons_Agree (ok e) (err y) rs ss g gs = absurd g
cons_Agree (err x) (ok a) rs ss g gs = absurd g
cons_Agree (err x) (err y) rs ss g gs = g

mutual
  unfolding get_encodable get_encodable_bytes layout

  get_encodable-Agree : (x : RecursiveArray) → Agree Good (get_encodable x) (layout x)
  get_encodable-Agree (leaf value) = leaf_Agree (leaf_bytes value)
  get_encodable-Agree (array xs) =
      list_Agree (get_encodables xs) (layouts xs) (get_encodables-Agree xs)

  get_encodables-Agree : (xs : Elements) → Agree AllGood (get_encodables xs) (layouts xs)
  get_encodables-Agree nil = record { sized = λ acc. omega arith; writes = encode_all-nil }
  get_encodables-Agree (cons x xs) =
      cons_Agree (get_encodable x) (layout x) (get_encodables xs) (layouts xs)
        (get_encodable-Agree x) (get_encodables-Agree xs)

run-Good : (e : Encodable) (out : List ℕ) → Good e out → run_encodable e ≡ ok out
unfolding run_encodable create_cursor
run-Good e out g =
    let start = create_cursor [] none in
    let zeros : List ℕ = replicate e.size 0 in
    let gap : length zeros ≡ length out = length-replicate {A = ℕ} e.size 0 ∙ g.sized in
    ap (λ z. final_bytes (e.encode (record start { bytes = z }))) (sym (append-nil zeros))
    ∙ ap final_bytes (g.writes start [] zeros [] gap (omega (arith, g.some_byte)))
    ∙ ap ok (append-nil out)

run_Agree :
    (r : Result Encodable) (s : Result (List ℕ)) → Agree Good r s → (r >>= λ e. run_encodable e) ≡ s
run_Agree (ok e) (ok out) g = run-Good e out g
run_Agree (ok e) (err y) g = absurd g
run_Agree (err x) (ok out) g = absurd g
run_Agree (err x) (err y) g = ap err g

-- On every nested array toRlp gives just the RLP layout, written through the cursor with no
-- exception, or the exception that the layout has: an invalid leaf, or a payload of 2 ^ 32 bytes
-- or more.
pub to_rlp-layout : (x : RecursiveArray) → to_rlp x ≡ layout x
unfolding to_rlp
to_rlp-layout x = run_Agree (get_encodable x) (layout x) (get_encodable-Agree x)
