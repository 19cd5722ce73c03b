-- ===== src/Abi/Fuel.antt =====
-- prepareParam ends on every type: the size of the parameter is fuel enough
-- (encodeAbiParameters.ts).
use tosdk.Prelude.{
  ℕ, zero, suc, ◌≤◌, ◌<◌, ◌≡◌, refl, ap, ◌∙◌, arith, Bool, List, [], ◌∷◌, Option, none, some, ◌==◌,
  if◌then◌else◌, length,
}
use tosdk.Prelude.Results.{ok, err, type_error, range_error, abi_encoding_array_length_mismatch}
use tosdk.Strings.{Text, codes, text_eq}
use tosdk.Lru.{LruMap}
use tosdk.Abi.{PreparedParam, get_array_components}
use tosdk.Abi.Prepare.{
  AbiParameter, parameter, Components, no_components, component, Value, Encoded, and_then,
  prepare_elements, prepare_components, encode_tuple, encode_elements, encode_array, prepare_as,
  prepare_with, prepare_or, prepare_param, value_at, rest_of, encode_elementary, array, undefined,
  boolean, numeric, string, object, elements, is_undefined, finish_array, finish_static,
}
use tosdk.Abi.Sizes.{components_size, inner-shorter, param_size}

and_then-same :
    {A B : Type 0} (x : Encoded A) (k1 k2 : A → LruMap Bool → Encoded B)
    → ((a : A) (c : LruMap Bool) → k1 a c ≡ k2 a c)
    → and_then x k1 ≡ and_then x k2
and_then-same (ok a, c) k1 k2 h = h a c
and_then-same (err e, c) k1 k2 h = refl

and_then-eq :
    {A B : Type 0} (x y : Encoded A) (k1 k2 : A → LruMap Bool → Encoded B)
    → x ≡ y
    → ((a : A) (c : LruMap Bool) → k1 a c ≡ k2 a c)
    → and_then x k1 ≡ and_then y k2
and_then-eq x y k1 k2 e h = ap (λ z. and_then z k1) e ∙ and_then-same y k1 k2 h

module _ (r1 r2 : AbiParameter → Value → LruMap Bool → Encoded PreparedParam) (n : ℕ)
    (agree : (p : AbiParameter) (v : Value) (c : LruMap Bool)
      → param_size p < n
      → r1 p v c ≡ r2 p v c) where
  elements-agree :
      (p : AbiParameter) (vs : List Value) (c : LruMap Bool)
      → param_size p < n
      → prepare_elements r1 p vs c ≡ prepare_elements r2 p vs c
  unfolding prepare_elements
  elements-agree p [] c h = refl
  elements-agree p (v ∷ vs) c h =
      and_then-eq (r1 p v c) (r2 p v c) _ _ (agree p v c h)
        (λ q d. ap (λ x. and_then x (λ qs e. (ok (q ∷ qs), e))) (elements-agree p vs d h))

  components-agree :
      (cs : Components) (v : Value) (c : LruMap Bool)
      → components_size cs < n
      → prepare_components r1 cs v c ≡ prepare_components r2 cs v c
  unfolding prepare_components param_size
  components-agree no_components v c h = refl
  components-agree (component (parameter name type cs) rest) v c h =
      let p = parameter name type cs in
      and_then-eq (r1 p (value_at name v) c) (r2 p (value_at name v) c) _ _
        (agree p (value_at name v) c (omega (arith, h)))
        (λ q d.
          ap (λ x. and_then x (λ qs e. (ok (q ∷ qs), e)))
            (components-agree rest (rest_of v) d (omega (arith, h))))

  tuple-agree :
      (cs : Components) (v : Value) (c : LruMap Bool)
      → components_size cs < n
      → encode_tuple r1 cs v c ≡ encode_tuple r2 cs v c
  unfolding encode_tuple
  tuple-agree no_components v c h = refl
  tuple-agree (component p rest) v c h =
      ap
        (λ x.
          if is_undefined v
          then (err type_error, c)
          else and_then x (λ ps d. (finish_static ps, d)))
        (components-agree (component p rest) v c h)

  array-agree :
      (size : Option ℕ) (p : AbiParameter) (vs : List Value) (c : LruMap Bool)
      → param_size p < n
      → encode_elements r1 size p vs c ≡ encode_elements r2 size p vs c
  unfolding encode_elements
  array-agree none p vs c h =
      ap (λ x. and_then x (λ ps d. (finish_array none ps, d))) (elements-agree p vs c h)
  array-agree (some k) p vs c h =
      ap
        (λ x.
          if length vs == k
          then and_then x (λ ps d. (finish_array (some k) ps, d))
          else (err abi_encoding_array_length_mismatch, c))
        (elements-agree p vs c h)

  encode_array-agree :
      (size : Option ℕ) (p : AbiParameter) (v : Value) (c : LruMap Bool)
      → param_size p < n
      → encode_array r1 size p v c ≡ encode_array r2 size p v c
  unfolding encode_array
  encode_array-agree size p (array es) c h = array-agree size p (elements es) c h
  encode_array-agree size p undefined c h = refl
  encode_array-agree size p (boolean b) c h = refl
  encode_array-agree size p (numeric m) c h = refl
  encode_array-agree size p (string t) c h = refl
  encode_array-agree size p (object ms) c h = refl

  prepare_as-agree :
      (name : Option Text) (type : Text) (cs : Components) (found : Option (Option ℕ × Text))
      (v : Value) (c : LruMap Bool)
      → param_size (parameter name type cs) ≤ n
      → get_array_components type ≡ found
      → prepare_as r1 found (parameter name type cs) v c
        ≡ prepare_as r2 found (parameter name type cs) v c
  unfolding prepare_as components_size
  prepare_as-agree name type cs (some found) v c h e =
      let less = inner-shorter type found e in
      encode_array-agree found.0 (parameter name found.1 cs) v c (omega (arith, h, less))
  prepare_as-agree name type cs none v c h e =
      ap (λ x. if text_eq type (codes "tuple") then x else encode_elementary type v c)
        (tuple-agree cs v c (omega (arith, h)))

  prepare_with-agree :
      (p : AbiParameter) (v : Value) (c : LruMap Bool)
      → param_size p ≤ n
      → prepare_with r1 p v c ≡ prepare_with r2 p v c
  unfolding prepare_with
  prepare_with-agree (parameter name type cs) v c h =
      prepare_as-agree name type cs (get_array_components type) v c h refl

-- Whatever two runs answer where the fuel runs out, fuel of the size or more makes them one.
same_answer :
    (stop1 stop2 : LruMap Bool → Encoded PreparedParam) (f g : ℕ) (p : AbiParameter) (v : Value)
    (c : LruMap Bool)
    → param_size p ≤ f
    → param_size p ≤ g
    → prepare_or stop1 f p v c ≡ prepare_or stop2 g p v c
unfolding prepare_or param_size
same_answer stop1 stop2 zero g (parameter name type cs) v c h k = absurd (omega (arith, h))
same_answer stop1 stop2 (suc f) zero (parameter name type cs) v c h k = absurd (omega (arith, k))
same_answer stop1 stop2 (suc f) (suc g) p v c h k =
    prepare_with-agree (prepare_or stop1 f) (prepare_or stop2 g) (param_size p)
      (λ q w d less. same_answer stop1 stop2 f g q w d (omega (arith, h)) (omega (arith, k))) p v c
      (omega arith)

-- One round more than the size, by the rounds of each parameter that the body asks for.
one_round :
    (stop : LruMap Bool → Encoded PreparedParam) (p : AbiParameter) (v : Value) (c : LruMap Bool)
    → prepare_or stop (suc (param_size p)) p v c
      ≡ prepare_with (λ q w d. prepare_or stop (param_size q) q w d) p v c
unfolding prepare_or
one_round stop p v c =
    prepare_with-agree (prepare_or stop (param_size p))
      (λ q w d. prepare_or stop (param_size q) q w d) (param_size p)
      (λ q w d k.
        same_answer stop stop (param_size p) (param_size q) q w d (omega (arith, k)) (omega arith))
      p v c (omega arith)

-- prepareParam on the fuel that its parameter needs.
abbrev pub prepared : AbiParameter → Value → LruMap Bool → Encoded PreparedParam
prepared p v c = prepare_param (param_size p) p v c

-- For every parameter and value: on fuel of the parameter's size or more prepareParam answers the
-- same and leaves the same cache, whatever it is made to answer where fuel runs out, so that it never
-- runs out; and on that fuel it is what the body makes of itself, as in the source, which has no fuel.
pub prepare_param_lem :
    (p : AbiParameter) (v : Value) (c : LruMap Bool)
    → ((stopped : LruMap Bool → Encoded PreparedParam) (f : ℕ)
        → param_size p ≤ f
        → prepare_or stopped f p v c ≡ prepared p v c)
      × (prepared p v c ≡ prepare_with prepared p v c)
unfolding prepare_param
prepare_param_lem p v c =
    let stop : LruMap Bool → Encoded PreparedParam = λ d. (err range_error, d) in
    (
      λ stopped f h. same_answer stopped stop f (param_size p) p v c h (omega arith),
      same_answer stop stop (param_size p) (suc (param_size p)) p v c (omega arith) (omega arith)
          ∙ one_round stop p v c,
    )
