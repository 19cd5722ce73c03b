-- ===== src/Data/Join.antt =====
-- Joining: the two loops of concatBytes, and the fold of concatHex, against plain concatenation.
use tosdk.Prelude.{
  ℕ, ◌+◌, ◌≡◌, refl, sym, ap, ◌∙◌, arith, List, [], ◌∷◌, ◌++◌, map, length, replicate, joined,
  length-append, length-replicate, set_all-append, append_assoc, append-nil, take, drop, take_split,
  take-append-drop, set_all, length-drop,
}
use tosdk.Strings.{Text, prefix_0x, remove_0x}
use tosdk.Strings.Laws.{remove_0x-prefix}
use tosdk.Data.{total_length, fill, concat_bytes, concat_hex}
use mathlib.Core.List.{foldl}

total_length-joined :
    (acc : ℕ) (values : List (List ℕ)) → total_length acc values ≡ acc + length (joined values)
unfolding total_length
total_length-joined acc [] = omega arith
total_length-joined acc (arr ∷ values) =
    omega (arith, total_length-joined (acc + length arr) values, length-append arr (joined values))

-- `done` is written, and zeros stand for what is to come.
fill-joined :
    (done rest : List ℕ) (values : List (List ℕ))
    → length rest ≡ length (joined values)
    → fill (done ++ rest) (length done) values ≡ done ++ joined values
unfolding fill
fill-joined done [] [] h = refl
fill-joined done (x ∷ rest) [] h = absurd (omega arith)
fill-joined done rest (arr ∷ values) h =
    let n = length arr in
    let old = take n rest in
    let post = drop n rest in
    let both = length-append arr (joined values) in
    let room : length old ≡ n = take_split n rest (omega (arith, both)) in
    ap (λ r. fill (set_all (done ++ r) (length done) arr) (length done + n) values)
      (sym (take-append-drop n rest))
    ∙ ap (λ w. fill w (length done + n) values)
        (set_all-append done old post arr room ∙ sym (append_assoc done arr post))
    ∙ ap (λ (k : ℕ). fill ((done ++ arr) ++ post) k values) (sym (length-append done arr))
    ∙ fill-joined (done ++ arr) post values (omega (arith, both, length-drop n rest))
    ∙ append_assoc done arr (joined values)

-- concatBytes gives the arrays one behind the other.
pub concat_bytes-joined : (values : List (List ℕ)) → concat_bytes values ≡ joined values
unfolding concat_bytes
concat_bytes-joined values =
    fill-joined [] (replicate (total_length 0 values) 0) values
      (length-replicate (total_length 0 values) 0 ∙ total_length-joined 0 values ∙ omega arith)

pub digits-joined :
    (acc : Text) (values : List Text)
    → foldl (λ acc x. acc ++ remove_0x x) acc (map (◌++◌ prefix_0x) values) ≡ acc ++ joined values
digits-joined acc [] = sym (append-nil acc)
digits-joined acc (s ∷ values) =
    ap (λ t. foldl (λ acc x. acc ++ remove_0x x) (acc ++ t) (map (◌++◌ prefix_0x) values))
      (remove_0x-prefix s)
    ∙ digits-joined (acc ++ s) values
    ∙ append_assoc acc s (joined values)

-- Joining gives, of byte arrays, their bytes one behind the other, and of hex strings the prefix
-- once and their digits one behind the other.
pub concat_lem :
    (arrays : List (List ℕ)) (digits : List Text)
    → (concat_bytes arrays ≡ joined arrays)
      × (concat_hex (map (◌++◌ prefix_0x) digits) ≡ prefix_0x ++ joined digits)
unfolding concat_hex
concat_lem arrays digits =
    (concat_bytes-joined arrays, ap (◌++◌ prefix_0x) (digits-joined [] digits))
