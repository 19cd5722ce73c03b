-- ===== src/Encoding/Rlp/Writes.antt =====
-- Closures that write: run at a gap of the right length, they fill it and end behind it.
use tosdk.Prelude.{
  ℕ, ◌+◌, ◌<◌, ◌≤◌, ◌≡◌, sym, ap, ◌∙◌, arith, List, ◌++◌, length, length-append, set_all-append,
  append_assoc, take, drop, take_split, take-append-drop, length-drop,
}
use tosdk.Prelude.Results.{ok}
use tosdk.Cursor
use tosdk.Cursor.{Cursor, M}
use tosdk.Cursor.Returns.{written, >>=-ok}

-- The cursor in front of the gap `old`, and behind it once it holds `out`.
abbrev pub before : Cursor → List ℕ → List ℕ → List ℕ → Cursor
before c pre old post = record c { bytes = pre ++ (old ++ post); position = length pre }

abbrev pub behind : Cursor → List ℕ → List ℕ → List ℕ → Cursor
behind c pre out post = record c {
  bytes = pre ++ (out ++ post);
  position = length pre + length out;
}

abbrev pub Writes : M (Unit {0}) → List ℕ → Type 0
Writes m out =
    (c : Cursor) (pre old post : List ℕ)
    → length old ≡ length out
    → 0 < length pre + length out
    → m (before c pre old post) ≡ (ok tt, behind c pre out post)

-- A push that is a write of `out` wherever there is room.
pub push-Writes :
    (m : M (Unit {0})) (out : List ℕ)
    → ((c : Cursor)
        → c.position + length out ≤ length c.bytes
        → 0 < c.position + length out
        → m c ≡ (ok tt, written out c))
    → Writes m out
push-Writes m out push c pre old post e h =
    push (before c pre old post)
      (omega (arith, length-append pre (old ++ post), length-append old post)) h
    ∙ ap (λ bs. (ok tt, record c { bytes = bs; position = length pre + length out }))
        (set_all-append pre old post out e)

-- The gap of a sequence is the gaps of its parts.
pub >>-Writes :
    (m n : M (Unit {0})) (a b : List ℕ)
    → Writes m a
    → Writes n b
    → 0 < length a
    → Writes (Cursor.◌>>◌ m n) (a ++ b)
>>-Writes m n a b wm wn ha c pre old post e h =
    let k = length a in
    let both = length-append a b in
    let old₁ = take k old in
    let old₂ = drop k old in
    let gap : length old₁ ≡ k = take_split k old (omega (arith, both)) in
    let rest : length old₂ ≡ length b = omega (arith, both, length-drop k old) in
    ap (λ o. (Cursor.◌>>◌ m n) (before c pre o post)) (sym (take-append-drop k old))
    ∙ ap (λ t. (Cursor.◌>>◌ m n) (record c { bytes = pre ++ t; position = length pre }))
        (append_assoc old₁ old₂ post)
    ∙ >>=-ok m (λ _. n) (before c pre old₁ (old₂ ++ post))
        (wm c pre old₁ (old₂ ++ post) gap (omega arith))
    ∙ ap (λ t. n (record c { bytes = t; position = length pre + k }))
        (sym (append_assoc pre a (old₂ ++ post)))
    ∙ ap (λ (p : ℕ). n (record c { bytes = (pre ++ a) ++ (old₂ ++ post); position = p }))
        (sym (length-append pre a))
    ∙ wn c (pre ++ a) old₂ post rest (omega (arith, length-append pre a))
    ∙ ap (λ t. (ok tt, record c { bytes = t; position = length (pre ++ a) + length b }))
        (append_assoc pre a (b ++ post) ∙ ap (λ t. pre ++ t) (sym (append_assoc a b post)))
    ∙ ap (λ (p : ℕ). (ok tt, record c { bytes = pre ++ ((a ++ b) ++ post); position = p }))
        (omega (arith, length-append pre a, both))
