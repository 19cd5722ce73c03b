-- ===== src/Abi/Layout.antt =====
-- The layout of encoded parameters (encodeParams in encodeAbiParameters.ts): where each of them
-- stands, and what its offset says.
use tosdk.Prelude.{
  ℕ, ◌+◌, ◌*◌, ◌/◌, ◌%◌, ◌^◌, ◌<◌, pos, ◌≡◌, refl, sym, ap, ◌∙◌, arith, Bool, true, false, List, [],
  ◌∷◌, ◌++◌, some, length, take, drop, map, append_assoc, length-append, take-append_exact,
  drop-append_exact, joined,
}
use tosdk.Prelude.Results.{ok, ◌>>=◌}
use tosdk.Strings.{Text, prefix_0x, pad_start, to_base16, starts_with}
use tosdk.Data.{HexOrBytes, hex, size, is_hex, all_hex, concat, concat_hex}
use tosdk.Data.Join.{digits-joined}
use tosdk.Encoding.Hex.{number, number_to_hex, hex_to_big_int}
use tosdk.Encoding.Hex.Numbers.{number_to_hex-word}
use tosdk.Abi.{PreparedParam, static_size, split_params, encode_params}

-- A prepared parameter as whether it is dynamic and the digits of its encoding.
abbrev pub Item : Type 0
Item = Bool × Text

abbrev pub hexed : Text → HexOrBytes
hexed s = hex (prefix_0x ++ s)

abbrev pub param_of : Item → PreparedParam
param_of item = record { dynamic = item.0; encoded = hexed item.1 }

-- Every encoding has whole bytes.
abbrev pub AllWhole : List Item → Type 0
AllWhole [] = Unit
AllWhole (item ∷ items) = (length item.1 % 2 ≡ 0) × AllWhole items

-- The bytes of the static part and those of the dynamic one.
abbrev pub head_size : List Item → ℕ
head_size [] = 0
head_size ((true, s) ∷ items) = 32 + head_size items
head_size ((false, s) ∷ items) = length s / 2 + head_size items

abbrev pub tail_size : List Item → ℕ
tail_size [] = 0
tail_size ((true, s) ∷ items) = length s / 2 + tail_size items
tail_size ((false, s) ∷ items) = tail_size items

abbrev pub word : ℕ → Text
word n = pad_start 64 b'0' (to_base16 n)

abbrev heads : ℕ → ℕ → List Item → List Text
heads static ds [] = []
heads static ds ((true, s) ∷ items) = word (static + ds) ∷ heads static (ds + length s / 2) items
heads static ds ((false, s) ∷ items) = s ∷ heads static ds items

abbrev tails : List Item → List Text
tails [] = []
tails ((true, s) ∷ items) = s ∷ tails items
tails ((false, s) ∷ items) = tails items

pub size-hexed : (s : Text) → length s % 2 ≡ 0 → size (hexed s) ≡ length s / 2
unfolding size is_hex starts_with
size-hexed s h = ground (arith, h)

static_size-head_size :
    (acc : ℕ) (items : List Item)
    → AllWhole items
    → static_size acc (map param_of items) ≡ acc + head_size items
unfolding static_size
static_size-head_size acc [] h = omega arith
static_size-head_size acc ((true, s) ∷ items) h =
    let ih = static_size-head_size (acc + 32) items h.1 in omega (arith, ih)
static_size-head_size acc ((false, s) ∷ items) h =
    let ih = static_size-head_size (acc + size (hexed s)) items h.1 in
    let e = size-hexed s h.0 in omega (arith, ih, e)

pub word_lem :
    (n : ℕ)
    → n < 2 ^ 256
    → (number_to_hex (number (pos n)) false (some 32) ≡ ok (prefix_0x ++ word n))
      × (length (word n) ≡ 64)
      × (hex_to_big_int (prefix_0x ++ word n) false (some 32) ≡ ok (pos n))
word_lem n h = number_to_hex-word n 32 (omega arith) h

split_lem :
    (static ds : ℕ) (items : List Item)
    → AllWhole items
    → static + ds + tail_size items < 2 ^ 256
    → split_params static ds (map param_of items)
      ≡ ok (map hexed (heads static ds items), map hexed (tails items))
unfolding split_params
split_lem static ds [] h b = refl
split_lem static ds ((true, s) ∷ items) h b =
    let ih = split_lem static (ds + length s / 2) items h.1 (omega (arith, b)) in
    rw ((word_lem (static + ds) (omega (arith, b))).0, size-hexed s h.0, ih) refl
split_lem static ds ((false, s) ∷ items) h b =
    let ih = split_lem static ds items h.1 b in rw ih refl

take_at :
    (whole before s behind : Text) (n : ℕ)
    → whole ≡ before ++ (s ++ behind)
    → n ≡ length before
    → take (length s) (drop n whole) ≡ s
take_at whole before s behind n e h =
    rw (e, h, drop-append_exact before (s ++ behind)) (take-append_exact s behind)

-- What stands in the digits `whole` from `at` on, for each parameter in order: a static one itself;
-- for a dynamic one a word, which hexToBigInt reads as an offset, and the parameter at that offset.
abbrev pub Placed : Text → ℕ → List Item → Type 0
Placed whole at [] = Unit
Placed whole at ((true, s) ∷ items) =
    ((offset : ℕ) × (hex_to_big_int (prefix_0x ++ take 64 (drop at whole)) false (some 32)
        ≡ ok (pos offset))
      × (take (length s) (drop (2 * offset) whole) ≡ s))
    × Placed whole (at + 64) items
Placed whole at ((false, s) ∷ items) =
    (take (length s) (drop at whole) ≡ s) × Placed whole (at + length s) items

regroup : (a s h rest : Text) → a ++ ((s ++ h) ++ rest) ≡ (a ++ s) ++ (h ++ rest)
regroup a s h rest = ap (λ t. a ++ t) (append_assoc s h rest) ∙ sym (append_assoc a s (h ++ rest))

placed :
    (static ds : ℕ) (items : List Item) (whole a b : Text)
    → AllWhole items
    → static + ds + tail_size items < 2 ^ 256
    → whole ≡ a ++ (joined (heads static ds items) ++ (b ++ joined (tails items)))
    → 2 * (static + ds) ≡ length a + length (joined (heads static ds items)) + length b
    → (at : ℕ) → at ≡ length a
    → Placed whole at items
placed static ds [] whole a b h bound e l at p = tt
placed static ds ((false, s) ∷ items) whole a b h bound e l at p =
    let hs = joined (heads static ds items) in
    let rest = b ++ joined (tails items) in
    let e' = e ∙ regroup a s hs rest in
    let la = length-append a s in
    let ls = length-append s hs in
    (
      take_at whole a s (hs ++ rest) at (e ∙ ap (λ t. a ++ t) (append_assoc s hs rest)) p,
      placed static ds items whole (a ++ s) b h.1 bound e' (omega (arith, l, la, ls))
          (at + length s) (omega (arith, la, p)),
    )
placed static ds ((true, s) ∷ items) whole a b h bound e l at p =
    let n = static + ds in
    let (written, long, read) = word_lem n (omega (arith, bound)) in
    let hs = joined (heads static (ds + length s / 2) items) in
    let ts = joined (tails items) in
    let w = word n in
    let front : take (length w) (drop at whole) ≡ w =
      take_at whole a w (hs ++ (b ++ (s ++ ts))) at
        (e ∙ ap (λ t. a ++ t) (append_assoc w hs (b ++ (s ++ ts)))) p in
    let la = length-append a w in
    let lw = length-append w hs in
    let lb = length-append b s in
    let lwb = length-append (w ++ hs) b in
    let lawb = length-append a ((w ++ hs) ++ b) in
    let behind : take (length s) (drop (2 * n) whole) ≡ s =
      take_at whole (a ++ ((w ++ hs) ++ b)) s ts (2 * n)
        (e
          ∙ ap (λ t. a ++ t) (sym (append_assoc (w ++ hs) b (s ++ ts)))
          ∙ sym (append_assoc a ((w ++ hs) ++ b) (s ++ ts)))
        (omega (arith, l, lawb, lwb)) in
    let e' =
      e
      ∙ regroup a w hs (b ++ (s ++ ts))
      ∙ ap (λ t. (a ++ w) ++ (hs ++ t)) (sym (append_assoc b s ts)) in
    (
      (
        n,
        ap (λ m. hex_to_big_int (prefix_0x ++ take m (drop at whole)) false (some 32)) (sym long)
            ∙ ap (λ t. hex_to_big_int (prefix_0x ++ t) false (some 32)) front
            ∙ read,
        behind,
      ),
      placed static (ds + length s / 2) items whole (a ++ w) (b ++ s) h.1 (omega (arith, bound)) e'
          (omega (arith, l, la, lw, lb, h.0)) (at + 64) (omega (arith, la, p, long)),
    )

heads-length :
    (static ds : ℕ) (items : List Item)
    → AllWhole items
    → static + ds + tail_size items < 2 ^ 256
    → length (joined (heads static ds items)) ≡ 2 * head_size items
heads-length static ds [] h b = omega arith
heads-length static ds ((true, s) ∷ items) h b =
    let rest = heads static (ds + length s / 2) items in
    let ih = heads-length static (ds + length s / 2) items h.1 (omega (arith, b)) in
    let l = length-append (word (static + ds)) (joined rest) in
    omega (arith, ih, l, (word_lem (static + ds) (omega (arith, b))).1)
heads-length static ds ((false, s) ∷ items) h b =
    let ih = heads-length static ds items h.1 b in
    let l = length-append s (joined (heads static ds items)) in omega (arith, ih, l, h.0)

tails-length :
    (items : List Item) → AllWhole items → length (joined (tails items)) ≡ 2 * tail_size items
tails-length [] h = omega arith
tails-length ((true, s) ∷ items) h =
    let ih = tails-length items h.1 in
    let l = length-append s (joined (tails items)) in omega (arith, ih, l, h.0)
tails-length ((false, s) ∷ items) h = tails-length items h.1

map-append_hexed : (xs ys : List Text) → map hexed xs ++ map hexed ys ≡ map hexed (xs ++ ys)
map-append_hexed [] ys = refl
map-append_hexed (x ∷ xs) ys = ap (λ t. hexed x ∷ t) (map-append_hexed xs ys)

joined-append : (xs ys : List Text) → joined (xs ++ ys) ≡ joined xs ++ joined ys
joined-append [] ys = refl
joined-append (x ∷ xs) ys =
    ap (λ t. x ++ t) (joined-append xs ys) ∙ sym (append_assoc x (joined xs) (joined ys))

all_hex-hexed : (xs : List Text) → all_hex (map hexed xs) ≡ ok (map (◌++◌ prefix_0x) xs)
unfolding all_hex
all_hex-hexed [] = refl
all_hex-hexed (x ∷ xs) = rw (all_hex-hexed xs) refl

pub concat-hexed :
    (xs ys : List Text)
    → 0 < length xs
    → concat (map hexed xs ++ map hexed ys) ≡ ok (hexed (joined xs ++ joined ys))
unfolding concat concat_hex
concat-hexed [] ys h = absurd (omega (arith, h))
concat-hexed (x ∷ xs) ys h =
    rw (map-append_hexed xs ys, all_hex-hexed (xs ++ ys))
      (ap (λ t. ok (hexed t)) (digits-joined [] (x ∷ (xs ++ ys)) ∙ joined-append (x ∷ xs) ys))

heads-nonempty :
    (static ds : ℕ) (item : Item) (items : List Item) → 0 < length (heads static ds (item ∷ items))
heads-nonempty static ds (true, s) items = omega arith
heads-nonempty static ds (false, s) items = omega arith

encode_params-static :
    (ps : List PreparedParam) (n : ℕ)
    → static_size 0 ps ≡ n
    → encode_params ps ≡ (split_params n 0 ps >>= λ parts. concat (parts.0 ++ parts.1))
unfolding encode_params
encode_params-static ps n e =
    ap (λ m. split_params m 0 ps >>= λ parts. concat (parts.0 ++ parts.1)) e

-- For one parameter or more, all of whole bytes and together of less than 2^256: encodeParams gives
-- hex digits of just their static and dynamic parts, in which every static parameter stands at its
-- place, and at the place of a dynamic one its offset, where the parameter stands.
pub encode_params_lem :
    (item : Item) (items : List Item)
    → AllWhole (item ∷ items)
    → head_size (item ∷ items) + tail_size (item ∷ items) < 2 ^ 256
    → (digits : Text) × (encode_params (map param_of (item ∷ items))
        ≡ ok (hex (prefix_0x ++ digits)))
      × (length digits ≡ 2 * (head_size (item ∷ items) + tail_size (item ∷ items)))
      × Placed digits 0 (item ∷ items)
encode_params_lem item items h b =
    let all = item ∷ items in
    let static = head_size all in
    let bound : static + 0 + tail_size all < 2 ^ 256 = omega (arith, b) in
    let hs = joined (heads static 0 all) in
    let ts = joined (tails all) in
    let long = heads-length static 0 all h bound in
    let far = tails-length all h in
    let l = length-append hs ts in
    let counted : static_size 0 (map param_of all) ≡ static =
      omega (arith, static_size-head_size 0 all h) in
    (
      hs ++ ts,
      encode_params-static (map param_of all) static counted
          ∙ rw (split_lem static 0 all h bound)
              (concat-hexed (heads static 0 all) (tails all) (heads-nonempty static 0 item items)),
      omega (arith, l, long, far),
      placed static 0 all (hs ++ ts) [] [] h bound refl (omega (arith, long)) 0 refl,
    )
