-- ===== src/Clients/Filters/Ranges.antt =====
-- A filter of logs asks for a block or for a range of blocks, never for both
-- (createPublicClient.ts).
use tosdk.Prelude.{
  zero, suc, ◌≡◌, ◌≢◌, refl, sym, ap, ◌⊎◌, inl, inr, ◌∙◌, arith, true, false, List, [], ◌∷◌, Option,
  none, some, pos, negsuc,
}
use tosdk.Prelude.Results.{Result, ok, err, invalid_log_filter}
use tosdk.Strings.{Text, codes, text_eq}
use tosdk.Json.{Json, string, object, Fields, get_field}
use tosdk.Address.{Caches}
use tosdk.Encoding.Hex.{bigint, number}
use tosdk.Surfaces.Client.{return, await_step, ◌>>=◌}
use tosdk.Surfaces.Preferences.{truthy_text}
use tosdk.Clients.Rpc.{
  BlockTag, tag, height, latest, default, fields, record_of, block_json, normalize_block_tag,
}
use tosdk.Clients.Types.{LogFilter}
use tosdk.Clients.Filters.{
  is_block, is_contradictory, arrays, address_filter, block_range, log_blocks, serialize_log_filter,
}

get_field-skip :
    (n name : Text) (o : Option Json) (rest : List (Text × Option Json))
    → text_eq n name ≡ false
    → get_field name (fields ((n, o) ∷ rest)) ≡ get_field name (fields rest)
unfolding get_field fields
get_field-skip n name none rest h = refl
get_field-skip n name (some j) rest h = rw h refl

-- The text of a block, as it is sent.
abbrev pub IsBlock : BlockTag → Option Json → Type 0
IsBlock block j = (t : Text) × (normalize_block_tag block ≡ ok t) × (j ≡ some (string t))

-- The blocks of a filter: its block's hash alone, or a range alone.
abbrev pub IsRange : LogFilter → Option Text → Fields → Type 0
IsRange filter (some hash) fs =
    (get_field (codes "blockHash") fs ≡ some (string hash))
    × (get_field (codes "fromBlock") fs ≡ none)
    × (get_field (codes "toBlock") fs ≡ none)
IsRange filter none fs =
    (get_field (codes "blockHash") fs ≡ none)
    × IsBlock (default filter.from_block (height (bigint (pos 0))))
        (get_field (codes "fromBlock") fs)
    × IsBlock (default filter.to_block latest) (get_field (codes "toBlock") fs)

IsRange-same :
    (filter : LogFilter) (hash : Option Text) (fs gs : Fields)
    → get_field (codes "blockHash") gs ≡ get_field (codes "blockHash") fs
    → get_field (codes "fromBlock") gs ≡ get_field (codes "fromBlock") fs
    → get_field (codes "toBlock") gs ≡ get_field (codes "toBlock") fs
    → IsRange filter hash fs
    → IsRange filter hash gs
IsRange-same filter (some hash) fs gs a b c h = rw (a, b, c) h
IsRange-same filter none fs gs a b c h = rw (a, b, c) h

IsRange-skip :
    (filter : LogFilter) (hash : Option Text) (a t : Option Json)
    (blocks : List (Text × Option Json))
    → IsRange filter hash (fields blocks)
    → IsRange filter hash (fields ((codes "address", a) ∷ (codes "topics", t) ∷ blocks))
unfolding text_eq
IsRange-skip filter hash a t blocks h =
    let skip : (name : Text)
        → text_eq (codes "address") name ≡ false
        → text_eq (codes "topics") name ≡ false
        → get_field name (fields ((codes "address", a) ∷ (codes "topics", t) ∷ blocks))
          ≡ get_field name (fields blocks) =
      λ name x y.
        get_field-skip (codes "address") name a _ x ∙ get_field-skip (codes "topics") name t _ y in
    IsRange-same filter hash _ _ (skip (codes "blockHash") refl refl)
      (skip (codes "fromBlock") refl refl) (skip (codes "toBlock") refl refl) h

-- The fields of a range.
abbrev IsBlockRange : BlockTag → BlockTag → List (Text × Option Json) → Type 0
IsBlockRange from to blocks =
    (get_field (codes "blockHash") (fields blocks) ≡ none)
    × IsBlock from (get_field (codes "fromBlock") (fields blocks))
    × IsBlock to (get_field (codes "toBlock") (fields blocks))

range_fields :
    (from to : BlockTag) (f t : Json)
    → IsBlock from (some f)
    → IsBlock to (some t)
    → IsBlockRange from to ((codes "fromBlock", some f) ∷ (codes "toBlock", some t) ∷ [])
unfolding get_field fields text_eq
range_fields from to f t hf ht = (refl, hf, ht)

-- Whether a block is named: by a tag that is not empty, or by a height that is not 0.
abbrev pub IsNamed : Option BlockTag → Type 0
IsNamed none = ⊥
IsNamed (some (tag t)) = t ≢ []
IsNamed (some (height (number n))) = n ≢ pos 0
IsNamed (some (height (bigint n))) = n ≢ pos 0

-- A filter with the hash of a block and with an end of a range.
abbrev pub IsContradictory : LogFilter → Type 0
IsContradictory filter =
    ((hash : Text) × (filter.block_hash ≡ some hash) × (hash ≢ []))
    × (IsNamed filter.from_block ⊎ IsNamed filter.to_block)

is_block-IsNamed :
    (block : Option BlockTag)
    → ((is_block block ≡ true) × IsNamed block) ⊎ ((is_block block ≡ false) × (IsNamed block → ⊥))
unfolding is_block
is_block-IsNamed none = inr (refl, λ h. h)
is_block-IsNamed (some (tag [])) = inr (refl, λ h. h refl)
is_block-IsNamed (some (tag (c ∷ t))) = inl (refl, λ e. cc)
is_block-IsNamed (some (height (number (pos zero)))) = inr (refl, λ h. h refl)
is_block-IsNamed (some (height (number (pos (suc n))))) = inl (refl, λ e. ground (arith, e))
is_block-IsNamed (some (height (number (negsuc n)))) = inl (refl, λ e. ground (arith, e))
is_block-IsNamed (some (height (bigint (pos zero)))) = inr (refl, λ h. h refl)
is_block-IsNamed (some (height (bigint (pos (suc n))))) = inl (refl, λ e. ground (arith, e))
is_block-IsNamed (some (height (bigint (negsuc n)))) = inl (refl, λ e. ground (arith, e))

is_given-cases :
    (block_hash : Option Text)
    → ((hash : Text) × (truthy_text block_hash ≡ some hash)
        × ((h : Text) × (block_hash ≡ some h) × (h ≢ [])))
      ⊎ ((truthy_text block_hash ≡ none) × ((h : Text) × (block_hash ≡ some h) × (h ≢ []) → ⊥))
unfolding truthy_text
is_given-cases none = inr (refl, λ h. absurd (ground (arith, h.1)))
is_given-cases (some []) = inr (refl, λ h. h.2 (let e : [] ≡ h.0 = cc in sym e))
is_given-cases (some (c ∷ t)) = inl (c ∷ t, refl, (c ∷ t, refl, λ e. cc))

-- The guard of the code refuses just the contradictory filters.
is_contradictory_lem :
    (filter : LogFilter)
    → ((is_contradictory filter ≡ true) × IsContradictory filter)
      ⊎ ((is_contradictory filter ≡ false) × (IsContradictory filter → ⊥))
unfolding is_contradictory
is_contradictory_lem filter = elim (is_given-cases filter.block_hash) [
  | inr (e, ungiven) ↦ inr (rw (is_contradictory, e) refl, λ h. ungiven h.0)
  | inl (hash, e, given) ↦ elim (is_block-IsNamed filter.from_block) [
    | inl (y, named) ↦ inl (rw (is_contradictory, e, y) refl, (given, inl named))
    | inr (n, unnamed) ↦ elim (is_block-IsNamed filter.to_block) [
      | inl (y, named) ↦ inl (rw (is_contradictory, e, n, y) refl, (given, inr named))
      | inr (m, unnamed_too) ↦ inr (
        rw (is_contradictory, e, n, m) refl,
        λ h. elim h.1 [ inl u ↦ unnamed u | inr v ↦ unnamed_too v ],
      )
    ]
  ]
]

-- The fields of a range, or the exception of one of its ends.
abbrev RangeEnds : BlockTag → BlockTag → Result (List (Text × Option Json)) → Type 0
RangeEnds from to (ok blocks) = IsBlockRange from to blocks
RangeEnds from to (err e) = (normalize_block_tag from ≡ err e) ⊎ (normalize_block_tag to ≡ err e)

-- What a filter is answered with: an object with its blocks, or the exception of its address or of
-- an end of its range.
abbrev pub Ends : {W : Type 0} → LogFilter → W × Caches → Result Json → Type 0
Ends filter s (ok j) =
    (fs : Fields) × (j ≡ object fs) × IsRange filter (truthy_text filter.block_hash) fs
Ends filter s (err e) =
    ((address_filter filter.address s).0 ≡ err e)
    ⊎ ((normalize_block_tag (default filter.from_block (height (bigint (pos 0)))) ≡ err e)
        ⊎ (normalize_block_tag (default filter.to_block latest) ≡ err e))

-- What the blocks of a filter are answered with.
abbrev BlocksEnd : LogFilter → Option Text → Result (List (Text × Option Json)) → Type 0
BlocksEnd filter hash (ok blocks) = IsRange filter hash (fields blocks)
BlocksEnd filter hash (err e) =
    (normalize_block_tag (default filter.from_block (height (bigint (pos 0)))) ≡ err e)
    ⊎ (normalize_block_tag (default filter.to_block latest) ≡ err e)

same_ends :
    (filter : LogFilter) (r : Result (List (Text × Option Json)))
    → RangeEnds
        (default filter.from_block (height (bigint (pos 0))))
        (default filter.to_block latest)
        r
    → BlocksEnd filter none r
same_ends filter (ok blocks) h = h
same_ends filter (err e) h = h

module _ {W : Type 0} where
  block_range-RangeEnds :
      (from to : BlockTag) (t : W × Caches) (f l : Result Text)
      → normalize_block_tag from ≡ f
      → normalize_block_tag to ≡ l
      → RangeEnds from to (block_range from to t).0
  unfolding block_range block_json
  block_range-RangeEnds from to t (err e) l p q = rw p (inl p)
  block_range-RangeEnds from to t (ok x) (err e) p q = rw (p, q) (inr q)
  block_range-RangeEnds from to t (ok x) (ok y) p q =
      rw (p, q) (range_fields from to (string x) (string y) (x, p, refl) (y, q, refl))

  log_blocks-BlocksEnd :
      (hash : Option Text) (filter : LogFilter) (t : W × Caches)
      → BlocksEnd filter hash (log_blocks hash filter t).0
  unfolding log_blocks get_field fields text_eq
  log_blocks-BlocksEnd (some hash) filter t = (refl, refl, refl)
  log_blocks-BlocksEnd none filter t = same_ends filter _ (
      block_range-RangeEnds (default filter.from_block (height (bigint (pos 0))))
        (default filter.to_block latest) t _ _ refl refl)

  module _ (filter : LogFilter) (s : W × Caches) where
    after_blocks :
        (a : Option Json) (r : Result (List (Text × Option Json)) × (W × Caches))
        → BlocksEnd filter (truthy_text filter.block_hash) r.0
        → Ends filter s
            (await_step r (λ blocks. return (
              ok (
                record_of
                  ((codes "address", a) ∷ (codes "topics", arrays filter.topics) ∷ blocks))))).0
    after_blocks a (ok blocks, t) h = (
      _,
      refl,
      IsRange-skip filter (truthy_text filter.block_hash) a (arrays filter.topics) blocks h,
    )
    after_blocks a (err e, t) h = inr h

    after_address :
        (r : Result (Option Json) × (W × Caches))
        → address_filter filter.address s ≡ r
        → Ends filter s
            (await_step r (λ a. log_blocks (truthy_text filter.block_hash) filter >>= λ blocks.
              return (
                ok (
                  record_of
                    ((codes "address", a) ∷ (codes "topics", arrays filter.topics) ∷ blocks))))).0
    after_address (ok a, t) h =
        after_blocks a (log_blocks (truthy_text filter.block_hash) filter t)
          (log_blocks-BlocksEnd (truthy_text filter.block_hash) filter t)
    after_address (err e, t) h = inl (ap (λ r. r.0) h)

-- A filter with the hash of a block and an end of a range, where an empty text and the height 0 count
-- as none, is refused. Of any other filter, what is sent has the hash and no range, or no hash and both
-- ends of the range, from block 0 and to the latest where the filter leaves them out; if nothing is
-- sent, the exception is that of the filter's address or of one of these ends.
pub serialize_log_filter_lem :
    {W : Type 0} (filter : LogFilter) (s : W × Caches)
    → (IsContradictory filter × (serialize_log_filter filter s ≡ (err invalid_log_filter, s)))
      ⊎ ((IsContradictory filter → ⊥) × Ends filter s (serialize_log_filter filter s).0)
unfolding serialize_log_filter
serialize_log_filter_lem filter s = elim (is_contradictory_lem filter) [
  | inl (y, refused) ↦ inl (refused, rw y refl)
  | inr (n, clear) ↦
      inr (clear, rw n (after_address filter s (address_filter filter.address s) refl))
]
