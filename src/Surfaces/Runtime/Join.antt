-- ===== src/Surfaces/Runtime/Join.antt =====
-- Search results joined with their surfaces, one entry each (agentRuntime.ts).
use tosdk.Prelude.{
  ◌≡◌, ◌≢◌, refl, ap, ◌∙◌, inl, inr, arith, Bool, true, false, List, [], ◌∷◌, Option, none, some,
  if◌then◌else◌, Bool-cases,
}
use tosdk.Prelude.Results.{Result, ok, err}
use tosdk.Strings.{Text, to_lower_case, starts_with, is_blank, is_space}
use mathlib.Core.Path.{subst}
use tosdk.Address.{Caches, address_regex, get_address}
use tosdk.Address.Canonical.{get_address_lem}
use tosdk.Clients.Contracts.{Holds, IsSound, Keeps, bind-Keeps, return-Keeps}
use tosdk.Surfaces.Types.{AgentSearchResult, AgentCardResponse, AgentPublishedCard}
use tosdk.Surfaces.Client.{Async, ◌>>=◌, return, for_each}
use tosdk.Surfaces.Preferences.{truthy_text}
use tosdk.Surfaces.Runtime.Types.{
  AgentRuntimeSurface, DeployedCodeInfo, DiscoveredAgentSurface, SearchResultSurface,
}
use tosdk.Surfaces.Runtime.Normalize.{
  BlockTag, RuntimeClient, chain, normalize_runtime_surface, address_or_none, try_normalize_address,
}
use tosdk.Surfaces.Runtime.Lookup.{
  outside, normalized, when_given, get_agent_runtime_surface, get_discovered_agent_surface,
  join_entry, join_search_results,
}

-- Two lists of one length, related item by item.
abbrev pub Pairwise : {A B : Type 0} → (A → B → Type 0) → List A → List B → Type 0
Pairwise R [] [] = Unit
Pairwise R [] (y ∷ ys) = ⊥
Pairwise R (x ∷ xs) [] = ⊥
Pairwise R (x ∷ xs) (y ∷ ys) = R x y × Pairwise R xs ys

-- The form of an address that is valid: its lower case.
abbrev pub normal_form : Option Text → Option Text
normal_form none = none
normal_form (some address) = if address_regex address then some (to_lower_case address) else none

blank-invalid : (t : Text) → is_blank t ≡ true → address_regex t ≡ false
unfolding is_blank is_space address_regex starts_with
blank-invalid [] h = refl
blank-invalid (c ∷ t) h = ground (arith, h)

chosen_if : {A : Type 0} (b : Bool) (x y : A) → b ≡ true → (if b then x else y) ≡ x
chosen_if b x y e = rw e refl

chosen_else : {A : Type 0} (b : Bool) (x y : A) → b ≡ false → (if b then x else y) ≡ y
chosen_else b x y e = rw e refl

-- With right caches, an address that may be left out is normalized to its normal form.
try_normalize_address_lem :
    (value : Option Text) (caches : Caches)
    → IsSound caches
    → ((try_normalize_address value caches).0 ≡ normal_form value)
      × IsSound (try_normalize_address value caches).1
unfolding try_normalize_address address_or_none
try_normalize_address_lem none caches w = (refl, w)
try_normalize_address_lem (some value) caches w =
    let g = get_address_lem value none caches w.coherent w.lowered in
    let kept : IsSound (get_address value none caches).1 = record {
      coherent = g.1;
      lowered = g.2;
    } in
    elim (Bool-cases (is_blank value)) [
      | inl y ↦ rw (y, blank-invalid value y) (refl, w)
      | inr n ↦ elim (Bool-cases (address_regex value)) [
        | inl r ↦ rw (n, r) (ap address_or_none (g.0 ∙ chosen_if _ _ _ r), kept)
        | inr r ↦ rw (n, r) (ap address_or_none (g.0 ∙ chosen_else _ _ _ r), kept)
      ]
    ]

-- The caches of a state answer right.
abbrev pub HasSound : {W : Type 0} → W × Caches → Type 0
HasSound s = IsSound s.1

module _ {W A B : Type 0} (R : A → B → Type 0) (body : A → Async (W × Caches) B)
    (each : (x : A) → Keeps {W = W} HasSound (R x) (body x)) where
  for_each-Keeps : (xs : List A) → Keeps {W = W} HasSound (Pairwise R xs) (for_each body xs)
  unfolding for_each
  for_each-Keeps [] = return-Keeps HasSound (Pairwise R []) (ok []) tt
  for_each-Keeps (x ∷ xs) =
      bind-Keeps HasSound (R x) (Pairwise R (x ∷ xs)) (body x) _ (each x) (λ y r.
        bind-Keeps HasSound (Pairwise R xs) (Pairwise R (x ∷ xs)) (for_each body xs) _
          (for_each-Keeps xs)
          (λ ys rs. return-Keeps HasSound (Pairwise R (x ∷ xs)) (ok (y ∷ ys)) (r, rs)))

answered :
    {W A : Type 0} (m : Async W A) (w : W) (r : Result A × W)
    → m w ≡ r
    → Holds (λ a. (before : W) × (after : W) × (m before ≡ (ok a, after))) r.0
answered m w (ok a, after) e = (w, after, e)
answered m w (err x, after) e = tt

-- A record of code as the chain of the source, and written out.
said :
    (info : Option DeployedCodeInfo)
    → chain info (λ i. some (normalize_runtime_surface i))
      ≡ (elim info [ none ↦ none | some i ↦ some (normalize_runtime_surface i) ])
said none = refl
said (some i) = refl

-- The address on a card.
abbrev pub card_address : AgentCardResponse → Option Text
card_address card = elim card.parsed_card [ none ↦ none | some parsed ↦ parsed.agent_address ]

address_same :
    (parsed : Option AgentPublishedCard)
    → chain parsed (λ c. c.agent_address) ≡ (elim parsed [ none ↦ none | some c ↦ c.agent_address ])
address_same none = refl
address_same (some c) = refl

given_record :
    (node_record r : Text)
    → truthy_text (some node_record) ≡ some r
    → (node_record ≢ []) × (r ≡ node_record)
unfolding truthy_text
given_record [] r e = absurd (ground (arith, e))
given_record (c ∷ t) r e = (λ n. cc, ground (arith, e))

no_record : (node_record : Text) → truthy_text (some node_record) ≡ none → node_record ≡ []
unfolding truthy_text
no_record [] e = refl
no_record (c ∷ t) e = absurd (ground (arith, e))

module _ {W : Type 0} (client : RuntimeClient W) (block_tag : Option BlockTag) where
  -- The code at an address: none without an address, and else what an answer of the client says.
  abbrev pub IsCodeAt : Option Text → Option AgentRuntimeSurface → Type 0
  IsCodeAt none runtime = runtime ≡ none
  IsCodeAt (some []) runtime = runtime ≡ none
  IsCodeAt (some (c ∷ address)) runtime =
      (before : W) × (after : W) × (info : Option DeployedCodeInfo) × (client.get_contract_metadata
          (c ∷ address) block_tag before
        ≡ (ok info, after))
      × (runtime ≡ (elim info [ none ↦ none | some i ↦ some (normalize_runtime_surface i) ]))

  -- The surface of a record: a card that the client answered for it, and the code at the normal form
  -- of the card's address.
  abbrev pub IsSurfaceOf : Text → DiscoveredAgentSurface → Type 0
  IsSurfaceOf node_record surface =
      (surface.node_record ≡ node_record)
      × ((before : W) × (after : W) × (client.discovery.agent_discovery_get_card node_record before
            ≡ (ok surface.card, after)))
      × IsCodeAt (normal_form (card_address surface.card)) surface.runtime

  -- The entry is that of the search result: without a surface where the result has no node record,
  -- and else with the surface of that record.
  abbrev pub IsJoined : AgentSearchResult → SearchResultSurface → Type 0
  IsJoined result entry = (entry.result ≡ result) × (elim entry.surface [
    | none ↦ result.node_record ≡ []
    | some surface ↦ (result.node_record ≢ []) × IsSurfaceOf result.node_record surface
  ])

  -- An answer of a call outside, with the run that gave it.
  outside-Keeps :
      {A : Type 0} (m : Async W A)
      → Keeps HasSound (λ a. (before : W) × (after : W) × (m before ≡ (ok a, after))) (outside m)
  outside-Keeps m s sound = (sound, answered m s.0 (m s.0) refl)

  normalized-Keeps :
      (value : Option Text) → Keeps {W = W} HasSound (λ a. a ≡ normal_form value) (normalized value)
  normalized-Keeps value s sound = let r = try_normalize_address_lem value s.1 sound in (r.1, r.0)

  code-Keeps :
      (address : Option Text)
      → Keeps HasSound
          (IsCodeAt address)
          (when_given address (λ a. get_agent_runtime_surface client a block_tag))
  unfolding truthy_text get_agent_runtime_surface
  code-Keeps none = return-Keeps HasSound (IsCodeAt none) (ok none) refl
  code-Keeps (some []) = return-Keeps HasSound (IsCodeAt (some [])) (ok none) refl
  code-Keeps (some (c ∷ address)) =
      let m = client.get_contract_metadata (c ∷ address) block_tag in
      bind-Keeps HasSound (λ info. (before : W) × (after : W) × (m before ≡ (ok info, after)))
        (IsCodeAt (some (c ∷ address))) (outside m) _ (outside-Keeps m)
        (λ info run.
          return-Keeps HasSound (IsCodeAt (some (c ∷ address)))
            (ok (chain info (λ i. some (normalize_runtime_surface i))))
            (run.0, run.1, info, run.2, said info))

  surface-Keeps :
      (node_record : Text)
      → Keeps HasSound
          (IsSurfaceOf node_record)
          (get_discovered_agent_surface client node_record block_tag)
  unfolding get_discovered_agent_surface
  surface-Keeps node_record =
      let P = IsSurfaceOf node_record in
      let m = client.discovery.agent_discovery_get_card node_record in
      let look : Option Text → Async (W × Caches) (Option AgentRuntimeSurface) =
        λ a. when_given a (λ t. get_agent_runtime_surface client t block_tag) in
      let made : AgentCardResponse
          → Option AgentRuntimeSurface
          → Async (W × Caches) DiscoveredAgentSurface =
        λ card r. return (ok (record { node_record = node_record; card = card; runtime = r })) in
      bind-Keeps HasSound (λ card. (before : W) × (after : W) × (m before ≡ (ok card, after))) P
        (outside m) _ (outside-Keeps m)
        (λ card run.
          let given = chain card.parsed_card (λ c. c.agent_address) in
          bind-Keeps HasSound (λ a. a ≡ normal_form given) P (normalized given)
            (λ a. look a >>= made card) (normalized-Keeps given)
            (λ address e.
              bind-Keeps HasSound (IsCodeAt address) P (look address) (made card)
                (code-Keeps address)
                (λ runtime code.
                  return-Keeps HasSound P
                    (ok (record { node_record = node_record; card = card; runtime = runtime }))
                    (
                      refl,
                      run,
                      subst (λ a. IsCodeAt a runtime)
                          (e ∙ ap normal_form (address_same card.parsed_card)) code,
                    ))))

  -- By whether the result has a node record.
  join_entry-Keeps :
      (result : AgentSearchResult) (given : Option Text)
      → truthy_text (some result.node_record) ≡ given
      → Keeps HasSound (IsJoined result) (join_entry client block_tag result)
  unfolding join_entry
  join_entry-Keeps result none t =
      rw (t, join_entry)
        (return-Keeps HasSound (IsJoined result) (ok (record { result = result; surface = none }))
          (refl, no_record result.node_record t))
  join_entry-Keeps result (some r) t =
      let given = given_record result.node_record r t in
      rw (t, join_entry)
        (bind-Keeps HasSound (IsSurfaceOf r) (IsJoined result)
          (get_discovered_agent_surface client r block_tag)
          (λ surface. return (ok (record { result = result; surface = some surface })))
          (surface-Keeps r)
          (λ surface h.
            return-Keeps HasSound (IsJoined result)
              (ok (record { result = result; surface = some surface }))
              (refl, (given.0, subst (λ n. IsSurfaceOf n surface) given.1 h))))

  -- With right caches, which stay right: where the join reaches its end, it has one entry for each
  -- search result, in order: the result itself, without a surface if it has no node record, and else
  -- with the surface of that record: the record, a card that the client answered for it, and, if the
  -- card has a valid address, what the client answered of the code at its lower case, and else no code.
  pub join_search_results_lem :
      (results : List AgentSearchResult) (s : W × Caches)
      → IsSound s.1
      → IsSound (join_search_results client results block_tag s).1.1
        × Holds (Pairwise IsJoined results) (join_search_results client results block_tag s).0
  unfolding join_search_results
  join_search_results_lem results s sound =
      for_each-Keeps IsJoined (join_entry client block_tag)
        (λ x. join_entry-Keeps x (truthy_text (some x.node_record)) refl) results s sound
