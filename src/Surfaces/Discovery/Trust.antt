-- ===== src/Surfaces/Discovery/Trust.antt =====
-- The order of the trusted providers.
use tosdk.Prelude.{
  ℕ, ℤ, ◌<◌, ◌⊎◌, inl, inr, Bool-cases, pos, ◌≡◌, refl, sym, ap, ◌∙◌, arith, Bool, true, false,
  ◌||◌, List, Option, none, some, ◌==◌, if◌then◌else◌, length, map,
}
use tosdk.Strings.{Text}
use tosdk.Arrays.{filter, filter-same, map-same}
use tosdk.Sort.{is_positive, is_below, sort, IsComparator}
use mathlib.Core.Path.{subst}
use tosdk.Sort.Laws.{sort-perm, sort-Ordered}
use tosdk.Sort.Keys.{InOrder, Descending, Descending_lem, Ordered-InOrder}
use tosdk.Surfaces.Types.{AgentProviderTrustSummary}
use mathlib.Core.List.{Perm}
use tosdk.Surfaces.Discovery.Failures.{
  DiscoveredAgentProvider, summary_failures, get_trust_failures, trust_score,
}
use tosdk.Surfaces.Preferences.{push_if}
use tosdk.Surfaces.Discovery.Ranking.{
  AgentProviderExecutionPolicy, TrustedDiscoveredAgentProvider, provider_mode_score,
  provider_advertised_fee, compare_fees, passes_trust, is_trusted, with_score, compare_providers,
  rank_trusted_agent_providers,
}
use tosdk.Surfaces.Discovery.Keys.{compare_providers-eq, compare_providers-IsComparator}

-- The filter of the ranking and the list of trust failures say the same.
pub is_trusted-failures :
    (p : DiscoveredAgentProvider) → (length (get_trust_failures p) == 0) ≡ is_trusted p
unfolding get_trust_failures is_trusted passes_trust summary_failures push_if
is_trusted-failures p = ground (arith)

-- A provider with the local rank score of its trust summary, or 0.
abbrev pub scored : DiscoveredAgentProvider → TrustedDiscoveredAgentProvider
scored p = record {
  provider = p;
  trust_score = elim p.search.trust [
    | none ↦ pos 0
    | some trust ↦ elim trust.local_rank_score [ none ↦ pos 0 | some n ↦ n ]
  ];
}

score_lem :
    (trust : Option AgentProviderTrustSummary)
    → trust_score trust ≡ (elim trust [
      | none ↦ pos 0
      | some t ↦ elim t.local_rank_score [ none ↦ pos 0 | some n ↦ n ]
    ])
unfolding trust_score
score_lem none = refl
score_lem (some trust) = refl

scored_lem : (p : DiscoveredAgentProvider) → with_score p ≡ scored p
unfolding with_score
scored_lem p = ap (λ n. record { provider = p; trust_score = n }) (score_lem p.search.trust)

-- By fee, if lower fees are preferred: the lower first, and none behind any.
abbrev pub AheadByFee : Bool → Option ℕ → Option ℕ → Type 0 → Type 0
AheadByFee false l r rest = rest
AheadByFee true none none rest = rest
AheadByFee true none (some r) rest = ⊥
AheadByFee true (some l) none rest = Unit
AheadByFee true (some l) (some r) rest = (l < r) ⊎ ((l ≡ r) × rest)

-- The order of providers, key by key.
abbrev pub IsAhead :
    (Text → Text → ℤ)
    → AgentProviderExecutionPolicy
    → TrustedDiscoveredAgentProvider
    → TrustedDiscoveredAgentProvider
    → Type 0
IsAhead locale policy l r =
    Descending (pos (provider_mode_score l.provider policy))
      (pos (provider_mode_score r.provider policy))
      (Descending l.trust_score r.trust_score (
        AheadByFee policy.prefer_lower_advertised_fee (provider_advertised_fee l.provider)
          (provider_advertised_fee r.provider)
          (is_positive (locale l.provider.search.node_record r.provider.search.node_record)
            ≡ false)))

AheadByFee_lem :
    (prefer : Bool) (l r : Option ℕ) (records : ℤ)
    → is_positive (
        if prefer
        then if is_positive (compare_fees l r (pos 0)) || is_below (compare_fees l r (pos 0))
          then compare_fees l r (pos 0)
          else records
        else records)
      ≡ false
    → AheadByFee prefer l r (is_positive records ≡ false)
unfolding compare_fees
AheadByFee_lem false l r records h = h
AheadByFee_lem true none none records h = h
AheadByFee_lem true none (some r) records h = absurd (ground (arith, h))
AheadByFee_lem true (some l) none records h = tt
AheadByFee_lem true (some l) (some r) records h = elim (Bool-cases (l == r)) [
  | inl y ↦
      let rest : is_positive records ≡ false = ground (arith, y, h) in inr (ground (arith, y), rest)
  | inr n ↦ inl (ground (arith, n, h))
]

compare_providers-IsAhead :
    (locale : Text → Text → ℤ) (policy : AgentProviderExecutionPolicy)
    (l r : TrustedDiscoveredAgentProvider)
    → is_positive (compare_providers locale policy l r) ≡ false
    → IsAhead locale policy l r
compare_providers-IsAhead locale policy l r h =
    Descending_lem (pos (provider_mode_score l.provider policy))
      (pos (provider_mode_score r.provider policy)) _ _
      (λ e.
        Descending_lem l.trust_score r.trust_score _ _
          (AheadByFee_lem policy.prefer_lower_advertised_fee (provider_advertised_fee l.provider)
            (provider_advertised_fee r.provider)
            (locale l.provider.search.node_record r.provider.search.node_record))
          e)
      (sym (ap is_positive (compare_providers-eq locale policy l r)) ∙ h)

module _ (locale : Text → Text → ℤ) (w : IsComparator locale)
    (policy : AgentProviderExecutionPolicy) where
  -- With a consistent locale comparison: the ranking holds just the providers with no trust failure,
  -- each with the local rank score of its trust summary or 0, and has every one before those of a lower
  -- score of mode; of the same, before those of a lower trust score; of the same, where the policy
  -- prefers lower fees, before those that advertise a higher fee or none; and of the same, before those
  -- of a record that it does not compare as behind.
  pub rank_lem :
      (providers : List DiscoveredAgentProvider)
      → Perm
          (rank_trusted_agent_providers locale policy providers)
          (map scored (filter (λ p. length (get_trust_failures p) == 0) providers))
        × InOrder (IsAhead locale policy) (rank_trusted_agent_providers locale policy providers)
  unfolding rank_trusted_agent_providers
  rank_lem providers =
      let items = map with_score (filter is_trusted providers) in
      let same =
        map-same with_score scored scored_lem (filter is_trusted providers)
        ∙ ap (map scored) (
            filter-same is_trusted (λ p. length (get_trust_failures p) == 0)
              (λ p. sym (is_trusted-failures p)) providers) in
      (
        subst (Perm (sort (compare_providers locale policy) items)) same
            (sort-perm (compare_providers locale policy) items),
        Ordered-InOrder (compare_providers locale policy) (IsAhead locale policy)
            (compare_providers-IsAhead locale policy) _
            (sort-Ordered (compare_providers locale policy)
              (compare_providers-IsComparator locale w policy) items),
      )
