-- ===== src/Surfaces/Discovery/Selection.antt =====
-- The chosen provider against the diagnostics of all that were found.
use tosdk.Prelude.{
  ℤ, ◌≡◌, sym, ap, ◌∙◌, inl, inr, ◌⊎◌, arith, Bool, true, false, ◌&&◌, List, Option, none, some,
  ◌==◌, length,
}
use tosdk.Prelude.Results.{ok, err, base_error}
use tosdk.Strings.{Text}
use tosdk.Arrays.{Member}
use tosdk.Sort.{is_positive, IsComparator}
use tosdk.Sort.Choice.{choice_lem}
use tosdk.Surfaces.Types.{AgentPublishedCard, AgentSearchParams}
use tosdk.Surfaces.Client.{DiscoveryClient}
use tosdk.Surfaces.Preferences.{AgentProviderSelectionPreferences}
use tosdk.Surfaces.Discovery.Failures.{
  DiscoveredAgentProvider, get_preference_failures, trust_score,
}
use tosdk.Surfaces.Discovery.Ranking.{
  AgentProviderExecutionPolicy, PolicyOverride, TrustedDiscoveredAgentProvider, is_trusted,
  with_score, compare_providers, rank_trusted_agent_providers,
  resolve_agent_provider_execution_policy,
}
use tosdk.Surfaces.Discovery.Keys.{compare_providers-IsComparator}
use tosdk.Surfaces.Discovery.Trust.{is_trusted-failures}
use tosdk.Surfaces.Discovery.Diagnosis.{
  filter_preferred_agent_providers, resolve_preferred_agent_provider, diagnose,
  PreferredAgentProviderResolution, require_preferred_agent_provider,
}
use tosdk.Surfaces.Discovery.Search.{
  resolution_of, discover_agent_providers, with_limit, search_with_diagnostics, search_or_throw,
}

-- Whether the diagnostics call a provider preferred.
abbrev pub is_preferred : AgentProviderSelectionPreferences → DiscoveredAgentProvider → Bool
is_preferred prefs p = (diagnose prefs p).preferred

abbrev pub suits : AgentProviderSelectionPreferences → TrustedDiscoveredAgentProvider → Bool
suits prefs t = length (get_preference_failures t.provider t.trust_score prefs) == 0

-- The diagnostics and the two filters agree on every provider.
preferred_lem :
    (prefs : AgentProviderSelectionPreferences) (p : DiscoveredAgentProvider)
    → is_preferred prefs p ≡ is_trusted p && suits prefs (with_score p)
unfolding diagnose with_score
preferred_lem prefs p =
    ap (λ b. b && (length (get_preference_failures p (trust_score p.search.trust) prefs) == 0))
      (is_trusted-failures p)

-- A provider of the list that the diagnostics call preferred, and that is ranked behind no other
-- such one.
pub record IsBestProvider (locale : Text → Text → ℤ) (policy : AgentProviderExecutionPolicy)
    (prefs : AgentProviderSelectionPreferences) (providers : List DiscoveredAgentProvider)
    (t : TrustedDiscoveredAgentProvider) : Type 0 where
  pub found : DiscoveredAgentProvider
  pub scored : t ≡ with_score found
  pub among : Member found providers
  pub preferred : is_preferred prefs found ≡ true
  pub ahead :
      (q : DiscoveredAgentProvider)
      → Member q providers
      → is_preferred prefs q ≡ true
      → is_positive (compare_providers locale policy t (with_score q)) ≡ false

resolve_lem :
    (locale : Text → Text → ℤ) (w : IsComparator locale) (policy : AgentProviderExecutionPolicy)
    (prefs : AgentProviderSelectionPreferences) (providers : List DiscoveredAgentProvider)
    → ((t : TrustedDiscoveredAgentProvider) × ((resolution_of locale policy prefs
            providers).provider
          ≡ some t)
        × IsBestProvider locale policy prefs providers t)
      ⊎ (((resolution_of locale policy prefs providers).provider ≡ none)
          × ((q : DiscoveredAgentProvider) → Member q providers → is_preferred prefs q ≡ false))
unfolding resolution_of resolve_preferred_agent_provider filter_preferred_agent_providers
    rank_trusted_agent_providers
resolve_lem locale w policy prefs providers =
    elim (choice_lem is_trusted with_score (suits prefs) (compare_providers locale policy)
      (compare_providers-IsComparator locale w policy) providers) [
        | inl (t, e, b) ↦ inl (
          t,
          e,
          record {
            found = b.item;
            scored = b.viewed;
            among = b.among;
            preferred = preferred_lem prefs b.item ∙ b.qualified;
            ahead = λ q m h. b.ahead q m (sym (preferred_lem prefs q) ∙ h);
          },
        )
        | inr (e, n) ↦ inr (e, λ q m. preferred_lem prefs q ∙ n q m)
      ]

require-some :
    (r : PreferredAgentProviderResolution) (t : TrustedDiscoveredAgentProvider)
    → r.provider ≡ some t
    → require_preferred_agent_provider r ≡ ok t
unfolding require_preferred_agent_provider
require-some r t e = ground (arith, e)

require-none :
    (r : PreferredAgentProviderResolution)
    → r.provider ≡ none
    → require_preferred_agent_provider r ≡ err base_error
unfolding require_preferred_agent_provider
require-none r e = ground (arith, e)

-- With a locale comparison that is consistent: a search that reaches its end either returns a
-- provider of its results that the diagnostics call preferred and that no other such one is
-- ranked before, or throws, and then the diagnostics call none of the results preferred.
pub search_or_throw_lem :
    {W : Type 0} (client : DiscoveryClient W) (json_parse : Text → Option AgentPublishedCard)
    (locale : Text → Text → ℤ) (parameters : AgentSearchParams)
    (prefs : AgentProviderSelectionPreferences) (override : PolicyOverride) (world after : W)
    (providers : List DiscoveredAgentProvider)
    → IsComparator locale
    → discover_agent_providers client json_parse locale
        (with_limit parameters
          (resolve_agent_provider_execution_policy parameters.capability override))
        world
      ≡ (ok providers, after)
    → ((t : TrustedDiscoveredAgentProvider) × (search_or_throw client json_parse locale parameters
            prefs override world
          ≡ (ok t, after))
        × IsBestProvider locale
            (resolve_agent_provider_execution_policy parameters.capability override)
            prefs
            providers
            t)
      ⊎ ((search_or_throw client json_parse locale parameters prefs override world
            ≡ (err base_error, after))
          × ((q : DiscoveredAgentProvider) → Member q providers → is_preferred prefs q ≡ false))
unfolding search_or_throw search_with_diagnostics
search_or_throw_lem client json_parse locale parameters prefs override world after providers w e =
    let policy = resolve_agent_provider_execution_policy parameters.capability override in
    elim (resolve_lem locale w policy prefs providers) [
      | inl (t, r, b) ↦ inl (
        t,
        rw e
            (ap (λ x. (x, after)) (require-some (resolution_of locale policy prefs providers) t r)),
        b,
      )
      | inr (r, none_preferred) ↦ inr (
        rw e (ap (λ x. (x, after)) (require-none (resolution_of locale policy prefs providers) r)),
        none_preferred,
      )
    ]
