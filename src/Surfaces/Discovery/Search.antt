-- ===== src/Surfaces/Discovery/Search.antt =====
-- Discovery through a client (agentDiscovery.ts). `json_parse` is JSON.parse on the text of a card,
-- read as a card; `none` where it throws.
use tosdk.Prelude.{ℤ, List, Option, none, some}
use tosdk.Prelude.Results.{ok}
use tosdk.Strings.{Text}
use tosdk.Surfaces.Types.{
  AgentSearchResult, AgentCardResponse, AgentPublishedCard, AgentSearchParams,
  AgentDirectorySearchParams,
}
use tosdk.Surfaces.Client.{Async, DiscoveryClient, ◌>>=◌, return, for_each}
use tosdk.Surfaces.Preferences.{AgentProviderSelectionPreferences}
use tosdk.Surfaces.Discovery.Failures.{DiscoveredAgentProvider}
use tosdk.Surfaces.Discovery.Ranking.{
  AgentProviderExecutionPolicy, PolicyOverride, TrustedDiscoveredAgentProvider, or_default,
  resolve_agent_provider_execution_policy, rank_trusted_agent_providers,
}
use tosdk.Surfaces.Discovery.Diagnosis.{
  PreferredAgentProviderResolution, diagnose_agent_providers, discover_capability_entry_from_card,
  discover_capability_from_card, require_preferred_agent_provider, resolve_preferred_agent_provider,
}

module _ (json_parse : Text → Option AgentPublishedCard) where
  unfoldable pub safe_parse_published_card : AgentCardResponse → Option AgentPublishedCard
  safe_parse_published_card card = elim card.parsed_card [
    | some parsed ↦ some parsed
    | none ↦ json_parse card.card_json
  ]

  -- The record pushed for a search result and its card.
  unfoldable pub provider_of :
      Text → AgentSearchResult → AgentCardResponse → DiscoveredAgentProvider
  provider_of capability result card =
      let parsed = safe_parse_published_card card in
      record {
        search = result;
        card = card;
        parsed_card = parsed;
        matched_capability = discover_capability_from_card parsed capability;
        matched_capability_entry = discover_capability_entry_from_card parsed capability;
      }

-- The choice among the providers that a search found.
unfoldable pub resolution_of :
    (Text → Text → ℤ)
    → AgentProviderExecutionPolicy
    → AgentProviderSelectionPreferences
    → List DiscoveredAgentProvider
    → PreferredAgentProviderResolution
resolution_of locale_compare policy prefs providers =
    let trusted = rank_trusted_agent_providers locale_compare policy providers in
    record {
      provider = resolve_preferred_agent_provider trusted prefs;
      diagnostics = diagnose_agent_providers providers prefs;
    }

-- limit: parameters.limit ?? policy.searchLimit
unfoldable pub with_limit : AgentSearchParams → AgentProviderExecutionPolicy → AgentSearchParams
with_limit parameters policy = record parameters {
  limit = some (or_default parameters.limit policy.search_limit);
}

unfoldable pub with_directory_limit :
    AgentDirectorySearchParams → AgentProviderExecutionPolicy → AgentDirectorySearchParams
with_directory_limit parameters policy = record parameters {
  limit = some (or_default parameters.limit policy.search_limit);
}

module _ {W : Type 0} (client : DiscoveryClient W) (json_parse : Text → Option AgentPublishedCard)
    (locale_compare : Text → Text → ℤ) where
  unfoldable pub providers_of :
      Text → List AgentSearchResult → Async W (List DiscoveredAgentProvider)
  providers_of capability results =
      for_each
        (λ result. client.agent_discovery_get_card result.node_record >>= λ card.
          return (ok (provider_of json_parse capability result card)))
        results

  unfoldable pub discover_agent_providers :
      AgentSearchParams → Async W (List DiscoveredAgentProvider)
  discover_agent_providers parameters =
      client.agent_discovery_search parameters >>= providers_of parameters.capability

  unfoldable pub directory_discover_agent_providers :
      AgentDirectorySearchParams → Async W (List DiscoveredAgentProvider)
  directory_discover_agent_providers parameters =
      client.agent_discovery_directory_search parameters >>= providers_of parameters.capability

  unfoldable pub search_preferred_agent_provider :
      AgentSearchParams
      → AgentProviderSelectionPreferences
      → PolicyOverride
      → Async W (Option TrustedDiscoveredAgentProvider)
  search_preferred_agent_provider parameters prefs override =
      let policy = resolve_agent_provider_execution_policy parameters.capability override in
      discover_agent_providers (with_limit parameters policy) >>= λ providers. return (
        ok (
          resolve_preferred_agent_provider
            (rank_trusted_agent_providers locale_compare policy providers) prefs))

  unfoldable pub directory_search_preferred_agent_provider :
      AgentDirectorySearchParams
      → AgentProviderSelectionPreferences
      → PolicyOverride
      → Async W (Option TrustedDiscoveredAgentProvider)
  directory_search_preferred_agent_provider parameters prefs override =
      let policy = resolve_agent_provider_execution_policy parameters.capability override in
      directory_discover_agent_providers (with_directory_limit parameters policy) >>= λ providers.
      return (
        ok (
          resolve_preferred_agent_provider
            (rank_trusted_agent_providers locale_compare policy providers) prefs))

  unfoldable pub search_with_diagnostics :
      AgentSearchParams
      → AgentProviderSelectionPreferences
      → PolicyOverride
      → Async W PreferredAgentProviderResolution
  search_with_diagnostics parameters prefs override =
      let policy = resolve_agent_provider_execution_policy parameters.capability override in
      discover_agent_providers (with_limit parameters policy) >>= λ providers.
      return (ok (resolution_of locale_compare policy prefs providers))

  unfoldable pub directory_search_with_diagnostics :
      AgentDirectorySearchParams
      → AgentProviderSelectionPreferences
      → PolicyOverride
      → Async W PreferredAgentProviderResolution
  directory_search_with_diagnostics parameters prefs override =
      let policy = resolve_agent_provider_execution_policy parameters.capability override in
      directory_discover_agent_providers (with_directory_limit parameters policy) >>= λ providers.
      return (ok (resolution_of locale_compare policy prefs providers))

  unfoldable pub search_or_throw :
      AgentSearchParams
      → AgentProviderSelectionPreferences
      → PolicyOverride
      → Async W TrustedDiscoveredAgentProvider
  search_or_throw parameters prefs override =
      search_with_diagnostics parameters prefs override >>= λ resolution.
      return (require_preferred_agent_provider resolution)

  unfoldable pub directory_search_or_throw :
      AgentDirectorySearchParams
      → AgentProviderSelectionPreferences
      → PolicyOverride
      → Async W TrustedDiscoveredAgentProvider
  directory_search_or_throw parameters prefs override =
      directory_search_with_diagnostics parameters prefs override >>= λ resolution.
      return (require_preferred_agent_provider resolution)
