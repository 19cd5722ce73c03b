-- ===== src/Surfaces/Discovery/Tests.antt =====
-- Discovery run on a client with fixed answers (agentDiscovery.ts).
use tosdk.Prelude.{◌≡◌, refl, ◌⊎◌, false, List, Option, none, map, length, ◌==◌}
use mathlib.Core.List.{Perm}
use tosdk.Prelude.Results.{ok, err, base_error}
use tosdk.Strings.{Text}
use tosdk.Arrays.{filter, Member}
use tosdk.Sort.Keys.{InOrder}
use tosdk.Surfaces.Types.{AgentPublishedCard}
use tosdk.Surfaces.Client.{for_each}
use tosdk.Surfaces.Fixtures.{
  by_length, by_length-IsComparator, client, parameters, over_six, results, card_of,
}
use tosdk.Surfaces.Discovery.Failures.{DiscoveredAgentProvider, get_trust_failures}
use tosdk.Surfaces.Discovery.Ranking.{
  PolicyOverride, default_execution_policy, TrustedDiscoveredAgentProvider,
  rank_trusted_agent_providers, resolve_agent_provider_execution_policy,
}
use tosdk.Surfaces.Discovery.Search.{
  provider_of, discover_agent_providers, providers_of, with_limit, search_or_throw,
}
use tosdk.Surfaces.Discovery.Trust.{scored, IsAhead, rank_lem}
use tosdk.Surfaces.Discovery.Selection.{is_preferred, IsBestProvider, search_or_throw_lem}

abbrev no_json : Text → Option AgentPublishedCard
no_json text = none

abbrev no_override : PolicyOverride
no_override = record {
  search_limit = none;
  preferred_modes = none;
  prefer_lower_advertised_fee = none;
}

abbrev providers : List DiscoveredAgentProvider
providers = map (λ r. provider_of no_json parameters.capability r (card_of r.node_record)) results

rank_lem_example :
    Perm
      (rank_trusted_agent_providers by_length default_execution_policy providers)
      (map scored (filter (λ p. length (get_trust_failures p) == 0) providers))
    × InOrder
        (IsAhead by_length default_execution_policy)
        (rank_trusted_agent_providers by_length default_execution_policy providers)
rank_lem_example = rank_lem by_length by_length-IsComparator default_execution_policy providers

search_or_throw_lem_example :
    ((t : TrustedDiscoveredAgentProvider) × (search_or_throw client no_json by_length parameters
          over_six no_override 0
        ≡ (ok t, 5))
      × IsBestProvider by_length
          (resolve_agent_provider_execution_policy parameters.capability no_override)
          over_six
          providers
          t)
    ⊎ ((search_or_throw client no_json by_length parameters over_six no_override 0
          ≡ (err base_error, 5))
        × ((q : DiscoveredAgentProvider) → Member q providers → is_preferred over_six q ≡ false))
unfolding discover_agent_providers providers_of for_each with_limit
search_or_throw_lem_example =
    search_or_throw_lem client no_json by_length parameters over_six no_override 0 5 providers
      by_length-IsComparator refl
