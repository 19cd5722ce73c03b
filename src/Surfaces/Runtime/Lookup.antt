-- ===== src/Surfaces/Runtime/Lookup.antt =====
-- The code that an agent runs, looked up through a client (agentRuntime.ts). The state is the world
-- outside and the caches of the addresses.
use tosdk.Prelude.{ℤ, List, Option, none, some}
use tosdk.Prelude.Results.{ok}
use tosdk.Strings.{Text}
use tosdk.Address.{Caches}
use tosdk.Surfaces.Types.{AgentSearchResult, AgentSearchParams, AgentDirectorySearchParams}
use tosdk.Surfaces.Client.{Async, ◌>>=◌, return, for_each}
use tosdk.Surfaces.Preferences.{truthy_text, AgentProviderSelectionPreferences}
use tosdk.Surfaces.Runtime.Types.{
  AgentRuntimeSurface, DiscoveredAgentSurface, SearchResultSurface, TrustedSearchResultSurface,
  SettlementRuntimeSurface,
}
use tosdk.Surfaces.Runtime.Trust.{
  rank_trusted_agent_surfaces, filter_preferred_agent_surfaces, select_preferred_agent_surface,
  AgentSurfaceSelectionDiagnostics, diagnose_preferred_agent_surfaces,
}
use tosdk.Surfaces.Runtime.Normalize.{
  BlockTag, RuntimeClient, chain, given_ref, normalize_runtime_surface, try_normalize_address,
}

module _ {W : Type 0} where
  -- A call of the client leaves the caches as they are.
  abbrev pub outside : {A : Type 0} → Async W A → Async (W × Caches) A
  outside m s = let r = m s.0 in (r.0, (r.1, s.1))

  abbrev pub normalized : Option Text → Async (W × Caches) (Option Text)
  normalized value s = let r = try_normalize_address value s.1 in (ok r.0, (s.0, r.1))

  -- `test ? some(await body(test)) : undefined`, for a string as the test
  abbrev pub when_given :
      {A : Type 0}
      → Option Text
      → (Text → Async (W × Caches) (Option A))
      → Async (W × Caches) (Option A)
  when_given test body = elim (truthy_text test) [ none ↦ return (ok none) | some t ↦ body t ]

module _ {W : Type 0} (client : RuntimeClient W) where
  unfoldable pub get_agent_runtime_surface :
      Text → Option BlockTag → Async (W × Caches) (Option AgentRuntimeSurface)
  get_agent_runtime_surface address block_tag =
      outside (client.get_contract_metadata address block_tag) >>= λ info.
      return (ok (chain info (λ i. some (normalize_runtime_surface i))))

  unfoldable pub get_discovered_agent_surface :
      Text → Option BlockTag → Async (W × Caches) DiscoveredAgentSurface
  get_discovered_agent_surface node_record block_tag =
      outside (client.discovery.agent_discovery_get_card node_record) >>= λ card.
      normalized (chain card.parsed_card (λ c. c.agent_address)) >>= λ address.
      when_given address (λ a. get_agent_runtime_surface a block_tag) >>= λ runtime.
      return (ok (record { node_record = node_record; card = card; runtime = runtime }))

  -- The code at an address of a receipt or an effect, as it is written there.
  unfoldable pub runtime_at :
      Text → Option BlockTag → Async (W × Caches) (Option AgentRuntimeSurface)
  runtime_at address block_tag = normalized (some address) >>= λ test.
      when_given test (λ a. get_agent_runtime_surface address block_tag)

  unfoldable pub get_runtime_receipt_surface :
      Text → Option BlockTag → Async (W × Caches) SettlementRuntimeSurface
  unfolding given_ref
  get_runtime_receipt_surface receipt_ref block_tag =
      outside (client.get_runtime_receipt receipt_ref) >>= λ receipt.
      when_given (given_ref receipt.settlement_ref)
        (λ r. outside (client.get_settlement_effect r) >>= λ e. return (ok (some e)))
      >>= λ effect. runtime_at receipt.sender block_tag >>= λ sender.
          runtime_at receipt.recipient block_tag >>= λ recipient. return (
            ok (record {
              receipt = some receipt;
              effect = effect;
              sender_runtime = sender;
              recipient_runtime = recipient;
            }))

  unfoldable pub get_settlement_effect_surface :
      Text → Option BlockTag → Async (W × Caches) SettlementRuntimeSurface
  unfolding given_ref
  get_settlement_effect_surface settlement_ref block_tag =
      outside (client.get_settlement_effect settlement_ref) >>= λ effect.
      when_given (given_ref effect.receipt_ref)
        (λ r. outside (client.get_runtime_receipt r) >>= λ e. return (ok (some e)))
      >>= λ receipt. runtime_at effect.sender block_tag >>= λ sender.
          runtime_at effect.recipient block_tag >>= λ recipient. return (
            ok (record {
              receipt = receipt;
              effect = some effect;
              sender_runtime = sender;
              recipient_runtime = recipient;
            }))

  -- The entry of a search result: the surface is looked up where there is a record to look up.
  unfoldable pub join_entry :
      Option BlockTag → AgentSearchResult → Async (W × Caches) SearchResultSurface
  join_entry block_tag result = elim (truthy_text (some result.node_record)) [
    | none ↦ return (ok (record { result = result; surface = none }))
    | some r ↦ get_discovered_agent_surface r block_tag >>= λ surface.
        return (ok (record { result = result; surface = some surface }))
  ]

  unfoldable pub join_search_results :
      List AgentSearchResult → Option BlockTag → Async (W × Caches) (List SearchResultSurface)
  join_search_results results block_tag = for_each (join_entry block_tag) results

  unfoldable pub search_discovered_agent_surfaces :
      AgentSearchParams → Option BlockTag → Async (W × Caches) (List SearchResultSurface)
  search_discovered_agent_surfaces parameters block_tag =
      outside (client.discovery.agent_discovery_search parameters) >>= λ results.
      join_search_results results block_tag

  unfoldable pub directory_search_discovered_agent_surfaces :
      AgentDirectorySearchParams → Option BlockTag → Async (W × Caches) (List SearchResultSurface)
  directory_search_discovered_agent_surfaces parameters block_tag =
      outside (client.discovery.agent_discovery_directory_search parameters) >>= λ results.
      join_search_results results block_tag

  module _ (locale_compare : Text → Text → ℤ) where
    unfoldable pub search_trusted_agent_surfaces :
        AgentSearchParams → Option BlockTag → Async (W × Caches) (List TrustedSearchResultSurface)
    search_trusted_agent_surfaces parameters block_tag =
        search_discovered_agent_surfaces parameters block_tag >>= λ entries.
        return (ok (rank_trusted_agent_surfaces locale_compare entries))

    unfoldable pub directory_search_trusted_agent_surfaces :
        AgentDirectorySearchParams
        → Option BlockTag
        → Async (W × Caches) (List TrustedSearchResultSurface)
    directory_search_trusted_agent_surfaces parameters block_tag =
        directory_search_discovered_agent_surfaces parameters block_tag >>= λ entries.
        return (ok (rank_trusted_agent_surfaces locale_compare entries))

    unfoldable pub search_preferred_agent_surfaces :
        AgentSearchParams
        → Option BlockTag
        → AgentProviderSelectionPreferences
        → Async (W × Caches) (List TrustedSearchResultSurface)
    search_preferred_agent_surfaces parameters block_tag prefs =
        search_trusted_agent_surfaces parameters block_tag >>= λ entries.
        return (ok (filter_preferred_agent_surfaces entries prefs))

    unfoldable pub directory_search_preferred_agent_surfaces :
        AgentDirectorySearchParams
        → Option BlockTag
        → AgentProviderSelectionPreferences
        → Async (W × Caches) (List TrustedSearchResultSurface)
    directory_search_preferred_agent_surfaces parameters block_tag prefs =
        directory_search_trusted_agent_surfaces parameters block_tag >>= λ entries.
        return (ok (filter_preferred_agent_surfaces entries prefs))

    unfoldable pub resolve_preferred_agent_surface :
        AgentSearchParams
        → Option BlockTag
        → AgentProviderSelectionPreferences
        → Async (W × Caches) (Option TrustedSearchResultSurface)
    resolve_preferred_agent_surface parameters block_tag prefs =
        search_trusted_agent_surfaces parameters block_tag >>= λ entries.
        return (ok (select_preferred_agent_surface entries prefs))

    unfoldable pub resolve_directory_preferred_agent_surface :
        AgentDirectorySearchParams
        → Option BlockTag
        → AgentProviderSelectionPreferences
        → Async (W × Caches) (Option TrustedSearchResultSurface)
    resolve_directory_preferred_agent_surface parameters block_tag prefs =
        directory_search_trusted_agent_surfaces parameters block_tag >>= λ entries.
        return (ok (select_preferred_agent_surface entries prefs))

  unfoldable pub search_preferred_agent_surface_diagnostics :
      AgentSearchParams
      → Option BlockTag
      → AgentProviderSelectionPreferences
      → Async (W × Caches) (List AgentSurfaceSelectionDiagnostics)
  search_preferred_agent_surface_diagnostics parameters block_tag prefs =
      search_discovered_agent_surfaces parameters block_tag >>= λ entries.
      return (ok (diagnose_preferred_agent_surfaces entries prefs))

  unfoldable pub directory_search_preferred_agent_surface_diagnostics :
      AgentDirectorySearchParams
      → Option BlockTag
      → AgentProviderSelectionPreferences
      → Async (W × Caches) (List AgentSurfaceSelectionDiagnostics)
  directory_search_preferred_agent_surface_diagnostics parameters block_tag prefs =
      directory_search_discovered_agent_surfaces parameters block_tag >>= λ entries.
      return (ok (diagnose_preferred_agent_surfaces entries prefs))
