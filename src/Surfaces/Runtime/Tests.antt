-- ===== src/Surfaces/Runtime/Tests.antt =====
-- Runs of the surfaces on a client with fixed answers (agentRuntime.ts).
use tosdk.Prelude.{
  ℕ, suc, ◌≡◌, refl, ◌⊎◌, true, false, ◌∷◌, List, [], none, some, map, length, ◌==◌,
}
use mathlib.Core.List.{Perm}
use tosdk.Prelude.Results.{ok}
use tosdk.Strings.{codes}
use tosdk.Arrays.{filter, Member}
use tosdk.Sort.Keys.{InOrder}
use tosdk.Address.Fixtures.{fresh-IsCoherent, fresh-IsCanonical}
use tosdk.Clients.Contracts.{Holds, IsSound}
use tosdk.Address.{Caches}
use tosdk.Surfaces.Client.{for_each}
use tosdk.Surfaces.Preferences.{truthy_text}
use tosdk.Surfaces.Fixtures.{
  by_length, by_length-IsComparator, client, parameters, over_six, results, result_of, card_of,
}
use tosdk.Surfaces.Types.{AgentSearchResult, talkreq, https}
use tosdk.Surfaces.Discovery.Failures.{modes_missing}
use tosdk.Surfaces.Runtime.Types.{
  RuntimeReceipt, SettlementEffect, SearchResultSurface, TrustedSearchResultSurface,
}
use tosdk.Surfaces.Runtime.Trust.{
  surface_trust_failures, rank_trusted_agent_surfaces, diagnose_preferred_agent_surfaces,
  mask_missing,
}
use tosdk.Surfaces.Runtime.Masks.{mask_missing-modes_missing}
use tosdk.Surfaces.Runtime.Normalize.{RuntimeClient, try_normalize_address}
use tosdk.Surfaces.Runtime.Lookup.{
  join_entry, get_discovered_agent_surface, join_search_results, search_discovered_agent_surfaces,
  resolve_preferred_agent_surface, search_preferred_agent_surface_diagnostics,
}
use tosdk.Surfaces.Runtime.Selection.{
  IsBestSurface, is_preferred_surface, scored, IsAhead, rank_surfaces_lem, resolve_surface_lem,
}
use tosdk.Surfaces.Runtime.Join.{Pairwise, IsJoined, join_search_results_lem}

abbrev receipt : RuntimeReceipt
receipt = record {
  receipt_ref = codes "0x1";
  receipt_kind = 0;
  status = codes "final";
  mode = 0;
  mode_name = none;
  sender = codes "0x";
  recipient = codes "0x";
  sponsor = none;
  settlement_ref = none;
  proof_ref = none;
  failure_ref = none;
  policy_ref = none;
  artifact_ref = none;
  amount_ref = none;
  opened_at = 1;
  finalized_at = 2;
}

abbrev effect : SettlementEffect
effect = record {
  settlement_ref = codes "0x2";
  receipt_ref = none;
  mode = 0;
  mode_name = none;
  sender = codes "0x";
  recipient = codes "0x";
  sponsor = none;
  amount_ref = none;
  policy_ref = none;
  artifact_ref = none;
  created_at = 1;
}

abbrev runtime_client : RuntimeClient ℕ
runtime_client = record {
  discovery = client;
  get_contract_metadata = λ address block_tag calls. (ok none, suc calls);
  get_runtime_receipt = λ receipt_ref calls. (ok receipt, suc calls);
  get_settlement_effect = λ settlement_ref calls. (ok effect, suc calls);
}

abbrev fresh : Caches
fresh = record {
  is_address_cache = record { entries = []; max_size = 8192 };
  checksum_address_cache = record { entries = []; max_size = 8192 };
}

abbrev entry_of : AgentSearchResult → SearchResultSurface
entry_of result = record {
  result = result;
  surface = some (record {
    node_record = result.node_record;
    card = card_of result.node_record;
    runtime = none;
  });
}

abbrev entries : List SearchResultSurface
entries =
    entry_of (result_of (codes "a") false 5)
    ∷ entry_of (result_of (codes "b") true 9)
    ∷ entry_of (result_of (codes "c") false 7)
    ∷ record { result = result_of [] false 8; surface = none }
    ∷ []

rank_surfaces_lem_example :
    Perm
      (rank_trusted_agent_surfaces by_length entries)
      (map scored (filter (λ e. length (surface_trust_failures e) == 0) entries))
    × InOrder (IsAhead by_length) (rank_trusted_agent_surfaces by_length entries)
rank_surfaces_lem_example = rank_surfaces_lem by_length by_length-IsComparator entries

fresh-IsSound : IsSound fresh
fresh-IsSound = record { coherent = fresh-IsCoherent; lowered = fresh-IsCanonical }

join_search_results_lem_example :
    IsSound (join_search_results runtime_client results none (0, fresh)).1.1
    × Holds
        (Pairwise (IsJoined runtime_client none) results)
        (join_search_results runtime_client results none (0, fresh)).0
join_search_results_lem_example =
    join_search_results_lem runtime_client none results (0, fresh) fresh-IsSound

resolve_surface_lem_example :
    (search_preferred_agent_surface_diagnostics runtime_client parameters none over_six (0, fresh)
      ≡ (ok (diagnose_preferred_agent_surfaces entries over_six), (4, fresh)))
    × (((t : TrustedSearchResultSurface) × (resolve_preferred_agent_surface runtime_client by_length
              parameters none over_six
              (0, fresh)
            ≡ (ok (some t), (4, fresh)))
          × IsBestSurface by_length over_six entries t)
        ⊎ ((resolve_preferred_agent_surface runtime_client by_length parameters none over_six
                (0, fresh)
              ≡ (ok none, (4, fresh)))
            × ((q : SearchResultSurface)
                → Member q entries
                → is_preferred_surface over_six q ≡ false)))
unfolding search_discovered_agent_surfaces join_search_results for_each join_entry truthy_text
    get_discovered_agent_surface try_normalize_address
resolve_surface_lem_example =
    resolve_surface_lem runtime_client by_length parameters none over_six (0, fresh) (4, fresh)
      entries by_length-IsComparator refl

mask_missing-modes_missing_example :
    mask_missing (some 5) (some (talkreq ∷ https ∷ []))
    ≡ modes_missing (some 5) (some (talkreq ∷ https ∷ []))
mask_missing-modes_missing_example =
    mask_missing-modes_missing (some 5) (some (talkreq ∷ https ∷ []))
