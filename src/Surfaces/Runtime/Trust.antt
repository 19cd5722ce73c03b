-- ===== src/Surfaces/Runtime/Trust.antt =====
-- Which search results agentRuntime.ts trusts and prefers, and how it ranks and diagnoses them.
use Prim.Native.Nat.{bit_and, bit_or}
use tosdk.Prelude.{
  ℕ, ℤ, ltb_ℤ, ◌-ℤ◌, Bool, false, ◌&&◌, ◌||◌, not, List, [], ◌∷◌, ◌++◌, Option, none, some, ◌==◌,
  if◌then◌else◌, length, map,
}
use tosdk.Strings.{Text}
use tosdk.Arrays.{filter, first}
use tosdk.Sort.{is_positive, is_below, sort}
use tosdk.Surfaces.Types.{AgentConnectionMode}
use tosdk.Surfaces.Preferences.{
  AgentProviderSelectionPreferences, connection_mode_bit, Failure, missing_trust_summary,
  package_untrusted, trust_score_below_minimum, connection_modes_missing, runtime_metadata_missing,
  package_prefix_mismatch, push_if, is_given, or_empty, requires_routing_profile,
}
use tosdk.Surfaces.Discovery.Failures.{
  summary_failures, trust_score, or_zero, prefix_differs, routing_failures,
}
use tosdk.Surfaces.Discovery.Ranking.{passes_trust}
use tosdk.Surfaces.Runtime.Types.{
  PackageInfo, AgentRuntimeSurface, SearchResultSurface, TrustedSearchResultSurface,
}

-- entry.surface?.runtime
unfoldable pub entry_runtime : SearchResultSurface → Option AgentRuntimeSurface
entry_runtime entry = elim entry.surface [ none ↦ none | some surface ↦ surface.runtime ]

-- published && !published.trusted
unfoldable pub is_untrusted : Option PackageInfo → Bool
is_untrusted none = false
is_untrusted (some published) = not published.trusted

unfoldable pub package_is_untrusted : Option AgentRuntimeSurface → Bool
unfolding is_untrusted
package_is_untrusted none = false
package_is_untrusted (some runtime) = is_untrusted runtime.published

unfoldable pub is_trusted_search_surface : SearchResultSurface → Bool
unfolding passes_trust package_is_untrusted
is_trusted_search_surface entry =
    passes_trust entry.result.trust && not (package_is_untrusted (entry_runtime entry))

unfoldable pub mask_from : ℕ → List AgentConnectionMode → ℕ
mask_from mask [] = mask
mask_from mask (mode ∷ modes) = mask_from (bit_or mask (connection_mode_bit mode)) modes

unfoldable pub required_connection_mask : Option (List AgentConnectionMode) → ℕ
unfolding mask_from or_empty
required_connection_mask modes = mask_from 0 (or_empty modes)

-- requiredMask !== 0 && (connectionModes & requiredMask) !== requiredMask
unfoldable pub mask_missing : Option ℕ → Option (List AgentConnectionMode) → Bool
unfolding required_connection_mask or_zero
mask_missing connection_modes modes =
    let required = required_connection_mask modes in
    not (required == 0) && not (bit_and (or_zero connection_modes) required == required)

-- minTrustScore && trustScore < minTrustScore: zero is no minimum.
unfoldable pub score_below : ℤ → Option ℤ → Bool
score_below score none = false
score_below score (some minimum) = (is_positive minimum || is_below minimum) && ltb_ℤ score minimum

-- The failures that stand on the code that the agent runs.
unfoldable pub runtime_failures :
    AgentProviderSelectionPreferences → Option AgentRuntimeSurface → List Failure
unfolding push_if is_given requires_routing_profile prefix_differs routing_failures
runtime_failures prefs none =
    push_if (is_given prefs.package_prefix || requires_routing_profile prefs)
      runtime_metadata_missing
runtime_failures prefs (some runtime) =
    push_if (prefix_differs prefs.package_prefix runtime.package_name) package_prefix_mismatch
    ++ (if requires_routing_profile prefs then routing_failures prefs runtime.routing else [])

unfoldable pub preference_failures :
    SearchResultSurface → ℤ → AgentProviderSelectionPreferences → List Failure
unfolding push_if score_below mask_missing runtime_failures
preference_failures entry score prefs =
    push_if (score_below score prefs.min_trust_score) trust_score_below_minimum
    ++ (push_if (mask_missing entry.result.connection_modes prefs.required_connection_modes)
          connection_modes_missing
        ++ runtime_failures prefs (entry_runtime entry))

unfoldable pub with_trust_score : SearchResultSurface → TrustedSearchResultSurface
unfolding trust_score
with_trust_score entry = record { entry = entry; trust_score = trust_score entry.result.trust }

module _ (locale_compare : Text → Text → ℤ) where
  unfoldable pub compare_surfaces : TrustedSearchResultSurface → TrustedSearchResultSurface → ℤ
  compare_surfaces a b =
      let by_score = b.trust_score -ℤ a.trust_score in
      if is_positive by_score || is_below by_score
      then by_score
      else locale_compare a.entry.result.node_record b.entry.result.node_record

  unfoldable pub rank_trusted_agent_surfaces :
      List SearchResultSurface → List TrustedSearchResultSurface
  rank_trusted_agent_surfaces entries =
      sort compare_surfaces (map with_trust_score (filter is_trusted_search_surface entries))

unfoldable pub filter_preferred_agent_surfaces :
    List TrustedSearchResultSurface
    → AgentProviderSelectionPreferences
    → List TrustedSearchResultSurface
filter_preferred_agent_surfaces entries prefs =
    filter (λ t. length (preference_failures t.entry t.trust_score prefs) == 0) entries

unfoldable pub select_preferred_agent_surface :
    List TrustedSearchResultSurface
    → AgentProviderSelectionPreferences
    → Option TrustedSearchResultSurface
select_preferred_agent_surface entries prefs = first (filter_preferred_agent_surfaces entries prefs)

pub record AgentSurfaceSelectionDiagnostics : Type 0 where
  pub entry : SearchResultSurface
  pub trust_score : ℤ
  pub trusted : Bool
  pub preferred : Bool
  pub trust_failures : List Failure
  pub preference_failures : List Failure

unfoldable pub surface_trust_failures : SearchResultSurface → List Failure
unfolding summary_failures push_if
surface_trust_failures entry =
    (elim entry.result.trust [
      | none ↦ missing_trust_summary ∷ []
      | some trust ↦ summary_failures trust
    ])
    ++ push_if (package_is_untrusted (entry_runtime entry)) package_untrusted

unfoldable pub diagnose_surface :
    AgentProviderSelectionPreferences → SearchResultSurface → AgentSurfaceSelectionDiagnostics
diagnose_surface prefs entry =
    let failures = surface_trust_failures entry in
    let score = trust_score entry.result.trust in
    let preferences = preference_failures entry score prefs in
    record {
      entry = entry;
      trust_score = score;
      trusted = length failures == 0;
      preferred = (length failures == 0) && (length preferences == 0);
      trust_failures = failures;
      preference_failures = preferences;
    }

unfoldable pub diagnose_preferred_agent_surfaces :
    List SearchResultSurface
    → AgentProviderSelectionPreferences
    → List AgentSurfaceSelectionDiagnostics
diagnose_preferred_agent_surfaces entries prefs = map (diagnose_surface prefs) entries
