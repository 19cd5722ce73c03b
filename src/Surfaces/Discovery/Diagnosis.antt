-- ===== src/Surfaces/Discovery/Diagnosis.antt =====
-- Cards, diagnostics and the provider that is chosen among those ranked (agentDiscovery.ts).
use tosdk.Prelude.{
  ℕ, ℤ, Bool, ◌&&◌, List, [], ◌∷◌, ◌++◌, Option, none, some, ◌==◌, length, take, if◌then◌else◌, map,
}
use tosdk.Prelude.Results.{Result, ok, err, base_error}
use tosdk.Strings.{Text, codes, text_eq}
use tosdk.Arrays.{filter, find_first, first}
use tosdk.Surfaces.Types.{
  AgentPublishedCard, AgentPublishedCapability, AgentConnectionMode, talkreq, https, stream,
}
use tosdk.Surfaces.Preferences.{
  AgentProviderSelectionPreferences, Failure, failure_text, has_bits, connection_mode_bit, or_empty,
}
use tosdk.Surfaces.Discovery.Failures.{
  DiscoveredAgentProvider, get_trust_failures, get_preference_failures, trust_score,
}
use tosdk.Surfaces.Discovery.Ranking.{TrustedDiscoveredAgentProvider}

unfoldable pub mode_if : ℕ → AgentConnectionMode → List AgentConnectionMode
unfolding has_bits
mode_if mask mode = if has_bits mask (connection_mode_bit mode) then mode ∷ [] else []

unfoldable pub connection_modes_from_mask : Option ℕ → List AgentConnectionMode
unfolding mode_if
connection_modes_from_mask none = []
connection_modes_from_mask (some mask) =
    if mask == 0 then [] else mode_if mask talkreq ++ (mode_if mask https ++ mode_if mask stream)

unfoldable pub discover_capability_entry_from_card :
    Option AgentPublishedCard → Text → Option AgentPublishedCapability
unfolding or_empty
discover_capability_entry_from_card none capability = none
discover_capability_entry_from_card (some card) capability =
    find_first (λ item. text_eq item.name capability) (or_empty card.capabilities)

unfoldable pub discover_capability_from_card : Option AgentPublishedCard → Text → Option Text
discover_capability_from_card card capability =
    elim (discover_capability_entry_from_card card capability) [
      | none ↦ none
      | some entry ↦ some entry.name
    ]

unfoldable pub filter_preferred_agent_providers :
    List TrustedDiscoveredAgentProvider
    → AgentProviderSelectionPreferences
    → List TrustedDiscoveredAgentProvider
filter_preferred_agent_providers providers prefs =
    filter (λ p. length (get_preference_failures p.provider p.trust_score prefs) == 0) providers

unfoldable pub resolve_preferred_agent_provider :
    List TrustedDiscoveredAgentProvider
    → AgentProviderSelectionPreferences
    → Option TrustedDiscoveredAgentProvider
resolve_preferred_agent_provider providers prefs =
    first (filter_preferred_agent_providers providers prefs)

pub record AgentProviderSelectionDiagnostics : Type 0 where
  pub provider : DiscoveredAgentProvider
  pub trust_score : ℤ
  pub trusted : Bool
  pub preferred : Bool
  pub trust_failures : List Failure
  pub preference_failures : List Failure

unfoldable pub diagnose :
    AgentProviderSelectionPreferences → DiscoveredAgentProvider → AgentProviderSelectionDiagnostics
diagnose prefs provider =
    let trust_failures = get_trust_failures provider in
    let score = trust_score provider.search.trust in
    let preference_failures = get_preference_failures provider score prefs in
    record {
      provider = provider;
      trust_score = score;
      trusted = length trust_failures == 0;
      preferred = (length trust_failures == 0) && (length preference_failures == 0);
      trust_failures = trust_failures;
      preference_failures = preference_failures;
    }

unfoldable pub diagnose_agent_providers :
    List DiscoveredAgentProvider
    → AgentProviderSelectionPreferences
    → List AgentProviderSelectionDiagnostics
diagnose_agent_providers providers prefs = map (diagnose prefs) providers

-- xs.join(separator)
unfoldable pub join : Text → List Text → Text
join separator [] = []
join separator (s ∷ []) = s
join separator (s ∷ t ∷ ts) = s ++ (separator ++ join separator (t ∷ ts))

unfoldable pub diagnosis_text : AgentProviderSelectionDiagnostics → Text
unfolding failure_text join
diagnosis_text item =
    let reasons = item.trust_failures ++ item.preference_failures in
    item.provider.search.node_id
    ++ (codes ": "
        ++ (if length reasons == 0
            then codes "not selected"
            else join (codes "; ") (map failure_text reasons)))

unfoldable pub summarize_agent_provider_diagnostics : List AgentProviderSelectionDiagnostics → Text
unfolding diagnosis_text join
summarize_agent_provider_diagnostics diagnostics =
    if length diagnostics == 0
    then codes "no discovery candidates returned a parseable provider card"
    else join (codes " | ") (map diagnosis_text (take 3 diagnostics))

pub record PreferredAgentProviderResolution : Type 0 where
  pub provider : Option TrustedDiscoveredAgentProvider
  pub diagnostics : List AgentProviderSelectionDiagnostics

-- The error's message is the capability and the summary of the diagnostics.
unfoldable pub require_preferred_agent_provider :
    PreferredAgentProviderResolution → Result TrustedDiscoveredAgentProvider
require_preferred_agent_provider resolution = elim resolution.provider [
  | some provider ↦ ok provider
  | none ↦ err base_error
]
