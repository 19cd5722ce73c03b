-- ===== src/Surfaces/Discovery/Failures.antt =====
-- Why a provider is not trusted or not preferred (agentDiscovery.ts).
use tosdk.Prelude.{
  ℕ, ℤ, pos, ltb_ℤ, ltb, Bool, true, false, ◌&&◌, not, List, [], ◌∷◌, ◌++◌, Option, none, some,
  length, if◌then◌else◌,
}
use tosdk.Strings.{Text, starts_with}
use tosdk.Arrays.{filter}
use tosdk.Surfaces.Types.{
  AgentSearchResult, AgentCardResponse, AgentPublishedCard, AgentPublishedCapability,
  AgentProviderTrustSummary, AgentConnectionMode, AgentRoutingProfile,
}
use tosdk.Surfaces.Preferences.{
  AgentProviderSelectionPreferences, connection_mode_bit, has_bits, Failure, missing_trust_summary,
  not_registered, suspended, capability_missing, trust_score_below_minimum,
  connection_modes_missing, package_prefix_mismatch, routing_profile_missing, service_kind_mismatch,
  capability_kind_mismatch, privacy_mode_mismatch, receipt_mode_mismatch, disclosure_not_ready,
  push_if, truthy_text, is_true, mismatch, or_empty, service_kind_differs, requires_routing_profile,
}

pub record DiscoveredAgentProvider : Type 0 where
  pub search : AgentSearchResult
  pub card : AgentCardResponse
  pub parsed_card : Option AgentPublishedCard
  pub matched_capability : Option Text
  pub matched_capability_entry : Option AgentPublishedCapability

unfoldable pub summary_failures : AgentProviderTrustSummary → List Failure
unfolding push_if
summary_failures trust =
    push_if (not trust.registered) not_registered
    ++ (push_if trust.suspended suspended
        ++ push_if (not trust.has_onchain_capability) capability_missing)

unfoldable pub get_trust_failures : DiscoveredAgentProvider → List Failure
unfolding summary_failures
get_trust_failures provider = elim provider.search.trust [
  | none ↦ missing_trust_summary ∷ []
  | some trust ↦ summary_failures trust
]

-- provider.search.trust?.localRankScore ?? 0
unfoldable pub trust_score : Option AgentProviderTrustSummary → ℤ
trust_score none = pos 0
trust_score (some trust) = elim trust.local_rank_score [ none ↦ pos 0 | some n ↦ n ]

-- The modes asked for that the mask has not.
unfoldable pub missing_modes : ℕ → List AgentConnectionMode → List AgentConnectionMode
missing_modes mask modes = filter (λ mode. not (has_bits mask (connection_mode_bit mode))) modes

unfoldable pub or_zero : Option ℕ → ℕ
or_zero none = 0
or_zero (some n) = n

unfoldable pub modes_missing : Option ℕ → Option (List AgentConnectionMode) → Bool
unfolding missing_modes or_empty or_zero
modes_missing mask modes =
    ltb 0 (length (or_empty modes))
    && ltb 0 (length (missing_modes (or_zero mask) (or_empty modes)))

-- prefix && !name?.startsWith(prefix)
unfoldable pub prefix_differs : Option Text → Option Text → Bool
unfolding truthy_text
prefix_differs wanted name = elim (truthy_text wanted) [
  | none ↦ false
  | some w ↦ elim name [ none ↦ true | some n ↦ not (starts_with w n) ]
]

unfoldable pub card_package_name : Option AgentPublishedCard → Option Text
card_package_name none = none
card_package_name (some card) = card.package_name

unfoldable pub card_routing_profile : Option AgentPublishedCard → Option AgentRoutingProfile
card_routing_profile none = none
card_routing_profile (some card) = card.routing_profile

unfoldable pub routing_failures :
    AgentProviderSelectionPreferences → Option AgentRoutingProfile → List Failure
unfolding push_if mismatch service_kind_differs is_true
routing_failures prefs none = routing_profile_missing ∷ []
routing_failures prefs (some routing) =
    push_if (service_kind_differs prefs.service_kind routing) service_kind_mismatch
    ++ (push_if (mismatch prefs.capability_kind routing.capability_kind) capability_kind_mismatch
        ++ (push_if (mismatch prefs.privacy_mode routing.privacy_mode) privacy_mode_mismatch
            ++ (push_if (mismatch prefs.receipt_mode routing.receipt_mode) receipt_mode_mismatch
                ++ push_if
                    (is_true prefs.require_disclosure_ready
                      && not (is_true routing.disclosure_ready))
                    disclosure_not_ready)))

unfoldable pub or_minimum : Option ℤ → ℤ
or_minimum none = pos 0
or_minimum (some n) = n

unfoldable pub get_preference_failures :
    DiscoveredAgentProvider → ℤ → AgentProviderSelectionPreferences → List Failure
unfolding push_if modes_missing prefix_differs card_package_name card_routing_profile
    routing_failures requires_routing_profile or_minimum
get_preference_failures provider score prefs =
    push_if (ltb_ℤ score (or_minimum prefs.min_trust_score)) trust_score_below_minimum
    ++ (push_if (modes_missing provider.search.connection_modes prefs.required_connection_modes)
          connection_modes_missing
        ++ (push_if (prefix_differs prefs.package_prefix (card_package_name provider.parsed_card))
              package_prefix_mismatch
            ++ (if requires_routing_profile prefs
                then routing_failures prefs (card_routing_profile provider.parsed_card)
                else [])))
