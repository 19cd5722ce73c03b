-- ===== src/Surfaces/Discovery/Ranking.antt =====
-- The execution policy of a capability and the order of trusted providers (agentDiscovery.ts).
-- `locale_compare` is String.prototype.localeCompare, which depends on the host's locale.
use tosdk.Prelude.{
  ℕ, suc, ◌+◌, ◌-◌, ◌*◌, ℤ, pos, negsuc, sub_ℕ, ◌-ℤ◌, Bool, true, false, ◌&&◌, ◌||◌, not, List, [],
  ◌∷◌, Option, none, some, leb, ltb, ◌==◌, length, if◌then◌else◌, map,
}
use tosdk.Strings.{Text, codes, text_eq, starts_with}
use tosdk.Arrays.{filter}
use tosdk.Json.{Fields, get_field, as_string}
use tosdk.Sort.{is_positive, is_below, sort}
use tosdk.Surfaces.Types.{AgentProviderTrustSummary}
use tosdk.Surfaces.Preferences.{truthy_text}
use tosdk.Surfaces.Discovery.Failures.{DiscoveredAgentProvider, trust_score}

pub record AgentProviderExecutionPolicy : Type 0 where
  pub search_limit : ℕ
  pub preferred_modes : List Text
  pub prefer_lower_advertised_fee : Bool

-- Partial<AgentProviderExecutionPolicy>
pub record PolicyOverride : Type 0 where
  pub search_limit : Option ℕ
  pub preferred_modes : Option (List Text)
  pub prefer_lower_advertised_fee : Option Bool

pub data CapabilityFamily : Type 0 where
  sponsor observation oracle news proof storage gateway : CapabilityFamily

unfoldable pub capability_family : Text → Option CapabilityFamily
capability_family capability =
    if starts_with (codes "sponsor.") capability
    then some sponsor
    else if starts_with (codes "observation.") capability
    then some observation
    else if starts_with (codes "oracle.") capability
    then some oracle
    else if starts_with (codes "news.") capability
    then some news
    else if starts_with (codes "proof.") capability
    then some proof
    else if starts_with (codes "storage.") capability
    then some storage
    else if starts_with (codes "gateway.") capability
    then some gateway
    else none

abbrev pub sponsored_first : List Text
sponsored_first = codes "sponsored" ∷ codes "hybrid" ∷ codes "paid" ∷ []

abbrev pub paid_first : List Text
paid_first = codes "paid" ∷ codes "hybrid" ∷ codes "sponsored" ∷ []

-- DEFAULT_EXECUTION_POLICY
abbrev pub default_execution_policy : AgentProviderExecutionPolicy
default_execution_policy = record {
  search_limit = 10;
  preferred_modes = sponsored_first;
  prefer_lower_advertised_fee = false;
}

abbrev pub by_fee : AgentProviderExecutionPolicy
by_fee = record {
  search_limit = 10;
  preferred_modes = paid_first;
  prefer_lower_advertised_fee = true;
}

-- DEFAULT_EXECUTION_POLICY_PROFILES
abbrev pub execution_policy_profile : CapabilityFamily → AgentProviderExecutionPolicy
execution_policy_profile sponsor = record default_execution_policy { search_limit = 6 }
execution_policy_profile observation = by_fee
execution_policy_profile oracle = by_fee
execution_policy_profile news = by_fee
execution_policy_profile proof = by_fee
execution_policy_profile storage = by_fee
execution_policy_profile gateway = record default_execution_policy { search_limit = 5 }

abbrev pub or_default {ℓ} : {A : Type ℓ} → Option A → A → A
or_default none a = a
or_default (some b) a = b

unfoldable pub override_policy :
    AgentProviderExecutionPolicy → PolicyOverride → AgentProviderExecutionPolicy
override_policy base override = record {
  search_limit = or_default override.search_limit base.search_limit;
  preferred_modes = or_default override.preferred_modes base.preferred_modes;
  prefer_lower_advertised_fee =
      or_default override.prefer_lower_advertised_fee base.prefer_lower_advertised_fee;
}

unfoldable pub resolve_agent_provider_execution_policy :
    Text → PolicyOverride → AgentProviderExecutionPolicy
unfolding capability_family override_policy
resolve_agent_provider_execution_policy capability override =
    override_policy
      (elim (capability_family capability) [
        | none ↦ default_execution_policy
        | some family ↦ execution_policy_profile family
      ])
      override

-- preferredModes.findIndex((item) => item === mode), `none` for -1
unfoldable pub find_mode : ℕ → List Text → Text → Option ℕ
find_mode index [] mode = none
find_mode index (item ∷ items) mode =
    let later = find_mode (suc index) items mode in if text_eq item mode then some index else later

unfoldable pub provider_mode_score : DiscoveredAgentProvider → AgentProviderExecutionPolicy → ℕ
unfolding truthy_text find_mode
provider_mode_score provider policy = elim provider.matched_capability_entry [
  | none ↦ 0
  | some entry ↦ elim (truthy_text entry.mode) [
    | none ↦ 0
    | some mode ↦ elim (find_mode 0 policy.preferred_modes mode) [
      | none ↦ 0
      | some index ↦ length policy.preferred_modes - index
    ]
  ]
]

-- BigInt(s) where /^\d+$/ accepts s
unfoldable pub decimal_from : ℕ → Text → Option ℕ
decimal_from acc [] = some acc
decimal_from acc (c ∷ s) =
    let rest = decimal_from (acc * 10 + (c - b'0')) s in
    if leb b'0' c && leb c b'9' then rest else none

unfoldable pub fee_amount : Option Text → Option ℕ
unfolding decimal_from
fee_amount none = none
fee_amount (some []) = none
fee_amount (some (c ∷ s)) = decimal_from 0 (c ∷ s)

unfoldable pub policy_fee : Text → Option Fields → Option ℕ
unfolding as_string fee_amount
policy_fee name none = none
policy_fee name (some policy) = fee_amount (as_string (get_field name policy))

unfoldable pub provider_advertised_fee : DiscoveredAgentProvider → Option ℕ
unfolding policy_fee
provider_advertised_fee provider = elim provider.matched_capability_entry [
  | none ↦ none
  | some entry ↦ elim (policy_fee (codes "per_request_fee_tos") entry.policy) [
    | some fee ↦ some fee
    | none ↦ policy_fee (codes "session_fee_tos") entry.policy
  ]
]

pub record TrustedDiscoveredAgentProvider : Type 0 where
  pub provider : DiscoveredAgentProvider
  pub trust_score : ℤ

-- What the comparison does on the two fees; equal ones leave it to the rest.
unfoldable pub compare_fees : Option ℕ → Option ℕ → ℤ → ℤ
compare_fees none none rest = rest
compare_fees none (some right) rest = pos 1
compare_fees (some left) none rest = negsuc 0
compare_fees (some left) (some right) rest =
    if left == right then rest else if ltb left right then negsuc 0 else pos 1

unfoldable pub passes_trust : Option AgentProviderTrustSummary → Bool
passes_trust none = false
passes_trust (some trust) =
    trust.registered && (not trust.suspended && trust.has_onchain_capability)

unfoldable pub is_trusted : DiscoveredAgentProvider → Bool
unfolding passes_trust
is_trusted provider = passes_trust provider.search.trust

unfoldable pub with_score : DiscoveredAgentProvider → TrustedDiscoveredAgentProvider
unfolding trust_score
with_score provider = record {
  provider = provider;
  trust_score = trust_score provider.search.trust;
}

module _ (locale_compare : Text → Text → ℤ) (policy : AgentProviderExecutionPolicy) where
  unfoldable pub compare_providers :
      TrustedDiscoveredAgentProvider → TrustedDiscoveredAgentProvider → ℤ
  unfolding provider_mode_score provider_advertised_fee compare_fees
  compare_providers left right =
      let left_mode = provider_mode_score left.provider policy in
      let right_mode = provider_mode_score right.provider policy in
      let by_score = right.trust_score -ℤ left.trust_score in
      let by_record =
        locale_compare left.provider.search.node_record right.provider.search.node_record in
      if not (left_mode == right_mode)
      then sub_ℕ right_mode left_mode
      else if is_positive by_score || is_below by_score
      then by_score
      else if policy.prefer_lower_advertised_fee
      then compare_fees (provider_advertised_fee left.provider)
          (provider_advertised_fee right.provider) by_record
      else by_record

  unfoldable pub rank_trusted_agent_providers :
      List DiscoveredAgentProvider → List TrustedDiscoveredAgentProvider
  rank_trusted_agent_providers providers =
      sort compare_providers (map with_score (filter is_trusted providers))
