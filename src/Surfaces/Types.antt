-- ===== src/Surfaces/Types.antt =====
-- src/types/agent.ts: what a node answers about agents. A field that may be undefined is an option.
use tosdk.Prelude.{ℕ, ℤ, Bool, List, Option}
use tosdk.Strings.{Text}
use tosdk.Json.{Fields}

pub data AgentConnectionMode : Type 0 where
  talkreq https stream : AgentConnectionMode

pub record AgentProviderTrustSummary : Type 0 where
  pub registered : Bool
  pub suspended : Bool
  pub stake : Text
  pub stake_bucket : Option Text
  pub reputation : Text
  pub reputation_bucket : Option Text
  pub rating_count : Text
  pub capability_registered : Bool
  pub capability_bit : Option ℕ
  pub has_onchain_capability : Bool
  pub local_rank_score : Option ℤ
  pub local_rank_reason : Option Text

pub record AgentPublishedCapability : Type 0 where
  pub name : Text
  pub mode : Option Text
  pub ref : Option Text
  pub policy : Option Fields
  pub rate_limit : Option Text
  pub max_amount : Option Text
  pub price_model : Option Text
  pub description : Option Text

pub record AgentRoutingProfile : Type 0 where
  pub contract_type : Option Text
  pub service_kinds : Option (List Text)
  pub service_kind : Option Text
  pub capability_kind : Option Text
  pub pricing_kind : Option Text
  pub base_fee : Option Text
  pub privacy_mode : Option Text
  pub receipt_mode : Option Text
  pub disclosure_ready : Option Bool
  pub trust_floor_ref : Option Text

pub record AgentPublishedThreatModel : Type 0 where
  pub family : Option Text
  pub trust_boundary : Option Text
  pub failure_posture : Option Text
  pub runtime_dependency : Option Text
  pub critical_invariants : Option (List Text)

pub record AgentPublishedDeploymentTrust : Type 0 where
  pub package_name : Option Text
  pub package_version : Option Text
  pub publisher_id : Option Text
  pub trusted : Option Bool
  pub status : Option Text
  pub effective_status : Option Text
  pub namespace_status : Option Text

pub record AgentPublishedCard : Type 0 where
  pub version : Option ℕ
  pub agent_id : Option Text
  pub agent_address : Option Text
  pub profile_ref : Option Text
  pub discovery_ref : Option Text
  pub package_name : Option Text
  pub package_version : Option Text
  pub capabilities : Option (List AgentPublishedCapability)
  pub routing_profile : Option AgentRoutingProfile
  pub threat_model : Option AgentPublishedThreatModel
  pub deployment_trust : Option AgentPublishedDeploymentTrust

pub record AgentSearchResult : Type 0 where
  pub node_id : Text
  pub node_record : Text
  pub primary_identity : Option Text
  pub connection_modes : Option ℕ
  pub card_sequence : Option ℕ
  pub capabilities : Option (List Text)
  pub trust : Option AgentProviderTrustSummary

pub record AgentCardResponse : Type 0 where
  pub node_id : Text
  pub node_record : Text
  pub card_json : Text
  pub parsed_card : Option AgentPublishedCard

pub record AgentSearchParams : Type 0 where
  pub capability : Text
  pub limit : Option ℕ

pub record AgentDirectorySearchParams : Type 0 where
  pub node_record : Text
  pub capability : Text
  pub limit : Option ℕ
