-- ===== src/Surfaces/Runtime/Types.antt =====
-- src/types/protocol.ts and settlement.ts: what a node answers about deployed code, receipts and
-- effects, and the surfaces that agentRuntime.ts makes of it.
use tosdk.Prelude.{ℕ, ℤ, Bool, List, Option}
use tosdk.Strings.{Text}
use tosdk.Json.{Json, Fields}
use tosdk.Surfaces.Types.{
  AgentRoutingProfile, AgentPublishedCard, AgentSearchResult, AgentCardResponse,
}

pub record AgentContract : Type 0 where
  pub name : Option Text
  pub type : Option Text
  pub is_account : Option Bool
  pub tags : Option (List Text)
  pub policy_profile : Option Fields

pub record AgentContractProfile : Type 0 where
  pub schema_version : Option Text
  -- read as `unknown`: it may be anything
  pub identity : Option Json
  pub contract : Option AgentContract
  pub capabilities : Option (List Text)
  pub functions : Option (List Fields)
  pub events : Option (List Fields)
  pub errors : Option (List Fields)
  pub service_kinds : Option (List Text)
  pub human_summary : Option Text
  pub gas_model : Option Fields
  pub typed_discovery : Option Fields
  pub threat_model : Option Fields
  pub protocol_alignment : Option Fields
  pub runtime_boundary : Option Fields

pub record AgentBundleProfile : Type 0 where
  pub schema_version : Option Text
  pub family : Option Text
  pub package_name : Option Text
  pub package_version : Option Text
  pub contracts : Option (List AgentContractProfile)
  pub threat_model : Option Fields
  pub protocol_alignment : Option Fields
  pub runtime_boundary : Option Fields
  pub human_summary : Option Text

pub record PackageInfo : Type 0 where
  pub name : Text
  pub namespace : Option Text
  pub version : Text
  pub package_hash : Text
  pub manifest_hash : Option Text
  pub publisher_id : Text
  pub channel : Text
  pub status : Text
  pub effective_status : Option Text
  pub namespace_status : Option Text
  pub trusted : Bool
  pub contract_count : ℕ
  pub discovery_ref : Option Text
  pub published_at : ℕ
  pub created_at : Option ℕ
  pub updated_at : Option ℕ
  pub updated_by : Option Text
  pub status_ref : Option Text

pub record PublisherInfo : Type 0 where
  pub publisher_id : Text
  pub controller : Text
  pub metadata_ref : Text
  pub namespace : Option Text
  pub status : Text
  pub effective_status : Option Text
  pub namespace_status : Option Text
  pub created_at : Option ℕ
  pub updated_at : Option ℕ
  pub updated_by : Option Text
  pub status_ref : Option Text

-- The fields of TOLArtifactInfo but for `metadata` and `discovery`, which nothing reads.
pub record TolArtifactInfo : Type 0 where
  pub contract_name : Text
  pub bytecode_hash : Text
  pub abi : Json
  pub agent_package : Option Fields
  pub profile : Option AgentContractProfile
  pub routing_profile : Option AgentRoutingProfile
  pub suggested_card : Option AgentPublishedCard

pub record TolPackageContractInfo : Type 0 where
  pub name : Text
  pub artifact_path : Option Text
  pub interface_path : Option Text
  pub artifact : Option TolArtifactInfo

pub record TolPackageInfo : Type 0 where
  pub name : Option Text
  pub package_ : Option Text
  pub version : Option Text
  pub main_contract : Option Text
  pub init_code : Option Text
  pub manifest : Json
  pub contracts : List TolPackageContractInfo
  pub bundle_profile : Option AgentBundleProfile
  pub published : Option PackageInfo
  pub publisher : Option PublisherInfo
  pub suggested_card : Option AgentPublishedCard

pub record DeployedCodeInfo : Type 0 where
  pub address : Text
  pub code_hash : Text
  pub code_kind : Text
  pub artifact : Option TolArtifactInfo
  pub package_ : Option TolPackageInfo

pub record AgentRuntimeSurface : Type 0 where
  pub address : Text
  pub code_kind : Text
  pub contract_name : Option Text
  pub package_name : Option Text
  pub package_version : Option Text
  pub profile : Option AgentContractProfile
  pub bundle_profile : Option AgentBundleProfile
  pub routing : Option AgentRoutingProfile
  pub suggested_card : Option AgentPublishedCard
  pub published : Option PackageInfo
  pub publisher : Option PublisherInfo
  pub artifact : Option TolArtifactInfo
  pub package_ : Option TolPackageInfo

pub record DiscoveredAgentSurface : Type 0 where
  pub node_record : Text
  pub card : AgentCardResponse
  pub runtime : Option AgentRuntimeSurface

pub record SearchResultSurface : Type 0 where
  pub result : AgentSearchResult
  pub surface : Option DiscoveredAgentSurface

-- SearchResultSurface & { trustScore: number }
pub record TrustedSearchResultSurface : Type 0 where
  pub entry : SearchResultSurface
  pub trust_score : ℤ

pub record RuntimeReceipt : Type 0 where
  pub receipt_ref : Text
  pub receipt_kind : ℕ
  pub status : Text
  pub mode : ℕ
  pub mode_name : Option Text
  pub sender : Text
  pub recipient : Text
  pub sponsor : Option Text
  pub settlement_ref : Option Text
  pub proof_ref : Option Text
  pub failure_ref : Option Text
  pub policy_ref : Option Text
  pub artifact_ref : Option Text
  pub amount_ref : Option Text
  pub opened_at : ℕ
  pub finalized_at : ℕ

pub record SettlementEffect : Type 0 where
  pub settlement_ref : Text
  pub receipt_ref : Option Text
  pub mode : ℕ
  pub mode_name : Option Text
  pub sender : Text
  pub recipient : Text
  pub sponsor : Option Text
  pub amount_ref : Option Text
  pub policy_ref : Option Text
  pub artifact_ref : Option Text
  pub created_at : ℕ

pub record SettlementRuntimeSurface : Type 0 where
  pub receipt : Option RuntimeReceipt
  pub effect : Option SettlementEffect
  pub sender_runtime : Option AgentRuntimeSurface
  pub recipient_runtime : Option AgentRuntimeSurface
