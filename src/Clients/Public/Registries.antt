-- ===== src/Clients/Public/Registries.antt =====
-- Policy wallets, gateways, receipts, settlements and the registries (createPublicClient.ts).
use tosdk.Prelude.{[], ◌∷◌}
use tosdk.Strings.{Text, codes}
use tosdk.Json.{Json, string}
use tosdk.Encoding.Hex.{Numeric}
use tosdk.Surfaces.Client.{◌>>=◌}
use tosdk.Clients.Rpc.{
  Call, Request, send, send_address, send_address_value, canonical_json, quantity,
}

module _ {W : Type 0} (request : Request W) where
  unfoldable pub get_policy_wallet_spend_caps : Text → Call W Json
  get_policy_wallet_spend_caps account =
      send_address request (codes "policyWallet_getSpendCaps") account

  unfoldable pub get_policy_wallet_terminal_policy : Text → Numeric → Call W Json
  get_policy_wallet_terminal_policy account terminal_class = canonical_json account >>= λ a.
      quantity terminal_class >>= λ c.
      send request (codes "policyWallet_getTerminalPolicy") (a ∷ c ∷ [])

  unfoldable pub get_policy_wallet_delegate_auth : Text → Text → Call W Json
  get_policy_wallet_delegate_auth account delegate = canonical_json account >>= λ a.
      canonical_json delegate >>= λ d.
      send request (codes "policyWallet_getDelegateAuth") (a ∷ d ∷ [])

  unfoldable pub get_policy_wallet_recovery_state : Text → Call W Json
  get_policy_wallet_recovery_state account =
      send_address request (codes "policyWallet_getRecoveryState") account

  unfoldable pub is_policy_wallet_suspended : Text → Call W Json
  is_policy_wallet_suspended account =
      send_address request (codes "policyWallet_isSuspended") account

  unfoldable pub get_policy_wallet_owner : Text → Call W Json
  get_policy_wallet_owner account = send_address request (codes "policyWallet_getOwner") account

  unfoldable pub get_policy_wallet_guardian : Text → Call W Json
  get_policy_wallet_guardian account =
      send_address request (codes "policyWallet_getGuardian") account

  unfoldable pub get_gateway_config : Text → Call W Json
  get_gateway_config agent = send_address request (codes "gateway_getGatewayConfig") agent

  unfoldable pub is_gateway_active : Text → Call W Json
  is_gateway_active agent = send_address request (codes "gateway_isGatewayActive") agent

  unfoldable pub get_audit_meta : Text → Call W Json
  get_audit_meta tx_hash = send request (codes "auditReceipt_getAuditMeta") (string tx_hash ∷ [])

  unfoldable pub get_session_proof : Text → Call W Json
  get_session_proof tx_hash =
      send request (codes "auditReceipt_getSessionProof") (string tx_hash ∷ [])

  unfoldable pub get_settlement_callback : Text → Call W Json
  get_settlement_callback callback_id =
      send request (codes "settlement_getCallback") (string callback_id ∷ [])

  unfoldable pub get_async_fulfillment : Text → Call W Json
  get_async_fulfillment fulfillment_id =
      send request (codes "settlement_getFulfillment") (string fulfillment_id ∷ [])

  unfoldable pub get_runtime_receipt : Text → Call W Json
  get_runtime_receipt receipt_ref =
      send request (codes "settlement_getRuntimeReceipt") (string receipt_ref ∷ [])

  unfoldable pub get_settlement_effect : Text → Call W Json
  get_settlement_effect settlement_ref =
      send request (codes "settlement_getSettlementEffect") (string settlement_ref ∷ [])

  unfoldable pub get_capability : Text → Call W Json
  get_capability name = send request (codes "tos_tolGetCapability") (string name ∷ [])

  unfoldable pub get_delegation : Text → Text → Text → Call W Json
  get_delegation principal delegate scope_ref = canonical_json principal >>= λ p.
      canonical_json delegate >>= λ d.
      send request (codes "tos_tolGetDelegation") (p ∷ d ∷ string scope_ref ∷ [])

  unfoldable pub get_package : Text → Text → Call W Json
  get_package name version =
      send request (codes "tos_tolGetPackage") (string name ∷ string version ∷ [])

  unfoldable pub get_package_by_hash : Text → Call W Json
  get_package_by_hash package_hash =
      send request (codes "tos_tolGetPackageByHash") (string package_hash ∷ [])

  unfoldable pub get_latest_package : Text → Text → Call W Json
  get_latest_package name channel =
      send request (codes "tos_tolGetLatestPackage") (string name ∷ string channel ∷ [])

  unfoldable pub get_publisher : Text → Call W Json
  get_publisher publisher_id = send request (codes "tos_tolGetPublisher") (string publisher_id ∷ [])

  unfoldable pub get_publisher_by_namespace : Text → Call W Json
  get_publisher_by_namespace namespace =
      send request (codes "tos_tolGetPublisherByNamespace") (string namespace ∷ [])

  unfoldable pub get_namespace_claim : Text → Call W Json
  get_namespace_claim namespace =
      send request (codes "tos_tolGetNamespaceClaim") (string namespace ∷ [])

  unfoldable pub get_verifier : Text → Call W Json
  get_verifier name = send request (codes "tos_tolGetVerifier") (string name ∷ [])

  unfoldable pub get_verification : Text → Text → Call W Json
  get_verification subject proof_type =
      send_address_value request (codes "tos_tolGetVerification") subject (string proof_type)

  unfoldable pub get_settlement_policy : Text → Text → Call W Json
  get_settlement_policy owner asset =
      send_address_value request (codes "tos_tolGetSettlementPolicy") owner (string asset)

  unfoldable pub get_agent_identity : Text → Call W Json
  get_agent_identity agent = send_address request (codes "tos_tolGetAgentIdentity") agent

  unfoldable pub tns_resolve : Text → Call W Json
  tns_resolve name = send request (codes "tns_resolve") (string name ∷ [])

  unfoldable pub tns_reverse : Text → Call W Json
  tns_reverse address = send_address request (codes "tns_reverse") address
