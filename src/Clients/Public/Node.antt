-- ===== src/Clients/Public/Node.antt =====
-- Filters of logs, discovery of agents, and the node itself (createPublicClient.ts).
use tosdk.Prelude.{ℤ, List, [], ◌∷◌, Option, none, some}
use tosdk.Prelude.Results.{ok}
use tosdk.Strings.{Text, codes}
use tosdk.Json.{Json, string, number as json_number}
use tosdk.Surfaces.Client.{◌>>=◌, return}
use tosdk.Clients.Rpc.{
  Call, Request, BlockTag, send, send_address, ask, as_quantity, canonical_json, block_json,
  record_of,
}
use tosdk.Clients.Types.{LogFilter, NewFilterParams}
use tosdk.Clients.Filters.{serialize_new_filter_params, serialize_log_filter}

-- if (typeof limit !== 'undefined') params.push(limit)
unfoldable pub pushed_limit : Option ℤ → List Json
pushed_limit none = []
pushed_limit (some limit) = json_number limit ∷ []

module _ {W : Type 0} where
  -- typeof blockTag !== 'undefined' ? { block: normalizeBlockTag(blockTag) } : {}
  unfoldable pub given_block : Option BlockTag → Call W (Option Json)
  given_block none = return (ok none)
  given_block (some block) = block_json block >>= λ j. return (ok (some j))

module _ {W : Type 0} (request : Request W) where
  unfoldable pub net_version : Call W Json
  net_version = ask request (codes "net_version")

  unfoldable pub get_network_id : Call W ℤ
  get_network_id = ask request (codes "net_version") >>= as_quantity

  unfoldable pub net_peer_count : Call W ℤ
  net_peer_count = ask request (codes "net_peerCount") >>= as_quantity

  unfoldable pub net_listening : Call W Json
  net_listening = ask request (codes "net_listening")

  unfoldable pub client_version : Call W Json
  client_version = ask request (codes "web3_clientVersion")

  unfoldable pub agent_discovery_info : Call W Json
  agent_discovery_info = ask request (codes "tos_agentDiscoveryInfo")

  unfoldable pub agent_discovery_search : Text → Option ℤ → Call W Json
  agent_discovery_search capability limit =
      send request (codes "tos_agentDiscoverySearch") (string capability ∷ pushed_limit limit)

  unfoldable pub agent_discovery_get_card : Text → Call W Json
  agent_discovery_get_card node_record =
      send request (codes "tos_agentDiscoveryGetCard") (string node_record ∷ [])

  unfoldable pub agent_discovery_directory_search : Text → Text → Option ℤ → Call W Json
  agent_discovery_directory_search node_record capability limit =
      send request (codes "tos_agentDiscoveryDirectorySearch")
        (string node_record ∷ string capability ∷ pushed_limit limit)

  unfoldable pub agent_discovery_get_suggested_card : Text → Option BlockTag → Call W Json
  agent_discovery_get_suggested_card address block = canonical_json address >>= λ a.
      given_block block >>= λ b.
      send request (codes "tos_agentDiscoveryGetSuggestedCard")
        (record_of ((codes "address", some a) ∷ (codes "block", b) ∷ []) ∷ [])

  unfoldable pub new_block_filter : Call W Json
  new_block_filter = ask request (codes "tos_newBlockFilter")

  unfoldable pub new_pending_transaction_filter : Call W Json
  new_pending_transaction_filter = ask request (codes "tos_newPendingTransactionFilter")

  unfoldable pub new_filter : NewFilterParams → Call W Json
  new_filter params =
      serialize_new_filter_params params >>= λ p. send request (codes "tos_newFilter") (p ∷ [])

  unfoldable pub get_logs : LogFilter → Call W Json
  get_logs filter = serialize_log_filter filter >>= λ f. send request (codes "tos_getLogs") (f ∷ [])

  unfoldable pub get_filter_changes : Text → Call W Json
  get_filter_changes filter_id = send request (codes "tos_getFilterChanges") (string filter_id ∷ [])

  unfoldable pub get_filter_logs : Text → Call W Json
  get_filter_logs filter_id = send request (codes "tos_getFilterLogs") (string filter_id ∷ [])

  unfoldable pub uninstall_filter : Text → Call W Json
  uninstall_filter filter_id = send request (codes "tos_uninstallFilter") (string filter_id ∷ [])

  unfoldable pub get_chain_profile : Call W Json
  get_chain_profile = ask request (codes "tos_getChainProfile")

  unfoldable pub get_finalized_block : Call W Json
  get_finalized_block = ask request (codes "tos_getFinalizedBlock")

  unfoldable pub get_retention_policy : Call W Json
  get_retention_policy = ask request (codes "tos_getRetentionPolicy")

  unfoldable pub get_prune_watermark : Call W Json
  get_prune_watermark = ask request (codes "tos_getPruneWatermark")

  unfoldable pub txpool_content : Call W Json
  txpool_content = ask request (codes "txpool_content")

  unfoldable pub txpool_content_from : Text → Call W Json
  txpool_content_from address = send_address request (codes "txpool_contentFrom") address

  unfoldable pub txpool_status : Call W Json
  txpool_status = ask request (codes "txpool_status")

  unfoldable pub txpool_inspect : Call W Json
  txpool_inspect = ask request (codes "txpool_inspect")

  unfoldable pub get_boundary_version : Call W Json
  get_boundary_version = ask request (codes "policyWallet_getBoundaryVersion")

  unfoldable pub get_gateway_boundary_version : Call W Json
  get_gateway_boundary_version = ask request (codes "gateway_getBoundaryVersion")

  unfoldable pub get_audit_receipt_boundary_version : Call W Json
  get_audit_receipt_boundary_version = ask request (codes "auditReceipt_getBoundaryVersion")

  unfoldable pub get_settlement_boundary_version : Call W Json
  get_settlement_boundary_version = ask request (codes "settlement_getBoundaryVersion")

  unfoldable pub get_policy_wallet_schema_version : Call W Json
  get_policy_wallet_schema_version = ask request (codes "policyWallet_getSchemaVersion")

  unfoldable pub get_gateway_schema_version : Call W Json
  get_gateway_schema_version = ask request (codes "gateway_getSchemaVersion")

  unfoldable pub get_audit_receipt_schema_version : Call W Json
  get_audit_receipt_schema_version = ask request (codes "auditReceipt_getSchemaVersion")

  unfoldable pub get_settlement_schema_version : Call W Json
  get_settlement_schema_version = ask request (codes "settlement_getSchemaVersion")

  unfoldable pub get_gc_stats : Call W Json
  get_gc_stats = ask request (codes "debug_gcStats")

  unfoldable pub get_mem_stats : Call W Json
  get_mem_stats = ask request (codes "debug_memStats")

  unfoldable pub get_node_info : Call W Json
  get_node_info = ask request (codes "admin_nodeInfo")
