-- ===== src/Clients/Public/Calls.antt =====
-- Calls of contracts, estimates, and the transactions that the node builds (createPublicClient.ts).
use tosdk.Prelude.{ℤ, false, List, [], ◌∷◌, Option, none, some, map}
use tosdk.Prelude.Results.{ok}
use tosdk.Strings.{Text, codes}
use tosdk.Json.{Json, boolean, string, array, number as json_number}
use tosdk.Encoding.Hex.{Numeric}
use tosdk.Surfaces.Client.{◌>>=◌, return}
use tosdk.Clients.Rpc.{
  Call, Request, BlockTag, send, ask, as_quantity, block_json, quantity, record_of, items, default,
  latest,
}
use tosdk.Clients.Types.{
  RpcTransactionRequest, OverrideAccount, LeaseDeployParameters, LeaseRenewParameters,
  LeaseCloseParameters, BuiltTransactionResult, FeeHistory,
}
use tosdk.Clients.Serialize.{
  serialize_rpc_transaction_request, serialize_override_map, serialize_lease_deploy_parameters,
  serialize_lease_renew_parameters, serialize_lease_close_parameters,
}
use tosdk.Clients.Parse.{parse_built_transaction_result, parse_fee_history}

module _ {W : Type 0} where
  -- if (typeof overrides !== 'undefined') params.push(serializeOverrideMap(overrides))
  unfoldable pub pushed_overrides : Option (List (Text × OverrideAccount)) → Call W (List Json)
  pushed_overrides none = return (ok [])
  pushed_overrides (some overrides) = serialize_override_map overrides >>= λ o. return (ok (o ∷ []))

module _ {W : Type 0} (request : Request W) where
  unfoldable pub call : RpcTransactionRequest → Option BlockTag → Call W Json
  call request_ block = serialize_rpc_transaction_request request_ >>= λ r.
      block_json (default block latest) >>= λ b. send request (codes "tos_call") (r ∷ b ∷ [])

  unfoldable pub call_at_hash : RpcTransactionRequest → Text → Call W Json
  call_at_hash request_ block_hash = serialize_rpc_transaction_request request_ >>= λ r.
      send request (codes "tos_call") (
        r
        ∷ record_of (
            (codes "blockHash", some (string block_hash))
            ∷ (codes "requireCanonical", some (boolean false))
            ∷ [])
        ∷ [])

  unfoldable pub pending_call : RpcTransactionRequest → Call W Json
  pending_call request_ = serialize_rpc_transaction_request request_ >>= λ r.
      send request (codes "tos_call") (r ∷ string (codes "pending") ∷ [])

  unfoldable pub call_with_overrides :
      RpcTransactionRequest → Option BlockTag → Option (List (Text × OverrideAccount)) → Call W Json
  call_with_overrides request_ block overrides = serialize_rpc_transaction_request request_ >>= λ r.
      block_json (default block latest) >>= λ b.
      pushed_overrides overrides >>= λ rest. send request (codes "tos_call") (r ∷ b ∷ rest)

  unfoldable pub build_lease_deploy_tx : LeaseDeployParameters → Call W BuiltTransactionResult
  build_lease_deploy_tx parameters = serialize_lease_deploy_parameters parameters >>= λ p.
      send request (codes "tos_buildLeaseDeployTx") (p ∷ []) >>= parse_built_transaction_result

  unfoldable pub build_lease_renew_tx : LeaseRenewParameters → Call W BuiltTransactionResult
  build_lease_renew_tx parameters = serialize_lease_renew_parameters parameters >>= λ p.
      send request (codes "tos_buildLeaseRenewTx") (p ∷ []) >>= parse_built_transaction_result

  unfoldable pub build_lease_close_tx : LeaseCloseParameters → Call W BuiltTransactionResult
  build_lease_close_tx parameters = serialize_lease_close_parameters parameters >>= λ p.
      send request (codes "tos_buildLeaseCloseTx") (p ∷ []) >>= parse_built_transaction_result

  unfoldable pub estimate_gas : RpcTransactionRequest → Option BlockTag → Call W ℤ
  estimate_gas request_ block = serialize_rpc_transaction_request request_ >>= λ r.
      block_json (default block latest) >>= λ b.
      send request (codes "tos_estimateGas") (r ∷ b ∷ []) >>= as_quantity

  unfoldable pub max_priority_fee_per_gas : Call W ℤ
  max_priority_fee_per_gas = ask request (codes "tos_maxPriorityFeePerGas") >>= as_quantity

  unfoldable pub fee_history : Numeric → Option BlockTag → Option (List ℤ) → Call W FeeHistory
  fee_history block_count block percentiles = quantity block_count >>= λ n.
      block_json (default block latest) >>= λ b.
      send request (codes "tos_feeHistory")
        (n ∷ b ∷ array (items (map json_number (default percentiles []))) ∷ [])
      >>= parse_fee_history

  unfoldable pub create_access_list : RpcTransactionRequest → Option BlockTag → Call W Json
  create_access_list request_ block = serialize_rpc_transaction_request request_ >>= λ r.
      block_json (default block latest) >>= λ b.
      send request (codes "tos_createAccessList") (r ∷ b ∷ [])
