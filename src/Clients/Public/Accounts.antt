-- ===== src/Clients/Public/Accounts.antt =====
-- What the node knows of an account, its code and its lease, and of the validators (createPublicClient.ts).
use tosdk.Prelude.{ℤ, List, [], ◌∷◌, Option, map}
use tosdk.Strings.{Text, codes}
use tosdk.Json.{Json, string, array}
use tosdk.Surfaces.Client.{◌>>=◌}
use tosdk.Clients.Rpc.{
  Call, Request, BlockTag, send, send_at, send_value_at, as_quantity, canonical_json, block_json,
  items, default, latest, pending,
}
use tosdk.Clients.Types.{LeaseRecord, CodeObject, CodeObjectMeta}
use tosdk.Clients.Parse.{parse_lease_record, parse_code_object, parse_code_object_meta}

module _ {W : Type 0} (request : Request W) where
  unfoldable pub get_balance : Text → Option BlockTag → Call W ℤ
  get_balance address block =
      send_at request (codes "tos_getBalance") address (default block latest) >>= as_quantity

  unfoldable pub get_transaction_count : Text → Option BlockTag → Call W ℤ
  get_transaction_count address block =
      send_at request (codes "tos_getTransactionCount") address (default block pending)
      >>= as_quantity

  unfoldable pub get_sponsor_nonce : Text → Option BlockTag → Call W ℤ
  get_sponsor_nonce address block =
      send_at request (codes "tos_getSponsorNonce") address (default block latest) >>= as_quantity

  unfoldable pub get_signer : Text → Option BlockTag → Call W Json
  get_signer address block = send_at request (codes "tos_getSigner") address (default block latest)

  unfoldable pub get_lease : Text → Option BlockTag → Call W (Option LeaseRecord)
  get_lease address block =
      send_at request (codes "tos_getLease") address (default block latest) >>= parse_lease_record

  unfoldable pub get_code : Text → Option BlockTag → Call W Json
  get_code address block = send_at request (codes "tos_getCode") address (default block latest)

  unfoldable pub get_storage_at : Text → Text → Option BlockTag → Call W Json
  get_storage_at address slot block = canonical_json address >>= λ a.
      block_json (default block latest) >>= λ b.
      send request (codes "tos_getStorageAt") (a ∷ string slot ∷ b ∷ [])

  unfoldable pub get_proof : Text → List Text → Option BlockTag → Call W Json
  get_proof address storage_keys block = canonical_json address >>= λ a.
      block_json (default block latest) >>= λ b.
      send request (codes "tos_getProof") (a ∷ array (items (map string storage_keys)) ∷ b ∷ [])

  unfoldable pub get_account : Text → Option BlockTag → Call W Json
  get_account address block =
      send_at request (codes "tos_getAccount") address (default block latest)

  unfoldable pub get_validator : Text → Option BlockTag → Call W Json
  get_validator address block =
      send_at request (codes "dpos_getValidator") address (default block latest)

  unfoldable pub get_snapshot : Option BlockTag → Call W Json
  get_snapshot block =
      block_json (default block latest) >>= λ b. send request (codes "dpos_getSnapshot") (b ∷ [])

  unfoldable pub get_validators : Option BlockTag → Call W Json
  get_validators block =
      block_json (default block latest) >>= λ b. send request (codes "dpos_getValidators") (b ∷ [])

  unfoldable pub get_epoch_info : Option BlockTag → Call W Json
  get_epoch_info block =
      block_json (default block latest) >>= λ b. send request (codes "dpos_getEpochInfo") (b ∷ [])

  unfoldable pub get_code_object : Text → Option BlockTag → Call W (Option CodeObject)
  get_code_object code_hash block =
      send_value_at request (codes "tos_getCodeObject") code_hash (default block latest)
      >>= parse_code_object

  unfoldable pub get_code_object_meta : Text → Option BlockTag → Call W (Option CodeObjectMeta)
  get_code_object_meta code_hash block =
      send_value_at request (codes "tos_getCodeObjectMeta") code_hash (default block latest)
      >>= parse_code_object_meta

  unfoldable pub get_contract_metadata : Text → Option BlockTag → Call W Json
  get_contract_metadata address block =
      send_at request (codes "tos_getContractMetadata") address (default block latest)
