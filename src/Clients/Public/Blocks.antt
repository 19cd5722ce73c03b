-- ===== src/Clients/Public/Blocks.antt =====
-- Blocks, transactions and the chain's head (createPublicClient.ts).
use tosdk.Prelude.{ℤ, pos, Bool, false, [], ◌∷◌, Option}
use tosdk.Prelude.Results.{ok}
use tosdk.Strings.{Text, codes}
use tosdk.Json.{Json, boolean, string}
use tosdk.Encoding.Hex.{Numeric, number}
use tosdk.Surfaces.Client.{◌>>=◌, return}
use tosdk.Clients.Rpc.{
  Call, Request, BlockTag, send, send_value_at, ask, as_quantity, block_json, quantity, default,
  latest,
}

module _ {W : Type 0} (request : Request W) where
  unfoldable pub get_chain_id : Call W ℤ
  get_chain_id = ask request (codes "tos_chainId") >>= as_quantity

  unfoldable pub get_block_number : Call W ℤ
  get_block_number = ask request (codes "tos_blockNumber") >>= as_quantity

  unfoldable pub get_transaction_receipt : Text → Call W Json
  get_transaction_receipt hash = send request (codes "tos_getTransactionReceipt") (string hash ∷ [])

  unfoldable pub get_transaction_by_hash : Text → Call W Json
  get_transaction_by_hash hash = send request (codes "tos_getTransactionByHash") (string hash ∷ [])

  unfoldable pub get_block_by_hash : Text → Option Bool → Call W Json
  get_block_by_hash hash include =
      send request (codes "tos_getBlockByHash") (string hash ∷ boolean (default include false) ∷ [])

  unfoldable pub get_header_by_hash : Text → Call W Json
  get_header_by_hash hash = send request (codes "tos_getHeaderByHash") (string hash ∷ [])

  unfoldable pub get_block_by_number : Option BlockTag → Option Bool → Call W Json
  get_block_by_number block include = block_json (default block latest) >>= λ b.
      send request (codes "tos_getBlockByNumber") (b ∷ boolean (default include false) ∷ [])

  unfoldable pub get_header_by_number : Option BlockTag → Call W Json
  get_header_by_number block = block_json (default block latest) >>= λ b.
      send request (codes "tos_getHeaderByNumber") (b ∷ [])

  unfoldable pub gas_price : Call W ℤ
  gas_price = ask request (codes "tos_gasPrice") >>= as_quantity

  unfoldable pub syncing : Call W Json
  syncing = ask request (codes "tos_syncing")

  unfoldable pub get_block_transaction_count_by_number : BlockTag → Call W ℤ
  get_block_transaction_count_by_number block = block_json block >>= λ b.
      send request (codes "tos_getBlockTransactionCountByNumber") (b ∷ []) >>= as_quantity

  unfoldable pub get_block_transaction_count_by_hash : Text → Call W ℤ
  get_block_transaction_count_by_hash hash =
      send request (codes "tos_getBlockTransactionCountByHash") (string hash ∷ []) >>= as_quantity

  unfoldable pub get_transaction_by_block_number_and_index : BlockTag → Numeric → Call W Json
  get_transaction_by_block_number_and_index block index = block_json block >>= λ b.
      quantity index >>= λ i.
      send request (codes "tos_getTransactionByBlockNumberAndIndex") (b ∷ i ∷ [])

  unfoldable pub get_transaction_by_block_hash_and_index : Text → Numeric → Call W Json
  get_transaction_by_block_hash_and_index hash index = quantity index >>= λ i.
      send request (codes "tos_getTransactionByBlockHashAndIndex") (string hash ∷ i ∷ [])

  unfoldable pub pending_transactions : Call W Json
  pending_transactions = ask request (codes "tos_pendingTransactions")

  unfoldable pub get_pending_transaction_count : Call W ℤ
  get_pending_transaction_count =
      send request (codes "tos_getBlockTransactionCountByNumber") (string (codes "pending") ∷ [])
      >>= as_quantity

  unfoldable pub get_malicious_vote_evidence : Text → Option BlockTag → Call W Json
  get_malicious_vote_evidence hash block =
      send_value_at request (codes "tos_getMaliciousVoteEvidence") hash (default block latest)

  unfoldable pub list_malicious_vote_evidence : Option Numeric → Option BlockTag → Call W Json
  list_malicious_vote_evidence count block = quantity (default count (number (pos 100))) >>= λ n.
      block_json (default block latest) >>= λ b.
      send request (codes "tos_listMaliciousVoteEvidence") (n ∷ b ∷ [])

  unfoldable pub set_head : BlockTag → Call W (Unit {0})
  set_head block = block_json block >>= λ b.
      send request (codes "debug_setHead") (b ∷ []) >>= λ _. return (ok tt)
