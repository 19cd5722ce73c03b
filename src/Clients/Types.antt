-- ===== src/Clients/Types.antt =====
-- src/types/{client,lease,privacy,disclosure}.ts: the parameters and the answers of the clients'
-- methods. An answer holds what the node sent where the code passes it on unread.
use tosdk.Prelude.{ℤ, List, Option}
use tosdk.Strings.{Text}
use tosdk.Json.{Json, Items, Fields}
use tosdk.Encoding.Hex.{Numeric}
use tosdk.Clients.Rpc.{BlockTag}

pub record RpcTransactionRequest : Type 0 where
  pub from : Option Text
  pub to : Text
  pub gas : Option Text
  pub value : Option Text
  pub data_ : Option Text

-- Address | readonly Address[]
pub data AddressFilter : Type 0 where
  one : Text → AddressFilter
  many : List Text → AddressFilter

pub record LogFilter : Type 0 where
  pub address : Option AddressFilter
  pub topics : Option Items
  pub block_hash : Option Text
  pub from_block : Option BlockTag
  pub to_block : Option BlockTag

pub record NewFilterParams : Type 0 where
  pub address : Option AddressFilter
  pub topics : Option Items
  pub from_block : Option BlockTag
  pub to_block : Option BlockTag

pub record OverrideAccount : Type 0 where
  pub nonce : Option Numeric
  pub code : Option Text
  pub balance : Option Numeric
  pub state : Option Fields
  pub state_diff : Option Fields

-- LeaseTxCommonParameters, ValidatorMaintenanceParameters
pub record TxCommonParameters : Type 0 where
  pub from : Text
  pub nonce : Option Numeric
  pub gas : Option Numeric

pub record LeaseDeployParameters : Type 0 where
  pub common : TxCommonParameters
  pub code : Text
  pub lease_blocks : Numeric
  pub lease_owner : Option Text
  pub value : Option Numeric

pub record LeaseRenewParameters : Type 0 where
  pub common : TxCommonParameters
  pub contract_address : Text
  pub delta_blocks : Numeric

pub record LeaseCloseParameters : Type 0 where
  pub common : TxCommonParameters
  pub contract_address : Text

pub record PrivTransferParameters : Type 0 where
  pub priv_nonce : Numeric
  pub fee : Numeric
  pub from : Text
  pub to : Text
  pub fee_limit : Numeric
  pub commitment : Text
  pub sender_handle : Text
  pub receiver_handle : Text
  pub source_commitment : Text
  pub ct_validity_proof : Text
  pub commitment_eq_proof : Text
  pub range_proof : Text
  pub encrypted_memo : Option Text
  pub memo_sender_handle : Option Text
  pub memo_receiver_handle : Option Text
  pub s : Text
  pub e : Text

pub record PrivShieldParameters : Type 0 where
  pub priv_nonce : Numeric
  pub fee : Numeric
  pub pubkey : Text
  pub recipient : Text
  pub amount : Numeric
  pub commitment : Text
  pub handle : Text
  pub shield_proof : Text
  pub range_proof : Text
  pub s : Text
  pub e : Text

pub record PrivUnshieldParameters : Type 0 where
  pub priv_nonce : Numeric
  pub fee : Numeric
  pub pubkey : Text
  pub recipient : Text
  pub amount : Numeric
  pub source_commitment : Text
  pub commitment_eq_proof : Text
  pub range_proof : Text
  pub s : Text
  pub e : Text

pub record DisclosureProofParams : Type 0 where
  pub privkey : Text
  pub pubkey : Text
  pub commitment : Text
  pub handle : Text
  pub amount : ℤ
  pub block_number : ℤ

pub record VerifyDisclosureParams : Type 0 where
  pub pubkey : Text
  pub commitment : Text
  pub handle : Text
  pub amount : ℤ
  pub proof : Text
  pub block_number : ℤ

pub record DecryptionTokenParams : Type 0 where
  pub privkey : Text
  pub pubkey : Text
  pub commitment : Text
  pub handle : Text
  pub block_number : ℤ

pub record DisclosureProofResult : Type 0 where
  pub proof : Option Json
  pub block_number : ℤ

pub record DecryptionToken : Type 0 where
  pub pubkey : Text
  pub commitment : Text
  pub handle : Text
  pub token : Option Json
  pub dleq_proof : Option Json
  pub block_number : ℤ

pub record AuditorDecryptResult : Type 0 where
  pub amount : ℤ
  pub tx_type : Option Json

pub record LeaseRecord : Type 0 where
  pub address : Text
  pub lease_owner : Text
  pub created_at_block : ℤ
  pub expire_at_block : ℤ
  pub grace_until_block : ℤ
  pub code_bytes : ℤ
  pub deposit_tomi : ℤ
  pub scheduled_prune_epoch : ℤ
  pub scheduled_prune_seq : ℤ
  pub status : Option Json
  pub tombstoned : Option Json
  pub tombstone_code_hash : Option Json
  pub tombstone_expired_at : ℤ
  pub block_number : ℤ

pub record CodeObject : Type 0 where
  pub code_hash : Option Json
  pub code : Option Json
  pub created_at : ℤ
  pub expire_at : ℤ
  pub expired : Option Json

pub record CodeObjectMeta : Type 0 where
  pub code_hash : Option Json
  pub created_at : ℤ
  pub expire_at : ℤ
  pub expired : Option Json

pub record PrivBalanceRecord : Type 0 where
  pub pubkey : Option Json
  pub commitment : Option Json
  pub handle : Option Json
  pub version : ℤ
  pub priv_nonce : ℤ
  pub block_number : ℤ

pub record BuiltTransactionRequest : Type 0 where
  pub from : Text
  pub to : Text
  pub nonce : ℤ
  pub gas : ℤ
  pub value : ℤ
  pub input : Option Json

pub record BuiltTransactionResult : Type 0 where
  pub tx : BuiltTransactionRequest
  pub raw : Option Json
  pub contract_address : Option Text

pub record FeeHistory : Type 0 where
  pub oldest_block : ℤ
  pub reward : Option (List (List ℤ))
  pub base_fee_per_gas : Option (List ℤ)
  pub gas_used_ratio : Option Json
