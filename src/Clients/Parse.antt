-- ===== src/Clients/Parse.antt =====
-- The answers of the node, read as the code reads them (createPublicClient.ts).
use tosdk.Prelude.{ℤ, pos, List, [], ◌∷◌, Option, none, some, if◌then◌else◌}
use tosdk.Prelude.Results.{ok, err, type_error}
use tosdk.Strings.{Text, codes}
use tosdk.Json.{Json, null, boolean, number, string, array, object, Items, nil, cons}
use tosdk.Surfaces.Client.{◌>>=◌, return}
use tosdk.Clients.Rpc.{
  Call, canonical_value, quantity_field, value_field, as_quantity, address_field,
  parse_rpc_quantity, is_truthy,
}
use tosdk.Clients.Types.{
  LeaseRecord, CodeObject, CodeObjectMeta, PrivBalanceRecord, BuiltTransactionRequest,
  BuiltTransactionResult, FeeHistory,
}

-- result.tx, an absent one being undefined, whose fields cannot be read
unfoldable pub or_null : Option Json → Json
or_null none = null
or_null (some j) = j

module _ {W : Type 0} where
  -- record.depositTomi ? parseRpcQuantity(record.depositTomi) : 0n
  unfoldable pub quantity_or_zero : Option Json → Call W ℤ
  quantity_or_zero value = return (if is_truthy value then parse_rpc_quantity value else ok (pos 0))

  -- What is read of a record that is one.
  unfoldable pub lease_record : Json → Call W LeaseRecord
  lease_record r = address_field (codes "address") r >>= λ address.
      address_field (codes "leaseOwner") r >>= λ lease_owner.
      quantity_field (codes "createdAtBlock") r >>= λ created.
      quantity_field (codes "expireAtBlock") r >>= λ expire.
      quantity_field (codes "graceUntilBlock") r >>= λ grace.
      quantity_field (codes "codeBytes") r >>= λ code_bytes.
      value_field (codes "depositTomi") r >>= quantity_or_zero >>= λ deposit.
      quantity_field (codes "scheduledPruneEpoch") r >>= λ epoch.
      quantity_field (codes "scheduledPruneSeq") r >>= λ seq.
      value_field (codes "status") r >>= λ status.
      value_field (codes "tombstoned") r >>= λ tombstoned.
      value_field (codes "tombstoneCodeHash") r >>= λ code_hash.
      quantity_field (codes "tombstoneExpiredAt") r >>= λ expired_at.
      quantity_field (codes "blockNumber") r >>= λ block_number. return (
        ok (record {
          address = address;
          lease_owner = lease_owner;
          created_at_block = created;
          expire_at_block = expire;
          grace_until_block = grace;
          code_bytes = code_bytes;
          deposit_tomi = deposit;
          scheduled_prune_epoch = epoch;
          scheduled_prune_seq = seq;
          status = status;
          tombstoned = tombstoned;
          tombstone_code_hash = code_hash;
          tombstone_expired_at = expired_at;
          block_number = block_number;
        }))

  -- if (!record) return null
  unfoldable pub when_truthy : {A : Type 0} → (Json → Call W A) → Json → Call W (Option A)
  unfolding is_truthy
  when_truthy read r =
      if is_truthy (some r) then (read r >>= λ a. return (ok (some a))) else return (ok none)

  unfoldable pub parse_lease_record : Json → Call W (Option LeaseRecord)
  parse_lease_record r = when_truthy lease_record r

  unfoldable pub code_object : Json → Call W CodeObject
  code_object r = value_field (codes "codeHash") r >>= λ code_hash.
      value_field (codes "code") r >>= λ code.
      quantity_field (codes "createdAt") r >>= λ created_at.
      quantity_field (codes "expireAt") r >>= λ expire_at.
      value_field (codes "expired") r >>= λ expired. return (
        ok (record {
          code_hash = code_hash;
          code = code;
          created_at = created_at;
          expire_at = expire_at;
          expired = expired;
        }))

  unfoldable pub parse_code_object : Json → Call W (Option CodeObject)
  parse_code_object r = when_truthy code_object r

  unfoldable pub code_object_meta : Json → Call W CodeObjectMeta
  code_object_meta r = value_field (codes "codeHash") r >>= λ code_hash.
      quantity_field (codes "createdAt") r >>= λ created_at.
      quantity_field (codes "expireAt") r >>= λ expire_at.
      value_field (codes "expired") r >>= λ expired. return (
        ok (record {
          code_hash = code_hash;
          created_at = created_at;
          expire_at = expire_at;
          expired = expired;
        }))

  unfoldable pub parse_code_object_meta : Json → Call W (Option CodeObjectMeta)
  parse_code_object_meta r = when_truthy code_object_meta r

  unfoldable pub parse_priv_balance_result : Json → Call W PrivBalanceRecord
  parse_priv_balance_result r = value_field (codes "pubkey") r >>= λ pubkey.
      value_field (codes "commitment") r >>= λ commitment.
      value_field (codes "handle") r >>= λ handle. quantity_field (codes "version") r >>= λ version.
      quantity_field (codes "privNonce") r >>= λ priv_nonce.
      quantity_field (codes "blockNumber") r >>= λ block_number. return (
        ok (record {
          pubkey = pubkey;
          commitment = commitment;
          handle = handle;
          version = version;
          priv_nonce = priv_nonce;
          block_number = block_number;
        }))

  unfoldable pub built_request : Json → Call W BuiltTransactionRequest
  built_request tx = address_field (codes "from") tx >>= λ from.
      address_field (codes "to") tx >>= λ to. quantity_field (codes "nonce") tx >>= λ nonce.
      quantity_field (codes "gas") tx >>= λ gas. quantity_field (codes "value") tx >>= λ value.
      value_field (codes "input") tx >>= λ input.
      return (
        ok
          (record { from = from; to = to; nonce = nonce; gas = gas; value = value; input = input }))

  -- ...(value ? { name: getAddress(value) } : {})
  unfoldable pub address_if_truthy : Option Json → Call W (Option Text)
  unfolding is_truthy canonical_value
  address_if_truthy value =
      if is_truthy value
      then (canonical_value value >>= λ a. return (ok (some a)))
      else return (ok none)

  unfoldable pub parse_built_transaction_result : Json → Call W BuiltTransactionResult
  parse_built_transaction_result r = value_field (codes "tx") r >>= λ tx.
      built_request (or_null tx) >>= λ request. value_field (codes "raw") r >>= λ raw.
      value_field (codes "contractAddress") r >>= address_if_truthy >>= λ contract.
      return (ok (record { tx = request; raw = raw; contract_address = contract }))

  -- value.map(read): only an array has the method.
  unfoldable pub read_items : {A : Type 0} → (Json → Call W A) → Items → Call W (List A)
  read_items read nil = return (ok [])
  read_items read (cons j js) =
      read j >>= λ a. read_items read js >>= λ rest. return (ok (a ∷ rest))

  unfoldable pub map_json : {A : Type 0} → (Json → Call W A) → Json → Call W (List A)
  map_json read (array js) = read_items read js
  map_json read null = return (err type_error)
  map_json read (boolean b) = return (err type_error)
  map_json read (number n) = return (err type_error)
  map_json read (string s) = return (err type_error)
  map_json read (object fs) = return (err type_error)

  -- ...(value ? { name: value.map(read) } : {})
  unfoldable pub map_if_truthy :
      {A : Type 0} → (Json → Call W A) → Option Json → Call W (Option (List A))
  map_if_truthy read none = return (ok none)
  map_if_truthy read (some value) = when_truthy (map_json read) value

  unfoldable pub parse_fee_history : Json → Call W FeeHistory
  parse_fee_history r = quantity_field (codes "oldestBlock") r >>= λ oldest.
      value_field (codes "reward") r >>= map_if_truthy (map_json as_quantity) >>= λ reward.
      value_field (codes "baseFeePerGas") r >>= map_if_truthy as_quantity >>= λ base_fee.
      value_field (codes "gasUsedRatio") r >>= λ ratio. return (
        ok (record {
          oldest_block = oldest;
          reward = reward;
          base_fee_per_gas = base_fee;
          gas_used_ratio = ratio;
        }))
