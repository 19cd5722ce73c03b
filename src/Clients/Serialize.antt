-- ===== src/Clients/Serialize.antt =====
-- The parameters of the requests, in the order in which the code computes them
-- (createPublicClient.ts).
use tosdk.Prelude.{List, [], ◌∷◌, ◌++◌, Option, none, some}
use tosdk.Prelude.Results.{ok}
use tosdk.Strings.{Text, codes}
use tosdk.Json.{Json, string, object, Fields, empty, set_field}
use tosdk.Encoding.Hex.{bigint}
use tosdk.Surfaces.Client.{◌>>=◌, return}
use tosdk.Surfaces.Preferences.{truthy_text}
use tosdk.Clients.Rpc.{
  Call, canonical, record_of, canonical_json, given_address, quantity, given_quantity,
}
use tosdk.Clients.Types.{
  RpcTransactionRequest, OverrideAccount, TxCommonParameters, LeaseDeployParameters,
  LeaseRenewParameters, LeaseCloseParameters, PrivTransferParameters, PrivShieldParameters,
  PrivUnshieldParameters, DisclosureProofParams, VerifyDisclosureParams, DecryptionTokenParams,
}

abbrev pub texts : Option Text → Option Json
texts none = none
texts (some t) = some (string t)

abbrev pub objects : Option Fields → Option Json
objects none = none
objects (some fs) = some (object fs)

abbrev pub text : Text → Option Json
text t = some (string t)

module _ {W : Type 0} where
  unfoldable pub serialize_rpc_transaction_request : RpcTransactionRequest → Call W Json
  unfolding given_address canonical_json
  serialize_rpc_transaction_request request = given_address (truthy_text request.from) >>= λ from.
      canonical_json request.to >>= λ to. return (
        ok (
          record_of (
            (codes "from", (elim from [ none ↦ texts request.from | some f ↦ some f ]))
            ∷ (codes "to", some to)
            ∷ (codes "gas", texts request.gas)
            ∷ (codes "value", texts request.value)
            ∷ (codes "data", texts request.data_)
            ∷ [])))

  -- The record of one account of an override.
  unfoldable pub override_json : OverrideAccount → Call W Json
  override_json override = given_quantity override.nonce >>= λ nonce.
      given_quantity override.balance >>= λ balance. return (
        ok (
          record_of (
            (codes "nonce", nonce)
            ∷ (codes "code", texts override.code)
            ∷ (codes "balance", balance)
            ∷ (codes "state", objects override.state)
            ∷ (codes "stateDiff", objects override.state_diff)
            ∷ [])))

  -- The loop over the entries.
  unfoldable pub override_fields : List (Text × OverrideAccount) → Fields → Call W Fields
  override_fields [] out = return (ok out)
  override_fields ((address, override) ∷ rest) out = canonical address >>= λ a.
      override_json override >>= λ account. override_fields rest (set_field a account out)

  unfoldable pub serialize_override_map : List (Text × OverrideAccount) → Call W Json
  serialize_override_map overrides =
      override_fields overrides empty >>= λ out. return (ok (object out))

  -- The fields that the transactions of an account have in common: from, nonce and gas.
  unfoldable pub common_fields : TxCommonParameters → Call W (List (Text × Option Json))
  unfolding canonical_json given_quantity
  common_fields p = canonical_json p.from >>= λ from. given_quantity p.nonce >>= λ nonce.
      given_quantity p.gas >>= λ gas.
      return (ok ((codes "from", some from) ∷ (codes "nonce", nonce) ∷ (codes "gas", gas) ∷ []))

  unfoldable pub serialize_lease_deploy_parameters : LeaseDeployParameters → Call W Json
  serialize_lease_deploy_parameters p = common_fields p.common >>= λ common.
      quantity p.lease_blocks >>= λ lease_blocks. given_address p.lease_owner >>= λ lease_owner.
      given_quantity p.value >>= λ value. return (
        ok (
          record_of (
            common
            ++ ((codes "code", text p.code)
                ∷ (codes "leaseBlocks", some lease_blocks)
                ∷ (codes "leaseOwner", lease_owner)
                ∷ (codes "value", value)
                ∷ []))))

  unfoldable pub serialize_lease_renew_parameters : LeaseRenewParameters → Call W Json
  serialize_lease_renew_parameters p = common_fields p.common >>= λ common.
      canonical_json p.contract_address >>= λ contract. quantity p.delta_blocks >>= λ delta_blocks.
      return (
        ok (
          record_of (
            common
            ++ ((codes "contractAddr", some contract)
                ∷ (codes "deltaBlocks", some delta_blocks)
                ∷ []))))

  unfoldable pub serialize_lease_close_parameters : LeaseCloseParameters → Call W Json
  serialize_lease_close_parameters p = common_fields p.common >>= λ common.
      canonical_json p.contract_address >>= λ contract.
      return (ok (record_of (common ++ ((codes "contractAddr", some contract) ∷ []))))

  unfoldable pub serialize_priv_transfer_parameters : PrivTransferParameters → Call W Json
  serialize_priv_transfer_parameters p = quantity p.priv_nonce >>= λ priv_nonce.
      quantity p.fee >>= λ fee. quantity p.fee_limit >>= λ fee_limit. return (
        ok (
          record_of (
            (codes "from", text p.from)
            ∷ (codes "to", text p.to)
            ∷ (codes "privNonce", some priv_nonce)
            ∷ (codes "fee", some fee)
            ∷ (codes "feeLimit", some fee_limit)
            ∷ (codes "commitment", text p.commitment)
            ∷ (codes "senderHandle", text p.sender_handle)
            ∷ (codes "receiverHandle", text p.receiver_handle)
            ∷ (codes "sourceCommitment", text p.source_commitment)
            ∷ (codes "ctValidityProof", text p.ct_validity_proof)
            ∷ (codes "commitmentEqProof", text p.commitment_eq_proof)
            ∷ (codes "rangeProof", text p.range_proof)
            ∷ (codes "encryptedMemo", texts p.encrypted_memo)
            ∷ (codes "memoSenderHandle", texts p.memo_sender_handle)
            ∷ (codes "memoReceiverHandle", texts p.memo_receiver_handle)
            ∷ (codes "s", text p.s)
            ∷ (codes "e", text p.e)
            ∷ [])))

  unfoldable pub serialize_priv_shield_parameters : PrivShieldParameters → Call W Json
  serialize_priv_shield_parameters p = quantity p.priv_nonce >>= λ priv_nonce.
      quantity p.fee >>= λ fee. quantity p.amount >>= λ amount. return (
        ok (
          record_of (
            (codes "pubkey", text p.pubkey)
            ∷ (codes "recipient", text p.recipient)
            ∷ (codes "privNonce", some priv_nonce)
            ∷ (codes "fee", some fee)
            ∷ (codes "amount", some amount)
            ∷ (codes "commitment", text p.commitment)
            ∷ (codes "handle", text p.handle)
            ∷ (codes "shieldProof", text p.shield_proof)
            ∷ (codes "rangeProof", text p.range_proof)
            ∷ (codes "s", text p.s)
            ∷ (codes "e", text p.e)
            ∷ [])))

  unfoldable pub serialize_priv_unshield_parameters : PrivUnshieldParameters → Call W Json
  serialize_priv_unshield_parameters p = canonical_json p.recipient >>= λ recipient.
      quantity p.priv_nonce >>= λ priv_nonce. quantity p.fee >>= λ fee.
      quantity p.amount >>= λ amount. return (
        ok (
          record_of (
            (codes "pubkey", text p.pubkey)
            ∷ (codes "recipient", some recipient)
            ∷ (codes "privNonce", some priv_nonce)
            ∷ (codes "fee", some fee)
            ∷ (codes "amount", some amount)
            ∷ (codes "sourceCommitment", text p.source_commitment)
            ∷ (codes "commitmentEqProof", text p.commitment_eq_proof)
            ∷ (codes "rangeProof", text p.range_proof)
            ∷ (codes "s", text p.s)
            ∷ (codes "e", text p.e)
            ∷ [])))

  unfoldable pub serialize_disclosure_proof_params : DisclosureProofParams → Call W Json
  serialize_disclosure_proof_params p = quantity (bigint p.amount) >>= λ amount.
      quantity (bigint p.block_number) >>= λ block_number. return (
        ok (
          record_of (
            (codes "privkey", text p.privkey)
            ∷ (codes "pubkey", text p.pubkey)
            ∷ (codes "commitment", text p.commitment)
            ∷ (codes "handle", text p.handle)
            ∷ (codes "amount", some amount)
            ∷ (codes "blockNumber", some block_number)
            ∷ [])))

  unfoldable pub serialize_verify_disclosure_params : VerifyDisclosureParams → Call W Json
  serialize_verify_disclosure_params p = quantity (bigint p.amount) >>= λ amount.
      quantity (bigint p.block_number) >>= λ block_number. return (
        ok (
          record_of (
            (codes "pubkey", text p.pubkey)
            ∷ (codes "commitment", text p.commitment)
            ∷ (codes "handle", text p.handle)
            ∷ (codes "amount", some amount)
            ∷ (codes "proof", text p.proof)
            ∷ (codes "blockNumber", some block_number)
            ∷ [])))

  unfoldable pub serialize_decryption_token_params : DecryptionTokenParams → Call W Json
  serialize_decryption_token_params p = quantity (bigint p.block_number) >>= λ block_number.
      return (
        ok (
          record_of (
            (codes "privkey", text p.privkey)
            ∷ (codes "pubkey", text p.pubkey)
            ∷ (codes "commitment", text p.commitment)
            ∷ (codes "handle", text p.handle)
            ∷ (codes "blockNumber", some block_number)
            ∷ [])))
