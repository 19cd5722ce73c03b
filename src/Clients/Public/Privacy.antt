-- ===== src/Clients/Public/Privacy.antt =====
-- Private balances, transfers and selective disclosure (createPublicClient.ts).
use tosdk.Prelude.{ℤ, [], ◌∷◌, Option, some}
use tosdk.Prelude.Results.{ok}
use tosdk.Strings.{Text, codes}
use tosdk.Json.{Json}
use tosdk.Encoding.Hex.{bigint}
use tosdk.Surfaces.Client.{◌>>=◌, return}
use tosdk.Clients.Rpc.{
  Call, Request, BlockTag, send, send_value_at, as_quantity, quantity, quantity_field, value_field,
  record_of, default, latest,
}
use tosdk.Clients.Types.{
  PrivTransferParameters, PrivShieldParameters, PrivUnshieldParameters, DisclosureProofParams,
  VerifyDisclosureParams, DecryptionTokenParams, DisclosureProofResult, DecryptionToken,
  AuditorDecryptResult, PrivBalanceRecord,
}
use tosdk.Clients.Serialize.{
  text, serialize_priv_transfer_parameters, serialize_priv_shield_parameters,
  serialize_priv_unshield_parameters, serialize_disclosure_proof_params,
  serialize_verify_disclosure_params, serialize_decryption_token_params,
}
use tosdk.Clients.Parse.{parse_priv_balance_result}

module _ {W : Type 0} (request : Request W) where
  unfoldable pub priv_get_balance : Text → Option BlockTag → Call W PrivBalanceRecord
  priv_get_balance pubkey block =
      send_value_at request (codes "tos_privGetBalance") pubkey (default block latest)
      >>= parse_priv_balance_result

  unfoldable pub priv_get_nonce : Text → Option BlockTag → Call W ℤ
  priv_get_nonce pubkey block =
      send_value_at request (codes "tos_privGetNonce") pubkey (default block latest) >>= as_quantity

  unfoldable pub priv_transfer : PrivTransferParameters → Call W Json
  priv_transfer parameters = serialize_priv_transfer_parameters parameters >>= λ p.
      send request (codes "tos_privTransfer") (p ∷ [])

  unfoldable pub priv_shield : PrivShieldParameters → Call W Json
  priv_shield parameters = serialize_priv_shield_parameters parameters >>= λ p.
      send request (codes "tos_privShield") (p ∷ [])

  unfoldable pub priv_unshield : PrivUnshieldParameters → Call W Json
  priv_unshield parameters = serialize_priv_unshield_parameters parameters >>= λ p.
      send request (codes "tos_privUnshield") (p ∷ [])

  unfoldable pub priv_prove_disclosure : DisclosureProofParams → Call W DisclosureProofResult
  priv_prove_disclosure parameters = serialize_disclosure_proof_params parameters >>= λ p.
      send request (codes "tos_privProveDisclosure") (p ∷ []) >>= λ rpc.
      value_field (codes "proof") rpc >>= λ proof.
      quantity_field (codes "blockNumber") rpc >>= λ block_number.
      return (ok (record { proof = proof; block_number = block_number }))

  unfoldable pub priv_verify_disclosure : VerifyDisclosureParams → Call W Json
  priv_verify_disclosure parameters = serialize_verify_disclosure_params parameters >>= λ p.
      send request (codes "tos_privVerifyDisclosure") (p ∷ [])

  unfoldable pub priv_generate_decryption_token : DecryptionTokenParams → Call W DecryptionToken
  priv_generate_decryption_token parameters = serialize_decryption_token_params parameters >>= λ p.
      send request (codes "tos_privGenerateDecryptionToken") (p ∷ []) >>= λ rpc.
      value_field (codes "token") rpc >>= λ token.
      value_field (codes "dleqProof") rpc >>= λ dleq_proof.
      quantity_field (codes "blockNumber") rpc >>= λ block_number. return (
        ok (record {
          pubkey = parameters.pubkey;
          commitment = parameters.commitment;
          handle = parameters.handle;
          token = token;
          dleq_proof = dleq_proof;
          block_number = block_number;
        }))

  unfoldable pub priv_verify_decryption_token : DecryptionToken → Call W Json
  priv_verify_decryption_token parameters =
      quantity (bigint parameters.block_number) >>= λ block_number.
      send request (codes "tos_privVerifyDecryptionToken") (
        record_of (
          (codes "pubkey", text parameters.pubkey)
          ∷ (codes "commitment", text parameters.commitment)
          ∷ (codes "handle", text parameters.handle)
          ∷ (codes "token", parameters.token)
          ∷ (codes "dleqProof", parameters.dleq_proof)
          ∷ (codes "blockNumber", some block_number)
          ∷ [])
        ∷ [])

  unfoldable pub priv_decrypt_with_token : Text → Text → Call W ℤ
  priv_decrypt_with_token token commitment =
      send request (codes "tos_privDecryptWithToken")
        (record_of ((codes "token", text token) ∷ (codes "commitment", text commitment) ∷ []) ∷ [])
      >>= as_quantity

  unfoldable pub priv_decrypt_with_auditor_key : Text → Text → Call W AuditorDecryptResult
  priv_decrypt_with_auditor_key auditor_privkey tx_hash =
      send request (codes "tos_privDecryptWithAuditorKey") (
        record_of
          ((codes "auditorPrivkey", text auditor_privkey) ∷ (codes "txHash", text tx_hash) ∷ [])
        ∷ [])
      >>= λ rpc. quantity_field (codes "amount") rpc >>= λ amount.
          value_field (codes "txType") rpc >>= λ tx_type.
          return (ok (record { amount = amount; tx_type = tx_type }))
