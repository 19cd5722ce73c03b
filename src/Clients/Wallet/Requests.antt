-- ===== src/Clients/Wallet/Requests.antt =====
-- The requests of a wallet that carry no signature of its own: agents, maintenance, evidence and
-- signers (createWalletClient.ts).
use tosdk.Prelude.{ℤ, List, [], ◌∷◌, ◌++◌, Option, none, some, map}
use tosdk.Prelude.Results.{ok}
use tosdk.Strings.{Text, codes}
use tosdk.Json.{Json, string, array, number}
use tosdk.Surfaces.Client.{◌>>=◌, return}
use tosdk.Clients.Rpc.{Call, Request, BlockTag, send, ask, canonical_json, items, record_of}
use tosdk.Clients.Types.{TxCommonParameters, BuiltTransactionResult}
use tosdk.Clients.Serialize.{text, texts, common_fields}
use tosdk.Clients.Parse.{parse_built_transaction_result}
use tosdk.Clients.Public.Node.{given_block}

pub record AgentPublishParams : Type 0 where
  pub primary_identity : Text
  pub capabilities : List Text
  pub connection_modes : Option (List Text)
  pub card_json : Option Text
  pub card_sequence : Option ℤ

pub record SubmitMaliciousVoteEvidenceParameters : Type 0 where
  pub common : TxCommonParameters
  pub evidence : Json

pub record SetSignerRpcParameters : Type 0 where
  pub common : TxCommonParameters
  pub signer_type : Text
  pub signer_value : Text

unfoldable pub text_array : List Text → Json
unfolding items
text_array ts = array (items (map string ts))

unfoldable pub given_texts : Option (List Text) → Option Json
unfolding text_array
given_texts none = none
given_texts (some ts) = some (text_array ts)

unfoldable pub given_number : Option ℤ → Option Json
given_number none = none
given_number (some n) = some (number n)

module _ {W : Type 0} where
  unfoldable pub serialize_maintenance_args : TxCommonParameters → Call W Json
  serialize_maintenance_args p = common_fields p >>= λ common. return (ok (record_of common))

  unfoldable pub serialize_evidence_args : SubmitMaliciousVoteEvidenceParameters → Call W Json
  serialize_evidence_args p = common_fields p.common >>= λ common.
      return (ok (record_of (common ++ ((codes "evidence", some p.evidence) ∷ []))))

  unfoldable pub serialize_set_signer_args : SetSignerRpcParameters → Call W Json
  serialize_set_signer_args p = common_fields p.common >>= λ common. return (
      ok (
        record_of (
          common
          ++ ((codes "signerType", text p.signer_type)
              ∷ (codes "signerValue", text p.signer_value)
              ∷ []))))

  -- The same reading as the public client's.
  unfoldable pub parse_built_tx_result : Json → Call W BuiltTransactionResult
  parse_built_tx_result r = parse_built_transaction_result r

module _ {W : Type 0} (request : Request W) where
  unfoldable pub agent_discovery_publish : AgentPublishParams → Call W Json
  unfolding given_texts given_number
  agent_discovery_publish p = canonical_json p.primary_identity >>= λ identity.
      send request (codes "tos_agentDiscoveryPublish") (
        record_of (
          (codes "primaryIdentity", some identity)
          ∷ (codes "capabilities", some (text_array p.capabilities))
          ∷ (codes "connectionModes", given_texts p.connection_modes)
          ∷ (codes "cardJson", texts p.card_json)
          ∷ (codes "cardSequence", given_number p.card_sequence)
          ∷ [])
        ∷ [])

  unfoldable pub agent_discovery_clear : Call W Json
  agent_discovery_clear = ask request (codes "tos_agentDiscoveryClear")

  unfoldable pub agent_discovery_publish_suggested :
      Text → Text → Option (List Text) → Option ℤ → Option BlockTag → Call W Json
  unfolding given_texts given_number
  agent_discovery_publish_suggested address primary_identity modes sequence block =
      canonical_json address >>= λ a. canonical_json primary_identity >>= λ identity.
      given_block block >>= λ b. send request (codes "tos_agentDiscoveryPublishSuggested") (
        record_of (
          (codes "address", some a)
          ∷ (codes "primaryIdentity", some identity)
          ∷ (codes "connectionModes", given_texts modes)
          ∷ (codes "cardSequence", given_number sequence)
          ∷ (codes "block", b)
          ∷ [])
        ∷ [])

  unfoldable pub enter_maintenance : TxCommonParameters → Call W Json
  enter_maintenance p =
      serialize_maintenance_args p >>= λ j. send request (codes "tos_enterMaintenance") (j ∷ [])

  unfoldable pub build_enter_maintenance_tx : TxCommonParameters → Call W BuiltTransactionResult
  build_enter_maintenance_tx p = serialize_maintenance_args p >>= λ j.
      send request (codes "tos_buildEnterMaintenanceTx") (j ∷ []) >>= parse_built_tx_result

  unfoldable pub exit_maintenance : TxCommonParameters → Call W Json
  exit_maintenance p =
      serialize_maintenance_args p >>= λ j. send request (codes "tos_exitMaintenance") (j ∷ [])

  unfoldable pub build_exit_maintenance_tx : TxCommonParameters → Call W BuiltTransactionResult
  build_exit_maintenance_tx p = serialize_maintenance_args p >>= λ j.
      send request (codes "tos_buildExitMaintenanceTx") (j ∷ []) >>= parse_built_tx_result

  unfoldable pub submit_malicious_vote_evidence :
      SubmitMaliciousVoteEvidenceParameters → Call W Json
  submit_malicious_vote_evidence p = serialize_evidence_args p >>= λ j.
      send request (codes "tos_submitMaliciousVoteEvidence") (j ∷ [])

  unfoldable pub build_submit_malicious_vote_evidence_tx :
      SubmitMaliciousVoteEvidenceParameters → Call W BuiltTransactionResult
  build_submit_malicious_vote_evidence_tx p = serialize_evidence_args p >>= λ j.
      send request (codes "tos_buildSubmitMaliciousVoteEvidenceTx") (j ∷ [])
      >>= parse_built_tx_result

  unfoldable pub set_signer : SetSignerRpcParameters → Call W Json
  set_signer p = serialize_set_signer_args p >>= λ j. send request (codes "tos_setSigner") (j ∷ [])

  unfoldable pub build_set_signer_tx : SetSignerRpcParameters → Call W BuiltTransactionResult
  build_set_signer_tx p = serialize_set_signer_args p >>= λ j.
      send request (codes "tos_buildSetSignerTx") (j ∷ []) >>= parse_built_tx_result
