-- ===== src/Clients/Wallet/Actions.antt =====
-- What a wallet does with the transactions that it signs: packages, leases, actions of the system
-- (createWalletClient.ts). `json_stringify` is JSON.stringify.
use tosdk.Prelude.{ℕ, pos, List, [], ◌∷◌, ◌++◌, Option, none, some, replicate}
use tosdk.Prelude.Results.{Result, ok, err, type_error, plain_error}
use tosdk.Strings.{Text, codes, prefix_0x}
use tosdk.Json.{Json, null, boolean, number, string, array, object, Fields}
use tosdk.Data.{HexOrBytes}
use tosdk.Encoding.Hex.{Numeric, bigint, string_to_hex}
use tosdk.Surfaces.Client.{◌>>=◌, return}
use tosdk.Surfaces.Preferences.{truthy_text}
use tosdk.Clients.Rpc.{Call, Request, canonical, checked, default, record_of, fields}
use tosdk.Clients.Types.{TxCommonParameters, BuiltTransactionResult}
use tosdk.Clients.Serialize.{text, objects}
use tosdk.Clients.Packages.{PackageArgument, encode_package_call_data, encode_package_deploy_data}
use tosdk.Clients.Public.Calls.{build_lease_deploy_tx, build_lease_renew_tx, build_lease_close_tx}
use tosdk.Clients.Wallet.{
  LocalAccount, SignTransactionParameters, resolve_account, send_transaction,
}

pub record WalletTxCommonParameters (W : Type 0) : Type 0 where
  pub account : Option (LocalAccount W)
  pub from : Option Text
  pub nonce : Option Numeric
  pub gas : Option Numeric

pub record WalletLeaseDeployParameters (W : Type 0) : Type 0 where
  pub common : WalletTxCommonParameters W
  pub code : Text
  pub lease_blocks : Numeric
  pub lease_owner : Option Text
  pub value : Option Numeric

pub record WalletLeaseRenewParameters (W : Type 0) : Type 0 where
  pub common : WalletTxCommonParameters W
  pub contract_address : Text
  pub delta_blocks : Numeric

pub record WalletLeaseCloseParameters (W : Type 0) : Type 0 where
  pub common : WalletTxCommonParameters W
  pub contract_address : Text

pub record LeaseDeployResult : Type 0 where
  pub tx_hash : Json
  pub contract_address : Text

pub record SendSystemActionParameters (W : Type 0) : Type 0 where
  pub account : Option (LocalAccount W)
  pub action : Text
  pub payload : Option Fields
  pub gas : Option Numeric
  pub value : Option Numeric

pub record SetSignerMetadataParameters (W : Type 0) : Type 0 where
  pub account : Option (LocalAccount W)
  pub signer_type : Text
  pub signer_value : Text
  pub gas : Option Numeric

-- 0x and the word of the number 1
abbrev pub system_action_address : Text
system_action_address = prefix_0x ++ (replicate 63 b'0' ++ (b'1' ∷ []))

-- Parameters that leave everything out.
abbrev pub no_parameters : {W : Type 0} → SignTransactionParameters W
no_parameters = record {
  account = none;
  chain_id = none;
  nonce = none;
  gas = none;
  to = none;
  value = none;
  data_ = none;
  from = none;
  signer_type = none;
  sponsor = none;
  sponsor_signer_type = none;
  sponsor_nonce = none;
  sponsor_expiry = none;
  sponsor_policy_hash = none;
  sponsor_signature = none;
}

-- The data of a built transaction, as the node sent it: a string, or nothing. (Another value fails
-- in the serialization.)
unfoldable pub input_text : Option Json → Result (Option Text)
input_text none = ok none
input_text (some null) = ok none
input_text (some (string s)) = ok (some s)
input_text (some (boolean b)) = err type_error
input_text (some (number n)) = err type_error
input_text (some (array items)) = err type_error
input_text (some (object fields)) = err type_error

module _ {W : Type 0} (request : Request W) (config_account : LocalAccount W) where
  unfoldable pub send_built_transaction :
      Option (LocalAccount W) → BuiltTransactionResult → Call W Json
  unfolding input_text
  send_built_transaction account built = return (input_text built.tx.input) >>= λ input.
      send_transaction request config_account (record no_parameters {
        account = some (resolve_account config_account account);
        data_ = input;
        from = some built.tx.from;
        gas = some (bigint built.tx.gas);
        nonce = some (bigint built.tx.nonce);
        to = some built.tx.to;
        value = some (bigint built.tx.value);
      })

  -- The fields of a lease's transaction, from its account if the sender is left out.
  unfoldable pub lease_common : WalletTxCommonParameters W → Call W TxCommonParameters
  lease_common p =
      canonical (default p.from (resolve_account config_account p.account).address) >>= λ from.
      return (ok (record { from = from; nonce = p.nonce; gas = p.gas }))

  -- The exception comes when the transaction is sent already.
  unfoldable pub lease_deploy : WalletLeaseDeployParameters W → Call W LeaseDeployResult
  unfolding lease_common
  lease_deploy p = lease_common p.common >>= λ common.
      build_lease_deploy_tx request (record {
        common = common;
        code = p.code;
        lease_blocks = p.lease_blocks;
        lease_owner = p.lease_owner;
        value = p.value;
      })
      >>= λ built. send_built_transaction p.common.account built >>= λ tx_hash.
          return (elim (truthy_text built.contract_address) [
            | none ↦ err plain_error
            | some contract ↦ ok (record { tx_hash = tx_hash; contract_address = contract })
          ])

  unfoldable pub lease_renew : WalletLeaseRenewParameters W → Call W Json
  unfolding lease_common
  lease_renew p = lease_common p.common >>= λ common.
      build_lease_renew_tx request (record {
        common = common;
        contract_address = p.contract_address;
        delta_blocks = p.delta_blocks;
      })
      >>= λ built. send_built_transaction p.common.account built

  unfoldable pub lease_close : WalletLeaseCloseParameters W → Call W Json
  unfolding lease_common
  lease_close p = lease_common p.common >>= λ common.
      build_lease_close_tx request
        (record { common = common; contract_address = p.contract_address })
      >>= λ built. send_built_transaction p.common.account built

module _ {W : Type 0} (keccak_256 : HexOrBytes → List ℕ) (request : Request W)
    (config_account : LocalAccount W) where
  -- `rest` are the parameters other than those of the call.
  unfoldable pub send_package_transaction :
      Text → Text → Option (List PackageArgument) → SignTransactionParameters W → Call W Json
  unfolding encode_package_call_data
  send_package_transaction package_name function_signature args rest =
      checked
        (encode_package_call_data keccak_256 package_name function_signature (default args []))
      >>= λ encoded. send_transaction request config_account (record rest { data_ = some encoded })

module _ {W : Type 0} (request : Request W) (config_account : LocalAccount W) where
  unfoldable pub deploy_package :
      Text → Option (List PackageArgument) → SignTransactionParameters W → Call W Json
  unfolding encode_package_deploy_data
  deploy_package package_binary constructor_args rest =
      checked (encode_package_deploy_data package_binary (default constructor_args []))
      >>= λ encoded.
          send_transaction request config_account (record rest { to = none; data_ = some encoded })

module _ {W : Type 0} (json_stringify : Json → Text) (request : Request W)
    (config_account : LocalAccount W) where
  -- toHex(JSON.stringify({ action, ...(payload ? { payload } : {}) }))
  unfoldable pub encode_system_action_data : Text → Option Fields → Result Text
  unfolding string_to_hex
  encode_system_action_data action payload =
      string_to_hex
        (json_stringify
          (record_of ((codes "action", text action) ∷ (codes "payload", objects payload) ∷ [])))
        none

  unfoldable pub send_system_action : SendSystemActionParameters W → Call W Json
  send_system_action p = return (encode_system_action_data p.action p.payload) >>= λ encoded.
      send_transaction request config_account (record no_parameters {
        account = some (resolve_account config_account p.account);
        data_ = some encoded;
        gas = some (default p.gas (bigint (pos 120000)));
        to = some system_action_address;
        value = some (default p.value (bigint (pos 0)));
      })

  unfoldable pub set_signer_metadata : SetSignerMetadataParameters W → Call W Json
  set_signer_metadata p = send_system_action (record {
    account = some (resolve_account config_account p.account);
    action = codes "ACCOUNT_SET_SIGNER";
    payload = some (
        fields (
          (codes "signerType", text p.signer_type)
          ∷ (codes "signerValue", text p.signer_value)
          ∷ []));
    gas = some (default p.gas (bigint (pos 120000)));
    value = some (bigint (pos 0));
  })
