-- ===== src/Clients/Public/PackageCalls.antt =====
-- callPackage: the call of a function of a package (createPublicClient.ts).
use tosdk.Prelude.{ℕ, List, [], ◌∷◌, Option, none, some}
use tosdk.Strings.{Text, codes}
use tosdk.Json.{Json}
use tosdk.Data.{HexOrBytes}
use tosdk.Surfaces.Client.{◌>>=◌}
use tosdk.Clients.Rpc.{
  Call, Request, BlockTag, canonical, checked, block_json, send, default, latest,
}
use tosdk.Clients.Serialize.{serialize_rpc_transaction_request}
use tosdk.Clients.Packages.{PackageArgument, encode_package_call_data}

module _ {W : Type 0} (keccak_256 : HexOrBytes → List ℕ) (request : Request W) where
  unfoldable pub call_package :
      Text → Text → Text → Option (List PackageArgument) → Option BlockTag → Call W Json
  unfolding encode_package_call_data
  call_package address package_name function_signature args block = canonical address >>= λ to.
      checked
        (encode_package_call_data keccak_256 package_name function_signature (default args []))
      >>= λ encoded.
          serialize_rpc_transaction_request
            (record { from = none; to = to; gas = none; value = none; data_ = some encoded })
          >>= λ r. block_json (default block latest) >>= λ b.
              send request (codes "tos_call") (r ∷ b ∷ [])
