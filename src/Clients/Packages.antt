-- ===== src/Clients/Packages.antt =====
-- src/utils/hash/keccak256.ts and src/utils/contract/encodePackage{Call,Deploy}Data.ts: the data of
-- the calls of a package. `keccak_256` is the function of @noble/hashes.
use tosdk.Prelude.{◌+◌, ℕ, zero, Bool, false, if◌then◌else◌, List, [], ◌∷◌, ◌++◌, none, drop, take}
use tosdk.Prelude.Results.{Result, ok, ◌>>=◌}
use tosdk.Strings.{Text, codes, prefix_0x}
use tosdk.Data.{HexOrBytes, hex, bytes, is_hex}
use tosdk.Encoding.Hex.{string, to_hex, to_bytes, bytes_to_hex}
use tosdk.Abi.Prepare.{
  AbiParameter, parameter, no_components, Value, Encoded, and_then, encode_abi_parameters,
}
use tosdk.Abi.Sizes.{param_size}
use tosdk.Lru.{LruMap}

pub record PackageArgument : Type 0 where
  pub type : Text
  pub value : Value

-- args.map((arg) => ({ type: arg.type }))
unfoldable pub to_abi_parameters : List PackageArgument → List AbiParameter
to_abi_parameters [] = []
to_abi_parameters (arg ∷ args) = parameter none arg.type no_components ∷ to_abi_parameters args

unfoldable pub argument_values : List PackageArgument → List Value
argument_values [] = []
argument_values (arg ∷ args) = arg.value ∷ argument_values args

-- Fuel for encodeAbiParameters: the size of each parameter is enough for it.
unfoldable pub parameters_size : List AbiParameter → ℕ
unfolding param_size
parameters_size [] = zero
parameters_size (p ∷ ps) = param_size p + parameters_size ps

-- parts.map((part) => part.slice(2)).join('')
unfoldable pub sliced : List Text → Text
sliced [] = []
sliced (part ∷ parts) = drop 2 part ++ sliced parts

unfoldable pub concat_hex_parts : List Text → Text
unfolding sliced
concat_hex_parts parts = prefix_0x ++ sliced parts

-- The text of encoded parameters: a hex string as it is.
unfoldable pub encoded_text : HexOrBytes → Result Text
unfolding bytes_to_hex
encoded_text (hex s) = ok s
encoded_text (bytes bs) = bytes_to_hex bs none

-- encodeAbiParameters of the types and the values of arguments
unfoldable pub encode_arguments : List PackageArgument → LruMap Bool → Encoded Text
unfolding to_abi_parameters argument_values parameters_size encode_abi_parameters encoded_text
encode_arguments args cache =
    let params = to_abi_parameters args in
    let r = encode_abi_parameters (parameters_size params) params (argument_values args) cache in
    (r.0 >>= encoded_text, r.1)

unfoldable pub encode_package_deploy_data : Text → List PackageArgument → LruMap Bool → Encoded Text
unfolding encode_arguments
encode_package_deploy_data package_binary [] cache = (ok package_binary, cache)
encode_package_deploy_data package_binary (arg ∷ args) cache =
    and_then (encode_arguments (arg ∷ args) cache)
      (λ encoded c. (ok (prefix_0x ++ (drop 2 package_binary ++ drop 2 encoded)), c))

-- The arguments' part of the data: `0x` for none.
unfoldable pub call_arguments : List PackageArgument → LruMap Bool → Encoded Text
unfolding encode_arguments
call_arguments [] cache = (ok prefix_0x, cache)
call_arguments (arg ∷ args) cache = encode_arguments (arg ∷ args) cache

module _ (keccak_256 : HexOrBytes → List ℕ) where
  -- toHex(keccak_256(isHex(value, { strict: false }) ? toBytes(value) : value))
  unfoldable pub keccak256 : Text → Result Text
  unfolding is_hex to_bytes bytes_to_hex
  keccak256 value =
      (if is_hex false value
        then (to_bytes (string value) none >>= λ bs. ok (bytes bs))
        else ok (hex value))
      >>= λ input. bytes_to_hex (keccak_256 input) none

  -- `0x${keccak256(toHex(`${prefix}${value}`)).slice(2, 10)}`
  unfoldable pub to_selector : Text → Text → Result Text
  unfolding to_hex
  to_selector prefix value = to_hex (string (prefix ++ value)) none >>= λ h.
      keccak256 h >>= λ digest. ok (prefix_0x ++ take 8 (drop 2 digest))

  unfoldable pub encode_package_call_data :
      Text → Text → List PackageArgument → LruMap Bool → Encoded Text
  unfolding concat_hex_parts
  encode_package_call_data package_name function_signature args cache =
      and_then (to_selector (codes "pkg:") package_name, cache)
        (λ dispatch_tag c.
          and_then (to_selector [] function_signature, c)
            (λ selector d.
              and_then (call_arguments args d)
                (λ encoded e. (ok (concat_hex_parts (dispatch_tag ∷ selector ∷ encoded ∷ [])), e))))
