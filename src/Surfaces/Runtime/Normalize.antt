-- ===== src/Surfaces/Runtime/Normalize.antt =====
-- The surface of deployed code, addresses that may not be valid, and the client (agentRuntime.ts).
use tosdk.Prelude.{ℤ, Option, none, some, if◌then◌else◌}
use tosdk.Prelude.Results.{Result, ok, err}
use tosdk.Strings.{Text, prefix_0x, text_eq, codes, is_blank}
use tosdk.Json.{get_field, as_string, as_record}
use tosdk.Address.{Caches, get_address}
use tosdk.Surfaces.Client.{Async, DiscoveryClient}
use tosdk.Surfaces.Preferences.{truthy_text}
use tosdk.Surfaces.Runtime.Types.{
  AgentContractProfile, DeployedCodeInfo, AgentRuntimeSurface, RuntimeReceipt, SettlementEffect,
}

-- BlockTag | number | bigint
pub data BlockTag : Type 0 where
  tag : Text → BlockTag
  height : ℤ → BlockTag

-- The methods of a public client that agentRuntime.ts calls.
pub record RuntimeClient (W : Type 0) : Type 0 where
  pub discovery : DiscoveryClient W
  pub get_contract_metadata : Text → Option BlockTag → Async W (Option DeployedCodeInfo)
  pub get_runtime_receipt : Text → Async W RuntimeReceipt
  pub get_settlement_effect : Text → Async W SettlementEffect

-- a ?? b
abbrev pub or_else {ℓ} : {A : Type ℓ} → Option A → Option A → Option A
or_else none b = b
or_else (some a) b = some a

-- info?.field
abbrev pub chain {ℓ κ} : {A : Type ℓ} {B : Type κ} → Option A → (A → Option B) → Option B
chain none field = none
chain (some a) field = field a

-- typeof identity?.name === 'string' ? identity.name : otherwise
unfoldable pub identity_text : Text → Option AgentContractProfile → Option Text → Option Text
unfolding as_record as_string get_field
identity_text name profile otherwise =
    or_else
      (chain profile
        (λ p. chain (as_record p.identity) (λ fields. as_string (get_field name fields))))
      otherwise

unfoldable pub normalize_runtime_surface : DeployedCodeInfo → AgentRuntimeSurface
unfolding identity_text
normalize_runtime_surface info =
    let artifact = info.artifact in
    let pkg = info.package_ in
    let profile = chain artifact (λ a. a.profile) in
    record {
      address = info.address;
      code_kind = info.code_kind;
      contract_name =
          or_else (chain artifact (λ a. some a.contract_name)) (chain pkg (λ p. p.main_contract));
      package_name =
          identity_text (codes "package_name") profile
            (or_else (chain pkg (λ p. p.package_)) (chain pkg (λ p. p.name)));
      package_version =
          identity_text (codes "package_version") profile (chain pkg (λ p. p.version));
      profile = profile;
      bundle_profile = chain pkg (λ p. p.bundle_profile);
      routing = chain artifact (λ a. a.routing_profile);
      suggested_card =
          or_else (chain artifact (λ a. a.suggested_card)) (chain pkg (λ p. p.suggested_card));
      published = chain pkg (λ p. p.published);
      publisher = chain pkg (λ p. p.publisher);
      artifact = artifact;
      package_ = pkg;
    }

unfoldable pub address_or_none : Result Text → Option Text
address_or_none (ok address) = some address
address_or_none (err e) = none

unfoldable pub try_normalize_address : Option Text → Caches → Option Text × Caches
unfolding is_blank address_or_none get_address
try_normalize_address none caches = (none, caches)
try_normalize_address (some value) caches =
    let found = get_address value none caches in
    if is_blank value then (none, caches) else (address_or_none found.0, found.1)

-- ref && ref !== '0x'
unfoldable pub given_ref : Option Text → Option Text
unfolding truthy_text
given_ref ref = elim (truthy_text ref) [
  | none ↦ none
  | some r ↦ if text_eq r prefix_0x then none else some r
]
