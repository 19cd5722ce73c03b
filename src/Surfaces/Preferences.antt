-- ===== src/Surfaces/Preferences.antt =====
-- What agentDiscovery.ts and agentRuntime.ts share: the preferences of a selection, the bits of the
-- connection modes, and the failures that both name.
use Prim.Native.Nat.{bit_and}
use tosdk.Prelude.{
  ℕ, ℤ, Bool, true, false, ◌||◌, not, List, [], ◌∷◌, Option, none, some, ◌==◌, if◌then◌else◌,
}
use tosdk.Strings.{Text, codes, text_eq}
use tosdk.Arrays.{includes}
use tosdk.Surfaces.Types.{AgentConnectionMode, talkreq, https, stream, AgentRoutingProfile}

pub record AgentProviderSelectionPreferences : Type 0 where
  pub required_connection_modes : Option (List AgentConnectionMode)
  pub package_prefix : Option Text
  pub service_kind : Option Text
  pub capability_kind : Option Text
  pub privacy_mode : Option Text
  pub receipt_mode : Option Text
  pub require_disclosure_ready : Option Bool
  pub min_trust_score : Option ℤ

-- CONNECTION_MODE_BITS
abbrev pub connection_mode_bit : AgentConnectionMode → ℕ
connection_mode_bit talkreq = 1
connection_mode_bit https = 2
connection_mode_bit stream = 4

-- (mask & bits) === bits
unfoldable pub has_bits : ℕ → ℕ → Bool
has_bits mask bits = bit_and mask bits == bits

-- The strings that are pushed as failures.
pub data Failure : Type 0 where
  missing_trust_summary not_registered suspended capability_missing package_untrusted : Failure
  trust_score_below_minimum connection_modes_missing runtime_metadata_missing : Failure
  package_prefix_mismatch routing_profile_missing service_kind_mismatch : Failure
  capability_kind_mismatch privacy_mode_mismatch receipt_mode_mismatch : Failure
  disclosure_not_ready : Failure

unfoldable pub failure_text : Failure → Text
failure_text missing_trust_summary = codes "missing trust summary"
failure_text not_registered = codes "provider not registered"
failure_text suspended = codes "provider suspended"
failure_text capability_missing = codes "capability missing on-chain"
failure_text package_untrusted = codes "package is untrusted"
failure_text trust_score_below_minimum = codes "trust score below minimum"
failure_text connection_modes_missing = codes "required connection modes missing"
failure_text runtime_metadata_missing = codes "runtime metadata missing"
failure_text package_prefix_mismatch = codes "package prefix mismatch"
failure_text routing_profile_missing = codes "routing profile missing"
failure_text service_kind_mismatch = codes "service kind mismatch"
failure_text capability_kind_mismatch = codes "capability kind mismatch"
failure_text privacy_mode_mismatch = codes "privacy mode mismatch"
failure_text receipt_mode_mismatch = codes "receipt mode mismatch"
failure_text disclosure_not_ready = codes "disclosure-ready requirement not met"

-- `if (test) failures.push(failure)`
unfoldable pub push_if : Bool → Failure → List Failure
push_if test failure = if test then failure ∷ [] else []

-- The empty string is no true value, nor is undefined.
unfoldable pub truthy_text : Option Text → Option Text
truthy_text none = none
truthy_text (some []) = none
truthy_text (some (c ∷ s)) = some (c ∷ s)

unfoldable pub is_given : Option Text → Bool
unfolding truthy_text
is_given s = elim (truthy_text s) [ none ↦ false | some t ↦ true ]

unfoldable pub is_true : Option Bool → Bool
is_true none = false
is_true (some b) = b

-- found === wanted
unfoldable pub is_text : Option Text → Text → Bool
is_text none wanted = false
is_text (some found) wanted = text_eq found wanted

-- wanted && found !== wanted
unfoldable pub mismatch : Option Text → Option Text → Bool
unfolding truthy_text is_text
mismatch wanted found = elim (truthy_text wanted) [ none ↦ false | some w ↦ not (is_text found w) ]

unfoldable pub or_empty {ℓ} : {A : Type ℓ} → Option (List A) → List A
or_empty none = []
or_empty (some xs) = xs

-- The service kind asked for is neither the profile's nor one of its kinds.
unfoldable pub service_kind_differs : Option Text → AgentRoutingProfile → Bool
unfolding truthy_text is_text or_empty
service_kind_differs wanted routing = elim (truthy_text wanted) [
  | none ↦ false
  | some w ↦ not (is_text routing.service_kind w || includes (or_empty routing.service_kinds) w)
]

unfoldable pub requires_routing_profile : AgentProviderSelectionPreferences → Bool
unfolding is_given is_true
requires_routing_profile prefs =
    is_given prefs.service_kind
    || is_given prefs.capability_kind
    || is_given prefs.privacy_mode
    || is_given prefs.receipt_mode
    || is_true prefs.require_disclosure_ready
