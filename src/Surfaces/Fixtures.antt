-- ===== src/Surfaces/Fixtures.antt =====
-- A client with fixed answers, for the runs of the surfaces.
use tosdk.Prelude.{ℕ, suc, ℤ, pos, ◌-ℤ◌, Bool, true, false, List, [], ◌∷◌, none, some, length}
use tosdk.Prelude.Results.{ok}
use tosdk.Strings.{Text, codes}
use tosdk.Sort.{IsComparator}
use tosdk.Sort.Orders.{descending-IsComparator}
use tosdk.Surfaces.Types.{
  AgentProviderTrustSummary, AgentSearchResult, AgentCardResponse, AgentSearchParams, https,
}
use tosdk.Surfaces.Client.{DiscoveryClient}
use tosdk.Surfaces.Preferences.{AgentProviderSelectionPreferences}

-- Texts by their lengths, the longer first.
abbrev pub by_length : Text → Text → ℤ
by_length a b = pos (length b) -ℤ pos (length a)

pub by_length-IsComparator : IsComparator by_length
by_length-IsComparator = descending-IsComparator (λ a. pos (length a))

abbrev pub trust_of : Bool → ℕ → AgentProviderTrustSummary
trust_of is_suspended score = record {
  registered = true;
  suspended = is_suspended;
  stake = codes "1";
  stake_bucket = none;
  reputation = codes "1";
  reputation_bucket = none;
  rating_count = codes "0";
  capability_registered = true;
  capability_bit = none;
  has_onchain_capability = true;
  local_rank_score = some (pos score);
  local_rank_reason = none;
}

abbrev pub result_of : Text → Bool → ℕ → AgentSearchResult
result_of name is_suspended score = record {
  node_id = name;
  node_record = name;
  primary_identity = none;
  connection_modes = some 3;
  card_sequence = none;
  capabilities = none;
  trust = some (trust_of is_suspended score);
}

abbrev pub results : List AgentSearchResult
results =
    result_of (codes "a") false 5
    ∷ result_of (codes "b") true 9
    ∷ result_of (codes "c") false 7
    ∷ result_of [] false 8
    ∷ []

abbrev pub card_of : Text → AgentCardResponse
card_of node_record = record {
  node_id = node_record;
  node_record = node_record;
  card_json = codes "{}";
  parsed_card = none;
}

abbrev pub client : DiscoveryClient ℕ
client = record {
  agent_discovery_search = λ parameters calls. (ok results, suc calls);
  agent_discovery_directory_search = λ parameters calls. (ok results, suc calls);
  agent_discovery_get_card = λ node_record calls. (ok (card_of node_record), suc calls);
}

abbrev pub parameters : AgentSearchParams
parameters = record { capability = codes "oracle.price"; limit = some 3 }

abbrev pub over_six : AgentProviderSelectionPreferences
over_six = record {
  required_connection_modes = some (https ∷ []);
  package_prefix = none;
  service_kind = none;
  capability_kind = none;
  privacy_mode = none;
  receipt_mode = none;
  require_disclosure_ready = none;
  min_trust_score = some (pos 6);
}
