-- ===== src/Clients/Filters.antt =====
-- The filters of logs (createPublicClient.ts).
use tosdk.Prelude.{
  zero, ℤ, pos, Bool, true, false, ◌&&◌, ◌||◌, List, [], ◌∷◌, ◌++◌, Option, none, some,
}
use tosdk.Prelude.Results.{ok, err, throw_if, invalid_log_filter}
use tosdk.Strings.{Text, codes}
use tosdk.Json.{Json, array, Items}
use tosdk.Encoding.Hex.{bigint, number}
use tosdk.Surfaces.Client.{◌>>=◌, return, for_each}
use tosdk.Surfaces.Preferences.{truthy_text}
use tosdk.Clients.Rpc.{
  Call, BlockTag, tag, height, record_of, items, canonical_json, block_json, default, latest,
}
use tosdk.Clients.Types.{AddressFilter, one, many, LogFilter, NewFilterParams}
use tosdk.Clients.Serialize.{text}
pub mod Ranges

-- `if (block)`: no empty string, and no zero.
unfoldable pub is_block : Option BlockTag → Bool
is_block none = false
is_block (some (tag [])) = false
is_block (some (tag (c ∷ s))) = true
is_block (some (height (number (pos zero)))) = false
is_block (some (height (bigint (pos zero)))) = false
is_block (some (height n)) = true

unfoldable pub arrays : Option Items → Option Json
arrays none = none
arrays (some is) = some (array is)

-- filter.blockHash && (filter.fromBlock || filter.toBlock)
unfoldable pub is_contradictory : LogFilter → Bool
unfolding is_block
is_contradictory filter = elim (truthy_text filter.block_hash) [
  | none ↦ false
  | some hash ↦ is_block filter.from_block || is_block filter.to_block
]

module _ {W : Type 0} where
  -- ...(address ? { address: ... } : {})
  unfoldable pub address_filter : Option AddressFilter → Call W (Option Json)
  address_filter none = return (ok none)
  address_filter (some (one [])) = return (ok none)
  address_filter (some (one (c ∷ s))) = canonical_json (c ∷ s) >>= λ a. return (ok (some a))
  address_filter (some (many addresses)) =
      for_each canonical_json addresses >>= λ as'. return (ok (some (array (items as'))))

  -- { fromBlock, toBlock }
  unfoldable pub block_range : BlockTag → BlockTag → Call W (List (Text × Option Json))
  unfolding block_json
  block_range from to = block_json from >>= λ f. block_json to >>= λ t.
      return (ok ((codes "fromBlock", some f) ∷ (codes "toBlock", some t) ∷ []))

  unfoldable pub serialize_new_filter_params : NewFilterParams → Call W Json
  serialize_new_filter_params params = address_filter params.address >>= λ address.
      block_range (default params.from_block latest) (default params.to_block latest) >>= λ range.
      return (
        ok
          (record_of ((codes "address", address) ∷ (codes "topics", arrays params.topics) ∷ range)))

  -- The block of a filter, if it has one, or its range of blocks.
  unfoldable pub log_blocks : Option Text → LogFilter → Call W (List (Text × Option Json))
  log_blocks (some hash) filter = return (ok ((codes "blockHash", text hash) ∷ []))
  log_blocks none filter =
      block_range (default filter.from_block (height (bigint (pos 0))))
        (default filter.to_block latest)

  unfoldable pub serialize_log_filter : LogFilter → Call W Json
  serialize_log_filter filter =
      return (throw_if (is_contradictory filter) invalid_log_filter) >>= λ _.
      address_filter filter.address >>= λ address.
      log_blocks (truthy_text filter.block_hash) filter >>= λ blocks. return (
        ok (
          record_of ((codes "address", address) ∷ (codes "topics", arrays filter.topics) ∷ blocks)))
