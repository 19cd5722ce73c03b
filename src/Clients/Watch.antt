-- ===== src/Clients/Watch.antt =====
-- Subscriptions (createPublicClient.ts). A transport may have no subscriptions; one that has makes
-- a subscription of an event, of its parameters and of the callbacks.
use tosdk.Prelude.{List, [], ◌∷◌, Option, none, some}
use tosdk.Prelude.Results.{ok, err, subscriptions_unsupported}
use tosdk.Strings.{Text, codes}
use tosdk.Json.{Json, Items}
use tosdk.Surfaces.Client.{Async, ◌>>=◌, return}
use tosdk.Clients.Rpc.{Call, items}
use tosdk.Clients.Types.{LogFilter}
use tosdk.Clients.Filters.{serialize_log_filter}

module _ {W : Type 0} where
  -- The parameters of a subscription to logs.
  unfoldable pub log_params : Option LogFilter → Call W (List Json)
  log_params none = return (ok [])
  log_params (some filter) = serialize_log_filter filter >>= λ f. return (ok (f ∷ []))

module _ {W Callbacks Subscription : Type 0}
    (transport_subscribe : Option (Text → Items → Callbacks → Async W Subscription)) where
  unfoldable pub subscribe : Text → List Json → Callbacks → Call W Subscription
  unfolding items
  subscribe event params callbacks s = elim transport_subscribe [
    | none ↦ (err subscriptions_unsupported, s)
    | some f ↦ let r = f event (items params) callbacks s.0 in (r.0, (r.1, s.1))
  ]

  unfoldable pub watch_blocks : Callbacks → Call W Subscription
  watch_blocks callbacks = subscribe (codes "newHeads") [] callbacks

  unfoldable pub watch_logs : Option LogFilter → Callbacks → Call W Subscription
  watch_logs filter callbacks =
      log_params filter >>= λ params. subscribe (codes "logs") params callbacks

  unfoldable pub watch_pending_transactions : Callbacks → Call W Subscription
  watch_pending_transactions callbacks = subscribe (codes "newPendingTransactions") [] callbacks

  unfoldable pub watch_syncing : Callbacks → Call W Subscription
  watch_syncing callbacks = subscribe (codes "syncing") [] callbacks
