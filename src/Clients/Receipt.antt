-- ===== src/Clients/Receipt.antt =====
-- waitForTransactionReceipt (createPublicClient.ts). `now` is Date.now() and `delay` the timer; the
-- loop runs on fuel, and `none` is a run that had too little of it.
use tosdk.Prelude.{ℕ, zero, suc, ◌+◌, ◌∷◌, [], Option, none, some, ltb, if◌then◌else◌}
use tosdk.Prelude.Results.{Result, ok, err, transaction_receipt_timeout}
use tosdk.Strings.{Text, codes}
use tosdk.Json.{Json, string}
use tosdk.Address.{Caches}
use tosdk.Clients.Rpc.{Call, Request, send, is_truthy, default}
pub mod Deadline

-- What a run that ended answers, and the state it leaves.
abbrev pub Outcome : Type 0 → Type 0
Outcome W = Result Json × (W × Caches)

module _ {W : Type 0} where
  -- The round behind an answer: `if (receipt) return receipt`, and else the rounds that follow.
  abbrev pub after_poll : Outcome W → (W × Caches → Option (Outcome W)) → Option (Outcome W)
  after_poll (err e, s) again = some (err e, s)
  after_poll (ok receipt, s) again =
      if is_truthy (some receipt) then some (ok receipt, s) else again s

module _ {W : Type 0} (request : Request W) (now : W → ℕ) (delay : ℕ → W → W) where
  -- const receipt = await request('tos_getTransactionReceipt', [hash])
  unfoldable pub poll : Text → Call W Json
  unfolding send
  poll hash = send request (codes "tos_getTransactionReceipt") (string hash ∷ [])

  -- while (Date.now() < deadline) { ... }
  unfoldable pub poll_until : ℕ → Text → ℕ → ℕ → W × Caches → Option (Outcome W)
  unfolding is_truthy
  poll_until zero hash interval deadline s = none
  poll_until (suc f) hash interval deadline s =
      if ltb (now s.0) deadline
      then after_poll (poll hash s)
          (λ t. poll_until f hash interval deadline (delay interval t.0, t.1))
      else some (err transaction_receipt_timeout, s)

  unfoldable pub wait_for_transaction_receipt :
      ℕ → Text → Option ℕ → Option ℕ → W × Caches → Option (Outcome W)
  wait_for_transaction_receipt f hash poll_interval_ms timeout_ms s =
      poll_until f hash (default poll_interval_ms 2000) (now s.0 + default timeout_ms 60000) s
