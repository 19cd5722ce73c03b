-- ===== src/Clients/Receipt/Deadline.antt =====
-- The wait for a receipt ends (createPublicClient.ts).
use tosdk.Prelude.{
  ℕ, zero, suc, ◌+◌, ◌≤◌, ◌<◌, ◌≡◌, refl, ◌⊎◌, inl, inr, arith, true, Option, some, ltb, Bool-cases,
}
use tosdk.Prelude.Results.{ok, err, transaction_receipt_timeout}
use tosdk.Strings.{Text}
use tosdk.Json.{Items}
use tosdk.Address.{Caches}
use tosdk.Clients.Rpc.{Request, is_truthy, default}
use tosdk.Clients.Receipt.{Outcome, after_poll, poll, poll_until, wait_for_transaction_receipt}

module _ {W : Type 0} (request : Request W) (now : W → ℕ) (delay : ℕ → W → W) where
  -- How a wait may end: with a receipt, that a poll begun before the deadline was answered; with
  -- the exception of such a poll; or with a timeout, at the deadline or behind it.
  abbrev pub Ended : Text → ℕ → Outcome W → Type 0
  Ended hash deadline (ok receipt, s) =
      (is_truthy (some receipt) ≡ true)
      × ((before : W × Caches) × (now before.0 < deadline)
          × (poll request now delay hash before ≡ (ok receipt, s)))
  Ended hash deadline (err e, s) =
      ((e ≡ transaction_receipt_timeout) × (deadline ≤ now s.0))
      ⊎ ((before : W × Caches) × (now before.0 < deadline)
          × (poll request now delay hash before ≡ (err e, s)))

  -- A run that had fuel enough, and ended well.
  abbrev pub IsSettled : Text → ℕ → Option (Outcome W) → Type 0
  IsSettled hash deadline run =
      (outcome : Outcome W) × (run ≡ some outcome) × Ended hash deadline outcome

  after_poll-IsSettled :
      (hash : Text) (deadline : ℕ) (s : W × Caches) (r : Outcome W)
      (again : W × Caches → Option (Outcome W))
      → poll request now delay hash s ≡ r
      → now s.0 < deadline
      → IsSettled hash deadline (again r.1)
      → IsSettled hash deadline (after_poll r again)
  unfolding is_truthy
  after_poll-IsSettled hash deadline s (err e, t) again p early rest =
      ((err e, t), refl, inr (s, early, p))
  after_poll-IsSettled hash deadline s (ok receipt, t) again p early rest =
      elim (Bool-cases (is_truthy (some receipt))) [
        | inl y ↦ rw y ((ok receipt, t), refl, (y, (s, early, p)))
        | inr n ↦ rw n rest
      ]

  poll-clock :
      ((method : Text) (params : Items) (w : W) → now w ≤ now (request method params w).1)
      → (hash : Text) (s : W × Caches) → now s.0 ≤ now (poll request now delay hash s).1.0
  unfolding poll
  poll-clock forwards hash s = forwards _ _ s.0

  poll_until_lem :
      ((method : Text) (params : Items) (w : W) → now w ≤ now (request method params w).1)
      → ((ms : ℕ) (w : W) → now w + ms ≤ now (delay ms w))
      → (f : ℕ) (hash : Text) (interval deadline : ℕ) (s : W × Caches) → 0 < interval
      → 0 < f
      → deadline < now s.0 + f
      → IsSettled hash deadline (poll_until request now delay f hash interval deadline s)
  unfolding poll_until
  poll_until_lem forwards sleeps zero hash interval deadline s i z d =
      let no : ⊥ = omega arith in elim no [ ]
  poll_until_lem forwards sleeps (suc f) hash interval deadline s i z d =
      elim (Bool-cases (ltb (now s.0) deadline)) [
        | inl y ↦
            let r = poll request now delay hash s in
            let polled : now s.0 ≤ now r.1.0 = poll-clock forwards hash s in
            let slept : now r.1.0 + interval ≤ now (delay interval r.1.0) = sleeps interval r.1.0 in
            let early : now s.0 < deadline = ground (arith, y) in
            rw y (
              after_poll-IsSettled hash deadline s r
                (λ t.
                  poll_until request now delay f hash interval deadline (delay interval t.0, t.1))
                refl early
                (poll_until_lem forwards sleeps f hash interval deadline
                  (delay interval r.1.0, r.1.1) i (omega arith) (omega arith)))
        | inr n ↦ rw n ((err transaction_receipt_timeout, s), refl, inl (refl, ground (arith, n)))
      ]

-- On a clock that does not go back, and a timer that waits for at least the time it is given: with an
-- interval that is not 0, fuel for one round more than the timeout has milliseconds is enough. The
-- wait then ends with a receipt that answered a poll begun before the deadline, with the exception of
-- such a poll, or with the timeout, and that not before the deadline.
pub wait_for_transaction_receipt_lem :
    {W : Type 0} (request : Request W) (now : W → ℕ) (delay : ℕ → W → W)
    → ((method : Text) (params : Items) (w : W) → now w ≤ now (request method params w).1)
    → ((ms : ℕ) (w : W) → now w + ms ≤ now (delay ms w))
    → (f : ℕ) (hash : Text) (interval timeout : Option ℕ) (s : W × Caches)
    → 0 < default interval 2000
    → default timeout 60000 < f
    → IsSettled request now delay hash
        (now s.0 + default timeout 60000)
        (wait_for_transaction_receipt request now delay f hash interval timeout s)
unfolding wait_for_transaction_receipt
wait_for_transaction_receipt_lem request now delay forwards sleeps f hash interval timeout s i
      enough =
    poll_until_lem request now delay forwards sleeps f hash (default interval 2000)
      (now s.0 + default timeout 60000) s i (omega arith) (omega arith)
