-- ===== src/Clients/Tests.antt =====
-- Runs of the clients on nodes with fixed answers (createPublicClient.ts, createWalletClient.ts).
use tosdk.Prelude.{
  ℕ, ◌+◌, ◌≡◌, refl, ◌⊎◌, arith, Bool, true, false, ◌||◌, ◌&&◌, List, [], ◌∷◌, ◌++◌, none, some,
  pos, ltb, if◌then◌else◌, replicate,
}
use tosdk.Prelude.Results.{ok, err, invalid_address, invalid_log_filter}
use tosdk.Strings.{Text, codes, prefix_0x, text_eq, to_lower_case}
use tosdk.Json.{null, boolean, string, Items, nil, cons}
use tosdk.Address.{Caches, address_regex}
use tosdk.Address.Fixtures.{fresh, fresh-IsCoherent, fresh-IsCanonical}
use tosdk.Encoding.Hex.{number}
use tosdk.Transaction.{Signature}
use tosdk.Clients.Rpc.{Request, height, items}
use tosdk.Clients.Types.{LogFilter}
use tosdk.Clients.Contracts.{Holds, IsSound}
use tosdk.Clients.Filters.{serialize_log_filter}
use tosdk.Clients.Filters.Ranges.{IsContradictory, Ends, serialize_log_filter_lem}
use tosdk.Clients.Receipt.{wait_for_transaction_receipt}
use tosdk.Clients.Receipt.Deadline.{IsSettled, wait_for_transaction_receipt_lem}
use tosdk.Clients.Wallet.{
  LocalAccount, SignTransactionParameters, resolve_account, build_transaction, send_transaction,
}
use tosdk.Clients.Wallet.Actions.{no_parameters}
use tosdk.Clients.Wallet.Contracts.{raw_method}
use tosdk.Clients.Wallet.Plain.{plain_transaction, build_transaction_lem}
use tosdk.Clients.Wallet.Sending.{IsSigned, send_transaction_lem}
use tosdk.Clients.Wallet.Signing.{send_transaction-unsponsored}

-- A node with a clock that each request moves by one, and a receipt from 3000 on.
abbrev slow_node : Request ℕ
slow_node method params w = (ok (if ltb w 3000 then null else boolean true), w + 1)

abbrev sleep : ℕ → ℕ → ℕ
sleep ms w = w + ms

wait_for_transaction_receipt_lem_example :
    IsSettled slow_node
      (λ w. w)
      sleep
      (codes "0x12")
      60000
      (wait_for_transaction_receipt slow_node
        (λ w. w)
        sleep
        60001
        (codes "0x12")
        none
        none
        (0, fresh))
wait_for_transaction_receipt_lem_example =
    wait_for_transaction_receipt_lem slow_node (λ w. w) sleep (λ m ps w. omega arith)
      (λ ms w. omega arith) 60001 (codes "0x12") none none (0, fresh) (omega arith) (omega arith)

abbrev ranged : LogFilter
ranged = record {
  address = none;
  topics = none;
  block_hash = none;
  from_block = some (height (number (pos 16)));
  to_block = none;
}

serialize_log_filter_lem_example :
    (IsContradictory ranged
      × (serialize_log_filter {W = ℕ} ranged (0, fresh) ≡ (err invalid_log_filter, (0, fresh))))
    ⊎ ((IsContradictory ranged → ⊥)
        × Ends {W = ℕ} ranged (0, fresh) (serialize_log_filter {W = ℕ} ranged (0, fresh)).0)
serialize_log_filter_lem_example = serialize_log_filter_lem {W = ℕ} ranged (0, fresh)

fresh-IsSound : IsSound fresh
fresh-IsSound = record { coherent = fresh-IsCoherent; lowered = fresh-IsCanonical }

abbrev sender : Text
sender = prefix_0x ++ replicate 64 b'A'

abbrev recipient : Text
recipient = prefix_0x ++ replicate 64 b'1'

abbrev signed_by : Signature
signed_by = record { r = codes "0x1"; s = codes "0x2"; v = some (pos 27); y_parity = none }

abbrev account : {W : Type 0} → LocalAccount W
account = record {
  address = sender;
  signer_type = codes "secp256k1";
  sign_authorization = λ t s. (ok signed_by, s);
}

-- The parameters of a transfer that leaves nothing to ask.
abbrev transfer : {W : Type 0} → SignTransactionParameters W
transfer = record no_parameters {
  chain_id = some (number (pos 1));
  nonce = some (number (pos 7));
  to = some recipient;
  value = some (number (pos 5));
}

build_transaction_lem_example :
    (caches : Caches) × (build_transaction slow_node account transfer (0, fresh) ≡ (
      if address_regex sender && address_regex recipient
          then ok (
              plain_transaction {W = ℕ} transfer account
                (number (pos 1))
                (number (pos 7))
                (to_lower_case sender)
                (some (to_lower_case recipient)))
          else err invalid_address,
      (0, caches),
    ))
    × IsSound caches
unfolding resolve_account
build_transaction_lem_example =
    build_transaction_lem slow_node account transfer (number (pos 1)) (number (pos 7)) (0, fresh)
      fresh-IsSound refl refl refl

-- A node that keeps the names of the methods it is asked.
abbrev named_node : Request (List Text)
named_node method params w = (ok (string (codes "0x1")), method ∷ w)

abbrev has_raw : List Text → Bool
has_raw [] = false
has_raw (m ∷ ms) = text_eq m raw_method || has_raw ms

named_node-quiet :
    (method : Text) (params : Items) (w : List Text)
    → text_eq method raw_method ≡ false
    → has_raw w ≡ false
    → has_raw (named_node method params w).1 ≡ false
named_node-quiet method params w n h = rw (n, h) refl

abbrev sponsored : {W : Type 0} → SignTransactionParameters W
sponsored = record transfer {
  nonce = none;
  sponsor = some recipient;
  sponsor_expiry = some (number (pos 9));
}

send_transaction-unsponsored_example :
    (has_raw (send_transaction named_node account sponsored ([], fresh)).1.0 ≡ false)
    × IsSound (send_transaction named_node account sponsored ([], fresh)).1.1
    × Holds (λ _. ⊥) (send_transaction named_node account sponsored ([], fresh)).0
unfolding resolve_account
send_transaction-unsponsored_example =
    send_transaction-unsponsored (λ w. has_raw w ≡ false) named_node account sponsored
      named_node-quiet (λ t s i. (i, tt)) recipient refl refl ([], fresh) refl fresh-IsSound

-- A node that keeps what it is sent as a signed transaction.
abbrev first_text : Items → Text
first_text nil = []
first_text (cons (string t) js) = t
first_text (cons _ js) = []

abbrev sent_node : Request (List Text)
sent_node method params w =
    (ok (string (codes "0x1")), if text_eq method raw_method then first_text params ∷ w else w)

abbrev AllSigned : List Text → Type 0
AllSigned [] = Unit
AllSigned (t ∷ ts) = IsSigned {W = List Text} transfer account t × AllSigned ts

sent_node-quiet :
    (method : Text) (params : Items) (w : List Text)
    → text_eq method raw_method ≡ false
    → AllSigned w
    → AllSigned (sent_node method params w).1
sent_node-quiet method params w n h = rw n h

sent_node-signed :
    (text : Text) (w : List Text)
    → IsSigned {W = List Text} transfer account text
    → AllSigned w
    → AllSigned (sent_node raw_method (items (string text ∷ [])) w).1
unfolding text_eq items
sent_node-signed text w s h = (s, h)

send_transaction_lem_example :
    AllSigned (send_transaction sent_node account transfer ([], fresh)).1.0
    × IsSound (send_transaction sent_node account transfer ([], fresh)).1.1
unfolding resolve_account
send_transaction_lem_example =
    send_transaction_lem AllSigned sent_node account transfer sent_node-quiet (λ t s i. (i, tt))
      sent_node-signed ([], fresh) tt fresh-IsSound
