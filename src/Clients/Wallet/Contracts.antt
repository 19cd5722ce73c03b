-- ===== src/Clients/Wallet/Contracts.antt =====
-- What the building of a transaction asks for and makes (createWalletClient.ts).
use tosdk.Prelude.{ℤ, ◌≡◌, refl, false, List, [], Option, none, some}
use tosdk.Prelude.Results.{Result, ok, err}
use tosdk.Strings.{Text, codes, text_eq}
use tosdk.Json.{Json, Items, string}
use tosdk.Encoding.Hex.{Numeric, to_big_int}
use tosdk.Surfaces.Client.{◌>>=◌, return}
use tosdk.Clients.Rpc.{
  Call, Request, canonical, canonical_json, block_json, send, send_at, items, as_quantity, ask,
  parse_rpc_quantity, pending,
}
use tosdk.Clients.Contracts.{
  Holds, Holds-Unit, Keeps, await_step-Keeps, bind-Keeps, return-Keeps, Sound, IsFormOf,
  canonical-Keeps, send-Keeps,
}
use tosdk.Clients.Public.Accounts.{get_transaction_count, get_sponsor_nonce}
use tosdk.Clients.Public.Blocks.{get_chain_id}
use tosdk.Clients.Wallet.{
  SignTransactionParameters, Numbers, all_of, given_canonical, sponsor_to_ask, chain_id_of,
  nonce_of, sponsor_nonce_of, resolve_numbers,
}

abbrev pub raw_method : Text
raw_method = codes "tos_sendRawTransaction"

-- A number, and the one given for it.
abbrev pub IsNumber : Option Numeric → ℤ → Type 0
IsNumber none n = Unit
IsNumber (some given) n = n ≡ to_big_int given

abbrev pub IsGivenNumber : Option Numeric → Option ℤ → Type 0
IsGivenNumber none n = Unit
IsGivenNumber (some given) n = n ≡ some (to_big_int given)

abbrev pub IsAnswered : {W : Type 0} → SignTransactionParameters W → Numbers → Type 0
IsAnswered p numbers =
    IsNumber p.chain_id numbers.chain_id
    × IsNumber p.nonce numbers.nonce
    × IsGivenNumber p.sponsor_nonce numbers.sponsor_nonce

all_of-Holds :
    {W : Type 0} (p : SignTransactionParameters W) (c n : Result ℤ) (m : Result (Option ℤ))
    → Holds (IsNumber p.chain_id) c
    → Holds (IsNumber p.nonce) n
    → Holds (IsGivenNumber p.sponsor_nonce) m
    → Holds (IsAnswered p) (all_of c n m)
unfolding all_of
all_of-Holds p (err e) n m hc hn hm = tt
all_of-Holds p (ok c) (err e) m hc hn hm = tt
all_of-Holds p (ok c) (ok n) (err e) hc hn hm = tt
all_of-Holds p (ok c) (ok n) (ok m) hc hn hm = (hc, hn, hm)

module _ {W : Type 0} (J : W → Type 0) (request : Request W)
    (kept : (method : Text) (params : Items) (w : W)
      → text_eq method raw_method ≡ false
      → J w
      → J (request method params w).1) where
  -- Methods that answer anything.
  abbrev pub Quiet : {A : Type 0} → Call W A → Type 0
  Quiet m = Keeps (Sound J) (λ _. Unit) m

  pub bind-Quiet :
      {A B : Type 0} (m : Call W A) (rest : A → Call W B)
      → Quiet m
      → ((a : A) → Quiet (rest a))
      → Quiet (m >>= rest)
  bind-Quiet m rest q r = bind-Keeps (Sound J) (λ _. Unit) (λ _. Unit) m rest q (λ a u. r a)

  pub return-Quiet : {A : Type 0} (r : Result A) → Quiet (return r)
  return-Quiet r = return-Keeps (Sound J) (λ _. Unit) r (Holds-Unit r)

  -- A contract that asks nothing of the answer.
  pub weaken-Quiet : {A : Type 0} (Q : A → Type 0) (m : Call W A) → Keeps (Sound J) Q m → Quiet m
  weaken-Quiet Q m k s i = ((k s i).0, Holds-Unit (m s).0)

  pub canonical-Quiet : (address : Text) → Quiet (canonical address)
  canonical-Quiet address =
      weaken-Quiet (IsFormOf address) (canonical address) (canonical-Keeps J address)

  pub send-Quiet :
      (method : Text) (params : List Json)
      → text_eq method raw_method ≡ false
      → Quiet (send request method params)
  send-Quiet method params n =
      send-Keeps J request method params (λ w j. kept method (items params) w n j)

  pub canonical_json-Quiet : (address : Text) → Quiet (canonical_json address)
  unfolding canonical_json
  canonical_json-Quiet address =
      bind-Quiet _ _ (canonical-Quiet address) (λ a. return-Quiet (ok (string a)))

  pub send_at-Quiet :
      (method address : Text) (block : _)
      → text_eq method raw_method ≡ false
      → Quiet (send_at request method address block)
  unfolding send_at block_json
  send_at-Quiet method address block n = bind-Quiet _ _ (canonical_json-Quiet address) (λ a.
      bind-Quiet _ _ (λ s i. (i, Holds-Unit (block_json block s).0)) (λ b. send-Quiet method _ n))

  quantity-Quiet : (m : Call W Json) → Quiet m → Quiet (m >>= as_quantity)
  unfolding as_quantity
  quantity-Quiet m q = bind-Quiet m as_quantity q (λ j. return-Quiet (parse_rpc_quantity (some j)))

  chain_id_of-Keeps :
      (chain_id : Option Numeric)
      → Keeps (Sound J) (IsNumber chain_id) (chain_id_of request chain_id)
  unfolding chain_id_of get_chain_id ask text_eq
  chain_id_of-Keeps none =
      quantity-Quiet (ask request (codes "tos_chainId")) (send-Quiet (codes "tos_chainId") [] refl)
  chain_id_of-Keeps (some c) = return-Keeps (Sound J) (IsNumber (some c)) (ok (to_big_int c)) refl

  nonce_of-Keeps :
      (nonce : Option Numeric) (from : Text)
      → Keeps (Sound J) (IsNumber nonce) (nonce_of request nonce from)
  unfolding nonce_of get_transaction_count text_eq send_at
  nonce_of-Keeps none from =
      quantity-Quiet _ (send_at-Quiet (codes "tos_getTransactionCount") from pending refl)
  nonce_of-Keeps (some n) from = return-Keeps (Sound J) (IsNumber (some n)) (ok (to_big_int n)) refl

  sponsor_nonce_of-Keeps :
      (sponsor : Option Text) (nonce : Option Numeric)
      → Keeps (Sound J) (IsGivenNumber nonce) (sponsor_nonce_of request sponsor nonce)
  unfolding sponsor_nonce_of get_sponsor_nonce text_eq send_at
  sponsor_nonce_of-Keeps (some a) none =
      bind-Quiet (get_sponsor_nonce request a (some pending)) _
        (quantity-Quiet _ (send_at-Quiet (codes "tos_getSponsorNonce") a pending refl))
        (λ n. return-Quiet (ok (some n)))
  sponsor_nonce_of-Keeps none none = return-Quiet {A = Option ℤ} (ok none)
  sponsor_nonce_of-Keeps (some a) (some n) =
      return-Keeps (Sound J) (IsGivenNumber (some n)) (ok (some (to_big_int n))) refl
  sponsor_nonce_of-Keeps none (some n) =
      return-Keeps (Sound J) (IsGivenNumber (some n)) (ok (some (to_big_int n))) refl

  given_canonical-Quiet : (address : Option Text) → Quiet (given_canonical address)
  unfolding given_canonical
  given_canonical-Quiet none = return-Quiet {A = Option Text} (ok none)
  given_canonical-Quiet (some a) =
      bind-Quiet (canonical a) _ (canonical-Quiet a) (λ b. return-Quiet (ok (some b)))

  sponsor_to_ask-Quiet :
      (sponsor : Option Text) (nonce : Option Numeric) → Quiet (sponsor_to_ask sponsor nonce)
  unfolding sponsor_to_ask
  sponsor_to_ask-Quiet sponsor none = given_canonical-Quiet sponsor
  sponsor_to_ask-Quiet sponsor (some n) = return-Quiet {A = Option Text} (ok none)

  pub resolve_numbers-Keeps :
      (p : SignTransactionParameters W) (from : Text)
      → Keeps (Sound J) (IsAnswered p) (resolve_numbers request p from)
  unfolding resolve_numbers
  resolve_numbers-Keeps p from s i =
      let c = chain_id_of request p.chain_id s in
      let ic = chain_id_of-Keeps p.chain_id s i in
      let n = nonce_of request p.nonce from c.1 in
      let in_ = nonce_of-Keeps p.nonce from c.1 ic.0 in
      let ask_ = sponsor_to_ask-Quiet p.sponsor p.sponsor_nonce n.1 in_.0 in
      await_step-Keeps (Sound J) (λ _. Unit) (IsAnswered p)
        (sponsor_to_ask p.sponsor p.sponsor_nonce n.1)
        (λ sponsor t.
          let m = sponsor_nonce_of request sponsor p.sponsor_nonce t in (all_of c.0 n.0 m.0, m.1))
        ask_.0 ask_.1
        (λ sponsor _ t it.
          let m = sponsor_nonce_of request sponsor p.sponsor_nonce t in
          let im = sponsor_nonce_of-Keeps sponsor p.sponsor_nonce t it in
          (im.0, all_of-Holds p c.0 n.0 m.0 ic.1 in_.1 im.1))
