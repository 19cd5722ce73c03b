-- ===== src/Clients/Contracts.antt =====
-- What a method of a client keeps of the state and what it answers, as a contract: a lemma for each
-- way to put methods together.
use tosdk.Prelude.{◌≡◌, refl, inl, inr, true, Bool-cases, List, none, if◌then◌else◌}
use tosdk.Prelude.Results.{Result, ok, err, invalid_address}
use tosdk.Strings.{Text, to_lower_case}
use tosdk.Json.{Json}
use tosdk.Address.{Caches, address_regex}
use tosdk.Address.Cached.{IsCoherent}
use tosdk.Address.Canonical.{IsCanonical, get_address_lem}
use tosdk.Surfaces.Client.{await_step, ◌>>=◌, return}
use tosdk.Clients.Rpc.{Call, Request, canonical, send, items}

-- The value that was answered, if one was.
abbrev pub Holds : {A : Type 0} → (A → Type 0) → Result A → Type 0
Holds Q (ok a) = Q a
Holds Q (err e) = Unit

pub Holds-Unit : {A : Type 0} (r : Result A) → Holds (λ _. Unit) r
Holds-Unit (ok a) = tt
Holds-Unit (err e) = tt

-- The canonical form of an address.
abbrev pub IsFormOf : Text → Text → Type 0
IsFormOf address a = (address_regex address ≡ true) × (a ≡ to_lower_case address)

-- Caches that answer right.
pub record IsSound (caches : Caches) : Type 0 where
  pub coherent : IsCoherent caches.is_address_cache
  pub lowered : IsCanonical caches.checksum_address_cache

module _ {W : Type 0} (I : W × Caches → Type 0) where
  -- From a state that I holds of: I holds of the state that is left, and Q of what is answered.
  abbrev pub Keeps : {A : Type 0} → (A → Type 0) → Call W A → Type 0
  Keeps Q m = (s : W × Caches) → I s → I (m s).1 × Holds Q (m s).0

  pub await_step-Keeps :
      {A B : Type 0} (P : A → Type 0) (Q : B → Type 0) (r : Result A × (W × Caches))
      (rest : A → Call W B)
      → I r.1
      → Holds P r.0
      → ((a : A) → P a → Keeps Q (rest a))
      → I (await_step r rest).1 × Holds Q (await_step r rest).0
  await_step-Keeps P Q (ok a, s) rest i p k = k a p s i
  await_step-Keeps P Q (err e, s) rest i p k = (i, tt)

  pub bind-Keeps :
      {A B : Type 0} (P : A → Type 0) (Q : B → Type 0) (m : Call W A) (rest : A → Call W B)
      → Keeps P m
      → ((a : A) → P a → Keeps Q (rest a))
      → Keeps Q (m >>= rest)
  bind-Keeps P Q m rest first then_ s i =
      let f = first s i in await_step-Keeps P Q (m s) rest f.0 f.1 then_

  pub return-Keeps : {A : Type 0} (Q : A → Type 0) (r : Result A) → Holds Q r → Keeps Q (return r)
  return-Keeps Q r q s i = (i, q)

module _ {W : Type 0} (J : W → Type 0) where
  -- J holds of the world, and the caches answer right.
  abbrev pub Sound : W × Caches → Type 0
  Sound s = J s.0 × IsSound s.1

  Holds-form :
      (address : Text) (r : Result Text)
      → r ≡ (if address_regex address then ok (to_lower_case address) else err invalid_address)
      → Holds (IsFormOf address) r
  Holds-form address r e = elim (Bool-cases (address_regex address)) [
    | inl y ↦ rw (e, y) (y, refl)
    | inr n ↦ rw (e, n) tt
  ]

  pub canonical-Keeps : (address : Text) → Keeps Sound (IsFormOf address) (canonical address)
  unfolding canonical
  canonical-Keeps address s i =
      let g = get_address_lem address none s.1 i.1.coherent i.1.lowered in
      ((i.0, record { coherent = g.1; lowered = g.2 }), Holds-form address _ g.0)

  pub send-Keeps :
      (request : Request W) (method : Text) (params : List Json)
      → ((w : W) → J w → J (request method (items params) w).1)
      → Keeps Sound (λ _. Unit) (send request method params)
  unfolding send
  send-Keeps request method params kept s i =
      ((kept s.0 i.0, i.1), Holds-Unit (request method (items params) s.0).0)
