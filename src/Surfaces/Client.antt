-- ===== src/Surfaces/Client.antt =====
-- The methods of a client that the surfaces call. They go over the network, so they are
-- parameters: each takes a state of the world outside and gives an answer or an exception and the
-- state after it.
use tosdk.Prelude.{List, [], ◌∷◌}
use tosdk.Prelude.Results.{Result, ok, err}
use tosdk.Strings.{Text}
use tosdk.Surfaces.Types.{
  AgentSearchResult, AgentCardResponse, AgentSearchParams, AgentDirectorySearchParams,
}

-- An async function: what it answers or throws, and the world it leaves.
abbrev pub Async : Type 0 → Type 0 → Type 0
Async W A = W → Result A × W

module _ {W : Type 0} where
  abbrev pub await_step : {A B : Type 0} → Result A × W → (A → Async W B) → Result B × W
  await_step (ok a, w) rest = rest a w
  await_step (err e, w) rest = (err e, w)

  infixl 5 ◌>>=◌
  abbrev pub ◌>>=◌ : {A B : Type 0} → Async W A → (A → Async W B) → Async W B
  (m >>= rest) w = await_step (m w) rest

  abbrev pub return : {A : Type 0} → Result A → Async W A
  return r w = (r, w)

  -- `for (const x of xs) out.push(await body(x))`
  unfoldable pub for_each : {A B : Type 0} → (A → Async W B) → List A → Async W (List B)
  for_each body [] = return (ok [])
  for_each body (x ∷ xs) = body x >>= λ y. for_each body xs >>= λ ys. return (ok (y ∷ ys))

pub record DiscoveryClient (W : Type 0) : Type 0 where
  pub agent_discovery_search : AgentSearchParams → Async W (List AgentSearchResult)
  pub agent_discovery_directory_search :
      AgentDirectorySearchParams → Async W (List AgentSearchResult)
  pub agent_discovery_get_card : Text → Async W AgentCardResponse
