-- ===== src/Rpc/Transport.antt =====
-- `resilientTransport` of app/src/lib/rpc-server.ts.
use fbyt.Base.{
  ℕ, zero, suc, ◌-◌, ◌*◌, ◌^◌, min, Text, Option, none, some, List, [], ◌∷◌, length, get_elem?,
}
use fbyt.Nav.Ledger.{Read, threw, got}

-- A transport and the clock: `call` is a transport of a URL on the arguments of one request.
pub record Network (A : Type 0) : Type 1 where
  pub World : Type 0
  pub call : Text → World → World × Read A
  -- await sleep(ms)
  pub sleep : ℕ → World → World

-- `[RPC_URL, ...(FALLBACK_RPC_URL ? [FALLBACK_RPC_URL] : [])]`
unfoldable pub urls_of : Text → Option Text → List Text
urls_of primary none = primary ∷ []
urls_of primary (some []) = primary ∷ []
urls_of primary (some (c ∷ cs)) = primary ∷ (c ∷ cs) ∷ []

-- `transports[Math.min(attempt, transports.length - 1)]`, of one transport at least
unfoldable pub pick : List Text → ℕ → Option Text
pick urls attempt = get_elem? urls (min attempt (length urls - 1))

module _ {A : Type 0} (net : Network A) where
  open net use {World, call, sleep}

  -- `await t(...args)`: there is no transport to call without a URL, which is an exception.
  unfoldable pub call_attempt : List Text → ℕ → World → World × Read A
  unfolding pick
  call_attempt urls attempt w = elim (pick urls attempt) [
    | none ↦ (w, threw)
    | some url ↦ call url w
  ]

  -- The rounds that are left, and the number of the attempt.
  unfoldable pub retry : List Text → ℕ → ℕ → World → World × Read A
  unfolding call_attempt
  retry urls zero attempt w = (w, threw)
  retry urls (suc left) attempt w =
      let (t, r) = call_attempt urls attempt w in
      let rest = retry urls left (suc attempt) (sleep (150 * 2 ^ attempt) t) in
      elim r [ got a ↦ (t, got a) | threw ↦ rest ]

  unfoldable pub resilient : List Text → World → World × Read A
  unfolding retry
  resilient urls w = retry urls 3 0 w

  unfoldable pub server_rpc : Text → Option Text → World → World × Read A
  unfolding urls_of resilient
  server_rpc primary fallback w = resilient (urls_of primary fallback) w
