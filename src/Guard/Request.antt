-- ===== src/Guard/Request.antt =====
-- `clientIp`, `sameOrigin` and `guard` of app/src/lib/guard.ts.
-- `host_of` is the WHATWG parser `new URL(text).host`, a parameter; `none` is its exception.
use fbyt.Base.{
  ℕ, Text, text_eq, Bool, true, false, not, ◌&&◌, Option, none, some, [], ◌∷◌, ◌++◌, codes, split,
  trim, if◌then◌else◌, get_or,
}
use fbyt.Guard.Limiter.{Buckets, rate_limit}

-- What the guard and the handlers read of a request. A header that is absent is `none`.
pub record Request : Type 0 where
  pub pathname : Text
  pub host : Text
  pub origin : Option Text
  pub forwarded_for : Option Text
  pub real_ip : Option Text
  pub cookie : Option Text

abbrev pub first_address : Text → Text
first_address fwd = trim (get_or (split b',' fwd) 0 [])

-- An empty header counts as absent for `x-forwarded-for`, and not for `x-real-ip`.
unfoldable pub client_ip : Request → Text
unfolding split trim
client_ip req = elim req.forwarded_for [
  | some (c ∷ cs) ↦ first_address (c ∷ cs)
  | _ ↦ elim req.real_ip [ some ip ↦ ip | none ↦ codes "local" ]
]

module _ (host_of : Text → Option Text) where
  unfoldable pub same_origin : Request → Bool
  same_origin req = elim req.origin [
    | none ↦ true
    | some [] ↦ true
    | some (c ∷ cs) ↦ elim (host_of (c ∷ cs)) [ none ↦ false | some h ↦ text_eq h req.host ]
  ]

-- The options of `guard`; `require_same_origin` is true where the route leaves it out.
pub record Limits : Type 0 where
  pub limit : ℕ
  pub window_ms : ℕ
  pub require_same_origin : Bool

abbrev pub per_minute : ℕ → Limits
per_minute n = record { limit = n; window_ms = 60_000; require_same_origin = true }

-- The response that ends the request early.
pub data Rejection : Type 0 where
  cross_origin rate_limited : Rejection

abbrev pub limit_key : Request → Text
limit_key req = req.pathname ++ codes ":" ++ client_ip req

module _ (host_of : Text → Option Text) where
  unfoldable pub guard : Request → Limits → ℕ → Buckets → Buckets × Option Rejection
  unfolding same_origin client_ip rate_limit
  guard req opts now bs =
      if opts.require_same_origin && not (same_origin host_of req)
      then (bs, some cross_origin)
      else let (bs', ok) = rate_limit bs now (limit_key req) opts.limit opts.window_ms in
        (bs', if ok then none else some rate_limited)
