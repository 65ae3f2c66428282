-- ===== src/Guard/Limiter.antt =====
-- `rateLimit` of app/src/lib/guard.ts, and the `Map` of its buckets.
use fbyt.Base.{
  ℕ, ◌+◌, Text, text_eq, Bool, true, not, Option, none, some, List, [], ◌∷◌, ltb, leb, length,
  filterb, if◌then◌else◌,
}

pub record Bucket : Type 0 where
  pub count : ℕ
  pub reset_at : ℕ

pub record Entry : Type 0 where
  pub key : Text
  pub bucket : Bucket

abbrev pub Buckets : Type 0
Buckets = List Entry

unfoldable pub map_get : Buckets → Text → Option Bucket
map_get [] k = none
map_get (e ∷ es) k = if text_eq e.key k then some e.bucket else map_get es k

-- A key that is there keeps its place.
unfoldable pub map_set : Buckets → Text → Bucket → Buckets
map_set [] k b = record { key = k; bucket = b } ∷ []
map_set (e ∷ es) k b =
    if text_eq e.key k then record { key = k; bucket = b } ∷ es else e ∷ map_set es k b

-- `for (const [k, v] of buckets) if (v.resetAt <= now) buckets.delete(k)`
unfoldable pub purge : ℕ → Buckets → Buckets
purge now es = filterb (λ e. not (leb e.bucket.reset_at now)) es

abbrev pub max_buckets : ℕ
max_buckets = 10_000

-- The first branch: a new bucket, and a purge if there are too many.
unfoldable pub open_bucket : Buckets → ℕ → Text → ℕ → Buckets × Bool
unfolding map_set purge
open_bucket bs now key window_ms =
    let bs' = map_set bs key (record { count = 1; reset_at = now + window_ms }) in
    (if ltb max_buckets (length bs') then purge now bs' else bs', true)

unfoldable pub rate_limit : Buckets → ℕ → Text → ℕ → ℕ → Buckets × Bool
unfolding map_get open_bucket
rate_limit bs now key limit window_ms = elim (map_get bs key) [
  | none ↦ open_bucket bs now key window_ms
  | some b ↦
      if leb b.reset_at now
      then open_bucket bs now key window_ms
      else (map_set bs key (record b { count = b.count + 1 }), leb (b.count + 1) limit)
]
