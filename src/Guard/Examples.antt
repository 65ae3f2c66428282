-- ===== src/Guard/Examples.antt =====
-- The limiter at concrete calls: two callers, a limit of 2 in a window of 10.
use fbyt.Base.{
  ℕ, ◌≡◌, refl, min, Text, text_eq, false, Option, some, List, [], ◌∷◌, arith, codes, if◌then◌else◌,
}
use fbyt.Guard.Limiter.{Buckets, map_get, map_set, rate_limit}
use fbyt.Guard.View.{live, view, next, IsMap, view-rate_limit}
use fbyt.Guard.Quota.{Hit, passed, hits_on, InWindow, window_quota}

abbrev first_key : Text
first_key = codes "/api/launches:1.2.3.4"

abbrev other_key : Text
other_key = codes "/api/launches:5.6.7.8"

-- One bucket that is past its time, and one that is full.
abbrev buckets : Buckets
buckets =
    record { key = first_key; bucket = record { count = 1; reset_at = 5 } }
    ∷ record { key = other_key; bucket = record { count = 2; reset_at = 30 } }
    ∷ []

buckets-IsMap : IsMap buckets
unfolding text_eq
buckets-IsMap = ((refl, tt), (tt, tt))

abbrev hit : ℕ → Text → Hit
hit at key = record { at = at; key = key; limit = 2; window_ms = 10 }

abbrev hits : List Hit
hits = hit 13 first_key ∷ hit 14 other_key ∷ hit 19 first_key ∷ hit 21 first_key ∷ []

no_live_bucket : view buckets 12 first_key ≡ Option.none
unfolding view map_get text_eq
no_live_bucket = refl

hits-InWindow : InWindow first_key 2 22 12 hits
hits-InWindow = ground arith

window_quota_example :
    passed first_key buckets (hit 12 first_key ∷ hits)
    ≡ min 2 (hits_on first_key (hit 12 first_key ∷ hits))
window_quota_example =
    window_quota buckets (hit 12 first_key) hits buckets-IsMap no_live_bucket (omega arith)
      hits-InWindow

view-rate_limit_example : view (rate_limit buckets 12 first_key 2 10).0 15 other_key ≡ (
    if text_eq first_key other_key
    then live 15 (some (next 12 10 (view buckets 12 first_key)))
    else view buckets 15 other_key)
view-rate_limit_example =
    view-rate_limit buckets 12 first_key 2 10 buckets-IsMap 15 other_key (omega arith)

-- The full bucket refuses.
other_refused : (rate_limit buckets 12 other_key 2 10).1 ≡ false
unfolding rate_limit map_get map_set text_eq
other_refused = refl
