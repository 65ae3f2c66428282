-- ===== src/Guard/View.antt =====
-- The limiter against its specification: for each key the bucket that is still live, if any.
-- What is purged, and what other keys do, cannot be told from outside.
use fbyt.Base.{
  ℕ, ◌+◌, ◌≤◌, ◌≡◌, refl, Text, text_eq, text_eq_iff, Bool, true, false, Option, none, some, [],
  ◌∷◌, arith, leb, if◌then◌else◌, inl, inr, Option-cases,
}
use fbyt.Guard.Limiter.{Bucket, Buckets, map_get, map_set, purge, open_bucket, rate_limit}

abbrev pub live : ℕ → Option Bucket → Option Bucket
live now none = none
live now (some b) = if leb b.reset_at now then none else some b

unfoldable pub view : Buckets → ℕ → Text → Option Bucket
unfolding map_get
view bs now key = live now (map_get bs key)

-- The specification of one call on the live bucket of its key.
unfoldable pub next : ℕ → ℕ → Option Bucket → Bucket
next now window_ms none = record { count = 1; reset_at = now + window_ms }
next now window_ms (some b) = record b { count = b.count + 1 }

unfoldable pub passes : ℕ → Option Bucket → Bool
passes limit none = true
passes limit (some b) = leb (b.count + 1) limit

get-map_set :
    (bs : Buckets) (k j : Text) (b : Bucket)
    → map_get (map_set bs k b) j ≡ (if text_eq k j then some b else map_get bs j)
unfolding map_get map_set
get-map_set [] k j b = ground arith
get-map_set (e ∷ es) k j b =
    ground (arith, get-map_set es k j b, text_eq_iff e.key k, text_eq_iff e.key j, text_eq_iff k j)

-- A map has one entry for each key.
abbrev pub Fresh : Text → Buckets → Type 0
Fresh k [] = Unit
Fresh k (e ∷ es) = (text_eq e.key k ≡ false) × Fresh k es

abbrev pub IsMap : Buckets → Type 0
IsMap [] = Unit
IsMap (e ∷ es) = Fresh e.key es × IsMap es

Fresh-map_set :
    (k j : Text) (b : Bucket) (bs : Buckets)
    → text_eq k j ≡ false
    → Fresh j bs
    → Fresh j (map_set bs k b)
unfolding map_set
Fresh-map_set k j b [] n f = (n, tt)
Fresh-map_set k j b (e ∷ es) n f = ground (arith, Fresh-map_set k j b es n f.1)

IsMap-map_set : (k : Text) (b : Bucket) (bs : Buckets) → IsMap bs → IsMap (map_set bs k b)
unfolding map_set
IsMap-map_set k b [] m = (tt, tt)
IsMap-map_set k b (e ∷ es) m = ground (
  arith,
  IsMap-map_set k b es m.1,
  Fresh-map_set k e.key b es,
  text_eq_iff e.key k,
  text_eq_iff k e.key,
)

Fresh-purge : (now : ℕ) (k : Text) (bs : Buckets) → Fresh k bs → Fresh k (purge now bs)
unfolding purge
Fresh-purge now k [] f = tt
Fresh-purge now k (e ∷ es) f = ground (arith, Fresh-purge now k es f.1)

IsMap-purge : (now : ℕ) (bs : Buckets) → IsMap bs → IsMap (purge now bs)
unfolding purge
IsMap-purge now [] m = tt
IsMap-purge now (e ∷ es) m = ground (arith, IsMap-purge now es m.1, Fresh-purge now e.key es m.0)

get-Fresh : (k j : Text) (bs : Buckets) → Fresh k bs → text_eq k j ≡ true → map_get bs j ≡ none
unfolding map_get
get-Fresh k j [] f h = refl
get-Fresh k j (e ∷ es) f h =
    ground
      (arith, get-Fresh k j es f.1 h, text_eq_iff k j, text_eq_iff e.key k, text_eq_iff e.key j)

-- Purging at `now` changes no view at a later time.
view-purge :
    (now t : ℕ) (bs : Buckets) (j : Text)
    → now ≤ t
    → IsMap bs
    → view (purge now bs) t j ≡ view bs t j
unfolding view map_get purge
view-purge now t [] j h m = refl
view-purge now t (e ∷ es) j h m =
    ground (arith, view-purge now t es j h m.1, get-Fresh e.key j es m.0)

view-map_set :
    (t : ℕ) (bs : Buckets) (k j : Text) (b : Bucket)
    → view (map_set bs k b) t j ≡ (if text_eq k j then live t (some b) else view bs t j)
unfolding view
view-map_set t bs k j b = ground (arith, get-map_set bs k j b)

view-open_bucket :
    (now t : ℕ) (bs : Buckets) (k j : Text) (w : ℕ)
    → now ≤ t
    → IsMap bs
    → view (open_bucket bs now k w).0 t j ≡ (
        if text_eq k j
        then live t (some (record { count = 1; reset_at = now + w }))
        else view bs t j)
unfolding open_bucket
view-open_bucket now t bs k j w h m =
    let b : Bucket = record { count = 1; reset_at = now + w } in
    ground (
      arith,
      view-map_set t bs k j b,
      view-purge now t (map_set bs k b) j h (IsMap-map_set k b bs m),
    )

IsMap-open_bucket :
    (now : ℕ) (bs : Buckets) (k : Text) (w : ℕ) → IsMap bs → IsMap (open_bucket bs now k w).0
unfolding open_bucket
IsMap-open_bucket now bs k w m =
    let b : Bucket = record { count = 1; reset_at = now + w } in
    ground
      (arith, IsMap-map_set k b bs m, IsMap-purge now (map_set bs k b) (IsMap-map_set k b bs m))

module _ (bs : Buckets) (now : ℕ) (key : Text) (limit window_ms : ℕ) (m : IsMap bs) where
  pub rate_limit-IsMap : IsMap (rate_limit bs now key limit window_ms).0
  unfolding rate_limit
  rate_limit-IsMap = elim (Option-cases (map_get bs key)) [
    | inl e ↦ rw (e, rate_limit) (IsMap-open_bucket now bs key window_ms m)
    | inr (b, e) ↦ ground (
      arith,
      e,
      IsMap-open_bucket now bs key window_ms m,
      IsMap-map_set key (record b { count = b.count + 1 }) bs m,
    )
  ]

  -- Where each key has one entry, the answer is the specification's, of the live bucket of the key alone.
  pub rate_limit_answer : (rate_limit bs now key limit window_ms).1 ≡ passes limit (view bs now key)
  unfolding rate_limit open_bucket view passes
  rate_limit_answer = ground arith

  -- Where each key has one entry: at any later time the key has the specification's bucket, and every other key what it had.
  pub view-rate_limit :
      (t : ℕ) (j : Text)
      → now ≤ t
      → view (rate_limit bs now key limit window_ms).0 t j ≡ (
          if text_eq key j
          then live t (some (next now window_ms (view bs now key)))
          else view bs t j)
  unfolding rate_limit view next
  view-rate_limit t j h = elim (Option-cases (map_get bs key)) [
    | inl e ↦ rw (e, rate_limit) (view-open_bucket now t bs key j window_ms h m)
    | inr (b, e) ↦ ground (
      arith,
      e,
      view-open_bucket now t bs key j window_ms h m,
      view-map_set t bs key j (record b { count = b.count + 1 }),
    )
  ]
