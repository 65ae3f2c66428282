-- ===== src/Guard/Quota.antt =====
-- How many calls of one key pass in a window, whatever other keys do in between.
use fbyt.Base.{
  ℕ, ◌+◌, ◌≤◌, ◌<◌, ◌≡◌, min, Text, text_eq, text_eq_iff, text_eq_refl, Bool, true, false, ◌&&◌,
  Option, none, some, List, [], ◌∷◌, arith, if◌then◌else◌, leb, sym, ◌∙◌, inl, inr, Bool-cases,
}
use fbyt.Guard.Limiter.{Bucket, Buckets, rate_limit}
use fbyt.Guard.View.{
  view, next, passes, IsMap, rate_limit-IsMap, rate_limit_answer, view-rate_limit,
}

-- One call of `rateLimit`, with the time of its `Date.now()`.
pub record Hit : Type 0 where
  pub at : ℕ
  pub key : Text
  pub limit : ℕ
  pub window_ms : ℕ

abbrev pub call : Buckets → Hit → Buckets × Bool
call bs h = rate_limit bs h.at h.key h.limit h.window_ms

-- How many of the calls of `k` are answered with `true`.
unfoldable pub passed : Text → Buckets → List Hit → ℕ
passed k bs [] = 0
passed k bs (h ∷ hs) =
    (if text_eq h.key k && (call bs h).1 then 1 else 0) + passed k (call bs h).0 hs

unfoldable pub hits_on : Text → List Hit → ℕ
hits_on k [] = 0
hits_on k (h ∷ hs) = (if text_eq h.key k then 1 else 0) + hits_on k hs

-- The calls come in the order of time, before `reset`; those of `k` have the limit `l`.
abbrev pub InWindow : Text → ℕ → ℕ → ℕ → List Hit → Type 0
InWindow k l reset now [] = Unit
InWindow k l reset now (h ∷ hs) =
    (now ≤ h.at)
    × (h.at < reset)
    × (text_eq h.key k ≡ true → h.limit ≡ l)
    × InWindow k l reset h.at hs

view_later :
    (bs : Buckets) (now t : ℕ) (k : Text) (b : Bucket)
    → view bs now k ≡ some b
    → t < b.reset_at
    → view bs t k ≡ some b
unfolding view
view_later bs now t k b e h = ground arith

-- A call of the key itself.
hit_live :
    (bs : Buckets) (h : Hit) (k : Text) (c reset : ℕ)
    → IsMap bs
    → text_eq h.key k ≡ true
    → view bs h.at k ≡ some (record { count = c; reset_at = reset })
    → h.at < reset
    → (view (call bs h).0 h.at k ≡ some (record { count = c + 1; reset_at = reset }))
      × ((call bs h).1 ≡ leb (c + 1) h.limit)
unfolding next passes
hit_live bs h k c reset m hit e q =
    let same : h.key ≡ k = (text_eq_iff h.key k).0 hit in
    let e' : view bs h.at h.key ≡ some (record { count = c; reset_at = reset }) = rw same e in
    (
      view-rate_limit bs h.at h.key h.limit h.window_ms m h.at k (omega arith)
          ∙ (rw (hit, e') (ground arith)),
      rate_limit_answer bs h.at h.key h.limit h.window_ms m ∙ rw e',
    )

-- A call of another key.
other_live :
    (bs : Buckets) (h : Hit) (k : Text)
    → IsMap bs
    → text_eq h.key k ≡ false
    → view (call bs h).0 h.at k ≡ view bs h.at k
other_live bs h k m other =
    view-rate_limit bs h.at h.key h.limit h.window_ms m h.at k (omega arith) ∙ rw other

passed_live :
    (k : Text) (l reset now c : ℕ) (bs : Buckets) (hs : List Hit)
    → IsMap bs
    → view bs now k ≡ some (record { count = c; reset_at = reset })
    → InWindow k l reset now hs
    → passed k bs hs + min l c ≡ min l (c + hits_on k hs)
unfolding passed hits_on
passed_live k l reset now c bs [] m e w = omega arith
passed_live k l reset now c bs (h ∷ hs) m e (p, q, r, w) =
    let e' = view_later bs now h.at k (record { count = c; reset_at = reset }) e q in
    let m' = rate_limit-IsMap bs h.at h.key h.limit h.window_ms m in
    elim (Bool-cases (text_eq h.key k)) [
      | inl hit ↦
          let (v, a) = hit_live bs h k c reset m hit e' q in
          ground (arith, hit, a, r hit, passed_live k l reset h.at (c + 1) (call bs h).0 hs m' v w)
      | inr other ↦
          let v = sym (other_live bs h k m other) in
          ground (arith, other, passed_live k l reset h.at c (call bs h).0 hs m' (sym v ∙ e') w)
    ]

passes_new : (l : ℕ) (o : Option Bucket) → o ≡ none → passes l o ≡ true
unfolding passes
passes_new l o e = rw e

opened :
    (bs : Buckets) (h : Hit)
    → IsMap bs
    → view bs h.at h.key ≡ none
    → 0 < h.window_ms
    → view (call bs h).0 h.at h.key ≡ some (record { count = 1; reset_at = h.at + h.window_ms })
unfolding next
opened bs h m e p =
    view-rate_limit bs h.at h.key h.limit h.window_ms m h.at h.key (omega arith)
    ∙ rw (text_eq_refl h.key, e) (ground arith)

head_passed :
    (bs : Buckets) (h : Hit) (hs : List Hit)
    → IsMap bs
    → view bs h.at h.key ≡ none
    → passed h.key bs (h ∷ hs) ≡ 1 + passed h.key (call bs h).0 hs
unfolding passed
head_passed bs h hs m e = ground (
  arith,
  text_eq_refl h.key,
  rate_limit_answer bs h.at h.key h.limit h.window_ms m,
  passes_new h.limit _ e,
)

head_hits : (h : Hit) (hs : List Hit) → hits_on h.key (h ∷ hs) ≡ 1 + hits_on h.key hs
unfolding hits_on
head_hits h hs = ground (arith, text_eq_refl h.key)

-- Where each key has one entry, with a limit of at least 1 and calls in the order of time: a key with no
-- live bucket opens one, and up to its end exactly the first `limit` calls of the
-- key pass, whatever calls of other keys stand in between and whatever the purge removes.
pub window_quota :
    (bs : Buckets) (h : Hit) (hs : List Hit)
    → IsMap bs
    → view bs h.at h.key ≡ none
    → 1 ≤ h.limit
    → InWindow h.key h.limit (h.at + h.window_ms) h.at hs
    → passed h.key bs (h ∷ hs) ≡ min h.limit (hits_on h.key (h ∷ hs))
unfolding passed hits_on
window_quota bs h [] m e l w = ground (
  arith,
  text_eq_refl h.key,
  rate_limit_answer bs h.at h.key h.limit h.window_ms m,
  passes_new h.limit _ e,
)
window_quota bs h (x ∷ xs) m e l w =
    let m' = rate_limit-IsMap bs h.at h.key h.limit h.window_ms m in
    omega (
      arith,
      head_passed bs h (x ∷ xs) m e,
      passed_live h.key h.limit (h.at + h.window_ms) h.at 1 (call bs h).0 (x ∷ xs) m'
          (opened bs h m e (omega arith)) w,
      head_hits h (x ∷ xs),
    )
