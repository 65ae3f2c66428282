-- ===== src/Rpc/Live.antt =====
-- A request is tried at most three times, and what is first answered is the answer.
use fbyt.Base.{
  ℕ, zero, suc, ◌+◌, ◌*◌, ◌^◌, ◌<◌, ◌≡◌, ◌⊎◌, inl, inr, refl, ap, ◌∙◌, arith, subst, Text, some,
  List, ◌∷◌,
}
use fbyt.Nav.Ledger.{Read, threw, got}
use fbyt.Rpc.Transport.{Network, urls_of, pick, call_attempt, retry, resilient, server_rpc}

Read-cases : {A : Type 0} → (r : Read A) → (r ≡ threw) ⊎ ((a : A) × (r ≡ got a))
Read-cases threw = inl refl
Read-cases (got a) = inr (a, refl)

module _ {A : Type 0} (net : Network A) (urls : List Text) where
  -- The world before an attempt, when all attempts before it throw.
  abbrev pub before : ℕ → Network.World net → Network.World net
  before zero w = w
  before (suc i) w = net.sleep (150 * 2 ^ i) (call_attempt net urls i (before i w)).0

  -- The attempt throws.
  abbrev pub Fails : Network.World net → ℕ → Type 0
  Fails w i = (call_attempt net urls i (before i w)).1 ≡ threw

  abbrev pub Answers : Network.World net → ℕ → A → Type 0
  Answers w i a = (call_attempt net urls i (before i w)).1 ≡ got a

  -- The first answer of the attempts from one on.
  abbrev pub IsFirst : Network.World net → ℕ → ℕ → Network.World net × Read A → Type 0
  IsFirst w from left out =
      ((i : ℕ) × (a : A) × (i < left)
        × ((j : ℕ) → j < i → Fails w (from + j))
        × Answers w (from + i) a
        × (out ≡ ((call_attempt net urls (from + i) (before (from + i) w)).0, got a)))
      ⊎ (((j : ℕ) → j < left → Fails w (from + j)) × (out ≡ (before (from + left) w, threw)))

  Fails-next :
      (w : Network.World net) (from n : ℕ)
      → Fails w from
      → ((j : ℕ) → j < n → Fails w (suc from + j))
      → (j : ℕ) → j < suc n
      → Fails w (from + j)
  Fails-next w from n f g zero h = subst (Fails w) (omega arith) f
  Fails-next w from n f g (suc j) h = subst (Fails w) (omega arith) (g j (omega arith))

  retry-IsFirst :
      (w : Network.World net) (from left : ℕ)
      → IsFirst w from left (retry net urls left from (before from w))
  unfolding retry
  retry-IsFirst w from zero =
      inr (λ j h. absurd (omega arith), ap (λ (k : ℕ). (before k w, threw)) (omega arith))
  retry-IsFirst w from (suc left) =
      elim (Read-cases (call_attempt net urls from (before from w)).1) [
        | inr (a, e) ↦ inl (
          zero,
          a,
          omega arith,
          λ j h. absurd (omega arith),
          subst (λ k. Answers w k a) (omega arith) e,
          rw (e, retry)
              (ap (λ (k : ℕ). ((call_attempt net urls k (before k w)).0, got a)) (omega arith)),
        )
        | inl e ↦ elim (retry-IsFirst w (suc from) left) [
          | inl (i, a, h, f, g, out) ↦ inl (
            suc i,
            a,
            omega arith,
            Fails-next w from i e f,
            subst (λ k. Answers w k a) (omega arith) g,
            rw (e, retry)
                (out
                  ∙ ap (λ (k : ℕ). ((call_attempt net urls k (before k w)).0, got a))
                      (omega arith)),
          )
          | inr (f, out) ↦ inr (
            Fails-next w from left e f,
            rw (e, retry) (out ∙ ap (λ (k : ℕ). (before k w, threw)) (omega arith)),
          )
        ]
      ]

-- A request stops after three attempts at most: its result is that of the first attempt that answers, each
-- attempt being made after those before it have thrown and their pauses have passed, and it throws only if
-- all three throw.
pub resilient_first :
    {A : Type 0} (net : Network A) (urls : List Text) (w : Network.World net)
    → ((i : ℕ) × (a : A) × (i < 3)
        × ((j : ℕ) → j < i → Fails net urls w j)
        × Answers net urls w i a
        × (resilient net urls w ≡ ((call_attempt net urls i (before net urls i w)).0, got a)))
      ⊎ (((j : ℕ) → j < 3 → Fails net urls w j)
          × (resilient net urls w ≡ (before net urls 3 w, threw)))
unfolding resilient
resilient_first net urls w = elim (retry-IsFirst net urls w 0 3) [
  | inl (i, a, h, f, g, out) ↦ inl (
    i,
    a,
    h,
    λ j k. subst (Fails net urls w) (omega arith) (f j k),
    subst (λ n. Answers net urls w n a) (omega arith) g,
    out ∙ ap (λ (n : ℕ). ((call_attempt net urls n (before net urls n w)).0, got a)) (omega arith),
  )
  | inr (f, out) ↦ inr (λ j k. subst (Fails net urls w) (omega arith) (f j k), out)
]

call_fallback :
    {A : Type 0} (net : Network A) (p : Text) (c : ℕ) (cs : Text) (w : Network.World net)
    → call_attempt net (urls_of p (some (c ∷ cs))) 1 w ≡ net.call (c ∷ cs) w
unfolding call_attempt urls_of pick
call_fallback net p c cs w = refl

-- With a fallback that always answers, a request is answered, whatever the primary provider does.
pub server_rpc_live :
    {A : Type 0} (net : Network A) (primary : Text) (c : ℕ) (cs : Text) (w : Network.World net)
    → ((v : Network.World net) → (a : A) × ((net.call (c ∷ cs) v).1 ≡ got a))
    → (a : A) × ((server_rpc net primary (some (c ∷ cs)) w).1 ≡ got a)
unfolding server_rpc
server_rpc_live net primary c cs w answers =
    let urls = urls_of primary (some (c ∷ cs)) in
    elim (resilient_first net urls w) [
      | inl (i, a, h, f, g, out) ↦ (a, ap (λ (x : Network.World net × Read _). x.1) out)
      | inr (f, out) ↦
          let (a, e) = answers (before net urls 1 w) in
          absurd (
            ground
              (arith, e, f 1 (omega arith), call_fallback net primary c cs (before net urls 1 w)))
    ]
