-- ===== src/Nav/Total.antt =====
-- The value of a vault is the sum of its holdings, and the holdings are all that can be priced.
use mathlib.Core.List.{append_assoc, append-nil}
use fbyt.Base.{
  ℕ, zero, suc, ◌<◌, ◌≡◌, ◌⊎◌, inl, inr, refl, sym, ap, ◌∙◌, Text, Option, some, List, [], ◌∷◌,
  ◌++◌, arith, subst,
}
use fbyt.Base.Int.{ℤ, pos, ◌+ℤ◌, ◌-ℤ◌, ◌*ℤ◌, ◌/ℤ◌, +ℤ_parts, eq_of_parts}
use fbyt.Base.Sets.{set_of}
use fbyt.Nav.Mints.{distinct_mints, distinct_mints-set_of}
use fbyt.Nav.Ledger.{Read, threw, got, Pool, Ledger}
use fbyt.Nav.Compute.{
  Holding, Nav, pnl_of, holding_of, nav_loop, registered, nav_of_pool, compute_nav,
}
use fbyt.Nav.Held.{IsSkipped, IsHeld, Found-cases, holding-IsHeld, holding-IsSkipped}

unfoldable pub total : {D : Type 0} → List (Holding D) → ℤ
total [] = pos 0
total (h ∷ hs) = h.value_micro_usd +ℤ total hs

-- The holdings of a list of mints, in its order: each mint is skipped or held.
pub data Collected (l : Ledger) (vault admin_pool : Text)
    : List Text → List (Holding (Ledger.Double l)) → Type 0 where
  done : Collected l vault admin_pool [] []
  skips :
      {m : Text} {ms : List Text} {hs : List (Holding (Ledger.Double l))}
      → IsSkipped l vault admin_pool m
      → Collected l vault admin_pool ms hs
      → Collected l vault admin_pool (m ∷ ms) hs
  takes :
      {m : Text} {ms : List Text} {h : Holding (Ledger.Double l)}
      {hs : List (Holding (Ledger.Double l))}
      → IsHeld l vault admin_pool m h
      → Collected l vault admin_pool ms hs
      → Collected l vault admin_pool (m ∷ ms) (h ∷ hs)

-- The profit in basis points, rounded toward zero; 0 where nothing was raised.
pub data IsPnl (value : ℤ) (raised : ℕ) : ℤ → Type 0 where
  nothing_raised : raised ≡ 0 → IsPnl value raised (pos 0)
  against_raised :
      0 < raised → IsPnl value raised ((value -ℤ pos raised) *ℤ pos 10_000 /ℤ pos raised)

pnl_of-IsPnl : (value : ℤ) (raised : ℕ) → IsPnl value raised (pnl_of value raised)
unfolding pnl_of
pnl_of-IsPnl value zero = nothing_raised refl
pnl_of-IsPnl value (suc n) = against_raised (omega arith)

got_eq {ℓ} : {A : Type ℓ} {a b : A} → got a ≡ got b → a ≡ b
got_eq e = cc

plus_nothing : (a : ℤ) → a +ℤ pos 0 ≡ a
plus_nothing a = eq_of_parts _ _ (omega (arith, +ℤ_parts a (pos 0)))

nothing_plus : (a : ℤ) → pos 0 +ℤ a ≡ a
nothing_plus a = eq_of_parts _ _ (omega (arith, +ℤ_parts (pos 0) a))

plus_assoc : (a b c : ℤ) → (a +ℤ b) +ℤ c ≡ a +ℤ (b +ℤ c)
plus_assoc a b c =
    eq_of_parts _ _
      (omega (arith, +ℤ_parts (a +ℤ b) c, +ℤ_parts a b, +ℤ_parts a (b +ℤ c), +ℤ_parts b c))

module _ (l : Ledger) (vault admin_pool : Text) where
  open l use {Double}

  -- What the loop adds to what it was given.
  Adds : List Text → List (Holding Double) → ℤ → List (Holding Double) → ℤ → Type 0
  Adds ms hs z out w =
      (new : List (Holding Double)) × Collected l vault admin_pool ms new
      × (out ≡ hs ++ new)
      × (w ≡ z +ℤ total new)

  loop-Adds :
      (ms : List Text) (hs : List (Holding Double)) (z : ℤ) (out : List (Holding Double)) (w : ℤ)
      → nav_loop l vault admin_pool ms hs z ≡ got (out, w)
      → Adds ms hs z out w
  unfolding nav_loop Adds total
  loop-Adds [] hs z out w e = (
    [],
    done,
    ground (arith, e, append-nil hs),
    sym (ap (λ (q : List (Holding Double) × ℤ). q.1) (got_eq e)) ∙ sym (plus_nothing z),
  )
  loop-Adds (m ∷ ms) hs z out w e = elim (Found-cases (holding_of l vault admin_pool m)) [
    | inl x ↦ absurd (ground (arith, x, e))
    | inr (inl x) ↦
        let (new, c, o, v) = loop-Adds ms hs z out w (ground (arith, x, e)) in
        (new, skips (holding-IsSkipped l vault admin_pool m x) c, o, v)
    | inr (inr (h, x)) ↦
        let (new, c, o, v) =
          loop-Adds ms (hs ++ (h ∷ [])) (z +ℤ h.value_micro_usd) out w (ground (arith, x, e)) in
        (
          h ∷ new,
          takes (holding-IsHeld l vault admin_pool m h x) c,
          o ∙ append_assoc hs (h ∷ []) new,
          v ∙ plus_assoc z h.value_micro_usd (total new),
        )
  ]

-- What an answer of `computeNav` is made of.
pub record IsNav (l : Ledger) (vault : Text) (n : Nav (Ledger.Double l)) : Type 0 where
  pub pool : Pool
  pub registry : Option (List Text)
  pub stored : l.vault_pool vault ≡ got (some pool)
  pub listed : l.asset_mints vault ≡ got registry
  pub collected :
      Collected l vault pool.admin_pool (set_of (pool.token_mint ∷ registered registry)) n.holdings
  pub sum : n.nav_micro_usd ≡ total n.holdings
  pub raised : n.raised_micro_usd ≡ pool.raised_amount_usd
  pub pnl : IsPnl (total n.holdings) pool.raised_amount_usd n.pnl_bps

Got-cases {ℓ} : {A : Type ℓ} (r : Read A) → (r ≡ threw) ⊎ ((a : A) × (r ≡ got a))
Got-cases threw = inl refl
Got-cases (got a) = inr (a, refl)

module _ (l : Ledger) (vault : Text) where
  open l use {Double}

  pool-IsNav :
      (d : Pool) (n : Nav Double)
      → l.vault_pool vault ≡ got (some d)
      → nav_of_pool l vault d ≡ got (some n)
      → IsNav l vault n
  unfolding nav_of_pool Adds
  pool-IsNav d n p e = elim (Got-cases (l.asset_mints vault)) [
    | inl x ↦ absurd (ground (arith, x, e))
    | inr (r, x) ↦
        let mints = distinct_mints (d.token_mint ∷ registered r) in
        elim (Got-cases (nav_loop l vault d.admin_pool mints [] (pos 0))) [
          | inl y ↦ absurd (ground (arith, x, y, e))
          | inr ((hs, z), y) ↦
              let (new, c, o, w) = loop-Adds l vault d.admin_pool mints [] (pos 0) hs z y in
              let all : hs ≡ new = o in
              let value : z ≡ total new = w ∙ nothing_plus (total new) in
              let same : record {
                nav_micro_usd = z;
                raised_micro_usd = d.raised_amount_usd;
                pnl_bps = pnl_of z d.raised_amount_usd;
                holdings = hs;
              }
                  ≡ n =
                ground (arith, x, y, e) in
              subst (IsNav l vault) same (record {
                pool = d;
                registry = r;
                stored = p;
                listed = x;
                collected = rw all (
                    subst (λ (ms : List Text). Collected l vault d.admin_pool ms new)
                      (distinct_mints-set_of (d.token_mint ∷ registered r)) c);
                sum = rw all value;
                raised = refl;
                pnl =
                    subst (λ (v : ℤ). IsPnl v d.raised_amount_usd (pnl_of z d.raised_amount_usd))
                      (rw all value) (pnl_of-IsPnl z d.raised_amount_usd);
              })
        ]
  ]

  -- When `computeNav` gives a value, the vault is on the chain, and the holdings are those of the
  -- distinct mints of its token and its registry, in this order. A mint is left out only if its balance is
  -- absent or zero, or if it has no oracle or no price; each holding has the amount and decimals of a
  -- balance that is not zero, and the value amount * price * 10^(6 + expo - decimals), rounded toward zero.
  -- The value of the vault is the sum of these, and the profit is that sum less what was raised, in parts
  -- of 10,000 of what was raised.
  pub compute_nav-IsNav : (n : Nav Double) → compute_nav l vault ≡ got (some n) → IsNav l vault n
  unfolding compute_nav
  compute_nav-IsNav n e = elim (Found-cases (l.vault_pool vault)) [
    | inl x ↦ absurd (ground (arith, x, e))
    | inr (inl x) ↦ absurd (ground (arith, x, e))
    | inr (inr (d, x)) ↦ pool-IsNav d n x (ground (arith, x, e))
  ]
