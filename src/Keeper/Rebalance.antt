-- ===== src/Keeper/Rebalance.antt =====
-- A rebalance sells the side that is above its target, and never sells past the target.
use fbyt.Base.{
  ℕ, zero, suc, ◌+◌, ◌-◌, ◌*◌, ◌/◌, ◌≤◌, ◌<◌, ◌≡◌, refl, ◌∙◌, ◌⊎◌, inl, inr, Bool, true, false,
  arith, Option, some, if◌then◌else◌, Bool-cases, ltb, lt→ltb, le→ltb, subst,
}
use fbyt.Base.Int.{ℤ, pos, ◌*ℤ◌, ◌/ℤ◌, ◌+ℤ◌, ◌-ℤ◌}
use fbyt.Money.Scale.{div_bounds}
use fbyt.Keeper.Strategy.{
  Leg, usd, trade_size, nothing, sell_a, sell_b, target_of, is_zero, side_of, rebalance_side,
}

-- A leg whose balance is not negative, with a positive price.
abbrev pub leg : ℕ → ℕ → ℕ → Leg
leg balance price power = record { balance = pos balance; price = pos price; power = pos power }

-- The same amounts on numbers.
unfoldable pub worth : ℕ → ℕ → ℕ → ℕ
worth balance price power = balance * price / power

unfoldable pub size_of : ℕ → ℕ → ℕ → ℕ → ℕ
size_of excess price power cap =
    let size = excess * power / price in if ltb cap size then cap else size

usd-pos : (n p w : ℕ) → usd (leg n p w) ≡ pos (worth n p w)
unfolding usd worth ◌*ℤ◌ ◌/ℤ◌
usd-pos n p w = refl

trade_size-pos :
    (x n p w cap : ℕ)
    → 0 < p
    → trade_size (pos x) (leg n p w) (pos cap) ≡ some (pos (size_of x p w cap))
unfolding trade_size size_of ◌*ℤ◌ ◌/ℤ◌
trade_size-pos x n zero w cap h = absurd (omega arith)
trade_size-pos x n (suc p) w cap h = ground arith

-- What a whole number of base units is worth does not pass the excess.
capped : (c y p z : ℕ) → c < y → y * p ≤ z → c * p ≤ z
capped c y p z h k = grind arith

mul_mono : (a b c : ℕ) → b ≤ c → a * b ≤ a * c
mul_mono a b c h = grind arith

size_of_bound :
    (x p w cap : ℕ) → 0 < p → (size_of x p w cap ≤ cap) × (size_of x p w cap * p ≤ x * w)
unfolding size_of
size_of_bound x p w cap h =
    let (low, _) = div_bounds (x * w) p h in
    elim (Bool-cases (ltb cap (x * w / p))) [
      | inl e ↦ rw e (omega arith, capped cap (x * w / p) p (x * w) (ground arith) low)
      | inr e ↦ rw e (ground arith, low)
    ]

minus-pos : (a b : ℕ) → b ≤ a → pos a -ℤ pos b ≡ pos (a - b)
unfolding ◌-ℤ◌
minus-pos a b h = ground arith

is_zero-pos : (n : ℕ) → 0 < n → is_zero (pos n) ≡ false
is_zero-pos zero h = absurd (omega arith)
is_zero-pos (suc n) h = refl

left_over :
    (va vb target : ℕ) → va ≤ target → target ≤ va + vb → vb - (va + vb - target) ≡ target - va
left_over va vb target k h = omega arith

side-above :
    (va vb target sa : ℕ) (size_a size_b : ℤ → Option ℤ)
    → target ≤ va + vb
    → size_a (pos (va - target)) ≡ some (pos sa)
    → target < va
    → side_of (pos va) (pos vb) (pos (va + vb)) (pos target) size_a size_b ≡ sell_a (pos sa)
unfolding side_of
side-above va vb target sa size_a size_b h e k =
    rw
      (
        is_zero-pos (va + vb) (omega arith),
        lt→ltb (target + 0) (va + 0) (omega arith),
        minus-pos va target (omega arith),
        e,
      )
      refl

side-below :
    (va vb target sb : ℕ) (size_a size_b : ℤ → Option ℤ)
    → target ≤ va + vb
    → size_b (pos (target - va)) ≡ some (pos sb)
    → va < target
    → side_of (pos va) (pos vb) (pos (va + vb)) (pos target) size_a size_b ≡ sell_b (pos sb)
unfolding side_of
side-below va vb target sb size_a size_b h e k =
    rw
      (
        is_zero-pos (va + vb) (omega arith),
        le→ltb (target + 0) (va + 0) (omega arith),
        minus-pos (va + vb) target h,
        lt→ltb (va + vb - target + 0) (vb + 0) (omega arith),
        minus-pos vb (va + vb - target) (omega arith),
        left_over va vb target (omega arith) h,
        e,
      )
      refl

cond_same : (b : Bool) → (if b then nothing else nothing) ≡ nothing
cond_same true = refl
cond_same false = refl

side-level :
    (va vb : ℕ) (size_a size_b : ℤ → Option ℤ)
    → side_of (pos va) (pos vb) (pos (va + vb)) (pos va) size_a size_b ≡ nothing
unfolding side_of
side-level va vb size_a size_b =
    rw
      (
        le→ltb (va + 0) (va + 0) (omega arith),
        minus-pos (va + vb) va (omega arith),
        le→ltb (va + vb - va + 0) (vb + 0) (omega arith),
      )
      (cond_same (is_zero (pos (va + vb))))

share_le : (total bps : ℕ) → bps ≤ 10_000 → total * bps / 10_000 ≤ total
share_le total bps h = omega (arith, mul_mono total bps 10_000 h)

plus-pos : (a b : ℕ) → pos a +ℤ pos b ≡ pos (a + b)
unfolding ◌+ℤ◌
plus-pos a b = ground arith

above-below : (a b : ℕ) → (b < a) ⊎ ((a < b) ⊎ (a ≡ b))
above-below a b = ground arith

target-pos : (total bps : ℕ) → target_of (pos total) (pos bps) ≡ pos (total * bps / 10_000)
unfolding target_of ◌*ℤ◌ ◌/ℤ◌
target-pos total bps = refl

-- What one side may sell: at most the cap, and not worth more than the side is above its target.
abbrev pub Bounded : (excess price power cap : ℕ) → ℕ → Type 0
Bounded excess price power cap n = (n ≤ cap) × (n * price ≤ excess * power)

module _ (na pa wa nb pb wb bps cap : ℕ) where
  abbrev va : ℕ
  va = worth na pa wa

  abbrev vb : ℕ
  vb = worth nb pb wb

  abbrev target : ℕ
  target = (va + vb) * bps / 10_000

  opened :
      rebalance_side (leg na pa wa) (leg nb pb wb) (pos bps) (pos cap)
      ≡ side_of
          (pos va)
          (pos vb)
          (pos (va + vb))
          (pos target)
          (λ x. trade_size x (leg na pa wa) (pos cap))
          (λ x. trade_size x (leg nb pb wb) (pos cap))
  unfolding rebalance_side
  opened = rw (usd-pos na pa wa, usd-pos nb pb wb, plus-pos va vb, target-pos (va + vb) bps) refl

  within : bps ≤ 10_000 → target ≤ va + vb
  within h = share_le (va + vb) bps h

  -- With positive prices and a target share of at most 100 %, a rebalance of two balances sells the
  -- first asset exactly when its value is above its target, the second exactly when the value of the
  -- first is below it, and otherwise nothing. What is sold does not pass the cap, and is not worth more
  -- than the distance to the target, so that no rebalance overshoots. A value is amount * price, rounded
  -- down by the price's exponent: the decimals of the mints are not read.
  pub rebalance_moves :
      0 < pa
      → 0 < pb
      → bps ≤ 10_000
      → let side = rebalance_side (leg na pa wa) (leg nb pb wb) (pos bps) (pos cap) in
        ((target < va) × (n : ℕ) × (side ≡ sell_a (pos n)) × Bounded (va - target) pa wa cap n)
        ⊎ (((va < target) × (n : ℕ) × (side ≡ sell_b (pos n)) × Bounded (target - va) pb wb cap n)
            ⊎ ((va ≡ target) × (side ≡ nothing)))
  rebalance_moves ha hb hc = elim (above-below va target) [
    | inl k ↦
        let n = size_of (va - target) pa wa cap in
        inl (
          k,
          n,
          opened
              ∙ side-above va vb target n _ _ (within hc)
                  (trade_size-pos (va - target) na pa wa cap ha) k,
          size_of_bound (va - target) pa wa cap ha,
        )
    | inr (inl k) ↦
        let n = size_of (target - va) pb wb cap in
        inr (
          inl (
            k,
            n,
            opened
                ∙ side-below va vb target n _ _ (within hc)
                    (trade_size-pos (target - va) nb pb wb cap hb) k,
            size_of_bound (target - va) pb wb cap hb,
          ))
    | inr (inr k) ↦ inr (
        inr (
          k,
          opened
              ∙ subst
                  (λ (t : ℕ).
                    side_of (pos va) (pos vb) (pos (va + vb)) (pos t)
                      (λ x. trade_size x (leg na pa wa) (pos cap))
                      (λ x. trade_size x (leg nb pb wb) (pos cap))
                    ≡ nothing)
                  k (side-level va vb _ _),
        ))
  ]
