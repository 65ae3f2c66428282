-- ===== src/Keeper/Fair.antt =====
-- The keeper never asks for less than the slippage allows, nor for more than the oracles say.
use fbyt.Base.{
  ℕ, zero, suc, ◌+◌, ◌-◌, ◌*◌, ◌/◌, ◌^◌, ◌≤◌, ◌<◌, ◌≡◌, refl, ap, ◌∙◌, arith, sym, dec_lt,
}
use fbyt.Base.Int.{ℤ, pos, negsuc, ◌*ℤ◌, ◌/ℤ◌, ◌-ℤ◌}
use fbyt.Money.Scale.{scale_ℕ, scale-pos, div_bounds}
use fbyt.Keeper.Trade.{swap, quote, quote_of, with_slippage, scaled_value}

-- The amounts on numbers.
unfoldable pub fair_amount : ℕ → ℕ → ℕ → ℤ → ℕ
fair_amount input p q shift = scale_ℕ (input * p) shift / q

unfoldable pub min_output : ℕ → ℕ → ℕ
min_output fair m = fair * (10_000 - m) / 10_000

slippage-pos :
    (fair m : ℕ) → m ≤ 10_000 → with_slippage (pos fair) (pos m) ≡ pos (min_output fair m)
unfolding with_slippage ◌-ℤ◌ ◌*ℤ◌ ◌/ℤ◌ min_output
slippage-pos fair m h = ground arith

scaled-pos :
    (input p q : ℕ) (e f : ℤ)
    → scaled_value
          (pos input)
          (record { price = pos p; expo = e })
          (record { price = pos q; expo = f })
        /ℤ pos q
      ≡ pos (fair_amount input p q (e -ℤ f))
unfolding scaled_value fair_amount ◌*ℤ◌
scaled-pos input p q e f =
    ap (λ (x : ℤ). x /ℤ pos q) (scale-pos (input * p) (e -ℤ f)) ∙ (unfold ◌/ℤ◌ in refl)

quote-pos :
    (input p q m : ℕ) (e f : ℤ)
    → 0 < input
    → 0 < q
    → m ≤ 10_000
    → quote
        (pos input)
        (record { price = pos p; expo = e })
        (record { price = pos q; expo = f })
        (pos m)
      ≡ quote_of (pos input) (pos (min_output (fair_amount input p q (e -ℤ f)) m))
unfolding quote
quote-pos input p zero m e f hi hq hm = absurd (omega arith)
quote-pos input p (suc q) m e f hi hq hm = ground (
  arith,
  scaled-pos input p (suc q) e f,
  slippage-pos (fair_amount input p (suc q) (e -ℤ f)) m hm,
)

mul_mono : (a b c : ℕ) → b ≤ c → a * b ≤ a * c
mul_mono a b c h = grind arith

less_of_fair : (fair m : ℕ) → fair * (10_000 - m) ≤ fair * 10_000
less_of_fair fair m = mul_mono fair (10_000 - m) 10_000 (omega arith)

quote_of-swap :
    (a n : ℕ) (i o : ℤ) → quote_of (pos a) (pos n) ≡ swap i o → (i ≡ pos a) × (o ≡ pos n) × (0 < n)
unfolding quote_of
quote_of-swap a n i o h = ground arith

min_output_bounds :
    (fair m : ℕ)
    → (min_output fair m * 10_000 ≤ fair * (10_000 - m))
      × (fair * (10_000 - m) < (min_output fair m + 1) * 10_000)
      × (min_output fair m ≤ fair)
unfolding min_output
min_output_bounds fair m = (omega arith, omega arith, omega (arith, less_of_fair fair m))

fair_bound :
    (input p q : ℕ) (shift : ℤ)
    → 0 < q
    → fair_amount input p q shift * q ≤ scale_ℕ (input * p) shift
unfolding fair_amount
fair_bound input p q shift h = (div_bounds (scale_ℕ (input * p) shift) q h).0

worth : (n fair q v : ℕ) → n ≤ fair → fair * q ≤ v → n * q ≤ v
worth n fair q v h k = grind arith

mul_mono_left : (a b c : ℕ) → a ≤ b → a * c ≤ b * c
mul_mono_left a b c h = grind arith

pow_pos : (n : ℕ) → 0 < 10 ^ n
pow_pos zero = omega arith
pow_pos (suc n) = omega (arith, pow_pos n)

le_div : (a b k : ℕ) → 0 < k → a * k ≤ b → a ≤ b / k
le_div a b k h e = elim (dec_lt (b / k) a) [
  | yes l ↦
      absurd
        (omega (arith, e, (div_bounds b k h).1, mul_mono_left (b / k + 1) a k (omega (arith, l))))
  | no n ↦ omega arith
]

div_mul : (x k d : ℕ) → 0 < d → x / d * k ≤ x * k / d
div_mul x k d h =
    le_div (x / d * k) (x * k) d h
      (grind (arith, mul_mono_left (x / d * d) x k (div_bounds x d h).0))

-- A common factor of both sides passes through the shift.
scale_ℕ-mul : (x k : ℕ) (e : ℤ) → scale_ℕ x e * k ≤ scale_ℕ (x * k) e
unfolding scale_ℕ
scale_ℕ-mul x k (pos n) = grind arith
scale_ℕ-mul x k (negsuc n) = div_mul x k (10 ^ suc n) (pow_pos (suc n))

worth_decimals :
    (n q x d : ℕ) (e : ℤ) → n * q ≤ scale_ℕ x e → n * q * 10 ^ d ≤ scale_ℕ (x * 10 ^ d) e
worth_decimals n q x d e h =
    omega (arith, mul_mono_left (n * q) (scale_ℕ x e) (10 ^ d) h, scale_ℕ-mul x (10 ^ d) e)

-- With positive prices, a slippage of at most 100 % and two mints of the same number of decimals, `da`
-- and `db`: a swap sends the amount that was asked for, wants a positive output that is worth no more
-- than the input at the oracle prices, and wants the largest whole amount that the slippage leaves of
-- the fair one. For mints of different decimals nothing is said of the worth: the code does not read them.
pub quote_bounds :
    (input p q m da db : ℕ) (e f : ℤ) (i o : ℤ)
    → 0 < input
    → 0 < q
    → m ≤ 10_000
    → da ≡ db
    → quote
        (pos input)
        (record { price = pos p; expo = e })
        (record { price = pos q; expo = f })
        (pos m)
      ≡ swap i o
    → let fair = fair_amount input p q (e -ℤ f) in
      (n : ℕ) × (i ≡ pos input)
      × (o ≡ pos n)
      × (0 < n)
      × (n * q * 10 ^ da ≤ scale_ℕ (input * p * 10 ^ db) (e -ℤ f))
      × (n * 10_000 ≤ fair * (10_000 - m))
      × (fair * (10_000 - m) < (n + 1) * 10_000)
quote_bounds input p q m da db e f i o hi hq hm same h =
    let fair = fair_amount input p q (e -ℤ f) in
    let n = min_output fair m in
    let (b0, b1, b2) = min_output_bounds fair m in
    let (hi', ho, hn) = quote_of-swap input n i o (sym (quote-pos input p q m e f hi hq hm) ∙ h) in
    let w = worth n fair q _ b2 (fair_bound input p q (e -ℤ f) hq) in
    (n, hi', ho, hn, rw same (worth_decimals n q (input * p) db (e -ℤ f) w), b0, b1)
