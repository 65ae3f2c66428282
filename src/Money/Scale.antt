-- ===== src/Money/Scale.antt =====
-- Products of `bigint` with powers of ten, as the NAV and the keeper form them.
use fbyt.Base.{ℕ, suc, ◌+◌, ◌*◌, ◌/◌, ◌^◌, ◌≤◌, ◌<◌, ◌≡◌, refl, arith}
use fbyt.Base.Int.{ℤ, pos, negsuc, ◌*ℤ◌, ◌/ℤ◌}

-- x * 10n ** BigInt(shift), or x / 10n ** BigInt(-shift) for a negative shift.
unfoldable pub scale : ℤ → ℤ → ℤ
scale x (pos n) = x *ℤ pos (10 ^ n)
scale x (negsuc n) = x /ℤ pos (10 ^ suc n)

-- The same on numbers.
unfoldable pub scale_ℕ : ℕ → ℤ → ℕ
scale_ℕ x (pos n) = x * 10 ^ n
scale_ℕ x (negsuc n) = x / 10 ^ suc n

pub scale-pos : (x : ℕ) (e : ℤ) → scale (pos x) e ≡ pos (scale_ℕ x e)
unfolding scale scale_ℕ ◌*ℤ◌ ◌/ℤ◌
scale-pos x (pos n) = refl
scale-pos x (negsuc n) = refl

-- A quotient times its divisor does not pass the dividend, and misses it by less than the divisor.
pub div_bounds : (a b : ℕ) → 0 < b → (a / b * b ≤ a) × (a < (a / b + 1) * b)
div_bounds a b h = grind arith
