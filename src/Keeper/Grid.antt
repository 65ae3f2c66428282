-- ===== src/Keeper/Grid.antt =====
-- The grid buys a step below the last price, sells a step above it, and waits in between.
use fbyt.Base.{ℕ, ◌+◌, ◌*◌, ◌/◌, ◌≤◌, ◌<◌, ◌≡◌, refl, ◌⊎◌, inl, inr, some, arith, Bool-cases, leb}
use fbyt.Base.Int.{pos, ◌*ℤ◌, ◌/ℤ◌, ◌+ℤ◌, ◌-ℤ◌, leb_ℤ}
use fbyt.Keeper.Strategy.{buy, sell, hold, grid_step, grid_move}

step-pos : (last bps : ℕ) → grid_step (pos last) (pos bps) ≡ pos (last * bps / 10_000)
unfolding grid_step ◌*ℤ◌ ◌/ℤ◌
step-pos last bps = refl

below : (cur last step : ℕ) → leb_ℤ (pos cur) (pos last -ℤ pos step) ≡ leb (cur + step) last
unfolding ◌-ℤ◌
below cur last step = ground arith

above : (cur last step : ℕ) → leb_ℤ (pos last +ℤ pos step) (pos cur) ≡ leb (last + step) cur
unfolding ◌+ℤ◌
above cur last step = ground arith

-- With a step of `bps` ten-thousandths of the last price: the grid buys exactly where the price has fallen
-- by a step or more, sells where it has risen by a step or more, and keeps the current price then;
-- otherwise it waits and keeps the last price.
pub grid_moves :
    (cur last bps : ℕ)
    → let step = last * bps / 10_000 in
      let result = grid_move (pos cur) (some (pos last)) (pos bps) in
      ((cur + step ≤ last) × (result ≡ (buy, pos cur)))
      ⊎ (((last < cur + step) × (last + step ≤ cur) × (result ≡ (sell, pos cur)))
          ⊎ ((last < cur + step) × (cur < last + step) × (result ≡ (hold, pos last))))
unfolding grid_move
grid_moves cur last bps =
    let step = last * bps / 10_000 in
    elim (Bool-cases (leb (cur + step) last)) [
      | inl e ↦ inl (ground (arith, e), rw (step-pos last bps, below cur last step, e) refl)
      | inr e ↦ elim (Bool-cases (leb (last + step) cur)) [
        | inl f ↦ inr (
            inl (
              ground (arith, e),
              ground (arith, f),
              rw (step-pos last bps, below cur last step, e, above cur last step, f) refl,
            ))
        | inr f ↦ inr (
            inr (
              ground (arith, e),
              ground (arith, f),
              rw (step-pos last bps, below cur last step, e, above cur last step, f) refl,
            ))
      ]
    ]
