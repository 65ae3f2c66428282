-- ===== src/Keeper/Trade.antt =====
-- The amounts of `trade` in app/scripts/keeper.ts. The transaction that follows is I/O.
use fbyt.Base.{zero, if◌then◌else◌}
use fbyt.Base.Int.{ℤ, pos, ◌*ℤ◌, ◌/ℤ◌, ◌-ℤ◌, leb_ℤ}
use fbyt.Money.Account.{PythPrice}
use fbyt.Money.Scale.{scale}

-- `null`, a swap with its amounts, or the exception of a division by 0n.
pub data Quote : Type 0 where
  skip : Quote
  swap : ℤ → ℤ → Quote
  divides_by_zero : Quote

-- The value of the input in units of the output, at the oracle prices.
unfoldable pub scaled_value : ℤ → PythPrice → PythPrice → ℤ
unfolding scale
scaled_value input from to = scale (input *ℤ from.price) (from.expo -ℤ to.expo)

-- `(fair * BigInt(10_000 - maxSlippageBps)) / 10_000n`
unfoldable pub with_slippage : ℤ → ℤ → ℤ
with_slippage fair max_slippage_bps = fair *ℤ (pos 10_000 -ℤ max_slippage_bps) /ℤ pos 10_000

unfoldable pub quote_of : ℤ → ℤ → Quote
quote_of input output = if leb_ℤ output (pos 0) then skip else swap input output

unfoldable pub quote : ℤ → PythPrice → PythPrice → ℤ → Quote
quote input from to max_slippage_bps = if leb_ℤ input (pos 0) then skip else elim to.price [
  | pos zero ↦ divides_by_zero
  | _ ↦ quote_of input (with_slippage (scaled_value input from to /ℤ to.price) max_slippage_bps)
]
