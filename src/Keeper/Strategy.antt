-- ===== src/Keeper/Strategy.antt =====
-- The decisions of `runStrategy` in app/scripts/keeper.ts: what is to be traded, and the grid's state.
use mathlib.Core.Option
use fbyt.Base.{zero, suc, ◌^◌, Bool, true, false, Option, none, some, Text, if◌then◌else◌}
use fbyt.Base.Int.{ℤ, pos, negsuc, ◌*ℤ◌, ◌/ℤ◌, ◌+ℤ◌, ◌-ℤ◌, leb_ℤ, ltb_ℤ}
use fbyt.Money.Account.{PythPrice}

pub record DcaStrategy : Type 0 where
  pub input_mint : Text
  pub output_mint : Text
  pub input_amount : ℤ
  pub max_slippage_bps : Option ℤ

pub record RebalanceStrategy : Type 0 where
  pub asset_a : Text
  pub asset_b : Text
  pub target_a_bps : ℤ
  pub max_trade_amount : ℤ
  pub max_slippage_bps : Option ℤ

pub record GridStrategy : Type 0 where
  pub base_mint : Text
  pub quote_mint : Text
  pub step_bps : ℤ
  pub trade_amount : ℤ
  pub max_slippage_bps : Option ℤ

pub data Strategy : Type 0 where
  dca : DcaStrategy → Strategy
  rebalance : RebalanceStrategy → Strategy
  grid : GridStrategy → Strategy

-- 10n ** BigInt(-expo): a positive exponent is a RangeError.
unfoldable pub power_of : ℤ → Option ℤ
power_of (pos zero) = some (pos 1)
power_of (pos (suc n)) = none
power_of (negsuc n) = some (pos (10 ^ suc n))

-- One side of a rebalance: the balance, its price, and the power of ten.
pub record Leg : Type 0 where
  pub balance : ℤ
  pub price : ℤ
  pub power : ℤ

unfoldable pub leg_of : ℤ → PythPrice → Option Leg
unfolding power_of
leg_of balance p = elim (power_of p.expo) [
  | none ↦ none
  | some w ↦ some (record { balance = balance; price = p.price; power = w })
]

-- `usd`: the power is not 0.
unfoldable pub usd : Leg → ℤ
usd l = l.balance *ℤ l.price /ℤ l.power

-- `((excess) * 10n ** BigInt(-expo)) / price`, capped; a price of 0n throws.
unfoldable pub trade_size : ℤ → Leg → ℤ → Option ℤ
trade_size excess l cap = elim l.price [
  | pos zero ↦ none
  | _ ↦ let size = excess *ℤ l.power /ℤ l.price in some (if ltb_ℤ cap size then cap else size)
]

pub data Side : Type 0 where
  nothing : Side
  sell_a : ℤ → Side
  sell_b : ℤ → Side
  throws : Side

abbrev pub selling : (ℤ → Side) → Option ℤ → Side
selling side none = throws
selling side (some size) = side size

abbrev pub is_zero : ℤ → Bool
is_zero (pos zero) = true
is_zero _ = false

unfoldable pub target_of : ℤ → ℤ → ℤ
target_of total target_bps = total *ℤ target_bps /ℤ pos 10_000

-- The branches, at the values of the two sides, their total and the target of the first.
unfoldable pub side_of : ℤ → ℤ → ℤ → ℤ → (ℤ → Option ℤ) → (ℤ → Option ℤ) → Side
side_of va vb total target size_a size_b =
    if is_zero total
    then nothing
    else if ltb_ℤ target va
    then selling sell_a (size_a (va -ℤ target))
    else if ltb_ℤ (total -ℤ target) vb
    then selling sell_b (size_b (vb -ℤ (total -ℤ target)))
    else nothing

unfoldable pub rebalance_side : Leg → Leg → ℤ → ℤ → Side
rebalance_side a b target_bps cap =
    let total = usd a +ℤ usd b in
    side_of (usd a) (usd b) total (target_of total target_bps) (λ excess. trade_size excess a cap)
      (λ excess. trade_size excess b cap)

-- The grid: buy the base a step below the last price, sell it a step above.
pub data Move : Type 0 where
  buy sell hold : Move

unfoldable pub grid_step : ℤ → ℤ → ℤ
grid_step last step_bps = last *ℤ step_bps /ℤ pos 10_000

-- The move, and the price that is kept in the bot's state.
unfoldable pub grid_move : ℤ → Option ℤ → ℤ → Move × ℤ
unfolding grid_step
grid_move cur state step_bps =
    let last = Option.get_or state cur in
    let step = grid_step last step_bps in
    if leb_ℤ cur (last -ℤ step)
    then (buy, cur)
    else if leb_ℤ (last +ℤ step) cur
    then (sell, cur)
    else (hold, last)
