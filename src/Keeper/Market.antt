-- ===== src/Keeper/Market.antt =====
-- What app/scripts/keeper.ts reads and sends: the chain, the clock and the conversions of JavaScript, as parameters.
use fbyt.Base.{ℕ, Text, Option, List, [], ◌∷◌}
use fbyt.Base.Int.{ℤ, pos_part}
use fbyt.Json.{Doc}
use fbyt.Money.Account.{PythPrice, concat}
use fbyt.Money.Wire.{le}
use fbyt.Nav.Ledger.{Read}
use fbyt.Keeper.Strategy.{Strategy}

-- What `makeContext` reads of a vault and of the admin pool.
pub record Accounts : Type 0 where
  pub admin_pool : Text
  pub trading_delegate : Text
  pub token_mint : Text
  pub admin : Text
  pub max_slippage_bps : ℤ

pub record Context : Type 0 where
  pub vault : Text
  pub accounts : Accounts

-- What the swap of `trade` is made of. The other accounts of the instruction are derived from these.
pub record Swap : Type 0 where
  pub vault : Text
  pub admin_pool : Text
  pub admin : Text
  pub trader : Text
  pub token_mint : Text
  pub input_mint : Text
  pub output_mint : Text
  pub route_data : List ℕ

-- `concat(le(inputAmount, 8), le(outputAmount, 8))`, of amounts that are not negative
abbrev pub swap_data : ℤ → ℤ → List ℕ
swap_data input output = concat (le (pos_part input) 8 ∷ le (pos_part output) 8 ∷ [])

pub record Exec : Type 0 where
  pub input_mint : Text
  pub output_mint : Text
  pub input_amount : ℤ
  pub output_amount : ℤ
  pub signature : Text

pub record Market : Type 1 where
  pub World : Type 0
  -- fetchVaultPool of the vault, and fetchAdminPool
  pub accounts_of : World → Text → Read Accounts
  -- priceOf of a mint in an admin pool
  pub price_of : World → Text → Text → Read PythPrice
  -- bal of the vault's account for a mint
  pub balance : World → Text → Text → ℤ
  -- sendTransaction, which answers with a signature
  pub send : World → Swap → World × Read Text
  -- Date.now(), and the generated key of an append, which draws a random number
  pub now : World → ℕ
  pub fresh : World → World × Text
  -- sleep, in seconds
  pub pause : ℕ → World → World
  -- b.strategy of a stored bot, its amounts by BigInt and its mints by `address`. The code converts
  -- each where it uses it; here all are converted first, so that a strategy with a text that is no integer
  -- throws in every case.
  pub strategy_of : Doc → Read Strategy
  -- state?.lastGridPrice of a stored bot, by BigInt, which throws on a text that is no integer
  pub grid_state : Doc → Read (Option ℤ)
  -- `${n}`
  pub print : ℤ → Text
