-- ===== src/Keeper/Execute.antt =====
-- `trade` and `runStrategy` of app/scripts/keeper.ts.
use mathlib.Core.Option
use fbyt.Base.{Text, Option, none, some, List, [], ◌∷◌, if◌then◌else◌}
use fbyt.Base.Int.{ℤ, pos, leb_ℤ}
use fbyt.Db.Sql.{Sql}
use fbyt.Nav.Ledger.{Read, threw, got}
use fbyt.Keeper.Trade.{Quote, skip, swap, divides_by_zero, quote}
use fbyt.Keeper.Strategy.{
  DcaStrategy, RebalanceStrategy, GridStrategy, Strategy, dca, rebalance, grid, leg_of, nothing,
  sell_a, sell_b, throws, rebalance_side, Side, Leg, buy, sell, hold, Move, grid_move,
}
use fbyt.Keeper.Market.{Context, swap_data, Exec, Market}

-- `if (e) execs.push(e)`
abbrev pub pushed : Option Exec → List Exec
pushed none = []
pushed (some e) = e ∷ []

-- The executions, and `lastGridPrice` of the new state if there is one.
pub record Outcome : Type 0 where
  pub execs : List Exec
  pub state : Option ℤ

-- The chain with everything outside of the keeper, and the store.
pub record State (W D : Type 0) : Type 0 where
  pub world : W
  pub db : D

module _ (mk : Market) (sql : Sql) where
  open mk use {
    World, accounts_of, price_of, balance, send, now, fresh, strategy_of, grid_state, print,
  }
  open sql use {Db}

  -- A part of the run: an exception keeps what was done before it.
  abbrev pub Part : Type 0 → Type 0
  Part A = State World Db → State World Db × Read A

  unfoldable pub make_context : World → Text → Read Context
  make_context w vault = elim (accounts_of w vault) [
    | threw ↦ threw
    | got a ↦ got (record { vault = vault; accounts = a })
  ]

  -- The transaction of `trade`, at the amounts of its quote.
  unfoldable pub send_swap : Context → Text → Text → Text → Quote → Part (Option Exec)
  send_swap ctx delegate input_mint output_mint skip s = (s, got none)
  send_swap ctx delegate input_mint output_mint divides_by_zero s = (s, threw)
  send_swap ctx delegate input_mint output_mint (swap input output) s =
      let (w, r) = send s.world (record {
        vault = ctx.vault;
        admin_pool = ctx.accounts.admin_pool;
        admin = ctx.accounts.admin;
        trader = delegate;
        token_mint = ctx.accounts.token_mint;
        input_mint = input_mint;
        output_mint = output_mint;
        route_data = swap_data input output;
      }) in
      elim r [
        | threw ↦ (record s { world = w }, threw)
        | got signature ↦ (
          record s { world = w },
          got (
              some (record {
                input_mint = input_mint;
                output_mint = output_mint;
                input_amount = input;
                output_amount = output;
                signature = signature;
              })),
        )
      ]

  unfoldable pub trade : Context → Text → Text → Text → ℤ → ℤ → Part (Option Exec)
  unfolding quote send_swap
  trade ctx delegate input_mint output_mint input slip s =
      if leb_ℤ input (pos 0)
      then (s, got none)
      else elim (price_of s.world ctx.accounts.admin_pool input_mint) [
        | threw ↦ (s, threw)
        | got from ↦ elim (price_of s.world ctx.accounts.admin_pool output_mint) [
          | threw ↦ (s, threw)
          | got to ↦ send_swap ctx delegate input_mint output_mint (quote input from to slip) s
        ]
      ]

  -- `const e = await trade(…); if (e) execs.push(e); return { execs, state }`
  unfoldable pub traded : Context → Text → Text → Text → ℤ → ℤ → Option ℤ → Part Outcome
  unfolding trade
  traded ctx delegate input_mint output_mint input slip state s =
      let (t, r) = trade ctx delegate input_mint output_mint input slip s in
      elim r [ threw ↦ (t, threw) | got e ↦ (t, got (record { execs = pushed e; state = state })) ]

  unfoldable pub run_dca : Context → Text → DcaStrategy → Part Outcome
  unfolding traded
  run_dca ctx delegate d s =
      traded ctx delegate d.input_mint d.output_mint d.input_amount
        (Option.get_or d.max_slippage_bps ctx.accounts.max_slippage_bps) none s

  unfoldable pub run_side : Context → Text → RebalanceStrategy → Side → Part Outcome
  unfolding traded
  run_side ctx delegate r nothing s = (s, got (record { execs = []; state = none }))
  run_side ctx delegate r throws s = (s, threw)
  run_side ctx delegate r (sell_a size) s =
      traded ctx delegate r.asset_a r.asset_b size
        (Option.get_or r.max_slippage_bps ctx.accounts.max_slippage_bps) none s
  run_side ctx delegate r (sell_b size) s =
      traded ctx delegate r.asset_b r.asset_a size
        (Option.get_or r.max_slippage_bps ctx.accounts.max_slippage_bps) none s

  -- The two legs of a rebalance: prices and balances, and the powers of ten that `usd` needs.
  unfoldable pub legs_of : World → Context → RebalanceStrategy → Read (Leg × Leg)
  unfolding leg_of
  legs_of w ctx r = elim (price_of w ctx.accounts.admin_pool r.asset_a) [
    | threw ↦ threw
    | got pa ↦ elim (price_of w ctx.accounts.admin_pool r.asset_b) [
      | threw ↦ threw
      | got pb ↦ elim (leg_of (balance w ctx.vault r.asset_a) pa) [
        | none ↦ threw
        | some a ↦ elim (leg_of (balance w ctx.vault r.asset_b) pb) [
          | none ↦ threw
          | some b ↦ got (a, b)
        ]
      ]
    ]
  ]

  unfoldable pub run_rebalance : Context → Text → RebalanceStrategy → Part Outcome
  unfolding legs_of rebalance_side run_side
  run_rebalance ctx delegate r s = elim (legs_of s.world ctx r) [
    | threw ↦ (s, threw)
    | got legs ↦
        run_side ctx delegate r (rebalance_side legs.0 legs.1 r.target_a_bps r.max_trade_amount) s
  ]

  unfoldable pub run_move : Context → Text → GridStrategy → Move × ℤ → Part Outcome
  unfolding traded
  run_move ctx delegate g (buy, kept) s =
      traded ctx delegate g.quote_mint g.base_mint g.trade_amount
        (Option.get_or g.max_slippage_bps ctx.accounts.max_slippage_bps) (some kept) s
  run_move ctx delegate g (sell, kept) s =
      traded ctx delegate g.base_mint g.quote_mint g.trade_amount
        (Option.get_or g.max_slippage_bps ctx.accounts.max_slippage_bps) (some kept) s
  run_move ctx delegate g (hold, kept) s = (s, got (record { execs = []; state = some kept }))

  -- The state is converted once the price is known.
  unfoldable pub run_grid : Context → Text → GridStrategy → Read (Option ℤ) → Part Outcome
  unfolding grid_move run_move
  run_grid ctx delegate g state s = elim (price_of s.world ctx.accounts.admin_pool g.base_mint) [
    | threw ↦ (s, threw)
    | got p ↦ elim state [
      | threw ↦ (s, threw)
      | got last ↦ run_move ctx delegate g (grid_move p.price last g.step_bps) s
    ]
  ]

  unfoldable pub run_strategy : Context → Text → Strategy → Read (Option ℤ) → Part Outcome
  unfolding run_dca run_rebalance run_grid
  run_strategy ctx delegate (dca d) state s = run_dca ctx delegate d s
  run_strategy ctx delegate (rebalance r) state s = run_rebalance ctx delegate r s
  run_strategy ctx delegate (grid g) state s = run_grid ctx delegate g state s
