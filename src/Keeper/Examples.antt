-- ===== src/Keeper/Examples.antt =====
-- A swap of 10 SOL at 150 dollars into USDC, and a rebalance of 10 SOL and 500 USDC to one half.
use fbyt.Base.{
  some, none, true, List, [], ◌∷◌, codes, length, text_eq, ℕ, ◌+◌, ◌-◌, ◌*◌, ◌/◌, ◌^◌, ◌≤◌, ◌<◌,
  ◌≡◌, refl, ◌⊎◌, arith, subst,
}
use fbyt.Base.Int.{pos, negsuc, ◌*ℤ◌, ◌/ℤ◌, ◌-ℤ◌}
use fbyt.Money.Scale.{scale, scale_ℕ}
use fbyt.Keeper.Trade.{swap, quote, quote_of, scaled_value, with_slippage}
use fbyt.Keeper.Fair.{fair_amount, quote_bounds}
use fbyt.Nav.Ledger.{got}
use fbyt.Json.{Doc, bool, str, end, field, get, truthy}
use fbyt.Db.Sql.{find}
use fbyt.Db.Memory.{memory, Write, table}
use fbyt.Db.Keyed
use fbyt.Db.Keyed.{IsKeyed, step}
use fbyt.Db.Ops.{db_put, db_get, db_all, db_query, db_append, db_update, id_of, merged}
use fbyt.Bots.Routes.{is_str, runs_bot}
use fbyt.Keeper.Market.{Market, Swap, swap_data}
use fbyt.Keeper.Execute.{State, make_context, send_swap, trade, traded, run_dca, run_strategy}
use fbyt.Keeper.Run.{
  snoc, add_bot, by_vault, append_orders, run_patch, run_bot, run_bots, run_vault, run_vaults,
  run_db_mode,
}
use fbyt.Keeper.Changes.{Reach}
use fbyt.Keeper.Reach.{run_db_mode-Reach}
use fbyt.Keeper.Kept.{IsLasting, field_of, run_db_mode-Keeps}
use fbyt.Keeper.Grid.{grid_moves}
use fbyt.Keeper.Strategy.{dca, buy, sell, hold, grid_move, nothing, sell_a, sell_b, rebalance_side}
use fbyt.Keeper.Rebalance.{leg, worth, Bounded, rebalance_moves}

swaps :
    quote
      (pos 10_000_000)
      (record { price = pos 15_000_000_000; expo = negsuc 7 })
      (record { price = pos 100_000_000; expo = negsuc 7 })
      (pos 100)
    ≡ swap (pos 10_000_000) (pos 1_485_000_000)
unfolding quote quote_of scaled_value with_slippage scale ◌*ℤ◌ ◌/ℤ◌ ◌-ℤ◌
swaps = refl

quote_bounds_example :
    let fair = fair_amount 10_000_000 15_000_000_000 100_000_000 (negsuc 7 -ℤ negsuc 7) in
    (n : ℕ) × (pos 10_000_000 ≡ pos 10_000_000)
    × (pos 1_485_000_000 ≡ pos n)
    × (0 < n)
    × (n * 100_000_000 * 10 ^ 6
        ≤ scale_ℕ (10_000_000 * 15_000_000_000 * 10 ^ 6) (negsuc 7 -ℤ negsuc 7))
    × (n * 10_000 ≤ fair * (10_000 - 100))
    × (fair * (10_000 - 100) < (n + 1) * 10_000)
quote_bounds_example =
    quote_bounds 10_000_000 15_000_000_000 100_000_000 100 6 6 (negsuc 7) (negsuc 7)
      (pos 10_000_000) (pos 1_485_000_000) (omega arith) (omega arith) (omega arith) refl swaps

rebalance_moves_example :
    let va = worth 10_000_000 15_000_000_000 100_000_000 in
    let vb = worth 500_000_000 100_000_000 100_000_000 in
    let target = (va + vb) * 5_000 / 10_000 in
    let side =
      rebalance_side
        (leg 10_000_000 15_000_000_000 100_000_000)
        (leg 500_000_000 100_000_000 100_000_000)
        (pos 5_000)
        (pos 2_000_000) in
    ((target < va)
      × (n : ℕ) × (side ≡ sell_a (pos n))
      × Bounded (va - target) 15_000_000_000 100_000_000 2_000_000 n)
    ⊎ (((va < target)
          × (n : ℕ) × (side ≡ sell_b (pos n))
          × Bounded (target - va) 100_000_000 100_000_000 2_000_000 n)
        ⊎ ((va ≡ target) × (side ≡ nothing)))
rebalance_moves_example =
    rebalance_moves 10_000_000 15_000_000_000 100_000_000 500_000_000 100_000_000 100_000_000 5_000
      2_000_000 (omega arith) (omega arith) (omega arith)

grid_moves_example :
    let step = 15_000_000_000 * 100 / 10_000 in
    let result = grid_move (pos 14_800_000_000) (some (pos 15_000_000_000)) (pos 100) in
    ((14_800_000_000 + step ≤ 15_000_000_000) × (result ≡ (buy, pos 14_800_000_000)))
    ⊎ (((15_000_000_000 < 14_800_000_000 + step)
          × (15_000_000_000 + step ≤ 14_800_000_000)
          × (result ≡ (sell, pos 14_800_000_000)))
        ⊎ ((15_000_000_000 < 14_800_000_000 + step)
            × (14_800_000_000 < 15_000_000_000 + step)
            × (result ≡ (hold, pos 15_000_000_000))))
grid_moves_example = grid_moves 14_800_000_000 15_000_000_000 100

-- A market in memory, whose world is the swaps that were sent, and one bot.
abbrev market : Market
market = record {
  World = List Swap;
  accounts_of = λ w v. got (record {
    admin_pool = codes "a";
    trading_delegate = codes "d";
    token_mint = codes "usdc";
    admin = codes "admin";
    max_slippage_bps = pos 100;
  });
  price_of = λ w a m. got (record { price = pos 100_000_000; expo = negsuc 7 });
  balance = λ w v m. pos 0;
  send = λ w sw. (sw ∷ w, got (codes "sig"));
  now = λ w. length w;
  fresh = λ w. (w, codes "k");
  pause = λ n w. w;
  strategy_of = λ b. got (
      dca (record {
        input_mint = codes "usdc";
        output_mint = codes "sol";
        input_amount = pos 1_000_000;
        max_slippage_bps = none;
      }));
  grid_state = λ b. got none;
  print = λ z. codes "1";
}

abbrev bot : Doc
bot = field "id" (str (codes "b1")) (
    field "vault" (str (codes "v1"))
      (field "delegate" (str (codes "d")) (field "enabled" (bool true) end)))

abbrev idle : State (List Swap) (List Write)
idle = record { world = []; db = Write.put "bots" (codes "b1") bot ∷ [] }

-- The run sends the bot's swap.
trades :
    (run_db_mode market memory (codes "d") idle).world
    ≡ record {
      vault = codes "v1";
      admin_pool = codes "a";
      admin = codes "admin";
      trader = codes "d";
      token_mint = codes "usdc";
      input_mint = codes "usdc";
      output_mint = codes "sol";
      route_data = swap_data (pos 1_000_000) (pos 990_000);
    }
      ∷ []
unfolding run_db_mode run_vaults run_vault make_context run_bots run_bot run_strategy run_dca traded
    trade send_swap quote quote_of scaled_value with_slippage scale ◌*ℤ◌ ◌/ℤ◌ ◌-ℤ◌ append_orders
    run_patch by_vault add_bot snoc runs_bot is_str truthy db_query db_all table text_eq get id_of
    db_append db_update merged db_get find
trades = refl

run_db_mode-Reach_example :
    Reach market memory (codes "d") idle.db idle (run_db_mode market memory (codes "d") idle)
run_db_mode-Reach_example = run_db_mode-Reach market memory (codes "d") idle

owner_lasts : IsLasting "owner"
owner_lasts = record { no_count = refl; no_state = refl; no_time = refl }

nothing-IsKeyed : IsKeyed memory []
unfolding db_get find table
nothing-IsKeyed c i v e = cc

idle_run : Keyed.run memory [] (Keyed.put "bots" bot ∷ []) ≡ idle.db
unfolding Keyed.run step db_put id_of get
idle_run = refl

bot_id : get bot "id" ≡ some (str (id_of bot))
unfolding get id_of
bot_id = refl

idle-IsKeyed : IsKeyed memory idle.db
idle-IsKeyed =
    subst (IsKeyed memory) idle_run
      (Keyed.run-IsKeyed memory [] (Keyed.put "bots" bot ∷ []) (bot_id, tt) nothing-IsKeyed)

run_db_mode-Keeps_example :
    let t = run_db_mode market memory (codes "d") idle in
    (field_of memory t.db (codes "b1") "owner" ≡ field_of memory idle.db (codes "b1") "owner")
    × (db_get memory t.db "users" (codes "u") ≡ db_get memory idle.db "users" (codes "u"))
run_db_mode-Keeps_example =
    run_db_mode-Keeps market memory (codes "d") idle (codes "b1") (codes "u") "owner" "users"
      idle-IsKeyed owner_lasts refl refl
