-- ===== src/Keeper/Changes.antt =====
-- The changes that a run of app/scripts/keeper.ts may make, and the sequences of them.
use fbyt.Base.{◌≡◌, ◌⊎◌, Text, true, Option}
use fbyt.Base.Int.{ℤ, pos, ◌≤ℤ◌}
use fbyt.Json.{Doc}
use fbyt.Db.Sql.{Sql}
use fbyt.Db.Ops.{db_all}
use fbyt.Db.Laws.{HasDoc}
use fbyt.Bots.Routes.{runs_bot}
use fbyt.Nav.Ledger.{got}
use fbyt.Keeper.Strategy.{Strategy, dca, rebalance, grid}
use fbyt.Keeper.Market.{Accounts, Swap, swap_data, Exec, Market}
use fbyt.Keeper.Execute.{State}
use fbyt.Keeper.Run.{vault_of, append_order, record_run}

-- The mints and the input of a swap are those of a strategy, at most its cap.
abbrev pub Fits : Strategy → Text → Text → ℤ → Type 0
Fits (dca d) from to input = (from ≡ d.input_mint) × (to ≡ d.output_mint) × (input ≡ d.input_amount)
Fits (rebalance r) from to input =
    (((from ≡ r.asset_a) × (to ≡ r.asset_b)) ⊎ ((from ≡ r.asset_b) × (to ≡ r.asset_a)))
    × (input ≤ℤ r.max_trade_amount)
Fits (grid g) from to input =
    (((from ≡ g.quote_mint) × (to ≡ g.base_mint)) ⊎ ((from ≡ g.base_mint) × (to ≡ g.quote_mint)))
    × (input ≡ g.trade_amount)

-- A swap for an enabled bot of the delegate, in a vault that has this delegate on the chain.
pub record IsAllowed (mk : Market) (sql : Sql) (delegate : Text) (d : Sql.Db sql) (sw : Swap)
    : Type 0 where
  pub bot : Doc
  pub strategy : Strategy
  pub world : Market.World mk
  pub accounts : Accounts
  pub input : ℤ
  pub output : ℤ
  pub listed : HasDoc (db_all sql d "bots") bot
  pub runs : runs_bot delegate bot ≡ true
  pub of_bot : mk.strategy_of bot ≡ got strategy
  pub vault : sw.vault ≡ vault_of bot
  pub on_chain : mk.accounts_of world sw.vault ≡ got accounts
  pub delegated : accounts.trading_delegate ≡ delegate
  pub trader : sw.trader ≡ delegate
  pub positive : (pos 1 ≤ℤ input) × (pos 1 ≤ℤ output)
  pub sent : sw.route_data ≡ swap_data input output
  pub fits : Fits strategy sw.input_mint sw.output_mint input

-- An enabled bot of the delegate, as the run found it.
abbrev pub IsRun : (sql : Sql) → Text → Sql.Db sql → Doc → Type 0
IsRun sql delegate d b = HasDoc (db_all sql d "bots") b × (runs_bot delegate b ≡ true)

pub data Change (mk : Market) (sql : Sql) (delegate : Text) (d : Sql.Db sql)
    (s : State (Market.World mk) (Sql.Db sql)) : State (Market.World mk) (Sql.Db sql) → Type 0 where
  swapped :
      (sw : Swap)
      → IsAllowed mk sql delegate d sw
      → Change mk sql delegate d s (record s { world = (mk.send s.world sw).0 })
  ordered :
      (b : Doc) (vault : Text) (e : Exec)
      → IsRun sql delegate d b
      → Change mk sql delegate d s (append_order mk sql b vault e s)
  recorded :
      (b : Doc) (state : Option ℤ)
      → IsRun sql delegate d b
      → Change mk sql delegate d s (record_run mk sql b state s)

pub data Reach (mk : Market) (sql : Sql) (delegate : Text) (d : Sql.Db sql)
    (s : State (Market.World mk) (Sql.Db sql)) : State (Market.World mk) (Sql.Db sql) → Type 0 where
  here : Reach mk sql delegate d s s
  next :
      {t u : State (Market.World mk) (Sql.Db sql)}
      → Reach mk sql delegate d s t
      → Change mk sql delegate d t u
      → Reach mk sql delegate d s u

module _ (mk : Market) (sql : Sql) (delegate : Text) (d : Sql.Db sql) where
  abbrev pub St : Type 0
  St = State (Market.World mk) (Sql.Db sql)

  abbrev pub Reaches : St → St → Type 0
  Reaches = Reach mk sql delegate d

  pub reach_trans : {s t u : St} → Reaches s t → Reaches t u → Reaches s u
  reach_trans p here = p
  reach_trans p (next q c) = next (reach_trans p q) c
