-- ===== src/Keeper/File.antt =====
-- `runFileConfig` of app/scripts/keeper.ts.
use mathlib.Core.Option
use fbyt.Base.{ℕ, zero, suc, Text, text_eq, Option, none, some, List, [], ◌∷◌, if◌then◌else◌}
use fbyt.Db.Sql.{Sql}
use fbyt.Nav.Ledger.{threw, got}
use fbyt.Keeper.Strategy.{Strategy}
use fbyt.Keeper.Market.{Context, Market}
use fbyt.Keeper.Execute.{State, Part, make_context, run_strategy}

-- Its strategies are read as those of a bot. A number of ticks that is negative counts as 0.
pub record FileConfig : Type 0 where
  pub vault : Text
  pub interval_sec : Option ℕ
  pub ticks : Option ℕ
  pub strategies : List Strategy

module _ (mk : Market) (sql : Sql) where
  open mk use {World, pause}
  open sql use {Db}

  -- An exception of a strategy is caught.
  unfoldable pub run_strategies : Context → Text → List Strategy → State World Db → State World Db
  unfolding run_strategy
  run_strategies ctx delegate [] s = s
  run_strategies ctx delegate (x ∷ xs) s =
      run_strategies ctx delegate xs (run_strategy mk sql ctx delegate x (got none) s).0

  -- `if (t < ticks - 1 && cfg.intervalSec) await sleep(…)`, with the ticks that are left after this one
  unfoldable pub rest_between : ℕ → Option ℕ → State World Db → State World Db
  rest_between (suc left) (some (suc sec)) s = record s { world = pause (suc sec) s.world }
  rest_between left interval s = s

  unfoldable pub run_ticks : Context → Text → FileConfig → ℕ → State World Db → State World Db
  unfolding run_strategies rest_between
  run_ticks ctx delegate cfg zero s = s
  run_ticks ctx delegate cfg (suc left) s =
      run_ticks ctx delegate cfg left
        (rest_between left cfg.interval_sec (run_strategies ctx delegate cfg.strategies s))

  -- The signer of `delegateKeypair` is `delegate`.
  unfoldable pub run_file_config : Text → FileConfig → Part mk sql (Unit {0})
  unfolding make_context run_ticks
  run_file_config delegate cfg s = elim (make_context mk sql s.world cfg.vault) [
    | threw ↦ (s, threw)
    | got ctx ↦
        if text_eq ctx.accounts.trading_delegate delegate
        then (run_ticks ctx delegate cfg (Option.get_or cfg.ticks 1) s, got tt)
        else (s, threw)
  ]
