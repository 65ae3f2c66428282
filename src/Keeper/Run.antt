-- ===== src/Keeper/Run.antt =====
-- `runDbMode` of app/scripts/keeper.ts.
use fbyt.Base.{Text, text_eq, Option, none, some, List, [], ◌∷◌, if◌then◌else◌}
use fbyt.Base.Int.{ℤ, pos, ◌+ℤ◌}
use fbyt.Json.{Doc, num, str, obj, end, field, get}
use fbyt.Db.Sql.{Sql}
use fbyt.Db.Ops.{id_of, db_query, db_append, db_update}
use fbyt.Bots.Routes.{runs_bot}
use fbyt.Nav.Ledger.{threw, got}
use fbyt.Keeper.Market.{Context, Exec, Market}
use fbyt.Keeper.Execute.{State, make_context, run_strategy}

abbrev pub vault_of : Doc → Text
vault_of b = elim (get b "vault") [ some (str v) ↦ v | _ ↦ [] ]

-- The bots of a vault, in a Map that keeps the order in which vaults come.
abbrev pub Group : Type 0
Group = Text × List Doc

unfoldable pub snoc {ℓ} : {A : Type ℓ} → List A → A → List A
snoc [] y = y ∷ []
snoc (x ∷ xs) y = x ∷ snoc xs y

unfoldable pub add_bot : List Group → Doc → List Group
unfolding snoc
add_bot [] b = (vault_of b, b ∷ []) ∷ []
add_bot ((v, bs) ∷ gs) b =
    let rest = add_bot gs b in
    if text_eq v (vault_of b) then (v, snoc bs b) ∷ gs else (v, bs) ∷ rest

unfoldable pub by_vault : List Group → List Doc → List Group
unfolding add_bot
by_vault gs [] = gs
by_vault gs (b ∷ bs) = by_vault (add_bot gs b) bs

abbrev pub run_count : Doc → ℤ
run_count b = elim (get b "runCount") [ some (num n) ↦ n +ℤ pos 1 | _ ↦ pos 1 ]

module _ (mk : Market) (sql : Sql) where
  open mk use {
    World, accounts_of, price_of, balance, send, now, fresh, strategy_of, grid_state, print,
  }
  open sql use {Db}

  -- `{ botId: b.id, vault, t: Date.now(), ...e }`
  abbrev pub order_doc : Doc → Text → World → Exec → Doc
  order_doc b vault w e = field "botId" (str (id_of b)) (
      field "vault" (str vault) (
        field "t" (num (pos (now w))) (
          field "inputMint" (str e.input_mint) (
            field "outputMint" (str e.output_mint) (
              field "inputAmount" (str (print e.input_amount)) (
                field "outputAmount" (str (print e.output_amount))
                  (field "signature" (str e.signature) end)))))))

  abbrev pub append_order : Doc → Text → Exec → State World Db → State World Db
  append_order b vault e s =
      let (w, key) = fresh s.world in
      record {
        world = w;
        db = (db_append sql s.db "botOrders" (order_doc b vault s.world e) none key).0;
      }

  unfoldable pub append_orders : Doc → Text → List Exec → State World Db → State World Db
  append_orders b vault [] s = s
  append_orders b vault (e ∷ es) s = append_orders b vault es (append_order b vault e s)

  -- `{ runCount: (b.runCount ?? 0) + 1, ...(state ? { state } : {}), lastRunAt: Date.now() }`
  unfoldable pub run_patch : Doc → Option ℤ → World → Doc
  run_patch b none w =
      field "runCount" (num (run_count b)) (field "lastRunAt" (num (pos (now w))) end)
  run_patch b (some price) w = field "runCount" (num (run_count b)) (
      field "state" (obj (field "lastGridPrice" (str (print price)) end))
        (field "lastRunAt" (num (pos (now w))) end))

  abbrev pub record_run : Doc → Option ℤ → State World Db → State World Db
  record_run b state s = record s {
    db = (db_update sql s.db "bots" (id_of b) (run_patch b state s.world)).0;
  }

  -- One bot: an exception of its strategy is caught, and its run is then not recorded.
  unfoldable pub run_bot : Context → Text → Text → Doc → State World Db → State World Db
  unfolding run_strategy append_orders run_patch
  run_bot ctx delegate vault b s = elim (strategy_of b) [
    | threw ↦ s
    | got strategy ↦
        let (t, r) = run_strategy mk sql ctx delegate strategy (grid_state b) s in
        elim r [ threw ↦ t | got o ↦ record_run b o.state (append_orders b vault o.execs t) ]
  ]

  unfoldable pub run_bots : Context → Text → Text → List Doc → State World Db → State World Db
  unfolding run_bot
  run_bots ctx delegate vault [] s = s
  run_bots ctx delegate vault (b ∷ bs) s =
      run_bots ctx delegate vault bs (run_bot ctx delegate vault b s)

  unfoldable pub run_vault : Text → Group → State World Db → State World Db
  unfolding make_context run_bots
  run_vault delegate (vault, bots) s = elim (make_context mk sql s.world vault) [
    | threw ↦ s
    | got ctx ↦
        if text_eq ctx.accounts.trading_delegate delegate
        then run_bots ctx delegate vault bots s
        else s
  ]

  unfoldable pub run_vaults : Text → List Group → State World Db → State World Db
  unfolding run_vault
  run_vaults delegate [] s = s
  run_vaults delegate (g ∷ gs) s = run_vaults delegate gs (run_vault delegate g s)

  -- The signer of `delegatePath` is `delegate`.
  unfoldable pub run_db_mode : Text → State World Db → State World Db
  unfolding runs_bot by_vault run_vaults
  run_db_mode delegate s =
      run_vaults delegate (by_vault [] (db_query sql s.db "bots" (runs_bot delegate))) s
