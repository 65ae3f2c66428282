-- ===== src/Keeper/Reach.antt =====
-- The run of the keeper over its bots as a sequence of changes, each of which is allowed.
use fbyt.Base.{
  ◌≡◌, inl, inr, refl, Text, text_eq, text_eq_iff, true, List, [], ◌∷◌, filterb, Bool-cases,
}
use fbyt.Json.{Doc}
use fbyt.Db.Sql.{Sql}
use fbyt.Db.Ops.{db_all, db_query}
use fbyt.Db.Laws.{HasDoc}
use fbyt.Bots.Routes.{runs_bot}
use fbyt.Nav.Ledger.{got}
use fbyt.Keeper.Market.{Context, Exec, Market}
use fbyt.Keeper.Execute.{State, make_context, run_strategy}
use fbyt.Keeper.Run.{
  Group, vault_of, snoc, add_bot, by_vault, append_order, append_orders, run_bot, run_bots,
  run_vault, run_vaults, run_db_mode,
}
use fbyt.Keeper.Changes.{IsRun, ordered, recorded, Reach, here, next, reach_trans}
use fbyt.Keeper.Swaps.{Read-cases, Duty, strategy-Reach}

abbrev Each : (Doc → Type 0) → List Doc → Type 0
Each P [] = Unit
Each P (x ∷ xs) = P x × Each P xs

module _ (mk : Market) (sql : Sql) (delegate : Text) (d : Sql.Db sql) where
  abbrev St : Type 0
  St = State (Market.World mk) (Sql.Db sql)

  abbrev Reaches : St → St → Type 0
  Reaches = Reach mk sql delegate d

  orders-Reach :
      (bot : Doc) (vault : Text) (es : List Exec) (s : St)
      → IsRun sql delegate d bot
      → Reaches s (append_orders mk sql bot vault es s)
  unfolding append_orders
  orders-Reach bot vault [] s h = here
  orders-Reach bot vault (e ∷ es) s h =
      reach_trans mk sql delegate d (next here (ordered bot vault e h))
        (orders-Reach bot vault es (append_order mk sql bot vault e s) h)

  -- A context that was read for the vault of listed bots.
  abbrev IsContext : Context → Type 0
  IsContext ctx =
      (w : Market.World mk) × (mk.accounts_of w ctx.vault ≡ got ctx.accounts)
      × (ctx.accounts.trading_delegate ≡ delegate)

  abbrev IsListed : Text → Doc → Type 0
  IsListed vault b =
      HasDoc (db_all sql d "bots") b × (runs_bot delegate b ≡ true) × (vault ≡ vault_of b)

  bot-Reach :
      (ctx : Context) (b : Doc) (s : St)
      → IsContext ctx
      → IsListed ctx.vault b
      → Reaches s (run_bot mk sql ctx delegate ctx.vault b s)
  unfolding run_bot
  bot-Reach ctx b s (w, there, same) (listed, runs, v) = elim (Read-cases (mk.strategy_of b)) [
    | inl e ↦ rw (e, run_bot) here
    | inr (st, e) ↦
        let duty : Duty mk sql delegate d b ctx = record {
          strategy = st;
          world = w;
          listed = listed;
          runs = runs;
          of_bot = e;
          vault = v;
          on_chain = there;
          delegated = same;
        } in
        let ran = run_strategy mk sql ctx delegate st (mk.grid_state b) s in
        let reached = strategy-Reach mk sql delegate d b ctx duty st (mk.grid_state b) s refl in
        elim (Read-cases ran.1) [
          | inl f ↦ rw (e, f, run_bot) reached
          | inr (o, f) ↦
              rw (e, f, run_bot)
                (next
                  (reach_trans mk sql delegate d reached
                    (orders-Reach b ctx.vault o.execs ran.0 (listed, runs)))
                  (recorded b o.state (listed, runs)))
        ]
  ]

  bots-Reach :
      (ctx : Context) (bs : List Doc) (s : St)
      → IsContext ctx
      → Each (IsListed ctx.vault) bs
      → Reaches s (run_bots mk sql ctx delegate ctx.vault bs s)
  unfolding run_bots
  bots-Reach ctx [] s c h = here
  bots-Reach ctx (b ∷ bs) s c (h, hs) =
      reach_trans mk sql delegate d (bot-Reach ctx b s c h)
        (bots-Reach ctx bs (run_bot mk sql ctx delegate ctx.vault b s) c hs)

  vault-Reach :
      (v : Text) (bs : List Doc) (s : St)
      → Each (IsListed v) bs
      → Reaches s (run_vault mk sql delegate (v, bs) s)
  unfolding run_vault make_context
  vault-Reach v bs s h = elim (Read-cases (mk.accounts_of s.world v)) [
    | inl e ↦ rw (e, run_vault, make_context) here
    | inr (a, e) ↦
        let ctx : Context = record { vault = v; accounts = a } in
        elim (Bool-cases (text_eq a.trading_delegate delegate)) [
          | inl f ↦
              rw (e, f, run_vault, make_context)
                (bots-Reach ctx bs s (s.world, e, (text_eq_iff a.trading_delegate delegate).0 f) h)
          | inr f ↦ rw (e, f, run_vault, make_context) here
        ]
  ]

  abbrev AreListed : List Group → Type 0
  AreListed [] = Unit
  AreListed ((v, bs) ∷ gs) = Each (IsListed v) bs × AreListed gs

  vaults-Reach :
      (gs : List Group) (s : St) → AreListed gs → Reaches s (run_vaults mk sql delegate gs s)
  unfolding run_vaults
  vaults-Reach [] s h = here
  vaults-Reach ((v, bs) ∷ gs) s (h, hs) =
      reach_trans mk sql delegate d (vault-Reach v bs s h)
        (vaults-Reach gs (run_vault mk sql delegate (v, bs) s) hs)

  Each-snoc :
      (v : Text) (bs : List Doc) (b : Doc)
      → Each (IsListed v) bs
      → IsListed v b
      → Each (IsListed v) (snoc bs b)
  unfolding snoc
  Each-snoc v [] b h k = (k, tt)
  Each-snoc v (x ∷ xs) b (h, hs) k = (h, Each-snoc v xs b hs k)

  abbrev IsBot : Doc → Type 0
  IsBot b = HasDoc (db_all sql d "bots") b × (runs_bot delegate b ≡ true)

  add_bot-AreListed :
      (gs : List Group) (b : Doc) → AreListed gs → IsBot b → AreListed (add_bot gs b)
  unfolding add_bot
  add_bot-AreListed [] b h (m, r) = (((m, r, refl), tt), tt)
  add_bot-AreListed ((v, bs) ∷ gs) b (h, hs) (m, r) = elim (Bool-cases (text_eq v (vault_of b))) [
    | inl e ↦ rw (e, add_bot) (Each-snoc v bs b h (m, r, (text_eq_iff v (vault_of b)).0 e), hs)
    | inr e ↦ rw (e, add_bot) (h, add_bot-AreListed gs b hs (m, r))
  ]

  by_vault-AreListed :
      (gs : List Group) (bs : List Doc) → AreListed gs → Each IsBot bs → AreListed (by_vault gs bs)
  unfolding by_vault
  by_vault-AreListed gs [] h k = h
  by_vault-AreListed gs (b ∷ bs) h (k, ks) =
      by_vault-AreListed (add_bot gs b) bs (add_bot-AreListed gs b h k) ks

  filterb-IsBot :
      (bs : List Doc)
      → ((b : Doc) → HasDoc bs b → HasDoc (db_all sql d "bots") b)
      → Each IsBot (filterb (runs_bot delegate) bs)
  filterb-IsBot [] f = tt
  filterb-IsBot (b ∷ bs) f =
      let rest = filterb-IsBot bs (λ x h. f x (inr h)) in
      elim (Bool-cases (runs_bot delegate b)) [
        | inl e ↦ rw e ((f b (inl refl), e), rest)
        | inr e ↦ rw e rest
      ]

-- A run of the keeper in its database mode is a sequence of changes, and each is one of these: a swap, of
-- positive amounts and with the mints and within the limit of the strategy of a listed, enabled bot of the
-- delegate, in that bot's vault, whose delegate on the chain is the keeper; an order that is appended for
-- such a bot; or a recorded run of such a bot. Whatever throws in between, nothing else happens.
pub run_db_mode-Reach :
    (mk : Market) (sql : Sql) (delegate : Text) (s : State (Market.World mk) (Sql.Db sql))
    → Reach mk sql delegate s.db s (run_db_mode mk sql delegate s)
unfolding run_db_mode db_query
run_db_mode-Reach mk sql delegate s =
    vaults-Reach mk sql delegate s.db (by_vault [] (db_query sql s.db "bots" (runs_bot delegate))) s
      (by_vault-AreListed mk sql delegate s.db [] (db_query sql s.db "bots" (runs_bot delegate)) tt
        (filterb-IsBot mk sql delegate s.db (db_all sql s.db "bots") (λ b h. h)))
