-- ===== src/Keeper/Swaps.antt =====
-- Each swap of a strategy of app/scripts/keeper.ts is allowed.
use mathlib.Core.Option
use fbyt.Base.{
  ◌≡◌, ◌⊎◌, inl, inr, refl, sym, arith, subst, Text, Bool, true, false, Option, none, some,
  Bool-cases, if◌then◌else◌,
}
use fbyt.Base.Int.{ℤ, pos, ◌≤ℤ◌, leb_ℤ, ltb_ℤ, ◌-ℤ◌, ◌+ℤ◌}
use fbyt.Json.{Doc}
use fbyt.Db.Sql.{Sql}
use fbyt.Db.Ops.{db_all}
use fbyt.Db.Laws.{HasDoc}
use fbyt.Bots.Routes.{runs_bot}
use fbyt.Nav.Ledger.{Read, threw, got}
use fbyt.Keeper.Trade.{Quote, skip, swap, divides_by_zero, quote, quote_of}
use fbyt.Keeper.Strategy.{
  RebalanceStrategy, GridStrategy, Strategy, dca, rebalance, grid, Leg, nothing, sell_a, sell_b,
  throws, trade_size, rebalance_side, side_of, Side, selling, buy, sell, hold, Move, grid_move,
  target_of, usd, is_zero,
}
use fbyt.Keeper.Market.{Context, Swap, swap_data, Market}
use fbyt.Keeper.Execute.{
  State, legs_of, send_swap, trade, traded, run_dca, run_side, run_rebalance, run_move, run_grid,
  run_strategy,
}
use fbyt.Keeper.Run.{vault_of}
use fbyt.Keeper.Changes.{Fits, IsAllowed, swapped, Reach, here, next}

Quote-cases :
    (q : Quote) → (q ≡ skip) ⊎ ((q ≡ divides_by_zero) ⊎ ((i : ℤ) × (o : ℤ) × (q ≡ swap i o)))
Quote-cases skip = inl refl
Quote-cases divides_by_zero = inr (inl refl)
Quote-cases (swap i o) = inr (inr (i, o, refl))

quote_positive :
    (input : ℤ) (from to : _) (slip i o : ℤ)
    → quote input from to slip ≡ swap i o
    → (i ≡ input) × (pos 1 ≤ℤ i) × (pos 1 ≤ℤ o)
unfolding quote quote_of
quote_positive input from to slip i o h = ground arith

trade_size_capped : (x : ℤ) (l : Leg) (cap n : ℤ) → trade_size x l cap ≡ some n → n ≤ℤ cap
unfolding trade_size
trade_size_capped x l cap n h = ground arith

Option-values {ℓ} : {A : Type ℓ} → (o : Option A) → (o ≡ none) ⊎ ((a : A) × (o ≡ some a))
Option-values none = inl refl
Option-values (some a) = inr (a, refl)

pub Read-cases {ℓ} : {A : Type ℓ} → (r : Read A) → (r ≡ threw) ⊎ ((a : A) × (r ≡ got a))
Read-cases threw = inl refl
Read-cases (got a) = inr (a, refl)

selling-some :
    (side : ℤ → Side) (o : Option ℤ) (P : Side → Type 0)
    → P throws
    → ((n : ℤ) → o ≡ some n → P (side n))
    → P (selling side o)
selling-some side none P p q = p
selling-some side (some n) P p q = q n refl

if_both : (b : Bool) (P : Side → Type 0) (x y : Side) → P x → P y → P (if b then x else y)
if_both true P x y p q = p
if_both false P x y p q = q

-- What a rebalance sells is at most its cap.
abbrev IsCapped : ℤ → Side → Type 0
IsCapped cap (sell_a n) = n ≤ℤ cap
IsCapped cap (sell_b n) = n ≤ℤ cap
IsCapped cap _ = Unit

side-IsCapped : (a b : Leg) (bps cap : ℤ) → IsCapped cap (rebalance_side a b bps cap)
unfolding rebalance_side side_of
side-IsCapped a b bps cap =
    let total = usd a +ℤ usd b in
    let target = target_of total bps in
    let size_a = trade_size (usd a -ℤ target) a cap in
    let size_b = trade_size (usd b -ℤ (total -ℤ target)) b cap in
    let second = if ltb_ℤ (total -ℤ target) (usd b) then selling sell_b size_b else nothing in
    let first = if ltb_ℤ target (usd a) then selling sell_a size_a else second in
    if_both (is_zero total) (IsCapped cap) nothing first tt (
      if_both (ltb_ℤ target (usd a)) (IsCapped cap) (selling sell_a size_a) second
        (selling-some sell_a size_a (IsCapped cap) tt
          (λ n e. trade_size_capped (usd a -ℤ target) a cap n e))
        (if_both (ltb_ℤ (total -ℤ target) (usd b)) (IsCapped cap) (selling sell_b size_b) nothing
          (selling-some sell_b size_b (IsCapped cap) tt
            (λ n e. trade_size_capped (usd b -ℤ (total -ℤ target)) b cap n e))
          tt))

module _ (mk : Market) (sql : Sql) (delegate : Text) (d : Sql.Db sql) where
  abbrev St : Type 0
  St = State (Market.World mk) (Sql.Db sql)

  abbrev Reaches : St → St → Type 0
  Reaches = Reach mk sql delegate d

  -- A listed bot of the delegate, in a vault that has this delegate.
  pub record Duty (bot : Doc) (ctx : Context) : Type 0 where
    pub strategy : Strategy
    pub world : Market.World mk
    pub listed : HasDoc (db_all sql d "bots") bot
    pub runs : runs_bot delegate bot ≡ true
    pub of_bot : mk.strategy_of bot ≡ got strategy
    pub vault : ctx.vault ≡ vault_of bot
    pub on_chain : mk.accounts_of world ctx.vault ≡ got ctx.accounts
    pub delegated : ctx.accounts.trading_delegate ≡ delegate

  send-Reach :
      (bot : Doc) (ctx : Context) (duty : Duty bot ctx) (from to : Text) (q : Quote) (s : St)
      → ((i o : ℤ) → q ≡ swap i o → (pos 1 ≤ℤ i) × (pos 1 ≤ℤ o) × Fits duty.strategy from to i)
      → Reaches s (send_swap mk sql ctx delegate from to q s).0
  unfolding send_swap
  send-Reach bot ctx duty from to skip s f = here
  send-Reach bot ctx duty from to divides_by_zero s f = here
  send-Reach bot ctx duty from to (swap i o) s f =
      let (p, q, fits) = f i o refl in
      let sw : Swap = record {
        vault = ctx.vault;
        admin_pool = ctx.accounts.admin_pool;
        admin = ctx.accounts.admin;
        trader = delegate;
        token_mint = ctx.accounts.token_mint;
        input_mint = from;
        output_mint = to;
        route_data = swap_data i o;
      } in
      let allowed : IsAllowed mk sql delegate d sw = record {
        bot = bot;
        strategy = duty.strategy;
        world = duty.world;
        accounts = ctx.accounts;
        input = i;
        output = o;
        listed = duty.listed;
        runs = duty.runs;
        of_bot = duty.of_bot;
        vault = duty.vault;
        on_chain = duty.on_chain;
        delegated = duty.delegated;
        trader = refl;
        positive = (p, q);
        sent = refl;
        fits = fits;
      } in
      let arrived : Reaches s (record s { world = (mk.send s.world sw).0 }) =
        next here (swapped sw allowed) in
      elim (Read-cases (mk.send s.world sw).1) [
        | inl e ↦ rw (e, send_swap) arrived
        | inr (a, e) ↦ rw (e, send_swap) arrived
      ]

  trade-Reach :
      (bot : Doc) (ctx : Context) (duty : Duty bot ctx) (from to : Text) (input slip : ℤ) (s : St)
      → Fits duty.strategy from to input
      → Reaches s (trade mk sql ctx delegate from to input slip s).0
  unfolding trade
  trade-Reach bot ctx duty from to input slip s fits = elim (Bool-cases (leb_ℤ input (pos 0))) [
    | inl e ↦ rw e here
    | inr e ↦ elim (Read-cases (mk.price_of s.world ctx.accounts.admin_pool from)) [
      | inl f ↦ rw (e, f) here
      | inr (p, f) ↦ elim (Read-cases (mk.price_of s.world ctx.accounts.admin_pool to)) [
        | inl g ↦ rw (e, f, g) here
        | inr (q, g) ↦
            rw (e, f, g)
              (send-Reach bot ctx duty from to (quote input p q slip) s (λ i o h.
                let (same, low, high) = quote_positive input p q slip i o h in
                (low, high, subst (Fits duty.strategy from to) (sym same) fits)))
      ]
    ]
  ]

  traded-Reach :
      (bot : Doc) (ctx : Context) (duty : Duty bot ctx) (from to : Text) (input slip : ℤ)
      (state : Option ℤ) (s : St)
      → Fits duty.strategy from to input
      → Reaches s (traded mk sql ctx delegate from to input slip state s).0
  unfolding traded
  traded-Reach bot ctx duty from to input slip state s fits =
      let reached = trade-Reach bot ctx duty from to input slip s fits in
      elim (Read-cases (trade mk sql ctx delegate from to input slip s).1) [
        | inl e ↦ rw (e, traded) reached
        | inr (a, e) ↦ rw (e, traded) reached
      ]

  side-Reach :
      (bot : Doc) (ctx : Context) (duty : Duty bot ctx) (r : RebalanceStrategy) (side : Side)
      (s : St)
      → duty.strategy ≡ rebalance r
      → IsCapped r.max_trade_amount side
      → Reaches s (run_side mk sql ctx delegate r side s).0
  unfolding run_side
  side-Reach bot ctx duty r nothing s e c = here
  side-Reach bot ctx duty r throws s e c = here
  side-Reach bot ctx duty r (sell_a n) s e c =
      traded-Reach bot ctx duty r.asset_a r.asset_b n
        (Option.get_or r.max_slippage_bps ctx.accounts.max_slippage_bps) none s
        (subst (λ x. Fits x r.asset_a r.asset_b n) (sym e) (inl (refl, refl), c))
  side-Reach bot ctx duty r (sell_b n) s e c =
      traded-Reach bot ctx duty r.asset_b r.asset_a n
        (Option.get_or r.max_slippage_bps ctx.accounts.max_slippage_bps) none s
        (subst (λ x. Fits x r.asset_b r.asset_a n) (sym e) (inr (refl, refl), c))

  move-Reach :
      (bot : Doc) (ctx : Context) (duty : Duty bot ctx) (g : GridStrategy) (m : Move × ℤ) (s : St)
      → duty.strategy ≡ grid g
      → Reaches s (run_move mk sql ctx delegate g m s).0
  unfolding run_move
  move-Reach bot ctx duty g (buy, kept) s e =
      traded-Reach bot ctx duty g.quote_mint g.base_mint g.trade_amount
        (Option.get_or g.max_slippage_bps ctx.accounts.max_slippage_bps) (some kept) s
        (subst (λ x. Fits x g.quote_mint g.base_mint g.trade_amount) (sym e)
          (inl (refl, refl), refl))
  move-Reach bot ctx duty g (sell, kept) s e =
      traded-Reach bot ctx duty g.base_mint g.quote_mint g.trade_amount
        (Option.get_or g.max_slippage_bps ctx.accounts.max_slippage_bps) (some kept) s
        (subst (λ x. Fits x g.base_mint g.quote_mint g.trade_amount) (sym e)
          (inr (refl, refl), refl))
  move-Reach bot ctx duty g (hold, kept) s e = here

  pub strategy-Reach :
      (bot : Doc) (ctx : Context) (duty : Duty bot ctx) (st : Strategy) (state : Read (Option ℤ))
      (s : St)
      → duty.strategy ≡ st
      → Reaches s (run_strategy mk sql ctx delegate st state s).0
  unfolding run_strategy run_dca run_rebalance run_grid
  strategy-Reach bot ctx duty (dca x) state s e =
      traded-Reach bot ctx duty x.input_mint x.output_mint x.input_amount
        (Option.get_or x.max_slippage_bps ctx.accounts.max_slippage_bps) none s
        (subst (λ y. Fits y x.input_mint x.output_mint x.input_amount) (sym e) (refl, refl, refl))
  strategy-Reach bot ctx duty (rebalance r) state s e =
      elim (Read-cases (legs_of mk sql s.world ctx r)) [
        | inl f ↦ rw (f, run_strategy, run_rebalance) here
        | inr (legs, f) ↦
            rw (f, run_strategy, run_rebalance)
              (side-Reach bot ctx duty r
                (rebalance_side legs.0 legs.1 r.target_a_bps r.max_trade_amount) s e
                (side-IsCapped legs.0 legs.1 r.target_a_bps r.max_trade_amount))
      ]
  strategy-Reach bot ctx duty (grid g) state s e =
      elim (Read-cases (mk.price_of s.world ctx.accounts.admin_pool g.base_mint)) [
        | inl f ↦ rw (f, run_strategy, run_grid) here
        | inr (p, f) ↦ elim (Read-cases state) [
          | inl k ↦ rw (f, k, run_strategy, run_grid) here
          | inr (last, k) ↦
              rw (f, k, run_strategy, run_grid)
                (move-Reach bot ctx duty g (grid_move p.price last g.step_bps) s e)
        ]
      ]
