-- ===== src/Nav/Compute.antt =====
-- `computeNav` and the route GET /api/vaults/[address]/nav.
use fbyt.Base.{ℕ, zero, suc, Text, Option, none, some, List, [], ◌∷◌, ◌++◌}
use fbyt.Base.Int.{ℤ, pos, ◌*ℤ◌, ◌/ℤ◌, ◌+ℤ◌, ◌-ℤ◌}
use fbyt.Money.Account.{PythPrice, parse_pyth_price}
use fbyt.Money.Scale.{scale}
use fbyt.Nav.Mints.{distinct_mints}
use fbyt.Nav.Ledger.{Read, threw, got, ◌>>=◌, Pool, Balance, Ledger}
use fbyt.Http.{Response, json, fail}

-- A holding; the strings of its amounts are numbers here.
pub record Holding (D : Type 0) : Type 0 where
  pub mint : Text
  pub amount : ℕ
  pub decimals : ℕ
  pub price_usd : D
  pub value_micro_usd : ℤ

pub record Nav (D : Type 0) : Type 0 where
  pub nav_micro_usd : ℤ
  pub raised_micro_usd : ℕ
  pub pnl_bps : ℤ
  pub holdings : List (Holding D)

-- micro-USD = amount * price * 10^(6 + expo - decimals)
unfoldable pub value_micro : Balance → PythPrice → ℤ
unfolding scale
value_micro b p = scale (pos b.amount *ℤ p.price) (pos 6 +ℤ p.expo -ℤ pos b.decimals)

-- `((navMicro - raised) * 10_000n) / raised`, where something was raised. `Number(…)` of the quotient
-- is exact here: a quotient beyond 2^53, which it would round, stays as it is.
unfoldable pub pnl_of : ℤ → ℕ → ℤ
pnl_of nav_micro zero = pos 0
pnl_of nav_micro (suc n) = (nav_micro -ℤ pos (suc n)) *ℤ pos 10_000 /ℤ pos (suc n)

-- `registry.exists ? … : []`
abbrev pub registered : Option (List Text) → List Text
registered none = []
registered (some ms) = ms

module _ (l : Ledger) where
  open l use {Double, vault_pool, asset_mints, balance, feed_id, price_data, usd_price}

  -- From `const info` on: no price account, or the holding.
  unfoldable pub priced : Text → Balance → List ℕ → Read (Option (Holding Double))
  unfolding parse_pyth_price value_micro
  priced m b feed = elim (price_data feed) [
    | none ↦ got none
    | some bytes ↦ elim (parse_pyth_price bytes) [
      | none ↦ threw
      | some p ↦ got (
          some (record {
            mint = m;
            amount = b.amount;
            decimals = b.decimals;
            price_usd = usd_price p;
            value_micro_usd = value_micro b p;
          }))
    ]
  ]

  -- One round of the loop: `none` is its `continue`.
  unfoldable pub holding_of : Text → Text → Text → Read (Option (Holding Double))
  unfolding priced
  holding_of vault admin_pool m = elim (balance vault m) [
    | none ↦ got none
    | some b ↦ elim b.amount [
      | zero ↦ got none
      | suc _ ↦ (do
        feed ← feed_id admin_pool m
        elim feed [ none ↦ got none | some f ↦ priced m b f ])
    ]
  ]

  -- The loop, with `holdings` and `navMicro` so far.
  unfoldable pub nav_loop :
      Text → Text → List Text → List (Holding Double) → ℤ → Read (List (Holding Double) × ℤ)
  unfolding holding_of
  nav_loop vault admin_pool [] holdings nav_micro = got (holdings, nav_micro)
  nav_loop vault admin_pool (m ∷ ms) holdings nav_micro = do
    h ← holding_of vault admin_pool m
    elim h [
      | none ↦ nav_loop vault admin_pool ms holdings nav_micro
      | some x ↦
          nav_loop vault admin_pool ms (holdings ++ (x ∷ [])) (nav_micro +ℤ x.value_micro_usd)
    ]

  unfoldable pub nav_of_pool : Text → Pool → Read (Option (Nav Double))
  unfolding nav_loop distinct_mints pnl_of
  nav_of_pool vault d = do
    registry ← asset_mints vault
    (holdings, nav_micro) ←
        nav_loop vault d.admin_pool (distinct_mints (d.token_mint ∷ registered registry)) [] (pos 0)
    got (
        some (record {
          nav_micro_usd = nav_micro;
          raised_micro_usd = d.raised_amount_usd;
          pnl_bps = pnl_of nav_micro d.raised_amount_usd;
          holdings = holdings;
        }))

  unfoldable pub compute_nav : Text → Read (Option (Nav Double))
  unfolding nav_of_pool
  compute_nav vault = do
    v ← vault_pool vault
    elim v [ none ↦ got none | some d ↦ nav_of_pool vault d ]

  -- The route. The message of an exception is not modelled.
  unfoldable pub show_nav : Text → Response (Nav Double)
  unfolding compute_nav
  show_nav vault = elim (compute_nav vault) [
    | threw ↦ fail 502 "exception"
    | got none ↦ fail 404 "no vault at this address"
    | got (some n) ↦ json n
  ]
