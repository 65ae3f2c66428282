-- ===== src/Nav/Examples.antt =====
-- A vault with a balance of one mint that has a price, and of one that has no oracle.
use fbyt.Base.{
  ◌≡◌, refl, Text, text_eq, Option, none, some, [], ◌∷◌, codes, replicate, if◌then◌else◌,
}
use fbyt.Base.Int.{pos, negsuc, ◌*ℤ◌, ◌/ℤ◌, ◌+ℤ◌, ◌-ℤ◌}
use fbyt.Money.Account.{PythPrice, parse_pyth_price, price_update, concat}
use fbyt.Money.Wire.{le, read_rounds, signed, read_i64_le, read_i32_le}
use fbyt.Money.Scale.{scale}
use fbyt.Nav.Mints.{index_of, keep_first, distinct_mints}
use fbyt.Nav.Ledger.{got, Balance, Ledger}
use fbyt.Nav.Compute.{
  Nav, value_micro, pnl_of, priced, holding_of, nav_loop, nav_of_pool, compute_nav,
}
use fbyt.Nav.Total.{IsNav, compute_nav-IsNav}

abbrev sol : Text
sol = codes "sol"

abbrev balance_of : Text → Option Balance
balance_of m =
    if text_eq m (codes "dust")
    then none
    else some (record { amount = 2_000_000_000; decimals = 9 })

abbrev chain : Ledger
chain = record {
  vault_pool = λ v.
      got (
        some
          (record { token_mint = sol; admin_pool = codes "a"; raised_amount_usd = 200_000_000 }));
  asset_mints = λ v. got (some (codes "dust" ∷ sol ∷ codes "new" ∷ []));
  balance = λ v m. balance_of m;
  feed_id = λ a m. got (if text_eq m sol then some (replicate 32 7) else none);
  price_data = λ feed. some (price_update (replicate 8 1) feed 15_000_000_000 1_700_000_000);
  Double = PythPrice;
  usd_price = λ p. p;
}

abbrev nav : Nav PythPrice
nav = record {
  nav_micro_usd = pos 300_000_000;
  raised_micro_usd = 200_000_000;
  pnl_bps = pos 5_000;
  holdings =
      record {
        mint = sol;
        amount = 2_000_000_000;
        decimals = 9;
        price_usd = record { price = pos 15_000_000_000; expo = negsuc 7 };
        value_micro_usd = pos 300_000_000;
      }
      ∷ [];
}

values : compute_nav chain (codes "v1") ≡ got (some nav)
unfolding compute_nav nav_of_pool nav_loop holding_of priced value_micro pnl_of scale distinct_mints
    keep_first index_of parse_pyth_price price_update concat le read_rounds signed read_i64_le
    read_i32_le ◌*ℤ◌ ◌/ℤ◌ ◌+ℤ◌ ◌-ℤ◌ text_eq
values = refl

compute_nav-IsNav_example : IsNav chain (codes "v1") nav
compute_nav-IsNav_example = compute_nav-IsNav chain (codes "v1") nav values
