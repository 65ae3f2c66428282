-- ===== src/Money/Examples.antt =====
-- A price account of 150 dollars.
use fbyt.Base.{◌≡◌, refl, some, arith, replicate}
use fbyt.Base.Int.{pos, negsuc}
use fbyt.Money.Account.{parse_pyth_price, price_update, parse-price_update}

parse-price_update_example :
    parse_pyth_price (price_update (replicate 8 34) (replicate 32 9) 15_000_000_000 1_700_000_000)
    ≡ some (record { price = pos 15_000_000_000; expo = negsuc 7 })
parse-price_update_example =
    parse-price_update (replicate 8 34) (replicate 32 9) 15_000_000_000 1_700_000_000 refl refl
      (omega arith)
