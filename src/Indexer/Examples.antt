-- ===== src/Indexer/Examples.antt =====
-- Two ticks in one minute over a vault with a NAV and a trade.
use fbyt.Base.{◌≡◌, refl, some, [], ◌∷◌, codes, replicate}
use fbyt.Base.Int.{pos}
use fbyt.Json.{str, num, field, end}
use fbyt.Db.Memory.{memory}
use fbyt.Db.Ops.{db_get}
use fbyt.Indexer.Tick.{Site, tick}
use fbyt.Indexer.Again.{tick-again}

abbrev site : Site
site = record {
  vaults = codes "v1" ∷ codes "v2" ∷ [];
  nav = λ v. some (record {
    nav_micro_usd = str (codes "5");
    raised_micro_usd = str (codes "4");
    pnl_bps = num (pos 2500);
  });
  trades =
      λ v. record { signature = codes "sig"; fields = field "trader" (str (codes "d")) end } ∷ [];
  print = λ n. replicate n b'1';
}

tick-again_example :
    let after = tick memory site 60_000 120_500 [] in
    db_get memory (tick memory site 60_000 130_500 after) "navSnapshots" (codes "v1-11")
    ≡ db_get memory after "navSnapshots" (codes "v1-11")
tick-again_example =
    tick-again memory site 60_000 120_500 130_500 [] "navSnapshots" (codes "v1-11") refl
