-- ===== src/Indexer/Tick.antt =====
-- `tick` of app/scripts/indexer.ts. What the application's routes answer is a parameter.
use fbyt.Base.{ℕ, ◌/◌, Text, Option, none, some, List, [], ◌∷◌, ◌++◌, codes}
use fbyt.Base.Int.{pos}
use fbyt.Json.{Doc, Json, num, str, end, field, spread}
use fbyt.Db.Sql.{Sql}
use fbyt.Db.Ops.{db_append, db_put}

-- The fields of a NAV that are kept.
pub record NavAnswer : Type 0 where
  pub nav_micro_usd : Json
  pub raised_micro_usd : Json
  pub pnl_bps : Json

-- A trade's document, with its signature.
pub record TradeAnswer : Type 0 where
  pub signature : Text
  pub fields : Doc

-- The answers of one tick: GET /api/vaults, [] when it fails, and those for each vault's NAV, if there is one,
-- and trades, [] when it fails. `print` is `${n}`.
pub record Site : Type 0 where
  pub vaults : List Text
  pub nav : Text → Option NavAnswer
  pub trades : Text → List TradeAnswer
  pub print : ℕ → Text

abbrev pub snapshot_of : Text → ℕ → NavAnswer → Doc
snapshot_of vault now nav = field "vault" (str vault) (
    field "t" (num (pos now)) (
      field "navMicroUsd" nav.nav_micro_usd
        (field "raisedMicroUsd" nav.raised_micro_usd (field "pnlBps" nav.pnl_bps end))))

-- `{ id: t.signature, vault: v.address, ...t }`
abbrev pub trade_doc : Text → TradeAnswer → Doc
trade_doc vault t = spread (field "id" (str t.signature) (field "vault" (str vault) end)) t.fields

module _ (sql : Sql) (site : Site) (bucket_ms now : ℕ) where
  open sql use {Db}

  -- `${v.address}-${bucket}`
  unfoldable pub bucket_key : Text → Text
  bucket_key vault = vault ++ (codes "-" ++ site.print (now / bucket_ms))

  unfoldable pub snapshot : Text → Db → Db
  unfolding bucket_key
  snapshot vault d = elim (site.nav vault) [
    | none ↦ d
    | some nav ↦
        (db_append sql d "navSnapshots" (snapshot_of vault now nav) (some (bucket_key vault)) []).0
  ]

  unfoldable pub put_trades : Text → List TradeAnswer → Db → Db
  put_trades vault [] d = d
  put_trades vault (t ∷ ts) d = put_trades vault ts (db_put sql d "trades" (trade_doc vault t)).0

  unfoldable pub index_vaults : List Text → Db → Db
  unfolding snapshot put_trades
  index_vaults [] d = d
  index_vaults (v ∷ vs) d = index_vaults vs (put_trades v (site.trades v) (snapshot v d))

  unfoldable pub tick : Db → Db
  unfolding index_vaults
  tick d = index_vaults site.vaults d
