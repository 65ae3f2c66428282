-- ===== src/Indexer/Stored.antt =====
-- What a tick stores under each key of the trades, and that it leaves the other collections as they are.
use text.Mathlib.Text.{◌==◌ as str_eq}
use text.Mathlib.TextEquality.{eq_iff}
use fbyt.Base.{
  ℕ, ◌≡◌, ◌⊎◌, ◌∙◌, refl, sym, ap, inl, inr, arith, Text, String, text_eq, false, Option, none,
  some, List, [], ◌∷◌, if◌then◌else◌,
}
use fbyt.Json.{Doc}
use fbyt.Db.Sql.{Sql}
use fbyt.Db.Ops.{id_of, db_get, db_put}
use fbyt.Db.Laws.{get-put, get-append}
use fbyt.Indexer.Tick.{
  NavAnswer, TradeAnswer, Site, snapshot_of, trade_doc, bucket_key, snapshot, put_trades,
  index_vaults,
}

abbrev pub or_else : Option Doc → Option Doc → Option Doc
or_else none b = b
or_else (some a) b = some a

pub or_else_assoc : (a b c : Option Doc) → or_else (or_else a b) c ≡ or_else a (or_else b c)
or_else_assoc none b c = refl
or_else_assoc (some x) b c = refl

pub or_else_twice : (a b : Option Doc) → or_else a (or_else a b) ≡ or_else a b
or_else_twice none b = refl
or_else_twice (some x) b = refl

pub Nav-values : (o : Option NavAnswer) → (o ≡ none) ⊎ ((n : NavAnswer) × (o ≡ some n))
Nav-values none = inl refl
Nav-values (some n) = inr (n, refl)

module _ (sql : Sql) (site : Site) (bucket_ms : ℕ) where
  open sql use {Db}

  -- The last of some trades that is stored under a key.
  abbrev pub last_trade : Text → List TradeAnswer → Text → Option Doc
  last_trade vault [] i = none
  last_trade vault (t ∷ ts) i =
      or_else (last_trade vault ts i)
        (if text_eq (id_of (trade_doc vault t)) i then some (trade_doc vault t) else none)

  abbrev pub last_of : List Text → Text → Option Doc
  last_of [] i = none
  last_of (v ∷ vs) i = or_else (last_of vs i) (last_trade v (site.trades v) i)

  pub get-put_trades :
      (now : ℕ) (vault : Text) (ts : List TradeAnswer) (d : Db) (i : Text)
      → db_get sql (put_trades sql site bucket_ms now vault ts d) "trades" i
        ≡ or_else (last_trade vault ts i) (db_get sql d "trades" i)
  unfolding put_trades
  get-put_trades now vault [] d i = refl
  get-put_trades now vault (t ∷ ts) d i =
      get-put_trades now vault ts (db_put sql d "trades" (trade_doc vault t)).0 i
      ∙ ap (or_else (last_trade vault ts i)) (
          ground (
            arith,
            get-put sql d "trades" "trades" i (trade_doc vault t),
            eq_iff "trades" "trades",
          ))
      ∙ sym (or_else_assoc (last_trade vault ts i) _ (db_get sql d "trades" i))

  pub other-put_trades :
      (now : ℕ) (vault : Text) (ts : List TradeAnswer) (d : Db) (c : String) (i : Text)
      → str_eq "trades" c ≡ false
      → db_get sql (put_trades sql site bucket_ms now vault ts d) c i ≡ db_get sql d c i
  unfolding put_trades
  other-put_trades now vault [] d c i e = refl
  other-put_trades now vault (t ∷ ts) d c i e =
      other-put_trades now vault ts (db_put sql d "trades" (trade_doc vault t)).0 c i e
      ∙ ground (arith, get-put sql d "trades" c i (trade_doc vault t), e)

  pub other-snapshot :
      (now : ℕ) (vault : Text) (d : Db) (c : String) (i : Text)
      → str_eq "navSnapshots" c ≡ false
      → db_get sql (snapshot sql site bucket_ms now vault d) c i ≡ db_get sql d c i
  unfolding snapshot
  other-snapshot now vault d c i e = elim (Nav-values (site.nav vault)) [
    | inl f ↦ rw (f, snapshot) refl
    | inr (n, f) ↦
        rw (f, snapshot)
          (ground (
            arith,
            e,
            get-append sql d "navSnapshots" c (snapshot_of vault now n)
                (some (bucket_key sql site bucket_ms now vault)) [] i,
          ))
  ]

  pub get-trades :
      (now : ℕ) (vs : List Text) (d : Db) (i : Text)
      → db_get sql (index_vaults sql site bucket_ms now vs d) "trades" i
        ≡ or_else (last_of vs i) (db_get sql d "trades" i)
  unfolding index_vaults
  get-trades now [] d i = refl
  get-trades now (v ∷ vs) d i =
      let e = snapshot sql site bucket_ms now v d in
      get-trades now vs (put_trades sql site bucket_ms now v (site.trades v) e) i
      ∙ ap (or_else (last_of vs i)) (
          get-put_trades now v (site.trades v) e i
          ∙ ap (or_else (last_trade v (site.trades v) i))
              (other-snapshot now v d "trades" i (ground (arith, eq_iff "navSnapshots" "trades"))))
      ∙ sym
          (or_else_assoc (last_of vs i) (last_trade v (site.trades v) i) (db_get sql d "trades" i))

  pub other-index :
      (now : ℕ) (vs : List Text) (d : Db) (c : String) (i : Text)
      → str_eq "navSnapshots" c ≡ false
      → str_eq "trades" c ≡ false
      → db_get sql (index_vaults sql site bucket_ms now vs d) c i ≡ db_get sql d c i
  unfolding index_vaults
  other-index now [] d c i e f = refl
  other-index now (v ∷ vs) d c i e f =
      other-index now vs _ c i e f
      ∙ other-put_trades now v (site.trades v) (snapshot sql site bucket_ms now v d) c i f
      ∙ other-snapshot now v d c i e
