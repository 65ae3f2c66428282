-- ===== src/Indexer/Again.antt =====
-- A tick may be repeated: the snapshots of its bucket and its trades are there already.
use mathlib.Core.Option
use text.Mathlib.Text.{◌==◌ as str_eq}
use text.Mathlib.TextEquality.{eq_iff}
use fbyt.Base.{
  ℕ, ◌/◌, ◌≡◌, ◌∙◌, refl, sym, ap, inl, inr, arith, subst, Text, String, text_eq_iff, text_eq_refl,
  some, List, [], ◌∷◌, ◌++◌, codes, Bool-cases,
}
use fbyt.Json.{Doc}
use fbyt.Db.Sql.{Sql}
use fbyt.Db.Ops.{with_id, db_get}
use fbyt.Db.Laws.{get-append}
use fbyt.Indexer.Tick.{
  NavAnswer, Site, snapshot_of, bucket_key, snapshot, put_trades, index_vaults, tick,
}
use fbyt.Indexer.Stored.{
  or_else, or_else_twice, Nav-values, last_of, other-put_trades, get-trades, other-index,
}

module _ (sql : Sql) (site : Site) (bucket_ms : ℕ) where
  open sql use {Db}

  -- The vaults that have a NAV have a snapshot in the bucket.
  abbrev AreThere : ℕ → List Text → Db → Type 0
  AreThere now [] d = Unit
  AreThere now (v ∷ vs) d =
      ((n : NavAnswer)
        → site.nav v ≡ some n
        → (x : Doc) × (db_get sql d "navSnapshots" (bucket_key sql site bucket_ms now v) ≡ some x))
      × AreThere now vs d

  -- A snapshot that is there is not changed.
  abbrev Grows : Db → Db → Type 0
  Grows d e =
      (i : Text) (x : Doc)
      → db_get sql d "navSnapshots" i ≡ some x
      → db_get sql e "navSnapshots" i ≡ some x

  AreThere-Grows :
      (now : ℕ) (vs : List Text) (d e : Db) → Grows d e → AreThere now vs d → AreThere now vs e
  AreThere-Grows now [] d e g h = tt
  AreThere-Grows now (v ∷ vs) d e g (h, hs) =
      (λ n f. let (x, k) = h n f in (x, g _ x k), AreThere-Grows now vs d e g hs)

  snapshot-Grows : (now : ℕ) (v : Text) (d : Db) → Grows d (snapshot sql site bucket_ms now v d)
  unfolding snapshot
  snapshot-Grows now v d i x e = elim (Nav-values (site.nav v)) [
    | inl f ↦ rw (f, snapshot) e
    | inr (n, f) ↦
        let key = bucket_key sql site bucket_ms now v in
        rw (f, snapshot)
          (ground (
            arith,
            e,
            text_eq_iff key i,
            eq_iff "navSnapshots" "navSnapshots",
            get-append sql d "navSnapshots" "navSnapshots" (snapshot_of v now n) (some key) [] i,
          ))
  ]

  snapshot-there :
      (now : ℕ) (v : Text) (d : Db) (n : NavAnswer)
      → site.nav v ≡ some n
      → (x : Doc) × (db_get sql
            (snapshot sql site bucket_ms now v d)
            "navSnapshots"
            (bucket_key sql site bucket_ms now v)
          ≡ some x)
  unfolding snapshot
  snapshot-there now v d n f =
      let key = bucket_key sql site bucket_ms now v in
      (
        Option.get_or (db_get sql d "navSnapshots" key) (with_id (snapshot_of v now n) key),
        rw (f, snapshot)
            (get-append sql d "navSnapshots" "navSnapshots" (snapshot_of v now n) (some key) [] key
              ∙ ground (arith, text_eq_refl key, eq_iff "navSnapshots" "navSnapshots")),
      )

  put_trades-Grows :
      (now : ℕ) (v : Text) (d : Db)
      → Grows d (put_trades sql site bucket_ms now v (site.trades v) d)
  put_trades-Grows now v d i x e =
      other-put_trades sql site bucket_ms now v (site.trades v) d "navSnapshots" i
        (ground (arith, eq_iff "trades" "navSnapshots"))
      ∙ e

  vault-Grows :
      (now : ℕ) (v : Text) (d : Db)
      → Grows d (
          put_trades sql site bucket_ms now v (site.trades v) (snapshot sql site bucket_ms now v d))
  vault-Grows now v d i x e =
      put_trades-Grows now v (snapshot sql site bucket_ms now v d) i x
        (snapshot-Grows now v d i x e)

  index-Grows :
      (now : ℕ) (vs : List Text) (d : Db) → Grows d (index_vaults sql site bucket_ms now vs d)
  unfolding index_vaults
  index-Grows now [] d i x e = e
  index-Grows now (v ∷ vs) d i x e = index-Grows now vs _ i x (vault-Grows now v d i x e)

  index-AreThere :
      (now : ℕ) (vs : List Text) (d : Db)
      → AreThere now vs (index_vaults sql site bucket_ms now vs d)
  unfolding index_vaults
  index-AreThere now [] d = tt
  index-AreThere now (v ∷ vs) d =
      let e = snapshot sql site bucket_ms now v d in
      let f = put_trades sql site bucket_ms now v (site.trades v) e in
      (
        λ n h.
            let (x, k) = snapshot-there now v d n h in
            (x, index-Grows now vs f _ x (put_trades-Grows now v e _ x k)),
        index-AreThere now vs f,
      )

  snapshot-absorbed :
      (now : ℕ) (v : Text) (d : Db) (i : Text)
      → ((n : NavAnswer)
          → site.nav v ≡ some n
          → (x : Doc) × (db_get sql d "navSnapshots" (bucket_key sql site bucket_ms now v)
              ≡ some x))
      → db_get sql (snapshot sql site bucket_ms now v d) "navSnapshots" i
        ≡ db_get sql d "navSnapshots" i
  unfolding snapshot
  snapshot-absorbed now v d i h = elim (Nav-values (site.nav v)) [
    | inl f ↦ rw (f, snapshot) refl
    | inr (n, f) ↦
        let key = bucket_key sql site bucket_ms now v in
        let (x, k) = h n f in
        rw (f, snapshot)
          (ground (
            arith,
            k,
            text_eq_iff key i,
            eq_iff "navSnapshots" "navSnapshots",
            get-append sql d "navSnapshots" "navSnapshots" (snapshot_of v now n) (some key) [] i,
          ))
  ]

  index-absorbed :
      (now : ℕ) (vs : List Text) (d : Db) (i : Text)
      → AreThere now vs d
      → db_get sql (index_vaults sql site bucket_ms now vs d) "navSnapshots" i
        ≡ db_get sql d "navSnapshots" i
  unfolding index_vaults
  index-absorbed now [] d i h = refl
  index-absorbed now (v ∷ vs) d i (h, hs) =
      let e = snapshot sql site bucket_ms now v d in
      let f = put_trades sql site bucket_ms now v (site.trades v) e in
      index-absorbed now vs f i (AreThere-Grows now vs d f (vault-Grows now v d) hs)
      ∙ other-put_trades sql site bucket_ms now v (site.trades v) e "navSnapshots" i
          (ground (arith, eq_iff "trades" "navSnapshots"))
      ∙ snapshot-absorbed now v d i h

  AreThere-bucket :
      (now later : ℕ) (vs : List Text) (d : Db)
      → later / bucket_ms ≡ now / bucket_ms
      → AreThere now vs d
      → AreThere later vs d
  unfolding bucket_key
  AreThere-bucket now later [] d e h = tt
  AreThere-bucket now later (v ∷ vs) d e (h, hs) = (
    λ n f.
        subst
          (λ b.
            (x : Doc) × (db_get sql d "navSnapshots" (v ++ (codes "-" ++ site.print b)) ≡ some x))
          (sym e) (h n f),
    AreThere-bucket now later vs d e hs,
  )

  -- After a tick, another tick in the same bucket of time, with the same answers of the application, changes
  -- nothing that can be read from the store.
  pub tick-again :
      (now later : ℕ) (d : Db) (c : String) (i : Text)
      → later / bucket_ms ≡ now / bucket_ms
      → let after = tick sql site bucket_ms now d in
        db_get sql (tick sql site bucket_ms later after) c i ≡ db_get sql after c i
  unfolding tick
  tick-again now later d c i e =
      let vs = site.vaults in
      let after = index_vaults sql site bucket_ms now vs d in
      elim (Bool-cases (str_eq "navSnapshots" c)) [
        | inl f ↦
            subst
              (λ k.
                db_get sql (index_vaults sql site bucket_ms later vs after) k i
                ≡ db_get sql after k i)
              ((eq_iff "navSnapshots" c).0 f)
              (index-absorbed later vs after i
                (AreThere-bucket now later vs after e (index-AreThere now vs d)))
        | inr f ↦ elim (Bool-cases (str_eq "trades" c)) [
          | inl g ↦
              subst
                (λ k.
                  db_get sql (index_vaults sql site bucket_ms later vs after) k i
                  ≡ db_get sql after k i)
                ((eq_iff "trades" c).0 g)
                (get-trades sql site bucket_ms later vs after i
                  ∙ ap (or_else (last_of sql site bucket_ms vs i))
                      (get-trades sql site bucket_ms now vs d i)
                  ∙ or_else_twice (last_of sql site bucket_ms vs i) (db_get sql d "trades" i)
                  ∙ sym (get-trades sql site bucket_ms now vs d i))
          | inr g ↦ other-index sql site bucket_ms later vs after c i f g
        ]
      ]
