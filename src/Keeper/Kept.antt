-- ===== src/Keeper/Kept.antt =====
-- What a run of app/scripts/keeper.ts leaves as it was.
use text.Mathlib.Text.{◌==◌ as str_eq}
use text.Mathlib.TextEquality.{eq_iff}
use fbyt.Base.{
  ◌≡◌, ◌∙◌, refl, sym, ap, inl, inr, arith, String, Text, text_eq_iff, false, Option, none, some,
  Bool-cases, Option-cases,
}
use fbyt.Base.Int.{ℤ}
use fbyt.Json.{Doc, Json, str, get, last}
use fbyt.Db.Sql.{Sql}
use fbyt.Db.Ops.{id_of, merged, db_get}
use fbyt.Db.Keyed.{IsKeyed}
use fbyt.Db.Laws.{all_iff_get, get-update, get-append, get-merged}
use fbyt.Keeper.Market.{Market}
use fbyt.Keeper.Execute.{State}
use fbyt.Keeper.Run.{order_doc, record_run, run_patch, run_db_mode}
use fbyt.Keeper.Changes.{IsRun, Change, swapped, ordered, recorded, Reach, here, next}
use fbyt.Keeper.Reach.{run_db_mode-Reach}

-- A field of a stored bot.
abbrev pub field_of : (sql : Sql) → Sql.Db sql → Text → String → Option Json
field_of sql d i k = elim (db_get sql d "bots" i) [ none ↦ none | some b ↦ get b k ]

-- The field is none of those that a run records.
pub record IsLasting (k : String) : Type 0 where
  pub no_count : str_eq "runCount" k ≡ false
  pub no_state : str_eq "state" k ≡ false
  pub no_time : str_eq "lastRunAt" k ≡ false

module _ (mk : Market) (sql : Sql) where
  patch_lasting :
      (b : Doc) (state : Option ℤ) (w : Market.World mk) (k : String)
      → IsLasting k
      → last (run_patch mk sql b state w) k ≡ none
  unfolding run_patch last
  patch_lasting b none w k l = ground (arith, l.no_count, l.no_time)
  patch_lasting b (some p) w k l = ground (arith, l.no_count, l.no_state, l.no_time)

  merged_lasting :
      (v : Doc) (i : Text) (b : Doc) (state : Option ℤ) (w : Market.World mk) (k : String)
      → IsLasting k
      → get v "id" ≡ some (str i)
      → get (merged (some v) i (run_patch mk sql b state w)) k ≡ get v k
  merged_lasting v i b state w k l e = elim (Bool-cases (str_eq "id" k)) [
    | inl t ↦
        get-merged (some v) i (run_patch mk sql b state w) k
        ∙ rw t (sym e ∙ ap (λ (x : String). get v x) ((eq_iff "id" k).0 t))
    | inr f ↦ ground (
      arith,
      get-merged (some v) i (run_patch mk sql b state w) k,
      f,
      patch_lasting b state w k l,
    )
  ]

  row_of :
      (d : Sql.Db sql) (i : Text) (j : Json)
      → field_of sql d i "id" ≡ some j
      → (v : Doc) × (db_get sql d "bots" i ≡ some v) × (get v "id" ≡ some j)
  row_of d i j h = elim (Option-cases (db_get sql d "bots" i)) [
    | inl e ↦ absurd (ground (arith, e, h))
    | inr (v, e) ↦ (v, e, (ground (arith, e, h)))
  ]

  record_run-lasting :
      (b : Doc) (state : Option ℤ) (s : State (Market.World mk) (Sql.Db sql)) (i : Text)
      (k : String)
      → IsLasting k
      → field_of sql s.db (id_of b) "id" ≡ some (str (id_of b))
      → field_of sql (record_run mk sql b state s).db i k ≡ field_of sql s.db i k
  record_run-lasting b state s i k l e =
      let (v, row, id) = row_of s.db (id_of b) (str (id_of b)) e in
      ground (
        arith,
        get-update sql s.db "bots" "bots" (id_of b) i (run_patch mk sql b state s.world),
        merged_lasting v (id_of b) b state s.world k l id,
        row,
        text_eq_iff (id_of b) i,
        eq_iff "bots" "bots",
      )

  -- A bot that the run found is stored under its own id.
  listed_id :
      (delegate : Text) (d : Sql.Db sql) (b : Doc)
      → IsKeyed sql d
      → IsRun sql delegate d b
      → field_of sql d (id_of b) "id" ≡ some (str (id_of b))
  unfolding id_of
  listed_id delegate d b keyed (listed, _) =
      let (i, e) = (all_iff_get sql d "bots" b).0 listed in
      let id : get b "id" ≡ some (str i) = keyed "bots" i b e in
      let same : id_of b ≡ i = ground (arith, id) in rw same (ground (arith, e, id))

  -- The store of the bots' lasting fields and of all collections but two is the same.
  abbrev pub Keeps : (s t : State (Market.World mk) (Sql.Db sql)) → Type 0
  Keeps s t =
      ((i : Text) (k : String) → IsLasting k → field_of sql t.db i k ≡ field_of sql s.db i k)
      × ((c : String) (i : Text)
          → str_eq "bots" c ≡ false
          → str_eq "botOrders" c ≡ false
          → db_get sql t.db c i ≡ db_get sql s.db c i)

  Change-Keeps :
      (delegate : Text) (d : Sql.Db sql) (s : State (Market.World mk) (Sql.Db sql))
      {t : State (Market.World mk) (Sql.Db sql)}
      → ((b : Doc)
          → IsRun sql delegate d b
          → field_of sql s.db (id_of b) "id" ≡ some (str (id_of b)))
      → Change mk sql delegate d s t
      → Keeps s t
  Change-Keeps delegate d s own (swapped sw allowed) = (λ i k l. refl, λ c i e f. refl)
  Change-Keeps delegate d s own (ordered b vault e listed) =
      let key = (mk.fresh s.world).1 in
      (
        λ i k l. ground (
          arith,
          get-append sql s.db "botOrders" "bots" (order_doc mk sql b vault s.world e) none key i,
        ),
        λ c i f g. ground (
          arith,
          g,
          get-append sql s.db "botOrders" c (order_doc mk sql b vault s.world e) none key i,
        ),
      )
  Change-Keeps delegate d s own (recorded b state listed) = (
    λ i k l. record_run-lasting b state s i k l (own b listed),
    λ c i f g.
        ground
          (arith, f, get-update sql s.db "bots" c (id_of b) i (run_patch mk sql b state s.world)),
  )

  id-IsLasting : IsLasting "id"
  id-IsLasting = record { no_count = refl; no_state = refl; no_time = refl }

  Reach-Keeps :
      (delegate : Text) (s : State (Market.World mk) (Sql.Db sql))
      {t : State (Market.World mk) (Sql.Db sql)}
      → IsKeyed sql s.db
      → Reach mk sql delegate s.db s t
      → Keeps s t
  Reach-Keeps delegate s keyed here = (λ i k l. refl, λ c i e f. refl)
  Reach-Keeps delegate s keyed (next {t} p c) =
      let (a, b) = Reach-Keeps delegate s keyed p in
      let (a', b') =
        Change-Keeps delegate s.db t
          (λ bot listed. a (id_of bot) "id" id-IsLasting ∙ listed_id delegate s.db bot keyed listed)
          c in
      (λ i k l. a' i k l ∙ a i k l, λ k i e f. b' k i e f ∙ b k i e f)

-- In a store where each document carries its key, a run of the keeper changes no field of a bot, its id
-- included, but its run count, its grid state and the time of its last run, and no other collection of
-- the store than the bots and their orders.
pub run_db_mode-Keeps :
    (mk : Market) (sql : Sql) (delegate : Text) (s : State (Market.World mk) (Sql.Db sql))
    (i j : Text) (k c : String)
    → IsKeyed sql s.db
    → IsLasting k
    → str_eq "bots" c ≡ false
    → str_eq "botOrders" c ≡ false
    → let t = run_db_mode mk sql delegate s in
      (field_of sql t.db i k ≡ field_of sql s.db i k) × (db_get sql t.db c j ≡ db_get sql s.db c j)
run_db_mode-Keeps mk sql delegate s i j k c keyed lasting e f =
    let (fields, others) =
      Reach-Keeps mk sql delegate s keyed (run_db_mode-Reach mk sql delegate s) in
    (fields i k lasting, others c j e f)
