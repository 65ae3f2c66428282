-- ===== src/Db/Keyed.antt =====
-- Every stored document carries its own key in the field `id`, whatever calls are made.
use text.Mathlib.TextEquality.{eq_iff}
use mathlib.Core.Option
use fbyt.Base.{
  ◌≡◌, String, Text, text_eq_iff, text_eq_refl, Option, some, arith, inl, inr, Option-cases, List,
  [], ◌∷◌,
}
use fbyt.Json.{Doc, str, get, get-set}
use fbyt.Db.Sql.{Sql}
use fbyt.Db.Ops.{id_of, with_id, db_get, db_put, db_update, db_append, db_delete}
use fbyt.Db.Laws.{get-put, get-update, get-append, get-delete, get-merged}

-- The writing calls of db.ts.
pub data Call : Type 0 where
  put : String → Doc → Call
  update : String → Text → Doc → Call
  append : String → Doc → Option Text → Text → Call
  delete : String → Text → Call

module _ (sql : Sql) where
  open sql use {Db}

  unfoldable pub step : Db → Call → Db
  step d (put c doc) = (db_put sql d c doc).0
  step d (update c i patch) = (db_update sql d c i patch).0
  step d (append c doc id fresh) = (db_append sql d c doc id fresh).0
  step d (delete c i) = db_delete sql d c i

  unfoldable pub run : Db → List Call → Db
  unfolding step
  run d [] = d
  run d (x ∷ xs) = run (step d x) xs

  abbrev pub IsKeyed : Db → Type 0
  IsKeyed d =
      (c : String) (i : Text) (v : Doc) → db_get sql d c i ≡ some v → get v "id" ≡ some (str i)

-- The TypeScript type of `dbPut` wants a string `id`.
abbrev pub HasId : Call → Type 0
HasId (put c doc) = get doc "id" ≡ some (str (id_of doc))
HasId _ = Unit

abbrev pub AllHaveId : List Call → Type 0
AllHaveId [] = Unit
AllHaveId (x ∷ xs) = HasId x × AllHaveId xs

get-with_id : (d : Doc) (i : Text) → get (with_id d i) "id" ≡ some (str i)
get-with_id d i = get-set d "id" "id" (str i)

module _ (sql : Sql) where
  open sql use {Db}

  step-IsKeyed : (d : Db) (x : Call) → HasId x → IsKeyed sql d → IsKeyed sql (step sql d x)
  unfolding step
  step-IsKeyed d (put c doc) h k c' i v e =
      ground (arith, get-put sql d c c' i doc, k c' i v, text_eq_iff (id_of doc) i)
  step-IsKeyed d (update c j patch) h k c' i v e = ground (
    arith,
    get-update sql d c c' j i patch,
    k c' i v,
    text_eq_iff j i,
    get-merged (db_get sql d c j) j patch "id",
  )
  step-IsKeyed d (append c doc id fresh) h k c' i v e =
      let key = Option.get_or id fresh in
      elim (Option-cases (db_get sql d c key)) [
        | inl free ↦ ground (
          arith,
          get-append sql d c c' doc id fresh i,
          k c' i v,
          text_eq_iff key i,
          get-with_id doc key,
        )
        | inr (w, taken) ↦ ground (
          arith,
          get-append sql d c c' doc id fresh i,
          k c' i v,
          text_eq_iff key i,
          k c key w taken,
        )
      ]
  step-IsKeyed d (delete c j) h k c' i v e = ground (arith, get-delete sql d c c' j i, k c' i v)

  -- From a store where it holds, and with puts of documents that have an id: whatever calls are made,
  -- a stored document's field `id` is the key that it is found under.
  pub run-IsKeyed :
      (d : Db) (calls : List Call) → AllHaveId calls → IsKeyed sql d → IsKeyed sql (run sql d calls)
  unfolding run
  run-IsKeyed d [] h k = k
  run-IsKeyed d (x ∷ xs) h k = run-IsKeyed (step sql d x) xs h.1 (step-IsKeyed d x h.0 k)

  -- An append under a key that is taken changes nothing that can be read: the indexer's snapshot of
  -- a bucket is kept as it was first written.
  pub append_again :
      (d : Db) (c c' : String) (doc other : Doc) (key fresh i : Text)
      → db_get sql
          (db_append sql (db_append sql d c doc (some key) fresh).0 c other (some key) fresh).0
          c'
          i
        ≡ db_get sql (db_append sql d c doc (some key) fresh).0 c' i
  append_again d c c' doc other key fresh i = ground (
    arith,
    get-append sql (db_append sql d c doc (some key) fresh).0 c c' other (some key) fresh i,
    get-append sql d c c' doc (some key) fresh i,
    get-append sql d c c doc (some key) fresh key,
    eq_iff c c',
    text_eq_iff key i,
    text_eq_refl key,
    eq_iff c c,
  )
