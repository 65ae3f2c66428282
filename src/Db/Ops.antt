-- ===== src/Db/Ops.antt =====
-- The functions of app/src/lib/db.ts. A call that writes returns the new database.
use mathlib.Core.Option
use fbyt.Base.{String, Text, Bool, Option, some, List, [], map, filterb}
use fbyt.Json.{Doc, end, field, str, get, set, spread}
use fbyt.Db.Sql.{Sql, find}

-- `doc.id`, which the type `Doc` of db.ts says is a string.
unfoldable pub id_of : Doc → Text
id_of d = elim (get d "id") [ some (str t) ↦ t | _ ↦ [] ]

-- `{ ...doc, id }`
abbrev pub with_id : Doc → Text → Doc
with_id d i = set d "id" (str i)

abbrev pub bare : Text → Doc
bare i = field "id" (str i) end

-- The merged document: the fields of the patch over those of the row, or of `{ id }`.
unfoldable pub merged : Option Doc → Text → Doc → Doc
merged row i patch = with_id (spread (Option.get_or row (bare i)) patch) i

module _ (sql : Sql) where
  open sql use {Db, select_all, replace, ignore, delete}

  unfoldable pub db_all : Db → String → List Doc
  db_all d c = map (λ r. r.doc) (select_all d c)

  unfoldable pub db_get : Db → String → Text → Option Doc
  db_get d c i = find (select_all d c) i

  unfoldable pub db_query : Db → String → (Doc → Bool) → List Doc
  unfolding db_all
  db_query d c pred = filterb pred (db_all d c)

  unfoldable pub db_put : Db → String → Doc → Db × Doc
  db_put d c doc = (replace d c (id_of doc) doc, doc)

  unfoldable pub db_update : Db → String → Text → Doc → Db × Doc
  unfolding db_get merged
  db_update d c i patch = let next = merged (db_get d c i) i patch in (replace d c i next, next)

  -- `fresh` is the generated key, used where the caller gives none.
  unfoldable pub db_append : Db → String → Doc → Option Text → Text → Db × Text
  db_append d c doc id fresh =
      let key = Option.get_or id fresh in (ignore d c key (with_id doc key), key)

  unfoldable pub db_delete : Db → String → Text → Db
  db_delete d c i = delete d c i
