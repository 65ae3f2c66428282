-- ===== src/Db/Laws.antt =====
-- What a client of db.ts can rely on, from the laws of SQLite.
use text.Mathlib.Text.{◌==◌ as str_eq}
use mathlib.Core.Option
use fbyt.Base.{
  ◌≡◌, refl, ap, ◌∙◌, String, Text, text_eq, Bool, ◌&&◌, Option, none, some, arith, if◌then◌else◌,
  inl, inr, List, [], ◌∷◌, map, ◌⊎◌, ◌↔◌, Bool-cases,
}
use fbyt.Json.{Doc, Json, str, get, or_else, last, get-set, get-spread}
use fbyt.Db.Sql.{Sql, Row, find, HasRow}
use fbyt.Db.Ops.{
  id_of, with_id, bare, merged, db_all, db_get, db_put, db_update, db_append, db_delete,
}

abbrev pub same_row : String → String → Text → Text → Bool
same_row c c' i i' = str_eq c c' && text_eq i i'

module _ (sql : Sql) where
  open sql use {Db, find-replace, find-ignore, find-delete}

  -- A read after `dbPut`.
  pub get-put :
      (d : Db) (c c' : String) (i' : Text) (doc : Doc)
      → db_get sql (db_put sql d c doc).0 c' i'
        ≡ (if same_row c c' (id_of doc) i' then some doc else db_get sql d c' i')
  unfolding db_get db_put
  get-put d c c' i' doc = find-replace d c c' (id_of doc) i' doc

  -- A read after `dbUpdate`.
  pub get-update :
      (d : Db) (c c' : String) (i i' : Text) (patch : Doc)
      → db_get sql (db_update sql d c i patch).0 c' i' ≡ (
          if same_row c c' i i'
          then some (merged (db_get sql d c i) i patch)
          else db_get sql d c' i')
  unfolding db_get db_update
  get-update d c c' i i' patch = find-replace d c c' i i' _

  -- A read after `dbAppend`.
  pub get-append :
      (d : Db) (c c' : String) (doc : Doc) (id : Option Text) (fresh i' : Text)
      → let key = Option.get_or id fresh in
        db_get sql (db_append sql d c doc id fresh).0 c' i' ≡ (
          if same_row c c' key i'
          then some (Option.get_or (db_get sql d c key) (with_id doc key))
          else db_get sql d c' i')
  unfolding db_get db_append
  get-append d c c' doc id fresh i' = find-ignore d c c' (Option.get_or id fresh) i' _

  -- A read after `dbDelete`.
  pub get-delete :
      (d : Db) (c c' : String) (i i' : Text)
      → db_get sql (db_delete sql d c i) c' i'
        ≡ (if same_row c c' i i' then none else db_get sql d c' i')
  unfolding db_get db_delete
  get-delete d c c' i i' = find-delete d c c' i i'

-- Each field of a merged document: `id` is the key, and any other is the patch's if the patch
-- has it, and the row's if not.
pub get-merged :
    (row : Option Doc) (i : Text) (patch : Doc) (k : String)
    → get (merged row i patch) k ≡ (
        if str_eq "id" k
        then some (str i)
        else or_else (last patch k) (get (Option.get_or row (bare i)) k))
unfolding merged
get-merged row i patch k =
    get-set _ "id" k (str i)
    ∙ ap (λ (o : Option Json). if str_eq "id" k then some (str i) else o)
        (get-spread (Option.get_or row (bare i)) patch k)

-- A document is listed by `dbAll`.
abbrev pub HasDoc : List Doc → Doc → Type 0
HasDoc [] v = ⊥
HasDoc (x ∷ xs) v = (x ≡ v) ⊎ HasDoc xs v

row_of_doc :
    (rs : List Row) (v : Doc)
    → HasDoc (map (λ r. r.doc) rs) v
    → (r : Row) × HasRow rs r × (r.doc ≡ v)
row_of_doc [] v h = elim h [ ]
row_of_doc (r ∷ rs) v (inl e) = (r, inl refl, e)
row_of_doc (r ∷ rs) v (inr h) = let (q, m, e) = row_of_doc rs v h in (q, inr m, e)

doc_of_find :
    (rs : List Row) (i : Text) (v : Doc) → find rs i ≡ some v → HasDoc (map (λ r. r.doc) rs) v
unfolding find
doc_of_find [] i v h = cc
doc_of_find (r ∷ rs) i v h = elim (Bool-cases (text_eq r.id i)) [
  | inl e ↦ inl (ground arith)
  | inr e ↦ inr (doc_of_find rs i v (ground arith))
]

module _ (sql : Sql) where
  open sql use {Db, select_all, find_of_row}

  -- `dbAll` lists exactly the documents that `dbGet` finds under some key.
  pub all_iff_get :
      (d : Db) (c : String) (v : Doc)
      → HasDoc (db_all sql d c) v ↔ ((i : Text) × (db_get sql d c i ≡ some v))
  unfolding db_all db_get
  all_iff_get d c v = (
    λ h. let (r, m, e) = row_of_doc (select_all d c) v h in (r.id, find_of_row d c r m ∙ ap some e),
    λ h. doc_of_find (select_all d c) h.0 v h.1,
  )
