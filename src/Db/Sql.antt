-- ===== src/Db/Sql.antt =====
-- What db.ts relies on of `node:sqlite`: its five statements over the primary key
-- (collection, id). The order of a collection's rows is SQLite's. Statements do not fail here.
use text.Mathlib.Text.{◌==◌ as str_eq}
use fbyt.Base.{
  ◌≡◌, String, Text, text_eq, ◌&&◌, Option, none, some, List, [], ◌∷◌, if◌then◌else◌, ◌⊎◌,
}
use mathlib.Core.Option
use fbyt.Json.{Doc}

pub record Row : Type 0 where
  pub id : Text
  pub doc : Doc

unfoldable pub find : List Row → Text → Option Doc
find [] i = none
find (r ∷ rs) i = if text_eq r.id i then some r.doc else find rs i

-- One of the rows is this one.
abbrev pub HasRow : List Row → Row → Type 0
HasRow [] r = ⊥
HasRow (x ∷ xs) r = (x ≡ r) ⊎ HasRow xs r

pub record Sql : Type 1 where
  pub Db : Type 0
  -- SELECT data FROM docs WHERE collection = ?
  pub select_all : Db → String → List Row
  -- INSERT OR REPLACE INTO docs (collection, id, data) VALUES (?, ?, ?)
  pub replace : Db → String → Text → Doc → Db
  -- INSERT OR IGNORE INTO docs (collection, id, data) VALUES (?, ?, ?)
  pub ignore : Db → String → Text → Doc → Db
  -- DELETE FROM docs WHERE collection = ? AND id = ?
  pub delete : Db → String → Text → Db
  pub find-replace :
      (d : Db) (c c' : String) (i i' : Text) (v : Doc)
      → find (select_all (replace d c i v) c') i'
        ≡ (if str_eq c c' && text_eq i i' then some v else find (select_all d c') i')
  pub find-ignore :
      (d : Db) (c c' : String) (i i' : Text) (v : Doc)
      → find (select_all (ignore d c i v) c') i' ≡ (
          if str_eq c c' && text_eq i i'
          then some (Option.get_or (find (select_all d c) i) v)
          else find (select_all d c') i')
  pub find-delete :
      (d : Db) (c c' : String) (i i' : Text)
      → find (select_all (delete d c i) c') i'
        ≡ (if str_eq c c' && text_eq i i' then none else find (select_all d c') i')
  -- The primary key: no other row has the same id.
  pub find_of_row :
      (d : Db) (c : String) (r : Row)
      → HasRow (select_all d c) r
      → find (select_all d c) r.id ≡ some r.doc
