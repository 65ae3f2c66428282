-- ===== src/Db/Memory.antt =====
-- A table in memory that meets the laws of `Sql`: the log of writes, newest first.
use mathlib.Core.Option
use text.Mathlib.Text.{◌==◌ as str_eq}
use text.Mathlib.TextEquality.{eq_iff}
use fbyt.Base.{
  ◌≡◌, refl, ap, String, Text, text_eq, text_eq_iff, none, some, arith, ◌&&◌, true, false,
  if◌then◌else◌, inl, inr, Option-cases, List, [], ◌∷◌, Bool-cases, Bool, ◌⊎◌,
}
use fbyt.Json.{Doc}
use fbyt.Db.Sql.{Sql, Row, find, HasRow}

pub data Write : Type 0 where
  put : String → Text → Doc → Write
  del : String → Text → Write

unfoldable pub without : Text → List Row → List Row
without i [] = []
without i (r ∷ rs) = let rest = without i rs in if text_eq r.id i then rest else r ∷ rest

unfoldable pub table : List Write → String → List Row
unfolding without
table [] c = []
table (put c' i v ∷ ws) c =
    let old = table ws c in if str_eq c' c then record { id = i; doc = v } ∷ without i old else old
table (del c' i ∷ ws) c = let old = table ws c in if str_eq c' c then without i old else old

unfoldable pub keep : List Write → String → Text → Doc → List Write
unfolding table find
keep ws c i v = elim (find (table ws c) i) [ some w ↦ ws | none ↦ put c i v ∷ ws ]

find-without :
    (i j : Text) (rs : List Row) → find (without i rs) j ≡ (if text_eq i j then none else find rs j)
unfolding find without
find-without i j [] = ground arith
find-without i j (r ∷ rs) =
    ground (arith, find-without i j rs, text_eq_iff r.id i, text_eq_iff r.id j, text_eq_iff i j)

pub find-put :
    (d : List Write) (c c' : String) (i i' : Text) (v : Doc)
    → find (table (put c i v ∷ d) c') i'
      ≡ (if str_eq c c' && text_eq i i' then some v else find (table d c') i')
unfolding table find
find-put d c c' i i' v = ground (arith, find-without i i' (table d c'))

pub find-del :
    (d : List Write) (c c' : String) (i i' : Text)
    → find (table (del c i ∷ d) c') i'
      ≡ (if str_eq c c' && text_eq i i' then none else find (table d c') i')
unfolding table
find-del d c c' i i' = ground (arith, find-without i i' (table d c'))

pub find-keep :
    (d : List Write) (c c' : String) (i i' : Text) (v : Doc)
    → find (table (keep d c i v) c') i' ≡ (
        if str_eq c c' && text_eq i i'
        then some (Option.get_or (find (table d c) i) v)
        else find (table d c') i')
unfolding keep
find-keep d c c' i i' v = elim (Option-cases (find (table d c) i)) [
  | inl e ↦ rw (e, keep) (find-put d c c' i i' v)
  | inr (w, e) ↦ ground (arith, e, eq_iff c c', text_eq_iff i i')
]

row_of_choice :
    (b : Bool) (x r : Row) (ys : List Row)
    → HasRow (if b then ys else x ∷ ys) r
    → HasRow ys r ⊎ ((x ≡ r) × (b ≡ false))
row_of_choice true x r ys h = inl h
row_of_choice false x r ys (inl e) = inr (e, refl)
row_of_choice false x r ys (inr h) = inl h

row-without :
    (i : Text) (rs : List Row) (r : Row)
    → HasRow (without i rs) r
    → HasRow rs r × (text_eq r.id i ≡ false)
unfolding without
row-without i [] r h = elim h [ ]
row-without i (x ∷ rs) r h = elim (row_of_choice (text_eq x.id i) x r (without i rs) h) [
  | inl m ↦ let (n, e) = row-without i rs r m in (inr n, e)
  | inr (e, f) ↦ (inl e, ground (arith, f, e))
]

find_old :
    (i : Text) (rs : List Row) (r : Row)
    → (HasRow rs r → find rs r.id ≡ some r.doc)
    → HasRow (without i rs) r
    → (find (without i rs) r.id ≡ some r.doc) × (text_eq i r.id ≡ false)
find_old i rs r ih h =
    let (m, e) = row-without i rs r h in
    ground (arith, find-without i r.id rs, ih m, e, text_eq_iff i r.id, text_eq_iff r.id i)

find_newest :
    (i : Text) (v : Doc) (rs : List Row) (r : Row)
    → (HasRow rs r → find rs r.id ≡ some r.doc)
    → HasRow (record { id = i; doc = v } ∷ without i rs) r
    → find (record { id = i; doc = v } ∷ without i rs) r.id ≡ some r.doc
unfolding find
find_newest i v rs r ih (inl e) =
    ground (arith, text_eq_iff i r.id, ap (λ (q : Row). q.id) e, ap (λ (q : Row). q.doc) e)
find_newest i v rs r ih (inr m) = ground (arith, find_old i rs r ih m)

pub find_of_row_mem :
    (d : List Write) (c : String) (r : Row)
    → HasRow (table d c) r
    → find (table d c) r.id ≡ some r.doc
unfolding table
find_of_row_mem [] c r h = elim h [ ]
find_of_row_mem (put c' i v ∷ d) c r h = elim (Bool-cases (str_eq c' c)) [
  | inl e ↦
      rw (e, table) (find_newest i v (table d c) r (find_of_row_mem d c r) (rw (e, table) at h))
  | inr e ↦ rw (e, table) (find_of_row_mem d c r (rw (e, table) at h))
]
find_of_row_mem (del c' i ∷ d) c r h = elim (Bool-cases (str_eq c' c)) [
  | inl e ↦ rw (e, table) (find_old i (table d c) r (find_of_row_mem d c r) (rw (e, table) at h)).0
  | inr e ↦ rw (e, table) (find_of_row_mem d c r (rw (e, table) at h))
]

abbrev pub memory : Sql
memory = record {
  Db = List Write;
  select_all = table;
  replace = λ d c i v. put c i v ∷ d;
  ignore = keep;
  delete = λ d c i. del c i ∷ d;
  find-replace = find-put;
  find-ignore = find-keep;
  find-delete = find-del;
  find_of_row = find_of_row_mem;
}
