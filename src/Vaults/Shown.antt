-- ===== src/Vaults/Shown.antt =====
-- What the lists of vaults and the history show, against the store they are read from.
use fbyt.Base.{
  ℕ, String, ◌≡◌, ◌∙◌, sym, ap, refl, inl, inr, arith, subst, Text, text_eq, text_eq_iff, false,
  Option, none, some, List, [], ◌∷◌, map, filterb, ◌==◌, Option-cases,
}
use fbyt.Base.Sort.{
  sort_up, IsDescending, IsAscending, sort_by-IsDescending, sort_up-IsAscending, filterb-sort_by,
  filterb-sort_up,
}
use fbyt.Json.{Doc, str, get}
use fbyt.Db.Sql.{Sql}
use fbyt.Db.Ops.{id_of, db_all, db_get, db_query}
use fbyt.Db.Laws.{all_iff_get, HasDoc}
use fbyt.Db.Keyed.{IsKeyed}
use fbyt.Bots.Routes.{is_str}
use fbyt.Http.{Platform, Server, json}
use fbyt.Nav.Ledger.{got}
use fbyt.Vaults.Profiles.{profile_at, get_all_metadata, get_metadata}
use fbyt.Vaults.Listing.{
  Program, VaultSummary, fetch_vaults, raised_of, sort_vaults, view_vault, point_of, time_of,
  list_vaults, show_history,
}
use mathlib.Core.Path.{fun_ext}

-- Each listed document is the one that is found under its id.
abbrev IsFound : List Doc → (Text → Option Doc) → Type 0
IsFound rows look = (v : Doc) → HasDoc rows v → look (id_of v) ≡ some v

profile_at-some :
    (rows : List Doc) (look : Text → Option Doc) (a : Text) (v : Doc)
    → IsFound rows look
    → profile_at rows a ≡ some v
    → look a ≡ some v
unfolding profile_at
profile_at-some [] look a v f e = cc
profile_at-some (r ∷ rs) look a v f e = elim (Option-cases (profile_at rs a)) [
  | inl none_left ↦ ground (arith, e, none_left, f r (inl refl), text_eq_iff (id_of r) a)
  | inr (w, there) ↦
      profile_at-some rs look a w (λ x h. f x (inr h)) there ∙ ground (arith, e, there)
]

profile_at-none :
    (rows : List Doc) (a : Text) (v : Doc)
    → profile_at rows a ≡ none
    → HasDoc rows v
    → text_eq (id_of v) a ≡ false
unfolding profile_at
profile_at-none [] a v e h = elim h [ ]
profile_at-none (r ∷ rs) a v e h = elim (Option-cases (profile_at rs a)) [
  | inl none_left ↦ elim h [
    | inl same ↦ subst (λ x. text_eq (id_of x) a ≡ false) same (ground (arith, e, none_left))
    | inr later ↦ profile_at-none rs a v none_left later
  ]
  | inr (w, there) ↦ absurd (ground (arith, e, there))
]

id_of-keyed : (v : Doc) (i : Text) → get v "id" ≡ some (str i) → id_of v ≡ i
unfolding id_of
id_of-keyed v i e = rw (e, id_of) refl

module _ (sql : Sql) (d : Sql.Db sql) (keyed : IsKeyed sql d) where
  all-IsFound : (c : String) → IsFound (db_all sql d c) (db_get sql d c)
  all-IsFound c v h =
      let (i, e) = (all_iff_get sql d c v).0 h in
      ap (db_get sql d c) (id_of-keyed v i (keyed c i v e)) ∙ e

  -- In a store where every document stands under its id, the table of all profiles has for a vault what is
  -- read for this vault alone.
  pub get_all_metadata-get : (a : Text) → get_all_metadata sql d a ≡ get_metadata sql d a
  unfolding get_all_metadata get_metadata
  get_all_metadata-get a =
      let rows = db_all sql d "vaultMetadata" in
      elim (Option-cases (profile_at rows a)) [
        | inr (v, e) ↦
            e
            ∙ sym (
                profile_at-some rows (db_get sql d "vaultMetadata") a v
                  (all-IsFound "vaultMetadata") e)
        | inl e ↦ elim (Option-cases (db_get sql d "vaultMetadata" a)) [
          | inl free ↦ e ∙ sym free
          | inr (v, there) ↦ absurd (
              ground (
                arith,
                profile_at-none rows a v e ((all_iff_get sql d "vaultMetadata" v).1 (a, there)),
                id_of-keyed v a (keyed "vaultMetadata" a v there),
                text_eq_iff (id_of v) a,
              ))
        ]
      ]

-- When the chain lists the vaults, the answer shows each with its own profile, by descending raised amount,
-- and in the chain's order where the amounts are equal. Every stored document stands under its id.
pub list_vaults_lem :
    {pf : Platform} (pg : Program) (s : Server pf) (vs : List VaultSummary)
    → IsKeyed (Platform.sql pf) s.db
    → fetch_vaults pg ≡ got vs
    → (ws : List VaultSummary) × ((list_vaults pg s).1
        ≡ json (map (view_vault (get_metadata (Platform.sql pf) s.db)) ws))
      × IsDescending raised_of ws
      × ((k : ℕ) → filterb (λ v. raised_of v == k) ws ≡ filterb (λ v. raised_of v == k) vs)
unfolding list_vaults sort_vaults
list_vaults_lem {pf} pg s vs keyed e = (
  sort_vaults vs,
  rw (e, list_vaults)
      (ap (λ look. json (map (view_vault look) (sort_vaults vs)))
        (fun_ext (get_all_metadata-get (Platform.sql pf) s.db keyed))),
  sort_by-IsDescending raised_of vs,
  λ k. filterb-sort_by raised_of k vs,
)

-- The history of a vault has its snapshots and no other, from the earliest to the latest, and those of one
-- time in the order of the store.
pub show_history_lem :
    {pf : Platform} (address : Text) (s : Server pf)
    → (ds : List Doc) × ((show_history address s).1 ≡ json (map point_of ds))
      × IsAscending time_of ds
      × ((k : ℕ)
          → filterb (λ d. time_of d == k) ds
            ≡ filterb
                (λ d. time_of d == k)
                (db_query
                  (Platform.sql pf)
                  s.db
                  "navSnapshots"
                  (λ d. is_str (get d "vault") address)))
unfolding show_history
show_history_lem {pf} address s =
    let own =
      db_query (Platform.sql pf) s.db "navSnapshots" (λ d. is_str (get d "vault") address) in
    (sort_up time_of own, refl, sort_up-IsAscending time_of own, λ k. filterb-sort_up time_of k own)
