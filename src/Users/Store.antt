-- ===== src/Users/Store.antt =====
-- The calls of users.ts on the stored accounts.
use mathlib.Core.Option
use fbyt.Base.{
  ℕ, ◌≡◌, refl, ap, ◌∙◌, Text, text_eq, text_eq_iff, text_eq_refl, some, arith, if◌then◌else◌,
  Bool-cases, Option-cases, inl, inr,
}
use fbyt.Json.{Doc, get}
use fbyt.Db.Sql.{Sql}
use fbyt.Db.Ops.{db_put, db_update, merged, id_of}
use fbyt.Db.Laws.{get-put, get-update}
use fbyt.Users.Ops.{
  ProfilePatch, blank, profile_patch, get_user, get_or_create_user, update_profile,
}
use fbyt.Users.Account.{User, user_doc, new_user, blank-user_doc, profiled, merge_profile}

module _ (sql : Sql) where
  open sql use {Db}

  -- The account is stored under its address.
  abbrev pub Holds : Db → User → Type 0
  Holds d u = get_user sql d u.id ≡ some (user_doc u)

  pub get_user-update :
      (d : Db) (a b : Text) (patch : Doc)
      → get_user sql (db_update sql d "users" a patch).0 b
        ≡ (if text_eq a b then some (merged (get_user sql d a) a patch) else get_user sql d b)
  unfolding get_user
  get_user-update d a b patch = get-update sql d "users" "users" a b patch

  id_of-blank : (a : Text) (now : ℕ) → id_of (blank a now) ≡ a
  unfolding id_of blank get
  id_of-blank a now = refl

  get_user-blank :
      (d : Db) (a b : Text) (now : ℕ)
      → get_user sql (db_put sql d "users" (blank a now)).0 b
        ≡ (if text_eq a b then some (user_doc (new_user a now)) else get_user sql d b)
  unfolding get_user
  get_user-blank d a b now =
      get-put sql d "users" "users" b (blank a now) ∙ rw (id_of-blank a now, blank-user_doc a now)

  -- A first read creates a blank account; otherwise nothing is written.
  pub get_user-create :
      (d : Db) (a b : Text) (now : ℕ)
      → get_user sql (get_or_create_user sql d a now).0 b ≡ (
          if text_eq a b
          then some (Option.get_or (get_user sql d a) (user_doc (new_user a now)))
          else get_user sql d b)
  unfolding get_or_create_user
  get_user-create d a b now = elim (Option-cases (get_user sql d a)) [
    | inl e ↦ rw (e, get_or_create_user) (get_user-blank d a b now)
    | inr (v, e) ↦ ground (arith, e, text_eq_iff a b)
  ]

  pub created_doc :
      (d : Db) (a : Text) (now : ℕ)
      → (get_or_create_user sql d a now).1
        ≡ Option.get_or (get_user sql d a) (user_doc (new_user a now))
  unfolding get_or_create_user db_put
  created_doc d a now = ground (arith, blank-user_doc a now)

  -- The account that a call finds or creates.
  abbrev pub Finds : Db → User → ℕ → Type 0
  Finds d u now = Option.get_or (get_user sql d u.id) (user_doc (new_user u.id now)) ≡ user_doc u

  pub found :
      (d : Db) (u : User) (now : ℕ)
      → Finds d u now
      → get_user sql (get_or_create_user sql d u.id now).0 u.id ≡ some (user_doc u)
  found d u now f =
      get_user-create d u.id u.id now ∙ rw (text_eq_refl u.id) (ap (λ (v : Doc). some v) f)

  -- `updateProfile` changes the one account, as `profiled` says.
  pub get_user-profile :
      (d : Db) (u : User) (patch : ProfilePatch) (now : ℕ) (b : Text)
      → Finds d u now
      → get_user sql (update_profile sql d u.id patch now).0 b
        ≡ (if text_eq u.id b then some (user_doc (profiled u patch now)) else get_user sql d b)
  unfolding update_profile
  get_user-profile d u patch now b f =
      let v = created_doc d u.id now ∙ f in
      rw v (
        get_user-update (get_or_create_user sql d u.id now).0 u.id b
          (profile_patch (user_doc u) patch now)
        ∙ rw (found d u now f, merge_profile u patch now)
            (elim (Bool-cases (text_eq u.id b)) [
              | inl e ↦ rw e
              | inr e ↦ rw e (get_user-create d u.id b now ∙ rw e)
            ]))
