-- ===== src/Users/Ops.antt =====
-- The functions of app/src/lib/users.ts, on the documents of the collection `users`.
use fbyt.Base.{
  ℕ, ◌+◌, String, Text, text_eq, true, false, not, ◌&&◌, Option, none, some, List, [], take,
  if◌then◌else◌,
}
use fbyt.Base.Int.{pos, ◌+ℤ◌}
use fbyt.Json.{Doc, Json, null, bool, num, str, end, field, get, set, truthy}
use fbyt.Db.Sql.{Sql}
use fbyt.Db.Ops.{db_all, db_get, db_put, db_update}

abbrev pub welcome_points : ℕ
welcome_points = 100

abbrev pub referrer_points : ℕ
referrer_points = 50

abbrev pub referee_points : ℕ
referee_points = 25

-- `v + n`, as it is stored. JSON stores NaN as null. Text is not among the values that are added.
unfoldable pub plus : Option Json → ℕ → Json
unfolding ◌+ℤ◌
plus (some (num z)) n = num (z +ℤ pos n)
plus (some null) n = num (pos n)
plus (some (bool true)) n = num (pos (1 + n))
plus (some (bool false)) n = num (pos n)
plus _ n = null

-- A field of a patch, if its value is a string: cut to `n` code units.
unfoldable pub clip : String → ℕ → Option Json → Doc → Doc
clip k n (some (str t)) next = set next k (str (take n t))
clip k n _ next = next

unfoldable pub blank : Text → ℕ → Doc
blank address now = field "id" (str address) (
    field "displayName" (str []) (
      field "bio" (str []) (
        field "points" (num (pos 0)) (
          field "referredBy" null (
            field "referralCount" (num (pos 0))
              (field "termsAcceptedAt" null (field "createdAt" (num (pos now)) end)))))))

-- The argument `patch` of `updateProfile`; the values come from a request's body.
pub record ProfilePatch : Type 0 where
  pub display_name : Option Json
  pub bio : Option Json
  pub accept_terms : Option Json

unfoldable pub profile_patch : Doc → ProfilePatch → ℕ → Doc
unfolding clip plus
profile_patch u patch now =
    let named = clip "bio" 280 patch.bio (clip "displayName" 40 patch.display_name end) in
    if truthy patch.accept_terms && not (truthy (get u "termsAcceptedAt"))
    then set (set named "termsAcceptedAt" (num (pos now))) "points"
        (plus (get u "points") welcome_points)
    else named

-- The result of `applyReferral`.
pub data Referral : Type 0 where
  applied : Referral
  refused : String → Referral

module _ (sql : Sql) where
  open sql use {Db}

  unfoldable pub get_user : Db → Text → Option Doc
  get_user d address = db_get sql d "users" address

  unfoldable pub get_or_create_user : Db → Text → ℕ → Db × Doc
  get_or_create_user d address now = elim (get_user d address) [
    | some u ↦ (d, u)
    | none ↦ db_put sql d "users" (blank address now)
  ]

  unfoldable pub all_users : Db → List Doc
  all_users d = db_all sql d "users"

  unfoldable pub update_profile : Db → Text → ProfilePatch → ℕ → Db × Doc
  update_profile d address patch now =
      let (d', u) = get_or_create_user d address now in
      db_update sql d' "users" address (profile_patch u patch now)

  -- The two updates of a referral that is accepted.
  unfoldable pub credit : Db → Text → Text → Doc → Doc → Db
  credit d referee referrer u ref =
      let d' =
        (db_update sql d "users" referee (
          field "referredBy" (str referrer)
            (field "points" (plus (get u "points") referee_points) end))).0 in
      (db_update sql d' "users" referrer (
        field "points" (plus (get ref "points") referrer_points)
          (field "referralCount" (plus (get ref "referralCount") 1) end))).0

  unfoldable pub apply_referral : Db → Text → Text → ℕ → Db × Referral
  apply_referral d referee referrer now =
      if text_eq referee referrer
      then (d, refused "cannot refer yourself")
      else let (d', u) = get_or_create_user d referee now in
        if truthy (get u "referredBy")
        then (d', refused "referral already set")
        else elim (get_user d' referrer) [
          | none ↦ (d', refused "unknown referrer")
          | some ref ↦ (credit d' referee referrer u ref, applied)
        ]
