-- ===== src/Users/Routes.antt =====
-- The handlers of app/src/app/api/users/me/route.ts, app/src/app/api/users/[address]/route.ts and
-- app/src/app/api/points/route.ts.
use fbyt.Base.{ℕ, Text, Option, none, some, List, [], ◌∷◌, map, filterb, take, trim, ltb}
use fbyt.Base.Int.{pos}
use fbyt.Base.Sort.{sort_by}
use fbyt.Json.{Doc, Json, null, num, str, get}
use fbyt.Guard.Request.{Request, per_minute}
use fbyt.Http.{
  Platform, Handler, Response, json, fail, thrown, pure, limited, signed_in, on_db, body_fields,
  ◌>>=◌, ◌>>◌,
}
use fbyt.Users.Ops.{
  ProfilePatch, Referral, applied, refused, get_user, get_or_create_user, all_users, update_profile,
  apply_referral,
}

-- The public profile of a user.
pub record Profile : Type 0 where
  pub address : Option Json
  pub display_name : Option Json
  pub bio : Option Json
  pub points : Option Json
  pub referral_count : Option Json

unfoldable pub profile_of : Doc → Profile
unfolding get
profile_of u = record {
  address = get u "id";
  display_name = get u "displayName";
  bio = get u "bio";
  points = get u "points";
  referral_count = get u "referralCount";
}

-- An entry of the leaderboard.
pub record Leader : Type 0 where
  pub address : Option Json
  pub display_name : Option Json
  pub points : Option Json
  pub referral_count : Option Json

unfoldable pub leader_of : Doc → Leader
unfolding get
leader_of u = record {
  address = get u "id";
  display_name = get u "displayName";
  points = get u "points";
  referral_count = get u "referralCount";
}

-- `u.points`, which is a number that is not negative.
unfoldable pub points_of : Doc → ℕ
unfolding get
points_of u = elim (get u "points") [ some (num (pos n)) ↦ n | _ ↦ 0 ]

-- The fields of a PUT that `updateProfile` takes.
abbrev pub patch_of : Doc → ProfilePatch
patch_of b = record {
  display_name = get b "displayName";
  bio = get b "bio";
  accept_terms = get b "acceptTerms";
}

abbrev pub not_blank : Text → Option Text
not_blank [] = none
not_blank (c ∷ cs) = some (c ∷ cs)

-- The trimmed referral code, if it is a string that is not blank.
unfoldable pub referral_code : Option Json → Option Text
unfolding trim
referral_code (some (str t)) = not_blank (trim t)
referral_code _ = none

abbrev pub referral_answer : Referral → Response (Unit {0})
referral_answer applied = json tt
referral_answer (refused message) = fail 400 message

module _ {pf : Platform} where
  unfoldable pub show_me : Request → ℕ → Handler pf Doc
  show_me req now = do
    me ← signed_in req now
    on_db (λ d. get_or_create_user (Platform.sql pf) d me now)

  unfoldable pub refer_me : Text → Option Text → ℕ → Handler pf (Unit {0})
  refer_me me none now s = pure tt s
  refer_me me (some code) now s =
      let (d, r) = apply_referral (Platform.sql pf) s.db me code now in
      (record s { db = d }, referral_answer r)

  unfoldable pub change_me : Text → Doc → ℕ → Handler pf Doc
  change_me me body now = do
    refer_me me (referral_code (get body "referralCode")) now
    on_db (λ d. update_profile (Platform.sql pf) d me (patch_of body) now)

  -- A body that is null has no fields to read.
  unfoldable pub put_body : Text → Option Json → ℕ → Handler pf Doc
  put_body me (some null) now s = (s, thrown)
  put_body me body now s = change_me me (body_fields body) now s

  unfoldable pub put_me : Request → Option Json → ℕ → Handler pf Doc
  put_me req body now = do
    limited req now (per_minute 20)
    me ← signed_in req now
    put_body me body now

  unfoldable pub show_user : Text → Handler pf (Option Profile)
  unfolding profile_of
  show_user address s = (
    s,
    json (elim (get_user (Platform.sql pf) s.db address) [
      | none ↦ none
      | some u ↦ some (profile_of u)
    ]),
  )

  unfoldable pub leaderboard : Handler pf (List Leader)
  unfolding sort_by points_of leader_of
  leaderboard s = (
    s,
    json (
        map leader_of (
          take 50 (
            sort_by points_of
              (filterb (λ u. ltb 0 (points_of u)) (all_users (Platform.sql pf) s.db))))),
  )
