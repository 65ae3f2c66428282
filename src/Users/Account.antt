-- ===== src/Users/Account.antt =====
-- The typed account that a document of `users` stands for, and what its points are made of.
use fbyt.Base.{
  ℕ, ◌+◌, ◌≡◌, refl, Text, Bool, Option, none, some, [], arith, take, not, ◌&&◌, if◌then◌else◌,
  Bool-cases, inl, inr,
}
use fbyt.Base.Int.{pos, ◌+ℤ◌}
use fbyt.Json.{Doc, Json, null, num, str, end, field, get, set, truthy, spread}
use fbyt.Db.Ops.{merged}
use fbyt.Users.Ops.{
  blank, profile_patch, ProfilePatch, plus, clip, welcome_points, referrer_points, referee_points,
}

pub record User : Type 0 where
  pub id : Text
  pub display_name : Text
  pub bio : Text
  pub points : ℕ
  pub referred_by : Option Text
  pub referral_count : ℕ
  pub terms_accepted_at : Option ℕ
  pub created_at : ℕ

abbrev pub text_or_null : Option Text → Json
text_or_null none = null
text_or_null (some t) = str t

abbrev pub time_or_null : Option ℕ → Json
time_or_null none = null
time_or_null (some t) = num (pos t)

unfoldable pub user_doc : User → Doc
user_doc u = field "id" (str u.id) (
    field "displayName" (str u.display_name) (
      field "bio" (str u.bio) (
        field "points" (num (pos u.points)) (
          field "referredBy" (text_or_null u.referred_by) (
            field "referralCount" (num (pos u.referral_count)) (
              field "termsAcceptedAt" (time_or_null u.terms_accepted_at)
                (field "createdAt" (num (pos u.created_at)) end)))))))

-- The account that a first read creates.
abbrev pub new_user : Text → ℕ → User
new_user address now = record {
  id = address;
  display_name = [];
  bio = [];
  points = 0;
  referred_by = none;
  referral_count = 0;
  terms_accepted_at = none;
  created_at = now;
}

pub blank-user_doc :
    (address : Text) (now : ℕ) → blank address now ≡ user_doc (new_user address now)
unfolding blank user_doc
blank-user_doc address now = refl

abbrev pub shown : Option Json → Text → ℕ → Text
shown (some (str t)) old n = take n t
shown _ old n = old

-- Terms count as accepted from a time that is not 0.
abbrev pub accepted : User → Bool
accepted u = truthy (some (time_or_null u.terms_accepted_at))

-- `updateProfile` on accounts.
abbrev pub named : User → ProfilePatch → User
named u patch = record u {
  display_name = shown patch.display_name u.display_name 40;
  bio = shown patch.bio u.bio 280;
}

abbrev pub accepts : User → ProfilePatch → Bool
accepts u patch = truthy patch.accept_terms && not (accepted u)

unfoldable pub profiled : User → ProfilePatch → ℕ → User
profiled u patch now =
    if accepts u patch
    then record (named u patch) { points = u.points + welcome_points; terms_accepted_at = some now }
    else named u patch

abbrev pub names_patch : Option Json → Option Json → Doc
names_patch name bio = clip "bio" 280 bio (clip "displayName" 40 name end)

merge_names :
    (u : User) (name bio : Option Json)
    → merged (some (user_doc u)) u.id (names_patch name bio)
      ≡ user_doc
          (record u { display_name = shown name u.display_name 40; bio = shown bio u.bio 280 })
unfolding merged spread set user_doc clip
merge_names u (some (str t)) (some (str s)) = refl
merge_names u (some (str t)) _ = refl
merge_names u _ (some (str s)) = refl
merge_names u _ _ = refl

merge_terms :
    (u : User) (name bio : Option Json) (now : ℕ)
    → merged (some (user_doc u)) u.id (
        set
          (set (names_patch name bio) "termsAcceptedAt" (num (pos now)))
          "points"
          (num (pos (u.points + welcome_points))))
      ≡ user_doc (record u {
        display_name = shown name u.display_name 40;
        bio = shown bio u.bio 280;
        points = u.points + welcome_points;
        terms_accepted_at = some now;
      })
unfolding merged spread set user_doc clip
merge_terms u (some (str t)) (some (str s)) now = refl
merge_terms u (some (str t)) _ now = refl
merge_terms u _ (some (str s)) now = refl
merge_terms u _ _ now = refl

plus_points : (a b : ℕ) → plus (some (num (pos a))) b ≡ num (pos (a + b))
unfolding plus ◌+ℤ◌
plus_points a b = ground arith

get_points : (u : User) → get (user_doc u) "points" ≡ some (num (pos u.points))
unfolding get user_doc
get_points u = refl

get_terms :
    (u : User) → get (user_doc u) "termsAcceptedAt" ≡ some (time_or_null u.terms_accepted_at)
unfolding get user_doc
get_terms u = refl

pub get_referred : (u : User) → get (user_doc u) "referredBy" ≡ some (text_or_null u.referred_by)
unfolding get user_doc
get_referred u = refl

get_count : (u : User) → get (user_doc u) "referralCount" ≡ some (num (pos u.referral_count))
unfolding get user_doc
get_count u = refl

-- The document that `updateProfile` stores is that of the account with the patch.
pub merge_profile :
    (u : User) (patch : ProfilePatch) (now : ℕ)
    → merged (some (user_doc u)) u.id (profile_patch (user_doc u) patch now)
      ≡ user_doc (profiled u patch now)
unfolding profile_patch profiled
merge_profile u patch now =
    rw (get_terms u, get_points u, plus_points u.points welcome_points)
      (elim (Bool-cases (accepts u patch)) [
        | inl e ↦ rw e (merge_terms u patch.display_name patch.bio now)
        | inr e ↦ rw e (merge_names u patch.display_name patch.bio)
      ])

-- The two documents that a referral stores.
pub merge_referee :
    (u : User) (referrer : Text)
    → merged (some (user_doc u)) u.id (
        field "referredBy"
          (str referrer)
          (field "points" (plus (get (user_doc u) "points") referee_points) end))
      ≡ user_doc (record u { points = u.points + referee_points; referred_by = some referrer })
merge_referee u referrer =
    rw (get_points u, plus_points u.points referee_points)
      (unfold merged spread set user_doc in refl)

pub merge_referrer :
    (v : User)
    → merged (some (user_doc v)) v.id (
        field "points"
          (plus (get (user_doc v) "points") referrer_points)
          (field "referralCount" (plus (get (user_doc v) "referralCount") 1) end))
      ≡ user_doc
          (record v { points = v.points + referrer_points; referral_count = v.referral_count + 1 })
merge_referrer v =
    rw
      (
        get_points v,
        get_count v,
        plus_points v.points referrer_points,
        plus_points v.referral_count 1,
      )
      (unfold merged spread set user_doc in refl)
