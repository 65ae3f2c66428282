-- ===== src/Users/Handlers.antt =====
-- The routes keep the accounts in order, and the leaderboard is in the order of points.
use fbyt.Base.{
  ℕ, ◌<◌, ◌≡◌, ◌≢◌, refl, Text, trim, Option, none, some, [], ◌∷◌, List, map, filterb, take, ltb,
  ◌==◌, inl, inr, Option-cases,
}
use fbyt.Base.Sort.{sort_by, IsDescending, sort_by-IsDescending, filterb-sort_by}
use fbyt.Json.{Doc, Json, null, str, get}
use fbyt.Guard.Request.{Request, per_minute}
use fbyt.Http.{Platform, Server, json, limited, signed_in, on_db, body_fields}
use fbyt.Http.Laws.{Keeps, Keeps-bind, limited-db}
use fbyt.Users.Ops.{get_or_create_user, all_users, update_profile}
use fbyt.Users.Earned.{IsStored, create-IsStored, profile-IsStored, referral-IsStored}
use fbyt.Users.Routes.{
  not_blank, referral_code, patch_of, points_of, show_me, refer_me, change_me, put_body, put_me,
  leader_of, leaderboard,
}

not_blank_lem : (t c : Text) → not_blank t ≡ some c → c ≢ []
not_blank_lem [] c h e = cc
not_blank_lem (x ∷ xs) c h e = cc

code_not_empty : (o : Option Json) (c : Text) → referral_code o ≡ some c → c ≢ []
unfolding referral_code
code_not_empty (some (str t)) c h e = not_blank_lem (trim t) c h e
code_not_empty none c h e = cc
code_not_empty (some _) c h e = cc

module _ {pf : Platform} (now : ℕ) where
  abbrev InOrder : Server pf → Type 0
  InOrder s = IsStored (Platform.sql pf) s.db

  limited-InOrder :
      (req : Request) (n : ℕ) → Keeps {pf = pf} InOrder (limited req now (per_minute n))
  limited-InOrder req n = record { at = λ s h. rw (limited-db req now (per_minute n) s) h }

  signed_in-InOrder : (req : Request) → Keeps {pf = pf} InOrder (signed_in req now)
  unfolding signed_in
  signed_in-InOrder req = record { at = λ s h. h }

  refer-InOrder :
      (me : Text) (o : Option Json) → Keeps {pf = pf} InOrder (refer_me me (referral_code o) now)
  unfolding refer_me
  refer-InOrder me o = record {
    at = λ s h. elim (Option-cases (referral_code o)) [
      | inl e ↦ rw (e, refer_me) h
      | inr (c, e) ↦
          rw (e, refer_me)
            (referral-IsStored (Platform.sql pf) s.db me c now (code_not_empty o c e) h)
    ];
  }

  change-InOrder : (me : Text) (b : Doc) → 0 < now → Keeps {pf = pf} InOrder (change_me me b now)
  unfolding change_me
  change-InOrder me b t =
      Keeps-bind (refer_me me (referral_code (get b "referralCode")) now)
        (λ _. on_db (λ d. update_profile (Platform.sql pf) d me (patch_of b) now))
        (refer-InOrder me (get b "referralCode"))
        (λ _. record {
          at = λ s h. profile-IsStored (Platform.sql pf) s.db me (patch_of b) now t h;
        })

  body-InOrder :
      (me : Text) (body : Option Json) → 0 < now → Keeps {pf = pf} InOrder (put_body me body now)
  unfolding put_body
  body-InOrder me none t = record { at = λ s h. (change-InOrder me (body_fields none) t).at s h }
  body-InOrder me (some null) t = record { at = λ s h. h }
  body-InOrder me (some j) t = record {
    at = λ s h. (change-InOrder me (body_fields (some j)) t).at s h;
  }

  put-InOrder :
      (req : Request) (body : Option Json) → 0 < now → Keeps {pf = pf} InOrder (put_me req body now)
  unfolding put_me
  put-InOrder req body t = Keeps-bind _ _ (limited-InOrder req 20) (λ _.
      Keeps-bind (signed_in req now) (λ me. put_body me body now) (signed_in-InOrder req)
        (λ me. body-InOrder me body t))

  show-InOrder : (req : Request) → Keeps {pf = pf} InOrder (show_me req now)
  unfolding show_me
  show-InOrder req =
      Keeps-bind (signed_in req now)
        (λ me. on_db (λ d. get_or_create_user (Platform.sql pf) d me now)) (signed_in-InOrder req)
        (λ me. record { at = λ s h. create-IsStored (Platform.sql pf) s.db me now h })

-- Where the accounts are in order, and the time is after 1970: GET and PUT of one's own account keep every account's points earned, whatever the request and its body
-- are and however the handlers answer.
pub routes-IsStored :
    {pf : Platform} (req : Request) (body : Option Json) (now : ℕ) (s : Server pf)
    → 0 < now
    → IsStored (Platform.sql pf) s.db
    → IsStored (Platform.sql pf) (put_me req body now s).0.db
      × IsStored (Platform.sql pf) (show_me req now s).0.db
routes-IsStored req body now s t h =
    ((put-InOrder now req body t).at s h, (show-InOrder now req).at s h)

-- The leaderboard shows the address, name, points and number of referrals of the first 50 of a list of all users with points, which is in descending order of
-- points; users with the same points stand in the order of the store.
pub leaderboard_order :
    {pf : Platform} (s : Server pf)
    → (us : List Doc) × ((leaderboard s).1
        ≡ json (
            map
              (λ u. record {
                address = get u "id";
                display_name = get u "displayName";
                points = get u "points";
                referral_count = get u "referralCount";
              })
              (take 50 us)))
      × IsDescending points_of us
      × ((k : ℕ)
          → filterb (λ u. points_of u == k) us
            ≡ filterb
                (λ u. points_of u == k)
                (filterb (λ u. ltb 0 (points_of u)) (all_users (Platform.sql pf) s.db)))
unfolding leaderboard leader_of get
leaderboard_order {pf} s =
    let us = filterb (λ u. ltb 0 (points_of u)) (all_users (Platform.sql pf) s.db) in
    (
      sort_by points_of us,
      refl,
      sort_by-IsDescending points_of us,
      λ k. filterb-sort_by points_of k us,
    )
