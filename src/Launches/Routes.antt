-- ===== src/Launches/Routes.antt =====
-- The handlers of app/src/app/api/launches/route.ts and app/src/app/api/launches/[id]/vote/route.ts.
-- The voters of a stored launch are an array of strings, if there are any.
use fbyt.Base.{
  ℕ, Text, Bool, ◌&&◌, Option, none, some, List, [], map, take, codes, length, starts_with,
  if◌then◌else◌,
}
use fbyt.Base.Int.{pos}
use fbyt.Base.Sort.{sort_by}
use fbyt.Json.{Doc, Json, nil, null, num, str, arr, end, field, get, truthy, texts, items}
use fbyt.Db.Ops.{db_all, db_get, db_update, db_append}
use fbyt.Guard.Request.{Request, per_minute}
use fbyt.Http.{
  Platform, Handler, json, thrown, refuse, pure, limited, signed_in, body_fields, ◌>>=◌, ◌>>◌,
}
use fbyt.Base.Sets.{set_of, has}
use fbyt.Launches.Voters.{toggle}

-- What the creation uses of JavaScript: `String(v)`, `s.toUpperCase()`, and `Number(v)`, where `none`
-- is 0 or NaN.
pub record Js : Type 0 where
  pub to_string : Json → Text
  pub to_upper : Text → Text
  pub to_number : Option Json → Option Json

-- `l.voters ?? []`
unfoldable pub voters_of : Doc → List Text
unfolding texts
voters_of l = elim (get l "voters") [ some (arr xs) ↦ texts xs | _ ↦ [] ]

-- `l.voters?.length ?? 0`
unfoldable pub votes_of : Doc → ℕ
unfolding voters_of
votes_of l = length (voters_of l)

-- The answer of GET, for one launch.
pub record View : Type 0 where
  pub id : Option Json
  pub name : Option Json
  pub symbol : Option Json
  pub description : Option Json
  pub image_url : Option Json
  pub launch_at : Option Json
  pub created_by : Option Json
  pub votes : ℕ

unfoldable pub view_launch : Doc → View
unfolding votes_of
view_launch l = record {
  id = get l "id";
  name = get l "name";
  symbol = get l "symbol";
  description = get l "description";
  image_url = get l "imageUrl";
  launch_at = get l "launchAt";
  created_by = get l "createdBy";
  votes = votes_of l;
}

-- The answer to a vote.
pub record Voted : Type 0 where
  pub votes : ℕ
  pub voted : Bool

module _ (js : Js) where
  open js use {to_string, to_upper, to_number}

  -- `String(v ?? '')`
  abbrev pub string_or_empty : Option Json → Text
  string_or_empty none = to_string (str [])
  string_or_empty (some null) = to_string (str [])
  string_or_empty (some v) = to_string v

  abbrev pub image_of : Option Json → Text
  image_of (some (str t)) = if starts_with (codes "/api/uploads/") t then t else []
  image_of _ = []

  abbrev pub launch_time : Option Json → ℕ → Json
  launch_time v now = elim (to_number v) [ some n ↦ n | none ↦ num (pos now) ]

  unfoldable pub launch_doc : Doc → Json → Json → Text → ℕ → Doc
  unfolding starts_with
  launch_doc b name symbol me now = field "name" (str (take 60 (to_string name))) (
      field "symbol" (str (to_upper (take 12 (to_string symbol)))) (
        field "description" (str (take 500 (string_or_empty (get b "description")))) (
          field "imageUrl" (str (image_of (get b "imageUrl"))) (
            field "launchAt" (launch_time (get b "launchAt") now) (
              field "createdBy" (str me)
                (field "voters" (arr nil) (field "createdAt" (num (pos now)) end)))))))

module _ {pf : Platform} where
  unfoldable pub list_launches : Handler pf (List View)
  unfolding sort_by votes_of view_launch
  list_launches s =
      (s, json (map view_launch (sort_by votes_of (db_all (Platform.sql pf) s.db "launches"))))

  -- From `if (!b.name || !b.symbol)` on; `fresh` is the generated key.
  unfoldable pub store_launch : Js → Doc → Text → Text → ℕ → Handler pf Text
  unfolding truthy launch_doc
  store_launch js b me fresh now s = elim (get b "name") [
    | none ↦ refuse 400 "name and symbol required" s
    | some name ↦ elim (get b "symbol") [
      | none ↦ refuse 400 "name and symbol required" s
      | some symbol ↦
          let (d, id) =
            db_append (Platform.sql pf) s.db "launches" (launch_doc js b name symbol me now) none
              fresh in
          if truthy (some name) && truthy (some symbol)
          then (record s { db = d }, json id)
          else refuse 400 "name and symbol required" s
    ]
  ]

  -- A body that is null is an exception.
  unfoldable pub create_body : Js → Option Json → Text → Text → ℕ → Handler pf Text
  create_body js (some null) me fresh now s = (s, thrown)
  create_body js body me fresh now s = store_launch js (body_fields body) me fresh now s

  unfoldable pub create_launch : Js → Request → Option Json → Text → ℕ → Handler pf Text
  create_launch js req body fresh now = do
    limited req now (per_minute 10)
    me ← signed_in req now
    create_body js body me fresh now

  unfoldable pub find_launch : Text → Handler pf Doc
  find_launch id s = elim (db_get (Platform.sql pf) s.db "launches" id) [
    | none ↦ refuse 404 "not found" s
    | some l ↦ pure l s
  ]

  -- From `const voters` on.
  unfoldable pub cast_vote : Text → Text → Doc → Handler pf Voted
  unfolding toggle set_of voters_of votes_of has
  cast_vote id me l s =
      let voters = toggle (set_of (voters_of l)) me in
      let (d, next) =
        db_update (Platform.sql pf) s.db "launches" id (field "voters" (arr (items voters)) end) in
      (record s { db = d }, json (record { votes = votes_of next; voted = has voters me }))

  unfoldable pub vote_launch : Request → Text → ℕ → Handler pf Voted
  vote_launch req id now = do
    limited req now (per_minute 30)
    me ← signed_in req now
    l ← find_launch id
    cast_vote id me l
