-- ===== src/Http.antt =====
-- The frame of the route handlers under app/src/app/api: their state, their responses, early
-- returns, and the steps that many of them begin with.
pub mod Laws
use fbyt.Base.{ℕ, String, Text, Bool, true, false, Option, none, some, [], ◌∷◌}
use fbyt.Json.{Doc, Json, end, obj}
use fbyt.Db.Sql.{Sql}
use fbyt.Guard.Limiter.{Buckets}
use fbyt.Guard.Request.{Request, Limits, Rejection, cross_origin, rate_limited, guard}
use fbyt.Session.Cookie.{Runtime, verify_session}

-- `json`: a body with status 200. `fail`: `{ error }` with its status. `thrown`: an exception that
-- the handler leaves to Next.
pub data Response {ℓ} (A : Type ℓ) : Type ℓ where
  json : A → Response A
  fail : ℕ → String → Response A
  thrown : Response A

-- What the process runs on: SQLite, the runtime of the session cookie, and the URL parser.
pub record Platform : Type 1 where
  pub sql : Sql
  pub runtime : Runtime
  pub host_of : Text → Option Text

-- The state that requests share: the datastore, and the limiter's buckets of this process.
pub record Server (pf : Platform) : Type 0 where
  pub db : Sql.Db (Platform.sql pf)
  pub buckets : Buckets

abbrev pub Handler {ℓ} : Platform → Type ℓ → Type ℓ
Handler pf A = Server pf → Server pf × Response A

-- `const blocked = guard(req, …); if (blocked) return blocked;`
abbrev pub rejection_of : Option Rejection → Response (Unit {0})
rejection_of none = json tt
rejection_of (some cross_origin) = fail 403 "cross-origin request rejected"
rejection_of (some rate_limited) = fail 429 "rate limit exceeded, slow down"

-- `const me = await currentUser(); if (!me) return … 401`
unfoldable pub current_user : Platform → Request → ℕ → Option (Option Text)
unfolding verify_session
current_user pf req now = verify_session (Platform.runtime pf) now req.cookie

abbrev pub user_of : Option (Option Text) → Response Text
user_of none = thrown
user_of (some none) = fail 401 "not signed in"
user_of (some (some [])) = fail 401 "not signed in"
user_of (some (some (c ∷ cs))) = json (c ∷ cs)

module _ {pf : Platform} where
  abbrev pub pure {ℓ} : {A : Type ℓ} → A → Handler pf A
  pure a s = (s, json a)

  abbrev pub refuse {ℓ} : {A : Type ℓ} → ℕ → String → Handler pf A
  refuse status message s = (s, fail status message)

  infixl 5 ◌>>=◌ ◌>>◌
  abbrev pub ◌>>=◌ {ℓ κ} :
      {A : Type ℓ} {B : Type κ} → Handler pf A → (A → Handler pf B) → Handler pf B
  ◌>>=◌ m f s =
      let (s', r) = m s in
      elim r [
        | json a ↦ f a s'
        | fail status message ↦ (s', fail status message)
        | thrown ↦ (s', thrown)
      ]

  abbrev pub ◌>>◌ {ℓ κ} : {A : Type ℓ} {B : Type κ} → Handler pf A → Handler pf B → Handler pf B
  m >> k = m >>= λ _. k

  unfoldable pub limited : Request → ℕ → Limits → Handler pf (Unit {0})
  unfolding guard
  limited req now opts s =
      let (bs, r) = guard (Platform.host_of pf) req opts now s.buckets in
      (record s { buckets = bs }, rejection_of r)

  unfoldable pub signed_in : Request → ℕ → Handler pf Text
  unfolding current_user
  signed_in req now s = (s, user_of (current_user pf req now))

  -- A call of db.ts that writes, and one that reads.
  abbrev pub on_db {ℓ} :
      {A : Type ℓ} → (Sql.Db (Platform.sql pf) → Sql.Db (Platform.sql pf) × A) → Handler pf A
  on_db f s = let (d, a) = f s.db in (record s { db = d }, json a)

  abbrev pub from_db {ℓ} : {A : Type ℓ} → (Sql.Db (Platform.sql pf) → A) → Handler pf A
  from_db f s = (s, json (f s.db))

-- `await req.json().catch(() => ({}))`: a body that is no JSON counts as `{}`. A body that is JSON
-- and no object has no fields.
abbrev pub body_fields : Option Json → Doc
body_fields (some (obj d)) = d
body_fields _ = end
