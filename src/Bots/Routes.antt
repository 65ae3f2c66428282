-- ===== src/Bots/Routes.antt =====
-- The handlers of app/src/app/api/bots/[id]/route.ts, the listing of app/src/app/api/bots/route.ts,
-- and the selection of bots in `runDbMode` of app/scripts/keeper.ts.
use mathlib.Core.List.{reverse}
use fbyt.Base.{
  ℕ, ◌-◌, Text, text_eq, Bool, true, false, not, ◌&&◌, Option, none, some, List, [], ◌∷◌, drop,
  length, if◌then◌else◌,
}
use fbyt.Json.{Doc, Json, null, bool, str, end, field, get, set, truthy}
use fbyt.Db.Ops.{db_get, db_query, db_put, db_update}
use fbyt.Guard.Request.{Request, per_minute}
use fbyt.Http.{
  Platform, Server, Handler, json, thrown, refuse, pure, limited, signed_in, body_fields, ◌>>=◌,
  ◌>>◌,
}

-- `v === t`
unfoldable pub is_str : Option Json → Text → Bool
is_str (some (str u)) t = text_eq u t
is_str _ t = false

-- Which bots GET /api/bots lists; `vault` is the query's, if it has one.
unfoldable pub lists_bot : Option Text → Doc → Bool
unfolding is_str truthy
lists_bot vault b =
    not (truthy (get b "deleted"))
    && elim vault [ none ↦ true | some [] ↦ true | some (c ∷ cs) ↦ is_str (get b "vault") (c ∷ cs) ]

-- Which bots the keeper runs, as the delegate.
unfoldable pub runs_bot : Text → Doc → Bool
unfolding is_str truthy
runs_bot delegate b = truthy (get b "enabled") && is_str (get b "delegate") delegate

-- `xs.slice(-n)`
unfoldable pub last_n {ℓ} : {A : Type ℓ} → ℕ → List A → List A
last_n n xs = drop (length xs - n) xs

-- `{ ...bot, enabled: false, deleted: true }`
abbrev pub tombstone : Doc → Doc
tombstone bot = set (set bot "enabled" (bool false)) "deleted" (bool true)

module _ {pf : Platform} where
  abbrev pub list_bots : Option Text → Handler pf (List Doc)
  list_bots vault s = (s, json (db_query (Platform.sql pf) s.db "bots" (lists_bot vault)))

  abbrev pub keeper_bots : Server pf → Text → List Doc
  keeper_bots s delegate = db_query (Platform.sql pf) s.db "bots" (runs_bot delegate)

  -- `const bot = await dbGet('bots', id); if (!bot) …`
  unfoldable pub find_bot : Text → Handler pf Doc
  find_bot id s = elim (db_get (Platform.sql pf) s.db "bots" id) [
    | none ↦ refuse 404 "not found" s
    | some bot ↦ pure bot s
  ]

  -- `if (bot.owner !== me) …`
  unfoldable pub require_owner : Text → Doc → Handler pf (Unit {0})
  unfolding is_str
  require_owner me bot s =
      if is_str (get bot "owner") me then pure tt s else refuse 403 "not the owner" s

  -- GET: the bot, and its last 25 orders, newest first.
  unfoldable pub show_bot : Text → Handler pf (Doc × List Doc)
  unfolding last_n
  show_bot id = do
    bot ← find_bot id
    λ s.
        pure
          (
            bot,
            reverse (
                last_n 25
                  (db_query (Platform.sql pf) s.db "botOrders" (λ o. is_str (get o "botId") id))),
          )
          s

  -- The bot of a signed-in owner.
  unfoldable pub own_bot : Request → Text → ℕ → Handler pf Doc
  own_bot req id now = do
    limited req now (per_minute 30)
    me ← signed_in req now
    bot ← find_bot id
    require_owner me bot
    pure bot

  -- From `const body` on. A body that is null has no field to read.
  unfoldable pub set_enabled : Text → Option Json → Handler pf Doc
  unfolding truthy
  set_enabled id (some null) s = (s, thrown)
  set_enabled id body s =
      let (d, next) =
        db_update (Platform.sql pf) s.db "bots" id
          (field "enabled" (bool (truthy (get (body_fields body) "enabled"))) end) in
      (record s { db = d }, json next)

  unfoldable pub patch_bot : Request → Text → Option Json → ℕ → Handler pf Doc
  unfolding own_bot set_enabled
  patch_bot req id body now = do own_bot req id now; set_enabled id body

  unfoldable pub bury : Text → Doc → Handler pf (Unit {0})
  bury id bot s =
      let d = (db_update (Platform.sql pf) s.db "bots" id (field "enabled" (bool false) end)).0 in
      (record s { db = (db_put (Platform.sql pf) d "bots" (tombstone bot)).0 }, json tt)

  unfoldable pub delete_bot : Request → Text → ℕ → Handler pf (Unit {0})
  unfolding own_bot bury
  delete_bot req id now = do bot ← own_bot req id now; bury id bot
