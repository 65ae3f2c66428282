-- ===== src/Bots/Removed.antt =====
-- A removed bot is neither listed nor run, until its owner enables it again.
use fbyt.Base.{
  ℕ, ◌≡◌, refl, ap, ◌∙◌, Text, text_eq, true, false, not, Option, some, none, arith, if◌then◌else◌,
}
use fbyt.Json.{Doc, Json, bool, str, obj, end, field, get, set, truthy, get-set, last}
use fbyt.Db.Ops.{db_get, db_update, id_of, merged}
use fbyt.Db.Laws.{get-put, get-update, get-merged}
use fbyt.Db.Keyed.{IsKeyed}
use fbyt.Guard.Request.{Request}
use fbyt.Http.{Platform, Server, json}
use fbyt.Http.Laws.{>>=-json}
use fbyt.Bots.Routes.{
  is_str, lists_bot, runs_bot, own_bot, set_enabled, patch_bot, tombstone, bury, delete_bot,
}
use fbyt.Bots.Owner.{IsOwned, own-IsOwned, own-Same}

id_of-tombstone :
    (bot : Doc) (id : Text) → get bot "id" ≡ some (str id) → id_of (tombstone bot) ≡ id
unfolding id_of
id_of-tombstone bot id h = ground (
  arith,
  h,
  get-set (set bot "enabled" (bool false)) "deleted" "id" (bool true),
  get-set bot "enabled" "id" (bool false),
)

not_listed : (vault : Option Text) (bot : Doc) → lists_bot vault (tombstone bot) ≡ false
unfolding lists_bot truthy
not_listed vault bot =
    rw (get-set (set bot "enabled" (bool false)) "deleted" "deleted" (bool true)) refl

not_run : (delegate : Text) (bot : Doc) → runs_bot delegate (tombstone bot) ≡ false
unfolding runs_bot truthy
not_run delegate bot =
    rw
      (
        get-set (set bot "enabled" (bool false)) "deleted" "enabled" (bool true),
        get-set bot "enabled" "enabled" (bool false),
      )
      refl

get-bury :
    {pf : Platform} (id : Text) (bot : Doc) (s : Server pf) (i : Text)
    → get bot "id" ≡ some (str id)
    → db_get (Platform.sql pf) (bury id bot s).0.db "bots" i
      ≡ (if text_eq id i then some (tombstone bot) else db_get (Platform.sql pf) s.db "bots" i)
unfolding bury
get-bury {pf} id bot s i h =
    let d = (db_update (Platform.sql pf) s.db "bots" id (field "enabled" (bool false) end)).0 in
    get-put (Platform.sql pf) d "bots" "bots" i (tombstone bot)
    ∙ rw (id_of-tombstone bot id h) (
        ground (
          arith,
          get-update (Platform.sql pf) s.db "bots" "bots" id i (field "enabled" (bool false) end),
        ))

-- In a store where each document carries its key: when DELETE answers, the request was signed in as
-- the owner, the stored bot is the tombstone, every other bot is as before, and the tombstone is
-- neither listed nor run for any vault or delegate.
pub delete_bot_lem :
    {pf : Platform} (req : Request) (id : Text) (now : ℕ) (s : Server pf) (vault : Option Text)
    (delegate i : Text) (u : Unit {0})
    → IsKeyed (Platform.sql pf) s.db
    → (delete_bot {pf = pf} req id now s).1 ≡ json u
    → (bot : Doc) × IsOwned pf s req id now bot
      × (db_get (Platform.sql pf) (delete_bot {pf = pf} req id now s).0.db "bots" i
          ≡ (if text_eq id i then some (tombstone bot) else db_get (Platform.sql pf) s.db "bots" i))
      × (lists_bot vault (tombstone bot) ≡ false)
      × (runs_bot delegate (tombstone bot) ≡ false)
unfolding delete_bot
delete_bot_lem {pf} req id now s vault delegate i u k h =
    let (bot, p, q, z) = >>=-json (own_bot req id now) (bury id) s u h in
    let o = own-IsOwned req id now s bot p in
    let s1 = (own_bot {pf = pf} req id now s).0 in
    let same : s1.db ≡ s.db = (own-Same req id now s).at s refl in
    (
      bot,
      o,
      ap (λ (t : Server pf). db_get (Platform.sql pf) t.db "bots" i) z
          ∙ get-bury id bot s1 i (k "bots" id bot o.stored)
          ∙ rw same,
      not_listed vault bot,
      not_run delegate bot,
    )

abbrev enable : Option Json
enable = some (obj (field "enabled" (bool true) end))

get-enabled :
    (bot : Doc) (id : Text)
    → get (merged (some bot) id (field "enabled" (bool true) end)) "enabled" ≡ some (bool true)
unfolding last
get-enabled bot id = get-merged (some bot) id (field "enabled" (bool true) end) "enabled"

get-delegate :
    (bot : Doc) (id : Text)
    → get (merged (some bot) id (field "enabled" (bool true) end)) "delegate" ≡ get bot "delegate"
unfolding last
get-delegate bot id = get-merged (some bot) id (field "enabled" (bool true) end) "delegate"

get-deleted :
    (bot : Doc) (id : Text)
    → get (merged (some bot) id (field "enabled" (bool true) end)) "deleted" ≡ get bot "deleted"
unfolding last
get-deleted bot id = get-merged (some bot) id (field "enabled" (bool true) end) "deleted"

enabled_runs :
    (bot : Doc) (id delegate : Text)
    → runs_bot delegate (merged (some bot) id (field "enabled" (bool true) end))
      ≡ is_str (get bot "delegate") delegate
unfolding runs_bot truthy
enabled_runs bot id delegate = rw (get-enabled bot id, get-delegate bot id) refl

enabled_listed :
    (bot : Doc) (id : Text)
    → lists_bot none (merged (some bot) id (field "enabled" (bool true) end))
      ≡ not (truthy (get bot "deleted"))
unfolding lists_bot
enabled_listed bot id = rw (get-deleted bot id) (ground arith)

set_enabled-json :
    {pf : Platform} (bot : Doc) (id : Text) (s : Server pf) (next : Doc)
    → db_get (Platform.sql pf) s.db "bots" id ≡ some bot
    → (set_enabled {pf = pf} id enable s).1 ≡ json next
    → (next ≡ merged (some bot) id (field "enabled" (bool true) end))
      × ((set_enabled {pf = pf} id enable s).0.db
          ≡ (db_update (Platform.sql pf) s.db "bots" id (field "enabled" (bool true) end)).0)
unfolding set_enabled db_update truthy get
set_enabled-json bot id s next e h = (ground (arith, e), refl)

get-bots :
    {pf : Platform} (bot : Doc) (id i : Text) (s t : Server pf)
    → db_get (Platform.sql pf) s.db "bots" id ≡ some bot
    → t.db ≡ (db_update (Platform.sql pf) s.db "bots" id (field "enabled" (bool true) end)).0
    → db_get (Platform.sql pf) t.db "bots" i ≡ (
        if text_eq id i
        then some (merged (some bot) id (field "enabled" (bool true) end))
        else db_get (Platform.sql pf) s.db "bots" i)
get-bots {pf} bot id i s t e h = rw h (
    get-update (Platform.sql pf) s.db "bots" "bots" id i (field "enabled" (bool true) end)
    ∙ rw e refl)

-- When PATCH answers a request to enable a bot, the request was signed in as the owner, and the bot that
-- is answered is the one that is stored; every other bot is as before. The keeper runs the stored bot
-- for its delegate, whether or not it was deleted, and it is listed only if it was not deleted: a deleted
-- bot that its owner enables again is run and not listed.
pub enable_deleted :
    {pf : Platform} (req : Request) (id : Text) (now : ℕ) (s : Server pf) (delegate i : Text)
    (next : Doc)
    → (patch_bot {pf = pf} req id (some (obj (field "enabled" (bool true) end))) now s).1
      ≡ json next
    → let after =
        (patch_bot {pf = pf} req id (some (obj (field "enabled" (bool true) end))) now s).0 in
      (bot : Doc) × IsOwned pf s req id now bot
      × (db_get (Platform.sql pf) after.db "bots" i
          ≡ (if text_eq id i then some next else db_get (Platform.sql pf) s.db "bots" i))
      × (runs_bot delegate next ≡ is_str (get bot "delegate") delegate)
      × (lists_bot none next ≡ not (truthy (get bot "deleted")))
unfolding patch_bot
enable_deleted {pf} req id now s delegate i next h =
    let (bot, p, q, z) = >>=-json (own_bot req id now) (λ _. set_enabled id enable) s next h in
    let o = own-IsOwned req id now s bot p in
    let s1 = (own_bot {pf = pf} req id now s).0 in
    let same : s1.db ≡ s.db = (own-Same req id now s).at s refl in
    let kept : db_get (Platform.sql pf) s1.db "bots" id ≡ some bot = rw same o.stored in
    let (e, stored) = set_enabled-json bot id s1 next kept q in
    let after = (set_enabled {pf = pf} id enable s1).0 in
    (
      bot,
      o,
      ap (λ (t : Server pf). db_get (Platform.sql pf) t.db "bots" i) z
          ∙ get-bots bot id i s1 after kept stored
          ∙ rw (← e, same) refl,
      rw e (enabled_runs bot id delegate),
      rw e (enabled_listed bot id),
    )
