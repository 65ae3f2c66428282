-- ===== src/Bots/Examples.antt =====
-- The owner of a bot removes it, and enables it again.
use fbyt.Base.{
  ◌≡◌, ◌⊎◌, refl, text_eq, true, false, not, Option, none, some, [], ◌∷◌, codes, trim_start,
  is_space, trim, split, if◌then◌else◌, subst,
}
use fbyt.Json.{Doc, Json, bool, str, obj, field, end, get, set, truthy, spread}
use fbyt.Db.Sql.{find}
use fbyt.Db.Memory.{memory, Write, table, without}
use fbyt.Db.Ops.{db_get, db_put, db_update, db_append, id_of, merged}
use fbyt.Db.Keyed.{IsKeyed, put, run, step, run-IsKeyed}
use fbyt.Guard.Limiter.{purge, rate_limit, map_get, map_set, open_bucket}
use fbyt.Guard.Request.{Request, guard, same_origin, client_ip}
use fbyt.Session.Cookie.{verify_session, check_parts, check_mac, secret}
use fbyt.Session.Examples.{healthy, digest}
use fbyt.Http.{Platform, Server, json, limited, signed_in, current_user}
use fbyt.Bots.Routes.{
  is_str, lists_bot, runs_bot, find_bot, require_owner, own_bot, set_enabled, patch_bot, tombstone,
  bury, delete_bot,
}
use fbyt.Bots.Owner.{IsOwned, only_owner}
use fbyt.Bots.Register.{
  Chain, absent, exists, type_of, wanted_of, delegate_of, store_bot, register_bot,
}
use fbyt.Bots.Manager.{IsRegistered, register_bot-IsRegistered}
use fbyt.Bots.Removed.{delete_bot_lem, enable_deleted}

abbrev pub platform : Platform
platform = record { sql = memory; runtime = healthy; host_of = λ t. some t }

abbrev bot : Doc
bot = field "id" (str (codes "b1")) (
    field "owner" (str (codes "alice"))
      (field "delegate" (str (codes "d")) (field "enabled" (bool true) end)))

abbrev pub request : Request
request = record {
  pathname = codes "/api/bots/b1";
  host = codes "fbyt";
  origin = none;
  forwarded_for = none;
  real_ip = none;
  cookie = some (codes "alice.111.keyaliced111");
}

abbrev server : Server platform
server = record { db = Write.put "bots" (codes "b1") bot ∷ []; buckets = [] }

empty-IsKeyed : IsKeyed memory []
unfolding db_get find table
empty-IsKeyed c i v e = cc

run-put : run memory [] (put "bots" bot ∷ []) ≡ server.db
unfolding run step db_put id_of get
run-put = refl

bot_id : get bot "id" ≡ some (str (id_of bot))
unfolding get id_of
bot_id = refl

server-IsKeyed : IsKeyed memory server.db
server-IsKeyed =
    subst (IsKeyed memory) run-put
      (run-IsKeyed memory [] (put "bots" bot ∷ []) (bot_id, tt) empty-IsKeyed)

deletes : (delete_bot request (codes "b1") 5 server).1 ≡ json tt
unfolding delete_bot own_bot limited signed_in find_bot require_owner bury guard same_origin
    client_ip rate_limit map_get map_set open_bucket purge current_user verify_session check_parts
    check_mac secret digest text_eq split is_str get set truthy db_get db_put db_update find table
    without trim trim_start is_space id_of merged spread
deletes = refl

-- The same bot after its removal.
abbrev removed : Server platform
removed = record { db = Write.put "bots" (codes "b1") (tombstone bot) ∷ []; buckets = [] }

abbrev enabled : Doc
enabled = merged (some (tombstone bot)) (codes "b1") (field "enabled" (bool true) end)

patches :
    (patch_bot request (codes "b1") (some (obj (field "enabled" (bool true) end))) 5 removed).1
    ≡ json enabled
unfolding patch_bot own_bot set_enabled limited signed_in find_bot require_owner bury guard
    same_origin client_ip rate_limit map_get map_set open_bucket purge current_user verify_session
    check_parts check_mac secret digest text_eq split is_str get set truthy db_get db_put db_update
    find table without trim trim_start is_space id_of merged spread
patches = refl

only_owner_example :
    (((patch_bot request (codes "b1") none 5 server).0.db ≡ server.db)
      ⊎ ((b : Doc) × IsOwned platform server request (codes "b1") 5 b))
    × (((delete_bot request (codes "b1") 5 server).0.db ≡ server.db)
        ⊎ ((b : Doc) × IsOwned platform server request (codes "b1") 5 b))
only_owner_example = only_owner request (codes "b1") none 5 server

delete_bot_lem_example :
    (b : Doc) × IsOwned platform server request (codes "b1") 5 b
    × (db_get memory
          (delete_bot {pf = platform} request (codes "b1") 5 server).0.db
          "bots"
          (codes "b1")
        ≡ (if text_eq (codes "b1") (codes "b1")
            then some (tombstone b)
            else db_get memory server.db "bots" (codes "b1")))
    × (lists_bot none (tombstone b) ≡ false)
    × (runs_bot (codes "d") (tombstone b) ≡ false)
delete_bot_lem_example =
    delete_bot_lem request (codes "b1") 5 server none (codes "d") (codes "b1") tt server-IsKeyed
      deletes

enable_deleted_example :
    let after =
      (patch_bot {pf = platform} request
        (codes "b1")
        (some (obj (field "enabled" (bool true) end)))
        5
        removed).0 in
    (b : Doc) × IsOwned platform removed request (codes "b1") 5 b
    × (db_get memory after.db "bots" (codes "b1") ≡ (
        if text_eq (codes "b1") (codes "b1")
        then some enabled
        else db_get memory removed.db "bots" (codes "b1")))
    × (runs_bot (codes "d") enabled ≡ is_str (get b "delegate") (codes "d"))
    × (lists_bot none enabled ≡ not (truthy (get b "deleted")))
enable_deleted_example =
    enable_deleted request (codes "b1") 5 removed (codes "d") (codes "b1") enabled patches

-- One vault on the chain, which alice manages.
abbrev chain : Chain
chain (str v) =
    if text_eq v (codes "v1")
    then exists (record { money_manager = codes "alice"; trading_delegate = codes "d" })
    else absent
chain _ = absent

abbrev wanted : Option Json
wanted = some (
    obj (
      field "vault" (str (codes "v1"))
        (field "strategy" (obj (field "type" (str (codes "dca")) end)) end)))

registers :
    (register_bot {pf = platform} chain request wanted (codes "b2") 5 server).1 ≡ json (codes "b2")
unfolding register_bot wanted_of type_of delegate_of store_bot limited signed_in guard same_origin
    client_ip rate_limit map_get map_set open_bucket purge current_user verify_session check_parts
    check_mac secret digest text_eq split get truthy db_append trim trim_start is_space
registers = refl

register_bot-IsRegistered_example :
    IsRegistered platform chain request 5 server
      (register_bot {pf = platform} chain request wanted (codes "b2") 5 server).0
      (codes "b2")
register_bot-IsRegistered_example =
    register_bot-IsRegistered chain request wanted (codes "b2") 5 server (codes "b2") registers
