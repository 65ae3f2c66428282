-- ===== src/Auth/Examples.antt =====
-- Two nonces are stored; alice signs in with the first, and bob with the second.
use fbyt.Base.{
  ◌≡◌, ◌≢◌, refl, Text, text_eq, Option, none, some, [], ◌∷◌, codes, starts_with, trim_start,
  is_space, trim, split,
}
use fbyt.Base.Int.{pos}
use fbyt.Json.{Doc, Json, str, num, obj, field, end, get, truthy}
use fbyt.Db.Sql.{find}
use fbyt.Db.Memory.{memory, Write, table, without}
use fbyt.Db.Ops.{db_get, db_delete}
use fbyt.Guard.Limiter.{purge, rate_limit, map_get, map_set, open_bucket}
use fbyt.Guard.Request.{Request, guard, same_origin, client_ip}
use fbyt.Session.Cookie.{sign_session, secret}
use fbyt.Session.Examples.{healthy, digest}
use fbyt.Http.{Platform, Server, json, limited}
use fbyt.Auth.Message.{nonce_of, nonce_here, hex_run, is_hex}
use fbyt.Auth.Routes.{
  Crypto, SignedIn, is_stale, issue_cookie, check_signature, consume_nonce, nonce_in, sign_in,
  verify_fields, verify_body, verify,
}
use fbyt.Auth.Laws.{IsGranted, verify-IsGranted}
use fbyt.Auth.Replay.{here, no_replay}

abbrev platform : Platform
platform = record { sql = memory; runtime = healthy; host_of = λ t. some t }

-- A signature of a message repeats it.
abbrev bytes_of : Json → Option Text
bytes_of (str t) = some t
bytes_of _ = none

abbrev toy : Crypto
toy = record {
  Bytes = Text;
  buffer = bytes_of;
  utf8 = λ b. b;
  ed25519 = λ address message signature. some (text_eq message signature);
}

abbrev nonce_doc : Text → Doc
nonce_doc n = field "id" (str n) (field "exp" (num (pos 100)) end)

abbrev server : Server platform
server = record {
  db =
      Write.put "authNonces" (codes "0a") (nonce_doc (codes "0a"))
      ∷ Write.put "authNonces" (codes "0b") (nonce_doc (codes "0b"))
      ∷ [];
  buckets = [];
}

abbrev request : Request
request = record {
  pathname = codes "/api/auth/verify";
  host = codes "fbyt";
  origin = some (codes "fbyt");
  forwarded_for = none;
  real_ip = none;
  cookie = none;
}

abbrev body_of : Text → Text → Option Json
body_of who message = some (
    obj (
      field "address" (str who)
        (field "message" (str message) (field "signature" (str message) end))))

abbrev alice : SignedIn
alice = record { address = codes "alice"; cookie = codes "alice.111.keyaliced111" }

abbrev bob : SignedIn
bob = record { address = codes "bob"; cookie = codes "bob.1111.keybobd1111" }

abbrev first_body : Option Json
first_body = body_of (codes "alice") (codes "Nonce: 0a")

abbrev later_body : Option Json
later_body = body_of (codes "bob") (codes "Nonce: 0b")

abbrev server_then : Server platform
server_then = (verify toy request first_body 3 server).0

first : (verify toy request first_body 3 server).1 ≡ json alice
unfolding verify limited text_eq verify_body verify_fields get truthy sign_in nonce_in nonce_of
    consume_nonce is_stale db_get find table check_signature issue_cookie sign_session hex_run
    is_hex nonce_here is_space split starts_with trim trim_start without db_delete map_get map_set
    open_bucket purge rate_limit client_ip guard same_origin secret digest
first = refl

again : (verify toy request later_body 4 server_then).1 ≡ json bob
unfolding verify limited text_eq verify_body verify_fields get truthy sign_in nonce_in nonce_of
    consume_nonce is_stale db_get find table check_signature issue_cookie sign_session hex_run
    is_hex nonce_here is_space split starts_with trim trim_start without db_delete map_get map_set
    open_bucket purge rate_limit client_ip guard same_origin secret digest
again = refl

verify-IsGranted_example : IsGranted platform toy 3 server server_then alice
verify-IsGranted_example = verify-IsGranted toy 3 request first_body server alice first

no_replay_example :
    (verify-IsGranted toy 4 request later_body server_then bob again).nonce
    ≢ (verify-IsGranted toy 3 request first_body server alice first).nonce
no_replay_example =
    no_replay toy request request first_body later_body 3 4 server server_then alice bob first here
      again
