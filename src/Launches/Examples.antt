-- ===== src/Launches/Examples.antt =====
-- Bob has voted for a launch; alice votes too.
use fbyt.Base.{
  ℕ, ◌≡◌, refl, text_eq, true, none, some, List, [], ◌∷◌, codes, map, filterb, ◌==◌, trim,
  trim_start, is_space, split,
}
use fbyt.Base.Sort.{IsDescending}
use fbyt.Json.{Doc, str, arr, field, end, get, set, spread, texts, items}
use fbyt.Db.Sql.{find}
use fbyt.Db.Memory.{memory, Write, table, without}
use fbyt.Db.Ops.{db_all, db_get, db_update, merged}
use fbyt.Guard.Limiter.{purge, rate_limit, map_get, map_set, open_bucket}
use fbyt.Guard.Request.{Request, guard, same_origin, client_ip}
use fbyt.Session.Cookie.{verify_session, check_parts, check_mac, secret}
use fbyt.Session.Examples.{healthy, digest}
use fbyt.Http.{Platform, Server, json, limited, signed_in, current_user}
use fbyt.Base.Sets.{has, remove, set_of}
use fbyt.Launches.Voters.{toggle}
use fbyt.Launches.Routes.{
  Voted, voters_of, votes_of, view_launch, list_launches, find_launch, cast_vote, vote_launch,
}
use fbyt.Launches.Vote.{IsVoted, vote_launch-IsVoted}
use fbyt.Launches.Order.{list_launches_order}

abbrev platform : Platform
platform = record { sql = memory; runtime = healthy; host_of = λ t. some t }

abbrev launch : Doc
launch = field "id" (str (codes "l1")) (field "voters" (arr (items (codes "bob" ∷ []))) end)

abbrev request : Request
request = record {
  pathname = codes "/api/launches/l1/vote";
  host = codes "fbyt";
  origin = none;
  forwarded_for = some (codes " 1.2.3.4, 5.6.7.8");
  real_ip = none;
  cookie = some (codes "alice.111.keyaliced111");
}

abbrev server : Server platform
server = record { db = Write.put "launches" (codes "l1") launch ∷ []; buckets = [] }

abbrev answer : Voted
answer = record { votes = 2; voted = true }

votes : (vote_launch request (codes "l1") 5 server).1 ≡ json answer
unfolding vote_launch find_launch cast_vote toggle set_of has remove voters_of votes_of texts items
    limited signed_in guard same_origin client_ip rate_limit map_get map_set open_bucket purge
    current_user verify_session check_parts check_mac secret digest text_eq split trim trim_start
    is_space get set spread merged db_get db_update find table without
votes = refl

vote_launch-IsVoted_example :
    IsVoted platform request 5 server
      (vote_launch {pf = platform} request (codes "l1") 5 server).0
      (codes "l1")
      answer
vote_launch-IsVoted_example = vote_launch-IsVoted request (codes "l1") 5 server answer votes

list_launches_order_example :
    (ls : List Doc) × ((list_launches server).1 ≡ json (map view_launch ls))
    × IsDescending votes_of ls
    × ((k : ℕ)
        → filterb (λ l. votes_of l == k) ls
          ≡ filterb (λ l. votes_of l == k) (db_all memory server.db "launches"))
list_launches_order_example = list_launches_order server
