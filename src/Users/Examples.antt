-- ===== src/Users/Examples.antt =====
-- Two accounts in memory: alice accepts the terms, and is referred by bob.
use fbyt.Base.Sort.{IsDescending}
use fbyt.Guard.Request.{Request}
use fbyt.Session.Examples.{healthy}
use fbyt.Http.{Platform, Server, json}
use fbyt.Users.Routes.{put_me, show_me, leaderboard, points_of}
use fbyt.Users.Handlers.{routes-IsStored, leaderboard_order}
use fbyt.Base.{
  Option, ℕ, map, filterb, take, ltb, ◌==◌, ◌≡◌, ◌≢◌, refl, Text, text_eq, true, ◌⊎◌, none, some,
  List, [], ◌∷◌, codes, arith, subst, if◌then◌else◌,
}
use fbyt.Json.{Doc, Json, obj, field, end, bool, str, get, truthy}
use fbyt.Db.Sql.{find}
use fbyt.Db.Memory.{memory, Write, table, without}
use fbyt.Db.Ops.{db_get, db_put, id_of}
use fbyt.Users.Ops.{
  all_users, ProfilePatch, applied, blank, get_user, get_or_create_user, apply_referral,
}
use fbyt.Users.Account.{user_doc, new_user}
use fbyt.Users.Store.{Holds, Finds}
use fbyt.Users.Referral.{as_referee, as_referrer, apply_referral_accepted, apply_referral_refused}
use fbyt.Users.Earned.{IsStored}
use fbyt.Users.Runs.{Call, read, profile, refer, run, step, AllProper, run-IsStored, refer_once}

abbrev alice : Text
alice = codes "alice"

abbrev bob : Text
bob = codes "bob"

alice≢bob : alice ≢ bob
alice≢bob e = cc

bob≢nobody : bob ≢ []
bob≢nobody e = cc

abbrev terms : ProfilePatch
terms = record {
  display_name = some (str (codes "Alice"));
  bio = none;
  accept_terms = some (bool true);
}

abbrev calls : List Call
calls = read 5 bob ∷ profile 6 alice terms ∷ refer 7 alice bob ∷ []

calls-AllProper : AllProper calls
calls-AllProper = (tt, (omega arith, (bob≢nobody, tt)))

empty-IsStored : IsStored memory []
unfolding get_user db_get find table
empty-IsStored b v e = absurd (ground arith)

run-IsStored_example : IsStored memory (run memory [] calls)
run-IsStored_example = run-IsStored memory [] calls calls-AllProper empty-IsStored

-- Only bob has an account.
abbrev one : List Write
one = Write.put "users" bob (user_doc (new_user bob 5)) ∷ []

bob-Holds : Holds memory one (new_user bob 5)
unfolding get_user db_get find table without text_eq
bob-Holds = refl

alice_new : Finds memory one (new_user alice 9) 9
unfolding get_user db_get find table without text_eq
alice_new = refl

apply_referral_accepted_example :
    ((apply_referral memory one alice bob 9).1 ≡ applied)
    × (get_user memory (apply_referral memory one alice bob 9).0 bob ≡ (
        if text_eq bob bob
        then some (user_doc (as_referrer (new_user bob 5)))
        else if text_eq alice bob
        then some (user_doc (as_referee (new_user alice 9) bob))
        else get_user memory one bob))
unfolding truthy
apply_referral_accepted_example =
    apply_referral_accepted memory one (new_user alice 9) (new_user bob 5) 9 alice_new bob alice≢bob
      refl bob-Holds

self_refused : (apply_referral memory one bob bob 9).1 ≢ applied
unfolding apply_referral text_eq
self_refused e = cc

apply_referral_refused_example :
    ((text_eq bob bob ≡ true)
      ⊎ (((v : Doc) × (get_user memory one bob ≡ some v) × (truthy (get v "referredBy") ≡ true))
          ⊎ (get_user memory one bob ≡ none)))
    × ((get_user memory (apply_referral memory one bob bob 9).0 bob ≡ get_user memory one bob)
        ⊎ ((get_user memory one bob ≡ none)
            × (get_user memory (apply_referral memory one bob bob 9).0 bob ≡ (
                if text_eq bob bob
                then some (user_doc (new_user bob 9))
                else get_user memory one bob))))
apply_referral_refused_example = apply_referral_refused memory one bob bob 9 bob self_refused

run-read : run memory [] (read 5 bob ∷ []) ≡ one
unfolding run step get_or_create_user get_user db_get db_put find table blank id_of get user_doc
run-read = refl

one-IsStored : IsStored memory one
one-IsStored =
    subst (IsStored memory) run-read
      (run-IsStored memory [] (read 5 bob ∷ []) (tt, tt) empty-IsStored)

abbrev between : List Call
between = profile 10 alice terms ∷ refer 11 bob (codes "carol") ∷ []

refer_once_example :
    (apply_referral memory
      (run memory (apply_referral memory one alice bob 9).0 between)
      alice
      (codes "carol")
      12).1
    ≢ applied
refer_once_example =
    refer_once memory one alice bob (codes "carol") 9 12 between bob≢nobody one-IsStored
      (omega arith, ((λ e. cc), tt)) apply_referral_accepted_example.0

abbrev platform : Platform
platform = record { sql = memory; runtime = healthy; host_of = λ t. some t }

abbrev server : Server platform
server = record { db = one; buckets = [] }

abbrev request : Request
request = record {
  pathname = codes "/api/users/me";
  host = codes "fbyt";
  origin = none;
  forwarded_for = none;
  real_ip = none;
  cookie = some (codes "alice.111.keyaliced111");
}

abbrev body : Option Json
body = some (obj (field "referralCode" (str (codes " bob ")) (field "acceptTerms" (bool true) end)))

routes-IsStored_example :
    IsStored memory (put_me {pf = platform} request body 9 server).0.db
    × IsStored memory (show_me {pf = platform} request 9 server).0.db
routes-IsStored_example = routes-IsStored request body 9 server (omega arith) one-IsStored

leaderboard_order_example :
    (us : List Doc) × ((leaderboard server).1
      ≡ json (
          map
            (λ u. record {
              address = get u "id";
              display_name = get u "displayName";
              points = get u "points";
              referral_count = get u "referralCount";
            })
            (take 50 us)))
    × IsDescending points_of us
    × ((k : ℕ)
        → filterb (λ u. points_of u == k) us
          ≡ filterb
              (λ u. points_of u == k)
              (filterb (λ u. ltb 0 (points_of u)) (all_users memory server.db)))
leaderboard_order_example = leaderboard_order server
