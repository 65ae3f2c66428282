-- ===== src/Db/Examples.antt =====
-- The laws of the store on a table in memory.
use fbyt.Base.{refl, Option, List, [], ◌∷◌, codes}
use fbyt.Json.{Doc, str, num, get, end, field}
use fbyt.Base.Int.{pos}
use fbyt.Db.Sql.{find}
use fbyt.Db.Memory.{memory, table}
use fbyt.Db.Ops.{db_get, id_of}
use fbyt.Db.Keyed.{Call, put, update, append, delete, run, IsKeyed, AllHaveId, run-IsKeyed}

abbrev bot : Doc
bot = field "id" (str (codes "b1")) (field "owner" (str (codes "alice")) end)

abbrev calls : List Call
calls =
    put "bots" bot
    ∷ update "bots" (codes "b1") (field "id" (str (codes "other")) (field "runs" (num (pos 1)) end))
    ∷ append "launches" (field "name" (str (codes "x")) end) Option.none (codes "k")
    ∷ delete "bots" (codes "b2")
    ∷ []

calls-AllHaveId : AllHaveId calls
unfolding get id_of
calls-AllHaveId = (refl, (tt, (tt, (tt, tt))))

nothing-IsKeyed : IsKeyed memory []
unfolding db_get find table
nothing-IsKeyed c i v e = cc

run-IsKeyed_example : IsKeyed memory (run memory [] calls)
run-IsKeyed_example = run-IsKeyed memory [] calls calls-AllHaveId nothing-IsKeyed
