-- ===== src/Launches/Order.antt =====
-- The listing of launches is in the order of votes.
use fbyt.Base.{ℕ, ◌≡◌, refl, List, map, filterb, ◌==◌}
use fbyt.Base.Sort.{sort_by, IsDescending, sort_by-IsDescending, filterb-sort_by}
use fbyt.Json.{Doc}
use fbyt.Db.Ops.{db_all}
use fbyt.Http.{Platform, Server, json}
use fbyt.Launches.Routes.{view_launch, votes_of, list_launches}

-- The listing shows a list of all stored launches that is in descending order of votes; launches with
-- the same number of votes stand in the order of the store.
pub list_launches_order :
    {pf : Platform} (s : Server pf)
    → (ls : List Doc) × ((list_launches s).1 ≡ json (map view_launch ls))
      × IsDescending votes_of ls
      × ((k : ℕ)
          → filterb (λ l. votes_of l == k) ls
            ≡ filterb (λ l. votes_of l == k) (db_all (Platform.sql pf) s.db "launches"))
unfolding list_launches
list_launches_order {pf} s =
    let all = db_all (Platform.sql pf) s.db "launches" in
    (
      sort_by votes_of all,
      refl,
      sort_by-IsDescending votes_of all,
      λ k. filterb-sort_by votes_of k all,
    )
