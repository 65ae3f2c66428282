-- ===== src/Vaults/Listing.antt =====
-- app/src/lib/vaults.ts, and the handlers of app/src/app/api/vaults/route.ts,
-- app/src/app/api/vaults/[address]/history/route.ts and app/src/app/api/managers/[address]/route.ts.
use fbyt.Base.{ℕ, Text, text_eq, Bool, Option, none, some, List, [], ◌∷◌, map, filterb}
use fbyt.Base.Int.{pos}
use fbyt.Base.Sort.{sort_by, sort_up}
use fbyt.Json.{Doc, Json, null, num, str, get}
use fbyt.Db.Ops.{db_query}
use fbyt.Http.{Platform, Handler, json, fail}
use fbyt.Bots.Routes.{is_str}
use fbyt.Client.VaultPool.{VaultPool}
use fbyt.Nav.Ledger.{Read, threw, got, ◌>>=◌}
use fbyt.Users.Ops.{get_user}
use fbyt.Vaults.Profiles.{get_all_metadata}

-- An account that the chain lists.
pub record Entry (Raw : Type 0) : Type 0 where
  pub pubkey : Text
  pub raw : Raw

-- The vaults on the chain: `getProgramAccounts` with its filter, and the decoder of a base64 account.
pub record Program : Type 1 where
  pub Raw : Type 0
  pub accounts : Read (List (Entry Raw))
  pub decode : Raw → Read VaultPool

pub record VaultSummary : Type 0 where
  pub address : Text
  pub pool : VaultPool

module _ (pg : Program) where
  open pg use {Raw, accounts, decode}

  unfoldable pub decode_all : List (Entry Raw) → Read (List VaultSummary)
  decode_all [] = got []
  decode_all (e ∷ es) = do
    p ← decode e.raw
    rest ← decode_all es
    got (record { address = e.pubkey; pool = p } ∷ rest)

  unfoldable pub fetch_vaults : Read (List VaultSummary)
  unfolding decode_all
  fetch_vaults = accounts >>= decode_all

abbrev pub raised_of : VaultSummary → ℕ
raised_of v = v.pool.raised_amount_usd

unfoldable pub sort_vaults : List VaultSummary → List VaultSummary
unfolding sort_by
sort_vaults = sort_by raised_of

-- `meta[address]?.name ?? ''`
unfoldable pub text_or_empty : Option Doc → Json
text_or_empty none = str []
text_or_empty (some m) = elim (get m "name") [
  | none ↦ str []
  | some v ↦ elim v [ null ↦ str [] | w ↦ w ]
]

unfoldable pub strategy_or_empty : Option Doc → Json
strategy_or_empty none = str []
strategy_or_empty (some m) = elim (get m "strategy") [
  | none ↦ str []
  | some v ↦ elim v [ null ↦ str [] | w ↦ w ]
]

-- An element of the answer of GET /api/vaults. Its big numbers are printed there.
pub record VaultView : Type 0 where
  pub address : Text
  pub name : Json
  pub strategy : Json
  pub status : ℕ
  pub token_mint : Text
  pub money_manager : Text
  pub raised_amount_usd : ℕ
  pub total_shares : ℕ
  pub investor_count : ℕ
  pub performance_fee_bps : ℕ
  pub money_management_fee_bps : ℕ
  pub created_at : ℕ
  pub is_open_ended : Bool

unfoldable pub view_vault : (Text → Option Doc) → VaultSummary → VaultView
unfolding text_or_empty strategy_or_empty
view_vault meta v = record {
  address = v.address;
  name = text_or_empty (meta v.address);
  strategy = strategy_or_empty (meta v.address);
  status = v.pool.vault_pool_status;
  token_mint = v.pool.token_mint;
  money_manager = v.pool.money_manager;
  raised_amount_usd = v.pool.raised_amount_usd;
  total_shares = v.pool.total_shares;
  investor_count = v.pool.investor_count;
  performance_fee_bps = v.pool.performance_fee;
  money_management_fee_bps = v.pool.money_management_yearly_fee;
  created_at = v.pool.created_at;
  is_open_ended = v.pool.is_open_ended;
}

-- The answer of GET /api/managers/[address].
pub record Managed : Type 0 where
  pub address : Text
  pub name : Json
  pub status : ℕ
  pub raised_amount_usd : ℕ
  pub investor_count : ℕ

pub record ManagerProfile : Type 0 where
  pub address : Option Json
  pub display_name : Option Json
  pub bio : Option Json
  pub points : Option Json

unfoldable pub managed_view : (Text → Option Doc) → VaultSummary → Managed
unfolding text_or_empty
managed_view meta v = record {
  address = v.address;
  name = text_or_empty (meta v.address);
  status = v.pool.vault_pool_status;
  raised_amount_usd = v.pool.raised_amount_usd;
  investor_count = v.pool.investor_count;
}

unfoldable pub manager_profile : Text → Option Doc → ManagerProfile
manager_profile address none = record {
  address = some (str address);
  display_name = some (str []);
  bio = some (str []);
  points = some (num (pos 0));
}
manager_profile address (some u) = record {
  address = get u "id";
  display_name = get u "displayName";
  bio = get u "bio";
  points = get u "points";
}

-- A snapshot of the indexer, as the history shows it.
pub record Point : Type 0 where
  pub t : Option Json
  pub nav_micro_usd : Option Json
  pub raised_micro_usd : Option Json
  pub pnl_bps : Option Json

abbrev pub point_of : Doc → Point
point_of s = record {
  t = get s "t";
  nav_micro_usd = get s "navMicroUsd";
  raised_micro_usd = get s "raisedMicroUsd";
  pnl_bps = get s "pnlBps";
}

-- `s.t`, a time in milliseconds.
unfoldable pub time_of : Doc → ℕ
unfolding get
time_of s = elim (get s "t") [ some (num (pos n)) ↦ n | _ ↦ 0 ]

module _ {pf : Platform} where
  unfoldable pub list_vaults : Program → Handler pf (List VaultView)
  unfolding fetch_vaults sort_vaults view_vault get_all_metadata
  list_vaults pg s = elim (fetch_vaults pg) [
    | threw ↦ (s, fail 502 "exception")
    | got vs ↦
        (s, json (map (view_vault (get_all_metadata (Platform.sql pf) s.db)) (sort_vaults vs)))
  ]

  unfoldable pub show_manager : Program → Text → Handler pf (ManagerProfile × List Managed)
  unfolding fetch_vaults managed_view manager_profile get_all_metadata
  show_manager pg address s = elim (fetch_vaults pg) [
    | threw ↦ (s, fail 502 "exception")
    | got vs ↦ (
      s,
      json (
        manager_profile address (get_user (Platform.sql pf) s.db address),
        map (managed_view (get_all_metadata (Platform.sql pf) s.db))
            (filterb (λ v. text_eq v.pool.money_manager address) vs),
      ),
    )
  ]

  unfoldable pub show_history : Text → Handler pf (List Point)
  unfolding sort_up time_of is_str
  show_history address s = (
    s,
    json (
        map point_of (
          sort_up time_of (
            db_query (Platform.sql pf) s.db "navSnapshots" (λ d. is_str (get d "vault") address)))),
  )
