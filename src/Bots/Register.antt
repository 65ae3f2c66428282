-- ===== src/Bots/Register.antt =====
-- POST /api/bots: who may register a bot, and what is stored.
use fbyt.Base.{ℕ, Text, text_eq, true, not, ◌&&◌, Option, none, some, codes, if◌then◌else◌}
use fbyt.Base.Int.{pos}
use fbyt.Json.{Doc, Json, null, bool, num, str, obj, end, field, get, truthy}
use fbyt.Db.Ops.{db_append}
use fbyt.Guard.Request.{Request, per_minute}
use fbyt.Http.{
  Platform, Handler, json, thrown, refuse, pure, limited, signed_in, body_fields, ◌>>=◌, ◌>>◌,
}

-- What the route reads of a vault's account on the chain.
pub record Vault : Type 0 where
  pub money_manager : Text
  pub trading_delegate : Text

-- `fetchMaybeVaultPool(rpc, vault)`, a parameter: it may throw, and the account may be absent.
pub data Fetched : Type 0 where
  fetch_failed absent : Fetched
  exists : Vault → Fetched

abbrev pub Chain : Type 0
Chain = Json → Fetched

abbrev pub default_pk : Text
default_pk = codes "11111111111111111111111111111111"

-- `strategy?.type`
unfoldable pub type_of : Option Json → Option Json
unfolding get
type_of (some (obj d)) = get d "type"
type_of _ = none

abbrev pub bot_doc : Json → Text → Text → Json → ℕ → Doc
bot_doc vault me delegate strategy now = field "vault" vault (
    field "owner" (str me) (
      field "delegate" (str delegate) (
        field "enabled" (bool true) (
          field "strategy" strategy (
            field "createdAt" (num (pos now))
              (field "runCount" (num (pos 0)) (field "lastRunAt" null end)))))))

-- The fields that the body needs.
pub record Wanted : Type 0 where
  pub vault : Json
  pub strategy : Json

module _ {pf : Platform} where
  unfoldable pub wanted_of : Doc → Handler pf Wanted
  unfolding type_of truthy
  wanted_of body s = elim (get body "vault") [
    | none ↦ refuse 400 "vault and strategy required" s
    | some vault ↦ elim (get body "strategy") [
      | none ↦ refuse 400 "vault and strategy required" s
      | some strategy ↦
          if truthy (some vault) && truthy (type_of (some strategy))
          then pure (record { vault = vault; strategy = strategy }) s
          else refuse 400 "vault and strategy required" s
    ]
  ]

  -- The delegate of a vault that the user manages.
  unfoldable pub delegate_of : Chain → Json → Text → Handler pf Text
  delegate_of chain vault me s = elim (chain vault) [
    | fetch_failed ↦ (s, thrown)
    | absent ↦ refuse 404 "no vault at this address" s
    | exists v ↦
        if not (text_eq v.money_manager me)
        then refuse 403 "not the vault manager" s
        else if text_eq v.trading_delegate default_pk
        then refuse 400 "set a trading delegate first" s
        else pure v.trading_delegate s
  ]

  unfoldable pub store_bot : Wanted → Text → Text → Text → ℕ → Handler pf Text
  store_bot w me delegate fresh now s =
      let (d, id) =
        db_append (Platform.sql pf) s.db "bots" (bot_doc w.vault me delegate w.strategy now) none
          fresh in
      (record s { db = d }, json id)

  -- `fresh` is the key that `dbAppend` generates.
  unfoldable pub register_bot : Chain → Request → Option Json → Text → ℕ → Handler pf Text
  unfolding wanted_of delegate_of store_bot
  register_bot chain req body fresh now = do
    limited req now (per_minute 20)
    me ← signed_in req now
    w ← wanted_of (body_fields body)
    delegate ← delegate_of chain w.vault me
    store_bot w me delegate fresh now
