-- ===== src/Vaults/Examples.antt =====
-- A vault whose manager writes its profile, the list of two vaults, and a history.
use fbyt.Base.{
  false, none, ℕ, ◌≡◌, refl, Text, text_eq, true, some, List, [], ◌∷◌, ◌++◌, map, filterb, codes,
  replicate, trim_start, is_space, trim, split, if◌then◌else◌, ◌==◌,
}
use fbyt.Base.Int.{pos, ◌-ℤ◌}
use fbyt.Base.Sort.{IsDescending, sort_up, sort_with, insert_with}
use fbyt.Json.{Doc, num, str, obj, field, end, get}
use fbyt.Db.Sql.{find}
use fbyt.Db.Memory.{memory, Write, table, without}
use fbyt.Db.Ops.{db_get, db_query, db_all, id_of}
use fbyt.Db.Keyed.{IsKeyed, Call, put, run, run-IsKeyed}
use fbyt.Guard.Limiter.{purge, rate_limit, map_get, map_set, open_bucket}
use fbyt.Guard.Request.{guard, same_origin, client_ip}
use fbyt.Http.{Server, json, limited}
use fbyt.Nav.Ledger.{got}
use fbyt.Bots.Routes.{is_str}
use fbyt.Bots.Register.{Fetched, absent, exists}
use fbyt.Bots.Examples.{platform, request}
use fbyt.Client.VaultPool.{VaultPool}
use fbyt.Vaults.Profiles.{Signing, verify_ed25519, metadata_message, get_metadata}
use fbyt.Vaults.Edit.{
  claim_of, read_claim, check_claim, check_manager, store_metadata, edit_profile, edit_body,
  put_metadata,
}
use fbyt.Vaults.Authorized.{IsAuthorized, put_metadata-IsAuthorized, edit_profile_unsigned}
use fbyt.Vaults.Listing.{
  Program, VaultSummary, decode_all, fetch_vaults, raised_of, view_vault, point_of, time_of,
  list_vaults, show_history,
}
use fbyt.Client.Codec.{Object, number, letters, AllFit, lookup, encode_struct}
use fbyt.Client.Encoded.{encode_event}
use fbyt.Client.Events.{trading_event, event_discriminator}
use fbyt.Client.Layouts.Tables.{event_encoder}
use fbyt.Client.Examples.{toy, toy_encode, toy-AreStandard}
use fbyt.Uploads.DataUrl.{payload_of, all_units}
use fbyt.Vaults.Trades.{SignatureInfo, Logs, read_line}
use fbyt.Vaults.Logged.{read_line-logged}
use fbyt.Vaults.Shown.{list_vaults_lem}

-- A signature is the address before the message.
abbrev signing : Signing
signing = record {
  Bytes = Text;
  utf8 = λ t. t;
  base64 = λ t. t;
  ed25519 = λ a message s. some (text_eq s (a ++ message));
  print = λ z. codes "9";
}

abbrev chain : Text → Fetched
chain v =
    if text_eq v (codes "v1")
    then exists (record { money_manager = codes "alice"; trading_delegate = codes "d" })
    else absent

abbrev empty : Server platform
empty = record { db = []; buckets = [] }

abbrev body_of : Text → Doc
body_of name = field "signer" (str (codes "alice")) (
    field "signature" (str (codes "aliceFBYT vault profile\nvault: v1\nissued: 9"))
      (field "issuedAt" (num (pos 9)) (field "name" (str name) end)))

abbrev body : Doc
body = body_of (codes "Growth")

writes :
    (put_metadata {pf = platform} signing chain request (codes "v1") (some (obj body)) 10 empty).1
    ≡ json tt
unfolding put_metadata edit_body edit_profile read_claim claim_of check_claim check_manager
    store_metadata verify_ed25519 metadata_message limited guard same_origin client_ip rate_limit
    map_get map_set open_bucket purge text_eq get trim trim_start is_space split ◌-ℤ◌
writes = refl

put_metadata-IsAuthorized_example :
    IsAuthorized platform signing chain
      (codes "v1")
      (some (obj body))
      10
      empty
      (put_metadata {pf = platform} signing chain request (codes "v1") (some (obj body)) 10 empty).0
put_metadata-IsAuthorized_example =
    put_metadata-IsAuthorized signing chain (codes "v1") request (some (obj body)) 10 empty tt
      writes

signer_same : get body "signer" ≡ get (body_of (codes "Other")) "signer"
unfolding get
signer_same = refl

signature_same : get body "signature" ≡ get (body_of (codes "Other")) "signature"
unfolding get
signature_same = refl

issued_same : get body "issuedAt" ≡ get (body_of (codes "Other")) "issuedAt"
unfolding get
issued_same = refl

edit_profile_unsigned_example :
    (edit_profile {pf = platform} signing chain (codes "v1") body 10 empty).1
    ≡ (edit_profile {pf = platform} signing chain (codes "v1") (body_of (codes "Other")) 10 empty).1
edit_profile_unsigned_example =
    edit_profile_unsigned signing chain (codes "v1") body (body_of (codes "Other")) 10 empty
      signer_same signature_same issued_same

abbrev pool : ℕ → VaultPool
pool raised = record {
  discriminator = replicate 8 1;
  bump = 255;
  index = 0;
  admin_pool = codes "a";
  money_manager = codes "alice";
  token_mint = codes "sol";
  asset_registry = codes "r";
  vault_pool_status = 1;
  investor_count = 2;
  raised_amount_usd = raised;
  total_shares = 10;
  min_contribute_amount_usd = 0;
  raise_period = 0;
  min_raise_amount_usd = 0;
  mm_withdraw_period = 0;
  withdraw_cooldown = 0;
  created_at = 3;
  updated_at = 3;
  last_trade_at = 0;
  last_mm_fee_withdraw_at = 0;
  money_management_yearly_fee = 200;
  performance_fee = 1_000;
  is_open_ended = true;
  padding1 = replicate 5 0;
  trading_delegate = codes "d";
  padding = replicate 32 0;
}

abbrev program : Program
program = record {
  Raw = ℕ;
  accounts =
      got (record { pubkey = codes "v1"; raw = 5 } ∷ record { pubkey = codes "v2"; raw = 8 } ∷ []);
  decode = λ n. got (pool n);
}

abbrev vaults : List VaultSummary
vaults =
    record { address = codes "v1"; pool = pool 5 }
    ∷ record { address = codes "v2"; pool = pool 8 }
    ∷ []

fetches : fetch_vaults program ≡ got vaults
unfolding fetch_vaults decode_all
fetches = refl

abbrev profile : Doc
profile = field "id" (str (codes "v2")) (field "name" (str (codes "Growth")) end)

abbrev writings : List Call
writings = put "vaultMetadata" profile ∷ []

abbrev stored : Server platform
stored = record { db = run memory [] writings; buckets = [] }

profile_id : get profile "id" ≡ some (str (id_of profile))
unfolding get id_of
profile_id = refl

nothing-IsKeyed : IsKeyed memory []
unfolding db_get find table
nothing-IsKeyed c i v e = cc

list_vaults_lem_example :
    (ws : List VaultSummary) × ((list_vaults program stored).1
      ≡ json (map (view_vault (get_metadata memory stored.db)) ws))
    × IsDescending raised_of ws
    × ((k : ℕ) → filterb (λ v. raised_of v == k) ws ≡ filterb (λ v. raised_of v == k) vaults)
list_vaults_lem_example =
    list_vaults_lem program stored vaults
      (run-IsKeyed memory [] writings (profile_id, tt) nothing-IsKeyed) fetches

abbrev snapshot : ℕ → Doc
snapshot n = field "vault" (str (codes "v1")) (field "t" (num (pos n)) end)

abbrev snapshots : Server platform
snapshots = record {
  db =
      Write.put "navSnapshots" (codes "k2") (snapshot 9)
      ∷ Write.put "navSnapshots" (codes "k1") (snapshot 4)
      ∷ [];
  buckets = [];
}

-- The earlier snapshot is shown first.
shows :
    (show_history (codes "v1") snapshots).1
    ≡ json (point_of (snapshot 4) ∷ point_of (snapshot 9) ∷ [])
unfolding show_history sort_up time_of is_str db_query db_all table without get text_eq sort_with
    insert_with
shows = refl

-- A log with a trade of the vault.
abbrev trading : Object
trading =
    ("adminPool", letters (codes "a"))
    ∷ ("moneyManager", letters (codes "m"))
    ∷ ("vaultPool", letters (codes "v"))
    ∷ ("inputMint", letters (codes "i"))
    ∷ ("inputMintDecimals", number (pos 6))
    ∷ ("outputMint", letters (codes "o"))
    ∷ ("outputMintDecimals", number (pos 9))
    ∷ ("inputAmount", number (pos 5))
    ∷ ("outputAmount", number (pos 7))
    ∷ ("trader", letters (codes "t"))
    ∷ []

abbrev trading_bytes : List ℕ
trading_bytes =
    29 ∷ 122 ∷ 43 ∷ 227 ∷ 187 ∷ 48 ∷ 131 ∷ 190 ∷ 1 ∷ b'a' ∷ 1 ∷ b'm' ∷ 1 ∷ b'v' ∷ 1 ∷ b'i' ∷ 6 ∷ 1
    ∷ b'o' ∷ 9 ∷ 5 ∷ 7 ∷ 1 ∷ b't' ∷ []

abbrev node : Logs
node = record {
  signatures = λ v n. got [];
  lines = λ s. [];
  base64 = λ p. trading_bytes ++ (0 ∷ []);
}

abbrev signed : SignatureInfo
signed = record { signature = codes "sig"; failed = false; block_time = none }

trading_fits : AllFit toy (event_encoder trading_event) trading
unfolding event_encoder
trading_fits = (
  λ v h. tt,
  (
    λ v h. tt,
    (
      λ v h. tt,
      (λ v h. tt, (λ v h. tt, (λ v h. tt, (λ v h. tt, (λ v h. tt, (λ v h. tt, (λ v h. tt, tt))))))),
    ),
  ),
)

trading_written : encode_event toy trading_event trading ≡ some trading_bytes
unfolding encode_event encode_struct event_encoder lookup toy_encode event_discriminator
trading_written = refl

plain_text : payload_of (codes "HXor") ≡ some (codes "HXor")
unfolding payload_of all_units
plain_text = refl

of_vault : lookup "vaultPool" trading ≡ some (letters (codes "v"))
unfolding lookup
of_vault = refl

read_line-logged_example :
    read_line toy node (codes "v") signed (codes "Program data: " ++ codes "HXor") ≡ (
      if text_eq (codes "v") (codes "v")
      then some (record {
        signature = signed.signature;
        block_time = signed.block_time;
        input_mint = lookup "inputMint" trading;
        output_mint = lookup "outputMint" trading;
        input_amount = lookup "inputAmount" trading;
        output_amount = lookup "outputAmount" trading;
        input_decimals = lookup "inputMintDecimals" trading;
        output_decimals = lookup "outputMintDecimals" trading;
        trader = lookup "trader" trading;
      })
      else none)
read_line-logged_example =
    read_line-logged toy toy-AreStandard node (codes "v") (codes "v") signed trading trading_bytes
      (0 ∷ []) (codes "HXor") trading_fits trading_written of_vault refl plain_text
