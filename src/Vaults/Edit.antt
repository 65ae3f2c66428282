-- ===== src/Vaults/Edit.antt =====
-- The handlers of app/src/app/api/vaults/[address]/metadata/route.ts.
use fbyt.Base.{ℕ, suc, ◌*◌, Text, text_eq, Option, none, some, [], take, ltb, if◌then◌else◌}
use fbyt.Base.Int.{ℤ, pos, negsuc, ◌-ℤ◌}
use fbyt.Json.{Doc, Json, num, str, get}
use fbyt.Guard.Request.{Request, per_minute}
use fbyt.Http.{Platform, Handler, json, refuse, pure, limited, body_fields, ◌>>=◌, ◌>>◌}
use fbyt.Bots.Register.{Fetched, fetch_failed, absent, exists}
use fbyt.Vaults.Profiles.{
  VaultMetadata, get_metadata, set_metadata, Signing, verify_ed25519, metadata_message,
}

abbrev pub max_age_ms : ℕ
max_age_ms = 5 * 60 * 1000

abbrev pub abs_ℤ : ℤ → ℕ
abs_ℤ (pos n) = n
abs_ℤ (negsuc n) = suc n

-- The fields that authorize a write. A number of JSON is an integer here: a time with a fraction, which the
-- code accepts too, is not represented.
pub record Claim : Type 0 where
  pub signer : Text
  pub signature : Text
  pub issued_at : ℤ

unfoldable pub claim_of : Option Json → Option Json → Option Json → Option Claim
claim_of (some (str signer)) (some (str signature)) (some (num issued_at)) =
    some (record { signer = signer; signature = signature; issued_at = issued_at })
claim_of _ _ _ = none

-- `clip(v, n)`
unfoldable pub clip_text : Option Json → ℕ → Text
clip_text (some (str t)) n = take n t
clip_text _ n = []

abbrev pub metadata_of : Doc → Text → ℕ → VaultMetadata
metadata_of body signer now = record {
  name = clip_text (get body "name") 80;
  description = clip_text (get body "description") 500;
  strategy = clip_text (get body "strategy") 200;
  updated_by = signer;
  updated_at = now;
}

module _ {pf : Platform} where
  unfoldable pub show_metadata : Text → Handler pf (Option Doc)
  unfolding get_metadata
  show_metadata address s = (s, json (get_metadata (Platform.sql pf) s.db address))

  unfoldable pub read_claim : Doc → Handler pf Claim
  unfolding claim_of
  read_claim body s =
      elim (claim_of (get body "signer") (get body "signature") (get body "issuedAt")) [
        | none ↦ refuse 400 "signer, signature, issuedAt required" s
        | some c ↦ pure c s
      ]

  unfoldable pub check_claim : Signing → Text → Claim → ℕ → Handler pf (Unit {0})
  unfolding verify_ed25519 metadata_message
  check_claim sg address c now s =
      if ltb max_age_ms (abs_ℤ (pos now -ℤ c.issued_at))
      then refuse 401 "signature expired" s
      else if verify_ed25519 sg c.signer (sg.utf8 (metadata_message sg address c.issued_at))
          (sg.base64 c.signature)
      then pure tt s
      else refuse 401 "bad signature" s

  -- `fetchMaybeVaultPool` is the parameter `chain`; its exception is caught.
  unfoldable pub check_manager : (Text → Fetched) → Text → Text → Handler pf (Unit {0})
  check_manager chain address signer s = elim (chain address) [
    | fetch_failed ↦ refuse 500 "exception" s
    | absent ↦ refuse 404 "no vault at this address" s
    | exists v ↦
        if text_eq v.money_manager signer
        then pure tt s
        else refuse 403 "signer is not the vault manager" s
  ]

  unfoldable pub store_metadata : Text → VaultMetadata → Handler pf (Unit {0})
  unfolding set_metadata
  store_metadata address m s =
      (record s { db = set_metadata (Platform.sql pf) s.db address m }, json tt)

  unfoldable pub edit_profile : Signing → (Text → Fetched) → Text → Doc → ℕ → Handler pf (Unit {0})
  edit_profile sg chain address body now = do
    c ← read_claim body
    check_claim sg address c now
    check_manager chain address c.signer
    store_metadata address (metadata_of body c.signer now)

  -- A body that is no JSON is an exception, which is caught.
  unfoldable pub edit_body :
      Signing → (Text → Fetched) → Text → Option Json → ℕ → Handler pf (Unit {0})
  edit_body sg chain address none now s = refuse 500 "exception" s
  edit_body sg chain address (some b) now s =
      edit_profile sg chain address (body_fields (some b)) now s

  unfoldable pub put_metadata :
      Signing → (Text → Fetched) → Request → Text → Option Json → ℕ → Handler pf (Unit {0})
  put_metadata sg chain req address body now = do
    limited req now (per_minute 20)
    edit_body sg chain address body now
