-- ===== src/Jupiter/Route.antt =====
-- `roleOf` and `buildJupiterRoute` of app/src/lib/jupiterRoute.ts.
use fbyt.Base.{ℕ, Text, text_eq, Bool, false, ◌&&◌, List, map, if◌then◌else◌}

-- `AccountRole` of @solana/kit.
pub data AccountRole : Type 0 where
  writable_signer readonly_signer writable readonly : AccountRole

pub record AccountMeta : Type 0 where
  pub address : Text
  pub role : AccountRole

pub record RouteAccount : Type 0 where
  pub pubkey : Text
  pub is_signer : Bool
  pub is_writable : Bool

pub record JupiterInstruction : Type 0 where
  pub program_id : Text
  pub accounts : List RouteAccount
  pub payload : Text

pub record Route : Type 0 where
  pub payload : List ℕ
  pub remaining_accounts : List AccountMeta

unfoldable pub role_of : Bool → Bool → AccountRole
role_of signer writes =
    if signer && writes
    then writable_signer
    else if signer
    then readonly_signer
    else if writes
    then writable
    else readonly

unfoldable pub adapt : Text → RouteAccount → AccountMeta
unfolding role_of
adapt vault a = record {
  address = a.pubkey;
  role = role_of (if text_eq a.pubkey vault then false else a.is_signer) a.is_writable;
}

-- `base64` is b64ToBytes.
unfoldable pub build_jupiter_route : (Text → List ℕ) → JupiterInstruction → Text → Route
unfolding adapt
build_jupiter_route base64 ix vault = record {
  payload = base64 ix.payload;
  remaining_accounts = map (adapt vault) ix.accounts;
}
