-- ===== src/Nav/Ledger.antt =====
-- What `computeNav` reads from the chain, a parameter, and the exceptions of reading.
use fbyt.Base.{ℕ, Text, Option, List}
use fbyt.Money.Account.{PythPrice}

-- A result, or an exception that `computeNav` leaves to its caller.
pub data Read {ℓ} (A : Type ℓ) : Type ℓ where
  threw : Read A
  got : A → Read A

infixl 5 ◌>>=◌
abbrev pub ◌>>=◌ {ℓ κ} : {A : Type ℓ} {B : Type κ} → Read A → (A → Read B) → Read B
threw >>= f = threw
got a >>= f = f a

-- The fields of a vault's account that are read.
pub record Pool : Type 0 where
  pub token_mint : Text
  pub admin_pool : Text
  pub raised_amount_usd : ℕ

pub record Balance : Type 0 where
  pub amount : ℕ
  pub decimals : ℕ

-- An account that is absent is `none`. The addresses that are derived from the vault, the mint and the
-- feed are part of what is read.
pub record Ledger : Type 1 where
  -- fetchMaybeVaultPool
  pub vault_pool : Text → Read (Option Pool)
  -- fetchMaybeAssetRegistry, its assetMints
  pub asset_mints : Text → Read (Option (List Text))
  -- getTokenAccountBalance of the vault's account for a mint, with its `catch(() => null)`
  pub balance : Text → Text → Option Balance
  -- fetchMaybeOraclePool, its feed id
  pub feed_id : Text → Text → Read (Option (List ℕ))
  -- getAccountInfo of the price account of a feed, with its `catch(() => null)`
  pub price_data : List ℕ → Option (List ℕ)
  -- JavaScript numbers: `Number(price) * 10 ** expo` and `Number(v)`
  pub Double : Type 0
  pub usd_price : PythPrice → Double
