-- ===== src/Client/VaultPool.antt =====
-- The decoded account of a vault, as app/src/generated/accounts/vaultPool.ts types it.
use fbyt.Base.{ℕ, Text, Bool, List}

pub record VaultPool : Type 0 where
  pub discriminator : List ℕ
  pub bump : ℕ
  pub index : ℕ
  pub admin_pool : Text
  pub money_manager : Text
  pub token_mint : Text
  pub asset_registry : Text
  pub vault_pool_status : ℕ
  pub investor_count : ℕ
  pub raised_amount_usd : ℕ
  pub total_shares : ℕ
  pub min_contribute_amount_usd : ℕ
  pub raise_period : ℕ
  pub min_raise_amount_usd : ℕ
  pub mm_withdraw_period : ℕ
  pub withdraw_cooldown : ℕ
  pub created_at : ℕ
  pub updated_at : ℕ
  pub last_trade_at : ℕ
  pub last_mm_fee_withdraw_at : ℕ
  pub money_management_yearly_fee : ℕ
  pub performance_fee : ℕ
  pub is_open_ended : Bool
  pub padding1 : List ℕ
  pub trading_delegate : Text
  pub padding : List ℕ
