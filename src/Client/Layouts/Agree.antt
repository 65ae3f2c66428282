-- ===== src/Client/Layouts/Agree.antt =====
-- The encoders and decoders of the generated client have the same layouts, with the discriminator first.
use fbyt.Base.{◌≡◌, refl, ◌∷◌, length}
use fbyt.Client.Codec.{Layout, fixed_bytes}
use fbyt.Client.Accounts.{
  ClientAccount, account_discriminator, admin_pool, asset_registry, investor_pool,
  money_manager_pool, oracle_pool, vault_pool,
}
use fbyt.Client.Events.{
  ClientEvent, admin_pool_accept_ownership_event, admin_pool_created_event,
  admin_pool_modify_fee_event, admin_pool_transfer_ownership_event,
  admin_pool_update_contribution_amount_min_usd_event, admin_pool_update_dust_threshold_usd_event,
  admin_pool_update_fundrising_period_max_event, admin_pool_update_idle_period_event,
  admin_pool_update_max_asset_count_event, admin_pool_update_max_slippage_bps_event,
  admin_pool_update_operator_event, admin_pool_update_oracle_max_age_event,
  admin_pool_update_raise_amount_min_usd_event, admin_pool_update_withdraw_cooldown_max_event,
  approve_oracle_pool_event, asset_added_event, asset_removed_event, close_oracle_pool_event,
  close_vault_event, create_oracle_pool_event, deposit_token_fund_event,
  investor_pool_created_event, money_manager_pool_created_event, trading_delegate_revoked_event,
  trading_delegate_set_event, trading_event, update_oracle_pool_event, vault_created_event,
  withdraw_money_management_fee_event, withdraw_token_fund_event, withdraw_token_fund_result_event,
}
use fbyt.Client.Instructions.{
  ClientInstruction, instruction_discriminator, admin_accept_ownership, admin_modify_fee,
  admin_transfer_ownership, admin_update_contribution_amount_min_usd,
  admin_update_dust_threshold_usd, admin_update_fundrising_period_max, admin_update_idle_period,
  admin_update_max_asset_count, admin_update_max_slippage_bps, admin_update_operator,
  admin_update_oracle_max_age, admin_update_raise_amount_min_usd,
  admin_update_withdraw_cooldown_max, approve_oracle_pool, close_oracle_pool, close_vault,
  create_admin_pool, create_investor_pool, create_money_manager_pool, create_oracle_pool,
  create_vault, deposit_token_fund, get_price_info, revoke_trading_delegate, set_trading_delegate,
  swap, update_oracle_pool, withdraw_money_management_fee, withdraw_token_fund,
}
use fbyt.Client.Layouts.Tables.{
  account_encoder, account_decoder, event_encoder, event_decoder, instruction_encoder,
  instruction_decoder,
}

pub account_decoder-encoder : (x : ClientAccount) → account_decoder x ≡ account_encoder x
unfolding account_encoder account_decoder
account_decoder-encoder admin_pool = refl
account_decoder-encoder asset_registry = refl
account_decoder-encoder investor_pool = refl
account_decoder-encoder money_manager_pool = refl
account_decoder-encoder oracle_pool = refl
account_decoder-encoder vault_pool = refl

pub account_encoder-sealed :
    (x : ClientAccount)
    → (fs : Layout) × (account_encoder x
        ≡ ("discriminator", fixed_bytes (length (account_discriminator x))) ∷ fs)
unfolding account_encoder account_discriminator
account_encoder-sealed admin_pool = (_, refl)
account_encoder-sealed asset_registry = (_, refl)
account_encoder-sealed investor_pool = (_, refl)
account_encoder-sealed money_manager_pool = (_, refl)
account_encoder-sealed oracle_pool = (_, refl)
account_encoder-sealed vault_pool = (_, refl)

pub event_decoder-encoder : (x : ClientEvent) → event_decoder x ≡ event_encoder x
unfolding event_encoder event_decoder
event_decoder-encoder admin_pool_accept_ownership_event = refl
event_decoder-encoder admin_pool_created_event = refl
event_decoder-encoder admin_pool_modify_fee_event = refl
event_decoder-encoder admin_pool_transfer_ownership_event = refl
event_decoder-encoder admin_pool_update_contribution_amount_min_usd_event = refl
event_decoder-encoder admin_pool_update_dust_threshold_usd_event = refl
event_decoder-encoder admin_pool_update_fundrising_period_max_event = refl
event_decoder-encoder admin_pool_update_idle_period_event = refl
event_decoder-encoder admin_pool_update_max_asset_count_event = refl
event_decoder-encoder admin_pool_update_max_slippage_bps_event = refl
event_decoder-encoder admin_pool_update_operator_event = refl
event_decoder-encoder admin_pool_update_oracle_max_age_event = refl
event_decoder-encoder admin_pool_update_raise_amount_min_usd_event = refl
event_decoder-encoder admin_pool_update_withdraw_cooldown_max_event = refl
event_decoder-encoder approve_oracle_pool_event = refl
event_decoder-encoder asset_added_event = refl
event_decoder-encoder asset_removed_event = refl
event_decoder-encoder close_oracle_pool_event = refl
event_decoder-encoder close_vault_event = refl
event_decoder-encoder create_oracle_pool_event = refl
event_decoder-encoder deposit_token_fund_event = refl
event_decoder-encoder investor_pool_created_event = refl
event_decoder-encoder money_manager_pool_created_event = refl
event_decoder-encoder trading_delegate_revoked_event = refl
event_decoder-encoder trading_delegate_set_event = refl
event_decoder-encoder trading_event = refl
event_decoder-encoder update_oracle_pool_event = refl
event_decoder-encoder vault_created_event = refl
event_decoder-encoder withdraw_money_management_fee_event = refl
event_decoder-encoder withdraw_token_fund_event = refl
event_decoder-encoder withdraw_token_fund_result_event = refl

pub instruction_decoder-encoder :
    (x : ClientInstruction) → instruction_decoder x ≡ instruction_encoder x
unfolding instruction_encoder instruction_decoder
instruction_decoder-encoder admin_accept_ownership = refl
instruction_decoder-encoder admin_modify_fee = refl
instruction_decoder-encoder admin_transfer_ownership = refl
instruction_decoder-encoder admin_update_contribution_amount_min_usd = refl
instruction_decoder-encoder admin_update_dust_threshold_usd = refl
instruction_decoder-encoder admin_update_fundrising_period_max = refl
instruction_decoder-encoder admin_update_idle_period = refl
instruction_decoder-encoder admin_update_max_asset_count = refl
instruction_decoder-encoder admin_update_max_slippage_bps = refl
instruction_decoder-encoder admin_update_operator = refl
instruction_decoder-encoder admin_update_oracle_max_age = refl
instruction_decoder-encoder admin_update_raise_amount_min_usd = refl
instruction_decoder-encoder admin_update_withdraw_cooldown_max = refl
instruction_decoder-encoder approve_oracle_pool = refl
instruction_decoder-encoder close_oracle_pool = refl
instruction_decoder-encoder close_vault = refl
instruction_decoder-encoder create_admin_pool = refl
instruction_decoder-encoder create_investor_pool = refl
instruction_decoder-encoder create_money_manager_pool = refl
instruction_decoder-encoder create_oracle_pool = refl
instruction_decoder-encoder create_vault = refl
instruction_decoder-encoder deposit_token_fund = refl
instruction_decoder-encoder get_price_info = refl
instruction_decoder-encoder revoke_trading_delegate = refl
instruction_decoder-encoder set_trading_delegate = refl
instruction_decoder-encoder swap = refl
instruction_decoder-encoder update_oracle_pool = refl
instruction_decoder-encoder withdraw_money_management_fee = refl
instruction_decoder-encoder withdraw_token_fund = refl

pub instruction_encoder-sealed :
    (x : ClientInstruction)
    → (fs : Layout) × (instruction_encoder x
        ≡ ("discriminator", fixed_bytes (length (instruction_discriminator x))) ∷ fs)
unfolding instruction_encoder instruction_discriminator
instruction_encoder-sealed admin_accept_ownership = (_, refl)
instruction_encoder-sealed admin_modify_fee = (_, refl)
instruction_encoder-sealed admin_transfer_ownership = (_, refl)
instruction_encoder-sealed admin_update_contribution_amount_min_usd = (_, refl)
instruction_encoder-sealed admin_update_dust_threshold_usd = (_, refl)
instruction_encoder-sealed admin_update_fundrising_period_max = (_, refl)
instruction_encoder-sealed admin_update_idle_period = (_, refl)
instruction_encoder-sealed admin_update_max_asset_count = (_, refl)
instruction_encoder-sealed admin_update_max_slippage_bps = (_, refl)
instruction_encoder-sealed admin_update_operator = (_, refl)
instruction_encoder-sealed admin_update_oracle_max_age = (_, refl)
instruction_encoder-sealed admin_update_raise_amount_min_usd = (_, refl)
instruction_encoder-sealed admin_update_withdraw_cooldown_max = (_, refl)
instruction_encoder-sealed approve_oracle_pool = (_, refl)
instruction_encoder-sealed close_oracle_pool = (_, refl)
instruction_encoder-sealed close_vault = (_, refl)
instruction_encoder-sealed create_admin_pool = (_, refl)
instruction_encoder-sealed create_investor_pool = (_, refl)
instruction_encoder-sealed create_money_manager_pool = (_, refl)
instruction_encoder-sealed create_oracle_pool = (_, refl)
instruction_encoder-sealed create_vault = (_, refl)
instruction_encoder-sealed deposit_token_fund = (_, refl)
instruction_encoder-sealed get_price_info = (_, refl)
instruction_encoder-sealed revoke_trading_delegate = (_, refl)
instruction_encoder-sealed set_trading_delegate = (_, refl)
instruction_encoder-sealed swap = (_, refl)
instruction_encoder-sealed update_oracle_pool = (_, refl)
instruction_encoder-sealed withdraw_money_management_fee = (_, refl)
instruction_encoder-sealed withdraw_token_fund = (_, refl)
