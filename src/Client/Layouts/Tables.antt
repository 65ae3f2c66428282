-- ===== src/Client/Layouts/Tables.antt =====
-- The layout of each account, event and instruction.
use fbyt.Client.Codec.{Layout}
use fbyt.Client.Accounts.{
  ClientAccount, admin_pool, asset_registry, investor_pool, money_manager_pool, oracle_pool,
  vault_pool,
}
use fbyt.Client.Events.{
  ClientEvent, admin_pool_accept_ownership_event, admin_pool_created_event,
  admin_pool_modify_fee_event, admin_pool_transfer_ownership_event,
  admin_pool_update_contribution_amount_min_usd_event, admin_pool_update_dust_threshold_usd_event,
  admin_pool_update_fundrising_period_max_event, admin_pool_update_idle_period_event,
  admin_pool_update_max_asset_count_event, admin_pool_update_max_slippage_bps_event,
  admin_pool_update_operator_event, admin_pool_update_oracle_max_age_event,
  admin_pool_update_raise_amount_min_usd_event, admin_pool_update_withdraw_cooldown_max_event,
  approve_oracle_pool_event, asset_added_event, asset_removed_event, close_oracle_pool_event,
  close_vault_event, create_oracle_pool_event, deposit_token_fund_event,
  investor_pool_created_event, money_manager_pool_created_event, trading_delegate_revoked_event,
  trading_delegate_set_event, trading_event, update_oracle_pool_event, vault_created_event,
  withdraw_money_management_fee_event, withdraw_token_fund_event, withdraw_token_fund_result_event,
}
use fbyt.Client.Instructions.{
  ClientInstruction, admin_accept_ownership, admin_modify_fee, admin_transfer_ownership,
  admin_update_contribution_amount_min_usd, admin_update_dust_threshold_usd,
  admin_update_fundrising_period_max, admin_update_idle_period, admin_update_max_asset_count,
  admin_update_max_slippage_bps, admin_update_operator, admin_update_oracle_max_age,
  admin_update_raise_amount_min_usd, admin_update_withdraw_cooldown_max, approve_oracle_pool,
  close_oracle_pool, close_vault, create_admin_pool, create_investor_pool,
  create_money_manager_pool, create_oracle_pool, create_vault, deposit_token_fund, get_price_info,
  revoke_trading_delegate, set_trading_delegate, swap, update_oracle_pool,
  withdraw_money_management_fee, withdraw_token_fund,
}
use fbyt.Client.Layouts.Accounts.{
  admin_pool_encoder, admin_pool_decoder, asset_registry_encoder, asset_registry_decoder,
  investor_pool_encoder, investor_pool_decoder, money_manager_pool_encoder,
  money_manager_pool_decoder, oracle_pool_encoder, oracle_pool_decoder, vault_pool_encoder,
  vault_pool_decoder,
}
use fbyt.Client.Layouts.AdminEvents.{
  admin_pool_accept_ownership_event_encoder, admin_pool_accept_ownership_event_decoder,
  admin_pool_created_event_encoder, admin_pool_created_event_decoder,
  admin_pool_modify_fee_event_encoder, admin_pool_modify_fee_event_decoder,
  admin_pool_transfer_ownership_event_encoder, admin_pool_transfer_ownership_event_decoder,
  admin_pool_update_contribution_amount_min_usd_event_encoder,
  admin_pool_update_contribution_amount_min_usd_event_decoder,
  admin_pool_update_dust_threshold_usd_event_encoder,
  admin_pool_update_dust_threshold_usd_event_decoder,
  admin_pool_update_fundrising_period_max_event_encoder,
  admin_pool_update_fundrising_period_max_event_decoder,
  admin_pool_update_idle_period_event_encoder, admin_pool_update_idle_period_event_decoder,
  admin_pool_update_max_asset_count_event_encoder, admin_pool_update_max_asset_count_event_decoder,
  admin_pool_update_max_slippage_bps_event_encoder,
  admin_pool_update_max_slippage_bps_event_decoder, admin_pool_update_operator_event_encoder,
  admin_pool_update_operator_event_decoder, admin_pool_update_oracle_max_age_event_encoder,
  admin_pool_update_oracle_max_age_event_decoder,
  admin_pool_update_raise_amount_min_usd_event_encoder,
  admin_pool_update_raise_amount_min_usd_event_decoder,
  admin_pool_update_withdraw_cooldown_max_event_encoder,
  admin_pool_update_withdraw_cooldown_max_event_decoder,
}
use fbyt.Client.Layouts.OracleEvents.{
  approve_oracle_pool_event_encoder, approve_oracle_pool_event_decoder, asset_added_event_encoder,
  asset_added_event_decoder, asset_removed_event_encoder, asset_removed_event_decoder,
  close_oracle_pool_event_encoder, close_oracle_pool_event_decoder, close_vault_event_encoder,
  close_vault_event_decoder, create_oracle_pool_event_encoder, create_oracle_pool_event_decoder,
  deposit_token_fund_event_encoder, deposit_token_fund_event_decoder,
  update_oracle_pool_event_encoder, update_oracle_pool_event_decoder,
}
use fbyt.Client.Layouts.VaultEvents.{
  investor_pool_created_event_encoder, investor_pool_created_event_decoder,
  money_manager_pool_created_event_encoder, money_manager_pool_created_event_decoder,
  trading_delegate_revoked_event_encoder, trading_delegate_revoked_event_decoder,
  trading_delegate_set_event_encoder, trading_delegate_set_event_decoder, trading_event_encoder,
  trading_event_decoder, vault_created_event_encoder, vault_created_event_decoder,
  withdraw_money_management_fee_event_encoder, withdraw_money_management_fee_event_decoder,
  withdraw_token_fund_event_encoder, withdraw_token_fund_event_decoder,
  withdraw_token_fund_result_event_encoder, withdraw_token_fund_result_event_decoder,
}
use fbyt.Client.Layouts.AdminInstructions.{
  admin_accept_ownership_encoder, admin_accept_ownership_decoder, admin_modify_fee_encoder,
  admin_modify_fee_decoder, admin_transfer_ownership_encoder, admin_transfer_ownership_decoder,
  admin_update_contribution_amount_min_usd_encoder,
  admin_update_contribution_amount_min_usd_decoder, admin_update_dust_threshold_usd_encoder,
  admin_update_dust_threshold_usd_decoder, admin_update_fundrising_period_max_encoder,
  admin_update_fundrising_period_max_decoder, admin_update_idle_period_encoder,
  admin_update_idle_period_decoder, admin_update_max_asset_count_encoder,
  admin_update_max_asset_count_decoder, admin_update_max_slippage_bps_encoder,
  admin_update_max_slippage_bps_decoder, admin_update_operator_encoder,
  admin_update_operator_decoder, admin_update_oracle_max_age_encoder,
  admin_update_oracle_max_age_decoder, admin_update_raise_amount_min_usd_encoder,
  admin_update_raise_amount_min_usd_decoder, admin_update_withdraw_cooldown_max_encoder,
  admin_update_withdraw_cooldown_max_decoder,
}
use fbyt.Client.Layouts.Instructions.{
  approve_oracle_pool_encoder, approve_oracle_pool_decoder, close_oracle_pool_encoder,
  close_oracle_pool_decoder, close_vault_encoder, close_vault_decoder, create_admin_pool_encoder,
  create_admin_pool_decoder, create_investor_pool_encoder, create_investor_pool_decoder,
  create_money_manager_pool_encoder, create_money_manager_pool_decoder, create_oracle_pool_encoder,
  create_oracle_pool_decoder, create_vault_encoder, create_vault_decoder,
  deposit_token_fund_encoder, deposit_token_fund_decoder, get_price_info_encoder,
  get_price_info_decoder, revoke_trading_delegate_encoder, revoke_trading_delegate_decoder,
  set_trading_delegate_encoder, set_trading_delegate_decoder, swap_encoder, swap_decoder,
  update_oracle_pool_encoder, update_oracle_pool_decoder, withdraw_money_management_fee_encoder,
  withdraw_money_management_fee_decoder, withdraw_token_fund_encoder, withdraw_token_fund_decoder,
}

unfoldable pub account_encoder : ClientAccount → Layout
account_encoder admin_pool = admin_pool_encoder
account_encoder asset_registry = asset_registry_encoder
account_encoder investor_pool = investor_pool_encoder
account_encoder money_manager_pool = money_manager_pool_encoder
account_encoder oracle_pool = oracle_pool_encoder
account_encoder vault_pool = vault_pool_encoder

unfoldable pub account_decoder : ClientAccount → Layout
account_decoder admin_pool = admin_pool_decoder
account_decoder asset_registry = asset_registry_decoder
account_decoder investor_pool = investor_pool_decoder
account_decoder money_manager_pool = money_manager_pool_decoder
account_decoder oracle_pool = oracle_pool_decoder
account_decoder vault_pool = vault_pool_decoder

unfoldable pub event_encoder : ClientEvent → Layout
event_encoder admin_pool_accept_ownership_event = admin_pool_accept_ownership_event_encoder
event_encoder admin_pool_created_event = admin_pool_created_event_encoder
event_encoder admin_pool_modify_fee_event = admin_pool_modify_fee_event_encoder
event_encoder admin_pool_transfer_ownership_event = admin_pool_transfer_ownership_event_encoder
event_encoder admin_pool_update_contribution_amount_min_usd_event =
    admin_pool_update_contribution_amount_min_usd_event_encoder
event_encoder admin_pool_update_dust_threshold_usd_event =
    admin_pool_update_dust_threshold_usd_event_encoder
event_encoder admin_pool_update_fundrising_period_max_event =
    admin_pool_update_fundrising_period_max_event_encoder
event_encoder admin_pool_update_idle_period_event = admin_pool_update_idle_period_event_encoder
event_encoder admin_pool_update_max_asset_count_event =
    admin_pool_update_max_asset_count_event_encoder
event_encoder admin_pool_update_max_slippage_bps_event =
    admin_pool_update_max_slippage_bps_event_encoder
event_encoder admin_pool_update_operator_event = admin_pool_update_operator_event_encoder
event_encoder admin_pool_update_oracle_max_age_event =
    admin_pool_update_oracle_max_age_event_encoder
event_encoder admin_pool_update_raise_amount_min_usd_event =
    admin_pool_update_raise_amount_min_usd_event_encoder
event_encoder admin_pool_update_withdraw_cooldown_max_event =
    admin_pool_update_withdraw_cooldown_max_event_encoder
event_encoder approve_oracle_pool_event = approve_oracle_pool_event_encoder
event_encoder asset_added_event = asset_added_event_encoder
event_encoder asset_removed_event = asset_removed_event_encoder
event_encoder close_oracle_pool_event = close_oracle_pool_event_encoder
event_encoder close_vault_event = close_vault_event_encoder
event_encoder create_oracle_pool_event = create_oracle_pool_event_encoder
event_encoder deposit_token_fund_event = deposit_token_fund_event_encoder
event_encoder investor_pool_created_event = investor_pool_created_event_encoder
event_encoder money_manager_pool_created_event = money_manager_pool_created_event_encoder
event_encoder trading_delegate_revoked_event = trading_delegate_revoked_event_encoder
event_encoder trading_delegate_set_event = trading_delegate_set_event_encoder
event_encoder trading_event = trading_event_encoder
event_encoder update_oracle_pool_event = update_oracle_pool_event_encoder
event_encoder vault_created_event = vault_created_event_encoder
event_encoder withdraw_money_management_fee_event = withdraw_money_management_fee_event_encoder
event_encoder withdraw_token_fund_event = withdraw_token_fund_event_encoder
event_encoder withdraw_token_fund_result_event = withdraw_token_fund_result_event_encoder

unfoldable pub event_decoder : ClientEvent → Layout
event_decoder admin_pool_accept_ownership_event = admin_pool_accept_ownership_event_decoder
event_decoder admin_pool_created_event = admin_pool_created_event_decoder
event_decoder admin_pool_modify_fee_event = admin_pool_modify_fee_event_decoder
event_decoder admin_pool_transfer_ownership_event = admin_pool_transfer_ownership_event_decoder
event_decoder admin_pool_update_contribution_amount_min_usd_event =
    admin_pool_update_contribution_amount_min_usd_event_decoder
event_decoder admin_pool_update_dust_threshold_usd_event =
    admin_pool_update_dust_threshold_usd_event_decoder
event_decoder admin_pool_update_fundrising_period_max_event =
    admin_pool_update_fundrising_period_max_event_decoder
event_decoder admin_pool_update_idle_period_event = admin_pool_update_idle_period_event_decoder
event_decoder admin_pool_update_max_asset_count_event =
    admin_pool_update_max_asset_count_event_decoder
event_decoder admin_pool_update_max_slippage_bps_event =
    admin_pool_update_max_slippage_bps_event_decoder
event_decoder admin_pool_update_operator_event = admin_pool_update_operator_event_decoder
event_decoder admin_pool_update_oracle_max_age_event =
    admin_pool_update_oracle_max_age_event_decoder
event_decoder admin_pool_update_raise_amount_min_usd_event =
    admin_pool_update_raise_amount_min_usd_event_decoder
event_decoder admin_pool_update_withdraw_cooldown_max_event =
    admin_pool_update_withdraw_cooldown_max_event_decoder
event_decoder approve_oracle_pool_event = approve_oracle_pool_event_decoder
event_decoder asset_added_event = asset_added_event_decoder
event_decoder asset_removed_event = asset_removed_event_decoder
event_decoder close_oracle_pool_event = close_oracle_pool_event_decoder
event_decoder close_vault_event = close_vault_event_decoder
event_decoder create_oracle_pool_event = create_oracle_pool_event_decoder
event_decoder deposit_token_fund_event = deposit_token_fund_event_decoder
event_decoder investor_pool_created_event = investor_pool_created_event_decoder
event_decoder money_manager_pool_created_event = money_manager_pool_created_event_decoder
event_decoder trading_delegate_revoked_event = trading_delegate_revoked_event_decoder
event_decoder trading_delegate_set_event = trading_delegate_set_event_decoder
event_decoder trading_event = trading_event_decoder
event_decoder update_oracle_pool_event = update_oracle_pool_event_decoder
event_decoder vault_created_event = vault_created_event_decoder
event_decoder withdraw_money_management_fee_event = withdraw_money_management_fee_event_decoder
event_decoder withdraw_token_fund_event = withdraw_token_fund_event_decoder
event_decoder withdraw_token_fund_result_event = withdraw_token_fund_result_event_decoder

unfoldable pub instruction_encoder : ClientInstruction → Layout
instruction_encoder admin_accept_ownership = admin_accept_ownership_encoder
instruction_encoder admin_modify_fee = admin_modify_fee_encoder
instruction_encoder admin_transfer_ownership = admin_transfer_ownership_encoder
instruction_encoder admin_update_contribution_amount_min_usd =
    admin_update_contribution_amount_min_usd_encoder
instruction_encoder admin_update_dust_threshold_usd = admin_update_dust_threshold_usd_encoder
instruction_encoder admin_update_fundrising_period_max = admin_update_fundrising_period_max_encoder
instruction_encoder admin_update_idle_period = admin_update_idle_period_encoder
instruction_encoder admin_update_max_asset_count = admin_update_max_asset_count_encoder
instruction_encoder admin_update_max_slippage_bps = admin_update_max_slippage_bps_encoder
instruction_encoder admin_update_operator = admin_update_operator_encoder
instruction_encoder admin_update_oracle_max_age = admin_update_oracle_max_age_encoder
instruction_encoder admin_update_raise_amount_min_usd = admin_update_raise_amount_min_usd_encoder
instruction_encoder admin_update_withdraw_cooldown_max = admin_update_withdraw_cooldown_max_encoder
instruction_encoder approve_oracle_pool = approve_oracle_pool_encoder
instruction_encoder close_oracle_pool = close_oracle_pool_encoder
instruction_encoder close_vault = close_vault_encoder
instruction_encoder create_admin_pool = create_admin_pool_encoder
instruction_encoder create_investor_pool = create_investor_pool_encoder
instruction_encoder create_money_manager_pool = create_money_manager_pool_encoder
instruction_encoder create_oracle_pool = create_oracle_pool_encoder
instruction_encoder create_vault = create_vault_encoder
instruction_encoder deposit_token_fund = deposit_token_fund_encoder
instruction_encoder get_price_info = get_price_info_encoder
instruction_encoder revoke_trading_delegate = revoke_trading_delegate_encoder
instruction_encoder set_trading_delegate = set_trading_delegate_encoder
instruction_encoder swap = swap_encoder
instruction_encoder update_oracle_pool = update_oracle_pool_encoder
instruction_encoder withdraw_money_management_fee = withdraw_money_management_fee_encoder
instruction_encoder withdraw_token_fund = withdraw_token_fund_encoder

unfoldable pub instruction_decoder : ClientInstruction → Layout
instruction_decoder admin_accept_ownership = admin_accept_ownership_decoder
instruction_decoder admin_modify_fee = admin_modify_fee_decoder
instruction_decoder admin_transfer_ownership = admin_transfer_ownership_decoder
instruction_decoder admin_update_contribution_amount_min_usd =
    admin_update_contribution_amount_min_usd_decoder
instruction_decoder admin_update_dust_threshold_usd = admin_update_dust_threshold_usd_decoder
instruction_decoder admin_update_fundrising_period_max = admin_update_fundrising_period_max_decoder
instruction_decoder admin_update_idle_period = admin_update_idle_period_decoder
instruction_decoder admin_update_max_asset_count = admin_update_max_asset_count_decoder
instruction_decoder admin_update_max_slippage_bps = admin_update_max_slippage_bps_decoder
instruction_decoder admin_update_operator = admin_update_operator_decoder
instruction_decoder admin_update_oracle_max_age = admin_update_oracle_max_age_decoder
instruction_decoder admin_update_raise_amount_min_usd = admin_update_raise_amount_min_usd_decoder
instruction_decoder admin_update_withdraw_cooldown_max = admin_update_withdraw_cooldown_max_decoder
instruction_decoder approve_oracle_pool = approve_oracle_pool_decoder
instruction_decoder close_oracle_pool = close_oracle_pool_decoder
instruction_decoder close_vault = close_vault_decoder
instruction_decoder create_admin_pool = create_admin_pool_decoder
instruction_decoder create_investor_pool = create_investor_pool_decoder
instruction_decoder create_money_manager_pool = create_money_manager_pool_decoder
instruction_decoder create_oracle_pool = create_oracle_pool_decoder
instruction_decoder create_vault = create_vault_decoder
instruction_decoder deposit_token_fund = deposit_token_fund_decoder
instruction_decoder get_price_info = get_price_info_decoder
instruction_decoder revoke_trading_delegate = revoke_trading_delegate_decoder
instruction_decoder set_trading_delegate = set_trading_delegate_decoder
instruction_decoder swap = swap_decoder
instruction_decoder update_oracle_pool = update_oracle_pool_decoder
instruction_decoder withdraw_money_management_fee = withdraw_money_management_fee_decoder
instruction_decoder withdraw_token_fund = withdraw_token_fund_decoder
