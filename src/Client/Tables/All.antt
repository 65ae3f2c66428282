-- ===== src/Client/Tables/All.antt =====
-- The accounts of each instruction, which are parsed as they are built.
use fbyt.Base.{◌≡◌, refl, List, map, length}
use fbyt.Client.Account.{AccountField, ParseTable}
use fbyt.Client.Instructions.{
  ClientInstruction, admin_accept_ownership, admin_modify_fee, admin_transfer_ownership,
  admin_update_contribution_amount_min_usd, admin_update_dust_threshold_usd,
  admin_update_fundrising_period_max, admin_update_idle_period, admin_update_max_asset_count,
  admin_update_max_slippage_bps, admin_update_operator, admin_update_oracle_max_age,
  admin_update_raise_amount_min_usd, admin_update_withdraw_cooldown_max, approve_oracle_pool,
  close_oracle_pool, close_vault, create_admin_pool, create_investor_pool,
  create_money_manager_pool, create_oracle_pool, create_vault, deposit_token_fund, get_price_info,
  revoke_trading_delegate, set_trading_delegate, swap, update_oracle_pool,
  withdraw_money_management_fee, withdraw_token_fund,
}
use fbyt.Client.Tables.AdminAccounts.{
  admin_accept_ownership_accounts, admin_accept_ownership_parsed, admin_modify_fee_accounts,
  admin_modify_fee_parsed, admin_transfer_ownership_accounts, admin_transfer_ownership_parsed,
  admin_update_contribution_amount_min_usd_accounts,
  admin_update_contribution_amount_min_usd_parsed, admin_update_dust_threshold_usd_accounts,
  admin_update_dust_threshold_usd_parsed, admin_update_fundrising_period_max_accounts,
  admin_update_fundrising_period_max_parsed, admin_update_idle_period_accounts,
  admin_update_idle_period_parsed, admin_update_max_asset_count_accounts,
  admin_update_max_asset_count_parsed, admin_update_max_slippage_bps_accounts,
  admin_update_max_slippage_bps_parsed, admin_update_operator_accounts,
  admin_update_operator_parsed, admin_update_oracle_max_age_accounts,
  admin_update_oracle_max_age_parsed, admin_update_raise_amount_min_usd_accounts,
  admin_update_raise_amount_min_usd_parsed, admin_update_withdraw_cooldown_max_accounts,
  admin_update_withdraw_cooldown_max_parsed,
}
use fbyt.Client.Tables.PoolAccounts.{
  approve_oracle_pool_accounts, approve_oracle_pool_parsed, close_oracle_pool_accounts,
  close_oracle_pool_parsed, close_vault_accounts, close_vault_parsed, create_admin_pool_accounts,
  create_admin_pool_parsed, create_investor_pool_accounts, create_investor_pool_parsed,
  create_money_manager_pool_accounts, create_money_manager_pool_parsed, create_oracle_pool_accounts,
  create_oracle_pool_parsed,
}
use fbyt.Client.Tables.VaultAccounts.{
  create_vault_accounts, create_vault_parsed, deposit_token_fund_accounts,
  deposit_token_fund_parsed, get_price_info_accounts, get_price_info_parsed,
  revoke_trading_delegate_accounts, revoke_trading_delegate_parsed, set_trading_delegate_accounts,
  set_trading_delegate_parsed, swap_accounts, swap_parsed, update_oracle_pool_accounts,
  update_oracle_pool_parsed, withdraw_money_management_fee_accounts,
  withdraw_money_management_fee_parsed, withdraw_token_fund_accounts, withdraw_token_fund_parsed,
}

unfoldable pub accounts_of : ClientInstruction → List AccountField
accounts_of admin_accept_ownership = admin_accept_ownership_accounts
accounts_of admin_modify_fee = admin_modify_fee_accounts
accounts_of admin_transfer_ownership = admin_transfer_ownership_accounts
accounts_of admin_update_contribution_amount_min_usd =
    admin_update_contribution_amount_min_usd_accounts
accounts_of admin_update_dust_threshold_usd = admin_update_dust_threshold_usd_accounts
accounts_of admin_update_fundrising_period_max = admin_update_fundrising_period_max_accounts
accounts_of admin_update_idle_period = admin_update_idle_period_accounts
accounts_of admin_update_max_asset_count = admin_update_max_asset_count_accounts
accounts_of admin_update_max_slippage_bps = admin_update_max_slippage_bps_accounts
accounts_of admin_update_operator = admin_update_operator_accounts
accounts_of admin_update_oracle_max_age = admin_update_oracle_max_age_accounts
accounts_of admin_update_raise_amount_min_usd = admin_update_raise_amount_min_usd_accounts
accounts_of admin_update_withdraw_cooldown_max = admin_update_withdraw_cooldown_max_accounts
accounts_of approve_oracle_pool = approve_oracle_pool_accounts
accounts_of close_oracle_pool = close_oracle_pool_accounts
accounts_of close_vault = close_vault_accounts
accounts_of create_admin_pool = create_admin_pool_accounts
accounts_of create_investor_pool = create_investor_pool_accounts
accounts_of create_money_manager_pool = create_money_manager_pool_accounts
accounts_of create_oracle_pool = create_oracle_pool_accounts
accounts_of create_vault = create_vault_accounts
accounts_of deposit_token_fund = deposit_token_fund_accounts
accounts_of get_price_info = get_price_info_accounts
accounts_of revoke_trading_delegate = revoke_trading_delegate_accounts
accounts_of set_trading_delegate = set_trading_delegate_accounts
accounts_of swap = swap_accounts
accounts_of update_oracle_pool = update_oracle_pool_accounts
accounts_of withdraw_money_management_fee = withdraw_money_management_fee_accounts
accounts_of withdraw_token_fund = withdraw_token_fund_accounts

unfoldable pub parsed_of : ClientInstruction → ParseTable
parsed_of admin_accept_ownership = admin_accept_ownership_parsed
parsed_of admin_modify_fee = admin_modify_fee_parsed
parsed_of admin_transfer_ownership = admin_transfer_ownership_parsed
parsed_of admin_update_contribution_amount_min_usd = admin_update_contribution_amount_min_usd_parsed
parsed_of admin_update_dust_threshold_usd = admin_update_dust_threshold_usd_parsed
parsed_of admin_update_fundrising_period_max = admin_update_fundrising_period_max_parsed
parsed_of admin_update_idle_period = admin_update_idle_period_parsed
parsed_of admin_update_max_asset_count = admin_update_max_asset_count_parsed
parsed_of admin_update_max_slippage_bps = admin_update_max_slippage_bps_parsed
parsed_of admin_update_operator = admin_update_operator_parsed
parsed_of admin_update_oracle_max_age = admin_update_oracle_max_age_parsed
parsed_of admin_update_raise_amount_min_usd = admin_update_raise_amount_min_usd_parsed
parsed_of admin_update_withdraw_cooldown_max = admin_update_withdraw_cooldown_max_parsed
parsed_of approve_oracle_pool = approve_oracle_pool_parsed
parsed_of close_oracle_pool = close_oracle_pool_parsed
parsed_of close_vault = close_vault_parsed
parsed_of create_admin_pool = create_admin_pool_parsed
parsed_of create_investor_pool = create_investor_pool_parsed
parsed_of create_money_manager_pool = create_money_manager_pool_parsed
parsed_of create_oracle_pool = create_oracle_pool_parsed
parsed_of create_vault = create_vault_parsed
parsed_of deposit_token_fund = deposit_token_fund_parsed
parsed_of get_price_info = get_price_info_parsed
parsed_of revoke_trading_delegate = revoke_trading_delegate_parsed
parsed_of set_trading_delegate = set_trading_delegate_parsed
parsed_of swap = swap_parsed
parsed_of update_oracle_pool = update_oracle_pool_parsed
parsed_of withdraw_money_management_fee = withdraw_money_management_fee_parsed
parsed_of withdraw_token_fund = withdraw_token_fund_parsed

pub names-parsed : (i : ClientInstruction) → (parsed_of i).names ≡ map (λ f. f.name) (accounts_of i)
unfolding accounts_of parsed_of
names-parsed admin_accept_ownership = refl
names-parsed admin_modify_fee = refl
names-parsed admin_transfer_ownership = refl
names-parsed admin_update_contribution_amount_min_usd = refl
names-parsed admin_update_dust_threshold_usd = refl
names-parsed admin_update_fundrising_period_max = refl
names-parsed admin_update_idle_period = refl
names-parsed admin_update_max_asset_count = refl
names-parsed admin_update_max_slippage_bps = refl
names-parsed admin_update_operator = refl
names-parsed admin_update_oracle_max_age = refl
names-parsed admin_update_raise_amount_min_usd = refl
names-parsed admin_update_withdraw_cooldown_max = refl
names-parsed approve_oracle_pool = refl
names-parsed close_oracle_pool = refl
names-parsed close_vault = refl
names-parsed create_admin_pool = refl
names-parsed create_investor_pool = refl
names-parsed create_money_manager_pool = refl
names-parsed create_oracle_pool = refl
names-parsed create_vault = refl
names-parsed deposit_token_fund = refl
names-parsed get_price_info = refl
names-parsed revoke_trading_delegate = refl
names-parsed set_trading_delegate = refl
names-parsed swap = refl
names-parsed update_oracle_pool = refl
names-parsed withdraw_money_management_fee = refl
names-parsed withdraw_token_fund = refl

pub expected-parsed : (i : ClientInstruction) → (parsed_of i).expected ≡ length (accounts_of i)
unfolding accounts_of parsed_of
expected-parsed admin_accept_ownership = refl
expected-parsed admin_modify_fee = refl
expected-parsed admin_transfer_ownership = refl
expected-parsed admin_update_contribution_amount_min_usd = refl
expected-parsed admin_update_dust_threshold_usd = refl
expected-parsed admin_update_fundrising_period_max = refl
expected-parsed admin_update_idle_period = refl
expected-parsed admin_update_max_asset_count = refl
expected-parsed admin_update_max_slippage_bps = refl
expected-parsed admin_update_operator = refl
expected-parsed admin_update_oracle_max_age = refl
expected-parsed admin_update_raise_amount_min_usd = refl
expected-parsed admin_update_withdraw_cooldown_max = refl
expected-parsed approve_oracle_pool = refl
expected-parsed close_oracle_pool = refl
expected-parsed close_vault = refl
expected-parsed create_admin_pool = refl
expected-parsed create_investor_pool = refl
expected-parsed create_money_manager_pool = refl
expected-parsed create_oracle_pool = refl
expected-parsed create_vault = refl
expected-parsed deposit_token_fund = refl
expected-parsed get_price_info = refl
expected-parsed revoke_trading_delegate = refl
expected-parsed set_trading_delegate = refl
expected-parsed swap = refl
expected-parsed update_oracle_pool = refl
expected-parsed withdraw_money_management_fee = refl
expected-parsed withdraw_token_fund = refl
