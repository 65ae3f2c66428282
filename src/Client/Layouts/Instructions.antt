-- ===== src/Client/Layouts/Instructions.antt =====
-- The layouts of the data of app/src/generated/instructions, but for those of the admin pool.
use fbyt.Base.{[], ◌∷◌}
use fbyt.Client.Codec.{Layout, address, boolean, fixed_bytes, prefixed_bytes, u16, u64, utf8}

abbrev pub approve_oracle_pool_encoder : Layout
approve_oracle_pool_encoder = ("discriminator", fixed_bytes 8) ∷ []

abbrev pub approve_oracle_pool_decoder : Layout
approve_oracle_pool_decoder = ("discriminator", fixed_bytes 8) ∷ []

abbrev pub close_oracle_pool_encoder : Layout
close_oracle_pool_encoder = ("discriminator", fixed_bytes 8) ∷ []

abbrev pub close_oracle_pool_decoder : Layout
close_oracle_pool_decoder = ("discriminator", fixed_bytes 8) ∷ []

abbrev pub close_vault_encoder : Layout
close_vault_encoder = ("discriminator", fixed_bytes 8) ∷ []

abbrev pub close_vault_decoder : Layout
close_vault_decoder = ("discriminator", fixed_bytes 8) ∷ []

abbrev pub create_admin_pool_encoder : Layout
create_admin_pool_encoder =
    ("discriminator", fixed_bytes 8)
    ∷ ("creationFee", u64)
    ∷ ("protocolPerformanceFee", u16)
    ∷ ("protocolMoneyManagementFee", u16)
    ∷ ("tradingFee", u64)
    ∷ ("moneyManagementYearlyFeeMax", u16)
    ∷ ("performanceFeeMax", u16)
    ∷ ("withdrawCooldownMax", u64)
    ∷ ("fundrisingPeriodMax", u64)
    ∷ ("raiseAmountMinUsd", u64)
    ∷ ("contributionAmountMinUsd", u64)
    ∷ ("oracleMaxAge", u64)
    ∷ ("idlePeriod", u64)
    ∷ ("dustThresholdUsd", u64)
    ∷ ("maxAssetCount", u16)
    ∷ ("maxSlippageBps", u16)
    ∷ []

abbrev pub create_admin_pool_decoder : Layout
create_admin_pool_decoder =
    ("discriminator", fixed_bytes 8)
    ∷ ("creationFee", u64)
    ∷ ("protocolPerformanceFee", u16)
    ∷ ("protocolMoneyManagementFee", u16)
    ∷ ("tradingFee", u64)
    ∷ ("moneyManagementYearlyFeeMax", u16)
    ∷ ("performanceFeeMax", u16)
    ∷ ("withdrawCooldownMax", u64)
    ∷ ("fundrisingPeriodMax", u64)
    ∷ ("raiseAmountMinUsd", u64)
    ∷ ("contributionAmountMinUsd", u64)
    ∷ ("oracleMaxAge", u64)
    ∷ ("idlePeriod", u64)
    ∷ ("dustThresholdUsd", u64)
    ∷ ("maxAssetCount", u16)
    ∷ ("maxSlippageBps", u16)
    ∷ []

abbrev pub create_investor_pool_encoder : Layout
create_investor_pool_encoder = ("discriminator", fixed_bytes 8) ∷ []

abbrev pub create_investor_pool_decoder : Layout
create_investor_pool_decoder = ("discriminator", fixed_bytes 8) ∷ []

abbrev pub create_money_manager_pool_encoder : Layout
create_money_manager_pool_encoder = ("discriminator", fixed_bytes 8) ∷ []

abbrev pub create_money_manager_pool_decoder : Layout
create_money_manager_pool_decoder = ("discriminator", fixed_bytes 8) ∷ []

abbrev pub create_oracle_pool_encoder : Layout
create_oracle_pool_encoder = ("discriminator", fixed_bytes 8) ∷ ("feedId", utf8) ∷ []

abbrev pub create_oracle_pool_decoder : Layout
create_oracle_pool_decoder = ("discriminator", fixed_bytes 8) ∷ ("feedId", utf8) ∷ []

abbrev pub create_vault_encoder : Layout
create_vault_encoder =
    ("discriminator", fixed_bytes 8)
    ∷ ("minContributeAmount", u64)
    ∷ ("raisePeriod", u64)
    ∷ ("minRaiseAmount", u64)
    ∷ ("mmWithdrawPeriod", u64)
    ∷ ("withdrawCooldown", u64)
    ∷ ("moneyManagementFee", u16)
    ∷ ("performanceFee", u16)
    ∷ ("isOpenEnded", boolean)
    ∷ []

abbrev pub create_vault_decoder : Layout
create_vault_decoder =
    ("discriminator", fixed_bytes 8)
    ∷ ("minContributeAmount", u64)
    ∷ ("raisePeriod", u64)
    ∷ ("minRaiseAmount", u64)
    ∷ ("mmWithdrawPeriod", u64)
    ∷ ("withdrawCooldown", u64)
    ∷ ("moneyManagementFee", u16)
    ∷ ("performanceFee", u16)
    ∷ ("isOpenEnded", boolean)
    ∷ []

abbrev pub deposit_token_fund_encoder : Layout
deposit_token_fund_encoder = ("discriminator", fixed_bytes 8) ∷ ("amount", u64) ∷ []

abbrev pub deposit_token_fund_decoder : Layout
deposit_token_fund_decoder = ("discriminator", fixed_bytes 8) ∷ ("amount", u64) ∷ []

abbrev pub get_price_info_encoder : Layout
get_price_info_encoder = ("discriminator", fixed_bytes 8) ∷ ("feedId", utf8) ∷ []

abbrev pub get_price_info_decoder : Layout
get_price_info_decoder = ("discriminator", fixed_bytes 8) ∷ ("feedId", utf8) ∷ []

abbrev pub revoke_trading_delegate_encoder : Layout
revoke_trading_delegate_encoder = ("discriminator", fixed_bytes 8) ∷ []

abbrev pub revoke_trading_delegate_decoder : Layout
revoke_trading_delegate_decoder = ("discriminator", fixed_bytes 8) ∷ []

abbrev pub set_trading_delegate_encoder : Layout
set_trading_delegate_encoder = ("discriminator", fixed_bytes 8) ∷ ("tradingDelegate", address) ∷ []

abbrev pub set_trading_delegate_decoder : Layout
set_trading_delegate_decoder = ("discriminator", fixed_bytes 8) ∷ ("tradingDelegate", address) ∷ []

abbrev pub swap_encoder : Layout
swap_encoder = ("discriminator", fixed_bytes 8) ∷ ("data", prefixed_bytes) ∷ []

abbrev pub swap_decoder : Layout
swap_decoder = ("discriminator", fixed_bytes 8) ∷ ("data", prefixed_bytes) ∷ []

abbrev pub update_oracle_pool_encoder : Layout
update_oracle_pool_encoder = ("discriminator", fixed_bytes 8) ∷ ("feedId", utf8) ∷ []

abbrev pub update_oracle_pool_decoder : Layout
update_oracle_pool_decoder = ("discriminator", fixed_bytes 8) ∷ ("feedId", utf8) ∷ []

abbrev pub withdraw_money_management_fee_encoder : Layout
withdraw_money_management_fee_encoder = ("discriminator", fixed_bytes 8) ∷ []

abbrev pub withdraw_money_management_fee_decoder : Layout
withdraw_money_management_fee_decoder = ("discriminator", fixed_bytes 8) ∷ []

abbrev pub withdraw_token_fund_encoder : Layout
withdraw_token_fund_encoder = ("discriminator", fixed_bytes 8) ∷ ("shares", u64) ∷ []

abbrev pub withdraw_token_fund_decoder : Layout
withdraw_token_fund_decoder = ("discriminator", fixed_bytes 8) ∷ ("shares", u64) ∷ []
