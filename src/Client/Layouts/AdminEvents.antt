-- ===== src/Client/Layouts/AdminEvents.antt =====
-- The layouts of app/src/generated/events, of the admin pool.
use fbyt.Base.{[], ◌∷◌}
use fbyt.Client.Codec.{Layout, address, u16, u64}

abbrev pub admin_pool_accept_ownership_event_encoder : Layout
admin_pool_accept_ownership_event_encoder = ("oldAdmin", address) ∷ ("newAdmin", address) ∷ []

abbrev pub admin_pool_accept_ownership_event_decoder : Layout
admin_pool_accept_ownership_event_decoder = ("oldAdmin", address) ∷ ("newAdmin", address) ∷ []

abbrev pub admin_pool_created_event_encoder : Layout
admin_pool_created_event_encoder =
    ("admin", address)
    ∷ ("operator", address)
    ∷ ("vaultPoolCount", u64)
    ∷ ("creationFee", u64)
    ∷ ("protocolPerformanceFee", u16)
    ∷ ("protocolMoneyManagementFee", u16)
    ∷ ("tradingFee", u64)
    ∷ ("moneyManagementYearlyFeeMax", u16)
    ∷ ("performanceFeeMax", u16)
    ∷ ("withdrawCooldownMax", u64)
    ∷ ("fundrisingPeriodMax", u64)
    ∷ ("raiseAmountMinUsd", u64)
    ∷ ("contributionAmountMinUsd", u64)
    ∷ ("oracleMaxAge", u64)
    ∷ ("idlePeriod", u64)
    ∷ ("dustThresholdUsd", u64)
    ∷ ("maxAssetCount", u16)
    ∷ ("maxSlippageBps", u16)
    ∷ []

abbrev pub admin_pool_created_event_decoder : Layout
admin_pool_created_event_decoder =
    ("admin", address)
    ∷ ("operator", address)
    ∷ ("vaultPoolCount", u64)
    ∷ ("creationFee", u64)
    ∷ ("protocolPerformanceFee", u16)
    ∷ ("protocolMoneyManagementFee", u16)
    ∷ ("tradingFee", u64)
    ∷ ("moneyManagementYearlyFeeMax", u16)
    ∷ ("performanceFeeMax", u16)
    ∷ ("withdrawCooldownMax", u64)
    ∷ ("fundrisingPeriodMax", u64)
    ∷ ("raiseAmountMinUsd", u64)
    ∷ ("contributionAmountMinUsd", u64)
    ∷ ("oracleMaxAge", u64)
    ∷ ("idlePeriod", u64)
    ∷ ("dustThresholdUsd", u64)
    ∷ ("maxAssetCount", u16)
    ∷ ("maxSlippageBps", u16)
    ∷ []

abbrev pub admin_pool_modify_fee_event_encoder : Layout
admin_pool_modify_fee_event_encoder =
    ("admin", address)
    ∷ ("creationFee", u64)
    ∷ ("protocolPerformanceFee", u16)
    ∷ ("protocolMoneyManagementFee", u16)
    ∷ ("tradingFee", u64)
    ∷ ("moneyManagementYearlyFeeMax", u16)
    ∷ ("performanceFeeMax", u16)
    ∷ []

abbrev pub admin_pool_modify_fee_event_decoder : Layout
admin_pool_modify_fee_event_decoder =
    ("admin", address)
    ∷ ("creationFee", u64)
    ∷ ("protocolPerformanceFee", u16)
    ∷ ("protocolMoneyManagementFee", u16)
    ∷ ("tradingFee", u64)
    ∷ ("moneyManagementYearlyFeeMax", u16)
    ∷ ("performanceFeeMax", u16)
    ∷ []

abbrev pub admin_pool_transfer_ownership_event_encoder : Layout
admin_pool_transfer_ownership_event_encoder = ("admin", address) ∷ ("pendingAdmin", address) ∷ []

abbrev pub admin_pool_transfer_ownership_event_decoder : Layout
admin_pool_transfer_ownership_event_decoder = ("admin", address) ∷ ("pendingAdmin", address) ∷ []

abbrev pub admin_pool_update_contribution_amount_min_usd_event_encoder : Layout
admin_pool_update_contribution_amount_min_usd_event_encoder =
    ("admin", address) ∷ ("newContributionAmountMinUsd", u64) ∷ []

abbrev pub admin_pool_update_contribution_amount_min_usd_event_decoder : Layout
admin_pool_update_contribution_amount_min_usd_event_decoder =
    ("admin", address) ∷ ("newContributionAmountMinUsd", u64) ∷ []

abbrev pub admin_pool_update_dust_threshold_usd_event_encoder : Layout
admin_pool_update_dust_threshold_usd_event_encoder =
    ("admin", address) ∷ ("newDustThresholdUsd", u64) ∷ []

abbrev pub admin_pool_update_dust_threshold_usd_event_decoder : Layout
admin_pool_update_dust_threshold_usd_event_decoder =
    ("admin", address) ∷ ("newDustThresholdUsd", u64) ∷ []

abbrev pub admin_pool_update_fundrising_period_max_event_encoder : Layout
admin_pool_update_fundrising_period_max_event_encoder =
    ("admin", address) ∷ ("newFundrisingPeriodMax", u64) ∷ []

abbrev pub admin_pool_update_fundrising_period_max_event_decoder : Layout
admin_pool_update_fundrising_period_max_event_decoder =
    ("admin", address) ∷ ("newFundrisingPeriodMax", u64) ∷ []

abbrev pub admin_pool_update_idle_period_event_encoder : Layout
admin_pool_update_idle_period_event_encoder = ("admin", address) ∷ ("newIdlePeriod", u64) ∷ []

abbrev pub admin_pool_update_idle_period_event_decoder : Layout
admin_pool_update_idle_period_event_decoder = ("admin", address) ∷ ("newIdlePeriod", u64) ∷ []

abbrev pub admin_pool_update_max_asset_count_event_encoder : Layout
admin_pool_update_max_asset_count_event_encoder =
    ("admin", address) ∷ ("newMaxAssetCount", u16) ∷ []

abbrev pub admin_pool_update_max_asset_count_event_decoder : Layout
admin_pool_update_max_asset_count_event_decoder =
    ("admin", address) ∷ ("newMaxAssetCount", u16) ∷ []

abbrev pub admin_pool_update_max_slippage_bps_event_encoder : Layout
admin_pool_update_max_slippage_bps_event_encoder =
    ("admin", address) ∷ ("newMaxSlippageBps", u16) ∷ []

abbrev pub admin_pool_update_max_slippage_bps_event_decoder : Layout
admin_pool_update_max_slippage_bps_event_decoder =
    ("admin", address) ∷ ("newMaxSlippageBps", u16) ∷ []

abbrev pub admin_pool_update_operator_event_encoder : Layout
admin_pool_update_operator_event_encoder = ("admin", address) ∷ ("newOperator", address) ∷ []

abbrev pub admin_pool_update_operator_event_decoder : Layout
admin_pool_update_operator_event_decoder = ("admin", address) ∷ ("newOperator", address) ∷ []

abbrev pub admin_pool_update_oracle_max_age_event_encoder : Layout
admin_pool_update_oracle_max_age_event_encoder = ("admin", address) ∷ ("newOracleMaxAge", u64) ∷ []

abbrev pub admin_pool_update_oracle_max_age_event_decoder : Layout
admin_pool_update_oracle_max_age_event_decoder = ("admin", address) ∷ ("newOracleMaxAge", u64) ∷ []

abbrev pub admin_pool_update_raise_amount_min_usd_event_encoder : Layout
admin_pool_update_raise_amount_min_usd_event_encoder =
    ("admin", address) ∷ ("newRaiseAmountMinUsd", u64) ∷ []

abbrev pub admin_pool_update_raise_amount_min_usd_event_decoder : Layout
admin_pool_update_raise_amount_min_usd_event_decoder =
    ("admin", address) ∷ ("newRaiseAmountMinUsd", u64) ∷ []

abbrev pub admin_pool_update_withdraw_cooldown_max_event_encoder : Layout
admin_pool_update_withdraw_cooldown_max_event_encoder =
    ("admin", address) ∷ ("newWithdrawCooldownMax", u64) ∷ []

abbrev pub admin_pool_update_withdraw_cooldown_max_event_decoder : Layout
admin_pool_update_withdraw_cooldown_max_event_decoder =
    ("admin", address) ∷ ("newWithdrawCooldownMax", u64) ∷ []
