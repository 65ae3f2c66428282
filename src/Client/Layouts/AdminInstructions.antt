-- ===== src/Client/Layouts/AdminInstructions.antt =====
-- The layouts of the data of app/src/generated/instructions, of the admin pool.
use fbyt.Base.{[], ◌∷◌}
use fbyt.Client.Codec.{Layout, fixed_bytes, u16, u64}

abbrev pub admin_accept_ownership_encoder : Layout
admin_accept_ownership_encoder = ("discriminator", fixed_bytes 8) ∷ []

abbrev pub admin_accept_ownership_decoder : Layout
admin_accept_ownership_decoder = ("discriminator", fixed_bytes 8) ∷ []

abbrev pub admin_modify_fee_encoder : Layout
admin_modify_fee_encoder =
    ("discriminator", fixed_bytes 8)
    ∷ ("creationFee", u64)
    ∷ ("protocolPerformanceFee", u16)
    ∷ ("protocolMoneyManagementFee", u16)
    ∷ ("tradingFee", u64)
    ∷ ("moneyManagementYearlyFeeMax", u16)
    ∷ ("performanceFeeMax", u16)
    ∷ []

abbrev pub admin_modify_fee_decoder : Layout
admin_modify_fee_decoder =
    ("discriminator", fixed_bytes 8)
    ∷ ("creationFee", u64)
    ∷ ("protocolPerformanceFee", u16)
    ∷ ("protocolMoneyManagementFee", u16)
    ∷ ("tradingFee", u64)
    ∷ ("moneyManagementYearlyFeeMax", u16)
    ∷ ("performanceFeeMax", u16)
    ∷ []

abbrev pub admin_transfer_ownership_encoder : Layout
admin_transfer_ownership_encoder = ("discriminator", fixed_bytes 8) ∷ []

abbrev pub admin_transfer_ownership_decoder : Layout
admin_transfer_ownership_decoder = ("discriminator", fixed_bytes 8) ∷ []

abbrev pub admin_update_contribution_amount_min_usd_encoder : Layout
admin_update_contribution_amount_min_usd_encoder =
    ("discriminator", fixed_bytes 8) ∷ ("newContributionAmountMinUsd", u64) ∷ []

abbrev pub admin_update_contribution_amount_min_usd_decoder : Layout
admin_update_contribution_amount_min_usd_decoder =
    ("discriminator", fixed_bytes 8) ∷ ("newContributionAmountMinUsd", u64) ∷ []

abbrev pub admin_update_dust_threshold_usd_encoder : Layout
admin_update_dust_threshold_usd_encoder =
    ("discriminator", fixed_bytes 8) ∷ ("newDustThresholdUsd", u64) ∷ []

abbrev pub admin_update_dust_threshold_usd_decoder : Layout
admin_update_dust_threshold_usd_decoder =
    ("discriminator", fixed_bytes 8) ∷ ("newDustThresholdUsd", u64) ∷ []

abbrev pub admin_update_fundrising_period_max_encoder : Layout
admin_update_fundrising_period_max_encoder =
    ("discriminator", fixed_bytes 8) ∷ ("newFundrisingPeriodMax", u64) ∷ []

abbrev pub admin_update_fundrising_period_max_decoder : Layout
admin_update_fundrising_period_max_decoder =
    ("discriminator", fixed_bytes 8) ∷ ("newFundrisingPeriodMax", u64) ∷ []

abbrev pub admin_update_idle_period_encoder : Layout
admin_update_idle_period_encoder = ("discriminator", fixed_bytes 8) ∷ ("newIdlePeriod", u64) ∷ []

abbrev pub admin_update_idle_period_decoder : Layout
admin_update_idle_period_decoder = ("discriminator", fixed_bytes 8) ∷ ("newIdlePeriod", u64) ∷ []

abbrev pub admin_update_max_asset_count_encoder : Layout
admin_update_max_asset_count_encoder =
    ("discriminator", fixed_bytes 8) ∷ ("newMaxAssetCount", u16) ∷ []

abbrev pub admin_update_max_asset_count_decoder : Layout
admin_update_max_asset_count_decoder =
    ("discriminator", fixed_bytes 8) ∷ ("newMaxAssetCount", u16) ∷ []

abbrev pub admin_update_max_slippage_bps_encoder : Layout
admin_update_max_slippage_bps_encoder =
    ("discriminator", fixed_bytes 8) ∷ ("newMaxSlippageBps", u16) ∷ []

abbrev pub admin_update_max_slippage_bps_decoder : Layout
admin_update_max_slippage_bps_decoder =
    ("discriminator", fixed_bytes 8) ∷ ("newMaxSlippageBps", u16) ∷ []

abbrev pub admin_update_operator_encoder : Layout
admin_update_operator_encoder = ("discriminator", fixed_bytes 8) ∷ []

abbrev pub admin_update_operator_decoder : Layout
admin_update_operator_decoder = ("discriminator", fixed_bytes 8) ∷ []

abbrev pub admin_update_oracle_max_age_encoder : Layout
admin_update_oracle_max_age_encoder =
    ("discriminator", fixed_bytes 8) ∷ ("newOracleMaxAge", u64) ∷ []

abbrev pub admin_update_oracle_max_age_decoder : Layout
admin_update_oracle_max_age_decoder =
    ("discriminator", fixed_bytes 8) ∷ ("newOracleMaxAge", u64) ∷ []

abbrev pub admin_update_raise_amount_min_usd_encoder : Layout
admin_update_raise_amount_min_usd_encoder =
    ("discriminator", fixed_bytes 8) ∷ ("newRaiseAmountMinUsd", u64) ∷ []

abbrev pub admin_update_raise_amount_min_usd_decoder : Layout
admin_update_raise_amount_min_usd_decoder =
    ("discriminator", fixed_bytes 8) ∷ ("newRaiseAmountMinUsd", u64) ∷ []

abbrev pub admin_update_withdraw_cooldown_max_encoder : Layout
admin_update_withdraw_cooldown_max_encoder =
    ("discriminator", fixed_bytes 8) ∷ ("newWithdrawCooldownMax", u64) ∷ []

abbrev pub admin_update_withdraw_cooldown_max_decoder : Layout
admin_update_withdraw_cooldown_max_decoder =
    ("discriminator", fixed_bytes 8) ∷ ("newWithdrawCooldownMax", u64) ∷ []
