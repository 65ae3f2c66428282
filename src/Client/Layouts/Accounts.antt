-- ===== src/Client/Layouts/Accounts.antt =====
-- The layouts of app/src/generated/accounts.
use fbyt.Base.{[], ◌∷◌}
use fbyt.Client.Codec.{Layout, address, addresses, boolean, fixed_bytes, u16, u64, u64_array, u8}

abbrev pub admin_pool_encoder : Layout
admin_pool_encoder =
    ("discriminator", fixed_bytes 8)
    ∷ ("bump", u8)
    ∷ ("admin", address)
    ∷ ("pendingAdmin", address)
    ∷ ("operator", address)
    ∷ ("vaultPoolCount", u64)
    ∷ ("creationFee", u64)
    ∷ ("protocolPerformanceFee", u16)
    ∷ ("protocolMoneyManagementFee", u16)
    ∷ ("moneyManagementYearlyFeeMax", u16)
    ∷ ("performanceFeeMax", u16)
    ∷ ("tradingFee", u64)
    ∷ ("withdrawCooldownMax", u64)
    ∷ ("fundrisingPeriodMax", u64)
    ∷ ("raiseAmountMinUsd", u64)
    ∷ ("contributionAmountMinUsd", u64)
    ∷ ("oracleMaxAge", u64)
    ∷ ("idlePeriod", u64)
    ∷ ("dustThresholdUsd", u64)
    ∷ ("maxAssetCount", u16)
    ∷ ("maxSlippageBps", u16)
    ∷ ("padding", fixed_bytes 62)
    ∷ []

abbrev pub admin_pool_decoder : Layout
admin_pool_decoder =
    ("discriminator", fixed_bytes 8)
    ∷ ("bump", u8)
    ∷ ("admin", address)
    ∷ ("pendingAdmin", address)
    ∷ ("operator", address)
    ∷ ("vaultPoolCount", u64)
    ∷ ("creationFee", u64)
    ∷ ("protocolPerformanceFee", u16)
    ∷ ("protocolMoneyManagementFee", u16)
    ∷ ("moneyManagementYearlyFeeMax", u16)
    ∷ ("performanceFeeMax", u16)
    ∷ ("tradingFee", u64)
    ∷ ("withdrawCooldownMax", u64)
    ∷ ("fundrisingPeriodMax", u64)
    ∷ ("raiseAmountMinUsd", u64)
    ∷ ("contributionAmountMinUsd", u64)
    ∷ ("oracleMaxAge", u64)
    ∷ ("idlePeriod", u64)
    ∷ ("dustThresholdUsd", u64)
    ∷ ("maxAssetCount", u16)
    ∷ ("maxSlippageBps", u16)
    ∷ ("padding", fixed_bytes 62)
    ∷ []

abbrev pub asset_registry_encoder : Layout
asset_registry_encoder =
    ("discriminator", fixed_bytes 8)
    ∷ ("bump", u8)
    ∷ ("vaultPool", address)
    ∷ ("assetMints", addresses)
    ∷ ("padding", u64_array 8)
    ∷ []

abbrev pub asset_registry_decoder : Layout
asset_registry_decoder =
    ("discriminator", fixed_bytes 8)
    ∷ ("bump", u8)
    ∷ ("vaultPool", address)
    ∷ ("assetMints", addresses)
    ∷ ("padding", u64_array 8)
    ∷ []

abbrev pub investor_pool_encoder : Layout
investor_pool_encoder =
    ("discriminator", fixed_bytes 8)
    ∷ ("bump", u8)
    ∷ ("investor", address)
    ∷ ("adminPool", address)
    ∷ ("vaultPool", address)
    ∷ ("tokenMint", address)
    ∷ ("shares", u64)
    ∷ ("hightWatermark", u64)
    ∷ ("createdAt", u64)
    ∷ ("updatedAt", u64)
    ∷ ("padding", u64_array 8)
    ∷ []

abbrev pub investor_pool_decoder : Layout
investor_pool_decoder =
    ("discriminator", fixed_bytes 8)
    ∷ ("bump", u8)
    ∷ ("investor", address)
    ∷ ("adminPool", address)
    ∷ ("vaultPool", address)
    ∷ ("tokenMint", address)
    ∷ ("shares", u64)
    ∷ ("hightWatermark", u64)
    ∷ ("createdAt", u64)
    ∷ ("updatedAt", u64)
    ∷ ("padding", u64_array 8)
    ∷ []

abbrev pub money_manager_pool_encoder : Layout
money_manager_pool_encoder =
    ("discriminator", fixed_bytes 8)
    ∷ ("bump", u8)
    ∷ ("moneyManager", address)
    ∷ ("adminPool", address)
    ∷ ("vaultsAmount", u64)
    ∷ ("padding", u64_array 8)
    ∷ []

abbrev pub money_manager_pool_decoder : Layout
money_manager_pool_decoder =
    ("discriminator", fixed_bytes 8)
    ∷ ("bump", u8)
    ∷ ("moneyManager", address)
    ∷ ("adminPool", address)
    ∷ ("vaultsAmount", u64)
    ∷ ("padding", u64_array 8)
    ∷ []

abbrev pub oracle_pool_encoder : Layout
oracle_pool_encoder =
    ("discriminator", fixed_bytes 8)
    ∷ ("bump", u8)
    ∷ ("adminPool", address)
    ∷ ("tokenMint", address)
    ∷ ("feedId", fixed_bytes 66)
    ∷ ("isApproved", boolean)
    ∷ ("padding", u64_array 8)
    ∷ ("reserved", fixed_bytes 4)
    ∷ []

abbrev pub oracle_pool_decoder : Layout
oracle_pool_decoder =
    ("discriminator", fixed_bytes 8)
    ∷ ("bump", u8)
    ∷ ("adminPool", address)
    ∷ ("tokenMint", address)
    ∷ ("feedId", fixed_bytes 66)
    ∷ ("isApproved", boolean)
    ∷ ("padding", u64_array 8)
    ∷ ("reserved", fixed_bytes 4)
    ∷ []

abbrev pub vault_pool_encoder : Layout
vault_pool_encoder =
    ("discriminator", fixed_bytes 8)
    ∷ ("bump", u8)
    ∷ ("index", u64)
    ∷ ("adminPool", address)
    ∷ ("moneyManager", address)
    ∷ ("tokenMint", address)
    ∷ ("assetRegistry", address)
    ∷ ("vaultPoolStatus", u8)
    ∷ ("investorCount", u64)
    ∷ ("raisedAmountUsd", u64)
    ∷ ("totalShares", u64)
    ∷ ("minContributeAmountUsd", u64)
    ∷ ("raisePeriod", u64)
    ∷ ("minRaiseAmountUsd", u64)
    ∷ ("mmWithdrawPeriod", u64)
    ∷ ("withdrawCooldown", u64)
    ∷ ("createdAt", u64)
    ∷ ("updatedAt", u64)
    ∷ ("lastTradeAt", u64)
    ∷ ("lastMmFeeWithdrawAt", u64)
    ∷ ("moneyManagementYearlyFee", u16)
    ∷ ("performanceFee", u16)
    ∷ ("isOpenEnded", boolean)
    ∷ ("padding1", fixed_bytes 7)
    ∷ ("tradingDelegate", address)
    ∷ ("padding", u64_array 11)
    ∷ []

abbrev pub vault_pool_decoder : Layout
vault_pool_decoder =
    ("discriminator", fixed_bytes 8)
    ∷ ("bump", u8)
    ∷ ("index", u64)
    ∷ ("adminPool", address)
    ∷ ("moneyManager", address)
    ∷ ("tokenMint", address)
    ∷ ("assetRegistry", address)
    ∷ ("vaultPoolStatus", u8)
    ∷ ("investorCount", u64)
    ∷ ("raisedAmountUsd", u64)
    ∷ ("totalShares", u64)
    ∷ ("minContributeAmountUsd", u64)
    ∷ ("raisePeriod", u64)
    ∷ ("minRaiseAmountUsd", u64)
    ∷ ("mmWithdrawPeriod", u64)
    ∷ ("withdrawCooldown", u64)
    ∷ ("createdAt", u64)
    ∷ ("updatedAt", u64)
    ∷ ("lastTradeAt", u64)
    ∷ ("lastMmFeeWithdrawAt", u64)
    ∷ ("moneyManagementYearlyFee", u16)
    ∷ ("performanceFee", u16)
    ∷ ("isOpenEnded", boolean)
    ∷ ("padding1", fixed_bytes 7)
    ∷ ("tradingDelegate", address)
    ∷ ("padding", u64_array 11)
    ∷ []
