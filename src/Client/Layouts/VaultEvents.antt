-- ===== src/Client/Layouts/VaultEvents.antt =====
-- The layouts of app/src/generated/events, of vaults and trades.
use fbyt.Base.{[], ◌∷◌}
use fbyt.Client.Codec.{Layout, address, boolean, i32, i64, u16, u64, u8}

abbrev pub investor_pool_created_event_encoder : Layout
investor_pool_created_event_encoder =
    ("investor", address)
    ∷ ("adminPool", address)
    ∷ ("vaultPool", address)
    ∷ ("tokenMint", address)
    ∷ ("createdAt", u64)
    ∷ []

abbrev pub investor_pool_created_event_decoder : Layout
investor_pool_created_event_decoder =
    ("investor", address)
    ∷ ("adminPool", address)
    ∷ ("vaultPool", address)
    ∷ ("tokenMint", address)
    ∷ ("createdAt", u64)
    ∷ []

abbrev pub money_manager_pool_created_event_encoder : Layout
money_manager_pool_created_event_encoder = ("moneyManager", address) ∷ ("adminPool", address) ∷ []

abbrev pub money_manager_pool_created_event_decoder : Layout
money_manager_pool_created_event_decoder = ("moneyManager", address) ∷ ("adminPool", address) ∷ []

abbrev pub trading_delegate_revoked_event_encoder : Layout
trading_delegate_revoked_event_encoder =
    ("vaultPool", address)
    ∷ ("moneyManager", address)
    ∷ ("previousDelegate", address)
    ∷ ("timestamp", u64)
    ∷ []

abbrev pub trading_delegate_revoked_event_decoder : Layout
trading_delegate_revoked_event_decoder =
    ("vaultPool", address)
    ∷ ("moneyManager", address)
    ∷ ("previousDelegate", address)
    ∷ ("timestamp", u64)
    ∷ []

abbrev pub trading_delegate_set_event_encoder : Layout
trading_delegate_set_event_encoder =
    ("vaultPool", address)
    ∷ ("moneyManager", address)
    ∷ ("tradingDelegate", address)
    ∷ ("previousDelegate", address)
    ∷ ("timestamp", u64)
    ∷ []

abbrev pub trading_delegate_set_event_decoder : Layout
trading_delegate_set_event_decoder =
    ("vaultPool", address)
    ∷ ("moneyManager", address)
    ∷ ("tradingDelegate", address)
    ∷ ("previousDelegate", address)
    ∷ ("timestamp", u64)
    ∷ []

abbrev pub trading_event_encoder : Layout
trading_event_encoder =
    ("adminPool", address)
    ∷ ("moneyManager", address)
    ∷ ("vaultPool", address)
    ∷ ("inputMint", address)
    ∷ ("inputMintDecimals", u8)
    ∷ ("outputMint", address)
    ∷ ("outputMintDecimals", u8)
    ∷ ("inputAmount", u64)
    ∷ ("outputAmount", u64)
    ∷ ("trader", address)
    ∷ []

abbrev pub trading_event_decoder : Layout
trading_event_decoder =
    ("adminPool", address)
    ∷ ("moneyManager", address)
    ∷ ("vaultPool", address)
    ∷ ("inputMint", address)
    ∷ ("inputMintDecimals", u8)
    ∷ ("outputMint", address)
    ∷ ("outputMintDecimals", u8)
    ∷ ("inputAmount", u64)
    ∷ ("outputAmount", u64)
    ∷ ("trader", address)
    ∷ []

abbrev pub vault_created_event_encoder : Layout
vault_created_event_encoder =
    ("index", u64)
    ∷ ("adminPool", address)
    ∷ ("moneyManager", address)
    ∷ ("tokenMint", address)
    ∷ ("minContributeAmountUsd", u64)
    ∷ ("raisePeriod", u64)
    ∷ ("minRaiseAmountUsd", u64)
    ∷ ("mmWithdrawPeriod", u64)
    ∷ ("withdrawCooldown", u64)
    ∷ ("createdAt", u64)
    ∷ ("moneyManagementYearlyFee", u16)
    ∷ ("performanceFee", u16)
    ∷ ("price", i64)
    ∷ ("priceExponent", i32)
    ∷ ("isOpenEnded", boolean)
    ∷ []

abbrev pub vault_created_event_decoder : Layout
vault_created_event_decoder =
    ("index", u64)
    ∷ ("adminPool", address)
    ∷ ("moneyManager", address)
    ∷ ("tokenMint", address)
    ∷ ("minContributeAmountUsd", u64)
    ∷ ("raisePeriod", u64)
    ∷ ("minRaiseAmountUsd", u64)
    ∷ ("mmWithdrawPeriod", u64)
    ∷ ("withdrawCooldown", u64)
    ∷ ("createdAt", u64)
    ∷ ("moneyManagementYearlyFee", u16)
    ∷ ("performanceFee", u16)
    ∷ ("price", i64)
    ∷ ("priceExponent", i32)
    ∷ ("isOpenEnded", boolean)
    ∷ []

abbrev pub withdraw_money_management_fee_event_encoder : Layout
withdraw_money_management_fee_event_encoder =
    ("vaultPool", address)
    ∷ ("moneyManager", address)
    ∷ ("tokenMint", address)
    ∷ ("feeAmount", u64)
    ∷ ("adminFee", u64)
    ∷ []

abbrev pub withdraw_money_management_fee_event_decoder : Layout
withdraw_money_management_fee_event_decoder =
    ("vaultPool", address)
    ∷ ("moneyManager", address)
    ∷ ("tokenMint", address)
    ∷ ("feeAmount", u64)
    ∷ ("adminFee", u64)
    ∷ []

abbrev pub withdraw_token_fund_event_encoder : Layout
withdraw_token_fund_event_encoder =
    ("investor", address)
    ∷ ("investorPool", address)
    ∷ ("vaultPool", address)
    ∷ ("tokenMint", address)
    ∷ ("tokenPrice", i64)
    ∷ ("tokenExponent", i32)
    ∷ ("amount", u64)
    ∷ ("moneyManagerFee", u64)
    ∷ ("performanceFee", u64)
    ∷ ("adminFee", u64)
    ∷ []

abbrev pub withdraw_token_fund_event_decoder : Layout
withdraw_token_fund_event_decoder =
    ("investor", address)
    ∷ ("investorPool", address)
    ∷ ("vaultPool", address)
    ∷ ("tokenMint", address)
    ∷ ("tokenPrice", i64)
    ∷ ("tokenExponent", i32)
    ∷ ("amount", u64)
    ∷ ("moneyManagerFee", u64)
    ∷ ("performanceFee", u64)
    ∷ ("adminFee", u64)
    ∷ []

abbrev pub withdraw_token_fund_result_event_encoder : Layout
withdraw_token_fund_result_event_encoder =
    ("investor", address)
    ∷ ("moneyManager", address)
    ∷ ("adminPool", address)
    ∷ ("vaultPool", address)
    ∷ ("investorPool", address)
    ∷ ("vaultPrevValue", u64)
    ∷ ("vaultUpdatedValue", u64)
    ∷ ("investorPrevValue", u64)
    ∷ ("investorUpdatedValue", u64)
    ∷ []

abbrev pub withdraw_token_fund_result_event_decoder : Layout
withdraw_token_fund_result_event_decoder =
    ("investor", address)
    ∷ ("moneyManager", address)
    ∷ ("adminPool", address)
    ∷ ("vaultPool", address)
    ∷ ("investorPool", address)
    ∷ ("vaultPrevValue", u64)
    ∷ ("vaultUpdatedValue", u64)
    ∷ ("investorPrevValue", u64)
    ∷ ("investorUpdatedValue", u64)
    ∷ []
