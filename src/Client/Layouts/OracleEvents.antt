-- ===== src/Client/Layouts/OracleEvents.antt =====
-- The layouts of app/src/generated/events, of oracle pools, assets and investments.
use fbyt.Base.{[], ◌∷◌}
use fbyt.Client.Codec.{Layout, address, u64, u8, utf8}

abbrev pub approve_oracle_pool_event_encoder : Layout
approve_oracle_pool_event_encoder = ("adminPool", address) ∷ ("tokenMint", address) ∷ []

abbrev pub approve_oracle_pool_event_decoder : Layout
approve_oracle_pool_event_decoder = ("adminPool", address) ∷ ("tokenMint", address) ∷ []

abbrev pub asset_added_event_encoder : Layout
asset_added_event_encoder =
    ("vaultPool", address)
    ∷ ("assetRegistry", address)
    ∷ ("mint", address)
    ∷ ("totalAssets", u64)
    ∷ []

abbrev pub asset_added_event_decoder : Layout
asset_added_event_decoder =
    ("vaultPool", address)
    ∷ ("assetRegistry", address)
    ∷ ("mint", address)
    ∷ ("totalAssets", u64)
    ∷ []

abbrev pub asset_removed_event_encoder : Layout
asset_removed_event_encoder =
    ("vaultPool", address)
    ∷ ("assetRegistry", address)
    ∷ ("mint", address)
    ∷ ("totalAssets", u64)
    ∷ []

abbrev pub asset_removed_event_decoder : Layout
asset_removed_event_decoder =
    ("vaultPool", address)
    ∷ ("assetRegistry", address)
    ∷ ("mint", address)
    ∷ ("totalAssets", u64)
    ∷ []

abbrev pub close_oracle_pool_event_encoder : Layout
close_oracle_pool_event_encoder =
    ("adminPool", address) ∷ ("tokenMint", address) ∷ ("oraclePool", address) ∷ []

abbrev pub close_oracle_pool_event_decoder : Layout
close_oracle_pool_event_decoder =
    ("adminPool", address) ∷ ("tokenMint", address) ∷ ("oraclePool", address) ∷ []

abbrev pub close_vault_event_encoder : Layout
close_vault_event_encoder =
    ("adminPool", address)
    ∷ ("moneyManager", address)
    ∷ ("vaultPool", address)
    ∷ ("tokenMint", address)
    ∷ ("status", u8)
    ∷ []

abbrev pub close_vault_event_decoder : Layout
close_vault_event_decoder =
    ("adminPool", address)
    ∷ ("moneyManager", address)
    ∷ ("vaultPool", address)
    ∷ ("tokenMint", address)
    ∷ ("status", u8)
    ∷ []

abbrev pub create_oracle_pool_event_encoder : Layout
create_oracle_pool_event_encoder =
    ("adminPool", address) ∷ ("tokenMint", address) ∷ ("feedId", utf8) ∷ []

abbrev pub create_oracle_pool_event_decoder : Layout
create_oracle_pool_event_decoder =
    ("adminPool", address) ∷ ("tokenMint", address) ∷ ("feedId", utf8) ∷ []

abbrev pub deposit_token_fund_event_encoder : Layout
deposit_token_fund_event_encoder =
    ("investor", address)
    ∷ ("adminPool", address)
    ∷ ("vaultPool", address)
    ∷ ("investorPool", address)
    ∷ ("tokenMint", address)
    ∷ ("amount", u64)
    ∷ ("amountUsd", u64)
    ∷ ("shares", u64)
    ∷ []

abbrev pub deposit_token_fund_event_decoder : Layout
deposit_token_fund_event_decoder =
    ("investor", address)
    ∷ ("adminPool", address)
    ∷ ("vaultPool", address)
    ∷ ("investorPool", address)
    ∷ ("tokenMint", address)
    ∷ ("amount", u64)
    ∷ ("amountUsd", u64)
    ∷ ("shares", u64)
    ∷ []

abbrev pub update_oracle_pool_event_encoder : Layout
update_oracle_pool_event_encoder =
    ("adminPool", address) ∷ ("tokenMint", address) ∷ ("feedId", utf8) ∷ []

abbrev pub update_oracle_pool_event_decoder : Layout
update_oracle_pool_event_decoder =
    ("adminPool", address) ∷ ("tokenMint", address) ∷ ("feedId", utf8) ∷ []
