-- ===== src/Client/Tables/AdminAccounts.antt =====
-- The accounts of app/src/generated/instructions, of the admin pool.
use fbyt.Base.{List, [], ◌∷◌}
use fbyt.Client.Account.{AccountField, ParseTable, writes}

abbrev pub admin_accept_ownership_accounts : List AccountField
admin_accept_ownership_accounts = writes "pendingAdmin" ∷ writes "adminPool" ∷ []

abbrev pub admin_accept_ownership_parsed : ParseTable
admin_accept_ownership_parsed = record { expected = 2; names = "pendingAdmin" ∷ "adminPool" ∷ [] }

abbrev pub admin_modify_fee_accounts : List AccountField
admin_modify_fee_accounts = writes "admin" ∷ writes "adminPool" ∷ []

abbrev pub admin_modify_fee_parsed : ParseTable
admin_modify_fee_parsed = record { expected = 2; names = "admin" ∷ "adminPool" ∷ [] }

abbrev pub admin_transfer_ownership_accounts : List AccountField
admin_transfer_ownership_accounts = writes "admin" ∷ writes "pendingAdmin" ∷ writes "adminPool" ∷ []

abbrev pub admin_transfer_ownership_parsed : ParseTable
admin_transfer_ownership_parsed = record {
  expected = 3;
  names = "admin" ∷ "pendingAdmin" ∷ "adminPool" ∷ [];
}

abbrev pub admin_update_contribution_amount_min_usd_accounts : List AccountField
admin_update_contribution_amount_min_usd_accounts = writes "admin" ∷ writes "adminPool" ∷ []

abbrev pub admin_update_contribution_amount_min_usd_parsed : ParseTable
admin_update_contribution_amount_min_usd_parsed = record {
  expected = 2;
  names = "admin" ∷ "adminPool" ∷ [];
}

abbrev pub admin_update_dust_threshold_usd_accounts : List AccountField
admin_update_dust_threshold_usd_accounts = writes "admin" ∷ writes "adminPool" ∷ []

abbrev pub admin_update_dust_threshold_usd_parsed : ParseTable
admin_update_dust_threshold_usd_parsed = record { expected = 2; names = "admin" ∷ "adminPool" ∷ [] }

abbrev pub admin_update_fundrising_period_max_accounts : List AccountField
admin_update_fundrising_period_max_accounts = writes "admin" ∷ writes "adminPool" ∷ []

abbrev pub admin_update_fundrising_period_max_parsed : ParseTable
admin_update_fundrising_period_max_parsed = record {
  expected = 2;
  names = "admin" ∷ "adminPool" ∷ [];
}

abbrev pub admin_update_idle_period_accounts : List AccountField
admin_update_idle_period_accounts = writes "admin" ∷ writes "adminPool" ∷ []

abbrev pub admin_update_idle_period_parsed : ParseTable
admin_update_idle_period_parsed = record { expected = 2; names = "admin" ∷ "adminPool" ∷ [] }

abbrev pub admin_update_max_asset_count_accounts : List AccountField
admin_update_max_asset_count_accounts = writes "admin" ∷ writes "adminPool" ∷ []

abbrev pub admin_update_max_asset_count_parsed : ParseTable
admin_update_max_asset_count_parsed = record { expected = 2; names = "admin" ∷ "adminPool" ∷ [] }

abbrev pub admin_update_max_slippage_bps_accounts : List AccountField
admin_update_max_slippage_bps_accounts = writes "admin" ∷ writes "adminPool" ∷ []

abbrev pub admin_update_max_slippage_bps_parsed : ParseTable
admin_update_max_slippage_bps_parsed = record { expected = 2; names = "admin" ∷ "adminPool" ∷ [] }

abbrev pub admin_update_operator_accounts : List AccountField
admin_update_operator_accounts = writes "admin" ∷ writes "operator" ∷ writes "adminPool" ∷ []

abbrev pub admin_update_operator_parsed : ParseTable
admin_update_operator_parsed = record {
  expected = 3;
  names = "admin" ∷ "operator" ∷ "adminPool" ∷ [];
}

abbrev pub admin_update_oracle_max_age_accounts : List AccountField
admin_update_oracle_max_age_accounts = writes "admin" ∷ writes "adminPool" ∷ []

abbrev pub admin_update_oracle_max_age_parsed : ParseTable
admin_update_oracle_max_age_parsed = record { expected = 2; names = "admin" ∷ "adminPool" ∷ [] }

abbrev pub admin_update_raise_amount_min_usd_accounts : List AccountField
admin_update_raise_amount_min_usd_accounts = writes "admin" ∷ writes "adminPool" ∷ []

abbrev pub admin_update_raise_amount_min_usd_parsed : ParseTable
admin_update_raise_amount_min_usd_parsed = record {
  expected = 2;
  names = "admin" ∷ "adminPool" ∷ [];
}

abbrev pub admin_update_withdraw_cooldown_max_accounts : List AccountField
admin_update_withdraw_cooldown_max_accounts = writes "admin" ∷ writes "adminPool" ∷ []

abbrev pub admin_update_withdraw_cooldown_max_parsed : ParseTable
admin_update_withdraw_cooldown_max_parsed = record {
  expected = 2;
  names = "admin" ∷ "adminPool" ∷ [];
}
