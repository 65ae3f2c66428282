-- ===== src/Client/Events.antt =====
-- `identifyFbytVaultEvent` of app/src/generated/programs/fbytVault.ts, and the discriminators that the
-- modules under app/src/generated/events declare.
use fbyt.Base.{ℕ, List, [], ◌∷◌, Bool, Option, none, some, if◌then◌else◌}
use fbyt.Client.Kit.{Kit, starts}

pub data ClientEvent : Type 0 where
  admin_pool_accept_ownership_event admin_pool_created_event admin_pool_modify_fee_event
        admin_pool_transfer_ownership_event :
      ClientEvent
  admin_pool_update_contribution_amount_min_usd_event admin_pool_update_dust_threshold_usd_event
        admin_pool_update_fundrising_period_max_event admin_pool_update_idle_period_event :
      ClientEvent
  admin_pool_update_max_asset_count_event admin_pool_update_max_slippage_bps_event
        admin_pool_update_operator_event admin_pool_update_oracle_max_age_event :
      ClientEvent
  admin_pool_update_raise_amount_min_usd_event admin_pool_update_withdraw_cooldown_max_event
        approve_oracle_pool_event asset_added_event :
      ClientEvent
  asset_removed_event close_oracle_pool_event close_vault_event create_oracle_pool_event :
      ClientEvent
  deposit_token_fund_event investor_pool_created_event money_manager_pool_created_event
        trading_delegate_revoked_event :
      ClientEvent
  trading_delegate_set_event trading_event update_oracle_pool_event vault_created_event :
      ClientEvent
  withdraw_money_management_fee_event withdraw_token_fund_event withdraw_token_fund_result_event :
      ClientEvent

abbrev admin_pool_accept_ownership_event_discriminator : List ℕ
admin_pool_accept_ownership_event_discriminator = 73 ∷ 160 ∷ 77 ∷ 127 ∷ 42 ∷ 232 ∷ 175 ∷ 37 ∷ []

abbrev admin_pool_created_event_discriminator : List ℕ
admin_pool_created_event_discriminator = 202 ∷ 231 ∷ 83 ∷ 135 ∷ 223 ∷ 92 ∷ 111 ∷ 187 ∷ []

abbrev admin_pool_modify_fee_event_discriminator : List ℕ
admin_pool_modify_fee_event_discriminator = 1 ∷ 66 ∷ 168 ∷ 201 ∷ 231 ∷ 122 ∷ 146 ∷ 148 ∷ []

abbrev admin_pool_transfer_ownership_event_discriminator : List ℕ
admin_pool_transfer_ownership_event_discriminator = 65 ∷ 203 ∷ 60 ∷ 168 ∷ 88 ∷ 18 ∷ 147 ∷ 245 ∷ []

abbrev admin_pool_update_contribution_amount_min_usd_event_discriminator : List ℕ
admin_pool_update_contribution_amount_min_usd_event_discriminator =
    97 ∷ 86 ∷ 165 ∷ 198 ∷ 89 ∷ 187 ∷ 42 ∷ 170 ∷ []

abbrev admin_pool_update_dust_threshold_usd_event_discriminator : List ℕ
admin_pool_update_dust_threshold_usd_event_discriminator =
    1 ∷ 131 ∷ 174 ∷ 51 ∷ 249 ∷ 73 ∷ 62 ∷ 199 ∷ []

abbrev admin_pool_update_fundrising_period_max_event_discriminator : List ℕ
admin_pool_update_fundrising_period_max_event_discriminator =
    40 ∷ 11 ∷ 21 ∷ 168 ∷ 111 ∷ 158 ∷ 119 ∷ 155 ∷ []

abbrev admin_pool_update_idle_period_event_discriminator : List ℕ
admin_pool_update_idle_period_event_discriminator = 203 ∷ 36 ∷ 23 ∷ 42 ∷ 136 ∷ 94 ∷ 77 ∷ 39 ∷ []

abbrev admin_pool_update_max_asset_count_event_discriminator : List ℕ
admin_pool_update_max_asset_count_event_discriminator =
    57 ∷ 234 ∷ 146 ∷ 97 ∷ 223 ∷ 54 ∷ 15 ∷ 149 ∷ []

abbrev admin_pool_update_max_slippage_bps_event_discriminator : List ℕ
admin_pool_update_max_slippage_bps_event_discriminator =
    172 ∷ 57 ∷ 56 ∷ 212 ∷ 168 ∷ 211 ∷ 115 ∷ 170 ∷ []

abbrev admin_pool_update_operator_event_discriminator : List ℕ
admin_pool_update_operator_event_discriminator = 30 ∷ 216 ∷ 85 ∷ 192 ∷ 55 ∷ 35 ∷ 25 ∷ 82 ∷ []

abbrev admin_pool_update_oracle_max_age_event_discriminator : List ℕ
admin_pool_update_oracle_max_age_event_discriminator = 0 ∷ 128 ∷ 5 ∷ 132 ∷ 12 ∷ 58 ∷ 164 ∷ 210 ∷ []

abbrev admin_pool_update_raise_amount_min_usd_event_discriminator : List ℕ
admin_pool_update_raise_amount_min_usd_event_discriminator =
    56 ∷ 159 ∷ 123 ∷ 136 ∷ 172 ∷ 202 ∷ 28 ∷ 92 ∷ []

abbrev admin_pool_update_withdraw_cooldown_max_event_discriminator : List ℕ
admin_pool_update_withdraw_cooldown_max_event_discriminator =
    245 ∷ 190 ∷ 85 ∷ 48 ∷ 172 ∷ 75 ∷ 221 ∷ 147 ∷ []

abbrev approve_oracle_pool_event_discriminator : List ℕ
approve_oracle_pool_event_discriminator = 39 ∷ 241 ∷ 67 ∷ 156 ∷ 101 ∷ 239 ∷ 28 ∷ 16 ∷ []

abbrev asset_added_event_discriminator : List ℕ
asset_added_event_discriminator = 99 ∷ 36 ∷ 56 ∷ 1 ∷ 206 ∷ 211 ∷ 88 ∷ 72 ∷ []

abbrev asset_removed_event_discriminator : List ℕ
asset_removed_event_discriminator = 28 ∷ 102 ∷ 182 ∷ 97 ∷ 38 ∷ 69 ∷ 153 ∷ 1 ∷ []

abbrev close_oracle_pool_event_discriminator : List ℕ
close_oracle_pool_event_discriminator = 71 ∷ 79 ∷ 18 ∷ 24 ∷ 210 ∷ 211 ∷ 100 ∷ 178 ∷ []

abbrev close_vault_event_discriminator : List ℕ
close_vault_event_discriminator = 35 ∷ 37 ∷ 158 ∷ 74 ∷ 115 ∷ 93 ∷ 175 ∷ 136 ∷ []

abbrev create_oracle_pool_event_discriminator : List ℕ
create_oracle_pool_event_discriminator = 85 ∷ 70 ∷ 44 ∷ 67 ∷ 217 ∷ 131 ∷ 44 ∷ 111 ∷ []

abbrev deposit_token_fund_event_discriminator : List ℕ
deposit_token_fund_event_discriminator = 57 ∷ 163 ∷ 14 ∷ 52 ∷ 109 ∷ 36 ∷ 151 ∷ 115 ∷ []

abbrev investor_pool_created_event_discriminator : List ℕ
investor_pool_created_event_discriminator = 172 ∷ 239 ∷ 123 ∷ 57 ∷ 48 ∷ 133 ∷ 248 ∷ 84 ∷ []

abbrev money_manager_pool_created_event_discriminator : List ℕ
money_manager_pool_created_event_discriminator = 103 ∷ 223 ∷ 171 ∷ 237 ∷ 44 ∷ 10 ∷ 103 ∷ 58 ∷ []

abbrev trading_delegate_revoked_event_discriminator : List ℕ
trading_delegate_revoked_event_discriminator = 203 ∷ 204 ∷ 153 ∷ 205 ∷ 100 ∷ 205 ∷ 39 ∷ 219 ∷ []

abbrev trading_delegate_set_event_discriminator : List ℕ
trading_delegate_set_event_discriminator = 86 ∷ 89 ∷ 149 ∷ 132 ∷ 237 ∷ 39 ∷ 163 ∷ 74 ∷ []

abbrev trading_event_discriminator : List ℕ
trading_event_discriminator = 29 ∷ 122 ∷ 43 ∷ 227 ∷ 187 ∷ 48 ∷ 131 ∷ 190 ∷ []

abbrev update_oracle_pool_event_discriminator : List ℕ
update_oracle_pool_event_discriminator = 9 ∷ 108 ∷ 207 ∷ 208 ∷ 61 ∷ 77 ∷ 138 ∷ 62 ∷ []

abbrev vault_created_event_discriminator : List ℕ
vault_created_event_discriminator = 81 ∷ 80 ∷ 244 ∷ 58 ∷ 136 ∷ 54 ∷ 236 ∷ 111 ∷ []

abbrev withdraw_money_management_fee_event_discriminator : List ℕ
withdraw_money_management_fee_event_discriminator = 54 ∷ 178 ∷ 69 ∷ 114 ∷ 250 ∷ 243 ∷ 165 ∷ 196 ∷ []

abbrev withdraw_token_fund_event_discriminator : List ℕ
withdraw_token_fund_event_discriminator = 123 ∷ 30 ∷ 127 ∷ 14 ∷ 182 ∷ 8 ∷ 134 ∷ 132 ∷ []

abbrev withdraw_token_fund_result_event_discriminator : List ℕ
withdraw_token_fund_result_event_discriminator = 102 ∷ 248 ∷ 226 ∷ 121 ∷ 201 ∷ 191 ∷ 113 ∷ 51 ∷ []

-- What the data of an event starts with.
unfoldable pub event_discriminator : ClientEvent → List ℕ
event_discriminator admin_pool_accept_ownership_event =
    admin_pool_accept_ownership_event_discriminator
event_discriminator admin_pool_created_event = admin_pool_created_event_discriminator
event_discriminator admin_pool_modify_fee_event = admin_pool_modify_fee_event_discriminator
event_discriminator admin_pool_transfer_ownership_event =
    admin_pool_transfer_ownership_event_discriminator
event_discriminator admin_pool_update_contribution_amount_min_usd_event =
    admin_pool_update_contribution_amount_min_usd_event_discriminator
event_discriminator admin_pool_update_dust_threshold_usd_event =
    admin_pool_update_dust_threshold_usd_event_discriminator
event_discriminator admin_pool_update_fundrising_period_max_event =
    admin_pool_update_fundrising_period_max_event_discriminator
event_discriminator admin_pool_update_idle_period_event =
    admin_pool_update_idle_period_event_discriminator
event_discriminator admin_pool_update_max_asset_count_event =
    admin_pool_update_max_asset_count_event_discriminator
event_discriminator admin_pool_update_max_slippage_bps_event =
    admin_pool_update_max_slippage_bps_event_discriminator
event_discriminator admin_pool_update_operator_event =
    admin_pool_update_operator_event_discriminator
event_discriminator admin_pool_update_oracle_max_age_event =
    admin_pool_update_oracle_max_age_event_discriminator
event_discriminator admin_pool_update_raise_amount_min_usd_event =
    admin_pool_update_raise_amount_min_usd_event_discriminator
event_discriminator admin_pool_update_withdraw_cooldown_max_event =
    admin_pool_update_withdraw_cooldown_max_event_discriminator
event_discriminator approve_oracle_pool_event = approve_oracle_pool_event_discriminator
event_discriminator asset_added_event = asset_added_event_discriminator
event_discriminator asset_removed_event = asset_removed_event_discriminator
event_discriminator close_oracle_pool_event = close_oracle_pool_event_discriminator
event_discriminator close_vault_event = close_vault_event_discriminator
event_discriminator create_oracle_pool_event = create_oracle_pool_event_discriminator
event_discriminator deposit_token_fund_event = deposit_token_fund_event_discriminator
event_discriminator investor_pool_created_event = investor_pool_created_event_discriminator
event_discriminator money_manager_pool_created_event =
    money_manager_pool_created_event_discriminator
event_discriminator trading_delegate_revoked_event = trading_delegate_revoked_event_discriminator
event_discriminator trading_delegate_set_event = trading_delegate_set_event_discriminator
event_discriminator trading_event = trading_event_discriminator
event_discriminator update_oracle_pool_event = update_oracle_pool_event_discriminator
event_discriminator vault_created_event = vault_created_event_discriminator
event_discriminator withdraw_money_management_fee_event =
    withdraw_money_management_fee_event_discriminator
event_discriminator withdraw_token_fund_event = withdraw_token_fund_event_discriminator
event_discriminator withdraw_token_fund_result_event =
    withdraw_token_fund_result_event_discriminator

-- The branches, by the test of the first eight bytes; `none` is the exception at the end.
unfoldable pub event_by : (List ℕ → Bool) → Option ClientEvent
event_by t =
    if t (73 ∷ 160 ∷ 77 ∷ 127 ∷ 42 ∷ 232 ∷ 175 ∷ 37 ∷ [])
    then some admin_pool_accept_ownership_event
    else if t (202 ∷ 231 ∷ 83 ∷ 135 ∷ 223 ∷ 92 ∷ 111 ∷ 187 ∷ [])
    then some admin_pool_created_event
    else if t (1 ∷ 66 ∷ 168 ∷ 201 ∷ 231 ∷ 122 ∷ 146 ∷ 148 ∷ [])
    then some admin_pool_modify_fee_event
    else if t (65 ∷ 203 ∷ 60 ∷ 168 ∷ 88 ∷ 18 ∷ 147 ∷ 245 ∷ [])
    then some admin_pool_transfer_ownership_event
    else if t (97 ∷ 86 ∷ 165 ∷ 198 ∷ 89 ∷ 187 ∷ 42 ∷ 170 ∷ [])
    then some admin_pool_update_contribution_amount_min_usd_event
    else if t (1 ∷ 131 ∷ 174 ∷ 51 ∷ 249 ∷ 73 ∷ 62 ∷ 199 ∷ [])
    then some admin_pool_update_dust_threshold_usd_event
    else if t (40 ∷ 11 ∷ 21 ∷ 168 ∷ 111 ∷ 158 ∷ 119 ∷ 155 ∷ [])
    then some admin_pool_update_fundrising_period_max_event
    else if t (203 ∷ 36 ∷ 23 ∷ 42 ∷ 136 ∷ 94 ∷ 77 ∷ 39 ∷ [])
    then some admin_pool_update_idle_period_event
    else if t (57 ∷ 234 ∷ 146 ∷ 97 ∷ 223 ∷ 54 ∷ 15 ∷ 149 ∷ [])
    then some admin_pool_update_max_asset_count_event
    else if t (172 ∷ 57 ∷ 56 ∷ 212 ∷ 168 ∷ 211 ∷ 115 ∷ 170 ∷ [])
    then some admin_pool_update_max_slippage_bps_event
    else if t (30 ∷ 216 ∷ 85 ∷ 192 ∷ 55 ∷ 35 ∷ 25 ∷ 82 ∷ [])
    then some admin_pool_update_operator_event
    else if t (0 ∷ 128 ∷ 5 ∷ 132 ∷ 12 ∷ 58 ∷ 164 ∷ 210 ∷ [])
    then some admin_pool_update_oracle_max_age_event
    else if t (56 ∷ 159 ∷ 123 ∷ 136 ∷ 172 ∷ 202 ∷ 28 ∷ 92 ∷ [])
    then some admin_pool_update_raise_amount_min_usd_event
    else if t (245 ∷ 190 ∷ 85 ∷ 48 ∷ 172 ∷ 75 ∷ 221 ∷ 147 ∷ [])
    then some admin_pool_update_withdraw_cooldown_max_event
    else if t (39 ∷ 241 ∷ 67 ∷ 156 ∷ 101 ∷ 239 ∷ 28 ∷ 16 ∷ [])
    then some approve_oracle_pool_event
    else if t (99 ∷ 36 ∷ 56 ∷ 1 ∷ 206 ∷ 211 ∷ 88 ∷ 72 ∷ [])
    then some asset_added_event
    else if t (28 ∷ 102 ∷ 182 ∷ 97 ∷ 38 ∷ 69 ∷ 153 ∷ 1 ∷ [])
    then some asset_removed_event
    else if t (71 ∷ 79 ∷ 18 ∷ 24 ∷ 210 ∷ 211 ∷ 100 ∷ 178 ∷ [])
    then some close_oracle_pool_event
    else if t (35 ∷ 37 ∷ 158 ∷ 74 ∷ 115 ∷ 93 ∷ 175 ∷ 136 ∷ [])
    then some close_vault_event
    else if t (85 ∷ 70 ∷ 44 ∷ 67 ∷ 217 ∷ 131 ∷ 44 ∷ 111 ∷ [])
    then some create_oracle_pool_event
    else if t (57 ∷ 163 ∷ 14 ∷ 52 ∷ 109 ∷ 36 ∷ 151 ∷ 115 ∷ [])
    then some deposit_token_fund_event
    else if t (172 ∷ 239 ∷ 123 ∷ 57 ∷ 48 ∷ 133 ∷ 248 ∷ 84 ∷ [])
    then some investor_pool_created_event
    else if t (103 ∷ 223 ∷ 171 ∷ 237 ∷ 44 ∷ 10 ∷ 103 ∷ 58 ∷ [])
    then some money_manager_pool_created_event
    else if t (203 ∷ 204 ∷ 153 ∷ 205 ∷ 100 ∷ 205 ∷ 39 ∷ 219 ∷ [])
    then some trading_delegate_revoked_event
    else if t (86 ∷ 89 ∷ 149 ∷ 132 ∷ 237 ∷ 39 ∷ 163 ∷ 74 ∷ [])
    then some trading_delegate_set_event
    else if t (29 ∷ 122 ∷ 43 ∷ 227 ∷ 187 ∷ 48 ∷ 131 ∷ 190 ∷ [])
    then some trading_event
    else if t (9 ∷ 108 ∷ 207 ∷ 208 ∷ 61 ∷ 77 ∷ 138 ∷ 62 ∷ [])
    then some update_oracle_pool_event
    else if t (81 ∷ 80 ∷ 244 ∷ 58 ∷ 136 ∷ 54 ∷ 236 ∷ 111 ∷ [])
    then some vault_created_event
    else if t (54 ∷ 178 ∷ 69 ∷ 114 ∷ 250 ∷ 243 ∷ 165 ∷ 196 ∷ [])
    then some withdraw_money_management_fee_event
    else if t (123 ∷ 30 ∷ 127 ∷ 14 ∷ 182 ∷ 8 ∷ 134 ∷ 132 ∷ [])
    then some withdraw_token_fund_event
    else if t (102 ∷ 248 ∷ 226 ∷ 121 ∷ 201 ∷ 191 ∷ 113 ∷ 51 ∷ [])
    then some withdraw_token_fund_result_event
    else none

unfoldable pub identify_event : Kit → List ℕ → Option ClientEvent
identify_event kit b = event_by (starts kit b)
