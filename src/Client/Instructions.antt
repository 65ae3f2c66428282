-- ===== src/Client/Instructions.antt =====
-- `identifyFbytVaultInstruction` of app/src/generated/programs/fbytVault.ts, and the discriminators that the
-- modules under app/src/generated/instructions declare.
use fbyt.Base.{ℕ, List, [], ◌∷◌, Bool, Option, none, some, if◌then◌else◌}
use fbyt.Client.Kit.{Kit, starts}

pub data ClientInstruction : Type 0 where
  admin_accept_ownership admin_modify_fee admin_transfer_ownership
        admin_update_contribution_amount_min_usd :
      ClientInstruction
  admin_update_dust_threshold_usd admin_update_fundrising_period_max admin_update_idle_period
        admin_update_max_asset_count :
      ClientInstruction
  admin_update_max_slippage_bps admin_update_operator admin_update_oracle_max_age
        admin_update_raise_amount_min_usd :
      ClientInstruction
  admin_update_withdraw_cooldown_max approve_oracle_pool close_oracle_pool close_vault :
      ClientInstruction
  create_admin_pool create_investor_pool create_money_manager_pool create_oracle_pool :
      ClientInstruction
  create_vault deposit_token_fund get_price_info revoke_trading_delegate : ClientInstruction
  set_trading_delegate swap update_oracle_pool withdraw_money_management_fee : ClientInstruction
  withdraw_token_fund : ClientInstruction

abbrev admin_accept_ownership_discriminator : List ℕ
admin_accept_ownership_discriminator = 102 ∷ 203 ∷ 241 ∷ 127 ∷ 141 ∷ 1 ∷ 31 ∷ 46 ∷ []

abbrev admin_modify_fee_discriminator : List ℕ
admin_modify_fee_discriminator = 86 ∷ 81 ∷ 220 ∷ 94 ∷ 144 ∷ 49 ∷ 197 ∷ 119 ∷ []

abbrev admin_transfer_ownership_discriminator : List ℕ
admin_transfer_ownership_discriminator = 195 ∷ 184 ∷ 73 ∷ 211 ∷ 16 ∷ 243 ∷ 87 ∷ 87 ∷ []

abbrev admin_update_contribution_amount_min_usd_discriminator : List ℕ
admin_update_contribution_amount_min_usd_discriminator =
    1 ∷ 132 ∷ 99 ∷ 67 ∷ 198 ∷ 246 ∷ 184 ∷ 237 ∷ []

abbrev admin_update_dust_threshold_usd_discriminator : List ℕ
admin_update_dust_threshold_usd_discriminator = 79 ∷ 113 ∷ 70 ∷ 239 ∷ 204 ∷ 164 ∷ 60 ∷ 232 ∷ []

abbrev admin_update_fundrising_period_max_discriminator : List ℕ
admin_update_fundrising_period_max_discriminator = 236 ∷ 155 ∷ 61 ∷ 145 ∷ 172 ∷ 211 ∷ 35 ∷ 72 ∷ []

abbrev admin_update_idle_period_discriminator : List ℕ
admin_update_idle_period_discriminator = 254 ∷ 250 ∷ 63 ∷ 86 ∷ 169 ∷ 183 ∷ 86 ∷ 156 ∷ []

abbrev admin_update_max_asset_count_discriminator : List ℕ
admin_update_max_asset_count_discriminator = 2 ∷ 11 ∷ 171 ∷ 52 ∷ 181 ∷ 238 ∷ 249 ∷ 97 ∷ []

abbrev admin_update_max_slippage_bps_discriminator : List ℕ
admin_update_max_slippage_bps_discriminator = 214 ∷ 191 ∷ 45 ∷ 126 ∷ 108 ∷ 57 ∷ 132 ∷ 209 ∷ []

abbrev admin_update_operator_discriminator : List ℕ
admin_update_operator_discriminator = 85 ∷ 191 ∷ 68 ∷ 246 ∷ 190 ∷ 136 ∷ 193 ∷ 252 ∷ []

abbrev admin_update_oracle_max_age_discriminator : List ℕ
admin_update_oracle_max_age_discriminator = 69 ∷ 48 ∷ 184 ∷ 249 ∷ 25 ∷ 171 ∷ 16 ∷ 225 ∷ []

abbrev admin_update_raise_amount_min_usd_discriminator : List ℕ
admin_update_raise_amount_min_usd_discriminator = 131 ∷ 41 ∷ 148 ∷ 234 ∷ 13 ∷ 59 ∷ 86 ∷ 170 ∷ []

abbrev admin_update_withdraw_cooldown_max_discriminator : List ℕ
admin_update_withdraw_cooldown_max_discriminator = 173 ∷ 66 ∷ 238 ∷ 232 ∷ 163 ∷ 211 ∷ 171 ∷ 86 ∷ []

abbrev approve_oracle_pool_discriminator : List ℕ
approve_oracle_pool_discriminator = 200 ∷ 240 ∷ 178 ∷ 43 ∷ 93 ∷ 143 ∷ 45 ∷ 152 ∷ []

abbrev close_oracle_pool_discriminator : List ℕ
close_oracle_pool_discriminator = 114 ∷ 72 ∷ 210 ∷ 27 ∷ 53 ∷ 66 ∷ 222 ∷ 105 ∷ []

abbrev close_vault_discriminator : List ℕ
close_vault_discriminator = 141 ∷ 103 ∷ 17 ∷ 126 ∷ 72 ∷ 75 ∷ 29 ∷ 29 ∷ []

abbrev create_admin_pool_discriminator : List ℕ
create_admin_pool_discriminator = 41 ∷ 52 ∷ 252 ∷ 73 ∷ 88 ∷ 84 ∷ 123 ∷ 111 ∷ []

abbrev create_investor_pool_discriminator : List ℕ
create_investor_pool_discriminator = 46 ∷ 57 ∷ 4 ∷ 241 ∷ 88 ∷ 18 ∷ 154 ∷ 89 ∷ []

abbrev create_money_manager_pool_discriminator : List ℕ
create_money_manager_pool_discriminator = 169 ∷ 250 ∷ 152 ∷ 215 ∷ 39 ∷ 206 ∷ 204 ∷ 11 ∷ []

abbrev create_oracle_pool_discriminator : List ℕ
create_oracle_pool_discriminator = 53 ∷ 101 ∷ 159 ∷ 127 ∷ 234 ∷ 217 ∷ 156 ∷ 223 ∷ []

abbrev create_vault_discriminator : List ℕ
create_vault_discriminator = 29 ∷ 237 ∷ 247 ∷ 208 ∷ 193 ∷ 82 ∷ 54 ∷ 135 ∷ []

abbrev deposit_token_fund_discriminator : List ℕ
deposit_token_fund_discriminator = 147 ∷ 208 ∷ 90 ∷ 77 ∷ 202 ∷ 172 ∷ 95 ∷ 83 ∷ []

abbrev get_price_info_discriminator : List ℕ
get_price_info_discriminator = 214 ∷ 168 ∷ 85 ∷ 16 ∷ 228 ∷ 217 ∷ 38 ∷ 6 ∷ []

abbrev revoke_trading_delegate_discriminator : List ℕ
revoke_trading_delegate_discriminator = 43 ∷ 207 ∷ 174 ∷ 48 ∷ 174 ∷ 77 ∷ 188 ∷ 120 ∷ []

abbrev set_trading_delegate_discriminator : List ℕ
set_trading_delegate_discriminator = 181 ∷ 195 ∷ 120 ∷ 236 ∷ 254 ∷ 84 ∷ 61 ∷ 77 ∷ []

abbrev swap_discriminator : List ℕ
swap_discriminator = 248 ∷ 198 ∷ 158 ∷ 145 ∷ 225 ∷ 117 ∷ 135 ∷ 200 ∷ []

abbrev update_oracle_pool_discriminator : List ℕ
update_oracle_pool_discriminator = 219 ∷ 158 ∷ 32 ∷ 167 ∷ 160 ∷ 27 ∷ 134 ∷ 167 ∷ []

abbrev withdraw_money_management_fee_discriminator : List ℕ
withdraw_money_management_fee_discriminator = 234 ∷ 246 ∷ 181 ∷ 24 ∷ 134 ∷ 165 ∷ 70 ∷ 64 ∷ []

abbrev withdraw_token_fund_discriminator : List ℕ
withdraw_token_fund_discriminator = 24 ∷ 52 ∷ 139 ∷ 148 ∷ 82 ∷ 157 ∷ 134 ∷ 183 ∷ []

-- What the data of an instruction starts with.
unfoldable pub instruction_discriminator : ClientInstruction → List ℕ
instruction_discriminator admin_accept_ownership = admin_accept_ownership_discriminator
instruction_discriminator admin_modify_fee = admin_modify_fee_discriminator
instruction_discriminator admin_transfer_ownership = admin_transfer_ownership_discriminator
instruction_discriminator admin_update_contribution_amount_min_usd =
    admin_update_contribution_amount_min_usd_discriminator
instruction_discriminator admin_update_dust_threshold_usd =
    admin_update_dust_threshold_usd_discriminator
instruction_discriminator admin_update_fundrising_period_max =
    admin_update_fundrising_period_max_discriminator
instruction_discriminator admin_update_idle_period = admin_update_idle_period_discriminator
instruction_discriminator admin_update_max_asset_count = admin_update_max_asset_count_discriminator
instruction_discriminator admin_update_max_slippage_bps =
    admin_update_max_slippage_bps_discriminator
instruction_discriminator admin_update_operator = admin_update_operator_discriminator
instruction_discriminator admin_update_oracle_max_age = admin_update_oracle_max_age_discriminator
instruction_discriminator admin_update_raise_amount_min_usd =
    admin_update_raise_amount_min_usd_discriminator
instruction_discriminator admin_update_withdraw_cooldown_max =
    admin_update_withdraw_cooldown_max_discriminator
instruction_discriminator approve_oracle_pool = approve_oracle_pool_discriminator
instruction_discriminator close_oracle_pool = close_oracle_pool_discriminator
instruction_discriminator close_vault = close_vault_discriminator
instruction_discriminator create_admin_pool = create_admin_pool_discriminator
instruction_discriminator create_investor_pool = create_investor_pool_discriminator
instruction_discriminator create_money_manager_pool = create_money_manager_pool_discriminator
instruction_discriminator create_oracle_pool = create_oracle_pool_discriminator
instruction_discriminator create_vault = create_vault_discriminator
instruction_discriminator deposit_token_fund = deposit_token_fund_discriminator
instruction_discriminator get_price_info = get_price_info_discriminator
instruction_discriminator revoke_trading_delegate = revoke_trading_delegate_discriminator
instruction_discriminator set_trading_delegate = set_trading_delegate_discriminator
instruction_discriminator swap = swap_discriminator
instruction_discriminator update_oracle_pool = update_oracle_pool_discriminator
instruction_discriminator withdraw_money_management_fee =
    withdraw_money_management_fee_discriminator
instruction_discriminator withdraw_token_fund = withdraw_token_fund_discriminator

-- The branches, by the test of the first eight bytes; `none` is the exception at the end.
unfoldable pub instruction_by : (List ℕ → Bool) → Option ClientInstruction
instruction_by t =
    if t (102 ∷ 203 ∷ 241 ∷ 127 ∷ 141 ∷ 1 ∷ 31 ∷ 46 ∷ [])
    then some admin_accept_ownership
    else if t (86 ∷ 81 ∷ 220 ∷ 94 ∷ 144 ∷ 49 ∷ 197 ∷ 119 ∷ [])
    then some admin_modify_fee
    else if t (195 ∷ 184 ∷ 73 ∷ 211 ∷ 16 ∷ 243 ∷ 87 ∷ 87 ∷ [])
    then some admin_transfer_ownership
    else if t (1 ∷ 132 ∷ 99 ∷ 67 ∷ 198 ∷ 246 ∷ 184 ∷ 237 ∷ [])
    then some admin_update_contribution_amount_min_usd
    else if t (79 ∷ 113 ∷ 70 ∷ 239 ∷ 204 ∷ 164 ∷ 60 ∷ 232 ∷ [])
    then some admin_update_dust_threshold_usd
    else if t (236 ∷ 155 ∷ 61 ∷ 145 ∷ 172 ∷ 211 ∷ 35 ∷ 72 ∷ [])
    then some admin_update_fundrising_period_max
    else if t (254 ∷ 250 ∷ 63 ∷ 86 ∷ 169 ∷ 183 ∷ 86 ∷ 156 ∷ [])
    then some admin_update_idle_period
    else if t (2 ∷ 11 ∷ 171 ∷ 52 ∷ 181 ∷ 238 ∷ 249 ∷ 97 ∷ [])
    then some admin_update_max_asset_count
    else if t (214 ∷ 191 ∷ 45 ∷ 126 ∷ 108 ∷ 57 ∷ 132 ∷ 209 ∷ [])
    then some admin_update_max_slippage_bps
    else if t (85 ∷ 191 ∷ 68 ∷ 246 ∷ 190 ∷ 136 ∷ 193 ∷ 252 ∷ [])
    then some admin_update_operator
    else if t (69 ∷ 48 ∷ 184 ∷ 249 ∷ 25 ∷ 171 ∷ 16 ∷ 225 ∷ [])
    then some admin_update_oracle_max_age
    else if t (131 ∷ 41 ∷ 148 ∷ 234 ∷ 13 ∷ 59 ∷ 86 ∷ 170 ∷ [])
    then some admin_update_raise_amount_min_usd
    else if t (173 ∷ 66 ∷ 238 ∷ 232 ∷ 163 ∷ 211 ∷ 171 ∷ 86 ∷ [])
    then some admin_update_withdraw_cooldown_max
    else if t (200 ∷ 240 ∷ 178 ∷ 43 ∷ 93 ∷ 143 ∷ 45 ∷ 152 ∷ [])
    then some approve_oracle_pool
    else if t (114 ∷ 72 ∷ 210 ∷ 27 ∷ 53 ∷ 66 ∷ 222 ∷ 105 ∷ [])
    then some close_oracle_pool
    else if t (141 ∷ 103 ∷ 17 ∷ 126 ∷ 72 ∷ 75 ∷ 29 ∷ 29 ∷ [])
    then some close_vault
    else if t (41 ∷ 52 ∷ 252 ∷ 73 ∷ 88 ∷ 84 ∷ 123 ∷ 111 ∷ [])
    then some create_admin_pool
    else if t (46 ∷ 57 ∷ 4 ∷ 241 ∷ 88 ∷ 18 ∷ 154 ∷ 89 ∷ [])
    then some create_investor_pool
    else if t (169 ∷ 250 ∷ 152 ∷ 215 ∷ 39 ∷ 206 ∷ 204 ∷ 11 ∷ [])
    then some create_money_manager_pool
    else if t (53 ∷ 101 ∷ 159 ∷ 127 ∷ 234 ∷ 217 ∷ 156 ∷ 223 ∷ [])
    then some create_oracle_pool
    else if t (29 ∷ 237 ∷ 247 ∷ 208 ∷ 193 ∷ 82 ∷ 54 ∷ 135 ∷ [])
    then some create_vault
    else if t (147 ∷ 208 ∷ 90 ∷ 77 ∷ 202 ∷ 172 ∷ 95 ∷ 83 ∷ [])
    then some deposit_token_fund
    else if t (214 ∷ 168 ∷ 85 ∷ 16 ∷ 228 ∷ 217 ∷ 38 ∷ 6 ∷ [])
    then some get_price_info
    else if t (43 ∷ 207 ∷ 174 ∷ 48 ∷ 174 ∷ 77 ∷ 188 ∷ 120 ∷ [])
    then some revoke_trading_delegate
    else if t (181 ∷ 195 ∷ 120 ∷ 236 ∷ 254 ∷ 84 ∷ 61 ∷ 77 ∷ [])
    then some set_trading_delegate
    else if t (248 ∷ 198 ∷ 158 ∷ 145 ∷ 225 ∷ 117 ∷ 135 ∷ 200 ∷ [])
    then some swap
    else if t (219 ∷ 158 ∷ 32 ∷ 167 ∷ 160 ∷ 27 ∷ 134 ∷ 167 ∷ [])
    then some update_oracle_pool
    else if t (234 ∷ 246 ∷ 181 ∷ 24 ∷ 134 ∷ 165 ∷ 70 ∷ 64 ∷ [])
    then some withdraw_money_management_fee
    else if t (24 ∷ 52 ∷ 139 ∷ 148 ∷ 82 ∷ 157 ∷ 134 ∷ 183 ∷ [])
    then some withdraw_token_fund
    else none

unfoldable pub identify_instruction : Kit → List ℕ → Option ClientInstruction
identify_instruction kit b = instruction_by (starts kit b)
