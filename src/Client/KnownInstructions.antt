-- ===== src/Client/KnownInstructions.antt =====
-- The bytes that the client takes for an instruction are those that start with its discriminator.
use fbyt.Base.{
  ℕ, ◌≡◌, refl, sym, ap, ◌∙◌, ◌↔◌, subst, List, ◌++◌, Bool, true, some, arith, take, drop, length,
  replicate,
}
use fbyt.Client.Kit.{Kit, IsStandardKit, is_prefix, starts_lem, append_of_prefix}
use fbyt.Client.Instructions.{
  ClientInstruction, admin_accept_ownership, admin_modify_fee, admin_transfer_ownership,
  admin_update_contribution_amount_min_usd, admin_update_dust_threshold_usd,
  admin_update_fundrising_period_max, admin_update_idle_period, admin_update_max_asset_count,
  admin_update_max_slippage_bps, admin_update_operator, admin_update_oracle_max_age,
  admin_update_raise_amount_min_usd, admin_update_withdraw_cooldown_max, approve_oracle_pool,
  close_oracle_pool, close_vault, create_admin_pool, create_investor_pool,
  create_money_manager_pool, create_oracle_pool, create_vault, deposit_token_fund, get_price_info,
  revoke_trading_delegate, set_trading_delegate, swap, update_oracle_pool,
  withdraw_money_management_fee, withdraw_token_fund, instruction_discriminator, instruction_by,
  identify_instruction,
}

abbrev cut : List ℕ → List ℕ
cut d = take 8 (d ++ replicate 8 0)

instruction_at :
    (a : ClientInstruction) (rest : List ℕ)
    → instruction_by (λ d. is_prefix (cut d) (instruction_discriminator a ++ rest)) ≡ some a
unfolding instruction_by instruction_discriminator is_prefix
instruction_at admin_accept_ownership rest = refl
instruction_at admin_modify_fee rest = refl
instruction_at admin_transfer_ownership rest = refl
instruction_at admin_update_contribution_amount_min_usd rest = refl
instruction_at admin_update_dust_threshold_usd rest = refl
instruction_at admin_update_fundrising_period_max rest = refl
instruction_at admin_update_idle_period rest = refl
instruction_at admin_update_max_asset_count rest = refl
instruction_at admin_update_max_slippage_bps rest = refl
instruction_at admin_update_operator rest = refl
instruction_at admin_update_oracle_max_age rest = refl
instruction_at admin_update_raise_amount_min_usd rest = refl
instruction_at admin_update_withdraw_cooldown_max rest = refl
instruction_at approve_oracle_pool rest = refl
instruction_at close_oracle_pool rest = refl
instruction_at close_vault rest = refl
instruction_at create_admin_pool rest = refl
instruction_at create_investor_pool rest = refl
instruction_at create_money_manager_pool rest = refl
instruction_at create_oracle_pool rest = refl
instruction_at create_vault rest = refl
instruction_at deposit_token_fund rest = refl
instruction_at get_price_info rest = refl
instruction_at revoke_trading_delegate rest = refl
instruction_at set_trading_delegate rest = refl
instruction_at swap rest = refl
instruction_at update_oracle_pool rest = refl
instruction_at withdraw_money_management_fee rest = refl
instruction_at withdraw_token_fund rest = refl

instruction_of_test :
    (t : List ℕ → Bool) (a : ClientInstruction)
    → instruction_by t ≡ some a
    → t (instruction_discriminator a) ≡ true
unfolding instruction_by instruction_discriminator
instruction_of_test t admin_accept_ownership h = ground arith
instruction_of_test t admin_modify_fee h = ground arith
instruction_of_test t admin_transfer_ownership h = ground arith
instruction_of_test t admin_update_contribution_amount_min_usd h = ground arith
instruction_of_test t admin_update_dust_threshold_usd h = ground arith
instruction_of_test t admin_update_fundrising_period_max h = ground arith
instruction_of_test t admin_update_idle_period h = ground arith
instruction_of_test t admin_update_max_asset_count h = ground arith
instruction_of_test t admin_update_max_slippage_bps h = ground arith
instruction_of_test t admin_update_operator h = ground arith
instruction_of_test t admin_update_oracle_max_age h = ground arith
instruction_of_test t admin_update_raise_amount_min_usd h = ground arith
instruction_of_test t admin_update_withdraw_cooldown_max h = ground arith
instruction_of_test t approve_oracle_pool h = ground arith
instruction_of_test t close_oracle_pool h = ground arith
instruction_of_test t close_vault h = ground arith
instruction_of_test t create_admin_pool h = ground arith
instruction_of_test t create_investor_pool h = ground arith
instruction_of_test t create_money_manager_pool h = ground arith
instruction_of_test t create_oracle_pool h = ground arith
instruction_of_test t create_vault h = ground arith
instruction_of_test t deposit_token_fund h = ground arith
instruction_of_test t get_price_info h = ground arith
instruction_of_test t revoke_trading_delegate h = ground arith
instruction_of_test t set_trading_delegate h = ground arith
instruction_of_test t swap h = ground arith
instruction_of_test t update_oracle_pool h = ground arith
instruction_of_test t withdraw_money_management_fee h = ground arith
instruction_of_test t withdraw_token_fund h = ground arith

cut-instruction :
    (a : ClientInstruction) → cut (instruction_discriminator a) ≡ instruction_discriminator a
unfolding instruction_discriminator
cut-instruction admin_accept_ownership = refl
cut-instruction admin_modify_fee = refl
cut-instruction admin_transfer_ownership = refl
cut-instruction admin_update_contribution_amount_min_usd = refl
cut-instruction admin_update_dust_threshold_usd = refl
cut-instruction admin_update_fundrising_period_max = refl
cut-instruction admin_update_idle_period = refl
cut-instruction admin_update_max_asset_count = refl
cut-instruction admin_update_max_slippage_bps = refl
cut-instruction admin_update_operator = refl
cut-instruction admin_update_oracle_max_age = refl
cut-instruction admin_update_raise_amount_min_usd = refl
cut-instruction admin_update_withdraw_cooldown_max = refl
cut-instruction approve_oracle_pool = refl
cut-instruction close_oracle_pool = refl
cut-instruction close_vault = refl
cut-instruction create_admin_pool = refl
cut-instruction create_investor_pool = refl
cut-instruction create_money_manager_pool = refl
cut-instruction create_oracle_pool = refl
cut-instruction create_vault = refl
cut-instruction deposit_token_fund = refl
cut-instruction get_price_info = refl
cut-instruction revoke_trading_delegate = refl
cut-instruction set_trading_delegate = refl
cut-instruction swap = refl
cut-instruction update_oracle_pool = refl
cut-instruction withdraw_money_management_fee = refl
cut-instruction withdraw_token_fund = refl

identified :
    (kit : Kit) (std : IsStandardKit kit) (b : List ℕ)
    → identify_instruction kit b ≡ instruction_by (λ d. is_prefix (cut d) b)
unfolding identify_instruction
identified kit std b = ap instruction_by (starts_lem kit std b)

-- With a standard kit, `identifyFbytVaultInstruction` answers with an instruction exactly if the data starts with the
-- discriminator that the module of that instruction declares.
pub identify_instruction_iff :
    (kit : Kit) (std : IsStandardKit kit) (b : List ℕ) (a : ClientInstruction)
    → (identify_instruction kit b ≡ some a) ↔ (is_prefix (instruction_discriminator a) b ≡ true)
identify_instruction_iff kit std b a = (
  λ h.
      subst (λ (d : List ℕ). is_prefix d b ≡ true) (cut-instruction a)
        (instruction_of_test (λ d. is_prefix (cut d) b) a (sym (identified kit std b) ∙ h)),
  λ h.
      identified kit std b
      ∙ subst (λ (x : List ℕ). instruction_by (λ d. is_prefix (cut d) x) ≡ some a)
          (sym (append_of_prefix (instruction_discriminator a) b h))
          (instruction_at a (drop (length (instruction_discriminator a)) b)),
)
