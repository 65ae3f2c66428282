-- ===== src/Client/KnownEvents.antt =====
-- The bytes that the client takes for an event are those that start with its discriminator.
use fbyt.Base.{
  ℕ, ◌≡◌, refl, sym, ap, ◌∙◌, ◌↔◌, subst, List, ◌++◌, Bool, true, some, arith, take, drop, length,
  replicate,
}
use fbyt.Client.Kit.{Kit, IsStandardKit, is_prefix, starts_lem, append_of_prefix}
use fbyt.Client.Events.{
  ClientEvent, admin_pool_accept_ownership_event, admin_pool_created_event,
  admin_pool_modify_fee_event, admin_pool_transfer_ownership_event,
  admin_pool_update_contribution_amount_min_usd_event, admin_pool_update_dust_threshold_usd_event,
  admin_pool_update_fundrising_period_max_event, admin_pool_update_idle_period_event,
  admin_pool_update_max_asset_count_event, admin_pool_update_max_slippage_bps_event,
  admin_pool_update_operator_event, admin_pool_update_oracle_max_age_event,
  admin_pool_update_raise_amount_min_usd_event, admin_pool_update_withdraw_cooldown_max_event,
  approve_oracle_pool_event, asset_added_event, asset_removed_event, close_oracle_pool_event,
  close_vault_event, create_oracle_pool_event, deposit_token_fund_event,
  investor_pool_created_event, money_manager_pool_created_event, trading_delegate_revoked_event,
  trading_delegate_set_event, trading_event, update_oracle_pool_event, vault_created_event,
  withdraw_money_management_fee_event, withdraw_token_fund_event, withdraw_token_fund_result_event,
  event_discriminator, event_by, identify_event,
}

abbrev cut : List ℕ → List ℕ
cut d = take 8 (d ++ replicate 8 0)

event_at :
    (a : ClientEvent) (rest : List ℕ)
    → event_by (λ d. is_prefix (cut d) (event_discriminator a ++ rest)) ≡ some a
unfolding event_by event_discriminator is_prefix
event_at admin_pool_accept_ownership_event rest = refl
event_at admin_pool_created_event rest = refl
event_at admin_pool_modify_fee_event rest = refl
event_at admin_pool_transfer_ownership_event rest = refl
event_at admin_pool_update_contribution_amount_min_usd_event rest = refl
event_at admin_pool_update_dust_threshold_usd_event rest = refl
event_at admin_pool_update_fundrising_period_max_event rest = refl
event_at admin_pool_update_idle_period_event rest = refl
event_at admin_pool_update_max_asset_count_event rest = refl
event_at admin_pool_update_max_slippage_bps_event rest = refl
event_at admin_pool_update_operator_event rest = refl
event_at admin_pool_update_oracle_max_age_event rest = refl
event_at admin_pool_update_raise_amount_min_usd_event rest = refl
event_at admin_pool_update_withdraw_cooldown_max_event rest = refl
event_at approve_oracle_pool_event rest = refl
event_at asset_added_event rest = refl
event_at asset_removed_event rest = refl
event_at close_oracle_pool_event rest = refl
event_at close_vault_event rest = refl
event_at create_oracle_pool_event rest = refl
event_at deposit_token_fund_event rest = refl
event_at investor_pool_created_event rest = refl
event_at money_manager_pool_created_event rest = refl
event_at trading_delegate_revoked_event rest = refl
event_at trading_delegate_set_event rest = refl
event_at trading_event rest = refl
event_at update_oracle_pool_event rest = refl
event_at vault_created_event rest = refl
event_at withdraw_money_management_fee_event rest = refl
event_at withdraw_token_fund_event rest = refl
event_at withdraw_token_fund_result_event rest = refl

event_of_test :
    (t : List ℕ → Bool) (a : ClientEvent) → event_by t ≡ some a → t (event_discriminator a) ≡ true
unfolding event_by event_discriminator
event_of_test t admin_pool_accept_ownership_event h = ground arith
event_of_test t admin_pool_created_event h = ground arith
event_of_test t admin_pool_modify_fee_event h = ground arith
event_of_test t admin_pool_transfer_ownership_event h = ground arith
event_of_test t admin_pool_update_contribution_amount_min_usd_event h = ground arith
event_of_test t admin_pool_update_dust_threshold_usd_event h = ground arith
event_of_test t admin_pool_update_fundrising_period_max_event h = ground arith
event_of_test t admin_pool_update_idle_period_event h = ground arith
event_of_test t admin_pool_update_max_asset_count_event h = ground arith
event_of_test t admin_pool_update_max_slippage_bps_event h = ground arith
event_of_test t admin_pool_update_operator_event h = ground arith
event_of_test t admin_pool_update_oracle_max_age_event h = ground arith
event_of_test t admin_pool_update_raise_amount_min_usd_event h = ground arith
event_of_test t admin_pool_update_withdraw_cooldown_max_event h = ground arith
event_of_test t approve_oracle_pool_event h = ground arith
event_of_test t asset_added_event h = ground arith
event_of_test t asset_removed_event h = ground arith
event_of_test t close_oracle_pool_event h = ground arith
event_of_test t close_vault_event h = ground arith
event_of_test t create_oracle_pool_event h = ground arith
event_of_test t deposit_token_fund_event h = ground arith
event_of_test t investor_pool_created_event h = ground arith
event_of_test t money_manager_pool_created_event h = ground arith
event_of_test t trading_delegate_revoked_event h = ground arith
event_of_test t trading_delegate_set_event h = ground arith
event_of_test t trading_event h = ground arith
event_of_test t update_oracle_pool_event h = ground arith
event_of_test t vault_created_event h = ground arith
event_of_test t withdraw_money_management_fee_event h = ground arith
event_of_test t withdraw_token_fund_event h = ground arith
event_of_test t withdraw_token_fund_result_event h = ground arith

cut-event : (a : ClientEvent) → cut (event_discriminator a) ≡ event_discriminator a
unfolding event_discriminator
cut-event admin_pool_accept_ownership_event = refl
cut-event admin_pool_created_event = refl
cut-event admin_pool_modify_fee_event = refl
cut-event admin_pool_transfer_ownership_event = refl
cut-event admin_pool_update_contribution_amount_min_usd_event = refl
cut-event admin_pool_update_dust_threshold_usd_event = refl
cut-event admin_pool_update_fundrising_period_max_event = refl
cut-event admin_pool_update_idle_period_event = refl
cut-event admin_pool_update_max_asset_count_event = refl
cut-event admin_pool_update_max_slippage_bps_event = refl
cut-event admin_pool_update_operator_event = refl
cut-event admin_pool_update_oracle_max_age_event = refl
cut-event admin_pool_update_raise_amount_min_usd_event = refl
cut-event admin_pool_update_withdraw_cooldown_max_event = refl
cut-event approve_oracle_pool_event = refl
cut-event asset_added_event = refl
cut-event asset_removed_event = refl
cut-event close_oracle_pool_event = refl
cut-event close_vault_event = refl
cut-event create_oracle_pool_event = refl
cut-event deposit_token_fund_event = refl
cut-event investor_pool_created_event = refl
cut-event money_manager_pool_created_event = refl
cut-event trading_delegate_revoked_event = refl
cut-event trading_delegate_set_event = refl
cut-event trading_event = refl
cut-event update_oracle_pool_event = refl
cut-event vault_created_event = refl
cut-event withdraw_money_management_fee_event = refl
cut-event withdraw_token_fund_event = refl
cut-event withdraw_token_fund_result_event = refl

identified :
    (kit : Kit) (std : IsStandardKit kit) (b : List ℕ)
    → identify_event kit b ≡ event_by (λ d. is_prefix (cut d) b)
unfolding identify_event
identified kit std b = ap event_by (starts_lem kit std b)

-- With a standard kit, `identifyFbytVaultEvent` answers with an event exactly if the data starts with the
-- discriminator that the module of that event declares.
pub identify_event_iff :
    (kit : Kit) (std : IsStandardKit kit) (b : List ℕ) (a : ClientEvent)
    → (identify_event kit b ≡ some a) ↔ (is_prefix (event_discriminator a) b ≡ true)
identify_event_iff kit std b a = (
  λ h.
      subst (λ (d : List ℕ). is_prefix d b ≡ true) (cut-event a)
        (event_of_test (λ d. is_prefix (cut d) b) a (sym (identified kit std b) ∙ h)),
  λ h.
      identified kit std b
      ∙ subst (λ (x : List ℕ). event_by (λ d. is_prefix (cut d) x) ≡ some a)
          (sym (append_of_prefix (event_discriminator a) b h))
          (event_at a (drop (length (event_discriminator a)) b)),
)
