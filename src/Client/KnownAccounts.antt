-- ===== src/Client/KnownAccounts.antt =====
-- The bytes that the client takes for an account are those that start with its discriminator.
use fbyt.Base.{
  ℕ, ◌≡◌, refl, sym, ap, ◌∙◌, ◌↔◌, subst, List, ◌++◌, Bool, true, some, arith, take, drop, length,
  replicate,
}
use fbyt.Client.Kit.{Kit, IsStandardKit, is_prefix, starts_lem, append_of_prefix}
use fbyt.Client.Accounts.{
  ClientAccount, admin_pool, asset_registry, investor_pool, money_manager_pool, oracle_pool,
  vault_pool, account_discriminator, account_by, identify_account,
}

abbrev cut : List ℕ → List ℕ
cut d = take 8 (d ++ replicate 8 0)

account_at :
    (a : ClientAccount) (rest : List ℕ)
    → account_by (λ d. is_prefix (cut d) (account_discriminator a ++ rest)) ≡ some a
unfolding account_by account_discriminator is_prefix
account_at admin_pool rest = refl
account_at asset_registry rest = refl
account_at investor_pool rest = refl
account_at money_manager_pool rest = refl
account_at oracle_pool rest = refl
account_at vault_pool rest = refl

account_of_test :
    (t : List ℕ → Bool) (a : ClientAccount)
    → account_by t ≡ some a
    → t (account_discriminator a) ≡ true
unfolding account_by account_discriminator
account_of_test t admin_pool h = ground arith
account_of_test t asset_registry h = ground arith
account_of_test t investor_pool h = ground arith
account_of_test t money_manager_pool h = ground arith
account_of_test t oracle_pool h = ground arith
account_of_test t vault_pool h = ground arith

cut-account : (a : ClientAccount) → cut (account_discriminator a) ≡ account_discriminator a
unfolding account_discriminator
cut-account admin_pool = refl
cut-account asset_registry = refl
cut-account investor_pool = refl
cut-account money_manager_pool = refl
cut-account oracle_pool = refl
cut-account vault_pool = refl

identified :
    (kit : Kit) (std : IsStandardKit kit) (b : List ℕ)
    → identify_account kit b ≡ account_by (λ d. is_prefix (cut d) b)
unfolding identify_account
identified kit std b = ap account_by (starts_lem kit std b)

-- With a standard kit, `identifyFbytVaultAccount` answers with an account exactly if the data starts with the
-- discriminator that the module of that account declares.
pub identify_account_iff :
    (kit : Kit) (std : IsStandardKit kit) (b : List ℕ) (a : ClientAccount)
    → (identify_account kit b ≡ some a) ↔ (is_prefix (account_discriminator a) b ≡ true)
identify_account_iff kit std b a = (
  λ h.
      subst (λ (d : List ℕ). is_prefix d b ≡ true) (cut-account a)
        (account_of_test (λ d. is_prefix (cut d) b) a (sym (identified kit std b) ∙ h)),
  λ h.
      identified kit std b
      ∙ subst (λ (x : List ℕ). account_by (λ d. is_prefix (cut d) x) ≡ some a)
          (sym (append_of_prefix (account_discriminator a) b h))
          (account_at a (drop (length (account_discriminator a)) b)),
)
