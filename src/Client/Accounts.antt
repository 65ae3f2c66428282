-- ===== src/Client/Accounts.antt =====
-- `identifyFbytVaultAccount` of app/src/generated/programs/fbytVault.ts, and the discriminators that the
-- modules under app/src/generated/accounts declare.
use fbyt.Base.{ℕ, List, [], ◌∷◌, Bool, Option, none, some, if◌then◌else◌}
use fbyt.Client.Kit.{Kit, starts}

pub data ClientAccount : Type 0 where
  admin_pool asset_registry investor_pool money_manager_pool : ClientAccount
  oracle_pool vault_pool : ClientAccount

abbrev admin_pool_discriminator : List ℕ
admin_pool_discriminator = 151 ∷ 222 ∷ 40 ∷ 94 ∷ 157 ∷ 115 ∷ 214 ∷ 53 ∷ []

abbrev asset_registry_discriminator : List ℕ
asset_registry_discriminator = 60 ∷ 94 ∷ 213 ∷ 134 ∷ 205 ∷ 170 ∷ 175 ∷ 68 ∷ []

abbrev investor_pool_discriminator : List ℕ
investor_pool_discriminator = 246 ∷ 171 ∷ 125 ∷ 107 ∷ 25 ∷ 201 ∷ 36 ∷ 95 ∷ []

abbrev money_manager_pool_discriminator : List ℕ
money_manager_pool_discriminator = 16 ∷ 148 ∷ 170 ∷ 83 ∷ 71 ∷ 18 ∷ 27 ∷ 141 ∷ []

abbrev oracle_pool_discriminator : List ℕ
oracle_pool_discriminator = 42 ∷ 185 ∷ 120 ∷ 24 ∷ 182 ∷ 8 ∷ 43 ∷ 146 ∷ []

abbrev vault_pool_discriminator : List ℕ
vault_pool_discriminator = 64 ∷ 55 ∷ 145 ∷ 17 ∷ 146 ∷ 105 ∷ 18 ∷ 195 ∷ []

-- What the data of an account starts with.
unfoldable pub account_discriminator : ClientAccount → List ℕ
account_discriminator admin_pool = admin_pool_discriminator
account_discriminator asset_registry = asset_registry_discriminator
account_discriminator investor_pool = investor_pool_discriminator
account_discriminator money_manager_pool = money_manager_pool_discriminator
account_discriminator oracle_pool = oracle_pool_discriminator
account_discriminator vault_pool = vault_pool_discriminator

-- The branches, by the test of the first eight bytes; `none` is the exception at the end.
unfoldable pub account_by : (List ℕ → Bool) → Option ClientAccount
account_by t =
    if t (151 ∷ 222 ∷ 40 ∷ 94 ∷ 157 ∷ 115 ∷ 214 ∷ 53 ∷ [])
    then some admin_pool
    else if t (60 ∷ 94 ∷ 213 ∷ 134 ∷ 205 ∷ 170 ∷ 175 ∷ 68 ∷ [])
    then some asset_registry
    else if t (246 ∷ 171 ∷ 125 ∷ 107 ∷ 25 ∷ 201 ∷ 36 ∷ 95 ∷ [])
    then some investor_pool
    else if t (16 ∷ 148 ∷ 170 ∷ 83 ∷ 71 ∷ 18 ∷ 27 ∷ 141 ∷ [])
    then some money_manager_pool
    else if t (42 ∷ 185 ∷ 120 ∷ 24 ∷ 182 ∷ 8 ∷ 43 ∷ 146 ∷ [])
    then some oracle_pool
    else if t (64 ∷ 55 ∷ 145 ∷ 17 ∷ 146 ∷ 105 ∷ 18 ∷ 195 ∷ [])
    then some vault_pool
    else none

unfoldable pub identify_account : Kit → List ℕ → Option ClientAccount
identify_account kit b = account_by (starts kit b)
