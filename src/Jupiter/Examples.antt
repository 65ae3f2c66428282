-- ===== src/Jupiter/Examples.antt =====
-- A route of a vault that Jupiter takes for the user.
use fbyt.Base.{◌≡◌, true, false, [], ◌∷◌, map, codes}
use fbyt.Jupiter.Route.{JupiterInstruction, build_jupiter_route}
use fbyt.Jupiter.Signers.{account_of, without_signer, build_jupiter_route-accounts}

abbrev instruction : JupiterInstruction
instruction = record {
  program_id = codes "jup";
  accounts =
      record { pubkey = codes "vault"; is_signer = true; is_writable = false }
      ∷ record { pubkey = codes "payer"; is_signer = true; is_writable = true }
      ∷ [];
  payload = codes "AQ==";
}

build_jupiter_route-accounts_example :
    map account_of (build_jupiter_route (λ t. t) instruction (codes "vault")).remaining_accounts
    ≡ map (without_signer (codes "vault")) instruction.accounts
build_jupiter_route-accounts_example =
    build_jupiter_route-accounts (λ t. t) instruction (codes "vault")
