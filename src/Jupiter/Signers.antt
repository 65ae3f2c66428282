-- ===== src/Jupiter/Signers.antt =====
-- Who signs an adapted route.
use fbyt.Base.{
  ℕ, ◌≡◌, refl, Text, text_eq, Bool, true, false, not, ◌&&◌, List, [], ◌∷◌, map, if◌then◌else◌,
}
use fbyt.Jupiter.Route.{
  AccountRole, writable_signer, readonly_signer, writable, AccountMeta, RouteAccount,
  JupiterInstruction, role_of, adapt, build_jupiter_route,
}

-- The two questions that a role answers.
abbrev pub signs : AccountRole → Bool
signs writable_signer = true
signs readonly_signer = true
signs _ = false

abbrev pub writes : AccountRole → Bool
writes writable_signer = true
writes writable = true
writes _ = false

-- An account of the route, read back from its meta.
abbrev pub account_of : AccountMeta → RouteAccount
account_of m = record { pubkey = m.address; is_signer = signs m.role; is_writable = writes m.role }

abbrev pub without_signer : Text → RouteAccount → RouteAccount
without_signer vault a = record a { is_signer = a.is_signer && not (text_eq a.pubkey vault) }

signs-role_of : (s w : Bool) → signs (role_of s w) ≡ s
unfolding role_of
signs-role_of true true = refl
signs-role_of true false = refl
signs-role_of false true = refl
signs-role_of false false = refl

writes-role_of : (s w : Bool) → writes (role_of s w) ≡ w
unfolding role_of
writes-role_of true true = refl
writes-role_of true false = refl
writes-role_of false true = refl
writes-role_of false false = refl

signer_if : (same s : Bool) → (if same then false else s) ≡ (s && not same)
signer_if true true = refl
signer_if true false = refl
signer_if false true = refl
signer_if false false = refl

account-adapt :
    (vault : Text) (a : RouteAccount) → account_of (adapt vault a) ≡ without_signer vault a
unfolding adapt
account-adapt vault a =
    rw
      (
        signs-role_of (if text_eq a.pubkey vault then false else a.is_signer) a.is_writable,
        writes-role_of (if text_eq a.pubkey vault then false else a.is_signer) a.is_writable,
        signer_if (text_eq a.pubkey vault) a.is_signer,
      )
      refl

accounts-adapt :
    (vault : Text) (bs : List RouteAccount)
    → map account_of (map (adapt vault) bs) ≡ map (without_signer vault) bs
accounts-adapt vault [] = refl
accounts-adapt vault (a ∷ bs) = rw (account-adapt vault a, accounts-adapt vault bs) refl

-- An adapted route has the accounts of Jupiter's instruction in their order, each with its address and
-- writable as it was, and a signer exactly if it was one and is not the vault.
pub build_jupiter_route-accounts :
    (base64 : Text → List ℕ) (ix : JupiterInstruction) (vault : Text)
    → map account_of (build_jupiter_route base64 ix vault).remaining_accounts
      ≡ map (without_signer vault) ix.accounts
unfolding build_jupiter_route
build_jupiter_route-accounts base64 ix vault = accounts-adapt vault ix.accounts
