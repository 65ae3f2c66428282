-- ===== src/Session/Cookie.antt =====
-- `secret`, `signSession` and `verifySession` of app/src/lib/session.ts.
-- `none` outside is the exception of `secret`; `none` inside is `null`.
use fbyt.Base.{
  ℕ, ◌+◌, ◌*◌, ◌≤◌, ◌<◌, ◌≡◌, Text, text_eq, Bool, true, false, Option, none, some, List, [], ◌∷◌,
  ◌++◌, codes, split, if◌then◌else◌,
}
use fbyt.Base.Split.{Lacks}

abbrev pub default_secret : Text
default_secret = codes "dev-only-secret-change-me"

abbrev pub session_max_age_ms : ℕ
session_max_age_ms = 7 * 24 * 60 * 60 * 1000

-- The process: its environment variables, and what it uses of Node.
pub record Runtime : Type 1 where
  pub session_secret : Option Text
  pub production : Bool
  -- createHmac('sha256', key).update(payload).digest('hex')
  pub hmac : Text → Text → Text
  -- JavaScript numbers, as `issuedAt` uses them; `parse` gives `none` where `Number(s)` is not finite.
  pub Number : Type 0
  pub number : ℕ → Number
  pub parse : Text → Option Number
  pub print : Number → Text
  -- now - n > age
  pub older : ℕ → Number → ℕ → Bool

-- Number.MAX_SAFE_INTEGER + 1: below it, numbers are exact.
abbrev pub max_safe : ℕ
max_safe = 9_007_199_254_740_992

-- Documented behaviour: digests are hexadecimal, a whole number that is safe prints in decimal and reads
-- back, and differences of such numbers are exact.
pub record IsStandard (rt : Runtime) : Type 0 where
  pub hmac_digits : (key payload : Text) → Lacks b'.' (rt.hmac key payload)
  pub print_digits : (n : ℕ) → n < max_safe → Lacks b'.' (rt.print (rt.number n))
  pub parse-print : (n : ℕ) → n < max_safe → rt.parse (rt.print (rt.number n)) ≡ some (rt.number n)
  pub older_past :
      (now n age : ℕ)
      → now < max_safe
      → n < max_safe
      → age < max_safe
      → n + age < now
      → rt.older now (rt.number n) age ≡ true
  pub older_recent :
      (now n age : ℕ)
      → now < max_safe
      → n < max_safe
      → age < max_safe
      → now ≤ n + age
      → rt.older now (rt.number n) age ≡ false

module _ (rt : Runtime) where
  open rt use {session_secret, production, hmac, Number, number, parse, print, older}

  abbrev pub no_default : Option Text
  no_default = if production then none else some default_secret

  unfoldable pub secret : Option Text
  secret = elim session_secret [
    | none ↦ no_default
    | some [] ↦ no_default
    | some (c ∷ cs) ↦ if text_eq (c ∷ cs) default_secret then no_default else some (c ∷ cs)
  ]

  abbrev pub payload : Text → Number → Text
  payload address issued_at = address ++ b'.' ∷ print issued_at

  unfoldable pub sign_session : ℕ → Text → Option Text
  unfolding secret
  sign_session now address =
      let p = payload address (number now) in
      elim secret [ none ↦ none | some key ↦ some (p ++ b'.' ∷ hmac key p) ]

  -- The comparison of the digests. `timingSafeEqual` compares bytes, and its exception on different
  -- lengths is caught: it answers whether the texts are equal, since the digest is ASCII.
  unfoldable pub check_mac : Text → Number → Text → Option (Option Text)
  unfolding secret
  check_mac address issued_at sig = elim secret [
    | none ↦ none
    | some key ↦
        if text_eq sig (hmac key (payload address issued_at))
        then some (some address)
        else some none
  ]

  unfoldable pub check_parts : ℕ → List Text → Option (Option Text)
  unfolding check_mac
  check_parts now (address ∷ issued ∷ sig ∷ []) = elim (parse issued) [
    | none ↦ some none
    | some n ↦ if older now n session_max_age_ms then some none else check_mac address n sig
  ]
  check_parts now _ = some none

  unfoldable pub verify_session : ℕ → Option Text → Option (Option Text)
  unfolding check_parts split
  verify_session now none = some none
  verify_session now (some []) = some none
  verify_session now (some (c ∷ cs)) = check_parts now (split b'.' (c ∷ cs))
