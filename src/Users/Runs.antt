-- ===== src/Users/Runs.antt =====
-- Runs of the calls of users.ts keep the accounts in order, and accept one referral of an account.
use fbyt.Base.{ℕ, ◌<◌, ◌≡◌, ◌≢◌, Text, List, [], ◌∷◌}
use fbyt.Db.Sql.{Sql}
use fbyt.Users.Ops.{ProfilePatch, applied, get_or_create_user, update_profile, apply_referral}
use fbyt.Users.Earned.{
  IsStored, create-IsStored, profile-IsStored, referral-IsStored, accepted-IsStored,
}
use fbyt.Users.Referrer.{
  HasReferrer, create-HasReferrer, profile-HasReferrer, refer-HasReferrer, HasReferrer-refused,
  accepted_referee,
}

-- The calls of users.ts, each with its time.
pub data Call : Type 0 where
  read : ℕ → Text → Call
  profile : ℕ → Text → ProfilePatch → Call
  refer : ℕ → Text → Text → Call

-- Time has passed 1970, and a referral names somebody.
abbrev pub IsProper : Call → Type 0
IsProper (read now a) = Unit
IsProper (profile now a patch) = 0 < now
IsProper (refer now a c) = c ≢ []

abbrev pub AllProper : List Call → Type 0
AllProper [] = Unit
AllProper (x ∷ xs) = IsProper x × AllProper xs

module _ (sql : Sql) where
  open sql use {Db}

  unfoldable pub step : Db → Call → Db
  step d (read now a) = (get_or_create_user sql d a now).0
  step d (profile now a patch) = (update_profile sql d a patch now).0
  step d (refer now a c) = (apply_referral sql d a c now).0

  unfoldable pub run : Db → List Call → Db
  run d [] = d
  run d (x ∷ xs) = run (step d x) xs

  step-IsStored : (d : Db) (x : Call) → IsProper x → IsStored sql d → IsStored sql (step d x)
  unfolding step
  step-IsStored d (read now a) h s = create-IsStored sql d a now s
  step-IsStored d (profile now a patch) h s = profile-IsStored sql d a patch now h s
  step-IsStored d (refer now a c) h s = referral-IsStored sql d a c now h s

  -- If every stored document is that of an account in order, and the calls have times after 1970 and
  -- referrals that name somebody, then after them every account's points are 100 for accepted terms, 25 for a referrer and 50 for
  -- each account referred, and no more; names and texts keep their limits.
  pub run-IsStored :
      (d : Db) (calls : List Call) → AllProper calls → IsStored sql d → IsStored sql (run d calls)
  unfolding run
  run-IsStored d [] h s = s
  run-IsStored d (x ∷ xs) h s = run-IsStored (step d x) xs h.1 (step-IsStored d x h.0 s)

  step-HasReferrer :
      (d : Db) (x : Call) (a c : Text)
      → c ≢ []
      → IsStored sql d
      → HasReferrer sql a c d
      → HasReferrer sql a c (step d x)
  unfolding step
  step-HasReferrer d (read now w) a c ne s h = create-HasReferrer sql d a c w now h
  step-HasReferrer d (profile now w patch) a c ne s h =
      profile-HasReferrer sql d a c w patch now s h
  step-HasReferrer d (refer now w y) a c ne s h = refer-HasReferrer sql d a c w y now ne s h

  run-HasReferrer :
      (d : Db) (calls : List Call) (a c : Text)
      → c ≢ []
      → AllProper calls
      → IsStored sql d
      → HasReferrer sql a c d
      → HasReferrer sql a c (run d calls)
  unfolding run
  run-HasReferrer d [] a c ne p s h = h
  run-HasReferrer d (x ∷ xs) a c ne p s h =
      run-HasReferrer (step d x) xs a c ne p.1 (step-IsStored d x p.0 s)
        (step-HasReferrer d x a c ne s h)

  -- Where the stored accounts are in order and the referral names somebody: once it is accepted, whatever
  -- calls are made after it, with times after 1970 and referrals that name somebody, no further referral
  -- of the same account is accepted.
  pub refer_once :
      (d : Db) (a c x : Text) (now later : ℕ) (calls : List Call)
      → c ≢ []
      → IsStored sql d
      → AllProper calls
      → (apply_referral sql d a c now).1 ≡ applied
      → (apply_referral sql (run (apply_referral sql d a c now).0 calls) a x later).1 ≢ applied
  refer_once d a c x now later calls ne s p h =
      HasReferrer-refused sql (run (apply_referral sql d a c now).0 calls) a c x later ne (
        run-HasReferrer (apply_referral sql d a c now).0 calls a c ne p
          (accepted-IsStored sql d a c now ne s h) (accepted_referee sql d a c now s h))
