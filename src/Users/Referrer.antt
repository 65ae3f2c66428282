-- ===== src/Users/Referrer.antt =====
-- An account that has a referrer keeps it, and is not referred again.
use mathlib.Core.Option
use fbyt.Base.{
  ℕ, ◌≡◌, ◌≢◌, refl, sym, ap, ◌∙◌, subst, Text, text_eq, text_eq_refl, text_eq_ne, text_eq_iff,
  false, some, [], ◌∷◌, arith, if◌then◌else◌, inl, inr, Bool-cases,
}
use fbyt.Json.{Doc, get, str, truthy}
use fbyt.Db.Sql.{Sql}
use fbyt.Users.Ops.{
  ProfilePatch, applied, get_user, get_or_create_user, update_profile, apply_referral,
}
use fbyt.Users.Account.{User, user_doc, new_user, profiled, get_referred}
use fbyt.Users.Store.{Holds, Finds, get_user-create, get_user-profile, created_doc}
use fbyt.Users.Referral.{
  referred, as_referee, as_referrer, apply_referral_accepted, apply_referral_refused,
}
use fbyt.Users.Earned.{IsStored, accepted_accounts, account_of, applied_needs, Referral-cases}

truthy_text : (c : Text) → truthy (some (str c)) ≡ false → c ≡ []
unfolding truthy
truthy_text [] e = refl
truthy_text (x ∷ xs) e = cc

unreferred :
    (u : User) (c : Text)
    → c ≢ []
    → referred u ≡ false
    → get (user_doc u) "referredBy" ≢ some (str c)
unreferred u c ne r e = ne (truthy_text c (sym (ap truthy e) ∙ ap truthy (get_referred u) ∙ r))

profiled_referred :
    (u : User) (patch : ProfilePatch) (now : ℕ) → (profiled u patch now).referred_by ≡ u.referred_by
unfolding profiled
profiled_referred u patch now = ground arith

same_doc :
    (sql : Sql) (d : Sql.Db sql) (z : User) (a : Text) (v : Doc)
    → Holds sql d z
    → z.id ≡ a
    → get_user sql d a ≡ some v
    → user_doc z ≡ v
same_doc sql d z a v h t e = ground (arith, h, t, e)

module _ (sql : Sql) where
  open sql use {Db}

  -- The account has a referrer.
  abbrev pub HasReferrer : Text → Text → Db → Type 0
  HasReferrer a c d = (v : Doc) × (get_user sql d a ≡ some v) × (get v "referredBy" ≡ some (str c))

  -- One account is written, and if it is this one, its referrer stays.
  write-HasReferrer :
      (d d' : Db) (a c w : Text) (new : Doc)
      → get_user sql d' a ≡ (if text_eq w a then some new else get_user sql d a)
      → ((v : Doc) → w ≡ a → get_user sql d a ≡ some v → get new "referredBy" ≡ get v "referredBy")
      → HasReferrer a c d
      → HasReferrer a c d'
  write-HasReferrer d d' a c w new g k (v, e, r) = elim (Bool-cases (text_eq w a)) [
    | inl t ↦ (new, (ground (arith, g, t)), k v ((text_eq_iff w a).0 t) e ∙ r)
    | inr f ↦ (v, (ground (arith, g, f, e)), r)
  ]

  pub create-HasReferrer :
      (d : Db) (a c w : Text) (now : ℕ)
      → HasReferrer a c d
      → HasReferrer a c (get_or_create_user sql d w now).0
  create-HasReferrer d a c w now h =
      write-HasReferrer d _ a c w (Option.get_or (get_user sql d w) (user_doc (new_user w now)))
        (get_user-create sql d w a now) (λ v t e. rw (t, e) refl) h

  found_same :
      (d : Db) (u : User) (now : ℕ) (a : Text) (v : Doc)
      → Finds sql d u now
      → u.id ≡ a
      → get_user sql d a ≡ some v
      → v ≡ user_doc u
  found_same d u now a v f t e = ground (arith, f, t, e)

  pub profile-HasReferrer :
      (d : Db) (a c w : Text) (patch : ProfilePatch) (now : ℕ)
      → IsStored sql d
      → HasReferrer a c d
      → HasReferrer a c (update_profile sql d w patch now).0
  profile-HasReferrer d a c w patch now s h =
      let (u, q, f, _) = account_of sql d w now s in
      subst (λ (x : Text). HasReferrer a c (update_profile sql d x patch now).0) q
        (write-HasReferrer d _ a c u.id (user_doc (profiled u patch now))
          (get_user-profile sql d u patch now a f)
          (λ v t e.
            get_referred (profiled u patch now)
            ∙ rw (found_same d u now a v f t e, profiled_referred u patch now)
                (sym (get_referred u)))
          h)

  accepted-HasReferrer :
      (d : Db) (a c w y : Text) (now : ℕ)
      → c ≢ []
      → IsStored sql d
      → (apply_referral sql d w y now).1 ≡ applied
      → HasReferrer a c d
      → HasReferrer a c (apply_referral sql d w y now).0
  accepted-HasReferrer d a c w y now ne s h (v, e, r) =
      let (u, z, q, q', f, hz, n, ru, _, _) = accepted_accounts sql d w y now s h in
      let both = (apply_referral_accepted sql d u z now f a n ru hz).1 in
      subst (λ (x : Text). HasReferrer a c (apply_referral sql d x y now).0) q
        (subst (λ (x : Text). HasReferrer a c (apply_referral sql d u.id x now).0) q'
          (elim (Bool-cases (text_eq z.id a)) [
            | inl t ↦ (
              user_doc (as_referrer z),
              ground (arith, both, t),
              get_referred (as_referrer z)
                  ∙ sym (get_referred z)
                  ∙ (rw (same_doc sql d z a v hz ((text_eq_iff z.id a).0 t) e) r),
            )
            | inr t ↦ elim (Bool-cases (text_eq u.id a)) [
              | inl t' ↦ absurd (
                  unreferred u c ne ru
                    (rw (← found_same d u now a v f ((text_eq_iff u.id a).0 t') e) r))
              | inr t' ↦ (v, ground (arith, both, t, t', e), r)
            ]
          ]))

  pub refer-HasReferrer :
      (d : Db) (a c w y : Text) (now : ℕ)
      → c ≢ []
      → IsStored sql d
      → HasReferrer a c d
      → HasReferrer a c (apply_referral sql d w y now).0
  refer-HasReferrer d a c w y now ne s (v, e, r) =
      elim (Referral-cases sql (apply_referral sql d w y now).1) [
        | inl h ↦ accepted-HasReferrer d a c w y now ne s h (v, e, r)
        | inr n ↦ elim ((apply_referral_refused sql d w y now a n).1) [
          | inl p ↦ (v, p ∙ e, r)
          | inr (nobody, p) ↦
              write-HasReferrer d _ a c w (user_doc (new_user w now)) p
                (λ x t g. absurd (ground (arith, nobody, t, g))) (v, e, r)
        ]
      ]

  pub HasReferrer-refused :
      (d : Db) (a c x : Text) (now : ℕ)
      → c ≢ []
      → HasReferrer a c d
      → (apply_referral sql d a x now).1 ≢ applied
  HasReferrer-refused d a c x now ne (v, e, r) h =
      let (_, _, t, _) = applied_needs sql d a x now h in
      ne (truthy_text c (ground (arith, t, r, e, created_doc sql d a now)))

  pub accepted_referee :
      (d : Db) (a c : Text) (now : ℕ)
      → IsStored sql d
      → (apply_referral sql d a c now).1 ≡ applied
      → HasReferrer a c (apply_referral sql d a c now).0
  accepted_referee d a c now s h =
      let (u, v, q, q', f, hv, n, r, _, _) = accepted_accounts sql d a c now s h in
      let old = (apply_referral_accepted sql d u v now f u.id n r hv).1 in
      subst (λ (x : Text). HasReferrer x c (apply_referral sql d x c now).0) q
        (subst (λ (y : Text). HasReferrer u.id y (apply_referral sql d u.id y now).0) q'
          (
            user_doc (as_referee u v.id),
            old ∙ rw (text_eq_ne v.id u.id (λ e. n (sym e)), text_eq_refl u.id) refl,
            get_referred (as_referee u v.id),
          ))
