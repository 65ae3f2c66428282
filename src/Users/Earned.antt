-- ===== src/Users/Earned.antt =====
-- Points are never given for anything but accepted terms and referrals, whatever calls are made.
use fbyt.Base.{
  ◌⊎◌, ℕ, ◌+◌, ◌*◌, ◌≤◌, ◌<◌, ◌≡◌, ◌≢◌, refl, sym, ap, ◌∙◌, subst, Text, text_eq, text_eq_iff, true,
  false, Option, none, some, [], ◌∷◌, arith, if◌then◌else◌, Bool-cases, Option-cases, inl, inr,
  length, length-take,
}
use fbyt.Json.{Doc, Json, get, truthy, str}
use fbyt.Db.Sql.{Sql}
use fbyt.Users.Ops.{
  ProfilePatch, Referral, applied, refused, get_user, get_or_create_user, update_profile,
  apply_referral,
}
use fbyt.Users.Account.{
  User, user_doc, new_user, profiled, accepted, accepts, shown, get_referred, time_or_null,
}
use fbyt.Users.Store.{Holds, Finds, get_user-create, get_user-profile, created_doc}
use fbyt.Users.Referral.{
  referred, as_referee, as_referrer, apply_referral_accepted, apply_referral_refused,
}

-- 100 points for accepted terms, 25 for a referrer, 50 for each account referred; the name and the
-- text about oneself keep their limits.
pub record IsEarned (u : User) : Type 0 where
  pub points :
      u.points
      ≡ (if accepted u then 100 else 0) + (if referred u then 25 else 0) + 50 * u.referral_count
  pub display_name : length u.display_name ≤ 40
  pub bio : length u.bio ≤ 280

new_user-IsEarned : (a : Text) (now : ℕ) → IsEarned (new_user a now)
unfolding truthy
new_user-IsEarned a now = omega arith

length-shown : (o : Option Json) (old : Text) (n : ℕ) → length old ≤ n → length (shown o old n) ≤ n
length-shown (some (str t)) old n h = omega (arith, length-take n t)
length-shown none old n h = h
length-shown (some _) old n h = h

truthy_time : (now : ℕ) → 0 < now → truthy (some (time_or_null (some now))) ≡ true
unfolding truthy
truthy_time now h = ground arith

profiled-IsEarned :
    (u : User) (patch : ProfilePatch) (now : ℕ)
    → 0 < now
    → IsEarned u
    → IsEarned (profiled u patch now)
unfolding profiled
profiled-IsEarned u patch now h e =
    let n = length-shown patch.display_name u.display_name 40 e.display_name in
    let b = length-shown patch.bio u.bio 280 e.bio in
    elim (Bool-cases (accepts u patch)) [
      | inl y ↦ rw y (record {
        points = ground (arith, e.points, truthy_time now h, Bool-cases (accepted u));
        display_name = n;
        bio = b;
      })
      | inr y ↦ rw y (record { points = e.points; display_name = n; bio = b })
    ]

as_referee-IsEarned :
    (u : User) (c : Text) → c ≢ [] → referred u ≡ false → IsEarned u → IsEarned (as_referee u c)
unfolding truthy
as_referee-IsEarned u [] n r e = absurd (n refl)
as_referee-IsEarned u (x ∷ xs) n r e = record {
  points = ground (arith, e.points);
  display_name = e.display_name;
  bio = e.bio;
}

as_referrer-IsEarned : (v : User) → IsEarned v → IsEarned (as_referrer v)
as_referrer-IsEarned v e = record {
  points = omega (arith, e.points);
  display_name = e.display_name;
  bio = e.bio;
}

profiled_id : (u : User) (patch : ProfilePatch) (now : ℕ) → (profiled u patch now).id ≡ u.id
unfolding profiled
profiled_id u patch now = ground arith

module _ (sql : Sql) where
  open sql use {Db}

  -- Every document of the collection is that of an account under its own address, with its points
  -- earned.
  abbrev pub IsStored : Db → Type 0
  IsStored d =
      (b : Text) (v : Doc)
      → get_user sql d b ≡ some v
      → (u : User) × (v ≡ user_doc u) × (u.id ≡ b) × IsEarned u

  pub account_of :
      (d : Db) (a : Text) (now : ℕ)
      → IsStored d
      → (u : User) × (u.id ≡ a) × Finds sql d u now × IsEarned u
  account_of d a now s = elim (Option-cases (get_user sql d a)) [
    | inl e ↦ (new_user a now, refl, rw e, new_user-IsEarned a now)
    | inr (v, e) ↦ let (u, p, q, r) = s a v e in (u, q, (ground (arith, e, p, q)), r)
  ]

  -- One account is written, and it is in order.
  write_one :
      (d d' : Db) (u : User) (w : Text)
      → u.id ≡ w
      → IsEarned u
      → ((b : Text)
          → get_user sql d' b ≡ (if text_eq w b then some (user_doc u) else get_user sql d b))
      → IsStored d
      → IsStored d'
  write_one d d' u w q r g s b v e = elim (Bool-cases (text_eq w b)) [
    | inl t ↦ (u, ground (arith, t, g b, e), ground (arith, text_eq_iff w b, t, q), r)
    | inr f ↦ s b v (ground (arith, f, g b, e))
  ]

  pub create-IsStored :
      (d : Db) (a : Text) (now : ℕ) → IsStored d → IsStored (get_or_create_user sql d a now).0
  create-IsStored d a now s =
      let (u, q, f, r) = account_of d a now s in
      subst (λ (x : Text). IsStored (get_or_create_user sql d x now).0) q
        (write_one d _ u u.id refl r (λ b. get_user-create sql d u.id b now ∙ rw f) s)

  pub profile-IsStored :
      (d : Db) (a : Text) (patch : ProfilePatch) (now : ℕ)
      → 0 < now
      → IsStored d
      → IsStored (update_profile sql d a patch now).0
  profile-IsStored d a patch now h s =
      let (u, q, f, r) = account_of d a now s in
      subst (λ (x : Text). IsStored (update_profile sql d x patch now).0) q
        (write_one d _ (profiled u patch now) u.id (profiled_id u patch now)
          (profiled-IsEarned u patch now h r) (λ b. get_user-profile sql d u patch now b f) s)

  pub applied_needs :
      (d : Db) (a c : Text) (now : ℕ)
      → (apply_referral sql d a c now).1 ≡ applied
      → (ref : Doc) × (text_eq a c ≡ false)
        × (truthy (get (get_or_create_user sql d a now).1 "referredBy") ≡ false)
        × (get_user sql (get_or_create_user sql d a now).0 c ≡ some ref)
  unfolding apply_referral
  applied_needs d a c now h =
      elim (Option-cases (get_user sql (get_or_create_user sql d a now).0 c)) [
        | inl e ↦ absurd (ground (arith, e))
        | inr (ref, e) ↦ (ref, ground (arith, e), ground (arith, e), e)
      ]

  created_at_address :
      (d : Db) (a : Text) (now : ℕ) (u : User)
      → u.id ≡ a
      → Finds sql d u now
      → (get_or_create_user sql d a now).1 ≡ user_doc u
  created_at_address d a now u q f =
      subst (λ (x : Text). (get_or_create_user sql d x now).1 ≡ user_doc u) q
        (created_doc sql d u.id now ∙ f)

  accepted_at :
      (d : Db) (u v : User) (now : ℕ)
      → Finds sql d u now
      → Holds sql d v
      → u.id ≢ v.id
      → referred u ≡ false
      → IsEarned u
      → IsEarned v
      → v.id ≢ []
      → IsStored d
      → IsStored (apply_referral sql d u.id v.id now).0
  accepted_at d u v now f hv n r ru rv ne s b w e =
      let both = (apply_referral_accepted sql d u v now f b n r hv).1 in
      elim (Bool-cases (text_eq v.id b)) [
        | inl t ↦ (
          as_referrer v,
          ground (arith, both, e, t),
          (text_eq_iff v.id b).0 t,
          as_referrer-IsEarned v rv,
        )
        | inr t ↦ elim (Bool-cases (text_eq u.id b)) [
          | inl t' ↦ (
            as_referee u v.id,
            ground (arith, both, e, t, t'),
            (text_eq_iff u.id b).0 t',
            as_referee-IsEarned u v.id ne r ru,
          )
          | inr t' ↦ s b w (ground (arith, both, e, t, t'))
        ]
      ]

  -- The two accounts of a referral that is accepted.
  pub accepted_accounts :
      (d : Db) (a c : Text) (now : ℕ)
      → IsStored d
      → (apply_referral sql d a c now).1 ≡ applied
      → (u : User) × (v : User) × (u.id ≡ a)
        × (v.id ≡ c)
        × Finds sql d u now
        × Holds sql d v
        × (u.id ≢ v.id)
        × (referred u ≡ false)
        × IsEarned u
        × IsEarned v
  accepted_accounts d a c now s h =
      let (ref, n, t, e) = applied_needs d a c now h in
      let (u, q, f, r) = account_of d a now s in
      let e' : get_user sql d c ≡ some ref = ground (arith, e, n, get_user-create sql d a c now) in
      let (v, p, q', r') = s c ref e' in
      (
        u,
        v,
        q,
        q',
        f,
        ground (arith, e', p, q'),
        λ x. ground (arith, n, text_eq_iff a c, x, q, q'),
        sym (ap truthy (get_referred u))
            ∙ sym (ap (λ (w : Doc). truthy (get w "referredBy")) (created_at_address d a now u q f))
            ∙ t,
        r,
        r',
      )

  pub accepted-IsStored :
      (d : Db) (a c : Text) (now : ℕ)
      → c ≢ []
      → IsStored d
      → (apply_referral sql d a c now).1 ≡ applied
      → IsStored (apply_referral sql d a c now).0
  accepted-IsStored d a c now ne s h =
      let (u, v, q, q', f, hv, n, r, ru, rv) = accepted_accounts d a c now s h in
      subst (λ (x : Text). IsStored (apply_referral sql d x c now).0) q
        (subst (λ (y : Text). IsStored (apply_referral sql d u.id y now).0) q'
          (accepted_at d u v now f hv n r ru rv (λ x. ne (sym q' ∙ x)) s))

  pub Referral-cases : (r : Referral) → (r ≡ applied) ⊎ (r ≢ applied)
  Referral-cases applied = inl refl
  Referral-cases (refused m) = inr (λ e. cc)

  pub referral-IsStored :
      (d : Db) (a c : Text) (now : ℕ)
      → c ≢ []
      → IsStored d
      → IsStored (apply_referral sql d a c now).0
  referral-IsStored d a c now ne s = elim (Referral-cases (apply_referral sql d a c now).1) [
    | inl y ↦ accepted-IsStored d a c now ne s y
    | inr n ↦ λ b v e. elim ((apply_referral_refused sql d a c now b n).1) [
      | inl p ↦ s b v (sym p ∙ e)
      | inr (none_at, p) ↦
          create-IsStored d a now s b v (get_user-create sql d a b now ∙ rw none_at (sym p ∙ e))
    ]
  ]
