-- ===== src/Users/Referral.antt =====
-- `applyReferral`: what it stores when it accepts, and when it refuses.
use fbyt.Base.{
  ◌⊎◌, ℕ, ◌+◌, ◌≡◌, ◌≢◌, refl, ap, ◌∙◌, Text, text_eq, text_eq_ne, text_eq_iff, Bool, true, false,
  none, some, arith, if◌then◌else◌, inl, inr, Bool-cases, Option-cases,
}
use fbyt.Json.{Doc, get, truthy, end, field, str}
use fbyt.Db.Sql.{Sql}
use fbyt.Db.Ops.{db_update}
use fbyt.Users.Ops.{
  applied, plus, get_user, get_or_create_user, apply_referral, credit, referrer_points,
  referee_points,
}
use fbyt.Users.Account.{
  User, user_doc, new_user, merge_referee, merge_referrer, get_referred, text_or_null,
}
use fbyt.Users.Store.{Holds, Finds, found, get_user-create, created_doc, get_user-update}

abbrev pub referred : User → Bool
referred u = truthy (some (text_or_null u.referred_by))

-- The two accounts after a referral.
abbrev pub as_referee : User → Text → User
as_referee u referrer = record u { points = u.points + referee_points; referred_by = some referrer }

abbrev pub as_referrer : User → User
as_referrer v = record v {
  points = v.points + referrer_points;
  referral_count = v.referral_count + 1;
}

blank_unreferred :
    (a : Text) (now : ℕ) → truthy (get (user_doc (new_user a now)) "referredBy") ≡ false
unfolding truthy
blank_unreferred a now = ap truthy (get_referred (new_user a now))

module _ (sql : Sql) where
  open sql use {Db}

  get_user-credit :
      (d : Db) (u v : User) (b : Text)
      → Holds sql d u
      → Holds sql d v
      → text_eq u.id v.id ≡ false
      → get_user sql (credit sql d u.id v.id (user_doc u) (user_doc v)) b ≡ (
          if text_eq v.id b
          then some (user_doc (as_referrer v))
          else if text_eq u.id b
          then some (user_doc (as_referee u v.id))
          else get_user sql d b)
  unfolding credit
  get_user-credit d u v b hu hv n =
      let first =
        field "referredBy" (str v.id)
          (field "points" (plus (get (user_doc u) "points") referee_points) end) in
      let second =
        field "points" (plus (get (user_doc v) "points") referrer_points)
          (field "referralCount" (plus (get (user_doc v) "referralCount") 1) end) in
      let d1 = (db_update sql d "users" u.id first).0 in
      ground (
        arith,
        get_user-update sql d1 v.id b second,
        get_user-update sql d u.id v.id first,
        get_user-update sql d u.id b first,
        merge_referee u v.id,
        merge_referrer v,
      )

  module _ (d : Db) (u v : User) (now : ℕ) (f : Finds sql d u now) where
    -- A referral is accepted if the two differ, the referee has none yet and the referrer is known.
    -- Then the referee has the referrer and 25 points more, the referrer has 50 points and one
    -- referral more, and nobody else changes.
    pub apply_referral_accepted :
        (b : Text)
        → u.id ≢ v.id
        → referred u ≡ false
        → Holds sql d v
        → ((apply_referral sql d u.id v.id now).1 ≡ applied)
          × (get_user sql (apply_referral sql d u.id v.id now).0 b ≡ (
              if text_eq v.id b
              then some (user_doc (as_referrer v))
              else if text_eq u.id b
              then some (user_doc (as_referee u v.id))
              else get_user sql d b))
    unfolding apply_referral
    apply_referral_accepted b n r h =
        let e = text_eq_ne u.id v.id n in
        let d1 = (get_or_create_user sql d u.id now).0 in
        let seen : get_user sql d1 v.id ≡ some (user_doc v) =
          get_user-create sql d u.id v.id now ∙ rw e h in
        rw (created_doc sql d u.id now ∙ f, get_referred u, seen, e, r)
          (
            refl,
            rw (created_doc sql d u.id now ∙ f) (
                get_user-credit d1 u v b (found sql d u now f) seen e
                ∙ ground (arith, get_user-create sql d u.id b now)),
          )

  -- What a first read leaves of the collection.
  created :
      (d : Db) (a : Text) (now : ℕ) (b : Text)
      → (get_user sql (get_or_create_user sql d a now).0 b ≡ get_user sql d b)
        ⊎ ((get_user sql d a ≡ none)
            × (get_user sql (get_or_create_user sql d a now).0 b
                ≡ (if text_eq a b then some (user_doc (new_user a now)) else get_user sql d b)))
  created d a now b = elim (Option-cases (get_user sql d a)) [
    | inl e ↦ inr (e, get_user-create sql d a b now ∙ rw e refl)
    | inr (v, e) ↦ inl (ground (arith, e, text_eq_iff a b, get_user-create sql d a b now))
  ]

  refused_at :
      (d : Db) (a c : Text) (now : ℕ) (b : Text)
      → (apply_referral sql d a c now).1 ≢ applied
      → (get_user sql (apply_referral sql d a c now).0 b ≡ get_user sql d b)
        ⊎ (get_user sql (apply_referral sql d a c now).0 b
            ≡ get_user sql (get_or_create_user sql d a now).0 b)
  unfolding apply_referral
  refused_at d a c now b h = ground arith

  refused_writes :
      (d : Db) (a c : Text) (now : ℕ) (b : Text)
      → (apply_referral sql d a c now).1 ≢ applied
      → (get_user sql (apply_referral sql d a c now).0 b ≡ get_user sql d b)
        ⊎ ((get_user sql d a ≡ none)
            × (get_user sql (apply_referral sql d a c now).0 b
                ≡ (if text_eq a b then some (user_doc (new_user a now)) else get_user sql d b)))
  refused_writes d a c now b h = elim (refused_at d a c now b h) [
    | inl e ↦ inl e
    | inr e ↦ elim (created d a now b) [ inl f ↦ inl (e ∙ f) | inr (n, f) ↦ inr (n, e ∙ f) ]
  ]

  refusal :
      (d : Db) (a c : Text) (now : ℕ)
      → (apply_referral sql d a c now).1 ≢ applied
      → (text_eq a c ≡ true)
        ⊎ (((v : Doc) × (get_user sql d a ≡ some v) × (truthy (get v "referredBy") ≡ true))
            ⊎ (get_user sql d c ≡ none))
  unfolding apply_referral
  refusal d a c now h = elim (Bool-cases (text_eq a c)) [
    | inl same ↦ inl same
    | inr other ↦ elim (Option-cases (get_user sql d c)) [
      | inl e ↦ inr (inr e)
      | inr (ref, e) ↦ elim (Option-cases (get_user sql d a)) [
        | inl n ↦ absurd (
            ground (
              arith,
              other,
              e,
              n,
              blank_unreferred a now,
              created_doc sql d a now,
              get_user-create sql d a c now,
            ))
        | inr (v, k) ↦ inr (
            inl (
              v,
              k,
              ground (arith, other, e, k, created_doc sql d a now, get_user-create sql d a c now),
            ))
      ]
    ]
  ]

  -- A referral is refused only if it names the account itself, the account is referred already, or nobody
  -- has the address it names. What is stored stays as it is, except that the account itself, if it was not
  -- stored, may be stored blank: with no points, no referrer and no text.
  pub apply_referral_refused :
      (d : Db) (a c : Text) (now : ℕ) (b : Text)
      → (apply_referral sql d a c now).1 ≢ applied
      → ((text_eq a c ≡ true)
          ⊎ (((v : Doc) × (get_user sql d a ≡ some v) × (truthy (get v "referredBy") ≡ true))
              ⊎ (get_user sql d c ≡ none)))
        × ((get_user sql (apply_referral sql d a c now).0 b ≡ get_user sql d b)
            ⊎ ((get_user sql d a ≡ none)
                × (get_user sql (apply_referral sql d a c now).0 b ≡ (
                    if text_eq a b then some (user_doc (new_user a now)) else get_user sql d b))))
  apply_referral_refused d a c now b h = (refusal d a c now h, refused_writes d a c now b h)
