-- ===== src/Session/Laws.antt =====
-- Who a cookie signs in, and for how long.
use fbyt.Base.{
  ℕ, ◌+◌, ◌<◌, ◌≡◌, refl, sym, ap, ◌∙◌, ◌≢◌, ◌⊎◌, inl, inr, Text, text_eq_iff, text_eq_refl, true,
  false, Option, none, some, List, [], ◌∷◌, ◌++◌, arith, split, if◌then◌else◌, ltb, Bool-cases,
  Option-cases,
}
use mathlib.Core.List.{append_assoc}
use fbyt.Base.Split.{Lacks, split-append, split_whole}
use fbyt.Session.Cookie.{
  Runtime, IsStandard, secret, sign_session, check_mac, check_parts, verify_session, payload,
  session_max_age_ms, max_safe, default_secret,
}

none_ne_some : (a : Text) → none ≢ some a
none_ne_some a e = cc

-- A joined text is not empty, so `verifySession` looks at its parts.
verify_nonempty :
    (rt : Runtime) (now : ℕ) (a r : Text)
    → verify_session rt now (some (a ++ b'.' ∷ r)) ≡ check_parts rt now (split b'.' (a ++ b'.' ∷ r))
unfolding verify_session
verify_nonempty rt now [] r = refl
verify_nonempty rt now (c ∷ cs) r = refl

module _ (rt : Runtime) (std : IsStandard rt) (address : Text) (plain : Lacks b'.' address) where
  open rt use {hmac, number, print}

  split_cookie :
      (now : ℕ) (key : Text)
      → now < max_safe
      → split b'.'
          (payload rt address (number now) ++ b'.' ∷ hmac key (payload rt address (number now)))
        ≡ address ∷ print (number now) ∷ hmac key (payload rt address (number now)) ∷ []
  split_cookie now key safe =
      let sig = hmac key (payload rt address (number now)) in
      rw (append_assoc address (b'.' ∷ print (number now)) (b'.' ∷ sig)) (
        split-append b'.' address (print (number now) ++ b'.' ∷ sig) plain
        ∙ ap (λ (r : List Text). address ∷ r)
            (split-append b'.' (print (number now)) sig (std.print_digits now safe)
              ∙ ap (λ (r : List Text). print (number now) ∷ r)
                  (split_whole b'.' sig (std.hmac_digits key _))))

  cookie_of_key :
      (now : ℕ) (cookie key : Text)
      → sign_session rt now address ≡ some cookie
      → secret rt ≡ some key
      → cookie
        ≡ payload rt address (number now) ++ b'.' ∷ hmac key (payload rt address (number now))
  unfolding sign_session
  cookie_of_key now cookie key e k = ground arith

  signed_key :
      (now : ℕ) (cookie : Text)
      → sign_session rt now address ≡ some cookie
      → (key : Text) × (secret rt ≡ some key)
  unfolding sign_session
  signed_key now cookie e = elim (Option-cases (secret rt)) [
    | inl n ↦ absurd (ground arith)
    | inr s ↦ s
  ]

  check_signed :
      (now later : ℕ) (key : Text)
      → now < max_safe
      → secret rt ≡ some key
      → check_parts rt later
          (address ∷ print (number now) ∷ hmac key (payload rt address (number now)) ∷ [])
        ≡ (if rt.older later (number now) session_max_age_ms
            then some none
            else some (some address))
  unfolding check_parts check_mac
  check_signed now later key safe k = ground (
    arith,
    std.parse-print now safe,
    k,
    text_eq_refl (hmac key (payload rt address (number now))),
  )

  -- A signed cookie is read back as its three parts.
  check_cookie :
      (now later : ℕ) (cookie key : Text)
      → now < max_safe
      → sign_session rt now address ≡ some cookie
      → secret rt ≡ some key
      → verify_session rt later (some cookie) ≡ (
          if rt.older later (number now) session_max_age_ms then some none else some (some address))
  check_cookie now later cookie key safe e k =
      let p = payload rt address (number now) in
      ap (λ c. verify_session rt later (some c)) (cookie_of_key now cookie key e k)
      ∙ verify_nonempty rt later p (hmac key p)
      ∙ ap (check_parts rt later) (split_cookie now key safe)
      ∙ check_signed now later key safe k

  -- With a standard runtime and times below 2^53 milliseconds, a cookie that was signed for an address
  -- without a dot signs that address in until it is older than seven days, and nobody from then on.
  pub verify-sign :
      (now later : ℕ) (cookie : Text)
      → now < max_safe
      → later < max_safe
      → sign_session rt now address ≡ some cookie
      → verify_session rt later (some cookie)
        ≡ (if ltb (now + session_max_age_ms) later then some none else some (some address))
  verify-sign now later cookie safe safe' e =
      let age : session_max_age_ms < max_safe = omega arith in
      let (key, k) = signed_key now cookie e in
      check_cookie now later cookie key safe e k
      ∙ elim (Bool-cases (ltb (now + session_max_age_ms) later)) [
        | inl old ↦
            rw (
              old,
              std.older_past later now session_max_age_ms safe' safe age (ground (arith, old)),
            )
        | inr new ↦ rw (
          new,
          std.older_recent later now session_max_age_ms safe' safe age (ground (arith, new)),
        )
      ]

-- What the three parts of a cookie need to sign an address in.
pub record IsAuthentic (rt : Runtime) (now : ℕ) (parts : List Text) (address : Text) : Type 0 where
  pub key : Text
  pub issued : Text
  pub time : Runtime.Number rt
  pub in_use : secret rt ≡ some key
  pub reads : rt.parse issued ≡ some time
  pub recent : rt.older now time session_max_age_ms ≡ false
  pub signed : parts ≡ address ∷ issued ∷ rt.hmac key (payload rt address time) ∷ []

module _ (rt : Runtime) (now : ℕ) where
  mac_IsAuthentic :
      (a issued sig who : Text) (n : Runtime.Number rt)
      → rt.parse issued ≡ some n
      → rt.older now n session_max_age_ms ≡ false
      → check_mac rt a n sig ≡ some (some who)
      → IsAuthentic rt now (a ∷ issued ∷ sig ∷ []) who
  unfolding check_mac
  mac_IsAuthentic a issued sig who n r o h = elim (Option-cases (secret rt)) [
    | inl e ↦ absurd (ground (arith, e))
    | inr (k, e) ↦ record {
      key = k;
      issued = issued;
      time = n;
      in_use = e;
      reads = r;
      recent = o;
      signed = ground (arith, e, text_eq_iff sig (rt.hmac k (payload rt a n)));
    }
  ]

  parts_IsAuthentic :
      (parts : List Text) (who : Text)
      → check_parts rt now parts ≡ some (some who)
      → IsAuthentic rt now parts who
  unfolding check_parts
  parts_IsAuthentic [] who h = cc
  parts_IsAuthentic (a ∷ []) who h = cc
  parts_IsAuthentic (a ∷ b ∷ []) who h = cc
  parts_IsAuthentic (a ∷ b ∷ c ∷ d ∷ r) who h = cc
  parts_IsAuthentic (a ∷ issued ∷ sig ∷ []) who h = elim (Option-cases (rt.parse issued)) [
    | inl e ↦ absurd (ground (arith, e))
    | inr (n, e) ↦ elim (Bool-cases (rt.older now n session_max_age_ms)) [
      | inl old ↦ absurd (ground (arith, e, old))
      | inr new ↦ mac_IsAuthentic a issued sig who n e new (ground (arith, e, new))
    ]
  ]

  -- A cookie signs in an address only if its three parts are that address, a time not older than
  -- seven days, and the digest of both under the secret in use.
  pub verify_session-IsAuthentic :
      (cookie who : Text)
      → verify_session rt now (some cookie) ≡ some (some who)
      → IsAuthentic rt now (split b'.' cookie) who
  unfolding verify_session
  verify_session-IsAuthentic [] who h = cc
  verify_session-IsAuthentic (c ∷ cs) who h = parts_IsAuthentic (split b'.' (c ∷ cs)) who h

-- The default is refused in production.
abbrev pub IsWeak : Option Text → Type 0
IsWeak s = (s ≡ none) ⊎ (s ≡ some []) ⊎ (s ≡ some default_secret)

no_secret : (rt : Runtime) → rt.production ≡ true → IsWeak rt.session_secret → secret rt ≡ none
unfolding secret
no_secret rt p (inl e) = ground (arith, e)
no_secret rt p (inr (inl e)) = ground (arith, e)
no_secret rt p (inr (inr e)) = ground (arith, e, text_eq_refl default_secret)

no_one :
    (rt : Runtime) (now : ℕ) (cookie : Option Text) (who : Text)
    → secret rt ≡ none
    → verify_session rt now cookie ≢ some (some who)
unfolding verify_session
no_one rt now none who n h = cc
no_one rt now (some c) who n h =
    let a = verify_session-IsAuthentic rt now c who h in none_ne_some a.key (sym n ∙ a.in_use)

-- In production, with the secret missing, empty or the default, no session is signed, and no cookie
-- signs anybody in.
pub no_session_without_secret :
    (rt : Runtime) (now : ℕ) (address : Text) (cookie : Option Text) (who : Text)
    → rt.production ≡ true
    → IsWeak rt.session_secret
    → (sign_session rt now address ≡ none) × (verify_session rt now cookie ≢ some (some who))
unfolding sign_session
no_session_without_secret rt now address cookie who p w =
    (rw (no_secret rt p w, sign_session), no_one rt now cookie who (no_secret rt p w))
