-- ===== src/Auth/Replay.antt =====
-- A nonce that was consumed stays consumed, so a signed message signs in at most once.
use fbyt.Base.{
  ℕ, ◌≡◌, ◌≢◌, ◌∙◌, Text, text_eq_refl, text_eq_ne, Option, none, some, arith, Option-cases, inl,
  inr,
}
use fbyt.Json.{Doc, Json, null, obj, end, get, str}
use fbyt.Db.Ops.{db_get, id_of}
use fbyt.Db.Laws.{get-delete, get-put}
use fbyt.Guard.Request.{Request, per_minute}
use fbyt.Http.{Platform, Server, json, limited}
use fbyt.Http.Laws.{Keeps, Keeps-bind, limited-db}
use fbyt.Auth.Routes.{
  Crypto, SignedIn, issue_nonce, is_stale, issue_cookie, check_signature, consume_nonce, nonce_in,
  sign_in, verify_fields, verify_body, verify,
}
use fbyt.Auth.Laws.{IsGranted, verify-IsGranted}

-- The nonce is not stored.
abbrev pub IsGone : {pf : Platform} → Text → Server pf → Type 0
IsGone {pf} n s = db_get (Platform.sql pf) s.db "authNonces" n ≡ none

module _ {pf : Platform} (cr : Crypto) (n : Text) where
  signature-IsGone :
      (a : Json) (m : Crypto.Bytes cr) (g : Json) (now : ℕ)
      → Keeps {pf = pf} (IsGone n) (check_signature cr a m g now)
  unfolding check_signature issue_cookie
  signature-IsGone (str t) m g now = record { at = λ s h. ground arith }
  signature-IsGone _ m g now = record { at = λ s h. ground arith }

  consume-IsGone : (k : Text) (now : ℕ) → Keeps {pf = pf} (IsGone n) (consume_nonce cr k now)
  unfolding consume_nonce
  consume-IsGone k now = record {
    at = λ s h. ground (arith, get-delete (Platform.sql pf) s.db "authNonces" "authNonces" k n);
  }

  nonce-IsGone : (m : Crypto.Bytes cr) → Keeps {pf = pf} (IsGone n) (nonce_in cr m)
  unfolding nonce_in
  nonce-IsGone m = record { at = λ s h. ground arith }

  sign_in-IsGone : (a m g : Json) (now : ℕ) → Keeps {pf = pf} (IsGone n) (sign_in cr a m g now)
  unfolding sign_in
  sign_in-IsGone a m g now = record {
    at = λ s h. elim (Option-cases (cr.buffer m)) [
      | inl e ↦ rw (e, sign_in) h
      | inr (bytes, e) ↦
          rw (e, sign_in)
            ((Keeps-bind _ _ (nonce-IsGone bytes) (λ k.
                Keeps-bind _ _ (consume-IsGone k now) (λ _. signature-IsGone a bytes g now))).at
              s h)
    ];
  }

  fields-IsGone : (d : Doc) (now : ℕ) → Keeps {pf = pf} (IsGone n) (verify_fields cr d now)
  unfolding verify_fields
  fields-IsGone d now = record {
    at = λ s h. elim (Option-cases (get d "address")) [
      | inl e ↦ ground (arith, e)
      | inr (a, e) ↦ elim (Option-cases (get d "message")) [
        | inl f ↦ ground (arith, e, f)
        | inr (m, f) ↦ elim (Option-cases (get d "signature")) [
          | inl k ↦ ground (arith, e, f, k)
          | inr (g, k) ↦ ground (arith, e, f, k, (sign_in-IsGone a m g now).at s h)
        ]
      ]
    ];
  }

  body-IsGone :
      (body : Option Json) (now : ℕ) → Keeps {pf = pf} (IsGone n) (verify_body cr body now)
  unfolding verify_body
  body-IsGone none now = record { at = λ s h. h }
  body-IsGone (some null) now = record { at = λ s h. h }
  body-IsGone (some (obj d)) now = fields-IsGone d now
  body-IsGone (some _) now = fields-IsGone end now

  limited-IsGone :
      (req : Request) (now : ℕ) → Keeps {pf = pf} (IsGone n) (limited req now (per_minute 10))
  limited-IsGone req now = record { at = λ s h. rw (limited-db req now (per_minute 10) s) h }

  verify-IsGone :
      (req : Request) (body : Option Json) (now : ℕ)
      → Keeps {pf = pf} (IsGone n) (verify cr req body now)
  unfolding verify
  verify-IsGone req body now = Keeps-bind _ _ (limited-IsGone req now) (λ _. body-IsGone body now)

  issue-IsGone : (k : Text) (now : ℕ) → k ≢ n → Keeps {pf = pf} (IsGone n) (issue_nonce k now)
  unfolding issue_nonce id_of get
  issue-IsGone k now ne = record {
    at = λ s h.
        get-put (Platform.sql pf) s.db "authNonces" "authNonces" n _ ∙ rw (text_eq_ne k n ne) h;
  }

-- What the server does between two sign-ins: it issues other nonces, it handles sign-ins, and other
-- routes leave the stored nonces alone.
pub data Step (pf : Platform) (cr : Crypto) (n : Text) : Server pf → Server pf → Type 0 where
  issues :
      (k : Text) (now : ℕ) (s : Server pf)
      → k ≢ n
      → Step pf cr n s (issue_nonce {pf = pf} k now s).0
  attempts :
      (req : Request) (body : Option Json) (now : ℕ) (s : Server pf)
      → Step pf cr n s (verify {pf = pf} cr req body now s).0
  other :
      (s t : Server pf)
      → ((i : Text) → db_get pf.sql t.db "authNonces" i ≡ db_get pf.sql s.db "authNonces" i)
      → Step pf cr n s t

pub data Reach (pf : Platform) (cr : Crypto) (n : Text) (s : Server pf) : Server pf → Type 0 where
  here : Reach pf cr n s s
  after : {t u : Server pf} → Reach pf cr n s t → Step pf cr n t u → Reach pf cr n s u

module _ {pf : Platform} (cr : Crypto) (n : Text) where
  Step-IsGone : {s t : Server pf} → Step pf cr n s t → IsGone n s → IsGone n t
  Step-IsGone (issues k now s ne) h = (issue-IsGone {pf = pf} cr n k now ne).at s h
  Step-IsGone (attempts req body now s) h = (verify-IsGone cr n req body now).at s h
  Step-IsGone (other s t same) h = same n ∙ h

  Reach-IsGone : {s t : Server pf} → IsGone n s → Reach pf cr n s t → IsGone n t
  Reach-IsGone h here = h
  Reach-IsGone h (after r st) = Step-IsGone st (Reach-IsGone h r)

consumed_IsGone :
    {pf : Platform} (cr : Crypto) (now : ℕ) (s t : Server pf) (r : SignedIn)
    (g : IsGranted pf cr now s t r)
    → IsGone g.nonce t
consumed_IsGone {pf} cr now s t r g = rw g.consumed (
    get-delete (Platform.sql pf) s.db "authNonces" "authNonces" g.nonce g.nonce
    ∙ rw (text_eq_refl g.nonce))

not_fresh :
    {pf : Platform} (cr : Crypto) (now : ℕ) (s t : Server pf) (r : SignedIn)
    (g : IsGranted pf cr now s t r)
    → ¬ IsGone g.nonce s
unfolding is_stale
not_fresh cr now s t r g h = ground (arith, g.fresh, h)

-- After a sign-in was granted, and for as long as its nonce is not issued again, no sign-in is
-- granted for a message with that nonce: a captured message and signature are of no use.
pub no_replay :
    {pf : Platform} (cr : Crypto) (req req' : Request) (body body' : Option Json) (now later : ℕ)
    (s t : Server pf) (r r' : SignedIn) (first : (verify {pf = pf} cr req body now s).1 ≡ json r)
    → Reach pf cr
        (verify-IsGranted cr now req body s r first).nonce
        (verify {pf = pf} cr req body now s).0
        t
    → (again : (verify {pf = pf} cr req' body' later t).1 ≡ json r')
    → (verify-IsGranted cr later req' body' t r' again).nonce
      ≢ (verify-IsGranted cr now req body s r first).nonce
no_replay {pf} cr req req' body body' now later s t r r' first reach again same =
    let g = verify-IsGranted cr now req body s r first in
    let h = verify-IsGranted cr later req' body' t r' again in
    let gone = Reach-IsGone cr g.nonce (consumed_IsGone cr now s _ r g) reach in
    not_fresh cr later t _ r' h (rw same gone)
