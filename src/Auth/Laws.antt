-- ===== src/Auth/Laws.antt =====
-- What a sign-in needs, what it gives, and that its message cannot be used again.
use fbyt.Base.{
  ◌⊎◌, ℕ, ◌≡◌, refl, ap, ◌∙◌, Text, Bool, true, false, ◌&&◌, Option, none, some, arith,
  Option-cases, Bool-cases, inl, inr,
}
use fbyt.Json.{Doc, Json, null, str, obj, end, get, truthy}
use fbyt.Db.Sql.{Sql}
use fbyt.Db.Ops.{db_get, db_delete}
use fbyt.Guard.Request.{Request, per_minute}
use fbyt.Session.Cookie.{sign_session}
use fbyt.Auth.Message.{nonce_of}
use fbyt.Auth.Routes.{
  Crypto, SignedIn, is_stale, issue_cookie, check_signature, consume_nonce, nonce_in, sign_in,
  verify_fields, verify_body, verify,
}
use fbyt.Http.Laws.{>>=-json, limited-db}
use fbyt.Http.{Platform, Server, Handler, json, limited, ◌>>=◌, ◌>>◌}

-- What an accepted sign-in rests on.
pub record IsGranted (pf : Platform) (cr : Crypto) (now : ℕ) (s t : Server pf) (r : SignedIn)
    : Type 0 where
  pub message : Crypto.Bytes cr
  pub signature : Crypto.Bytes cr
  pub nonce : Text
  pub names : nonce_of (cr.utf8 message) ≡ some nonce
  pub fresh : is_stale (db_get pf.sql s.db "authNonces" nonce) now ≡ false
  pub signed : cr.ed25519 (str r.address) message signature ≡ some true
  pub cookie : sign_session pf.runtime now r.address ≡ some r.cookie
  pub consumed : t.db ≡ db_delete pf.sql s.db "authNonces" nonce

Answer-cases : (o : Option Bool) → (o ≡ some true) ⊎ (o ≡ some false) ⊎ (o ≡ none)
Answer-cases (some true) = inl refl
Answer-cases (some false) = inr (inl refl)
Answer-cases none = inr (inr refl)

module _ {pf : Platform} (cr : Crypto) (now : ℕ) where
  cookie-json :
      (a : Json) (s : Server pf) (r : SignedIn)
      → (issue_cookie {pf = pf} cr a now s).1 ≡ json r
      → (a ≡ str r.address)
        × (sign_session (Platform.runtime pf) now r.address ≡ some r.cookie)
        × ((issue_cookie {pf = pf} cr a now s).0 ≡ s)
  unfolding issue_cookie
  cookie-json (str t) s r h = elim (Option-cases (sign_session (Platform.runtime pf) now t)) [
    | inl e ↦ absurd (ground (arith, e))
    | inr (c, e) ↦ (ground (arith, e), ground (arith, e), ground (arith, e))
  ]
  cookie-json null s r h = cc
  cookie-json _ s r h = cc

  signature-json :
      (a : Json) (m : Crypto.Bytes cr) (g : Json) (s : Server pf) (r : SignedIn)
      → (check_signature {pf = pf} cr a m g now s).1 ≡ json r
      → (sig : Crypto.Bytes cr) × (cr.ed25519 (str r.address) m sig ≡ some true)
        × (sign_session (Platform.runtime pf) now r.address ≡ some r.cookie)
        × ((check_signature {pf = pf} cr a m g now s).0 ≡ s)
  unfolding check_signature
  signature-json a m g s r h = elim (Option-cases (cr.buffer g)) [
    | inl e ↦ absurd (ground (arith, e))
    | inr (sig, e) ↦ elim (Answer-cases (cr.ed25519 a m sig)) [
      | inl y ↦
          let (p, c, q) = cookie-json a s r (ground (arith, e, y)) in
          (sig, ground (arith, y, p), c, ground (arith, e, y, q))
      | inr (inl n) ↦ absurd (ground (arith, e, n))
      | inr (inr n) ↦ absurd (ground (arith, e, n))
    ]
  ]

  nonce-json :
      (m : Crypto.Bytes cr) (s : Server pf) (n : Text)
      → (nonce_in {pf = pf} cr m s).1 ≡ json n
      → (nonce_of (cr.utf8 m) ≡ some n) × ((nonce_in {pf = pf} cr m s).0 ≡ s)
  unfolding nonce_in
  nonce-json m s n h = ground arith

  consume-json :
      (n : Text) (s : Server pf) (u : Unit {0})
      → (consume_nonce {pf = pf} cr n now s).1 ≡ json u
      → (is_stale (db_get (Platform.sql pf) s.db "authNonces" n) now ≡ false)
        × ((consume_nonce {pf = pf} cr n now s).0
            ≡ record s { db = db_delete (Platform.sql pf) s.db "authNonces" n })
  unfolding consume_nonce
  consume-json n s u h = ground arith

  sign_in-json :
      (a m g : Json) (s : Server pf) (r : SignedIn)
      → (sign_in {pf = pf} cr a m g now s).1 ≡ json r
      → IsGranted pf cr now s (sign_in {pf = pf} cr a m g now s).0 r
  unfolding sign_in
  sign_in-json a m g s r h = elim (Option-cases (cr.buffer m)) [
    | inl e ↦ absurd (ground (arith, e))
    | inr (bytes, e) ↦ rw (e, sign_in) (chain-json bytes (ground (arith, e)))
  ]
    where
      chain : Crypto.Bytes cr → Handler pf SignedIn
      chain bytes = do
        nonce ← nonce_in cr bytes
        consume_nonce cr nonce now
        check_signature cr a bytes g now

      chain-json :
          (bytes : Crypto.Bytes cr)
          → (chain bytes s).1 ≡ json r
          → IsGranted pf cr now s (chain bytes s).0 r
      chain-json bytes h =
          let (n, p, q, z) =
            >>=-json (nonce_in cr bytes)
              (λ nonce. consume_nonce cr nonce now >> check_signature cr a bytes g now) s r h in
          let (names, s1) = nonce-json bytes s n p in
          let (u, p', q', z') =
            >>=-json (consume_nonce cr n now) (λ _. check_signature cr a bytes g now)
              (nonce_in {pf = pf} cr bytes s).0 r q in
          let (fresh, s2) = consume-json n (nonce_in {pf = pf} cr bytes s).0 u p' in
          let (sig, good, cookie, s3) = signature-json a bytes g _ r q' in
          record {
            message = bytes;
            signature = sig;
            nonce = n;
            names = names;
            fresh = rw s1 at fresh;
            signed = good;
            cookie = cookie;
            consumed =
                ap (λ (t : Server pf). t.db) (z ∙ z' ∙ s3 ∙ s2)
                ∙ ap (λ (t : Server pf). db_delete (Platform.sql pf) t.db "authNonces" n) s1;
          }

  fields-json :
      (d : Doc) (s : Server pf) (r : SignedIn)
      → (verify_fields {pf = pf} cr d now s).1 ≡ json r
      → IsGranted pf cr now s (verify_fields {pf = pf} cr d now s).0 r
  unfolding verify_fields
  fields-json d s r h = elim (Option-cases (get d "address")) [
    | inl e ↦ absurd (ground (arith, e))
    | inr (a, e) ↦ elim (Option-cases (get d "message")) [
      | inl f ↦ absurd (ground (arith, e, f))
      | inr (m, f) ↦ elim (Option-cases (get d "signature")) [
        | inl k ↦ absurd (ground (arith, e, f, k))
        | inr (g, k) ↦ elim (Bool-cases (truthy (some a) && truthy (some m) && truthy (some g))) [
          | inl y ↦
              rw (e, verify_fields, f, k, y) (sign_in-json a m g s r (ground (arith, e, f, k, y)))
          | inr n ↦ absurd (ground (arith, e, f, k, n))
        ]
      ]
    ]
  ]

  body-json :
      (body : Option Json) (s : Server pf) (r : SignedIn)
      → (verify_body {pf = pf} cr body now s).1 ≡ json r
      → IsGranted pf cr now s (verify_body {pf = pf} cr body now s).0 r
  unfolding verify_body
  body-json none s r h = cc
  body-json (some null) s r h = cc
  body-json (some (obj d)) s r h = fields-json d s r h
  body-json (some _) s r h = fields-json end s r h

  -- A sign-in is granted only for a message that names a nonce which is stored and not past its
  -- time, with a signature of the message by that address. The nonce is then gone, nothing else of
  -- the datastore has changed, and the cookie is a session of the address.
  pub verify-IsGranted :
      (req : Request) (body : Option Json) (s : Server pf) (r : SignedIn)
      → (verify {pf = pf} cr req body now s).1 ≡ json r
      → IsGranted pf cr now s (verify {pf = pf} cr req body now s).0 r
  unfolding verify
  verify-IsGranted req body s r h =
      let (u, p, q, z) =
        >>=-json (limited req now (per_minute 10)) (λ _. verify_body cr body now) s r h in
      let g = body-json body (limited {pf = pf} req now (per_minute 10) s).0 r q in
      let same = limited-db req now (per_minute 10) s in
      record {
        message = g.message;
        signature = g.signature;
        nonce = g.nonce;
        names = g.names;
        fresh = rw same at g.fresh;
        signed = g.signed;
        cookie = g.cookie;
        consumed =
            ap (λ (t : Server pf). t.db) z
            ∙ g.consumed
            ∙ ap
                (λ (x : Sql.Db (Platform.sql pf)).
                  db_delete (Platform.sql pf) x "authNonces" g.nonce)
                same;
      }
