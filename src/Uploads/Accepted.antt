-- ===== src/Uploads/Accepted.antt =====
-- Which uploads app/src/app/api/uploads/route.ts accepts.
use fbyt.Base.{
  ℕ, ◌≡◌, ◌≢◌, ◌≤◌, ◌∙◌, refl, ap, sym, inl, inr, arith, Text, text_eq, text_eq_iff, Bool, true,
  false, ◌||◌, codes, Option, some, none, List, [], ◌∷◌, length, Bool-cases, subst,
}
use fbyt.Base.Sets.{has}
use fbyt.Json.{Json, null, str, get}
use fbyt.Guard.Request.{Request, per_minute}
use fbyt.Http.{
  Platform, Server, Handler, json, limited, signed_in, current_user, body_fields, ◌>>=◌,
}
use fbyt.Http.Laws.{
  >>=-json, >>=-run, limited-db, signed_in-db, signed_in-json, signed_in-run, signed_in-nonempty,
}
use fbyt.Uploads.DataUrl.{parse_data_url, mem_text, inherited, finds_extension}
use fbyt.Uploads.Routes.{max_bytes, Upload, url_field, match_url, check_image, accept_upload}

-- The four types of images, and the names that every plain object inherits.
pub data IsAcceptedType : Text → Type 0 where
  png : IsAcceptedType (codes "image/png")
  jpeg : IsAcceptedType (codes "image/jpeg")
  webp : IsAcceptedType (codes "image/webp")
  gif : IsAcceptedType (codes "image/gif")
  member : (name : Text) → has inherited name ≡ true → IsAcceptedType name

mem_text-has : (t : Text) (us : List Text) → mem_text t us ≡ has us t
unfolding mem_text has
mem_text-has t [] = refl
mem_text-has t (u ∷ us) = ground (arith, mem_text-has t us, text_eq_iff t u, text_eq_iff u t)

type_cases :
    (m : Text)
    → finds_extension m ≡ (
        text_eq m (codes "image/png")
        || (text_eq m (codes "image/jpeg")
            || (text_eq m (codes "image/webp")
                || (text_eq m (codes "image/gif") || has inherited m))))
unfolding finds_extension mem_text
type_cases m = rw (← mem_text-has m inherited) (ground arith)

ends :
    (a b c d e : Bool)
    → a ≡ false
    → b ≡ false
    → c ≡ false
    → d ≡ false
    → (a || (b || (c || (d || e)))) ≡ true
    → e ≡ true
ends a b c d e ha hb hc hd h = ground (arith, ha, hb, hc, hd, h)

finds-IsAcceptedType : (m : Text) → finds_extension m ≡ true → IsAcceptedType m
finds-IsAcceptedType m h = elim (Bool-cases (text_eq m (codes "image/png"))) [
  | inl e ↦ subst IsAcceptedType (sym ((text_eq_iff m (codes "image/png")).0 e)) png
  | inr a ↦ elim (Bool-cases (text_eq m (codes "image/jpeg"))) [
    | inl e ↦ subst IsAcceptedType (sym ((text_eq_iff m (codes "image/jpeg")).0 e)) jpeg
    | inr b ↦ elim (Bool-cases (text_eq m (codes "image/webp"))) [
      | inl e ↦ subst IsAcceptedType (sym ((text_eq_iff m (codes "image/webp")).0 e)) webp
      | inr c ↦ elim (Bool-cases (text_eq m (codes "image/gif"))) [
        | inl e ↦ subst IsAcceptedType (sym ((text_eq_iff m (codes "image/gif")).0 e)) gif
        | inr d ↦ member m (ends _ _ _ _ _ a b c d (sym (type_cases m) ∙ h))
      ]
    ]
  ]
]

IsAcceptedType-finds : (m : Text) → IsAcceptedType m → finds_extension m ≡ true
unfolding finds_extension mem_text text_eq
IsAcceptedType-finds _ png = refl
IsAcceptedType-finds _ jpeg = refl
IsAcceptedType-finds _ webp = refl
IsAcceptedType-finds _ gif = refl
IsAcceptedType-finds _ (member name h) =
    type_cases name
    ∙ or_last (text_eq name (codes "image/png")) (text_eq name (codes "image/jpeg"))
        (text_eq name (codes "image/webp")) (text_eq name (codes "image/gif")) (has inherited name)
        h
  where
    or_last : (a b c d e : Bool) → e ≡ true → (a || (b || (c || (d || e)))) ≡ true
    or_last a b c d e h = ground (arith, h)

-- What an accepted upload is.
pub record IsAccepted (pf : Platform) (base64 : Text → List ℕ) (req : Request) (body : Option Json)
    (now : ℕ) (s : Server pf) (u : Upload) : Type 0 where
  pub passes : (limited {pf = pf} req now (per_minute 10) s).1 ≡ json tt
  pub signed : current_user pf req now ≡ some (some u.owner)
  pub someone : u.owner ≢ []
  pub url : Text
  pub payload : Text
  pub in_body : get (body_fields body) "dataUrl" ≡ some (str url)
  pub parsed : parse_data_url url ≡ some (u.mime, payload)
  pub allowed : IsAcceptedType u.mime
  pub decoded : u.bytes ≡ base64 payload
  pub small : length u.bytes ≤ 1_500_000

module _ {pf : Platform} (base64 : Text → List ℕ) where
  url_field-json :
      (body : Option Json) (s : Server pf) (v : Option Json)
      → (url_field {pf = pf} body s).1 ≡ json v
      → (v ≡ get (body_fields body) "dataUrl") × ((url_field {pf = pf} body s).0 ≡ s)
  unfolding url_field
  url_field-json body s v h = ground arith

  match_url-json :
      (v : Option Json) (s : Server pf) (groups : Text × Text)
      → (match_url {pf = pf} v s).1 ≡ json groups
      → (t : Text) × (v ≡ some (str t))
        × (parse_data_url t ≡ some groups)
        × ((match_url {pf = pf} v s).0 ≡ s)
  unfolding match_url
  match_url-json (some (str t)) s groups h = (t, refl, ground arith, ground arith)
  match_url-json v s groups h = cc

  check-json :
      (me mime payload : Text) (s : Server pf) (u : Upload)
      → (check_image {pf = pf} base64 me (mime, payload) s).1 ≡ json u
      → (finds_extension mime ≡ true)
        × (length (base64 payload) ≤ max_bytes)
        × (u ≡ record { owner = me; mime = mime; bytes = base64 payload })
        × ((check_image {pf = pf} base64 me (mime, payload) s).0 ≡ s)
  unfolding check_image
  check-json me mime payload s u h = ground arith

  pub accept-IsAccepted :
      (req : Request) (body : Option Json) (now : ℕ) (s : Server pf) (u : Upload)
      → (accept_upload {pf = pf} base64 req body now s).1 ≡ json u
      → IsAccepted pf base64 req body now s u
        × ((accept_upload {pf = pf} base64 req body now s).0.db ≡ s.db)
  unfolding accept_upload
  accept-IsAccepted req body now s u h =
      let check : Text → Text × Text → Handler pf Upload =
        λ me groups. check_image base64 me groups in
      let parse : Text → Option Json → Handler pf Upload = λ me v. match_url v >>= check me in
      let read : Text → Handler pf Upload = λ me. url_field body >>= parse me in
      let (w, p, q, z) =
        >>=-json (limited req now (per_minute 10)) (λ _. signed_in req now >>= read) s u h in
      let s1 = (limited {pf = pf} req now (per_minute 10) s).0 in
      let (me, p1, q1, z1) = >>=-json (signed_in req now) read s1 u q in
      let s2 = (signed_in {pf = pf} req now s1).0 in
      let (v, p2, q2, z2) = >>=-json (url_field body) (parse me) s2 u q1 in
      let s3 = (url_field {pf = pf} body s2).0 in
      let (groups, p3, q3, z3) = >>=-json (match_url v) (check me) s3 u q2 in
      let s4 = (match_url {pf = pf} v s3).0 in
      let (v_is, same3) = url_field-json body s2 v p2 in
      let (t, v_str, parsed, same4) = match_url-json v s3 groups p3 in
      let (allowed, small, u_is, same5) = check-json me groups.0 groups.1 s4 u q3 in
      let mime_is : u.mime ≡ groups.0 = ap (λ (x : Upload). x.mime) u_is in
      let bytes_is : u.bytes ≡ base64 groups.1 = ap (λ (x : Upload). x.bytes) u_is in
      let owner_is : u.owner ≡ me = ap (λ (x : Upload). x.owner) u_is in
      (
        record {
          passes = p;
          someone =
              signed_in-nonempty req now s1 u.owner (p1 ∙ ap (λ (x : Text). json x) (sym owner_is));
          signed =
              signed_in-json req now s1 me p1 ∙ ap (λ (x : Text). some (some x)) (sym owner_is);
          url = t;
          payload = groups.1;
          in_body = sym v_is ∙ v_str;
          parsed = parsed ∙ ap (λ (x : Text). some (x, groups.1)) (sym mime_is);
          allowed = finds-IsAcceptedType u.mime (rw mime_is allowed);
          decoded = bytes_is;
          small = rw bytes_is small;
        },
        ap (λ (x : Server pf). x.db) (z ∙ z1 ∙ z2 ∙ z3 ∙ same5 ∙ same4 ∙ same3)
            ∙ signed_in-db req now s1
            ∙ limited-db req now (per_minute 10) s,
      )

  url_field-run :
      (body : Option Json) (s : Server pf) (v : Json)
      → get (body_fields body) "dataUrl" ≡ some v
      → (url_field {pf = pf} body s).1 ≡ json (some v)
  unfolding url_field get
  url_field-run none s v h = cc
  url_field-run (some null) s v h = cc
  url_field-run (some j) s v h = ap (λ (o : Option Json). json o) h

  match_url-run :
      (t : Text) (s : Server pf) (groups : Text × Text)
      → parse_data_url t ≡ some groups
      → (match_url {pf = pf} (some (str t)) s).1 ≡ json groups
  unfolding match_url
  match_url-run t s groups h = ground (arith, h)

  check-run :
      (me mime payload : Text) (s : Server pf)
      → finds_extension mime ≡ true
      → length (base64 payload) ≤ 1_500_000
      → (check_image {pf = pf} base64 me (mime, payload) s).1
        ≡ json (record { owner = me; mime = mime; bytes = base64 payload })
  unfolding check_image
  check-run me mime payload s h k = ground (arith, h, k)

  pub IsAccepted-accept :
      (req : Request) (body : Option Json) (now : ℕ) (s : Server pf) (u : Upload)
      → IsAccepted pf base64 req body now s u
      → (accept_upload {pf = pf} base64 req body now s).1 ≡ json u
  unfolding accept_upload
  IsAccepted-accept req body now s u i =
      let check : Text → Text × Text → Handler pf Upload =
        λ me groups. check_image base64 me groups in
      let parse : Text → Option Json → Handler pf Upload = λ me v. match_url v >>= check me in
      let read : Text → Handler pf Upload = λ me. url_field body >>= parse me in
      let s1 = (limited {pf = pf} req now (per_minute 10) s).0 in
      let s2 = (signed_in {pf = pf} req now s1).0 in
      let s3 = (url_field {pf = pf} body s2).0 in
      let v : Option Json = some (str i.url) in
      let s4 = (match_url {pf = pf} v s3).0 in
      let groups : Text × Text = (u.mime, i.payload) in
      let me_is = signed_in-run req now s1 u.owner i.someone i.signed in
      let fits : length (base64 i.payload) ≤ 1_500_000 =
        subst (λ (x : List ℕ). length x ≤ 1_500_000) i.decoded i.small in
      >>=-run (limited req now (per_minute 10)) (λ _. signed_in req now >>= read) s tt i.passes
      ∙ >>=-run (signed_in req now) read s1 u.owner me_is
      ∙ >>=-run (url_field body) (parse u.owner) s2 v (url_field-run body s2 (str i.url) i.in_body)
      ∙ >>=-run (match_url v) (check u.owner) s3 groups (match_url-run i.url s3 groups i.parsed)
      ∙ check-run u.owner u.mime i.payload s4 (IsAcceptedType-finds u.mime i.allowed) fits
      ∙ ap (λ (x : List ℕ). json (record { owner = u.owner; mime = u.mime; bytes = x }))
          (sym i.decoded)
