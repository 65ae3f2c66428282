-- ===== src/Uploads/Served.antt =====
-- An upload that is answered is served as it was sent, and nothing else that is served changes.
use fbyt.Base.{
  ℕ, ◌≡◌, ◌⊎◌, ◌∙◌, refl, inl, inr, arith, String, Text, text_eq, text_eq_refl, true, Option, some,
  List, Bool-cases, subst, text_eq_iff, if◌then◌else◌,
}
use fbyt.Json.{Json, str, get}
use fbyt.Db.Sql.{Sql}
use fbyt.Db.Ops.{db_get, db_put, id_of}
use fbyt.Db.Laws.{get-put}
use fbyt.Guard.Request.{Request}
use fbyt.Http.{Platform, Server, json, fail, thrown}
use fbyt.Http.Laws.{Response-cases}
use fbyt.Uploads.DataUrl.{is_upload_id}
use fbyt.Uploads.Routes.{
  Disk, write_file, Upload, upload_doc, url_of, accept_upload, post_upload, show_upload,
}
use fbyt.Uploads.Accepted.{IsAccepted, accept-IsAccepted, IsAccepted-accept}

id_of_upload : (id : Text) (u : Upload) (now : ℕ) → id_of (upload_doc id u now) ≡ id
unfolding id_of get
id_of_upload id u now = refl

mime_of_upload :
    (id : Text) (u : Upload) (now : ℕ) → get (upload_doc id u now) "mime" ≡ some (str u.mime)
unfolding get
mime_of_upload id u now = refl

get-upload :
    (sql : Sql) (d e : Sql.Db sql) (id j : Text) (u : Upload) (now : ℕ)
    → e ≡ d
    → db_get sql (db_put sql e "uploads" (upload_doc id u now)).0 "uploads" j
      ≡ (if text_eq id j then some (upload_doc id u now) else db_get sql d "uploads" j)
get-upload sql d e id j u now same =
    get-put sql e "uploads" "uploads" j (upload_doc id u now)
    ∙ rw (id_of_upload id u now, same) refl

module _ {pf : Platform} (base64 : Text → List ℕ) where
  answered :
      (req : Request) (body : Option Json) (id : Text) (now : ℕ) (disk : Disk) (s : Server pf)
      (u : Upload)
      → (accept_upload {pf = pf} base64 req body now s).1 ≡ json u
      → (post_upload {pf = pf} base64 req body id now (disk, s)).1 ≡ json (url_of id)
  unfolding post_upload
  answered req body id now disk s u e = ground (arith, e)

  refused_fail :
      (req : Request) (body : Option Json) (id : Text) (now : ℕ) (disk : Disk) (s : Server pf)
      (n : ℕ) (m : String)
      → (accept_upload {pf = pf} base64 req body now s).1 ≡ fail n m
      → ¬ ((url : Text) × ((post_upload {pf = pf} base64 req body id now (disk, s)).1 ≡ json url))
  unfolding post_upload
  refused_fail req body id now disk s n m e (url, h) = ground (arith, e, h)

  refused_thrown :
      (req : Request) (body : Option Json) (id : Text) (now : ℕ) (disk : Disk) (s : Server pf)
      → (accept_upload {pf = pf} base64 req body now s).1 ≡ thrown
      → ¬ ((url : Text) × ((post_upload {pf = pf} base64 req body id now (disk, s)).1 ≡ json url))
  unfolding post_upload
  refused_thrown req body id now disk s e (url, h) = ground (arith, e, h)

  shown :
      (req : Request) (body : Option Json) (id : Text) (now : ℕ) (disk : Disk) (s : Server pf)
      (j : Text) (u : Upload)
      → is_upload_id id ≡ true
      → (accept_upload {pf = pf} base64 req body now s).1 ≡ json u
      → show_upload {pf = pf} j (post_upload {pf = pf} base64 req body id now (disk, s)).0 ≡ (
          if text_eq id j
          then json (record { content_type = some (str u.mime); bytes = u.bytes })
          else show_upload {pf = pf} j (disk, s))
  unfolding post_upload show_upload write_file
  shown req body id now disk s j u valid e =
      let same = (accept-IsAccepted base64 req body now s u e).1 in
      let t = (accept_upload {pf = pf} base64 req body now s).0 in
      elim (Bool-cases (text_eq id j)) [
        | inl f ↦
            subst
              (λ i.
                show_upload {pf = pf} i (post_upload {pf = pf} base64 req body id now (disk, s)).0
                ≡ (if text_eq id i
                    then json (record { content_type = some (str u.mime); bytes = u.bytes })
                    else show_upload {pf = pf} i (disk, s)))
              ((text_eq_iff id j).0 f)
              (ground (
                arith,
                e,
                valid,
                text_eq_refl id,
                mime_of_upload id u now,
                get-upload (Platform.sql pf) s.db t.db id id u now same,
              ))
        | inr f ↦ ground (arith, e, f, get-upload (Platform.sql pf) s.db t.db id j u now same)
      ]

  -- Under a name that is well formed, an upload is either answered or not. It is answered exactly if the guard
  -- lets the request pass, somebody is signed in, and the body has a base64 data URL of at most 1.5 million
  -- bytes, of type PNG, JPEG, WebP or GIF or of a type that is the name of an inherited member of objects;
  -- the answer is then the URL of the name, reading this name gives the type and the bytes, and reading
  -- another gives what it gave before.
  pub post_upload-served :
      (req : Request) (body : Option Json) (id : Text) (now : ℕ) (disk : Disk) (s : Server pf)
      (j : Text)
      → is_upload_id id ≡ true
      → let after = post_upload {pf = pf} base64 req body id now (disk, s) in
        ((u : Upload) × IsAccepted pf base64 req body now s u
          × (after.1 ≡ json (url_of id))
          × (show_upload j after.0 ≡ (
              if text_eq id j
              then json (record { content_type = some (str u.mime); bytes = u.bytes })
              else show_upload {pf = pf} j (disk, s))))
        ⊎ ((¬ ((u : Upload) × IsAccepted pf base64 req body now s u))
            × (¬ ((url : Text) × (after.1 ≡ json url))))
  post_upload-served req body id now disk s j valid =
      elim (Response-cases (accept_upload {pf = pf} base64 req body now s).1) [
        | inl (u, e) ↦ inl (
          u,
          (accept-IsAccepted base64 req body now s u e).0,
          answered req body id now disk s u e,
          shown req body id now disk s j u valid e,
        )
        | inr (inl (n, m, e)) ↦ inr (
          (λ (u, i). absurd (ground (arith, e, IsAccepted-accept base64 req body now s u i))),
          refused_fail req body id now disk s n m e,
        )
        | inr (inr e) ↦ inr (
          (λ (u, i). absurd (ground (arith, e, IsAccepted-accept base64 req body now s u i))),
          refused_thrown req body id now disk s e,
        )
      ]
