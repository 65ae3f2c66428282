-- ===== src/Uploads/Routes.antt =====
-- The handlers of app/src/app/api/uploads/route.ts and uploads/[id]/route.ts.
use fbyt.Base.{ℕ, Text, text_eq, Option, none, some, List, ◌++◌, codes, ltb, length, if◌then◌else◌}
use fbyt.Base.Int.{pos}
use fbyt.Json.{Doc, Json, null, num, str, end, field, get}
use fbyt.Db.Ops.{db_get, db_put}
use fbyt.Guard.Request.{Request, per_minute}
use fbyt.Http.{
  Platform, Server, Handler, Response, json, fail, thrown, refuse, pure, limited, signed_in,
  body_fields, ◌>>=◌, ◌>>◌,
}
use fbyt.Uploads.DataUrl.{parse_data_url, finds_extension, is_upload_id}

abbrev pub max_bytes : ℕ
max_bytes = 1_500_000

-- The directory of the uploads, as what reading a file in it gives. Writing does not fail here.
abbrev pub Disk : Type 0
Disk = Text → Option (List ℕ)

unfoldable pub write_file : Disk → Text → List ℕ → Disk
write_file disk id bytes j = if text_eq id j then some bytes else disk j

-- What is accepted, before it is written.
pub record Upload : Type 0 where
  pub owner : Text
  pub mime : Text
  pub bytes : List ℕ

pub record File : Type 0 where
  pub content_type : Option Json
  pub bytes : List ℕ

abbrev pub upload_doc : Text → Upload → ℕ → Doc
upload_doc id u now = field "id" (str id) (
    field "mime" (str u.mime) (field "owner" (str u.owner) (field "createdAt" (num (pos now)) end)))

abbrev pub url_of : Text → Text
url_of id = codes "/api/uploads/" ++ id

module _ {pf : Platform} where
  -- `const { dataUrl } = …`: a body that is `null` is an exception.
  unfoldable pub url_field : Option Json → Handler pf (Option Json)
  url_field (some null) s = (s, thrown)
  url_field body s = (s, json (get (body_fields body) "dataUrl"))

  unfoldable pub match_url : Option Json → Handler pf (Text × Text)
  unfolding parse_data_url
  match_url (some (str t)) s = elim (parse_data_url t) [
    | none ↦ refuse 400 "expected a base64 data URL" s
    | some groups ↦ pure groups s
  ]
  match_url _ s = refuse 400 "expected a base64 data URL" s

  -- `base64` is Buffer.from(text, 'base64').
  unfoldable pub check_image : (Text → List ℕ) → Text → Text × Text → Handler pf Upload
  unfolding finds_extension
  check_image base64 me (mime, payload) s =
      if finds_extension mime
      then (if ltb max_bytes (length (base64 payload))
          then refuse 413 "image too large (max ~1.5MB)" s
          else pure (record { owner = me; mime = mime; bytes = base64 payload }) s)
      else refuse 400 "unsupported image type" s

  unfoldable pub accept_upload : (Text → List ℕ) → Request → Option Json → ℕ → Handler pf Upload
  unfolding url_field match_url check_image
  accept_upload base64 req body now = do
    limited req now (per_minute 10)
    me ← signed_in req now
    url ← url_field body
    groups ← match_url url
    check_image base64 me groups

  -- `id` is the generated name of the file.
  unfoldable pub post_upload :
      (Text → List ℕ)
      → Request
      → Option Json
      → Text
      → ℕ
      → Disk × Server pf
      → (Disk × Server pf) × Response Text
  unfolding accept_upload write_file
  post_upload base64 req body id now (disk, s) =
      let (t, r) = accept_upload base64 req body now s in
      elim r [
        | json u ↦ (
          (
            write_file disk id u.bytes,
            record t { db = (db_put (Platform.sql pf) t.db "uploads" (upload_doc id u now)).0 },
          ),
          json (url_of id),
        )
        | fail status message ↦ ((disk, t), fail status message)
        | thrown ↦ ((disk, t), thrown)
      ]

  unfoldable pub show_upload : Text → Disk × Server pf → Response File
  unfolding is_upload_id
  show_upload id (disk, s) =
      if is_upload_id id
      then elim (db_get (Platform.sql pf) s.db "uploads" id) [
        | none ↦ fail 404 "not found"
        | some meta ↦ elim (disk id) [
          | none ↦ fail 404 "not found"
          | some bytes ↦ json (record { content_type = get meta "mime"; bytes = bytes })
        ]
      ]
      else fail 400 "bad id"
