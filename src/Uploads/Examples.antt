-- ===== src/Uploads/Examples.antt =====
-- A small image that alice uploads, and a type that is no image.
use fbyt.Base.{
  ◌≡◌, ◌⊎◌, refl, Text, text_eq, true, false, Option, none, some, [], codes, trim_start, is_space,
  trim, split, if◌then◌else◌,
}
use fbyt.Json.{Json, str, obj, field, end, get}
use fbyt.Guard.Limiter.{purge, rate_limit, map_get, map_set, open_bucket}
use fbyt.Guard.Request.{guard, same_origin, client_ip}
use fbyt.Session.Cookie.{verify_session, check_parts, check_mac, secret}
use fbyt.Session.Examples.{digest}
use fbyt.Http.{Server, json, limited, signed_in, current_user}
use fbyt.Bots.Examples.{platform, request}
use fbyt.Uploads.DataUrl.{
  all_units, drop_prefix, span_mime, payload_of, after_mime, parse_data_url, mem_text,
  finds_extension, is_upload_id,
}
use fbyt.Uploads.Routes.{
  Disk, Upload, url_of, url_field, match_url, check_image, accept_upload, post_upload, show_upload,
}
use fbyt.Uploads.Accepted.{IsAccepted}
use fbyt.Uploads.Served.{post_upload-served}

-- The type of an upload can be the name of a member that every object has.
allows_constructor : finds_extension (codes "constructor") ≡ true
unfolding finds_extension mem_text text_eq
allows_constructor = refl

refuses_html : finds_extension (codes "text/html") ≡ false
unfolding finds_extension mem_text text_eq
refuses_html = refl

abbrev image : Option Json
image = some (obj (field "dataUrl" (str (codes "data:image/png;base64,iVBOR")) end))

abbrev blank : Disk
blank = λ id. none

abbrev server : Server platform
server = record { db = []; buckets = [] }

name_is_valid : is_upload_id (codes "17-ab3") ≡ true
unfolding is_upload_id all_units
name_is_valid = refl

uploads :
    (post_upload {pf = platform} (λ t. t) request image (codes "17-ab3") 5 (blank, server)).1
    ≡ json (codes "/api/uploads/17-ab3")
unfolding post_upload accept_upload url_field match_url check_image limited signed_in guard
    same_origin client_ip rate_limit map_get map_set open_bucket purge current_user verify_session
    check_parts check_mac secret digest text_eq split get trim trim_start is_space parse_data_url
    drop_prefix span_mime after_mime payload_of all_units finds_extension mem_text
uploads = refl

post_upload-served_example :
    let after =
      post_upload {pf = platform} (λ t. t) request image (codes "17-ab3") 5 (blank, server) in
    ((u : Upload) × IsAccepted platform (λ t. t) request image 5 server u
      × (after.1 ≡ json (url_of (codes "17-ab3")))
      × (show_upload (codes "17-ab3") after.0 ≡ (
          if text_eq (codes "17-ab3") (codes "17-ab3")
          then json (record { content_type = some (str u.mime); bytes = u.bytes })
          else show_upload {pf = platform} (codes "17-ab3") (blank, server))))
    ⊎ ((¬ ((u : Upload) × IsAccepted platform (λ t. t) request image 5 server u))
        × (¬ ((url : Text) × (after.1 ≡ json url))))
post_upload-served_example =
    post_upload-served (λ t. t) request image (codes "17-ab3") 5 blank server (codes "17-ab3")
      name_is_valid
