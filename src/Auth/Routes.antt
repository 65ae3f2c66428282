-- ===== src/Auth/Routes.antt =====
-- The handlers of the two routes. Buffers, text decoding and Ed25519 are parameters.
use fbyt.Base.{ℕ, ◌+◌, ◌*◌, Text, Bool, true, false, ◌&&◌, Option, none, some, ltb, if◌then◌else◌}
use fbyt.Base.Int.{pos, ltb_ℤ}
use fbyt.Json.{Doc, Json, null, bool, num, str, end, field, get, truthy}
use fbyt.Db.Ops.{db_get, db_put, db_delete}
use fbyt.Guard.Request.{Request, per_minute}
use fbyt.Session.Cookie.{sign_session}
use fbyt.Auth.Message.{nonce_of}
use fbyt.Http.{Platform, Handler, json, refuse, pure, limited, body_fields, ◌>>=◌, ◌>>◌}

abbrev pub nonce_ttl_ms : ℕ
nonce_ttl_ms = 5 * 60 * 1000

-- What the route uses of Node and of @solana/kit.
pub record Crypto : Type 1 where
  pub Bytes : Type 0
  -- Buffer.from(value, 'base64'); `none` is its exception
  pub buffer : Json → Option Bytes
  -- bytes.toString('utf8')
  pub utf8 : Bytes → Text
  -- verify(null, message, spki, signature) with the key of the address; `none` is an exception of
  -- the address encoder or of the key parser
  pub ed25519 : Json → Bytes → Bytes → Option Bool

-- The response of a sign-in: the address, and the cookie that is set.
pub record SignedIn : Type 0 where
  pub address : Text
  pub cookie : Text

-- GET /api/auth/nonce, with the nonce that `randomBytes(16)` gave.
unfoldable pub issue_nonce : {pf : Platform} → Text → ℕ → Handler pf Text
issue_nonce {pf} nonce now s =
    let record_doc = field "id" (str nonce) (field "exp" (num (pos (now + nonce_ttl_ms))) end) in
    (record s { db = (db_put (Platform.sql pf) s.db "authNonces" record_doc).0 }, json nonce)

-- `!rec || rec.exp < Date.now()`; a comparison with `undefined` is false, and null, false and true count
-- as 0, 0 and 1. A text, an array or an object, which `issue_nonce` never stores, counts as no number here.
unfoldable pub is_stale : Option Doc → ℕ → Bool
is_stale none now = true
is_stale (some rec) now = elim (get rec "exp") [
  | some (num e) ↦ ltb_ℤ e (pos now)
  | some null ↦ ltb 0 now
  | some (bool false) ↦ ltb 0 now
  | some (bool true) ↦ ltb 1 now
  | _ ↦ false
]

module _ {pf : Platform} (cr : Crypto) where
  open cr use {Bytes, buffer, utf8, ed25519}

  abbrev pub threw {ℓ} : {A : Type ℓ} → Handler pf A
  threw = refuse 400 "exception"

  unfoldable pub issue_cookie : Json → ℕ → Handler pf SignedIn
  issue_cookie (str address) now s = elim (sign_session (Platform.runtime pf) now address) [
    | none ↦ threw s
    | some c ↦ pure (record { address = address; cookie = c }) s
  ]
  issue_cookie _ now s = threw s

  -- From `Buffer.from(getAddressEncoder().encode(address))` on.
  unfoldable pub check_signature : Json → Bytes → Json → ℕ → Handler pf SignedIn
  check_signature address message signature now s = elim (buffer signature) [
    | none ↦ threw s
    | some sig ↦ elim (ed25519 address message sig) [
      | none ↦ threw s
      | some true ↦ issue_cookie address now s
      | some false ↦ refuse 401 "bad signature" s
    ]
  ]

  unfoldable pub consume_nonce : Text → ℕ → Handler pf (Unit {0})
  consume_nonce nonce now s =
      if is_stale (db_get (Platform.sql pf) s.db "authNonces" nonce) now
      then refuse 401 "stale or unknown nonce" s
      else pure tt (record s { db = db_delete (Platform.sql pf) s.db "authNonces" nonce })

  -- The nonce that the message names.
  unfoldable pub nonce_in : Bytes → Handler pf Text
  nonce_in message s = elim (nonce_of (utf8 message)) [
    | none ↦ refuse 400 "message missing nonce" s
    | some n ↦ pure n s
  ]

  unfoldable pub sign_in : Json → Json → Json → ℕ → Handler pf SignedIn
  sign_in address message signature now s = elim (buffer message) [
    | none ↦ threw s
    | some bytes ↦
        (do
          nonce ← nonce_in bytes
          consume_nonce nonce now
          check_signature address bytes signature now)
          s
  ]

  unfoldable pub verify_fields : Doc → ℕ → Handler pf SignedIn
  verify_fields body now s = elim (get body "address") [
    | none ↦ refuse 400 "address, message, signature required" s
    | some address ↦ elim (get body "message") [
      | none ↦ refuse 400 "address, message, signature required" s
      | some message ↦ elim (get body "signature") [
        | none ↦ refuse 400 "address, message, signature required" s
        | some signature ↦
            if truthy (some address) && truthy (some message) && truthy (some signature)
            then sign_in address message signature now s
            else refuse 400 "address, message, signature required" s
      ]
    ]
  ]

  unfoldable pub verify_body : Option Json → ℕ → Handler pf SignedIn
  verify_body none now s = threw s
  verify_body (some null) now s = threw s
  verify_body (some b) now s = verify_fields (body_fields (some b)) now s

  -- POST /api/auth/verify. A body that is no JSON, or null, is an exception.
  unfoldable pub verify : Request → Option Json → ℕ → Handler pf SignedIn
  verify req body now = do limited req now (per_minute 10); verify_body body now
