-- ===== src/Uploads/DataUrl.antt =====
-- The tests that app/src/app/api/uploads/route.ts and uploads/[id]/route.ts make of a text.
use fbyt.Base.{
  ℕ, Text, text_eq, Bool, true, false, not, ◌&&◌, ◌||◌, Option, none, some, List, [], ◌∷◌, codes,
  ◌==◌, leb, if◌then◌else◌,
}

-- `\w`, and `[\w/+.-]`
abbrev pub is_word : ℕ → Bool
is_word c =
    (leb b'0' c && leb c b'9')
    || (leb b'A' c && leb c b'Z')
    || (leb b'a' c && leb c b'z')
    || (c == b'_')

abbrev pub is_mime_unit : ℕ → Bool
is_mime_unit c = is_word c || (c == b'/') || (c == b'+') || (c == b'.') || (c == b'-')

-- `.` matches every unit but the line terminators.
abbrev pub is_line_end : ℕ → Bool
is_line_end c = (c == 10) || (c == 13) || (c == 0x2028) || (c == 0x2029)

unfoldable pub all_units : (ℕ → Bool) → Text → Bool
all_units p [] = true
all_units p (c ∷ cs) = p c && all_units p cs

-- What is left after a prefix.
unfoldable pub drop_prefix : Text → Text → Option Text
drop_prefix [] t = some t
drop_prefix (c ∷ cs) [] = none
drop_prefix (c ∷ cs) (d ∷ ds) = let rest = drop_prefix cs ds in if c == d then rest else none

-- The longest start of units of a mime type, and what is left.
unfoldable pub span_mime : Text → Text × Text
span_mime [] = ([], [])
span_mime (c ∷ cs) =
    let (m, rest) = span_mime cs in if is_mime_unit c then (c ∷ m, rest) else ([], c ∷ cs)

-- `(.+)$`
unfoldable pub payload_of : Text → Option Text
unfolding all_units
payload_of [] = none
payload_of (c ∷ cs) = if all_units (λ d. not (is_line_end d)) (c ∷ cs) then some (c ∷ cs) else none

-- `;base64,(.+)$` after a mime type that is not empty. No unit of it is a semicolon.
unfoldable pub after_mime : Text × Text → Option (Text × Text)
unfolding drop_prefix payload_of
after_mime ([], rest) = none
after_mime (c ∷ cs, rest) = elim (drop_prefix (codes ";base64,") rest) [
  | none ↦ none
  | some t ↦ elim (payload_of t) [ none ↦ none | some p ↦ some (c ∷ cs, p) ]
]

-- dataUrl.match(/^data:([\w/+.-]+);base64,(.+)$/), its two groups
unfoldable pub parse_data_url : Text → Option (Text × Text)
unfolding drop_prefix span_mime after_mime
parse_data_url t = elim (drop_prefix (codes "data:") t) [
  | none ↦ none
  | some rest ↦ after_mime (span_mime rest)
]

unfoldable pub mem_text : Text → List Text → Bool
unfolding text_eq
mem_text t [] = false
mem_text t (u ∷ us) = text_eq t u || mem_text t us

abbrev pub images : List Text
images = codes "image/png" ∷ codes "image/jpeg" ∷ codes "image/webp" ∷ codes "image/gif" ∷ []

-- The names that every plain object of JavaScript inherits.
abbrev pub inherited : List Text
inherited =
    codes "constructor"
    ∷ codes "toString"
    ∷ codes "toLocaleString"
    ∷ codes "valueOf"
    ∷ codes "hasOwnProperty"
    ∷ codes "isPrototypeOf"
    ∷ codes "propertyIsEnumerable"
    ∷ codes "__proto__"
    ∷ codes "__defineGetter__"
    ∷ codes "__defineSetter__"
    ∷ codes "__lookupGetter__"
    ∷ codes "__lookupSetter__"
    ∷ []

-- `ALLOWED[mime]` is truthy: a lookup in a plain object, which finds inherited names too.
unfoldable pub finds_extension : Text → Bool
unfolding mem_text
finds_extension mime = mem_text mime images || mem_text mime inherited

-- /^[0-9a-z-]+$/.test(id)
unfoldable pub is_upload_id : Text → Bool
unfolding all_units
is_upload_id [] = false
is_upload_id (c ∷ cs) =
    all_units (λ d. (leb b'0' d && leb d b'9') || (leb b'a' d && leb d b'z') || (d == b'-'))
      (c ∷ cs)
