-- ===== src/Auth/Message.antt =====
-- The nonce of a sign-in message: `text.match(/Nonce:\s*([0-9a-f]+)/)?.[1]`.
use fbyt.Base.{
  ◌≡◌, refl, ℕ, Text, Bool, ◌&&◌, ◌||◌, Option, none, some, [], ◌∷◌, codes, trim_start, starts_with,
  drop, leb, if◌then◌else◌,
}

unfoldable pub is_hex : ℕ → Bool
is_hex c = (leb b'0' c && leb c b'9') || (leb b'a' c && leb c b'f')

-- The longest run of digits at the start.
unfoldable pub hex_run : Text → Text
unfolding is_hex
hex_run [] = []
hex_run (c ∷ cs) = let rest = hex_run cs in if is_hex c then c ∷ rest else []

abbrev pub nonempty : Text → Option Text
nonempty [] = none
nonempty (c ∷ cs) = some (c ∷ cs)

-- A match at this place.
unfoldable pub nonce_here : Text → Option Text
unfolding hex_run trim_start starts_with
nonce_here s =
    if starts_with (codes "Nonce:") s then nonempty (hex_run (trim_start (drop 6 s))) else none

-- The first place that matches.
unfoldable pub nonce_of : Text → Option Text
unfolding nonce_here
nonce_of [] = none
nonce_of (c ∷ cs) =
    let rest = nonce_of cs in elim (nonce_here (c ∷ cs)) [ some n ↦ some n | none ↦ rest ]

nonce_of_message : nonce_of (codes "Sign in\nNonce: 0af3!\nNonce: 77") ≡ some (codes "0af3")
unfolding nonce_of
nonce_of_message = refl
