-- ===== src/Vaults/Claims.antt =====
-- The parts of a request that writes a vault's profile.
use fbyt.Base.{ℕ, ◌*◌, ◌≤◌, ◌≡◌, ◌≢◌, arith, Text, take, ltb, false, Option, none, some, []}
use fbyt.Json.{Json, null, bool, num, str, arr, obj}
use fbyt.Vaults.Edit.{max_age_ms, Claim, claim_of, clip_text}

-- At most `n` units of a text that is a string, and nothing of what is none.
pub data IsClip : Option Json → ℕ → Text → Type 0 where
  of_string : (t : Text) (n : ℕ) → IsClip (some (str t)) n (take n t)
  of_other : (o : Option Json) (n : ℕ) → ((t : Text) → o ≢ some (str t)) → IsClip o n []

pub clip_text-IsClip : (o : Option Json) (n : ℕ) → IsClip o n (clip_text o n)
unfolding clip_text
clip_text-IsClip (some (str t)) n = of_string t n
clip_text-IsClip none n = of_other none n (λ t e. cc)
clip_text-IsClip (some null) n = of_other (some null) n (λ t e. cc)
clip_text-IsClip (some (bool b)) n = of_other (some (bool b)) n (λ t e. cc)
clip_text-IsClip (some (num z)) n = of_other (some (num z)) n (λ t e. cc)
clip_text-IsClip (some (arr x)) n = of_other (some (arr x)) n (λ t e. cc)
clip_text-IsClip (some (obj d)) n = of_other (some (obj d)) n (λ t e. cc)

-- The three fields of a claim that is read.
pub claim_of-fields :
    (a b i : Option Json) (c : Claim)
    → claim_of a b i ≡ some c
    → (a ≡ some (str c.signer)) × (b ≡ some (str c.signature)) × (i ≡ some (num c.issued_at))
unfolding claim_of
claim_of-fields (some (str a)) (some (str b)) (some (num i)) c h =
    (ground (arith, h), ground (arith, h), ground (arith, h))
claim_of-fields _ _ _ c h = cc

pub within : (n : ℕ) → ltb max_age_ms n ≡ false → n ≤ 5 * 60 * 1000
within n h = ground arith
