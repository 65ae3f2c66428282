-- ===== src/Money/Account.antt =====
-- The Pyth price account: `parsePythPrice` of app/src/lib/nav.ts reads what `publishPrice` of
-- app/src/app/api/dev/advance/route.ts writes.
use mathlib.Core.List.{append_assoc}
use fbyt.Base.{
  ℕ, ◌+◌, ◌^◌, ◌<◌, ◌≡◌, sym, ap, ◌∙◌, Option, none, some, List, [], ◌∷◌, ◌++◌, arith, length,
  replicate, length-append, get_or,
}
use fbyt.Base.Int.{ℤ, pos, negsuc}
use fbyt.Money.Wire.{le, read_i64_le, read_i32_le, read-le, read_i64_le-skip, get_or-skip}

pub record PythPrice : Type 0 where
  pub price : ℤ
  pub expo : ℤ

-- Price at offset 73, exponent at 89. `none`: the account is too short, and `BigInt` throws.
unfoldable pub parse_pyth_price : List ℕ → Option PythPrice
parse_pyth_price b = elim (read_i64_le b 73) [
  | none ↦ none
  | some p ↦ some (record { price = p; expo = read_i32_le b 89 })
]

-- `concat(...parts)`
unfoldable pub concat : List (List ℕ) → List ℕ
concat [] = []
concat (p ∷ ps) = p ++ concat ps

unfoldable pub price_update : List ℕ → List ℕ → ℕ → ℕ → List ℕ
unfolding concat le
price_update disc feed32 price_micro publish_time = concat (
    disc
    ∷ replicate 32 0
    ∷ (1 ∷ [])
    ∷ feed32
    ∷ le price_micro 8
    ∷ le 1 8
    ∷ le 0xfffffff8 4
    ∷ le publish_time 8
    ∷ le publish_time 8
    ∷ le price_micro 8
    ∷ le 1 8
    ∷ le 0 8
    ∷ [])

-- The header before the price, and the bytes from the price on.
header : List ℕ → List ℕ → List ℕ
header disc feed32 = disc ++ (replicate 32 0 ++ (1 ∷ feed32))

body : ℕ → ℕ → List ℕ
unfolding concat le
body price_micro publish_time = concat (
    le 1 8
    ∷ le 0xfffffff8 4
    ∷ le publish_time 8
    ∷ le publish_time 8
    ∷ le price_micro 8
    ∷ le 1 8
    ∷ le 0 8
    ∷ [])

layout :
    (disc feed32 : List ℕ) (p t : ℕ)
    → price_update disc feed32 p t ≡ header disc feed32 ++ (le p 8 ++ body p t)
unfolding price_update header body
layout disc feed32 p t =
    sym (append_assoc disc (replicate 32 0 ++ (1 ∷ feed32)) (le p 8 ++ body p t))

length-header :
    (disc feed32 : List ℕ) → length disc ≡ 8 → length feed32 ≡ 32 → length (header disc feed32) ≡ 73
unfolding header
length-header disc feed32 d f = omega (arith, length-append disc (replicate 32 0 ++ (1 ∷ feed32)))

byte_at :
    (pre rest : List ℕ) (i : ℕ)
    → length pre ≡ 73
    → get_or (pre ++ rest) (73 + i) 0 ≡ get_or rest i 0
byte_at pre rest i n =
    ap (λ (k : ℕ). get_or (pre ++ rest) k 0) (omega arith) ∙ get_or-skip pre rest i 0

expo_at_89 :
    (pre : List ℕ) (p t : ℕ)
    → length pre ≡ 73
    → read_i32_le (pre ++ (le p 8 ++ body p t)) 89 ≡ negsuc 7
unfolding read_i32_le body
expo_at_89 pre p t n =
    let rest = le p 8 ++ body p t in
    rw (byte_at pre rest 16 n, byte_at pre rest 17 n, byte_at pre rest 18 n, byte_at pre rest 19 n)

-- A published price below 2^63, behind 8 bytes of discriminator and with 32 bytes of feed, is read back, with the exponent -8.
pub parse-price_update :
    (disc feed32 : List ℕ) (p t : ℕ)
    → length disc ≡ 8
    → length feed32 ≡ 32
    → p < 2 ^ 63
    → parse_pyth_price (price_update disc feed32 p t)
      ≡ some (record { price = pos p; expo = negsuc 7 })
unfolding parse_pyth_price
parse-price_update disc feed32 p t d f h =
    let pre = header disc feed32 in
    let rest = le p 8 ++ body p t in
    let n = length-header disc feed32 d f in
    let price : read_i64_le (pre ++ rest) 73 ≡ some (pos p) =
      ap (read_i64_le (pre ++ rest)) (omega (arith, n))
      ∙ read_i64_le-skip pre rest 0
      ∙ read-le p (body p t) h in
    rw (layout disc feed32 p t) (ground (arith, price, expo_at_89 pre p t n))
