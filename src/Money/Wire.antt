-- ===== src/Money/Wire.antt =====
-- Little-endian numbers: `le` of app/scripts/keeper.ts (also in dev/advance/route.ts and, as `u64le`,
-- in wsol.ts), and `readI64LE`, `readI32LE` of app/src/lib/nav.ts and keeper.ts.
-- Bytes are numbers below 256, so `(x << 8n) | b` is `x * 256 + b`.
use Prim.Native.Nat.add
use native.Mathlib.Nat.{add_assoc}
use fbyt.Base.{
  ℕ, zero, suc, ◌+◌, ◌-◌, ◌*◌, ◌/◌, ◌%◌, ◌^◌, ◌<◌, ◌≡◌, refl, ap, ◌∙◌, Option, none, some, List, [],
  ◌∷◌, ◌++◌, arith, leb, if◌then◌else◌, length, get_elem?, get_or, Option-cases, inl, inr,
}
use fbyt.Base.Int.{ℤ, pos, sub_ℕ}

-- `n` bytes of a value that is not negative; higher bits are lost.
unfoldable pub le : ℕ → ℕ → List ℕ
le v zero = []
le v (suc n) = v % 256 ∷ le (v / 256) n

-- The rounds of `for (let i = 7; i >= 0; i--)`; `BigInt(undefined)` throws past the end.
unfoldable pub read_rounds : List ℕ → ℕ → ℕ → ℕ → Option ℕ
read_rounds b o zero x = some x
read_rounds b o (suc i) x = elim (get_elem? b (o + i)) [
  | none ↦ none
  | some c ↦ read_rounds b o i (x * 256 + c)
]

-- Two's complement of `w` bits, by the top bit.
unfoldable pub signed : ℕ → ℕ → ℤ
signed w x = if leb (2 ^ (w - 1)) x then sub_ℕ x (2 ^ w) else pos x

unfoldable pub read_i64_le : List ℕ → ℕ → Option ℤ
unfolding read_rounds signed
read_i64_le b o = elim (read_rounds b o 8 0) [ none ↦ none | some x ↦ some (signed 64 x) ]

-- A byte past the end counts as 0 here.
unfoldable pub read_i32_le : List ℕ → ℕ → ℤ
unfolding signed
read_i32_le b o = signed 32 (
    get_or b o 0
    + get_or b (o + 1) 0 * 256
    + get_or b (o + 2) 0 * 65536
    + get_or b (o + 3) 0 * 16777216)

pub length-le : (v n : ℕ) → length (le v n) ≡ n
unfolding le
length-le v zero = refl
length-le v (suc n) = ap suc (length-le (v / 256) n)

pub get_elem?-skip {ℓ} :
    {A : Type ℓ} (xs ys : List A) (i : ℕ) → get_elem? (xs ++ ys) (length xs + i) ≡ get_elem? ys i
get_elem?-skip [] ys i = ap (get_elem? ys) (omega arith)
get_elem?-skip (x ∷ xs) ys i = rw (add.suc (length xs) i) (get_elem?-skip xs ys i)

pub get_or-skip {ℓ} :
    {A : Type ℓ} (xs ys : List A) (i : ℕ) (d : A)
    → get_or (xs ++ ys) (length xs + i) d ≡ get_or ys i d
get_or-skip [] ys i d = ap (λ (k : ℕ). get_or ys k d) (omega arith)
get_or-skip (x ∷ xs) ys i d = rw (add.suc (length xs) i) (get_or-skip xs ys i d)

-- A prefix only moves the offset.
read_rounds-skip :
    (xs ys : List ℕ) (o n x : ℕ) → read_rounds (xs ++ ys) (length xs + o) n x ≡ read_rounds ys o n x
unfolding read_rounds
read_rounds-skip xs ys o zero x = refl
read_rounds-skip xs ys o (suc i) x =
    let same : get_elem? (xs ++ ys) (length xs + o + i) ≡ get_elem? ys (o + i) =
      ap (get_elem? (xs ++ ys)) (add_assoc (length xs) o i) ∙ get_elem?-skip xs ys (o + i) in
    elim (Option-cases (get_elem? ys (o + i))) [
      | inl e ↦ ground (arith, same, e)
      | inr (c, e) ↦ ground (arith, same, e, read_rounds-skip xs ys o i (x * 256 + c))
    ]

pub read_i64_le-skip :
    (xs ys : List ℕ) (o : ℕ) → read_i64_le (xs ++ ys) (length xs + o) ≡ read_i64_le ys o
unfolding read_i64_le
read_i64_le-skip xs ys o = ground (arith, read_rounds-skip xs ys o 8 0)

read_rounds-le : (v : ℕ) (rest : List ℕ) → v < 2 ^ 64 → read_rounds (le v 8 ++ rest) 0 8 0 ≡ some v
unfolding read_rounds le
read_rounds-le v rest h = ap (λ (x : ℕ). some x) (omega arith)

-- What `le` writes in eight bytes of a number below 2^63, `readI64LE` reads back there.
pub read-le : (v : ℕ) (rest : List ℕ) → v < 2 ^ 63 → read_i64_le (le v 8 ++ rest) 0 ≡ some (pos v)
unfolding read_i64_le signed
read-le v rest h = ground (arith, read_rounds-le v rest)
