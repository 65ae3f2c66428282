-- ===== src/Client/Kit.antt =====
-- What the generated client uses of @solana/kit to compare bytes.
use mathlib.Core.Path.{fun_ext}
use fbyt.Base.{
  ℕ, ◌≡◌, refl, ap, ◌∙◌, List, [], ◌∷◌, ◌++◌, Bool, true, false, ◌&&◌, ◌==◌, arith, take, drop,
  length, replicate,
}

pub record Kit : Type 0 where
  -- containsBytes(data, bytes, offset)
  pub contains_bytes : List ℕ → List ℕ → ℕ → Bool
  -- fixEncoderSize(getBytesEncoder(), size).encode(bytes)
  pub fix_size : List ℕ → ℕ → List ℕ

unfoldable pub is_prefix : List ℕ → List ℕ → Bool
is_prefix [] ys = true
is_prefix (x ∷ xs) [] = false
is_prefix (x ∷ xs) (y ∷ ys) = (x == y) && is_prefix xs ys

-- Documented behaviour: a comparison at the start, and bytes cut or filled with zeros to a size.
pub record IsStandardKit (kit : Kit) : Type 0 where
  pub contains_at_start : (b bytes : List ℕ) → kit.contains_bytes b bytes 0 ≡ is_prefix bytes b
  pub fixed : (bytes : List ℕ) (n : ℕ) → kit.fix_size bytes n ≡ take n (bytes ++ replicate n 0)

-- The test that each branch of an identification makes.
abbrev pub starts : Kit → List ℕ → List ℕ → Bool
starts kit b d = kit.contains_bytes b (kit.fix_size d 8) 0

pub starts_lem :
    (kit : Kit) (std : IsStandardKit kit) (b : List ℕ)
    → starts kit b ≡ (λ d. is_prefix (take 8 (d ++ replicate 8 0)) b)
starts_lem kit std b = fun_ext (λ d.
    std.contains_at_start b (kit.fix_size d 8) ∙ ap (λ (p : List ℕ). is_prefix p b) (std.fixed d 8))

pub prefix-append : (d rest : List ℕ) → is_prefix d (d ++ rest) ≡ true
unfolding is_prefix
prefix-append [] rest = refl
prefix-append (x ∷ xs) rest = ground (arith, prefix-append xs rest)

pub append_of_prefix : (d b : List ℕ) → is_prefix d b ≡ true → b ≡ d ++ drop (length d) b
unfolding is_prefix
append_of_prefix [] b h = refl
append_of_prefix (x ∷ xs) [] h = cc
append_of_prefix (x ∷ xs) (y ∷ ys) h = ground (arith, append_of_prefix xs ys)
