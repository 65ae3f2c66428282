-- ===== src/Base/Split.antt =====
-- `split` undoes a join with a separator that the first piece does not hold.
use fbyt.Base.{ℕ, ◌≡◌, Text, false, [], ◌∷◌, ◌++◌, arith, split, ◌==◌}

abbrev pub Lacks : ℕ → Text → Type 0
Lacks c [] = Unit
Lacks c (x ∷ xs) = ((x == c) ≡ false) × Lacks c xs

pub split-append : (c : ℕ) (p s : Text) → Lacks c p → split c (p ++ c ∷ s) ≡ p ∷ split c s
unfolding split
split-append c [] s h = ground arith
split-append c (x ∷ p) s h = ground (arith, split-append c p s h.1)

pub split_whole : (c : ℕ) (p : Text) → Lacks c p → split c p ≡ p ∷ []
unfolding split
split_whole c [] h = ground arith
split_whole c (x ∷ p) h = ground (arith, split_whole c p h.1)
