-- ===== src/Nav/Mints.antt =====
-- `[...].filter((m, i, a) => a.indexOf(m) === i)`: the first of equal mints stays.
use mathlib.Core.List.{append_assoc}
use fbyt.Base.{
  ℕ, suc, ◌≡◌, refl, sym, ap, ◌∙◌, Text, text_eq, text_eq_iff, not, List, [], ◌∷◌, ◌++◌, arith,
  length, length-append, filterb, ◌==◌, if◌then◌else◌,
}
use fbyt.Base.Sets.{has, remove, set_of, has-add}

-- `a.indexOf(m)`, where `m` is an element.
unfoldable pub index_of : List Text → Text → ℕ
index_of [] m = 0
index_of (x ∷ xs) m = let rest = index_of xs m in if text_eq x m then 0 else suc rest

unfoldable pub keep_first : List Text → ℕ → List Text → List Text
unfolding index_of
keep_first all i [] = []
keep_first all i (m ∷ ms) =
    let rest = keep_first all (suc i) ms in if index_of all m == i then m ∷ rest else rest

unfoldable pub distinct_mints : List Text → List Text
unfolding keep_first
distinct_mints all = keep_first all 0 all

index_of_first :
    (pre ms : List Text) (m : Text) → (index_of (pre ++ (m ∷ ms)) m == length pre) ≡ not (has pre m)
unfolding index_of has
index_of_first [] ms m = ground (arith, text_eq_iff m m)
index_of_first (x ∷ pre) ms m = ground (arith, index_of_first pre ms m)

-- What stays of a set is what is not in `pre`.
abbrev outside : List Text → List Text → List Text
outside pre = filterb (λ t. not (has pre t))

outside-remove :
    (pre vs : List Text) (v : Text) → outside pre (remove vs v) ≡ outside (pre ++ (v ∷ [])) vs
unfolding remove
outside-remove pre [] v = refl
outside-remove pre (x ∷ xs) v =
    ground (arith, outside-remove pre xs v, has-add pre v x, text_eq_iff x v, text_eq_iff v x)

keep_first-set_of :
    (pre ms : List Text) → keep_first (pre ++ ms) (length pre) ms ≡ outside pre (set_of ms)
unfolding keep_first set_of
keep_first-set_of pre [] = refl
keep_first-set_of pre (m ∷ ms) =
    let later : keep_first (pre ++ (m ∷ ms)) (suc (length pre)) ms
        ≡ outside (pre ++ (m ∷ [])) (set_of ms) =
      ap (λ (l : List Text). keep_first l (suc (length pre)) ms)
        (sym (append_assoc pre (m ∷ []) ms))
      ∙ ap (λ (k : ℕ). keep_first ((pre ++ (m ∷ [])) ++ ms) k ms)
          (omega (arith, length-append pre (m ∷ [])))
      ∙ keep_first-set_of (pre ++ (m ∷ [])) ms in
    ground (arith, index_of_first pre ms m, later, outside-remove pre (set_of ms) m)

outside_none : (vs : List Text) → outside [] vs ≡ vs
unfolding has
outside_none [] = refl
outside_none (v ∷ vs) = ground (arith, outside_none vs)

-- The idiom gives the elements of the `Set` in insertion order.
pub distinct_mints-set_of : (all : List Text) → distinct_mints all ≡ set_of all
unfolding distinct_mints
distinct_mints-set_of all = keep_first-set_of [] all ∙ outside_none (set_of all)
