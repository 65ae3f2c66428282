-- ===== src/Base/Sort.antt =====
-- `xs.sort((a, b) => …)` on a key: the sort of JavaScript keeps the order of equal keys.
use fbyt.Base.Tests.{◌==◌, ltb, if◌then◌else◌, Bool-cases}
use fbyt.Base.Lists.{filterb}
use Prim.Native.Nat.{ℕ}
use mathlib.Core.Path.{◌≡◌, refl, ◌∙◌}
use mathlib.Core.Logic.{inl, inr}
use mathlib.Core.Bool.{Bool, true, false}
use mathlib.Core.List.{List, [], ◌∷◌}
use native.Mathlib.Omega.{arith}

-- `above a b`: a key `a` stands strictly before a key `b`.
module _ {ℓ} {A : Type ℓ} (key : A → ℕ) (above : ℕ → ℕ → Bool) where
  unfoldable pub insert_with : A → List A → List A
  insert_with x [] = x ∷ []
  insert_with x (y ∷ ys) =
      let rest = insert_with x ys in if above (key y) (key x) then y ∷ rest else x ∷ y ∷ ys

  unfoldable pub sort_with : List A → List A
  unfolding insert_with
  sort_with [] = []
  sort_with (x ∷ xs) = insert_with x (sort_with xs)

  -- No key stands before this one.
  abbrev pub NoneAbove : ℕ → List A → Type 0
  NoneAbove k [] = Unit
  NoneAbove k (x ∷ xs) = (above (key x) k ≡ false) × NoneAbove k xs

  abbrev pub IsSorted : List A → Type 0
  IsSorted [] = Unit
  IsSorted (x ∷ xs) = NoneAbove (key x) xs × IsSorted xs

  filterb-insert_with :
      ((a b : ℕ) → above a b ≡ true → (a == b) ≡ false)
      → (k : ℕ) (x : A) (xs : List A)
      → filterb (λ y. key y == k) (insert_with x xs) ≡ filterb (λ y. key y == k) (x ∷ xs)
  unfolding insert_with
  filterb-insert_with strict k x [] = refl
  filterb-insert_with strict k x (y ∷ ys) =
      ground (arith, filterb-insert_with strict k x ys, strict (key y) (key x))

  -- The elements of one key are those of the list, in its order.
  pub filterb-sort_with :
      ((a b : ℕ) → above a b ≡ true → (a == b) ≡ false)
      → (k : ℕ) (xs : List A)
      → filterb (λ y. key y == k) (sort_with xs) ≡ filterb (λ y. key y == k) xs
  unfolding sort_with
  filterb-sort_with strict k [] = refl
  filterb-sort_with strict k (x ∷ xs) =
      filterb-insert_with strict k x (sort_with xs)
      ∙ (ground (arith, filterb-sort_with strict k xs))

  module _ (mono : (a b c : ℕ) → above a b ≡ false → above b c ≡ false → above a c ≡ false)
      (asym : (a b : ℕ) → above a b ≡ true → above b a ≡ false) where
    NoneAbove-mono : (a b : ℕ) (xs : List A) → above a b ≡ false → NoneAbove a xs → NoneAbove b xs
    NoneAbove-mono a b [] h m = tt
    NoneAbove-mono a b (x ∷ xs) h (p, m) = (mono (key x) a b p h, NoneAbove-mono a b xs h m)

    NoneAbove-insert_with :
        (k : ℕ) (x : A) (xs : List A)
        → above (key x) k ≡ false
        → NoneAbove k xs
        → NoneAbove k (insert_with x xs)
    unfolding insert_with
    NoneAbove-insert_with k x [] h m = (h, tt)
    NoneAbove-insert_with k x (y ∷ ys) h (p, m) = elim (Bool-cases (above (key y) (key x))) [
      | inl e ↦ rw (e, insert_with) (p, NoneAbove-insert_with k x ys h m)
      | inr e ↦ rw (e, insert_with) (h, (p, m))
    ]

    insert_with-IsSorted : (x : A) (xs : List A) → IsSorted xs → IsSorted (insert_with x xs)
    unfolding insert_with
    insert_with-IsSorted x [] d = (tt, tt)
    insert_with-IsSorted x (y ∷ ys) (m, d) = elim (Bool-cases (above (key y) (key x))) [
      | inl e ↦
          rw (e, insert_with)
            (
              NoneAbove-insert_with (key y) x ys (asym (key y) (key x) e) m,
              insert_with-IsSorted x ys d,
            )
      | inr e ↦ rw (e, insert_with) ((e, NoneAbove-mono (key y) (key x) ys e m), (m, d))
    ]

    pub sort_with-IsSorted : (xs : List A) → IsSorted (sort_with xs)
    unfolding sort_with
    sort_with-IsSorted [] = tt
    sort_with-IsSorted (x ∷ xs) = insert_with-IsSorted x (sort_with xs) (sort_with-IsSorted xs)

-- `(a, b) => key(b) - key(a)`, and `(a, b) => key(a) - key(b)`.
abbrev pub larger : ℕ → ℕ → Bool
larger a b = ltb b a

abbrev pub smaller : ℕ → ℕ → Bool
smaller a b = ltb a b

module _ {ℓ} {A : Type ℓ} (key : A → ℕ) where
  unfoldable pub sort_by : List A → List A
  unfolding sort_with
  sort_by xs = sort_with key larger xs

  unfoldable pub sort_up : List A → List A
  unfolding sort_with
  sort_up xs = sort_with key smaller xs

  abbrev pub IsDescending : List A → Type 0
  IsDescending = IsSorted key larger

  abbrev pub IsAscending : List A → Type 0
  IsAscending = IsSorted key smaller

  pub sort_by-IsDescending : (xs : List A) → IsDescending (sort_by xs)
  unfolding sort_by
  sort_by-IsDescending xs =
      sort_with-IsSorted key larger (λ a b c p q. ground arith) (λ a b p. ground arith) xs

  pub sort_up-IsAscending : (xs : List A) → IsAscending (sort_up xs)
  unfolding sort_up
  sort_up-IsAscending xs =
      sort_with-IsSorted key smaller (λ a b c p q. ground arith) (λ a b p. ground arith) xs

  pub filterb-sort_by :
      (k : ℕ) (xs : List A) → filterb (λ y. key y == k) (sort_by xs) ≡ filterb (λ y. key y == k) xs
  unfolding sort_by
  filterb-sort_by k xs = filterb-sort_with key larger (λ a b h. ground arith) k xs

  pub filterb-sort_up :
      (k : ℕ) (xs : List A) → filterb (λ y. key y == k) (sort_up xs) ≡ filterb (λ y. key y == k) xs
  unfolding sort_up
  filterb-sort_up k xs = filterb-sort_with key smaller (λ a b h. ground arith) k xs
