-- ===== src/Base/Sets.antt =====
-- A `Set` of strings, in insertion order.
use Prim.Native.Nat.{◌+◌}
use mathlib.Core.Path.{◌≡◌, refl, ◌∙◌}
use mathlib.Core.Bool.{Bool, true, false, ◌||◌}
use mathlib.Core.List.{List, [], ◌∷◌, ◌++◌}
use native.Mathlib.Omega.{arith}
use fbyt.Base.Tests.{if◌then◌else◌}
use fbyt.Base.Lists.{length}
use fbyt.Base.Strings.{Text, text_eq, text_eq_iff, text_eq_refl}

unfoldable pub has : List Text → Text → Bool
has [] t = false
has (v ∷ vs) t = text_eq v t || has vs t

unfoldable pub remove : List Text → Text → List Text
remove [] t = []
remove (v ∷ vs) t = let rest = remove vs t in if text_eq v t then rest else v ∷ rest

-- `new Set(list)`: the first of equal elements stays in its place.
unfoldable pub set_of : List Text → List Text
unfolding remove
set_of [] = []
set_of (v ∷ vs) = v ∷ remove (set_of vs) v

abbrev pub AreDistinct : List Text → Type 0
AreDistinct [] = Unit
AreDistinct (v ∷ vs) = (has vs v ≡ false) × AreDistinct vs

pub has-remove :
    (vs : List Text) (t u : Text) → has (remove vs t) u ≡ (if text_eq t u then false else has vs u)
unfolding has remove
has-remove [] t u = ground arith
has-remove (v ∷ vs) t u =
    ground (arith, has-remove vs t u, text_eq_iff v t, text_eq_iff v u, text_eq_iff t u)

pub has-add : (vs : List Text) (t u : Text) → has (vs ++ (t ∷ [])) u ≡ (has vs u || text_eq t u)
unfolding has
has-add [] t u = ground arith
has-add (v ∷ vs) t u = ground (arith, has-add vs t u)

pub remove_absent : (vs : List Text) (t : Text) → has vs t ≡ false → remove vs t ≡ vs
unfolding has remove
remove_absent [] t h = refl
remove_absent (v ∷ vs) t h = ground (arith, remove_absent vs t)

pub remove-AreDistinct : (vs : List Text) (t : Text) → AreDistinct vs → AreDistinct (remove vs t)
unfolding remove
remove-AreDistinct [] t d = tt
remove-AreDistinct (v ∷ vs) t (n, d) = ground (arith, remove-AreDistinct vs t d, has-remove vs t v)

pub add-AreDistinct :
    (vs : List Text) (t : Text) → has vs t ≡ false → AreDistinct vs → AreDistinct (vs ++ (t ∷ []))
unfolding has
add-AreDistinct [] t h d = (refl, tt)
add-AreDistinct (v ∷ vs) t h (n, d) =
    ground (arith, add-AreDistinct vs t, d, has-add vs t v, text_eq_iff v t, text_eq_iff t v)

pub set_of-AreDistinct : (vs : List Text) → AreDistinct (set_of vs)
unfolding set_of
set_of-AreDistinct [] = tt
set_of-AreDistinct (v ∷ vs) = (
  has-remove (set_of vs) v v ∙ rw (text_eq_refl v) refl,
  remove-AreDistinct (set_of vs) v (set_of-AreDistinct vs),
)

pub has-set_of : (vs : List Text) (t : Text) → has (set_of vs) t ≡ has vs t
unfolding set_of has
has-set_of [] t = refl
has-set_of (v ∷ vs) t = ground (arith, has-set_of vs t, has-remove (set_of vs) v t)

pub length-remove :
    (vs : List Text) (t : Text)
    → AreDistinct vs
    → has vs t ≡ true
    → length (remove vs t) + 1 ≡ length vs
unfolding has remove
length-remove [] t d h = cc
length-remove (v ∷ vs) t (n, d) h =
    ground (arith, length-remove vs t d, remove_absent vs t, text_eq_iff v t)

pub length-add : (vs : List Text) (t : Text) → length (vs ++ (t ∷ [])) ≡ length vs + 1
length-add [] t = refl
length-add (v ∷ vs) t = omega (arith, length-add vs t)
