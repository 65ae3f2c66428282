-- ===== src/Json/Fields.antt =====
-- Values, field lookup, and the object spread `{ ...a, ...b }`.
use text.Mathlib.Text.{◌==◌ as str_eq}
use text.Mathlib.TextEquality.{eq_iff}
use fbyt.Base.{
  zero, suc, ◌≡◌, refl, String, Text, Bool, true, false, Option, none, some, List, [], ◌∷◌, arith,
  if◌then◌else◌,
}
use fbyt.Base.Int.{ℤ, pos}

mutual
  pub data Json : Type 0 where
    null : Json
    bool : Bool → Json
    num : ℤ → Json
    str : Text → Json
    arr : Items → Json
    obj : Doc → Json

  pub data Items : Type 0 where
    nil : Items
    cons : Json → Items → Items

  pub data Doc : Type 0 where
    end : Doc
    field : String → Json → Doc → Doc

-- `d.k`; `none` is `undefined`.
unfoldable pub get : Doc → String → Option Json
get end k = none
get (field j v d) k = if str_eq j k then some v else get d k

-- `{ ...d, [k]: v }`: a key that is there keeps its place.
unfoldable pub set : Doc → String → Json → Doc
set end k v = field k v end
set (field j w d) k v = if str_eq j k then field j v d else field j w (set d k v)

-- `{ ...d, ...patch }`
unfoldable pub spread : Doc → Doc → Doc
unfolding set
spread d end = d
spread d (field k v p) = spread (set d k v) p

-- The strings of an array of strings, and back.
unfoldable pub texts : Items → List Text
texts nil = []
texts (cons (str t) r) = t ∷ texts r
texts (cons _ r) = texts r

unfoldable pub items : List Text → Items
items [] = nil
items (t ∷ r) = cons (str t) (items r)

pub texts-items : (l : List Text) → texts (items l) ≡ l
unfolding texts items
texts-items [] = refl
texts-items (t ∷ r) = ground (arith, texts-items r)

-- Whether a value counts as true in a test.
unfoldable pub truthy : Option Json → Bool
truthy none = false
truthy (some null) = false
truthy (some (bool b)) = b
truthy (some (num (pos n))) = elim n [ zero ↦ false | suc m ↦ true ]
truthy (some (str [])) = false
truthy (some _) = true

pub get-set :
    (d : Doc) (k j : String) (v : Json)
    → get (set d k v) j ≡ (if str_eq k j then some v else get d j)
unfolding get set
get-set end k j v = refl
get-set (field i w d) k j v = ground (arith, get-set d k j v, eq_iff i k, eq_iff i j, eq_iff k j)

-- A later field of the patch wins over an earlier one, and a field of the patch over the document.
abbrev pub or_else : Option Json → Option Json → Option Json
or_else (some v) o = some v
or_else none o = o

-- The last value of a key in a patch.
unfoldable pub last : Doc → String → Option Json
last end k = none
last (field j v d) k = or_else (last d k) (if str_eq j k then some v else none)

pub get-spread : (d p : Doc) (k : String) → get (spread d p) k ≡ or_else (last p k) (get d k)
unfolding spread last
get-spread d end k = refl
get-spread d (field j v p) k = ground (arith, get-spread (set d j v) p k, get-set d j k v)
