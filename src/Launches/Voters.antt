-- ===== src/Launches/Voters.antt =====
-- The `Set` of voters in app/src/app/api/launches/[id]/vote/route.ts, in insertion order.
use fbyt.Base.{
  ◌+◌, ◌≡◌, Text, text_eq, text_eq_iff, not, List, [], ◌∷◌, ◌++◌, arith, length, if◌then◌else◌,
}
use fbyt.Base.Sets.{
  has, remove, AreDistinct, has-remove, has-add, remove-AreDistinct, add-AreDistinct, length-remove,
  length-add,
}

-- `if (voters.has(me)) voters.delete(me); else voters.add(me)`
unfoldable pub toggle : List Text → Text → List Text
unfolding has remove
toggle vs me = if has vs me then remove vs me else vs ++ (me ∷ [])

-- A toggle changes the membership of the one voter.
pub has-toggle :
    (vs : List Text) (me u : Text)
    → has (toggle vs me) u ≡ (if text_eq me u then not (has vs me) else has vs u)
unfolding toggle
has-toggle vs me u = ground (arith, has-remove vs me u, has-add vs me u, text_eq_iff me u)

pub toggle-AreDistinct : (vs : List Text) (me : Text) → AreDistinct vs → AreDistinct (toggle vs me)
unfolding toggle
toggle-AreDistinct vs me d = ground (arith, remove-AreDistinct vs me d, add-AreDistinct vs me)

-- The number of votes goes up by one or down by one.
pub length-toggle :
    (vs : List Text) (me : Text)
    → AreDistinct vs
    → length (toggle vs me) + (if has vs me then 1 else 0)
      ≡ length vs + (if has vs me then 0 else 1)
unfolding toggle
length-toggle vs me d = ground (arith, length-remove vs me d, length-add vs me)
