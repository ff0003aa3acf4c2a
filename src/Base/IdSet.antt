-- ===== src/Base/IdSet.antt =====
-- `HashSet<String>`: membership is the whole of what the program observes, so the order and the
-- repetitions in the list are never seen.
use Prim.Native.String.{String}
use mathlib.Core.Path.{◌≡◌, refl}
use mathlib.Core.Bool.{Bool, true, false, ◌||◌}
use mathlib.Core.List.{List, [], ◌∷◌}
use native.Mathlib.Omega.{arith}
use text.Mathlib.Text.{◌==◌}
use text.Mathlib.TextEquality.{eq_iff}
use codex_webex_connector.Base.Tests.{if◌then◌else◌}

abbrev pub IdSet : Type 0
IdSet = List String

abbrev pub empty : IdSet
empty = []

unfoldable pub contains : IdSet → String → Bool
contains [] k = false
contains (x ∷ s) k = x == k || contains s k

unfoldable pub insert : String → IdSet → IdSet
unfolding contains
insert k s = if contains s k then s else k ∷ s

unfoldable pub remove : String → IdSet → IdSet
remove k [] = []
remove k (x ∷ s) = let rest = remove k s in if x == k then rest else x ∷ rest

pub contains-empty : (j : String) → contains empty j ≡ false
unfolding contains
contains-empty j = refl

pub contains-insert :
    (k j : String) (s : IdSet) → contains (insert k s) j ≡ (if k == j then true else contains s j)
unfolding insert
contains-insert k j s = ground (arith, eq_iff k j)

pub contains-remove :
    (k j : String) (s : IdSet) → contains (remove k s) j ≡ (if k == j then false else contains s j)
unfolding contains remove
contains-remove k j [] = ground arith
contains-remove k j (x ∷ s) =
    ground (arith, contains-remove k j s, eq_iff x k, eq_iff x j, eq_iff k j)

pub ruleset set_laws = (contains-empty, contains-insert, contains-remove)
