-- ===== src/Base/Dict.antt =====
-- `HashMap<String, V>` as an association list in which an entry hides the later ones of its key.
-- The order of the list is the order of iteration, which the library leaves open: what is proved
-- for every list is proved for every order.
pub mod Entries
use Prim.Native.String.{String}
use Prim.Native.Nat.{ℕ}
use mathlib.Core.Path.{◌≡◌, refl}
use mathlib.Core.Bool.{Bool}
use mathlib.Core.Option.{Option, none, some}
use mathlib.Core.List.{List, [], ◌∷◌, map, foldl}
use native.Mathlib.Omega.{arith}
use text.Mathlib.Text.{◌==◌}
use text.Mathlib.TextEquality.{eq_iff}
use codex_webex_connector.Base.Tests.{if◌then◌else◌}
use codex_webex_connector.Base.Lists.{length, filterb}

abbrev pub Dict {ℓ} : Type ℓ → Type ℓ
Dict V = List (String × V)

abbrev pub option_if {ℓ} : {V : Type ℓ} → (V → Bool) → Option V → Option V
option_if p none = none
option_if p (some v) = if p v then some v else none

module _ {ℓ} {V : Type ℓ} where
  abbrev pub empty : Dict V
  empty = []

  unfoldable pub get : Dict V → String → Option V
  get [] k = none
  get ((j, v) ∷ m) k = if j == k then some v else get m k

  unfoldable pub remove : String → Dict V → Dict V
  remove k [] = []
  remove k ((j, v) ∷ m) = let rest = remove k m in if j == k then rest else (j, v) ∷ rest

  unfoldable pub insert : String → V → Dict V → Dict V
  unfolding remove
  insert k v m = (k, v) ∷ remove k m

  -- each key once, with the value that `get` finds
  unfoldable pub entries : Dict V → Dict V
  unfolding remove
  entries [] = []
  entries ((k, v) ∷ m) = (k, v) ∷ remove k (entries m)

  unfoldable pub values : Dict V → List V
  unfolding entries
  values m = map (λ e. e.1) (entries m)

  unfoldable pub len : Dict V → ℕ
  unfolding entries
  len m = length (entries m)

  -- `retain(|_, v| p v)`
  unfoldable pub retain : (V → Bool) → Dict V → Dict V
  unfolding entries
  retain p m = filterb (λ e. p e.1) (entries m)

  -- `collect` of keyed values: a later one replaces an earlier one
  unfoldable pub from_values : (V → String) → List V → Dict V
  unfolding insert
  from_values key vs = foldl (λ m v. insert (key v) v m) [] vs

  pub get-empty : (k : String) → get empty k ≡ none
  unfolding get
  get-empty k = refl

  pub get-remove :
      (k j : String) (m : Dict V) → get (remove k m) j ≡ (if k == j then none else get m j)
  unfolding get remove
  get-remove k j [] = ground arith
  get-remove k j ((i, v) ∷ m) = ground (arith, get-remove k j m, eq_iff i k, eq_iff i j, eq_iff k j)

  pub get-insert :
      (k j : String) (v : V) (m : Dict V)
      → get (insert k v m) j ≡ (if k == j then some v else get m j)
  unfolding get insert
  get-insert k j v m = ground (arith, get-remove k j m)

  pub get-entries : (j : String) (m : Dict V) → get (entries m) j ≡ get m j
  unfolding get entries
  get-entries j [] = refl
  get-entries j ((k, v) ∷ m) = ground (arith, get-remove k j (entries m), get-entries j m)

pub ruleset dict_laws = (get-empty, get-remove, get-insert)
