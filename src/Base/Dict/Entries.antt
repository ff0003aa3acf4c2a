-- ===== src/Base/Dict/Entries.antt =====
-- What a loop over the entries or the values of a keyed map sees, and `retain`.
use Prim.Native.String.{String}
use mathlib.Core.Path.{◌≡◌, refl, subst, ◌∙◌}
use mathlib.Core.Logic.{inl, inr}
use mathlib.Core.Bool.{Bool, false}
use mathlib.Core.Option.{Option, none, some}
use mathlib.Core.List.{List, [], ◌∷◌, map, foldl}
use native.Mathlib.Omega.{arith}
use text.Mathlib.Text.{◌==◌}
use text.Mathlib.TextEquality.{eq_iff}
use text.Mathlib.TextPositions.{eq_refl}
use codex_webex_connector.Base.Tests.{if◌then◌else◌, Bool-cases, some_eq}
use codex_webex_connector.Base.Lists.{filterb, All, All-map}
use codex_webex_connector.Base.Dict.{
  Dict, option_if, get, remove, insert, entries, values, retain, from_values, get-remove,
  get-insert, get-entries,
}

module _ {ℓ κ} {V : Type ℓ} (P : String × V → Type κ) where
  All-remove :
      (k : String) (m : Dict V) → All P m → All (λ e. P e × ((k == e.0) ≡ false)) (remove k m)
  unfolding remove
  All-remove k [] h = tt
  All-remove k ((j, v) ∷ m) h = elim (Bool-cases (j == k)) [
    | inl e ↦ rw e (All-remove k m h.1)
    | inr e ↦ rw e ((h.0, ground (arith, eq_iff k j, eq_iff j k)), All-remove k m h.1)
  ]

module _ {ℓ} {V : Type ℓ} where
  abbrev Finds : Dict V → String × V → Type ℓ
  Finds m e = get m e.0 ≡ some e.1

  -- an entry is what `get` finds under its key
  entries-Finds : (m : Dict V) → All (Finds m) (entries m)
  unfolding entries get
  entries-Finds [] = tt
  entries-Finds ((k, v) ∷ m) = (
    rw (eq_refl k) refl,
    All-map (λ e h. rw h.1 h.0) (remove k (entries m))
        (All-remove (Finds m) k (entries m) (entries-Finds m)),
  )

module _ {ℓ κ} {V : Type ℓ} (P : V → Type κ) where
  All-values-of : (l : Dict V) → All (λ e. P e.1) l → All P (map (λ e. e.1) l)
  All-values-of [] h = tt
  All-values-of ((k, v) ∷ l) h = (h.0, All-values-of l h.1)

  -- A fact about everything that `get` can find holds of each value that a loop visits.
  pub All-values : (m : Dict V) → ((k : String) (v : V) → get m k ≡ some v → P v) → All P (values m)
  unfolding values
  All-values m f =
      All-values-of (entries m) (All-map (λ e h. f e.0 e.1 h) (entries m) (entries-Finds m))

  All-get : (l : Dict V) (k : String) {v : V} → All P (map (λ e. e.1) l) → get l k ≡ some v → P v
  unfolding get
  All-get [] k h e = cc
  All-get ((j, w) ∷ l) k {v} h e = elim (Bool-cases (j == k)) [
    | inl q ↦ subst P (some_eq w v (rw q at e)) h.0
    | inr q ↦ All-get l k h.1 (rw q at e)
  ]

  -- A loop over the values meets everything that `get` can find.
  pub get-All : (m : Dict V) (k : String) {v : V} → All P (values m) → get m k ≡ some v → P v
  unfolding values
  get-All m k h e = All-get (entries m) k h (get-entries k m ∙ e)

module _ {ℓ} {V : Type ℓ} where
  get-filterb-remove :
      (p : V → Bool) (k j : String) (m : Dict V)
      → get (filterb (λ e. p e.1) (remove k m)) j
        ≡ (if k == j then none else get (filterb (λ e. p e.1) m) j)
  unfolding get remove
  get-filterb-remove p k j [] = ground arith
  get-filterb-remove p k j ((i, v) ∷ m) =
      ground (arith, get-filterb-remove p k j m, eq_iff i k, eq_iff i j, eq_iff k j)

  pub get-retain :
      (p : V → Bool) (j : String) (m : Dict V) → get (retain p m) j ≡ option_if p (get m j)
  unfolding get retain
  get-retain p j [] = refl
  get-retain p j ((k, v) ∷ m) =
      ground (arith, get-filterb-remove p k j (entries m), get-retain p j m)

  -- each value stands under its own key
  abbrev pub IsKeyed : (V → String) → Dict V → Type ℓ
  IsKeyed key m = (k : String) (v : V) → get m k ≡ some v → key v ≡ k

  pub insert-IsKeyed :
      (key : V → String) (v : V) (m : Dict V) → IsKeyed key m → IsKeyed key (insert (key v) v m)
  insert-IsKeyed key v m h k w e = elim (Bool-cases (key v == k)) [
    | inl q ↦ ground (arith, eq_iff (key v) k, get-insert (key v) k v m)
    | inr q ↦ h k w (rw (get-insert (key v) k v m, q) at e)
  ]

  pub retain-IsKeyed :
      (key : V → String) (p : V → Bool) (m : Dict V) → IsKeyed key m → IsKeyed key (retain p m)
  retain-IsKeyed key p m h k w e = h k w (ground (arith, get-retain p k m))

  pub remove-IsKeyed :
      (key : V → String) (j : String) (m : Dict V) → IsKeyed key m → IsKeyed key (remove j m)
  remove-IsKeyed key j m h k w e = h k w (ground (arith, get-remove j k m))

  foldl-IsKeyed :
      (key : V → String) (vs : List V) (m : Dict V)
      → IsKeyed key m
      → IsKeyed key (foldl (λ a v. insert (key v) v a) m vs)
  foldl-IsKeyed key [] m h = h
  foldl-IsKeyed key (v ∷ vs) m h =
      foldl-IsKeyed key vs (insert (key v) v m) (insert-IsKeyed key v m h)

  pub from_values-IsKeyed : (key : V → String) (vs : List V) → IsKeyed key (from_values key vs)
  unfolding from_values get
  from_values-IsKeyed key vs = foldl-IsKeyed key vs [] (λ k v e. cc)

  -- no key twice
  abbrev IsUnique : Dict V → Type ℓ
  IsUnique [] = Unit
  IsUnique ((k, v) ∷ m) = (get m k ≡ none) × IsUnique m

  remove-IsUnique : (k : String) (m : Dict V) → IsUnique m → IsUnique (remove k m)
  unfolding remove
  remove-IsUnique k [] h = tt
  remove-IsUnique k ((j, v) ∷ m) h = elim (Bool-cases (j == k)) [
    | inl q ↦ rw q (remove-IsUnique k m h.1)
    | inr q ↦ rw q (ground (arith, get-remove k j m), remove-IsUnique k m h.1)
  ]

  entries-IsUnique : (m : Dict V) → IsUnique (entries m)
  unfolding entries
  entries-IsUnique [] = tt
  entries-IsUnique ((k, v) ∷ m) =
      (rw get-remove (rw (eq_refl k) refl), remove-IsUnique k (entries m) (entries-IsUnique m))

  abbrev or_else : Option V → Option V → Option V
  or_else none o = o
  or_else (some v) o = some v

  get-foldl :
      (key : V → String) (l acc : Dict V) (j : String)
      → IsUnique l
      → All (λ e. key e.1 ≡ e.0) l
      → get (foldl (λ a v. insert (key v) v a) acc (map (λ e. e.1) l)) j
        ≡ or_else (get l j) (get acc j)
  unfolding get
  get-foldl key [] acc j u h = refl
  get-foldl key ((k, v) ∷ l) acc j u h =
      get-foldl key l (insert (key v) v acc) j u.1 h.1
      ∙ ground (arith, get-insert (key v) j v acc, eq_iff k j, h.0, u.0)

  -- Collecting the values of a keyed map, in whatever order, gives the map back.
  pub get-from_values :
      (key : V → String) (m : Dict V) (j : String)
      → IsKeyed key m
      → get (from_values key (values m)) j ≡ get m j
  unfolding from_values values get
  get-from_values key m j h =
      get-foldl key (entries m) [] j (entries-IsUnique m)
        (All-map (λ e f. h e.0 e.1 f) (entries m) (entries-Finds m))
      ∙ ground (arith, get-entries j m)
