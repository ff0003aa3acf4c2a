-- ===== src/Worker/Recent/Queue.antt =====
-- The queue of recent event ids beside the set of them: appending, evicting and filtering.
use codex_webex_connector.Base.{
  ℕ, suc, ◌-◌, ◌≤◌, ◌<◌, String, false, not, ◌||◌, List, [], ◌∷◌, ◌++◌, ◌≡◌, refl, sym, ap, subst,
  ◌∙◌, arith, dec_lt, ◌==◌, eq_iff, length, drop, filterb, if◌then◌else◌, inl, inr, Bool-cases,
}
use codex_webex_connector.Base.IdSet
use codex_webex_connector.Base.IdSet.{IdSet, contains, contains-insert, contains-remove}
use codex_webex_connector.Worker.Recent.{recent_event_id_limit, evict, IsDistinct, SameIds}

pub contains-append :
    (xs : List String) (x j : String) → contains (xs ++ x ∷ []) j ≡ (contains xs j || x == j)
unfolding contains
contains-append [] x j = ground arith
contains-append (y ∷ xs) x j = ground (arith, contains-append xs x j)

pub IsDistinct-append :
    (xs : List String) (x : String)
    → contains xs x ≡ false
    → IsDistinct xs
    → IsDistinct (xs ++ x ∷ [])
unfolding contains
IsDistinct-append [] x n h = (refl, tt)
IsDistinct-append (y ∷ xs) x n h = (
  ground (arith, contains-append xs x y, eq_iff x y, eq_iff y x),
  IsDistinct-append xs x (ground arith) h.1,
)

evict-over :
    (ids : IdSet) (x : String) (queue : List String)
    → recent_event_id_limit < length (x ∷ queue)
    → evict ids (x ∷ queue) ≡ evict (IdSet.remove x ids) queue
unfolding evict
evict-over ids x queue h = ground arith

evict-fits :
    (ids : IdSet) (x : String) (queue : List String)
    → length (x ∷ queue) ≤ recent_event_id_limit
    → evict ids (x ∷ queue) ≡ (ids, x ∷ queue)
unfolding evict
evict-fits ids x queue h = ground arith

-- the set and the queue that the loop leaves: the newest ids, up to the limit
abbrev pub IsTrimmed : List String → IdSet × List String → Type 0
IsTrimmed queue r =
    SameIds r.0 r.1
    × IsDistinct r.1
    × (r.1 ≡ drop (length queue - recent_event_id_limit) queue)
    × (length r.1 ≤ recent_event_id_limit)

drop-over :
    (x : String) (queue : List String) (n m : ℕ) → n ≡ suc m → drop n (x ∷ queue) ≡ drop m queue
drop-over x queue n m e = ap (λ k. drop k (x ∷ queue)) e

drop-none : (xs : List String) (n : ℕ) → n ≡ 0 → drop n xs ≡ xs
drop-none xs n e = ap (λ k. drop k xs) e

SameIds-remove :
    (ids : IdSet) (x : String) (queue : List String)
    → SameIds ids (x ∷ queue)
    → contains queue x ≡ false
    → SameIds (IdSet.remove x ids) queue
unfolding contains
SameIds-remove ids x queue s n j = ground (arith, contains-remove x j ids, s j, eq_iff x j)

pub evict-IsTrimmed :
    (ids : IdSet) (queue : List String)
    → SameIds ids queue
    → IsDistinct queue
    → IsTrimmed queue (evict ids queue)
unfolding evict
evict-IsTrimmed ids [] s d =
    (s, d, sym (drop-none [] (0 - recent_event_id_limit) (omega arith)), omega arith)
evict-IsTrimmed ids (x ∷ queue) s d = elim (dec_lt recent_event_id_limit (length (x ∷ queue))) [
  | yes over ↦
      let ih = evict-IsTrimmed (IdSet.remove x ids) queue (SameIds-remove ids x queue s d.0) d.1 in
      subst (IsTrimmed (x ∷ queue)) (sym (evict-over ids x queue over))
        (ih.0, ih.1, ih.2 ∙ sym (drop-over x queue _ _ (omega arith)), ih.3)
  | no fits ↦
      subst (IsTrimmed (x ∷ queue)) (sym (evict-fits ids x queue (omega arith)))
        (s, d, sym (drop-none (x ∷ queue) _ (omega arith)), omega arith)
]

pub contains-filterb :
    (x j : String) (xs : List String)
    → contains (filterb (λ q. not (q == x)) xs) j ≡ (if x == j then false else contains xs j)
unfolding contains
contains-filterb x j [] = ground arith
contains-filterb x j (y ∷ xs) =
    ground (arith, contains-filterb x j xs, eq_iff y x, eq_iff y j, eq_iff x j)

pub IsDistinct-filterb :
    (x : String) (xs : List String) → IsDistinct xs → IsDistinct (filterb (λ q. not (q == x)) xs)
IsDistinct-filterb x [] h = tt
IsDistinct-filterb x (y ∷ xs) h = elim (Bool-cases (y == x)) [
  | inl e ↦ rw e (IsDistinct-filterb x xs h.1)
  | inr e ↦ rw e (ground (arith, contains-filterb x y xs), IsDistinct-filterb x xs h.1)
]
