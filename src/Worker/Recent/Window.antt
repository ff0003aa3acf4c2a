-- ===== src/Worker/Recent/Window.antt =====
-- `remember_event`, `forget_event` and `merge_recent_event_ids` keep the window of recent events.
use codex_webex_connector.Base.{
  ℕ, ◌+◌, ◌-◌, String, true, false, not, List, [], ◌∷◌, ◌++◌, ◌≡◌, refl, sym, ap, ◌∙◌, arith, ◌==◌,
  eq_iff, length, drop, length-append, length-filterb, if◌then◌else◌, inl, inr, Bool-cases,
}
use codex_webex_connector.Base.IdSet
use codex_webex_connector.Base.IdSet.{IdSet, contains, contains-insert, contains-remove}
use codex_webex_connector.Base.Text.{trim, is_empty}
use codex_webex_connector.Worker.{WorkerState}
use codex_webex_connector.Worker.Indexes.{SameRoutes, SameRoutes-trans}
use codex_webex_connector.Worker.Recent.{
  recent_event_id_limit, evict, remember_event, forget_event, import_one, import_all,
  merge_recent_event_ids, SameIds, IsWindow,
}
use codex_webex_connector.Worker.Recent.Queue.{
  contains-append, IsDistinct-append, evict-IsTrimmed, IsTrimmed, contains-filterb,
  IsDistinct-filterb,
}

remember_event-old :
    (event_id : String) (s : WorkerState)
    → contains s.recent_event_ids event_id ≡ true
    → remember_event event_id s ≡ (s, false)
unfolding remember_event
remember_event-old event_id s h = rw h

abbrev extended : String → WorkerState → IdSet × List String
extended event_id s =
    evict (IdSet.insert event_id s.recent_event_ids) (s.recent_event_queue ++ event_id ∷ [])

remember_event-new :
    (event_id : String) (s : WorkerState)
    → contains s.recent_event_ids event_id ≡ false
    → remember_event event_id s ≡ (
      record s {
        recent_event_ids = (extended event_id s).0;
        recent_event_queue = (extended event_id s).1;
      },
      true,
    )
unfolding remember_event
remember_event-new event_id s h = rw h

SameIds-extended :
    (event_id : String) (s : WorkerState)
    → SameIds s.recent_event_ids s.recent_event_queue
    → SameIds (IdSet.insert event_id s.recent_event_ids) (s.recent_event_queue ++ event_id ∷ [])
SameIds-extended event_id s h j = ground (
  arith,
  h j,
  contains-insert event_id j s.recent_event_ids,
  contains-append s.recent_event_queue event_id j,
)

extended-IsTrimmed :
    (event_id : String) (s : WorkerState)
    → IsWindow s
    → contains s.recent_event_ids event_id ≡ false
    → IsTrimmed (s.recent_event_queue ++ event_id ∷ []) (extended event_id s)
extended-IsTrimmed event_id s w h =
    evict-IsTrimmed _ _ (SameIds-extended event_id s w.same)
      (IsDistinct-append s.recent_event_queue event_id (sym (w.same event_id) ∙ h) w.distinct)

-- Remembering an event answers whether it was not in the window. A new event joins the queue at
-- the back and only the oldest leave, so that the limit holds; an old one changes nothing.
pub remember_event_lem :
    (event_id : String) (s : WorkerState)
    → IsWindow s
    → (let (t, is_new) = remember_event event_id s in
        IsWindow t
        × (is_new ≡ not (contains s.recent_event_queue event_id))
        × (t.recent_event_queue ≡ (
            if is_new
            then drop
                (length s.recent_event_queue + 1 - recent_event_id_limit)
                (s.recent_event_queue ++ event_id ∷ [])
            else s.recent_event_queue)))
remember_event_lem event_id s w = elim (Bool-cases (contains s.recent_event_ids event_id)) [
  | inl old ↦ rw (remember_event-old event_id s old) (w, ground (arith, w.same event_id), refl)
  | inr new ↦
      let (same, distinct, dropped, bounded) = extended-IsTrimmed event_id s w new in
      rw (remember_event-new event_id s new) (
        record { same = same; distinct = distinct; bounded = bounded },
        ground (arith, w.same event_id),
        dropped
            ∙ ap (λ n. drop (n - recent_event_id_limit) (s.recent_event_queue ++ event_id ∷ []))
                (omega (arith, length-append s.recent_event_queue (event_id ∷ []))),
      )
]

-- A forgotten event is not in the window, every other one stays, and the window is kept in order.
pub forget_event_lem :
    (event_id : String) (s : WorkerState)
    → IsWindow s
    → IsWindow (forget_event event_id s)
      × ((j : String)
          → contains (forget_event event_id s).recent_event_ids j
            ≡ (if event_id == j then false else contains s.recent_event_ids j))
unfolding forget_event
forget_event_lem event_id s w = elim (Bool-cases (contains s.recent_event_ids event_id)) [
  | inl old ↦ rw old (
    record {
      same = λ j. ground (
        arith,
        w.same j,
        contains-remove event_id j s.recent_event_ids,
        contains-filterb event_id j s.recent_event_queue,
      );
      distinct = IsDistinct-filterb event_id s.recent_event_queue w.distinct;
      bounded =
          omega (arith, length-filterb (λ q. not (q == event_id)) s.recent_event_queue, w.bounded);
    },
    λ j. contains-remove event_id j s.recent_event_ids,
  )
  | inr gone ↦ rw gone (w, λ j. ground (arith, eq_iff event_id j))
]

import_one-IsWindow :
    (event_id : String) (acc : WorkerState × ℕ)
    → IsWindow acc.0
    → IsWindow (import_one event_id acc).0
import_one-IsWindow event_id acc w = elim (Bool-cases (is_empty event_id)) [
  | inl e ↦ rw e w
  | inr e ↦ rw e (remember_event_lem event_id acc.0 w).0
]

import_all-IsWindow :
    (event_ids : List String) (acc : WorkerState × ℕ)
    → IsWindow acc.0
    → IsWindow (import_all event_ids acc).0
unfolding import_all
import_all-IsWindow [] acc w = w
import_all-IsWindow (event_id ∷ event_ids) acc w =
    import_all-IsWindow event_ids (import_one (trim event_id) acc)
      (import_one-IsWindow (trim event_id) acc w)

-- Importing the event ids of a handoff keeps the window.
pub merge_recent_event_ids-IsWindow :
    (event_ids : List String) (s : WorkerState)
    → IsWindow s
    → IsWindow (merge_recent_event_ids event_ids s).0
unfolding merge_recent_event_ids
merge_recent_event_ids-IsWindow event_ids s w = import_all-IsWindow event_ids (s, 0) w

import_one-SameRoutes :
    (event_id : String) (acc : WorkerState × ℕ) → SameRoutes acc.0 (import_one event_id acc).0
unfolding remember_event
import_one-SameRoutes event_id acc = ground arith

import_all-SameRoutes :
    (event_ids : List String) (acc : WorkerState × ℕ)
    → SameRoutes acc.0 (import_all event_ids acc).0
unfolding import_all
import_all-SameRoutes [] acc = (refl, refl, refl, refl)
import_all-SameRoutes (event_id ∷ event_ids) acc =
    SameRoutes-trans acc.0 (import_one (trim event_id) acc).0
      (import_all event_ids (import_one (trim event_id) acc)).0
      (import_one-SameRoutes (trim event_id) acc)
      (import_all-SameRoutes event_ids (import_one (trim event_id) acc))

-- the import touches neither the sessions nor their indexes
pub merge_recent_event_ids-routes :
    (event_ids : List String) (s : WorkerState)
    → SameRoutes s (merge_recent_event_ids event_ids s).0
unfolding merge_recent_event_ids
merge_recent_event_ids-routes event_ids s = import_all-SameRoutes event_ids (s, 0)
