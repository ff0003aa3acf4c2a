-- ===== src/Worker/Recent.antt =====
-- crates/wxcd-worker/src/main.rs, `remember_event`, `forget_event` and `merge_recent_event_ids`:
-- the window of the last 1024 event ids by which repeated deliveries are recognised.
pub mod Queue
pub mod Window
use codex_webex_connector.Base.{
  ℕ, zero, suc, ◌+◌, ◌-◌, ◌≤◌, ◌<◌, String, Bool, true, false, not, ◌&&◌, ◌||◌, List, [], ◌∷◌, ◌++◌,
  ◌≡◌, refl, sym, ap, subst, ◌∙◌, arith, dec_lt, ◌==◌, eq_iff, eq_refl, ltb, length, drop, filterb,
  length-append, length-drop, length-filterb, if◌then◌else◌, inl, inr, Bool-cases,
}
use codex_webex_connector.Base.IdSet
use codex_webex_connector.Base.IdSet.{IdSet, contains, contains-insert, contains-remove}
use codex_webex_connector.Base.Text.{trim, is_empty}
use codex_webex_connector.Worker.{WorkerState}

abbrev pub recent_event_id_limit : ℕ
recent_event_id_limit = 1024

-- the `while` loop: one id leaves the front of the queue in each round
unfoldable pub evict : IdSet → List String → IdSet × List String
evict ids [] = (ids, [])
evict ids (evicted ∷ queue) =
    let rest = evict (IdSet.remove evicted ids) queue in
    if ltb recent_event_id_limit (length (evicted ∷ queue)) then rest else (ids, evicted ∷ queue)

unfoldable pub remember_event : String → WorkerState → WorkerState × Bool
unfolding evict
remember_event event_id s =
    if IdSet.contains s.recent_event_ids event_id
    then (s, false)
    else let (ids, queue) =
        evict (IdSet.insert event_id s.recent_event_ids) (s.recent_event_queue ++ event_id ∷ []) in
      (record s { recent_event_ids = ids; recent_event_queue = queue }, true)

unfoldable pub forget_event : String → WorkerState → WorkerState
forget_event event_id s =
    if IdSet.contains s.recent_event_ids event_id
    then record s {
      recent_event_ids = IdSet.remove event_id s.recent_event_ids;
      recent_event_queue = filterb (λ queued. not (queued == event_id)) s.recent_event_queue;
    }
    else s

-- one round of `merge_recent_event_ids`, with the number imported so far
abbrev import_one : String → WorkerState × ℕ → WorkerState × ℕ
import_one event_id (s, imported) =
    if is_empty event_id
    then (s, imported)
    else let (t, is_new) = remember_event event_id s in
      (t, if is_new then imported + 1 else imported)

import_all : List String → WorkerState × ℕ → WorkerState × ℕ
import_all [] acc = acc
import_all (event_id ∷ event_ids) acc = import_all event_ids (import_one (trim event_id) acc)

unfoldable pub merge_recent_event_ids : List String → WorkerState → WorkerState × ℕ
unfolding import_all
merge_recent_event_ids event_ids s = import_all event_ids (s, 0)

abbrev pub IsDistinct : List String → Type 0
IsDistinct [] = Unit
IsDistinct (x ∷ xs) = (contains xs x ≡ false) × IsDistinct xs

abbrev pub SameIds : IdSet → List String → Type 0
SameIds ids queue = (j : String) → contains ids j ≡ contains queue j

-- the set holds the ids of the queue, none of them twice, and no more than the limit
pub record IsWindow (s : WorkerState) : Type 0 where
  pub same : SameIds s.recent_event_ids s.recent_event_queue
  pub distinct : IsDistinct s.recent_event_queue
  pub bounded : length s.recent_event_queue ≤ recent_event_id_limit
