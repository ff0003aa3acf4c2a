-- ===== src/Worker/Routing.antt =====
-- crates/wxcd-worker/src/main.rs: what a room or a thread is routed to, and what no rebuilt index
-- misses.
use codex_webex_connector.Base.{
  String, Bool, true, some, List, [], ◌∷◌, foldl, ◌≡◌, arith, eq_iff, is_some, All,
}
use codex_webex_connector.Base.Dict
use codex_webex_connector.Base.Dict.{Dict, get-insert, get-empty}
use codex_webex_connector.Base.Dict.Entries.{get-All}
use codex_webex_connector.Model.{SessionRecord}
use codex_webex_connector.EventLog.{ReplayState}
use codex_webex_connector.Worker.{
  WorkerState, initial, index_session, rebuild_index, upsert_session, rebuild_session_indexes,
  should_route_session_room, should_index_session_thread, from_replay, set_executable_installation,
}
use codex_webex_connector.Worker.Indexes.{
  IsRouted, upsert_session-IsRouted, set_executable_installation-IsRouted,
}

module _ (field : SessionRecord → String) (test : SessionRecord → Bool) where
  abbrev pub HasKey : Dict String → SessionRecord → Type 0
  HasKey index t = test t ≡ true → is_some (Dict.get index (field t)) ≡ true

  index_session-HasKey :
      (index : Dict String) (session t : SessionRecord)
      → HasKey index t
      → HasKey (index_session field test session index) t
  index_session-HasKey index session t h pass =
      ground (arith, h pass, get-insert (field session) (field t) session.session_id index)

  index_session-HasKey_self :
      (index : Dict String) (t : SessionRecord) → HasKey (index_session field test t index) t
  index_session-HasKey_self index t pass =
      ground (arith, get-insert (field t) (field t) t.session_id index, eq_iff (field t) (field t))

  rebuild_index-HasKey :
      (ts : List SessionRecord) (index : Dict String) (t : SessionRecord)
      → HasKey index t
      → HasKey (rebuild_index field test ts index) t
  unfolding rebuild_index
  rebuild_index-HasKey [] index t h = h
  rebuild_index-HasKey (x ∷ ts) index t h =
      rebuild_index-HasKey ts (index_session field test x index) t
        (index_session-HasKey index x t h)

  rebuild_index_complete :
      (ts : List SessionRecord) (index : Dict String)
      → All (HasKey (rebuild_index field test ts index)) ts
  unfolding rebuild_index
  rebuild_index_complete [] index = tt
  rebuild_index_complete (t ∷ ts) index = (
    rebuild_index-HasKey ts (index_session field test t index) t
        (index_session-HasKey_self index t),
    rebuild_index_complete ts (index_session field test t index),
  )

-- the room of every session that is to be routed, and the thread of every session that is to be
-- indexed, has an entry
abbrev pub IsComplete : WorkerState → Type 0
IsComplete s =
    (id : String) (t : SessionRecord)
    → Dict.get s.sessions id ≡ some t
    → HasKey (λ x. x.session_room_id) (should_route_session_room s) s.room_to_session t
      × HasKey (λ x. x.thread_id) (should_index_session_thread s) s.thread_to_session t

pub rebuild_session_indexes-IsComplete : (s : WorkerState) → IsComplete (rebuild_session_indexes s)
unfolding rebuild_session_indexes
rebuild_session_indexes-IsComplete s id t found =
    let room = λ (x : SessionRecord). x.session_room_id in
    let thread = λ (x : SessionRecord). x.thread_id in
    (
      get-All (HasKey room (should_route_session_room s) _) s.sessions id
          (rebuild_index_complete room (should_route_session_room s) (Dict.values s.sessions)
            Dict.empty)
          found,
      get-All (HasKey thread (should_index_session_thread s) _) s.sessions id
          (rebuild_index_complete thread (should_index_session_thread s) (Dict.values s.sessions)
            Dict.empty)
          found,
    )

foldl-upsert_session-IsRouted :
    (ts : List SessionRecord) (s : WorkerState)
    → IsRouted s
    → IsRouted (foldl (λ s session. upsert_session session s) s ts)
foldl-upsert_session-IsRouted [] s h = h
foldl-upsert_session-IsRouted (t ∷ ts) s h =
    foldl-upsert_session-IsRouted ts (upsert_session t s) (upsert_session-IsRouted t s h)

-- A worker that starts from a replayed log has indexes that agree with its sessions.
pub from_replay-IsRouted : (replay : ReplayState) → IsRouted (from_replay replay)
unfolding from_replay Dict.get
from_replay-IsRouted replay =
    let start : WorkerState = record initial {
      events_since_snapshot = replay.events_since_snapshot;
      remote_snapshot_created_at = replay.snapshot_created_at;
      remote_archived_session_ids = replay.archived_session_ids;
      remote_purged_session_ids = replay.purged_session_ids;
      remote_resolved_approval_ids = replay.resolved_approval_ids;
    } in
    let routed =
      foldl-upsert_session-IsRouted (Dict.values replay.sessions) start
        (record { keyed = λ k v e. cc; rooms = λ k v e. cc; threads = λ k v e. cc }) in
    record { keyed = routed.keyed; rooms = routed.rooms; threads = routed.threads }

-- A worker that starts from a replayed log, and is told its installation, has an entry for the room of
-- every session that is to be routed and for the thread of every session that is to be indexed; and
-- each entry leads to a session of its key that is to be routed, or indexed.
pub set_executable_installation-from_replay :
    (installation : String) (replay : ReplayState)
    → (let s = set_executable_installation installation (from_replay replay) in
        IsRouted s × IsComplete s)
unfolding set_executable_installation
set_executable_installation-from_replay installation replay = (
  set_executable_installation-IsRouted installation (from_replay replay)
      (from_replay-IsRouted replay).keyed,
  rebuild_session_indexes-IsComplete
      (record (from_replay replay) { executable_installation_id = some installation }),
)
