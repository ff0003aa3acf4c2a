-- ===== src/Worker.antt =====
-- crates/wxcd-worker/src/main.rs, `WorkerState`: the sessions with the two indexes that route
-- rooms and threads to them, the pending approvals, what is known of the Data Space, and the
-- window of recent event ids.
pub mod Indexes
pub mod Routing
pub mod Recent
pub mod Merge
pub mod Guards
pub mod Handoff
use codex_webex_connector.Base.{
  ℕ, String, Bool, true, false, not, ◌&&◌, ◌||◌, Option, none, some, List, [], ◌∷◌, foldl, ◌==◌,
  is_none_or, if◌then◌else◌,
}
use codex_webex_connector.Base.Dict
use codex_webex_connector.Base.Dict.{Dict}
use codex_webex_connector.Base.IdSet
use codex_webex_connector.Base.IdSet.{IdSet}
use codex_webex_connector.Model.{
  Instant, SessionRecord, PendingApproval, BridgeSnapshot, counts_as_archived, state_is_failed,
}
use codex_webex_connector.EventLog
use codex_webex_connector.EventLog.{ReplayState}
use codex_webex_connector.Sessions.{session_belongs_to_installation}

pub record WorkerState : Type 0 where
  pub sessions : Dict SessionRecord
  pub room_to_session : Dict String
  pub thread_to_session : Dict String
  pub pending_approvals : Dict PendingApproval
  pub remote_snapshot_created_at : Option Instant
  pub remote_archived_session_ids : IdSet
  pub remote_purged_session_ids : IdSet
  pub remote_resolved_approval_ids : IdSet
  pub recent_event_ids : IdSet
  pub recent_event_queue : List String
  pub events_since_snapshot : ℕ
  pub executable_installation_id : Option String

-- the test reads nothing of the state but `executable_installation_id`
abbrev pub routes : Option String → SessionRecord → Bool
routes installation session =
    if counts_as_archived session
    then false
    else is_none_or installation (λ id. session_belongs_to_installation session id)

abbrev pub indexes : Option String → SessionRecord → Bool
indexes installation session = not (state_is_failed session.state) && routes installation session

abbrev pub should_route_session_room : WorkerState → SessionRecord → Bool
should_route_session_room s session = routes s.executable_installation_id session

abbrev pub should_index_session_thread : WorkerState → SessionRecord → Bool
should_index_session_thread s session = indexes s.executable_installation_id session

-- an index without the key of the session that is replaced or removed
abbrev pub forget_key : (SessionRecord → String) → Option SessionRecord → Dict String → Dict String
forget_key field none index = index
forget_key field (some previous) index = Dict.remove (field previous) index

abbrev pub index_session :
    (SessionRecord → String) → (SessionRecord → Bool) → SessionRecord → Dict String → Dict String
index_session field test session index =
    if test session then Dict.insert (field session) session.session_id index else index

unfoldable pub upsert_session : SessionRecord → WorkerState → WorkerState
upsert_session session s =
    let previous = Dict.get s.sessions session.session_id in
    record s {
      room_to_session =
          index_session (λ t. t.session_room_id) (should_route_session_room s) session
            (forget_key (λ t. t.session_room_id) previous s.room_to_session);
      thread_to_session =
          index_session (λ t. t.thread_id) (should_index_session_thread s) session
            (forget_key (λ t. t.thread_id) previous s.thread_to_session);
      sessions = Dict.insert session.session_id session s.sessions;
    }

unfoldable pub remove_pending_approvals_for_session : String → WorkerState → WorkerState
remove_pending_approvals_for_session id s = record s {
  pending_approvals = Dict.retain (λ a. not (a.session_id == id)) s.pending_approvals;
}

abbrev remove_found :
    String → Option SessionRecord → WorkerState → WorkerState × Option SessionRecord
remove_found id none s = (s, none)
remove_found id (some session) s = (
  remove_pending_approvals_for_session id (record s {
    sessions = Dict.remove id s.sessions;
    room_to_session = Dict.remove session.session_room_id s.room_to_session;
    thread_to_session = Dict.remove session.thread_id s.thread_to_session;
  }),
  some session,
)

unfoldable pub remove_session : String → WorkerState → WorkerState × Option SessionRecord
unfolding remove_pending_approvals_for_session
remove_session id s = remove_found id (Dict.get s.sessions id) s

-- one of the two indexes, from nothing
unfoldable pub rebuild_index :
    (SessionRecord → String)
    → (SessionRecord → Bool)
    → List SessionRecord
    → Dict String
    → Dict String
rebuild_index field test sessions index =
    foldl (λ acc session. index_session field test session acc) index sessions

unfoldable pub rebuild_session_indexes : WorkerState → WorkerState
unfolding rebuild_index
rebuild_session_indexes s = record s {
  room_to_session =
      rebuild_index (λ t. t.session_room_id) (should_route_session_room s) (Dict.values s.sessions)
        Dict.empty;
  thread_to_session =
      rebuild_index (λ t. t.thread_id) (should_index_session_thread s) (Dict.values s.sessions)
        Dict.empty;
}

unfoldable pub set_executable_installation : String → WorkerState → WorkerState
unfolding rebuild_session_indexes
set_executable_installation id s =
    rebuild_session_indexes (record s { executable_installation_id = some id })

-- `WorkerState::default()`
abbrev pub initial : WorkerState
initial = record {
  sessions = Dict.empty;
  room_to_session = Dict.empty;
  thread_to_session = Dict.empty;
  pending_approvals = Dict.empty;
  remote_snapshot_created_at = none;
  remote_archived_session_ids = IdSet.empty;
  remote_purged_session_ids = IdSet.empty;
  remote_resolved_approval_ids = IdSet.empty;
  recent_event_ids = IdSet.empty;
  recent_event_queue = [];
  events_since_snapshot = 0;
  executable_installation_id = none;
}

unfoldable pub from_replay : ReplayState → WorkerState
unfolding upsert_session
from_replay replay =
    let start = record initial {
      events_since_snapshot = replay.events_since_snapshot;
      remote_snapshot_created_at = replay.snapshot_created_at;
      remote_archived_session_ids = replay.archived_session_ids;
      remote_purged_session_ids = replay.purged_session_ids;
      remote_resolved_approval_ids = replay.resolved_approval_ids;
    } in
    let with_sessions =
      foldl (λ s session. upsert_session session s) start (Dict.values replay.sessions) in
    record with_sessions {
      pending_approvals =
          foldl (λ m (a : PendingApproval). Dict.insert a.approval_id a m)
            with_sessions.pending_approvals (Dict.values replay.pending_approvals);
    }

unfoldable pub to_replay_state : WorkerState → ReplayState
to_replay_state s = record {
  sessions = s.sessions;
  pending_approvals = s.pending_approvals;
  events_since_snapshot = s.events_since_snapshot;
  snapshot_created_at = s.remote_snapshot_created_at;
  archived_session_ids = s.remote_archived_session_ids;
  purged_session_ids = s.remote_purged_session_ids;
  resolved_approval_ids = s.remote_resolved_approval_ids;
}

unfoldable pub to_snapshot : Instant → WorkerState → BridgeSnapshot
unfolding to_replay_state
to_snapshot now s = record (EventLog.to_snapshot now (to_replay_state s)) {
  writer_installation_id = s.executable_installation_id;
}
