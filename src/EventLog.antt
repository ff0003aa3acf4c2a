-- ===== src/EventLog.antt =====
-- crates/wxcd-eventlog/src/lib.rs: the state that is rebuilt from the Data Space, event by event,
-- and its snapshots.
pub mod Frames
pub mod Replay
pub mod Paging
pub mod Apply
pub mod Snapshots
use codex_webex_connector.Base.{ℕ, String, Bool, true, not, Option, none, some, ◌==◌, ◌||◌}
use codex_webex_connector.Base.{if◌then◌else◌}
use codex_webex_connector.Base.Dict
use codex_webex_connector.Base.Dict.{Dict}
use codex_webex_connector.Base.IdSet
use codex_webex_connector.Base.IdSet.{IdSet}
use codex_webex_connector.Model.{
  Instant, SessionState, SessionRecord, ApprovalDecision, accept, accept_for_session, decline,
  cancel, PendingApproval, BridgeEvent, session_created, session_updated, session_archived,
  session_purged, approval_requested, approval_resolved, BridgeSnapshot,
}

pub record ReplayState : Type 0 where
  pub sessions : Dict SessionRecord
  pub pending_approvals : Dict PendingApproval
  pub events_since_snapshot : ℕ
  pub snapshot_created_at : Option Instant
  pub archived_session_ids : IdSet
  pub purged_session_ids : IdSet
  pub resolved_approval_ids : IdSet

-- `ReplayState::default()`
abbrev pub initial : ReplayState
initial = record {
  sessions = Dict.empty;
  pending_approvals = Dict.empty;
  events_since_snapshot = 0;
  snapshot_created_at = none;
  archived_session_ids = IdSet.empty;
  purged_session_ids = IdSet.empty;
  resolved_approval_ids = IdSet.empty;
}

unfoldable pub to_snapshot : Instant → ReplayState → BridgeSnapshot
to_snapshot now s = record {
  created_at = now;
  writer_installation_id = none;
  sessions = Dict.values s.sessions;
  pending_approvals = Dict.values s.pending_approvals;
}

unfoldable pub from_snapshot : BridgeSnapshot → ReplayState
from_snapshot snapshot = record {
  sessions = Dict.from_values (λ s. s.session_id) snapshot.sessions;
  pending_approvals = Dict.from_values (λ a. a.approval_id) snapshot.pending_approvals;
  events_since_snapshot = 0;
  snapshot_created_at = some snapshot.created_at;
  archived_session_ids = IdSet.empty;
  purged_session_ids = IdSet.empty;
  resolved_approval_ids = IdSet.empty;
}

abbrev pub mark_archived : SessionRecord → SessionRecord
mark_archived s = record s { archived = true; state = SessionState.archived }

-- `if let Some(session) = sessions.get_mut(id) { … }`
abbrev pub update_at : String → Option SessionRecord → Dict SessionRecord → Dict SessionRecord
update_at id none m = m
update_at id (some s) m = Dict.insert id (mark_archived s) m

abbrev pub without_session : String → Dict PendingApproval → Dict PendingApproval
without_session id m = Dict.retain (λ a. not (a.session_id == id)) m

abbrev pub accepts : ApprovalDecision → Bool
accepts accept = true
accepts accept_for_session = true
accepts _ = Bool.false

abbrev pub refuses : ApprovalDecision → Bool
refuses decline = true
refuses cancel = true
refuses _ = Bool.false

unfoldable pub apply : ReplayState → BridgeEvent → ReplayState
apply s (session_created session) = record s {
  sessions = Dict.insert session.session_id session s.sessions;
}
apply s (session_updated session) = record s {
  sessions = Dict.insert session.session_id session s.sessions;
}
apply s (session_archived id at) = record s {
  archived_session_ids = IdSet.insert id s.archived_session_ids;
  sessions = update_at id (Dict.get s.sessions id) s.sessions;
  pending_approvals = without_session id s.pending_approvals;
}
apply s (session_purged id at) = record s {
  purged_session_ids = IdSet.insert id s.purged_session_ids;
  archived_session_ids = IdSet.remove id s.archived_session_ids;
  sessions = Dict.remove id s.sessions;
  pending_approvals = without_session id s.pending_approvals;
}
apply s (approval_requested approval) = record s {
  pending_approvals = Dict.insert approval.approval_id approval s.pending_approvals;
}
apply s (approval_resolved id session_id decision at) =
    if accepts decision || refuses decision
    then record s {
      resolved_approval_ids = IdSet.insert id s.resolved_approval_ids;
      pending_approvals = Dict.remove id s.pending_approvals;
    }
    else s
