-- ===== src/Model.antt =====
-- crates/wxcd-proto/src/model.rs: the records of a session, an approval, the log events and the
-- snapshot. Identifiers and texts are native strings. An instant (`DateTime<Utc>`) is its number of
-- nanoseconds since the epoch.
use codex_webex_connector.Json.{Json}
use codex_webex_connector.Base.{ℕ, String, Bool, true, false, Option, List, ◌||◌}

abbrev pub Instant : Type 0
Instant = ℕ

pub data SessionState : Type 0 where
  creating idle running waiting_approval paused completed failed archived : SessionState

-- `session.state == SessionState::Archived`, and so on
abbrev pub state_is_archived : SessionState → Bool
state_is_archived archived = true
state_is_archived _ = false

abbrev pub state_is_failed : SessionState → Bool
state_is_failed failed = true
state_is_failed _ = false

pub data SessionFailureKind : Type 0 where
  missing_thread unreadable_thread probe_unavailable : SessionFailureKind

pub record SessionFailure : Type 0 where
  pub kind : SessionFailureKind
  pub message : String
  pub detected_at : Instant

pub record SessionAuthority : Type 0 where
  pub installation_id : String

pub record LocalSessionMirror : Type 0 where
  pub installation_id : String
  pub mirrored_at : Instant

pub record SessionRecord : Type 0 where
  pub session_id : String
  pub title : String
  pub repo_name : String
  pub repo_path : String
  pub owner_email : String
  pub session_room_id : String
  pub session_room_web_link : Option String
  pub thread_id : String
  pub overview_message_id : Option String
  pub state : SessionState
  pub last_checkpoint : Option String
  pub last_final : Option String
  pub active_turn_id : Option String
  pub active_turn_buffer : String
  pub updated_at : Instant
  pub archived : Bool
  pub failure : Option SessionFailure
  pub authority : Option SessionAuthority
  pub local_mirror : Option LocalSessionMirror

-- `session.archived || session.state == SessionState::Archived`
abbrev pub counts_as_archived : SessionRecord → Bool
counts_as_archived s = s.archived || state_is_archived s.state

pub data ApprovalKind : Type 0 where
  command_execution file_change permissions : ApprovalKind

pub data ApprovalDecision : Type 0 where
  accept accept_for_session decline cancel : ApprovalDecision

pub record PendingApproval : Type 0 where
  pub approval_id : String
  pub session_id : String
  pub thread_id : String
  pub turn_id : String
  pub codex_request_id : Json
  pub item_id : String
  pub kind : ApprovalKind
  pub reason : Option String
  pub command : Option String
  pub cwd : Option String
  pub requested_permissions : Option Json
  pub card_message_id : Option String
  pub requested_at : Instant

pub data BridgeEvent : Type 0 where
  session_created : SessionRecord → BridgeEvent
  session_updated : SessionRecord → BridgeEvent
  session_archived : String → Instant → BridgeEvent
  session_purged : String → Instant → BridgeEvent
  approval_requested : PendingApproval → BridgeEvent
  approval_resolved : String → String → ApprovalDecision → Instant → BridgeEvent

pub record BridgeEventEnvelope : Type 0 where
  pub ts : Instant
  pub event : BridgeEvent

pub record BridgeSnapshot : Type 0 where
  pub created_at : Instant
  pub writer_installation_id : Option String
  pub sessions : List SessionRecord
  pub pending_approvals : List PendingApproval
