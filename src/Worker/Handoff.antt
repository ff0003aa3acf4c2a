-- ===== src/Worker/Handoff.antt =====
-- crates/wxcd-worker/src/main.rs: what a worker takes over from the one before it
-- (`validate_webex_handoff_payload`, `apply_webex_handoff_payload`), and the turns still in flight.
-- The payload comes decoded; of its sidecar files nothing is read here.
pub mod Rounds
pub mod Steps
pub mod Safety
use codex_webex_connector.Base.{
  ℕ, String, Bool, true, false, not, ◌&&◌, ◌||◌, Option, none, some, List, [], ◌∷◌, map, foldl,
  ◌==◌, ltb, leb, eqb, length, filterb, any, is_some, is_some_and, if◌then◌else◌,
}
use codex_webex_connector.Base.Result.{Result, ok, err}
use codex_webex_connector.Base.Dict
use codex_webex_connector.Base.Dict.{Dict}
use codex_webex_connector.Base.IdSet
use codex_webex_connector.Base.IdSet.{IdSet}
use codex_webex_connector.Model.{
  Instant, SessionState, SessionRecord, LocalSessionMirror, PendingApproval, BridgeSnapshot,
  creating, running, waiting_approval,
}
use codex_webex_connector.EventLog.{from_snapshot}
use codex_webex_connector.Sessions.{
  session_belongs_to_installation, local_session_has_current_installation_evidence,
  remote_session_accepts_local_mirror_claim, remote_session_blocks_local_replacement,
}
use codex_webex_connector.Worker.{
  WorkerState, upsert_session, rebuild_session_indexes, should_route_session_room,
}
use codex_webex_connector.Worker.Merge.{
  local_session_is_stale_against_remote, local_pending_approval_is_claimable,
  merge_local_pending_approvals, or_authority, rebuild_if,
}
use codex_webex_connector.Worker.Recent.{merge_recent_event_ids}

pub record WebexHandoffInFlightSession : Type 0 where
  pub session_id : String
  pub thread_id : String
  pub state : SessionState
  pub active_turn_id : Option String
  pub active_turn_buffer_len : ℕ
  pub pending_approval_ids : List String

pub record WebexHandoffInFlightState : Type 0 where
  pub sessions : List WebexHandoffInFlightSession
  pub pending_approval_count : ℕ

pub record WebexHandoffSidecarFileRecord : Type 0 where
  pub file_name : String
  pub record_text : String

pub record WebexHandoffSidecarRestartState : Type 0 where
  pub deferred_ingress_records : List WebexHandoffSidecarFileRecord
  pub drain_state_records : List WebexHandoffSidecarFileRecord

pub record WebexHandoffPayload : Type 0 where
  pub plugin_name : String
  pub exported_at : Instant
  pub source_plugin_instance_id : String
  pub source_plugin_release_id : String
  pub durable_bridge_snapshot : BridgeSnapshot
  pub recent_webex_event_ids : List String
  pub in_flight : WebexHandoffInFlightState
  pub sidecar : WebexHandoffSidecarRestartState

pub data HandoffError : Type 0 where
  wrong_schema undecodable : HandoffError
  wrong_plugin wrong_instance no_installation wrong_writer missing_writer : HandoffError

abbrev pub webex_handoff_schema_version : ℕ
webex_handoff_schema_version = 1

-- crates/wxcd-cbth-rpc/src/lib.rs; the payload is the text of its JSON
pub record PluginHandoffSnapshot : Type 0 where
  pub schema_version : ℕ
  pub payload : String

-- `serde_json::from_value` is the argument `from_value`
unfoldable pub decode_webex_handoff_payload :
    (String → Option WebexHandoffPayload)
    → PluginHandoffSnapshot
    → Result HandoffError WebexHandoffPayload
decode_webex_handoff_payload from_value snapshot =
    if not (eqb snapshot.schema_version webex_handoff_schema_version)
    then err wrong_schema
    else elim (from_value snapshot.payload) [ none ↦ err undecodable | some p ↦ ok p ]

abbrev pub check_writer : Option String → String → Result HandoffError (Unit {0})
check_writer none installation = err missing_writer
check_writer (some writer) installation = if writer == installation then ok tt else err wrong_writer

abbrev pub check_installation : Option String → WebexHandoffPayload → Result HandoffError (Unit {0})
check_installation none payload = err no_installation
check_installation (some installation) payload =
    check_writer payload.durable_bridge_snapshot.writer_installation_id installation

-- of the configuration it reads `plugin_instance_id`
unfoldable pub validate_webex_handoff_payload :
    String → WorkerState → WebexHandoffPayload → Result HandoffError (Unit {0})
validate_webex_handoff_payload plugin_instance_id s payload =
    if not (payload.plugin_name == "webex-connector")
    then err wrong_plugin
    else if not (payload.source_plugin_instance_id == plugin_instance_id)
    then err wrong_instance
    else check_installation s.executable_installation_id payload

abbrev pub or_mirror : Option LocalSessionMirror → LocalSessionMirror → Option LocalSessionMirror
or_mirror none desired = some desired
or_mirror (some m) desired = some m

-- the local session, with the authority and the mirror that it lacks
abbrev pub adopt : SessionRecord → String → LocalSessionMirror → SessionRecord
adopt session installation mirror = record session {
  authority = or_authority session.authority installation;
  local_mirror = or_mirror session.local_mirror mirror;
}

-- what the loop over the sessions carries: the state, `changed`, `authoritative_session_ids`
pub record Progress : Type 0 where
  pub worker : WorkerState
  pub changed : Bool
  pub authoritative : IdSet

abbrev pub replace : SessionRecord → Progress → Progress
replace local p = record {
  worker = upsert_session local p.worker;
  changed = true;
  authoritative = IdSet.insert local.session_id p.authoritative;
}

abbrev pub with_missing : SessionRecord → String → Option LocalSessionMirror → SessionRecord
with_missing session installation mirror = record session {
  authority = or_authority session.authority installation;
  local_mirror = elim session.local_mirror [ none ↦ mirror | some m ↦ some m ];
}

-- the known session gets what it lacks
abbrev pub complete : String → SessionRecord → SessionRecord → Progress → Progress
complete installation local session p =
    if not (is_some session.authority) || not (is_some session.local_mirror)
    then record p {
      changed = true;
      worker = record p.worker {
        sessions =
            Dict.insert local.session_id (with_missing session installation local.local_mirror)
              p.worker.sessions;
      };
    }
    else p

-- the rest of the loop's body, by whether the session is known; `local` is as it was exported and
-- `adopted` has its authority and mirror filled in
abbrev pub import_known :
    String → Bool → SessionRecord → SessionRecord → Option SessionRecord → Progress → Progress
import_known installation in_flight local adopted none p =
    if local_session_is_stale_against_remote p.worker local then p else replace adopted p
import_known installation in_flight local adopted (some session) p =
    if not (remote_session_accepts_local_mirror_claim session installation)
      || remote_session_blocks_local_replacement session local
    then p
    else if in_flight || leb session.updated_at local.updated_at
    then replace adopted p
    else complete installation adopted session p

-- one round of the loop
unfoldable pub import_session : String → Instant → List String → Progress → SessionRecord → Progress
import_session installation mirrored_at in_flight_ids p local =
    if not (local_session_has_current_installation_evidence local installation)
    then p
    else if IdSet.contains p.worker.remote_purged_session_ids local.session_id
    then p
    else import_known installation (any (λ id. id == local.session_id) in_flight_ids) local
        (adopt local installation
          (record { installation_id = installation; mirrored_at = mirrored_at }))
        (Dict.get p.worker.sessions local.session_id) p

-- `retain` passes the key too; the approvals stand under their identifiers
unfoldable pub reconcile_handoff_pending_approvals :
    IdSet → Dict PendingApproval → String → WorkerState → WorkerState × Bool
reconcile_handoff_pending_approvals authoritative approvals installation s =
    if eqb (length authoritative) 0
    then (s, false)
    else let owned =
        filterb
          (λ id.
            is_some_and (Dict.get s.sessions id)
              (λ session. session_belongs_to_installation session installation))
          authoritative in
      let claimable =
        map (λ a. a.approval_id)
          (filterb (λ a. local_pending_approval_is_claimable s a installation)
            (Dict.values approvals)) in
      let kept =
        filterb (λ e. IdSet.contains claimable e.0 || not (IdSet.contains owned e.1.session_id))
          (Dict.entries s.pending_approvals) in
      (
        record s { pending_approvals = kept },
        not (eqb (Dict.len kept) (Dict.len s.pending_approvals)),
      )

-- what follows the loop
abbrev pub finish_import : String → Dict PendingApproval → List String → Progress → WorkerState
finish_import installation approvals event_ids p =
    let (s1, reconciled) =
      reconcile_handoff_pending_approvals p.authoritative approvals installation p.worker in
    let (s2, merged) = merge_local_pending_approvals approvals installation s1 in
    let (s3, imported) = merge_recent_event_ids event_ids s2 in
    rebuild_if (ltb 0 imported || merged || reconciled || p.changed) s3

abbrev import_as :
    Option String → Instant → WebexHandoffPayload → WorkerState → Result HandoffError WorkerState
import_as none now payload s = err no_installation
import_as (some installation) now payload s =
    let replay = from_snapshot payload.durable_bridge_snapshot in
    ok (
      finish_import installation replay.pending_approvals payload.recent_webex_event_ids (
        foldl (import_session installation now (map (λ t. t.session_id) payload.in_flight.sessions))
          (record { worker = s; changed = false; authoritative = IdSet.empty })
          (Dict.values replay.sessions)))

unfoldable pub apply_webex_handoff_payload :
    Instant → WebexHandoffPayload → WorkerState → Result HandoffError WorkerState
apply_webex_handoff_payload now payload s = import_as s.executable_installation_id now payload s

abbrev pub is_busy : SessionState → Bool
is_busy creating = true
is_busy running = true
is_busy waiting_approval = true
is_busy _ = false

abbrev pub is_in_flight : WorkerState → SessionRecord → Bool
is_in_flight s t = should_route_session_room s t && (is_some t.active_turn_id || is_busy t.state)

unfoldable pub lifecycle_codex_in_flight_count : WorkerState → ℕ
lifecycle_codex_in_flight_count s = length (filterb (is_in_flight s) (Dict.values s.sessions))
