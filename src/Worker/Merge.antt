-- ===== src/Worker/Merge.antt =====
-- crates/wxcd-worker/src/main.rs: `merge_local_mirror` and `merge_local_pending_approvals`, by
-- which a worker takes over what its local snapshot knows, and `claim_legacy_local_sessions`.
pub mod Claims
pub mod Rounds
pub mod Safety
pub mod Approvals
use codex_webex_connector.Base.{
  String, Bool, true, false, not, ◌&&◌, ◌||◌, Option, none, some, List, foldl, ◌==◌, ltb, leb, eqb,
  is_some, is_some_and, if◌then◌else◌,
}
use codex_webex_connector.Base.Dict
use codex_webex_connector.Base.Dict.{Dict}
use codex_webex_connector.Base.IdSet
use codex_webex_connector.Base.IdSet.{IdSet}
use codex_webex_connector.Model.{
  Instant, SessionRecord, SessionAuthority, LocalSessionMirror, PendingApproval, counts_as_archived,
}
use codex_webex_connector.EventLog.{ReplayState}
use codex_webex_connector.Sessions.{
  session_belongs_to_installation, local_session_is_claimable_mirror_evidence,
  remote_session_accepts_local_mirror_claim, remote_session_blocks_local_replacement,
  LocalMirrorClaimScope, allows,
}
use codex_webex_connector.Worker.{WorkerState, upsert_session, rebuild_session_indexes}

unfoldable pub local_session_is_stale_against_remote : WorkerState → SessionRecord → Bool
local_session_is_stale_against_remote s session =
    IdSet.contains s.remote_purged_session_ids session.session_id
    || is_some_and s.remote_snapshot_created_at (λ created. leb session.updated_at created)

unfoldable pub local_approval_is_stale_against_remote : WorkerState → PendingApproval → Bool
local_approval_is_stale_against_remote s approval =
    IdSet.contains s.remote_resolved_approval_ids approval.approval_id
    || is_some_and s.remote_snapshot_created_at (λ created. leb approval.requested_at created)

unfoldable pub local_pending_approval_is_claimable : WorkerState → PendingApproval → String → Bool
local_pending_approval_is_claimable s approval installation =
    if local_approval_is_stale_against_remote s approval
    then false
    else is_some_and (Dict.get s.sessions approval.session_id) (λ session.
      session_belongs_to_installation session installation
      && approval.thread_id == session.thread_id)

-- `session.local_mirror.as_ref() == Some(&desired_mirror)`
abbrev pub same_mirror : Option LocalSessionMirror → LocalSessionMirror → Bool
same_mirror none desired = false
same_mirror (some m) desired =
    m.installation_id == desired.installation_id && eqb m.mirrored_at desired.mirrored_at

-- `local_mirror.clone().filter(…).unwrap_or_else(…)`
abbrev pub desired_mirror : Option LocalSessionMirror → String → Instant → LocalSessionMirror
desired_mirror none installation mirrored_at = record {
  installation_id = installation;
  mirrored_at = mirrored_at;
}
desired_mirror (some m) installation mirrored_at =
    if m.installation_id == installation
    then m
    else record { installation_id = installation; mirrored_at = mirrored_at }

abbrev pub or_authority : Option SessionAuthority → String → Option SessionAuthority
or_authority none installation = some (record { installation_id = installation })
or_authority (some a) installation = some a

-- The session marked with the installation and the mirror. The mirror is assigned only where it
-- differs, which comes to the same.
abbrev pub claim : SessionRecord → String → LocalSessionMirror → SessionRecord
claim session installation mirror = record session {
  authority = or_authority session.authority installation;
  local_mirror = some mirror;
}

-- the rest of the loop's body, by whether the session is known
abbrev pub merge_known :
    String
    → LocalSessionMirror
    → SessionRecord
    → Option SessionRecord
    → WorkerState × Bool
    → WorkerState × Bool
merge_known installation mirror local none (s, changed) =
    if local_session_is_stale_against_remote s local
    then (s, changed)
    else (upsert_session local s, true)
merge_known installation mirror local (some session) (s, changed) =
    if not (remote_session_accepts_local_mirror_claim session installation)
    then (s, changed)
    else let blocks =
        remote_session_blocks_local_replacement session local
        || (IdSet.contains s.remote_archived_session_ids local.session_id
            && not (counts_as_archived local)) in
      if ltb session.updated_at local.updated_at && not blocks
      then (upsert_session local s, true)
      else if not (is_some session.authority) || not (same_mirror session.local_mirror mirror)
      then (
        record s {
          sessions = Dict.insert local.session_id (claim session installation mirror) s.sessions;
        },
        true,
      )
      else (s, changed)

-- one round of the first loop
unfoldable pub merge_session :
    String
    → Instant
    → LocalMirrorClaimScope
    → WorkerState × Bool
    → SessionRecord
    → WorkerState × Bool
merge_session installation mirrored_at scope acc local_session =
    if not (local_session_is_claimable_mirror_evidence local_session installation)
      || not (allows scope local_session installation)
    then acc
    else let mirror = desired_mirror local_session.local_mirror installation mirrored_at in
      merge_known installation mirror (claim local_session installation mirror)
        (Dict.get acc.0.sessions local_session.session_id) acc

abbrev pub is_newer : Option PendingApproval → PendingApproval → Bool
is_newer none approval = true
is_newer (some existing) approval = not (leb approval.requested_at existing.requested_at)

-- one round of `merge_local_pending_approvals`
unfoldable pub merge_approval : String → WorkerState × Bool → PendingApproval → WorkerState × Bool
merge_approval installation (s, changed) approval =
    if not (local_pending_approval_is_claimable s approval installation)
    then (s, changed)
    else if is_newer (Dict.get s.pending_approvals approval.approval_id) approval
    then (
      record s {
        pending_approvals = Dict.insert approval.approval_id approval s.pending_approvals;
      },
      true,
    )
    else (s, changed)

unfoldable pub merge_local_pending_approvals :
    Dict PendingApproval → String → WorkerState → WorkerState × Bool
merge_local_pending_approvals approvals installation s =
    foldl (merge_approval installation) (s, false) (Dict.values approvals)

abbrev pub rebuild_if : Bool → WorkerState → WorkerState
rebuild_if changed s = if changed then rebuild_session_indexes s else s

unfoldable pub merge_local_mirror :
    ReplayState → String → Instant → LocalMirrorClaimScope → WorkerState → WorkerState × Bool
merge_local_mirror local_replay installation mirrored_at scope s =
    let (s1, sessions_changed) =
      foldl (merge_session installation mirrored_at scope) (s, false)
        (Dict.values local_replay.sessions) in
    let (s2, approvals_changed) =
      merge_local_pending_approvals local_replay.pending_approvals installation s1 in
    let changed = approvals_changed || sessions_changed in (rebuild_if changed s2, changed)

-- one round of `claim_legacy_local_sessions`, over the entries of the map
abbrev pub claim_legacy :
    String
    → Instant
    → IdSet
    → Dict SessionRecord × Bool
    → String × SessionRecord
    → Dict SessionRecord × Bool
claim_legacy installation mirrored_at thread_ids (m, changed) (id, session) =
    if is_some session.authority || is_some session.local_mirror
    then (m, changed)
    else if not (IdSet.contains thread_ids session.thread_id)
    then (m, changed)
    else (
      Dict.insert id
          (claim session installation
            (record { installation_id = installation; mirrored_at = mirrored_at }))
          m,
      true,
    )

unfoldable pub claim_legacy_local_sessions :
    String → Instant → IdSet → WorkerState → WorkerState × Bool
claim_legacy_local_sessions installation mirrored_at thread_ids s =
    let (m, changed) =
      foldl (claim_legacy installation mirrored_at thread_ids) (s.sessions, false)
        (Dict.entries s.sessions) in
    (rebuild_if changed (record s { sessions = m }), changed)
