-- ===== src/Worker/Guards.antt =====
-- crates/wxcd-worker/src/main.rs: the checks before a session is cleaned up, purged or resumed, and
-- the lists that the control room shows.
use codex_webex_connector.Base.{
  String, Bool, true, false, not, ◌&&◌, some, List, ◌≡◌, ◌↔◌, arith, filterb,
}
use codex_webex_connector.Base.Result.{Result, ok, ◌>>=◌, ◌>>◌, ok_or, bail_if}
use codex_webex_connector.Base.Dict
use codex_webex_connector.Base.Dict.{Dict}
use codex_webex_connector.Model.{
  SessionRecord, PendingApproval, counts_as_archived, state_is_archived, state_is_failed,
}
use codex_webex_connector.Sessions.{
  session_belongs_to_installation, is_control_list_session, is_cleanup_failed_session,
}
use codex_webex_connector.Worker.{WorkerState}

-- the errors of these checks, by the condition that raises them
pub data GuardError : Type 0 where
  unknown_session not_managed already_archived not_failed not_archived unknown_approval : GuardError

unfoldable pub ensure_session_belongs_to_installation :
    SessionRecord → String → Result GuardError (Unit {0})
ensure_session_belongs_to_installation session installation =
    bail_if (not (session_belongs_to_installation session installation)) not_managed

unfoldable pub ensure_session_id_belongs_to_installation :
    WorkerState → String → String → Result GuardError (Unit {0})
unfolding ensure_session_belongs_to_installation
ensure_session_id_belongs_to_installation s id installation = do
  session ← ok_or (Dict.get s.sessions id) unknown_session
  ensure_session_belongs_to_installation session installation

unfoldable pub ensure_approval_belongs_to_installation :
    WorkerState → String → String → Result GuardError (Unit {0})
unfolding ensure_session_id_belongs_to_installation
ensure_approval_belongs_to_installation s id installation = do
  approval ← ok_or (Dict.get s.pending_approvals id) unknown_approval
  ensure_session_id_belongs_to_installation s approval.session_id installation

unfoldable pub ensure_failed_cleanup_target :
    WorkerState → String → String → Result GuardError (Unit {0})
unfolding ensure_session_belongs_to_installation
ensure_failed_cleanup_target s id installation = do
  session ← ok_or (Dict.get s.sessions id) unknown_session
  ensure_session_belongs_to_installation session installation
  bail_if (counts_as_archived session) already_archived
  bail_if (not (state_is_failed session.state)) not_failed
  ok tt

unfoldable pub validate_purge_archived_session :
    WorkerState → String → String → Result GuardError SessionRecord
unfolding ensure_session_belongs_to_installation
validate_purge_archived_session s id installation = do
  session ← ok_or (Dict.get s.sessions id) unknown_session
  ensure_session_belongs_to_installation session installation
  bail_if (not session.archived && not (state_is_archived session.state)) not_archived
  ok session

unfoldable pub sessions_for_control_list : WorkerState → String → Bool → List SessionRecord
sessions_for_control_list s installation include_archived =
    filterb (λ t. is_control_list_session t installation include_archived) (Dict.values s.sessions)

unfoldable pub cleanup_failed_sessions : WorkerState → String → List SessionRecord
cleanup_failed_sessions s installation =
    filterb (λ t. is_cleanup_failed_session t installation) (Dict.values s.sessions)

unfoldable pub sessions_for_diagnostics : WorkerState → String → List SessionRecord
sessions_for_diagnostics s installation =
    filterb (λ t. session_belongs_to_installation t installation) (Dict.values s.sessions)

-- A session may be purged exactly if it is known, this installation's, and archived; the answer is
-- that session. A known session may be cleaned up as failed exactly if it is this installation's,
-- not archived and failed.
pub purge_and_cleanup :
    (s : WorkerState) (id installation : String) (t : SessionRecord)
    → ((validate_purge_archived_session s id installation ≡ ok t) ↔ (
        (Dict.get s.sessions id ≡ some t)
        × (session_belongs_to_installation t installation ≡ true)
        × (counts_as_archived t ≡ true)))
      × (Dict.get s.sessions id ≡ some t
          → (ensure_failed_cleanup_target s id installation ≡ ok tt) ↔ (
              (session_belongs_to_installation t installation ≡ true)
              × (counts_as_archived t ≡ false)
              × (state_is_failed t.state ≡ true)))
unfolding validate_purge_archived_session ensure_failed_cleanup_target
purge_and_cleanup s id installation t = ground arith

-- Whoever answers an approval must be the installation that manages its session: the check passes
-- exactly if the approval is pending, its session known, and that session this installation's.
pub ensure_approval_belongs_to_installation-ok :
    (s : WorkerState) (id installation : String) (a : PendingApproval) (t : SessionRecord)
    → Dict.get s.pending_approvals id ≡ some a
    → Dict.get s.sessions a.session_id ≡ some t
    → (ensure_approval_belongs_to_installation s id installation ≡ ok tt)
      ↔ (session_belongs_to_installation t installation ≡ true)
unfolding ensure_approval_belongs_to_installation
ensure_approval_belongs_to_installation-ok s id installation a t e f = ground arith
