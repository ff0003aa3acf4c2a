-- ===== src/Handlers/Archive.antt =====
-- crates/wxcd-worker/src/main.rs, `archive_session`, `handle_cleanup_failed_command` and
-- `handle_purge_archived_command`: how sessions end.
use codex_webex_connector.Base.{String, true, List, [], ◌∷◌, map, if◌then◌else◌}
use codex_webex_connector.Base.Dict
use codex_webex_connector.Base.Text.{with_prefix}
use codex_webex_connector.Commands.{
  CleanupFailedCommand, preview, all_failed, one_session, PurgeArchivedCommand,
}
use codex_webex_connector.Model.{
  SessionRecord, SessionState, Instant, session_archived, session_purged,
}
use codex_webex_connector.Sessions.{session_requires_codex_archive}
use codex_webex_connector.Worker.{
  WorkerState, upsert_session, remove_session, remove_pending_approvals_for_session,
}
use codex_webex_connector.Worker.Guards.{
  ensure_failed_cleanup_target, validate_purge_archived_session, cleanup_failed_sessions,
}
use codex_webex_connector.Effects.{
  Services, Handler, Note, bad_input, purge_warning, cleanup_preview, cleaned_up, purged, webex,
  delete_room, update_room_title, codex, thread_archive, clock, call, get_worker, modify, attempt,
  pure, require, checked, done, ◌>>=◌, ◌>>◌,
}
use codex_webex_connector.Handlers.{AppConfig, persist_event, persist_snapshot, refresh_overview}

abbrev pub archived_at : SessionRecord → Instant → SessionRecord
archived_at session now = record session {
  archived = true;
  state = SessionState.archived;
  updated_at = now;
}

module _ (services : Services) (config : AppConfig) where
  -- the Codex thread of a failed session may be gone
  abbrev pub archive_thread : SessionRecord → Handler (Unit {0})
  archive_thread session =
      if session_requires_codex_archive session
      then call services (codex (thread_archive session.thread_id)) >> done
      else attempt (call services (codex (thread_archive session.thread_id)))

  unfoldable pub archive_session : String → Handler (Unit {0})
  archive_session session_id = do
    worker ← get_worker
    found ← require (Dict.get worker.sessions session_id) bad_input
    archive_thread found
    now ← clock services
    let session = archived_at found now
    attempt (
        call services (
          webex
            (update_room_title session.session_room_id (with_prefix "[ARCHIVED] " session.title))))
    modify (upsert_session session)
    modify (remove_pending_approvals_for_session session_id)
    at ← clock services
    persist_event services config (session_archived session_id at)
    refresh_overview services session

  unfoldable pub archive_all : List String → Handler (Unit {0})
  archive_all [] = done
  archive_all (session_id ∷ session_ids) = archive_session session_id >> archive_all session_ids

  -- `sort_by_key` and `sort` are parameters, since the order is only for the reader
  module _ (by_time : List SessionRecord → List SessionRecord) (sort : List String → List String)
      (installation : String) where
    abbrev pub cleanup : WorkerState → CleanupFailedCommand → Handler Note
    cleanup worker preview =
        pure (cleanup_preview (by_time (cleanup_failed_sessions worker installation)))
    cleanup worker (one_session session_id) = do
      checked (ensure_failed_cleanup_target worker session_id installation)
      archive_session session_id
      pure (cleaned_up (session_id ∷ []))
    cleanup worker all_failed =
        let session_ids =
          sort (map (λ t. t.session_id) (cleanup_failed_sessions worker installation)) in
        archive_all session_ids >> pure (cleaned_up session_ids)

    unfoldable pub handle_cleanup_failed_command : CleanupFailedCommand → Handler Note
    unfolding archive_all
    handle_cleanup_failed_command command = do worker ← get_worker; cleanup worker command

  unfoldable pub purge : SessionRecord → Handler Note
  purge session = do
    call services (webex (delete_room session.session_room_id))
    modify (λ s. (remove_session session.session_id s).0)
    at ← clock services
    persist_event services config (session_purged session.session_id at)
    persist_snapshot services
    pure (purged session)

  unfoldable pub handle_purge_archived_command : String → PurgeArchivedCommand → Handler Note
  unfolding purge
  handle_purge_archived_command installation command = do
    worker ← get_worker
    session ← checked (validate_purge_archived_session worker command.session_id installation)
    if command.confirmed then purge session else pure (purge_warning session)
