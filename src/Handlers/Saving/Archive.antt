-- ===== src/Handlers/Saving/Archive.antt =====
-- crates/wxcd-worker/src/main.rs, `archive_session`, `handle_cleanup_failed_command` and
-- `handle_purge_archived_command`: they leave the log and the local snapshot in agreement with the
-- worker.
use codex_webex_connector.Base.{String, Option, some, List, [], ◌∷◌, ◌≡◌, refl, ap, ◌∙◌, map}
use codex_webex_connector.Base.Dict
use codex_webex_connector.Base.Result.{ok}
use codex_webex_connector.Base.Text.{with_prefix}
use codex_webex_connector.Commands.{
  CleanupFailedCommand, preview, all_failed, one_session, PurgeArchivedCommand,
}
use codex_webex_connector.Model.{
  SessionRecord, Instant, BridgeSnapshot, session_archived, session_purged,
}
use codex_webex_connector.EventLog.{ReplayState, apply}
use codex_webex_connector.Sessions.{session_requires_codex_archive}
use codex_webex_connector.Worker.{
  WorkerState, upsert_session, remove_session, remove_pending_approvals_for_session,
}
use codex_webex_connector.Worker.Guards.{
  ensure_failed_cleanup_target, validate_purge_archived_session, cleanup_failed_sessions,
  purge_and_cleanup,
}
use codex_webex_connector.Effects.{
  Services, bad_input, purge_warning, cleanup_preview, cleaned_up, purged, delete_room,
  update_room_title, thread_archive,
}
use codex_webex_connector.Effects.Logic.{Condition, Triple}
use codex_webex_connector.Effects.Logic.Rules.{
  via, pure-Triple, branch-Triple, attempt-Triple, webex-Triple, codex-Triple, clock-Triple,
  modify-Triple, get_worker-Triple, weaken-Triple,
}
use codex_webex_connector.Handlers.{AppConfig}
use codex_webex_connector.Handlers.Archive.{
  archive_session, archive_all, archive_thread, archived_at, cleanup, handle_cleanup_failed_command,
  purge, handle_purge_archived_command,
}
use codex_webex_connector.Handlers.Saving.{IsSound, Agrees, everything, Logged, Saved, Sound}
use codex_webex_connector.Handlers.Saving.Agreement.{
  upsert_session-IsSound, remove_pending-IsSound, remove_session-IsSound, archive-Agrees,
  purge-Agrees,
}
use codex_webex_connector.Handlers.Saving.Persist.{
  persist_event-Triple, persist_snapshot-Triple, refresh-Triple,
}
use codex_webex_connector.Handlers.Saving.Sessions.{
  IsKept, Logged-IsKept, saved-Triple, kept-Triple, held-Triple, lookup-Triple, check-Triple,
}

-- the session is known, and the log holds the worker
abbrev Found : String → SessionRecord → Condition
Found id session s r f = (Dict.get s.sessions id ≡ some session) × Logged s r f

-- once the approvals of the session are removed, and the archiving is logged, all agrees
abbrev Marked : String → Condition
Marked id s r f =
    IsSound s
    × ((at : Instant)
        → Agrees (remove_pending_approvals_for_session id s) (apply r (session_archived id at)))

abbrev Archived : String → Condition
Archived id s r f = IsSound s × ((at : Instant) → Agrees s (apply r (session_archived id at)))

abbrev Purged : String → Condition
Purged id s r f = IsSound s × ((at : Instant) → Agrees s (apply r (session_purged id at)))

module _ {services : Services} {start : ReplayState} {file : Option BridgeSnapshot}
    (config : AppConfig) where
  archive_thread-Triple :
      {P : Condition} (session : SessionRecord)
      → Triple services start file P (archive_thread services config session) (λ _. P) P
  archive_thread-Triple {P} session =
      branch-Triple (session_requires_codex_archive session)
        (via (λ _. P) (codex-Triple (thread_archive session.thread_id)) λ _. pure-Triple tt)
        (attempt-Triple (codex-Triple (thread_archive session.thread_id)))

  archive_found-Triple :
      (id : String)
      → Triple services start file Logged (archive_session services config id) (λ _. Saved) Logged
  unfolding archive_session
  archive_found-Triple id =
      via (λ seen s r f. (s ≡ seen) × Logged s r f) get_worker-Triple
        λ worker.
          via (λ found. Found id found)
            (lookup-Triple config Logged-IsKept (λ s. Dict.get s.sessions id) worker bad_input)
            λ found.
              via (λ _. Found id found)
                (held-Triple config Logged-IsKept (archive_thread-Triple found) λ s r f h. h.1)
                λ _.
                  via (λ _. Found id found) clock-Triple
                    λ now.
                      let session = archived_at found now in
                      via (λ _. Found id found)
                        (attempt-Triple (
                          webex-Triple (
                            update_room_title session.session_room_id
                              (with_prefix "[ARCHIVED] " session.title))))
                        λ _.
                          via (λ _. Marked id)
                            (modify-Triple (upsert_session session) λ s r f (known, (h, a)). (
                              upsert_session-IsSound session s h,
                              λ at.
                                  archive-Agrees s r id found known (h.routed.keyed id found known)
                                    now at a,
                            ))
                            λ _.
                              via (λ _. Archived id)
                                (modify-Triple (remove_pending_approvals_for_session id)
                                  λ s r f (h, a). (remove_pending-IsSound id s h, a))
                                λ _.
                                  via (λ _. Archived id) clock-Triple
                                    λ at.
                                      via (λ _. Saved)
                                        (weaken-Triple
                                          (persist_event-Triple config everything everything
                                            (session_archived id at))
                                          (λ s r f (h, a). (h, a at)) (λ _ s r f h. h)
                                          (λ s r f h. h))
                                        λ _. refresh-Triple session

  purge-Triple :
      (session : SessionRecord)
      → Triple services start file
          (Found session.session_id session)
          (purge services config session)
          (λ _. Saved)
          Logged
  unfolding purge
  purge-Triple session =
      let id = session.session_id in
      via (λ _. Found id session)
        (held-Triple config Logged-IsKept (webex-Triple (delete_room session.session_room_id))
          λ s r f h. h.1)
        λ _.
          via (λ _. Purged id)
            (modify-Triple (λ s. (remove_session id s).0)
              λ s r f (known, (h, a)).
                (remove_session-IsSound id s h, λ at. purge-Agrees s r id session known refl at a))
            λ _.
              via (λ _. Purged id) clock-Triple
                λ at.
                  via (λ _. Sound)
                    (weaken-Triple
                      (persist_event-Triple config everything everything (session_purged id at))
                      (λ s r f (h, a). (h, a at)) (λ _ s r f h. h.0) (λ s r f h. h))
                    λ _. via (λ _. Saved) persist_snapshot-Triple λ _. pure-Triple (purged session)

  module _ {P : Condition} (kept : IsKept P) where
    pub archive_session-Triple :
        (id : String)
        → Triple services start file P (archive_session services config id) (λ _. P) Logged
    archive_session-Triple id = saved-Triple config kept (archive_found-Triple id)

    archive_all-Triple :
        (ids : List String)
        → Triple services start file P (archive_all services config ids) (λ _. P) Logged
    unfolding archive_all
    archive_all-Triple [] = kept-Triple config kept (pure-Triple tt)
    archive_all-Triple (id ∷ ids) =
        via (λ _. P) (archive_session-Triple id) λ _. archive_all-Triple ids

    module _ (by_time : List SessionRecord → List SessionRecord) (sort : List String → List String)
        (installation : String) where
      cleanup-Triple :
          (worker : WorkerState) (command : CleanupFailedCommand)
          → Triple services start file
              (λ s r f. (s ≡ worker) × P s r f)
              (cleanup services config by_time sort installation worker command)
              (λ _. P)
              Logged
      cleanup-Triple worker preview =
          weaken-Triple
            (kept-Triple config kept (
              pure-Triple
                (cleanup_preview (by_time (cleanup_failed_sessions worker installation)))))
            (λ s r f (e, h). h) (λ _ s r f h. h) (λ s r f h. h)
      cleanup-Triple worker (one_session id) =
          via (λ _. P)
            (weaken-Triple
              (check-Triple config kept (λ s. ensure_failed_cleanup_target s id installation)
                worker)
              (λ s r f h. h) (λ _ s r f (e, h). h) (λ s r f h. h))
            λ _.
              via (λ _. P) (archive_session-Triple id)
                λ _. kept-Triple config kept (pure-Triple (cleaned_up (id ∷ [])))
      cleanup-Triple worker all_failed =
          let ids = sort (map (λ t. t.session_id) (cleanup_failed_sessions worker installation)) in
          weaken-Triple
            (via (λ _. P) (archive_all-Triple ids)
              λ _. kept-Triple config kept (pure-Triple (cleaned_up ids)))
            (λ s r f (e, h). h) (λ _ s r f h. h) (λ s r f h. h)

      pub handle_cleanup_failed_command-Triple :
          (command : CleanupFailedCommand)
          → Triple services start file P
              (handle_cleanup_failed_command services config by_time sort installation command)
              (λ _. P)
              Logged
      unfolding handle_cleanup_failed_command
      handle_cleanup_failed_command-Triple command =
          via (λ seen s r f. (s ≡ seen) × P s r f) get_worker-Triple
            λ worker. cleanup-Triple worker command

    pub handle_purge_archived_command-Triple :
        (installation : String) (command : PurgeArchivedCommand)
        → Triple services start file P
            (handle_purge_archived_command services config installation command)
            (λ _. P)
            Logged
    unfolding handle_purge_archived_command
    handle_purge_archived_command-Triple installation command =
        via (λ seen s r f. (s ≡ seen) × P s r f) get_worker-Triple
          λ worker.
            via
              (λ session s r f.
                (validate_purge_archived_session s command.session_id installation ≡ ok session)
                × P s r f)
              (check-Triple config kept
                (λ s. validate_purge_archived_session s command.session_id installation) worker)
              λ session.
                branch-Triple command.confirmed
                  (weaken-Triple (purge-Triple session)
                    (λ s r f (valid, h).
                      let logged = kept.logs s r f h in
                      let known =
                        ((purge_and_cleanup s command.session_id installation session).0.0
                          valid).0 in
                      (
                        ap (λ k. Dict.get s.sessions k)
                              (logged.0.routed.keyed command.session_id session known)
                            ∙ known,
                        logged,
                      ))
                    (λ _. kept.saves) (λ s r f h. h))
                  (weaken-Triple (kept-Triple config kept (pure-Triple (purge_warning session)))
                    (λ s r f (e, h). h) (λ _ s r f h. h) (λ s r f h. h))
