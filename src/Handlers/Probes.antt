-- ===== src/Handlers/Probes.antt =====
-- crates/wxcd-worker/src/main.rs, `probe_session_thread`, `reconcile_sessions` and
-- `handle_diagnose_command`: whether the Codex thread of a session can still be read. The list of
-- threads is followed for a number of pages that is a parameter.
use codex_webex_connector.Base.{
  ℕ, zero, suc, String, Bool, true, false, not, ◌&&◌, ◌||◌, Option, none, some, List, [], ◌∷◌, any,
  map, ◌==◌, if◌then◌else◌,
}
use codex_webex_connector.Base.Dict
use codex_webex_connector.Base.Result.{Result, ok, err}
use codex_webex_connector.Base.Text.{with_prefix}
use codex_webex_connector.Commands.{DiagnoseCommand, sessions, session}
use codex_webex_connector.Model.{SessionRecord, counts_as_archived, state_is_failed}
use codex_webex_connector.Sessions.{session_belongs_to_installation}
use codex_webex_connector.Sessions.Probe.{
  ThreadProbe, ThreadProbeKind, readable, missing, unreadable, unavailable, apply_thread_probe,
}
use codex_webex_connector.Worker.Guards.{sessions_for_diagnostics}
use codex_webex_connector.Effects.{
  Services, Handler, Answer, Failure, Note, bad_input, unending_list, unrecovered_notice, codex,
  thread_read, thread_resume, thread_list_page, not_managed_notice, archived_notice, diagnosed,
  diagnostics, clock, call, get_worker, attempt, observe, pure, fail, require, done, ◌>>=◌, ◌>>◌,
}
use codex_webex_connector.Handlers.{AppConfig, save_session, refresh_overview, send_plain_message}

abbrev pub is_readable : ThreadProbeKind → Bool
is_readable readable = true
is_readable _ = false

abbrev quoted : String → String → String → String
quoted before thread_id after = with_prefix before (with_prefix thread_id after)

module _ (services : Services) (pages : ℕ) where
  abbrev pub page_has : String → Option String → Answer → (String → Handler Bool) → Handler Bool
  page_has thread_id none page next = pure (any (λ id. id == thread_id) page.thread_ids)
  page_has thread_id (some cursor) page next =
      if any (λ id. id == thread_id) page.thread_ids then pure true else next cursor

  unfoldable pub thread_exists_from : ℕ → String → Option String → Handler Bool
  thread_exists_from zero thread_id cursor = fail unending_list
  thread_exists_from (suc n) thread_id cursor = do
    page ← call services (codex (thread_list_page false cursor))
    page_has thread_id page.next_cursor page (λ next. thread_exists_from n thread_id (some next))

  unfoldable pub codex_thread_exists : String → Handler Bool
  unfolding thread_exists_from
  codex_thread_exists thread_id = thread_exists_from pages thread_id none

  abbrev pub probed_by_list : String → Result Failure Bool → ThreadProbe
  probed_by_list thread_id (ok true) = record {
    kind = unreadable;
    message = quoted "Local Codex thread `" thread_id "` is listed but `thread/read` still fails.";
  }
  probed_by_list thread_id (ok false) = record {
    kind = missing;
    message = quoted "Local Codex thread `" thread_id "` is missing from `thread/list`.";
  }
  probed_by_list thread_id (err e) = record {
    kind = unavailable;
    message = with_prefix "Could not list local Codex threads: " (services.error_text e);
  }

  abbrev pub probe_list : String → Handler ThreadProbe
  probe_list thread_id = do
    listed ← observe (codex_thread_exists thread_id)
    pure (probed_by_list thread_id listed)

  abbrev pub probe_second : String → Result Failure Answer → Handler ThreadProbe
  probe_second thread_id (ok thread) =
      pure
        (record { kind = readable; message = "Local Codex thread became readable after resume." })
  probe_second thread_id (err e) = probe_list thread_id

  abbrev pub probe_resumed : String → Result Failure Answer → Handler ThreadProbe
  probe_resumed thread_id (ok resumed) =
      observe (call services (codex (thread_read thread_id false))) >>= probe_second thread_id
  probe_resumed thread_id (err e) = probe_list thread_id

  abbrev pub probe_first : String → Result Failure Answer → Handler ThreadProbe
  probe_first thread_id (ok thread) =
      pure (record { kind = readable; message = "Local Codex thread is readable." })
  probe_first thread_id (err e) =
      observe (call services (codex (thread_resume thread_id))) >>= probe_resumed thread_id

  unfoldable pub probe_session_thread : SessionRecord → Handler ThreadProbe
  unfolding codex_thread_exists
  probe_session_thread t =
      observe (call services (codex (thread_read t.thread_id false))) >>= probe_first t.thread_id

  module _ (config : AppConfig) (installation : String) where
    abbrev pub notify_failure : SessionRecord → SessionRecord → String → Handler (Unit {0})
    notify_failure before updated message =
        if state_is_failed updated.state && not (state_is_failed before.state)
        then attempt
            (send_plain_message services updated.session_room_id (unrecovered_notice message))
        else done

    abbrev pub keep_probe : SessionRecord → String → Option SessionRecord → Handler (Unit {0})
    keep_probe before message none = done
    keep_probe before message (some updated) =
        save_session services config updated >> notify_failure before updated message

    abbrev pub resume_readable : SessionRecord → ThreadProbeKind → Handler (Unit {0})
    resume_readable t kind =
        if is_readable kind
        then attempt (call services (codex (thread_resume t.thread_id)))
        else done

    abbrev pub reconcile_found : Option SessionRecord → Handler (Unit {0})
    reconcile_found none = done
    reconcile_found (some t) =
        if t.archived || not (session_belongs_to_installation t installation) then done else do
          probe ← probe_session_thread t
          resume_readable t probe.kind
          now ← clock services
          keep_probe t probe.message (apply_thread_probe t probe now)

    unfoldable pub reconcile_each : List String → Handler (Unit {0})
    reconcile_each [] = done
    reconcile_each (id ∷ ids) = do
      worker ← get_worker
      reconcile_found (Dict.get worker.sessions id)
      reconcile_each ids

    unfoldable pub reconcile_sessions : Handler (Unit {0})
    unfolding reconcile_each
    reconcile_sessions = do
      worker ← get_worker
      reconcile_each (map (λ entry. entry.0) (Dict.entries worker.sessions))

    abbrev pub keep_diagnosis : SessionRecord → ThreadProbe → Option SessionRecord → Handler Note
    keep_diagnosis before probe none = pure (diagnosed before probe.message)
    keep_diagnosis before probe (some updated) = do
      save_session services config updated
      attempt (refresh_overview services updated)
      pure (diagnosed updated probe.message)

    abbrev pub diagnose_session : SessionRecord → Handler Note
    diagnose_session t =
        if not (session_belongs_to_installation t installation)
        then pure (not_managed_notice t)
        else if counts_as_archived t
        then pure (archived_notice t)
        else do
          probe ← probe_session_thread t
          now ← clock services
          keep_diagnosis t probe (apply_thread_probe t probe now)

    unfoldable pub handle_diagnose_command :
        (List SessionRecord → List SessionRecord) → DiagnoseCommand → Handler Note
    handle_diagnose_command by_time sessions = do
      worker ← get_worker
      pure (diagnostics (by_time (sessions_for_diagnostics worker installation)))
    handle_diagnose_command by_time (session id) = do
      worker ← get_worker
      t ← require (Dict.get worker.sessions id) bad_input
      diagnose_session t
