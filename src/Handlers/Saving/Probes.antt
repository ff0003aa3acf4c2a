-- ===== src/Handlers/Saving/Probes.antt =====
-- crates/wxcd-worker/src/main.rs, `reconcile_sessions` and `handle_diagnose_command`: they leave the
-- log and the local snapshot in agreement with the worker.
use codex_webex_connector.Base.{
  ℕ, zero, suc, String, Bool, true, false, not, ◌&&◌, ◌||◌, Option, none, some, List, [], ◌∷◌, any,
  map, ◌≡◌, ◌==◌,
}
use codex_webex_connector.Base.Dict
use codex_webex_connector.Base.Result.{Result, ok, err}
use codex_webex_connector.Commands.{DiagnoseCommand, sessions, session}
use codex_webex_connector.EventLog.{ReplayState}
use codex_webex_connector.Model.{SessionRecord, BridgeSnapshot, counts_as_archived, state_is_failed}
use codex_webex_connector.Sessions.{session_belongs_to_installation}
use codex_webex_connector.Sessions.Probe.{
  ThreadProbe, ThreadProbeKind, readable, apply_thread_probe,
}
use codex_webex_connector.Worker.Guards.{sessions_for_diagnostics}
use codex_webex_connector.Effects.{
  Services, Handler, Answer, Failure, bad_input, unending_list, unrecovered_notice, thread_read,
  thread_resume, thread_list_page, not_managed_notice, archived_notice, diagnosed, diagnostics,
}
use codex_webex_connector.Effects.Logic.{Condition, Triple}
use codex_webex_connector.Effects.Logic.Rules.{
  via, pure-Triple, fail-Triple, branch-Triple, attempt-Triple, observe-Triple, codex-Triple,
  clock-Triple, get_worker-Triple, weaken-Triple,
}
use codex_webex_connector.Handlers.{AppConfig, save_session}
use codex_webex_connector.Handlers.Probes.{
  codex_thread_exists, thread_exists_from, page_has, probe_list, probe_second, probe_resumed,
  probe_first, probe_session_thread, probed_by_list, is_readable, keep_probe, resume_readable,
  reconcile_found, reconcile_each, reconcile_sessions, keep_diagnosis, diagnose_session,
  handle_diagnose_command,
}
use codex_webex_connector.Handlers.Saving.{Logged, everything}
use codex_webex_connector.Handlers.Saving.Persist.{refresh-Triple, send-Triple}
use codex_webex_connector.Handlers.Saving.Sessions.{
  IsKept, saved-Triple, kept-Triple, lookup-Triple, save_session-Triple,
}

module _ {services : Services} {start : ReplayState} {file : Option BridgeSnapshot}
    (pages : ℕ) where
  page_has-Triple :
      {P : Condition} (id : String) (cursor : Option String) (page : Answer)
      (next : String → Handler Bool)
      → ((c : String) → Triple services start file P (next c) (λ _. P) P)
      → Triple services start file P (page_has services pages id cursor page next) (λ _. P) P
  page_has-Triple id none page next h = pure-Triple (any (λ i. i == id) page.thread_ids)
  page_has-Triple id (some c) page next h =
      branch-Triple (any (λ i. i == id) page.thread_ids) (pure-Triple true) (h c)

  thread_exists_from-Triple :
      {P : Condition} (n : ℕ) (id : String) (cursor : Option String)
      → Triple services start file P (thread_exists_from services pages n id cursor) (λ _. P) P
  unfolding thread_exists_from
  thread_exists_from-Triple zero id cursor = fail-Triple unending_list
  thread_exists_from-Triple {P} (suc n) id cursor =
      via (λ _. P) (codex-Triple (thread_list_page false cursor))
        λ page.
          page_has-Triple id page.next_cursor page
            (λ next. thread_exists_from services pages n id (some next))
            (λ next. thread_exists_from-Triple n id (some next))

  probe_list-Triple :
      {P : Condition} (id : String)
      → Triple services start file P (probe_list services pages id) (λ _. P) P
  unfolding codex_thread_exists
  probe_list-Triple {P} id =
      via (λ _. P) (observe-Triple (thread_exists_from-Triple pages id none))
        λ listed. pure-Triple (probed_by_list services pages id listed)

  probe_second-Triple :
      {P : Condition} (id : String) (r : Result Failure Answer)
      → Triple services start file P (probe_second services pages id r) (λ _. P) P
  probe_second-Triple id (ok a) =
      pure-Triple
        (record { kind = readable; message = "Local Codex thread became readable after resume." })
  probe_second-Triple id (err e) = probe_list-Triple id

  probe_resumed-Triple :
      {P : Condition} (id : String) (r : Result Failure Answer)
      → Triple services start file P (probe_resumed services pages id r) (λ _. P) P
  probe_resumed-Triple {P} id (ok a) =
      via (λ _. P) (observe-Triple (codex-Triple (thread_read id false))) (probe_second-Triple id)
  probe_resumed-Triple id (err e) = probe_list-Triple id

  probe_first-Triple :
      {P : Condition} (id : String) (r : Result Failure Answer)
      → Triple services start file P (probe_first services pages id r) (λ _. P) P
  probe_first-Triple id (ok a) =
      pure-Triple (record { kind = readable; message = "Local Codex thread is readable." })
  probe_first-Triple {P} id (err e) =
      via (λ _. P) (observe-Triple (codex-Triple (thread_resume id))) (probe_resumed-Triple id)

  probe_session_thread-Triple :
      {P : Condition} (t : SessionRecord)
      → Triple services start file P (probe_session_thread services pages t) (λ _. P) P
  unfolding probe_session_thread
  probe_session_thread-Triple {P} t =
      via (λ _. P) (observe-Triple (codex-Triple (thread_read t.thread_id false)))
        (probe_first-Triple t.thread_id)

  module _ (config : AppConfig) (installation : String) {P : Condition} (kept : IsKept P) where
    save-Triple :
        (t : SessionRecord)
        → Triple services start file P (save_session services config t) (λ _. P) Logged
    save-Triple t =
        saved-Triple config kept (save_session-Triple config {p = everything} {q = everything} t)

    keep_probe-Triple :
        (before : SessionRecord) (message : String) (o : Option SessionRecord)
        → Triple services start file P
            (keep_probe services pages config installation before message o)
            (λ _. P)
            Logged
    keep_probe-Triple before message none = pure-Triple tt
    keep_probe-Triple before message (some updated) =
        via (λ _. P) (save-Triple updated)
          λ _.
            branch-Triple (state_is_failed updated.state && not (state_is_failed before.state))
              (attempt-Triple {Q = P} {E = Logged}
                (send-Triple updated.session_room_id (unrecovered_notice message)))
              (pure-Triple {Q = λ _. P} {E = Logged} tt)

    resume_readable-Triple :
        (t : SessionRecord) (kind : ThreadProbeKind)
        → Triple services start file P
            (resume_readable services pages config installation t kind)
            (λ _. P)
            Logged
    resume_readable-Triple t kind =
        branch-Triple (is_readable kind)
          (attempt-Triple {Q = P} {E = Logged} (codex-Triple (thread_resume t.thread_id)))
          (pure-Triple {Q = λ _. P} {E = Logged} tt)

    reconcile_found-Triple :
        (o : Option SessionRecord)
        → Triple services start file P
            (reconcile_found services pages config installation o)
            (λ _. P)
            Logged
    reconcile_found-Triple none = pure-Triple tt
    reconcile_found-Triple (some t) =
        branch-Triple (t.archived || not (session_belongs_to_installation t installation))
          (pure-Triple {Q = λ _. P} {E = Logged} tt)
          (via (λ _. P) (kept-Triple config kept (probe_session_thread-Triple t))
            λ probe.
              via (λ _. P) (resume_readable-Triple t probe.kind)
                λ _.
                  via (λ _. P) clock-Triple
                    λ now. keep_probe-Triple t probe.message (apply_thread_probe t probe now))

    reconcile_each-Triple :
        (ids : List String)
        → Triple services start file P
            (reconcile_each services pages config installation ids)
            (λ _. P)
            Logged
    unfolding reconcile_each
    reconcile_each-Triple [] = pure-Triple tt
    reconcile_each-Triple (id ∷ ids) =
        via (λ _. P)
          (weaken-Triple (get_worker-Triple {P = P} {E = Logged}) (λ s r f h. h) (λ _ s r f h. h.1)
            (λ s r f h. h))
          λ worker.
            via (λ _. P) (reconcile_found-Triple (Dict.get worker.sessions id))
              λ _. reconcile_each-Triple ids

    pub reconcile_sessions-Triple :
        Triple services start file P
          (reconcile_sessions services pages config installation)
          (λ _. P)
          Logged
    unfolding reconcile_sessions
    reconcile_sessions-Triple =
        via (λ _. P)
          (weaken-Triple (get_worker-Triple {P = P} {E = Logged}) (λ s r f h. h) (λ _ s r f h. h.1)
            (λ s r f h. h))
          λ worker. reconcile_each-Triple (map (λ entry. entry.0) (Dict.entries worker.sessions))

    keep_diagnosis-Triple :
        (before : SessionRecord) (probe : ThreadProbe) (o : Option SessionRecord)
        → Triple services start file P
            (keep_diagnosis services pages config installation before probe o)
            (λ _. P)
            Logged
    keep_diagnosis-Triple before probe none = pure-Triple (diagnosed before probe.message)
    keep_diagnosis-Triple before probe (some updated) =
        via (λ _. P) (save-Triple updated)
          λ _.
            via (λ _. P) (attempt-Triple (refresh-Triple updated))
              λ _. pure-Triple (diagnosed updated probe.message)

    diagnose_session-Triple :
        (t : SessionRecord)
        → Triple services start file P
            (diagnose_session services pages config installation t)
            (λ _. P)
            Logged
    diagnose_session-Triple t =
        branch-Triple (not (session_belongs_to_installation t installation))
          (pure-Triple (not_managed_notice t))
          (branch-Triple (counts_as_archived t) (pure-Triple (archived_notice t)) (
            via (λ _. P) (kept-Triple config kept (probe_session_thread-Triple t))
              λ probe.
                via (λ _. P) clock-Triple
                  λ now. keep_diagnosis-Triple t probe (apply_thread_probe t probe now)))

    pub handle_diagnose_command-Triple :
        (by_time : List SessionRecord → List SessionRecord) (command : DiagnoseCommand)
        → Triple services start file P
            (handle_diagnose_command services pages config installation by_time command)
            (λ _. P)
            Logged
    unfolding handle_diagnose_command
    handle_diagnose_command-Triple by_time sessions =
        via (λ _. P)
          (weaken-Triple (get_worker-Triple {P = P} {E = Logged}) (λ s r f h. h) (λ _ s r f h. h.1)
            (λ s r f h. h))
          λ worker.
            pure-Triple (diagnostics (by_time (sessions_for_diagnostics worker installation)))
    handle_diagnose_command-Triple by_time (session id) =
        via (λ seen s r f. (s ≡ seen) × P s r f) get_worker-Triple
          λ worker.
            via (λ _. P)
              (weaken-Triple
                (lookup-Triple config kept (λ s. Dict.get s.sessions id) worker bad_input)
                (λ s r f h. h) (λ _ s r f h. h.1) (λ s r f h. h))
              λ t. diagnose_session-Triple t
