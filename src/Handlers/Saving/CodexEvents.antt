-- ===== src/Handlers/Saving/CodexEvents.antt =====
-- crates/wxcd-worker/src/main.rs, `handle_codex_event`: an event that is handled leaves the log and
-- the local snapshot in agreement with the worker, and one that fails leaves the worker sound.
use codex_webex_connector.Base.{String, Option, none, some, [], ◌∷◌, ◌≡◌, refl, ap, ◌∙◌, ◌==◌}
use codex_webex_connector.Base.Dict
use codex_webex_connector.Json.{Json, get, json_str, then_str}
use codex_webex_connector.Model.{
  SessionRecord, PendingApproval, BridgeSnapshot, command_execution, file_change, permissions,
}
use codex_webex_connector.EventLog.{ReplayState}
use codex_webex_connector.Worker.{WorkerState, upsert_session}
use codex_webex_connector.Sessions.{session_belongs_to_installation}
use codex_webex_connector.Effects.{Services, final_summary, respond_error, unhandled_request}
use codex_webex_connector.Effects.Logic.{Condition, Triple}
use codex_webex_connector.Effects.Logic.Rules.{
  via, pure-Triple, branch-Triple, codex-Triple, clock-Triple, modify-Triple, weaken-Triple,
}
use codex_webex_connector.Handlers.{AppConfig}
use codex_webex_connector.Handlers.Approvals.{request_approval}
use codex_webex_connector.Handlers.CodexEvents.{
  CodexEvent, notification, server_request, handle_codex_event, notified, requested, put,
  thread_status_changed, turn_started, message_delta, turn_completed, add_delta, complete,
  with_status, started, completed_at, with_delta, or_else,
}
use codex_webex_connector.Handlers.Saving.{Saved, Sound, durable_of}
use codex_webex_connector.Handlers.Saving.InPlace.{unseen, unseen-IsSound}
use codex_webex_connector.Handlers.Saving.Persist.{refresh-Triple, send-Triple}
use codex_webex_connector.Handlers.Saving.Requests.{
  read-Triple, build_pending_approval-Triple, request_approval-Triple,
}
use codex_webex_connector.Handlers.Saving.Sessions.{IsKept}
use codex_webex_connector.Handlers.Saving.Changes.{
  Changed, PutAgain, put_again, put-Triple, log_put-Triple, of_thread-Triple, sound-Triple,
  update_session-Triple,
}

module _ {services : Services} {start : ReplayState} {file : Option BridgeSnapshot}
    (config : AppConfig) where
  module _ {P : Condition} (kept : IsKept P) where
    add_delta-Triple :
        (delta : String) (worker : WorkerState) (o : Option (String × SessionRecord))
        → ((id : String) (t : SessionRecord)
            → o ≡ some (id, t)
            → Dict.get worker.sessions id ≡ some t)
        → Triple services start file
            (λ s r f. (s ≡ worker) × P s r f)
            (add_delta services config delta o)
            (λ _. P)
            Sound
    unfolding put session_belongs_to_installation
    add_delta-Triple delta worker none known =
        weaken-Triple (pure-Triple {Q = λ _. P} {E = Sound} tt) (λ s r f h. h.1) (λ _ s r f h. h)
          (λ s r f h. h)
    add_delta-Triple delta worker (some (id, old)) known =
        modify-Triple (put id (with_delta delta old)) λ s r f (e, h).
          let found = ap (λ v. Dict.get v.sessions id) e ∙ known id old refl in
          kept.views s (put id (with_delta delta old) s) r f
            (λ j. (unseen s.sessions id (with_delta delta old) old found durable_of j refl, refl))
            (unseen-IsSound s id (with_delta delta old) old found (refl, refl, refl) refl refl
              (kept.logs s r f h).0)
            h

    complete-Triple :
        (worker : WorkerState) (o : Option (String × SessionRecord))
        → ((id : String) (t : SessionRecord)
            → o ≡ some (id, t)
            → Dict.get worker.sessions id ≡ some t)
        → Triple services start file
            (λ s r f. (s ≡ worker) × P s r f)
            (complete services config o)
            (λ _. P)
            Sound
    complete-Triple worker none known =
        weaken-Triple (pure-Triple {Q = λ _. P} {E = Sound} tt) (λ s r f h. h.1) (λ _ s r f h. h)
          (λ s r f h. h)
    complete-Triple worker (some (id, old)) known =
        via (λ _ s r f. (Dict.get s.sessions id ≡ some old) × P s r f)
          (weaken-Triple (clock-Triple {P = λ s r f. (s ≡ worker) × P s r f} {E = Sound})
            (λ s r f h. h)
            (λ _ s r f (e, h). (ap (λ v. Dict.get v.sessions id) e ∙ known id old refl, h))
            (λ s r f h. h))
          λ now.
            let t = completed_at old now in
            via (λ _. Changed id t old) (put-Triple config kept id t old)
              λ _.
                via (λ _. PutAgain t)
                  (modify-Triple (upsert_session t)
                    λ s r f h. put_again id t old s r f (refl, refl, refl) h)
                  λ _.
                    via (λ _. PutAgain t)
                      (weaken-Triple
                        (send-Triple {P = PutAgain t} t.session_room_id (final_summary t))
                        (λ s r f h. h) (λ _ s r f h. h) (λ s r f h. h.0))
                      λ _.
                        via (λ _. Saved) (log_put-Triple config t)
                          λ _.
                            weaken-Triple (refresh-Triple {P = Saved} {E = Sound} t) (λ s r f h. h)
                              (λ _. kept.saves) (λ s r f h. h)

    notified-Triple :
        (method : String) (params : Json)
        → Triple services start file P (notified services config method params) (λ _. P) Sound
    unfolding thread_status_changed turn_started message_delta turn_completed
    notified-Triple method params =
        branch-Triple (method == "thread/status/changed")
          (via (λ _. P) (sound-Triple config kept (read-Triple (json_str params ("threadId" ∷ []))))
            λ thread_id.
              update_session-Triple config kept thread_id
                (with_status (or_else "idle" (json_str params ("status" ∷ "type" ∷ []))))
                λ t now. (refl, refl, refl))
          (branch-Triple (method == "turn/started")
            (via (λ _. P)
              (sound-Triple config kept (read-Triple (json_str params ("threadId" ∷ []))))
              λ thread_id.
                via (λ _. P)
                  (sound-Triple config kept (read-Triple (json_str params ("turn" ∷ "id" ∷ []))))
                  λ turn_id.
                    update_session-Triple config kept thread_id (started turn_id)
                      λ t now. (refl, refl, refl))
            (branch-Triple (method == "item/agentMessage/delta")
              (via (λ _. P)
                (sound-Triple config kept (read-Triple (json_str params ("threadId" ∷ []))))
                λ thread_id.
                  let delta = or_else "" (then_str (get params "delta")) in
                  of_thread-Triple config kept thread_id (add_delta services config delta)
                    (add_delta-Triple delta))
              (branch-Triple (method == "turn/completed")
                (via (λ _. P)
                  (sound-Triple config kept (read-Triple (json_str params ("threadId" ∷ []))))
                  λ thread_id.
                    of_thread-Triple config kept thread_id (complete services config)
                      complete-Triple)
                (pure-Triple tt))))

    request-Triple :
        (a : PendingApproval)
        → Triple services start file P (request_approval services config a) (λ _. P) Sound
    request-Triple a =
        weaken-Triple (request_approval-Triple config a) kept.logs (λ _. kept.saves) λ s r f h. h

    requested-Triple :
        (id : Json) (method : String) (params : Json)
        → Triple services start file P (requested services config id method params) (λ _. P) Sound
    requested-Triple id method params =
        branch-Triple (method == "item/commandExecution/requestApproval")
          (via (λ _. P)
            (sound-Triple config kept (build_pending_approval-Triple id command_execution params))
            request-Triple)
          (branch-Triple (method == "item/fileChange/requestApproval")
            (via (λ _. P)
              (sound-Triple config kept (build_pending_approval-Triple id file_change params))
              request-Triple)
            (branch-Triple (method == "item/permissions/requestApproval")
              (via (λ _. P)
                (sound-Triple config kept (build_pending_approval-Triple id permissions params))
                λ a. request-Triple (record a { requested_permissions = get params "permissions" }))
              (via (λ _. P)
                (sound-Triple config kept (codex-Triple (respond_error id unhandled_request)))
                λ _. pure-Triple tt)))

    pub handle_codex_event-Triple :
        (event : CodexEvent)
        → Triple services start file P (handle_codex_event services config event) (λ _. P) Sound
    unfolding handle_codex_event
    handle_codex_event-Triple (notification method params) = notified-Triple method params
    handle_codex_event-Triple (server_request id method params) = requested-Triple id method params
