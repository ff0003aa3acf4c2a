-- ===== src/Handlers/Saving/Actions.antt =====
-- crates/wxcd-worker/src/main.rs, `handle_attachment_action`: what a card's button does leaves the log and
-- the local snapshot in agreement with the worker.
use codex_webex_connector.Base.{String, Option, none, some, ◌≡◌, ◌==◌, if◌then◌else◌}
use codex_webex_connector.Base.Result.{Result}
use codex_webex_connector.Json.{Json, find_string}
use codex_webex_connector.Model.{BridgeSnapshot}
use codex_webex_connector.EventLog.{ReplayState}
use codex_webex_connector.Worker.{WorkerState}
use codex_webex_connector.Worker.Guards.{
  GuardError, ensure_approval_belongs_to_installation, ensure_session_id_belongs_to_installation,
}
use codex_webex_connector.Effects.{
  Services, Handler, get_worker, checked, ◌>>◌, get_attachment_action, ◌>>=◌,
}
use codex_webex_connector.Effects.Logic.{Condition, Triple}
use codex_webex_connector.Effects.Logic.Rules.{
  via, pure-Triple, branch-Triple, webex-Triple, get_worker-Triple, weaken-Triple,
}
use codex_webex_connector.Handlers.{AppConfig}
use codex_webex_connector.Handlers.Approvals.{resolve_approval}
use codex_webex_connector.Handlers.Ingress.{
  WebexAttachmentActionEvent, decide, decide_if, approval_action, session_command, session_action,
  fetched_action, is_session_action, act, handle_attachment_action,
}
use codex_webex_connector.Handlers.Saving.{Logged}
use codex_webex_connector.Handlers.Saving.Approvals.{resolve_approval-Triple}
use codex_webex_connector.Handlers.Saving.Archive.{archive_session-Triple}
use codex_webex_connector.Handlers.Saving.Messages.{handle_session_message-Triple}
use codex_webex_connector.Handlers.Saving.Requests.{read-Triple}
use codex_webex_connector.Handlers.Saving.Sessions.{IsKept, kept-Triple, check-Triple}

module _ {services : Services} {start : ReplayState} {file : Option BridgeSnapshot} where
  module _ (config : AppConfig) {P : Condition} (kept : IsKept P) where
    checked_then-Triple :
        (test : WorkerState → Result GuardError (Unit {0})) (m : Handler (Unit {0}))
        → Triple services start file P m (λ _. P) Logged
        → Triple services start file P
            (get_worker >>= (λ worker. checked (test worker) >> m))
            (λ _. P)
            Logged
    checked_then-Triple test m h =
        via (λ seen s r f. (s ≡ seen) × P s r f) get_worker-Triple
          λ worker.
            via (λ _. P)
              (weaken-Triple (check-Triple config kept test worker) (λ s r f x. x)
                (λ _ s r f x. x.1) (λ s r f x. x))
              λ _. h

    decide-Triple :
        (installation : String) (inputs : Json) (decision : String)
        → Triple services start file P
            (decide services config installation inputs decision)
            (λ _. P)
            Logged
    decide-Triple installation inputs decision =
        via (λ _. P) (kept-Triple config kept (read-Triple (find_string inputs "approval_id")))
          λ id.
            checked_then-Triple (λ s. ensure_approval_belongs_to_installation s id installation)
              (resolve_approval services config id decision)
              (resolve_approval-Triple config id decision kept)

    approval_action-Triple :
        (installation : String) (inputs : Json)
        → Triple services start file P
            (approval_action services config installation inputs)
            (λ _. P)
            Logged
    unfolding approval_action
    approval_action-Triple installation inputs =
        via (λ _. P) (kept-Triple config kept (read-Triple (find_string inputs "approval_id")))
          λ id.
            via (λ _. P) (kept-Triple config kept (read-Triple (find_string inputs "decision")))
              λ decision.
                checked_then-Triple (λ s. ensure_approval_belongs_to_installation s id installation)
                  (resolve_approval services config id decision)
                  (resolve_approval-Triple config id decision kept)

    session_command-Triple :
        (action id : String)
        → Triple services start file P (session_command services config action id) (λ _. P) Logged
    session_command-Triple action id =
        branch-Triple (action == "archive") (archive_session-Triple config kept id) (
          handle_session_message-Triple config kept id (
            if action == "status"
            then "/status"
            else if action == "resume"
            then "/resume"
            else "/pause"))

    session_action-Triple :
        (installation : String) (inputs : Json) (action : String)
        → Triple services start file P
            (session_action services config installation inputs action)
            (λ _. P)
            Logged
    unfolding session_action
    session_action-Triple installation inputs action =
        via (λ _. P) (kept-Triple config kept (read-Triple (find_string inputs "session_id")))
          λ id.
            checked_then-Triple (λ s. ensure_session_id_belongs_to_installation s id installation)
              (session_command services config action id) (session_command-Triple action id)

    decide_if-Triple :
        (installation : String) (inputs : Json) (o : Option String)
        → Triple services start file P
            (decide_if services config installation inputs o)
            (λ _. P)
            Logged
    decide_if-Triple installation inputs none = pure-Triple tt
    decide_if-Triple installation inputs (some decision) =
        decide-Triple installation inputs decision

    fetched_action-Triple :
        (installation id : String)
        → Triple services start file P
            (fetched_action services config installation id)
            (λ _. P)
            Logged
    unfolding fetched_action
    fetched_action-Triple installation id =
        via (λ _. P) (kept-Triple config kept (webex-Triple (get_attachment_action id)))
          λ a. decide_if-Triple installation a.body (find_string a.body "decision")

    act-Triple :
        (installation : String) (action : WebexAttachmentActionEvent) (o : Option String)
        → Triple services start file P (act services config installation action o) (λ _. P) Logged
    act-Triple installation action none =
        fetched_action-Triple installation action.attachment_action_id
    act-Triple installation action (some name) =
        branch-Triple (name == "approval") (approval_action-Triple installation action.inputs) (
          branch-Triple (is_session_action name)
            (session_action-Triple installation action.inputs name)
            (fetched_action-Triple installation action.attachment_action_id))

    pub handle_attachment_action-Triple :
        (installation : String) (action : WebexAttachmentActionEvent)
        → Triple services start file P
            (handle_attachment_action services config installation action)
            (λ _. P)
            Logged
    unfolding handle_attachment_action
    handle_attachment_action-Triple installation action =
        act-Triple installation action (find_string action.inputs "wxcd_action")
