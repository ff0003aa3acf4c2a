-- ===== src/Handlers/Ingress.antt =====
-- crates/wxcd-worker/src/main.rs, `handle_webex_ingress` and `handle_attachment_action`, with the
-- records of crates/wxcd-proto/src/model.rs: what arrives from the sidecar, once for each event.
-- The handler of the control room is a parameter.
use codex_webex_connector.Base.{
  String, Bool, true, false, not, ◌||◌, Option, none, some, any, ◌==◌, if◌then◌else◌,
}
use codex_webex_connector.Base.Dict
use codex_webex_connector.Base.IdSet
use codex_webex_connector.Base.Result.{Result, ok, err}
use codex_webex_connector.Base.Text.Ascii.{to_ascii_lowercase}
use codex_webex_connector.Json.{Json, find_string}
use codex_webex_connector.Model.{Instant}
use codex_webex_connector.Worker.Guards.{
  ensure_approval_belongs_to_installation, ensure_session_id_belongs_to_installation,
}
use codex_webex_connector.Worker.Recent.{remember_event, forget_event}
use codex_webex_connector.Effects.{
  Services, Handler, Failure, delivery_enqueue, bad_input, webex, get_attachment_action, call,
  get_worker, modify, fail, require, checked, observe, done, ◌>>=◌, ◌>>◌,
}
use codex_webex_connector.Handlers.{AppConfig}
use codex_webex_connector.Handlers.Approvals.{resolve_approval}
use codex_webex_connector.Handlers.Archive.{archive_session}
use codex_webex_connector.Handlers.Notifications.{
  WebexAsyncNotificationEvent, build_async_notification_delivery_request,
}
use codex_webex_connector.Handlers.Messages.{handle_session_message}

pub record WebexMessageEvent : Type 0 where
  pub event_id : String
  pub room_id : String
  pub message_id : String
  pub person_email : String
  pub text : String
  pub created : Instant
  pub sidecar_received_at : Option Instant
  pub processing_ack : Bool

pub record WebexAttachmentActionEvent : Type 0 where
  pub event_id : String
  pub room_id : String
  pub attachment_action_id : String
  pub person_email : String
  pub message_id : Option String
  pub inputs : Json
  pub created : Instant
  pub sidecar_received_at : Option Instant
  pub processing_ack : Bool

pub data WebexIngressEnvelope : Type 0 where
  message_created : WebexMessageEvent → WebexIngressEnvelope
  attachment_action_created : WebexAttachmentActionEvent → WebexIngressEnvelope
  async_notification : WebexAsyncNotificationEvent → WebexIngressEnvelope
  health_check active_check : WebexIngressEnvelope

unfoldable pub is_ignored_sender : AppConfig → String → Bool
is_ignored_sender config person_email =
    let normalized = to_ascii_lowercase person_email in
    normalized == config.bot_email
    || not (any (λ email. email == normalized) config.allowed_user_emails)

unfoldable pub ingress_requires_processing_ack : WebexIngressEnvelope → Bool
ingress_requires_processing_ack (message_created message) = message.processing_ack
ingress_requires_processing_ack (attachment_action_created action) = action.processing_ack
ingress_requires_processing_ack (async_notification notification) = true
ingress_requires_processing_ack health_check = false
ingress_requires_processing_ack active_check = false

-- the id by which an event is remembered
abbrev pub event_id_of : WebexIngressEnvelope → Option String
event_id_of (message_created message) = some message.event_id
event_id_of (attachment_action_created action) = some action.event_id
event_id_of (async_notification notification) = some notification.event_id
event_id_of health_check = none
event_id_of active_check = none

-- `state.remember_event(…)`
unfoldable pub remember : String → Handler Bool
remember event_id w =
    let (worker, is_new) = remember_event event_id w.worker in
    (record w { worker = worker }, ok is_new)

-- `result?`, after `if result.is_err() && processing_ack { state.forget_event(…) }`
abbrev pub settle : String → Bool → Result Failure (Unit {0}) → Handler (Unit {0})
settle event_id processing_ack (ok _) = done
settle event_id true (err e) = modify (forget_event event_id) >> fail e
settle event_id false (err e) = fail e

abbrev pub is_session_action : String → Bool
is_session_action action =
    action == "status" || action == "resume" || action == "pause" || action == "archive"

-- a connection that fails, a request that is refused and a timeout are one failure of the call
unfoldable pub enqueue_async_notification :
    Services → Option String → WebexAsyncNotificationEvent → Handler (Unit {0})
enqueue_async_notification services delivery_broker notification = do
  broker ← require delivery_broker bad_input
  worker ← get_worker
  request ← require (build_async_notification_delivery_request worker notification) bad_input
  call services (delivery_enqueue request)
  done

module _ (services : Services) (config : AppConfig) where
  abbrev pub decide : String → Json → String → Handler (Unit {0})
  decide installation inputs decision = do
    approval_id ← require (find_string inputs "approval_id") bad_input
    worker ← get_worker
    checked (ensure_approval_belongs_to_installation worker approval_id installation)
    resolve_approval services config approval_id decision

  unfoldable pub approval_action : String → Json → Handler (Unit {0})
  approval_action installation inputs = do
    approval_id ← require (find_string inputs "approval_id") bad_input
    decision ← require (find_string inputs "decision") bad_input
    worker ← get_worker
    checked (ensure_approval_belongs_to_installation worker approval_id installation)
    resolve_approval services config approval_id decision

  abbrev pub session_command : String → String → Handler (Unit {0})
  session_command action session_id =
      if action == "archive"
      then archive_session services config session_id
      else handle_session_message services config session_id (
          if action == "status"
          then "/status"
          else if action == "resume"
          then "/resume"
          else "/pause")

  unfoldable pub session_action : String → Json → String → Handler (Unit {0})
  session_action installation inputs action = do
    session_id ← require (find_string inputs "session_id") bad_input
    worker ← get_worker
    checked (ensure_session_id_belongs_to_installation worker session_id installation)
    session_command action session_id

  abbrev pub decide_if : String → Json → Option String → Handler (Unit {0})
  decide_if installation inputs none = done
  decide_if installation inputs (some decision) = decide installation inputs decision

  unfoldable pub fetched_action : String → String → Handler (Unit {0})
  fetched_action installation attachment_action_id = do
    attachment ← call services (webex (get_attachment_action attachment_action_id))
    decide_if installation attachment.body (find_string attachment.body "decision")

  abbrev pub act : String → WebexAttachmentActionEvent → Option String → Handler (Unit {0})
  act installation action none = fetched_action installation action.attachment_action_id
  act installation action (some name) =
      if name == "approval"
      then approval_action installation action.inputs
      else if is_session_action name
      then session_action installation action.inputs name
      else fetched_action installation action.attachment_action_id

  unfoldable pub handle_attachment_action : String → WebexAttachmentActionEvent → Handler (Unit {0})
  unfolding approval_action session_action fetched_action
  handle_attachment_action installation action =
      act installation action (find_string action.inputs "wxcd_action")

  module _ (installation control_room_id : String)
      (control_message : WebexMessageEvent → Handler (Unit {0}))
      (delivery_broker : Option String) where
    abbrev pub in_room : WebexMessageEvent → Option String → Handler (Unit {0})
    in_room message none = done
    in_room message (some session_id) =
        handle_session_message services config session_id message.text

    unfoldable pub on_message : WebexMessageEvent → Handler (Unit {0})
    on_message message = do
      worker ← get_worker
      if message.room_id == control_room_id
          then control_message message
          else in_room message (Dict.get worker.room_to_session message.room_id)

    -- the sender is allowed and the event is new
    unfoldable pub once : String → String → Bool → Handler (Unit {0}) → Handler (Unit {0})
    once person_email event_id processing_ack work =
        if is_ignored_sender config person_email
        then done
        else remember event_id
          >>= (λ is_new. if is_new then observe work >>= settle event_id processing_ack else done)

    -- `should_process_async_notification_event` comes first
    unfoldable pub notify_once : WebexAsyncNotificationEvent → Handler (Unit {0})
    notify_once notification = do
      worker ← get_worker
      if IdSet.contains worker.recent_event_ids notification.event_id
          then done
          else enqueue_async_notification services delivery_broker notification
            >> (remember notification.event_id >> done)

    unfoldable pub handle_webex_ingress : WebexIngressEnvelope → Handler (Unit {0})
    unfolding enqueue_async_notification on_message once notify_once handle_attachment_action
    handle_webex_ingress (message_created message) =
        once message.person_email message.event_id message.processing_ack (on_message message)
    handle_webex_ingress (attachment_action_created action) =
        once action.person_email action.event_id action.processing_ack
          (handle_attachment_action installation action)
    handle_webex_ingress (async_notification notification) = notify_once notification
    handle_webex_ingress health_check = done
    handle_webex_ingress active_check = done
