-- ===== src/Handlers/Notifications.antt =====
-- crates/wxcd-worker/src/main.rs, `build_async_notification_delivery_request`: a notification is for the
-- thread of a session that this worker may execute.
use codex_webex_connector.Base.{String, Option, none, some, ◌==◌, if◌then◌else◌}
use codex_webex_connector.Base.Dict
use codex_webex_connector.Base.Text.{trim}
use codex_webex_connector.Commands.{◌>>=◌, non_empty}
use codex_webex_connector.Json.{Json}
use codex_webex_connector.Model.{Instant, SessionRecord}
use codex_webex_connector.Worker.{WorkerState, should_index_session_thread}
use codex_webex_connector.Effects.{DeliveryRequest}

-- crates/wxcd-proto/src/model.rs
pub record WebexAsyncNotificationEvent : Type 0 where
  pub event_id : String
  pub session_id : Option String
  pub thread_id : Option String
  pub summary : String
  pub payload : Option Json
  pub created : Instant

unfoldable pub ensure_async_delivery_session_is_executable :
    WorkerState → SessionRecord → Option SessionRecord
ensure_async_delivery_session_is_executable s session =
    if should_index_session_thread s session then some session else none

-- the session and its thread
abbrev pub target : WorkerState → Option String → Option String → Option (String × String)
target s (some session_id) (some thread_id) = do
  known ← Dict.get s.sessions session_id
  session ← ensure_async_delivery_session_is_executable s known
  if session.thread_id == thread_id then some (session_id, session.thread_id) else none
target s (some session_id) none = do
  known ← Dict.get s.sessions session_id
  session ← ensure_async_delivery_session_is_executable s known
  some (session_id, session.thread_id)
target s none (some thread_id) = do
  session_id ← Dict.get s.thread_to_session thread_id
  some (session_id, thread_id)
target s none none = none

unfoldable pub resolve_async_notification_target :
    WorkerState → WebexAsyncNotificationEvent → Option (String × String)
resolve_async_notification_target s n = target s n.session_id n.thread_id

-- the idempotency key of the request is a hash of the event id
unfoldable pub build_async_notification_delivery_request :
    WorkerState → WebexAsyncNotificationEvent → Option DeliveryRequest
unfolding resolve_async_notification_target
build_async_notification_delivery_request s n = do
  (session_id, thread_id) ← resolve_async_notification_target s n
  summary ← non_empty (trim n.summary)
  event_id ← non_empty (trim n.event_id)
  some (record {
    source_thread_id = thread_id;
    session_id = session_id;
    event_id = event_id;
    summary = summary;
    payload = n.payload;
    created = n.created;
  })
