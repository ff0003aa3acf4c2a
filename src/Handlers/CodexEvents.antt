-- ===== src/Handlers/CodexEvents.antt =====
-- crates/wxcd-worker/src/main.rs, `handle_codex_event`: what the notifications and the requests of
-- Codex do. A handler changes the session in place, and then puts a clone of it in again.
use codex_webex_connector.Base.{
  String, ◌&&◌, Option, none, some, [], ◌∷◌, ◌==◌, is_some, if◌then◌else◌,
}
use codex_webex_connector.Base.Dict
use codex_webex_connector.Base.Text.{trim, with_prefix}
use codex_webex_connector.Json.{Json, get, json_str, then_str}
use codex_webex_connector.Model.{
  Instant, SessionRecord, SessionState, command_execution, file_change, permissions,
}
use codex_webex_connector.Model
use codex_webex_connector.Worker
use codex_webex_connector.Worker.{WorkerState}
use codex_webex_connector.Effects.{
  Services, Handler, bad_input, final_summary, codex, respond_error, unhandled_request, clock, call,
  get_worker, modify, require, done, ◌>>=◌, ◌>>◌,
}
use codex_webex_connector.Handlers.{
  AppConfig, send_plain_message, refresh_overview, persist_event, save_session,
}
use codex_webex_connector.Handlers.Approvals.{build_pending_approval, request_approval}

-- crates/wxcd-codex/src/lib.rs
pub data CodexEvent : Type 0 where
  notification : String → Json → CodexEvent
  server_request : Json → String → Json → CodexEvent

abbrev pub or_else : String → Option String → String
or_else default none = default
or_else default (some s) = s

abbrev pub status_state : String → SessionRecord → SessionState
status_state status session =
    if status == "active"
    then SessionState.running
    else if status == "idle" && session.archived
    then SessionState.archived
    else if status == "idle" && is_some session.last_final
    then SessionState.completed
    else SessionState.idle

abbrev pub with_status : String → SessionRecord → Instant → SessionRecord
with_status status session now = record session {
  state = status_state status session;
  failure = none;
  updated_at = now;
}

abbrev pub started : String → SessionRecord → Instant → SessionRecord
started turn_id session now = record session {
  active_turn_id = some turn_id;
  failure = none;
  active_turn_buffer = "";
  state = SessionState.running;
  updated_at = now;
}

abbrev pub completed_at : SessionRecord → Instant → SessionRecord
completed_at session now = record session {
  state = SessionState.completed;
  failure = none;
  last_final = some (trim session.active_turn_buffer);
  active_turn_id = none;
  updated_at = now;
}

abbrev pub with_delta : String → SessionRecord → SessionRecord
with_delta delta session = record session {
  active_turn_buffer = with_prefix session.active_turn_buffer delta;
}

-- `thread_to_session.get(thread_id)` and `sessions.get(&session_id)`
abbrev pub session_of_thread : WorkerState → Option String → Option (String × SessionRecord)
session_of_thread worker none = none
session_of_thread worker (some session_id) = elim (Dict.get worker.sessions session_id) [
  | none ↦ none
  | some session ↦ some (session_id, session)
]

-- what is written through `sessions.get_mut(&session_id)`
unfoldable pub put : String → SessionRecord → WorkerState → WorkerState
put session_id session s = record s { sessions = Dict.insert session_id session s.sessions }

module _ (services : Services) (config : AppConfig) where
  abbrev pub update_with :
      (SessionRecord → Instant → SessionRecord)
      → Option (String × SessionRecord)
      → Handler (Unit {0})
  update_with change none = done
  update_with change (some (session_id, session)) = do
    now ← clock services
    modify (put session_id (change session now))
    save_session services config (change session now)
    refresh_overview services (change session now)

  -- the session of the thread is changed, saved, and its overview refreshed
  unfoldable pub update_session :
      String → (SessionRecord → Instant → SessionRecord) → Handler (Unit {0})
  update_session thread_id change = do
    worker ← get_worker
    update_with change (session_of_thread worker (Dict.get worker.thread_to_session thread_id))

  unfoldable pub thread_status_changed : Json → Handler (Unit {0})
  unfolding update_session
  thread_status_changed params = do
    thread_id ← require (json_str params ("threadId" ∷ [])) bad_input
    let status = or_else "idle" (json_str params ("status" ∷ "type" ∷ []))
    update_session thread_id (with_status status)

  unfoldable pub turn_started : Json → Handler (Unit {0})
  unfolding update_session
  turn_started params = do
    thread_id ← require (json_str params ("threadId" ∷ [])) bad_input
    turn_id ← require (json_str params ("turn" ∷ "id" ∷ [])) bad_input
    update_session thread_id (started turn_id)

  abbrev pub add_delta : String → Option (String × SessionRecord) → Handler (Unit {0})
  add_delta delta none = done
  add_delta delta (some (session_id, session)) = modify (put session_id (with_delta delta session))

  unfoldable pub message_delta : Json → Handler (Unit {0})
  message_delta params = do
    thread_id ← require (json_str params ("threadId" ∷ [])) bad_input
    let delta = or_else "" (then_str (get params "delta"))
    worker ← get_worker
    add_delta delta (session_of_thread worker (Dict.get worker.thread_to_session thread_id))

  -- the summary is sent before the change is persisted
  abbrev pub complete : Option (String × SessionRecord) → Handler (Unit {0})
  complete none = done
  complete (some (session_id, session)) = do
    now ← clock services
    let updated = completed_at session now
    modify (put session_id updated)
    modify (Worker.upsert_session updated)
    send_plain_message services updated.session_room_id (final_summary updated)
    persist_event services config (Model.session_updated updated)
    refresh_overview services updated

  unfoldable pub turn_completed : Json → Handler (Unit {0})
  turn_completed params = do
    thread_id ← require (json_str params ("threadId" ∷ [])) bad_input
    worker ← get_worker
    complete (session_of_thread worker (Dict.get worker.thread_to_session thread_id))

  abbrev pub notified : String → Json → Handler (Unit {0})
  notified method params =
      if method == "thread/status/changed"
      then thread_status_changed params
      else if method == "turn/started"
      then turn_started params
      else if method == "item/agentMessage/delta"
      then message_delta params
      else if method == "turn/completed"
      then turn_completed params
      else done

  abbrev pub requested : Json → String → Json → Handler (Unit {0})
  requested id method params =
      if method == "item/commandExecution/requestApproval"
      then build_pending_approval services id command_execution params
        >>= request_approval services config
      else if method == "item/fileChange/requestApproval"
      then build_pending_approval services id file_change params
        >>= request_approval services config
      else if method == "item/permissions/requestApproval"
      then build_pending_approval services id permissions params >>= (λ approval.
        request_approval services config
          (record approval { requested_permissions = get params "permissions" }))
      else call services (codex (respond_error id unhandled_request)) >> done

  unfoldable pub handle_codex_event : CodexEvent → Handler (Unit {0})
  unfolding thread_status_changed turn_started message_delta turn_completed
  handle_codex_event (notification method params) = notified method params
  handle_codex_event (server_request id method params) = requested id method params
