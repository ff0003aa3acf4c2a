-- ===== src/Handlers/Messages.antt =====
-- crates/wxcd-worker/src/main.rs, `handle_session_message`: what a text in a session room does.
use codex_webex_connector.Base.{
  ℕ, zero, suc, String, not, ◌&&◌, ◌||◌, Option, none, some, List, [], ◌∷◌, ◌==◌, if◌then◌else◌,
}
use codex_webex_connector.Base.Dict
use codex_webex_connector.Base.Result.{Result, ok, err}
use codex_webex_connector.Base.Text.{trim, with_prefix}
use codex_webex_connector.Json.{json_str}
use codex_webex_connector.Commands.{parse_session_history_page, is_failed_session_room_command}
use codex_webex_connector.Commands.Mentions.{normalize_session_command_text}
use codex_webex_connector.Model.{SessionRecord, SessionState, Instant, state_is_failed}
use codex_webex_connector.History.{slice_thread_history_page}
use codex_webex_connector.Effects.{
  Services, Handler, Answer, Failure, ImportedHistoryTurn, bad_input, help, status_summary,
  failed_guard, history_message, history_unreadable, codex, thread_resume, turn_interrupt,
  turn_start, clock, call, get_worker, attempt, observe, require, done, ◌>>=◌, ◌>>◌,
}
use codex_webex_connector.Handlers.{AppConfig, send_plain_message, refresh_overview, save_session}
use codex_webex_connector.Handlers.Threads.{read_thread_history}

abbrev pub history_page_size : ℕ
history_page_size = 10

-- `abbreviate`
unfoldable pub abbreviate : String → ℕ → String
abbreviate String.[] limit = String.[]
abbreviate (String.◌∷◌ c s) zero = "..."
abbreviate (String.◌∷◌ c s) (suc limit) = String.◌∷◌ c (abbreviate s limit)

abbrev pub resumed : SessionRecord → Instant → SessionRecord
resumed session now = record session { failure = none; state = SessionState.idle; updated_at = now }

abbrev pub paused : SessionRecord → Instant → SessionRecord
paused session now = record session { state = SessionState.paused; updated_at = now }

abbrev pub submitted : SessionRecord → String → Answer → Instant → SessionRecord
submitted session text response now = record session {
  active_turn_id = json_str response.body ("turn" ∷ "id" ∷ []);
  failure = none;
  active_turn_buffer = "";
  last_checkpoint = some (with_prefix "Submitted turn: " (abbreviate text 80));
  state = SessionState.running;
  updated_at = now;
}

module _ (services : Services) (config : AppConfig) where
  -- the session is saved with the present time, and its overview refreshed
  unfoldable pub save_now : (Instant → SessionRecord) → Handler (Unit {0})
  save_now update = do
    now ← clock services
    save_session services config (update now)
    refresh_overview services (update now)

  unfoldable pub send_messages : String → List String → Handler (Unit {0})
  send_messages room_id [] = done
  send_messages room_id (message ∷ messages) =
      send_plain_message services room_id (history_message message)
      >> send_messages room_id messages

  abbrev pub show_history :
      SessionRecord → ℕ → Result Failure (List ImportedHistoryTurn) → Handler (Unit {0})
  show_history session page (ok turns) =
      let history = slice_thread_history_page turns page history_page_size in
      send_messages session.session_room_id
        (services.history_messages session.thread_id history.turns page history.total_turns)
  show_history session page (err e) =
      send_plain_message services session.session_room_id
        (history_unreadable session.thread_id (services.error_text e))

  unfoldable pub history_command : SessionRecord → ℕ → Handler (Unit {0})
  unfolding send_messages
  history_command session page = do
    turns ← observe (read_thread_history services session.thread_id)
    show_history session page turns

  unfoldable pub resume_command : SessionRecord → Handler (Unit {0})
  unfolding save_now
  resume_command session = do
    call services (codex (thread_resume session.thread_id))
    save_now (resumed session)

  abbrev pub interrupt : SessionRecord → Option String → Handler (Unit {0})
  interrupt session none = done
  interrupt session (some turn_id) = do
    call services (codex (turn_interrupt session.thread_id turn_id))
    done

  unfoldable pub pause_command : SessionRecord → Handler (Unit {0})
  unfolding save_now
  pause_command session = do interrupt session session.active_turn_id; save_now (paused session)

  unfoldable pub submit_turn : SessionRecord → String → Handler (Unit {0})
  unfolding save_now
  submit_turn session text = do
    attempt (call services (codex (thread_resume session.thread_id)))
    response ← call services (codex (turn_start session.thread_id session.repo_path text))
    save_now (submitted session text response)

  -- what is not a history command
  abbrev pub run_text : SessionRecord → String → String → Handler (Unit {0})
  run_text session command_text text =
      if command_text == "help" || command_text == "/help"
      then send_plain_message services session.session_room_id help
      else if command_text == "/status"
      then send_plain_message services session.session_room_id (status_summary session)
      else if command_text == "/resume"
      then resume_command session
      else if command_text == "/pause" || command_text == "/stop"
      then pause_command session
      else submit_turn session text

  abbrev pub run_command : SessionRecord → String → String → Option ℕ → Handler (Unit {0})
  run_command session command_text text (some page) = history_command session page
  run_command session command_text text none = run_text session command_text text

  abbrev pub message_in : SessionRecord → String → Handler (Unit {0})
  message_in session text =
      let command_text =
        normalize_session_command_text (trim text) config.bot_email config.bot_display_name in
      if state_is_failed session.state && not (is_failed_session_room_command command_text)
      then send_plain_message services session.session_room_id (failed_guard session)
      else run_command session command_text text (parse_session_history_page command_text)

  unfoldable pub handle_session_message : String → String → Handler (Unit {0})
  unfolding history_command resume_command pause_command submit_turn
  handle_session_message session_id text = do
    worker ← get_worker
    session ← require (Dict.get worker.sessions session_id) bad_input
    message_in session text
