-- ===== src/Handlers/Saving/Messages.antt =====
-- crates/wxcd-worker/src/main.rs, `handle_session_message`: it leaves the log and the local snapshot
-- in agreement with the worker.
use codex_webex_connector.Base.{
  ℕ, String, true, not, ◌&&◌, ◌||◌, Option, none, some, List, [], ◌∷◌, ◌≡◌, ◌==◌,
}
use codex_webex_connector.Base.Dict
use codex_webex_connector.Base.Result.{Result, ok, err}
use codex_webex_connector.Base.Text.{trim}
use codex_webex_connector.Commands.{parse_session_history_page, is_failed_session_room_command}
use codex_webex_connector.Commands.Mentions.{normalize_session_command_text}
use codex_webex_connector.History.{slice_thread_history_page}
use codex_webex_connector.Model.{SessionRecord, BridgeSnapshot, state_is_failed}
use codex_webex_connector.EventLog.{ReplayState}
use codex_webex_connector.Effects.{
  Services, Answer, Failure, ImportedHistoryTurn, help, status_summary, failed_guard,
  history_message, history_unreadable, thread_read, thread_resume, turn_interrupt, turn_start,
  bad_input,
}
use codex_webex_connector.Effects.Logic.{Condition, Triple}
use codex_webex_connector.Effects.Logic.Rules.{
  via, pure-Triple, branch-Triple, attempt-Triple, observe-Triple, codex-Triple, get_worker-Triple,
  weaken-Triple,
}
use codex_webex_connector.Handlers.{AppConfig}
use codex_webex_connector.Handlers.Threads.{
  read_thread_history, read_again, extract_thread_history_turns,
}
use codex_webex_connector.Handlers.Messages.{
  handle_session_message, message_in, run_command, run_text, history_command, resume_command,
  pause_command, submit_turn, interrupt, show_history, send_messages, resumed, paused, submitted,
  history_page_size,
}
use codex_webex_connector.Handlers.Saving.{Logged}
use codex_webex_connector.Handlers.Saving.Persist.{send-Triple}
use codex_webex_connector.Handlers.Saving.Sessions.{
  IsKept, save_now-Triple, kept-Triple, lookup-Triple,
}

module _ {services : Services} {start : ReplayState} {file : Option BridgeSnapshot} where
  read_again-Triple :
      {P : Condition} (id : String) (r : Result Failure Answer)
      → Triple services start file P (read_again services id r) (λ _. P) P
  read_again-Triple id (ok thread) = pure-Triple thread
  read_again-Triple {P} id (err e) =
      via (λ _. P) (codex-Triple (thread_resume id)) λ _. codex-Triple (thread_read id true)

  pub read_thread_history-Triple :
      {P : Condition} (id : String)
      → Triple services start file P (read_thread_history services id) (λ _. P) P
  unfolding read_thread_history
  read_thread_history-Triple {P} id =
      via (λ _. P) (observe-Triple (codex-Triple (thread_read id true)))
        λ first.
          via (λ _. P) (read_again-Triple id first)
            λ thread. pure-Triple (extract_thread_history_turns thread.body)

  module _ (config : AppConfig) where
    send_messages-Triple :
        {P : Condition} (room_id : String) (ms : List String)
        → Triple services start file P (send_messages services config room_id ms) (λ _. P) P
    unfolding send_messages
    send_messages-Triple room_id [] = pure-Triple tt
    send_messages-Triple {P} room_id (m ∷ ms) =
        via (λ _. P) (send-Triple room_id (history_message m)) λ _. send_messages-Triple room_id ms

    show_history-Triple :
        {P : Condition} (session : SessionRecord) (page : ℕ)
        (r : Result Failure (List ImportedHistoryTurn))
        → Triple services start file P (show_history services config session page r) (λ _. P) P
    show_history-Triple session page (ok turns) =
        let history = slice_thread_history_page turns page history_page_size in
        send_messages-Triple session.session_room_id
          (services.history_messages session.thread_id history.turns page history.total_turns)
    show_history-Triple session page (err e) =
        send-Triple session.session_room_id
          (history_unreadable session.thread_id (services.error_text e))

    history_command-Triple :
        {P : Condition} (session : SessionRecord) (page : ℕ)
        → Triple services start file P (history_command services config session page) (λ _. P) P
    unfolding history_command
    history_command-Triple {P} session page =
        via (λ _. P) (observe-Triple (read_thread_history-Triple session.thread_id))
          λ turns. show_history-Triple session page turns

    interrupt-Triple :
        {P : Condition} (session : SessionRecord) (turn : Option String)
        → Triple services start file P (interrupt services config session turn) (λ _. P) P
    interrupt-Triple session none = pure-Triple tt
    interrupt-Triple {P} session (some id) =
        via (λ _. P) (codex-Triple (turn_interrupt session.thread_id id)) λ _. pure-Triple tt

    module _ {P : Condition} (kept : IsKept P) where
      resume_command-Triple :
          (session : SessionRecord)
          → Triple services start file P (resume_command services config session) (λ _. P) Logged
      unfolding resume_command
      resume_command-Triple session =
          via (λ _. P) (kept-Triple config kept (codex-Triple (thread_resume session.thread_id)))
            λ _. save_now-Triple config kept (resumed session)

      pause_command-Triple :
          (session : SessionRecord)
          → Triple services start file P (pause_command services config session) (λ _. P) Logged
      unfolding pause_command
      pause_command-Triple session =
          via (λ _. P) (kept-Triple config kept (interrupt-Triple session session.active_turn_id))
            λ _. save_now-Triple config kept (paused session)

      submit_turn-Triple :
          (session : SessionRecord) (text : String)
          → Triple services start file P (submit_turn services config session text) (λ _. P) Logged
      unfolding submit_turn
      submit_turn-Triple session text =
          via (λ _. P) (attempt-Triple (codex-Triple (thread_resume session.thread_id)))
            λ _.
              via (λ _. P)
                (kept-Triple config kept
                  (codex-Triple (turn_start session.thread_id session.repo_path text)))
                λ response. save_now-Triple config kept (submitted session text response)

      run_text-Triple :
          (session : SessionRecord) (command_text text : String)
          → Triple services start file P
              (run_text services config session command_text text)
              (λ _. P)
              Logged
      run_text-Triple session command_text text =
          branch-Triple (command_text == "help" || command_text == "/help")
            (kept-Triple config kept (send-Triple session.session_room_id help))
            (branch-Triple (command_text == "/status")
              (kept-Triple config kept
                (send-Triple session.session_room_id (status_summary session)))
              (branch-Triple (command_text == "/resume") (resume_command-Triple session) (
                branch-Triple (command_text == "/pause" || command_text == "/stop")
                  (pause_command-Triple session) (submit_turn-Triple session text))))

      run_command-Triple :
          (session : SessionRecord) (command_text text : String) (page : Option ℕ)
          → Triple services start file P
              (run_command services config session command_text text page)
              (λ _. P)
              Logged
      run_command-Triple session command_text text (some page) =
          kept-Triple config kept (history_command-Triple session page)
      run_command-Triple session command_text text none = run_text-Triple session command_text text

      message_in-Triple :
          (session : SessionRecord) (text : String)
          → Triple services start file P (message_in services config session text) (λ _. P) Logged
      message_in-Triple session text =
          let command_text =
            normalize_session_command_text (trim text) config.bot_email config.bot_display_name in
          branch-Triple
            (state_is_failed session.state && not (is_failed_session_room_command command_text))
            (kept-Triple config kept (send-Triple session.session_room_id (failed_guard session)))
            (run_command-Triple session command_text text (parse_session_history_page command_text))

      pub handle_session_message-Triple :
          (session_id text : String)
          → Triple services start file P
              (handle_session_message services config session_id text)
              (λ _. P)
              Logged
      unfolding handle_session_message
      handle_session_message-Triple session_id text =
          via (λ seen s r f. (s ≡ seen) × P s r f) get_worker-Triple
            λ worker.
              via (λ session s r f. (Dict.get s.sessions session_id ≡ some session) × P s r f)
                (lookup-Triple config kept (λ s. Dict.get s.sessions session_id) worker bad_input)
                λ session.
                  weaken-Triple (message_in-Triple session text) (λ s r f (e, h). h)
                    (λ _ s r f h. h) λ s r f h. h
