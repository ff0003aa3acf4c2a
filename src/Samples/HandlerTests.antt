-- ===== src/Samples/HandlerTests.antt =====
-- The theorems on the handlers, in a world with one idle session, where every call is answered.
use codex_webex_connector.Base.{
  ℕ, String, Bool, true, false, Option, none, some, List, [], ◌∷◌, ◌≡◌, refl,
}
use codex_webex_connector.Base.Dict
use codex_webex_connector.Base.IdSet
use codex_webex_connector.Base.Result.{ok, err}
use codex_webex_connector.Commands.{session, preview}
use codex_webex_connector.EventLog.{ReplayState}
use codex_webex_connector.Json.{null, string, object, field, no_fields}
use codex_webex_connector.Model.{BridgeSnapshot}
use codex_webex_connector.Worker
use codex_webex_connector.Worker.{WorkerState, initial, upsert_session, to_replay_state}
use codex_webex_connector.Worker.Recent.{remember_event}
use codex_webex_connector.Effects.{Answer, Services, World, Failure, bad_input, done}
use codex_webex_connector.Effects.Logic.{At}
use codex_webex_connector.Effects.Logic.Stored.{Leaves}
use codex_webex_connector.Handlers.{AppConfig}
use codex_webex_connector.Handlers.Archive.{
  handle_cleanup_failed_command, handle_purge_archived_command,
}
use codex_webex_connector.Handlers.CodexEvents.{CodexEvent, notification}
use codex_webex_connector.Handlers.Creation.{CreateBridgeSessionInput, create_bridge_session}
use codex_webex_connector.Handlers.Ingress.{
  WebexMessageEvent, WebexIngressEnvelope, ingress_requires_processing_ack, message_created,
  handle_webex_ingress,
}
use codex_webex_connector.Handlers.Once.{
  handle_webex_ingress-remembered, handle_webex_ingress-forgets,
}
use codex_webex_connector.Handlers.Probes.{handle_diagnose_command, reconcile_sessions}
use codex_webex_connector.Handlers.Saving.{IsSound, Saved, Logged}
use codex_webex_connector.Handlers.Saving.Agreement.{to_snapshot-Agrees, upsert_session-IsSound}
use codex_webex_connector.Handlers.Saving.Ingress.{handle_webex_ingress-Saved}
use codex_webex_connector.Handlers.Saving.Operator.{cleanup_and_purge-Saved, create_and_probe-Saved}
use codex_webex_connector.Samples.{idle_session}

abbrev answer : Answer
answer = record { id = "new"; web_link = none; body = null; thread_ids = []; next_cursor = none }

abbrev services : Services
services = record {
  answer = λ trace call. some answer;
  now = λ trace. 9;
  random = λ trace. "r";
  history_messages = λ thread turns page total. [];
  error_text = λ e. "failed";
}

abbrev config : AppConfig
config = record {
  bot_email = "bot";
  bot_display_name = none;
  allowed_user_emails = "owner" ∷ [];
  session_title_prefix = "Codex";
  snapshot_interval = 2;
}

initial-IsSound : IsSound initial
unfolding Dict.get
initial-IsSound = record {
  routed = record { keyed = λ k v e. cc; rooms = λ k v e. cc; threads = λ k v e. cc };
  approvals_keyed = λ k v e. cc;
}

abbrev started : WorkerState
started = upsert_session idle_session initial

started-IsSound : IsSound started
started-IsSound = upsert_session-IsSound idle_session initial initial-IsSound

abbrev start : ReplayState
start = to_replay_state started

abbrev file : Option BridgeSnapshot
file = some (Worker.to_snapshot 0 started)

abbrev world : World
world = record { worker = started; trace = [] }

started-Saved : At services start file Saved world
unfolding to_replay_state
started-Saved = (
  started-IsSound,
  λ j. (λ e. refl, λ e. refl),
  (Worker.to_snapshot 0 started, refl, to_snapshot-Agrees 0 started started-IsSound),
)

abbrev turn_started : CodexEvent
turn_started = notification "turn/started" (
    object (
      field "threadId" (string "thread")
        (field "turn" (object (field "id" (string "t1") no_fields)) no_fields)))

abbrev message : WebexMessageEvent
message = record {
  event_id = "e1";
  room_id = "room";
  message_id = "m1";
  person_email = "owner";
  text = "/pause";
  created = 8;
  sidecar_received_at = none;
  processing_ack = true;
}

handle_webex_ingress-Saved_example : Leaves services start file Saved Logged (
    handle_webex_ingress services config "here" "control"
      (λ m. done)
      none
      (message_created message)
      world)
handle_webex_ingress-Saved_example =
    handle_webex_ingress-Saved services start file config "here" "control" (λ m. done) none
      (message_created message) world refl started-Saved

cleanup_and_purge-Saved_example :
    Leaves services start file Saved Logged
      (handle_cleanup_failed_command services config (λ ts. ts) (λ ids. ids) "here" preview world)
    × Leaves services start file Saved Logged (
        handle_purge_archived_command services config "here"
          (record { session_id = "s1"; confirmed = true })
          world)
cleanup_and_purge-Saved_example =
    cleanup_and_purge-Saved services start file config "here" (λ ts. ts) (λ ids. ids) preview
      (record { session_id = "s1"; confirmed = true }) world started-Saved

abbrev input : CreateBridgeSessionInput
input = record {
  owner_email = "owner";
  repo_name = "repo";
  repo_path = "/repo";
  thread_id = "thread2";
  checkpoint = "Session created.";
  installation_id = "here";
}

create_and_probe-Saved_example :
    Leaves services start file Saved Logged (create_bridge_session services config input world)
    × Leaves services start file Saved Logged
        (handle_diagnose_command services 3 config "here" (λ ts. ts) (session "s1") world)
    × Leaves services start file Saved Logged (reconcile_sessions services 3 config "here" world)
create_and_probe-Saved_example =
    create_and_probe-Saved services start file config "here" 3 (λ ts. ts) input (session "s1") world
      started-Saved

-- the message was delivered before
abbrev seen_world : World
seen_world = record world { worker = (remember_event "e1" started).0 }

is_seen : IdSet.contains seen_world.worker.recent_event_ids "e1" ≡ true
unfolding IdSet.contains remember_event upsert_session IdSet.insert
is_seen = refl

handle_webex_ingress-remembered_example :
    handle_webex_ingress services config "here" "control"
      (λ m. done)
      none
      (message_created message)
      seen_world
    ≡ (seen_world, ok tt)
handle_webex_ingress-remembered_example =
    handle_webex_ingress-remembered services config "here" "control" (λ m. done) none
      (message_created message) "e1" seen_world refl is_seen

-- a message to a room of which the control room's handler knows nothing to do
abbrev control_message : WebexMessageEvent
control_message = record message { room_id = "control" }

abbrev failed_world : World
failed_world =
    (handle_webex_ingress services config "here" "control" (λ m w. (w, err bad_input)) none
      (message_created control_message) world).0

fails :
    handle_webex_ingress services config "here" "control"
      (λ m w. (w, err bad_input))
      none
      (message_created control_message)
      world
    ≡ (failed_world, err bad_input)
unfolding handle_webex_ingress codex_webex_connector.Handlers.Ingress.is_ignored_sender
    codex_webex_connector.Base.Text.Ascii.to_ascii_lowercase
    codex_webex_connector.Handlers.Ingress.remember remember_event IdSet.contains upsert_session
    codex_webex_connector.Effects.get_worker codex_webex_connector.Effects.modify
fails = refl

handle_webex_ingress-forgets_example :
    (IdSet.contains failed_world.worker.recent_event_ids "e1" ≡ false)
    × ((remember_event "e1" failed_world.worker).1 ≡ true)
unfolding ingress_requires_processing_ack
handle_webex_ingress-forgets_example =
    handle_webex_ingress-forgets services config "here" "control" (λ m w. (w, err bad_input)) none
      (message_created control_message) "e1" world failed_world bad_input refl refl fails
