-- ===== src/Samples.antt =====
-- Concrete data that the tests run the models on: two sessions, an approval, a log in a codec that
-- writes purges of instant 0 and the empty snapshot and nothing else, and a worker state.
pub mod EventLogTests
pub mod LifecycleTests
pub mod WorkerTests
pub mod MergeTests
pub mod OtherTests
pub mod HandlerTests
pub mod CommandTests
pub mod WebsocketTests
use codex_webex_connector.Base.{
  ℕ, zero, suc, String, Bool, true, false, Option, none, some, List, [], ◌∷◌, ◌≡◌, refl, arith,
  ◌==◌, eq_iff, if◌then◌else◌,
}
use codex_webex_connector.Json.{number}
use codex_webex_connector.Base.Dict
use codex_webex_connector.Base.IdSet
use codex_webex_connector.Model.{
  Instant, SessionState, SessionRecord, PendingApproval, BridgeEvent, BridgeEventEnvelope,
  BridgeSnapshot, session_created, session_updated, session_archived, session_purged,
  approval_requested, approval_resolved, command_execution,
}
use codex_webex_connector.EventLog
use codex_webex_connector.EventLog.{ReplayState}
use codex_webex_connector.EventLog.Frames.{Codec, Message}
use codex_webex_connector.Worker.{WorkerState, set_executable_installation, from_replay}

abbrev pub session : String → String → Instant → SessionState → SessionRecord
session id installation at state = record {
  session_id = id;
  title = "title";
  repo_name = "repo";
  repo_path = "/repo";
  owner_email = "owner";
  session_room_id = "room";
  session_room_web_link = none;
  thread_id = "thread";
  overview_message_id = none;
  state = state;
  last_checkpoint = none;
  last_final = none;
  active_turn_id = none;
  active_turn_buffer = "";
  updated_at = at;
  archived = false;
  failure = none;
  authority = some (record { installation_id = installation });
  local_mirror = none;
}

abbrev pub idle_session : SessionRecord
idle_session = session "s1" "here" 5 SessionState.idle

abbrev pub approval : PendingApproval
approval = record {
  approval_id = "a1";
  session_id = "s1";
  thread_id = "thread";
  turn_id = "turn";
  codex_request_id = number "1";
  item_id = "item";
  kind = command_execution;
  reason = none;
  command = none;
  cwd = none;
  requested_permissions = none;
  card_message_id = none;
  requested_at = 6;
}

abbrev pub empty_snapshot : BridgeSnapshot
empty_snapshot = record {
  created_at = 0;
  writer_installation_id = none;
  sessions = [];
  pending_approvals = [];
}

abbrev pub purge : String → BridgeEventEnvelope
purge id = record { ts = 0; event = session_purged id 0 }

abbrev encode_purge : ℕ → BridgeEvent → Option String
encode_purge zero (session_purged id zero) = some id
encode_purge _ _ = none

pub purge-encode_purge :
    (ts : ℕ) (event : BridgeEvent) (p : String)
    → encode_purge ts event ≡ some p
    → some (purge p) ≡ some (record { ts = ts; event = event })
purge-encode_purge zero (session_purged id zero) p h = cc
purge-encode_purge zero (session_purged id (suc n)) p h = cc
purge-encode_purge zero (session_created s) p h = cc
purge-encode_purge zero (session_updated s) p h = cc
purge-encode_purge zero (session_archived id at) p h = cc
purge-encode_purge zero (approval_requested a) p h = cc
purge-encode_purge zero (approval_resolved id s d at) p h = cc
purge-encode_purge (suc n) event p h = cc

abbrev encode_empty :
    Instant → Option String → List SessionRecord → List PendingApproval → Option String
encode_empty zero none [] [] = some "{}"
encode_empty _ _ _ _ = none

abbrev decode_empty : String → Option BridgeSnapshot
decode_empty p = if p == "{}" then some empty_snapshot else none

pub decode_empty-encode_empty :
    (at : Instant) (w : Option String) (ss : List SessionRecord) (pending : List PendingApproval)
    (p : String)
    → encode_empty at w ss pending ≡ some p
    → decode_empty p
      ≡ some (record {
        created_at = at;
        writer_installation_id = w;
        sessions = ss;
        pending_approvals = pending;
      })
decode_empty-encode_empty zero none [] [] p h = ground (arith, eq_iff p "{}")
decode_empty-encode_empty zero none [] (a ∷ rest) p h = cc
decode_empty-encode_empty zero none (s ∷ ss) rest p h = cc
decode_empty-encode_empty zero (some w) ss rest p h = cc
decode_empty-encode_empty (suc n) w ss rest p h = cc

abbrev pub codec : Codec
codec = record {
  encode_event = λ e. encode_purge e.ts e.event;
  decode_event = λ p. some (purge p);
  encode_snapshot =
      λ s. encode_empty s.created_at s.writer_installation_id s.sessions s.pending_approvals;
  decode_snapshot = decode_empty;
  event_round_trip = λ e p k h. purge-encode_purge e.ts e.event p h;
  snapshot_round_trip = λ s p k h.
      decode_empty-encode_empty s.created_at s.writer_installation_id s.sessions s.pending_approvals
        p h;
}

abbrev pub message : String → String → Message
message id text = record {
  id = id;
  room_id = none;
  markdown = none;
  text = some text;
  person_email = none;
  created = none;
}

-- newest first: a purge, a snapshot, and chatter behind it
abbrev pub purge_message : Message
purge_message = message "m3" "WXCD/V1 EVENT s1"

abbrev pub snapshot_message : Message
snapshot_message = message "m2" "WXCD/V1 SNAPSHOT {}"

abbrev pub chatter : Message
chatter = message "m1" "hello"

abbrev pub log : List Message
log = purge_message ∷ snapshot_message ∷ chatter ∷ []

abbrev pub replayed : ReplayState
replayed = record EventLog.initial {
  sessions = ("s1", idle_session) ∷ [];
  pending_approvals = ("a1", approval) ∷ [];
}

-- a worker that runs as the installation `here`, with one idle session and one approval
abbrev pub worker : WorkerState
worker = set_executable_installation "here" (from_replay replayed)
