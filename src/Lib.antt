-- ===== src/Lib.antt =====
-- Verification of the Webex connector: a worker that bridges Webex rooms and Codex sessions, keeps
-- its state in an append-only log of messages (the Data Space), and is quiesced, drained and
-- replaced by the plugin host.
--
-- How the parts interact. The worker starts by reading the Data Space backwards in pages and
-- replaying its frames; from that state it builds the worker state with its indexes, takes over
-- what its local snapshot knows, and from then on routes rooms and threads to sessions, appends an
-- event for each change and a snapshot now and then. Work is let in by the lifecycle control. A
-- worker that replaces another imports its handoff payload.
--
-- Base: Boolean tests, lists over native numbers, HashMap<String, V> as an association list
--   (Base.Dict), HashSet<String> (Base.IdSet), trimming of texts, results. A map is a list in some
--   order, so a statement about every map covers every order of iteration.
-- Model: crates/wxcd-proto/src/model.rs. An instant is a number of nanoseconds.
-- EventLog: crates/wxcd-eventlog/src/lib.rs. `apply`, `to_snapshot` and `from_snapshot` in
--   EventLog, the frames in EventLog.Frames, `replay_from_messages` in EventLog.Replay,
--   `EventLog::replay` in EventLog.Paging. The JSON codec is a parameter that reads back
--   what it wrote, but for `null` in an option and for floats; the answers of the Webex service are a parameter too. The paging loop runs on fuel of 51
--   rounds, one more than the page limit of 50.
-- Lifecycle: `LifecycleControl` and `LifecycleWorkPermit` of crates/wxcd-worker/src/main.rs. A
--   method holds the mutex, so it is one step; other threads act between steps, which
--   Lifecycle.Tokens has as runs of the methods that move the phase, and Lifecycle.Permits as runs
--   of admitted and finished work and of moves of the phase. The generation and the
--   counter wrap at 2 ^ 64, and bounds on the number of steps say where that matters.
-- Sessions: the tests on one session and `apply_thread_probe`, of the same file.
-- Worker: `WorkerState` of the same file, with Worker.Recent for the window of 1024 event ids,
--   Worker.Merge for `merge_local_mirror`, Worker.Handoff for the import of a handoff, and
--   Worker.Guards for the checks before a clean-up or a purge.
-- Rpc: the frames and errors of crates/wxcd-cbth-rpc/src/lib.rs, over bytes.
-- Websocket: the reading and writing of frames in crates/wxcd-codex/src/lib.rs, with Websocket.Raw for
--   `read_raw_websocket_frame` and Websocket.Fragments for what `read_websocket_frame` makes of
--   fragments; Websocket.Writing has the frames that are written, and Websocket.Mask their mask,
--   which is a parameter. A text that is cut off in the middle of a frame is an error of its own.
-- History: the pages of a thread's history, of crates/wxcd-worker/src/main.rs and
--   crates/wxcd-render/src/lib.rs.
-- Json: `serde_json::Value`, with `find_string` and `json_str` of the same file, and Json.Exact for the
--   values that come back from their text.
-- Commands: the commands of the control room and of the session rooms, with Commands.Mentions for
--   the mention of the bot before them, and Commands.Mentions.Reading for what a text is read as.
-- Effects: what a handler runs in. The state is the worker and the trace of the calls made so far;
--   what the outside answers is a parameter, a function of the call and of the trace before it, so
--   that any call may fail at any time. Effects.Logic has the rules for what a handler leaves
--   behind. Texts for people are named by what they say, and not spelled out.
-- Handlers: the handlers of crates/wxcd-worker/src/main.rs on that state: `persist_event` and
--   `persist_snapshot` in Handlers, then Handlers.Messages for `handle_session_message`,
--   Handlers.CodexEvents, Handlers.Approvals, Handlers.Creation, Handlers.Archive, Handlers.Probes,
--   Handlers.Notifications, and Handlers.Ingress for `handle_webex_ingress`, with the records of
--   crates/wxcd-proto/src/model.rs. `codex_thread_exists` follows a number of pages that is a
--   parameter; the statements hold for every number, and for a list that is cut off the probe answers as
--   for a list that fails. Handlers.Saving says when the log, the local snapshot and the worker
--   agree: on every session but for the time of its last change and the text of the turn that runs,
--   which no event carries, and on every pending approval. A failed append is no failure of a
--   handler, so there are two logs: the one that the worker tried to write, and what the Data Space
--   holds (Effects.Logic.Stored), which are the same unless the append of the last snapshot, or one
--   since, has failed.
-- Samples: concrete data, and the theorems applied to it.
--
-- Not modelled: the main loop, sockets, files and child processes (I/O); `handle_control_message`,
-- which is a parameter of the ingress, and whose messages the statement on the log leaves out; the
-- Webex client, what the Codex client does besides reading and writing frames, and the loading of the
-- configuration; the supervisor; texts for people; the sidecar, scripts and
-- packaging, which are in other languages.
pub mod Base
pub mod Json
pub mod Model
pub mod EventLog
pub mod Lifecycle
pub mod Sessions
pub mod Worker
pub mod Commands
pub mod Effects
pub mod Handlers
pub mod Rpc
pub mod Websocket
pub mod Samples
pub mod History
