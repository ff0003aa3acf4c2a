-- ===== src/Handlers.antt =====
-- crates/wxcd-worker/src/main.rs: the handlers of the worker, by what they handle. What they share
-- is here: the configuration that they read, and how a change is persisted.
pub mod Threads
pub mod Messages
pub mod CodexEvents
pub mod Approvals
pub mod Creation
pub mod Probes
pub mod Archive
pub mod Notifications
pub mod Ingress
pub mod Once
pub mod Saving
use codex_webex_connector.Base.{
  ℕ, zero, suc, ◌+◌, String, Option, none, some, List, leb, if◌then◌else◌,
}
use codex_webex_connector.Model.{SessionRecord, BridgeEvent, session_updated}
use codex_webex_connector.Worker
use codex_webex_connector.Worker.{WorkerState, upsert_session}
use codex_webex_connector.Effects.{
  Services, Handler, Note, status_summary, create_message, update_message, webex, log_event,
  log_snapshot, save_snapshot, clock, call, get_worker, modify, attempt, done, ◌>>=◌, ◌>>◌,
}

-- `WebexConfig` and `BridgeConfig`, what the handlers read of them
pub record AppConfig : Type 0 where
  pub bot_email : String
  pub bot_display_name : Option String
  pub allowed_user_emails : List String
  pub session_title_prefix : String
  pub snapshot_interval : ℕ

module _ (services : Services) where
  unfoldable pub send_plain_message : String → Note → Handler (Unit {0})
  send_plain_message room_id text = do call services (webex (create_message room_id text)); done

  abbrev pub refresh : SessionRecord → Option String → Handler (Unit {0})
  refresh session none = done
  refresh session (some message_id) =
      attempt (call services (webex (update_message message_id (status_summary session))))

  -- a failure is only logged
  unfoldable pub refresh_overview : SessionRecord → Handler (Unit {0})
  refresh_overview session = refresh session session.overview_message_id

  unfoldable pub persist_snapshot : Handler (Unit {0})
  persist_snapshot = do
    now ← clock services
    worker ← get_worker
    let snapshot = Worker.to_snapshot now worker
    attempt (call services (log_snapshot snapshot))
    modify (λ s. record s { events_since_snapshot = 0 })
    call services (save_snapshot snapshot)
    done

  persist_local : WorkerState → Handler (Unit {0})
  persist_local worker = do
    now ← clock services
    call services (save_snapshot (Worker.to_snapshot now worker))
    done

  module _ (config : AppConfig) where
    unfoldable pub persist_event : BridgeEvent → Handler (Unit {0})
    unfolding persist_snapshot persist_local
    persist_event event = do
      attempt (call services (log_event event))
      modify (λ s. record s { events_since_snapshot = s.events_since_snapshot + 1 })
      worker ← get_worker
      if leb config.snapshot_interval worker.events_since_snapshot
          then persist_snapshot
          else persist_local worker

    -- `state.upsert_session(…)` and `persist_event(…, BridgeEvent::SessionUpdated { … })`
    unfoldable pub save_session : SessionRecord → Handler (Unit {0})
    save_session session = do
      modify (upsert_session session)
      persist_event (session_updated session)
