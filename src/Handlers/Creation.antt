-- ===== src/Handlers/Creation.antt =====
-- crates/wxcd-worker/src/main.rs, `create_bridge_session`: a room and a session for a Codex thread.
use codex_webex_connector.Base.{String, false, none, some, if◌then◌else◌}
use codex_webex_connector.Base.Result.{Result, ok, err}
use codex_webex_connector.Base.Text.{with_prefix}
use codex_webex_connector.Base.Text.Ascii.{eq_ignore_ascii_case}
use codex_webex_connector.Model.{Instant, SessionRecord, SessionState, session_created}
use codex_webex_connector.Worker.{upsert_session}
use codex_webex_connector.Effects.{
  Services, Handler, Answer, Failure, status_summary, webex, create_room, delete_room,
  ensure_membership, create_message, clock, call, fresh_suffix, modify, attempt, observe, pure,
  fail, done, ◌>>=◌, ◌>>◌,
}
use codex_webex_connector.Handlers.{AppConfig, persist_event, save_session, refresh_overview}

pub record CreateBridgeSessionInput : Type 0 where
  pub owner_email : String
  pub repo_name : String
  pub repo_path : String
  pub thread_id : String
  pub checkpoint : String
  pub installation_id : String

abbrev pub new_session :
    CreateBridgeSessionInput → String → String → Answer → Instant → Instant → SessionRecord
new_session input session_id title room updated_at mirrored_at = record {
  session_id = session_id;
  title = title;
  repo_name = input.repo_name;
  repo_path = input.repo_path;
  owner_email = input.owner_email;
  session_room_id = room.id;
  session_room_web_link = room.web_link;
  thread_id = input.thread_id;
  overview_message_id = none;
  state = SessionState.creating;
  last_checkpoint = some input.checkpoint;
  last_final = none;
  active_turn_id = none;
  active_turn_buffer = "";
  updated_at = updated_at;
  archived = false;
  failure = none;
  authority = some (record { installation_id = input.installation_id });
  local_mirror =
      some (record { installation_id = input.installation_id; mirrored_at = mirrored_at });
}

abbrev pub ready : SessionRecord → String → Instant → SessionRecord
ready session overview_id now = record session {
  overview_message_id = some overview_id;
  state = SessionState.idle;
  updated_at = now;
}

module _ (services : Services) (config : AppConfig) where
  -- the room is deleted if the owner cannot be added to it
  abbrev pub admitted : String → Result Failure Answer → Handler (Unit {0})
  admitted room_id (ok membership) = done
  admitted room_id (err e) = attempt (call services (webex (delete_room room_id))) >> fail e

  abbrev pub admit : String → String → Handler (Unit {0})
  admit room_id owner_email =
      if eq_ignore_ascii_case owner_email config.bot_email
      then done
      else observe (call services (webex (ensure_membership room_id owner_email)))
        >>= admitted room_id

  -- `generate_session_id` is one random text
  unfoldable pub create_bridge_session : CreateBridgeSessionInput → Handler SessionRecord
  create_bridge_session input = do
    session_id ← fresh_suffix services
    let title =
        with_prefix config.session_title_prefix
          (with_prefix " " (with_prefix session_id (with_prefix " " input.repo_name)))
    room ← call services (webex (create_room title))
    admit room.id input.owner_email
    updated_at ← clock services
    mirrored_at ← clock services
    let session = new_session input session_id title room updated_at mirrored_at
    modify (upsert_session session)
    persist_event services config (session_created session)
    overview ←
        call services (webex (create_message session.session_room_id (status_summary session)))
    now ← clock services
    save_session services config (ready session overview.id now)
    refresh_overview services (ready session overview.id now)
    pure (ready session overview.id now)
