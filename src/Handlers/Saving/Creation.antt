-- ===== src/Handlers/Saving/Creation.antt =====
-- crates/wxcd-worker/src/main.rs, `create_bridge_session`: it leaves the log and the local snapshot in
-- agreement with the worker.
use codex_webex_connector.Base.{String, Option}
use codex_webex_connector.Base.Result.{Result, ok, err}
use codex_webex_connector.Base.Text.{with_prefix}
use codex_webex_connector.Base.Text.Ascii.{eq_ignore_ascii_case}
use codex_webex_connector.Model.{BridgeSnapshot, session_created}
use codex_webex_connector.EventLog.{ReplayState, apply}
use codex_webex_connector.Worker.{upsert_session}
use codex_webex_connector.Effects.{
  Services, Answer, Failure, status_summary, create_room, delete_room, ensure_membership,
  create_message,
}
use codex_webex_connector.Effects.Logic.{Condition, Triple}
use codex_webex_connector.Effects.Logic.Rules.{
  via, pure-Triple, fail-Triple, branch-Triple, attempt-Triple, observe-Triple, webex-Triple,
  clock-Triple, fresh_suffix-Triple, modify-Triple, weaken-Triple,
}
use codex_webex_connector.Handlers.{AppConfig}
use codex_webex_connector.Handlers.Creation.{
  CreateBridgeSessionInput, create_bridge_session, new_session, ready, admit, admitted,
}
use codex_webex_connector.Handlers.Saving.{Logged, LoggedOn, Saved, everything}
use codex_webex_connector.Handlers.Saving.Agreement.{upsert_session-IsSound, upsert_created-Agrees}
use codex_webex_connector.Handlers.Saving.Persist.{persist_event-Triple, refresh-Triple}
use codex_webex_connector.Handlers.Saving.Sessions.{IsKept, saved-Triple, save_session-Triple}

module _ {services : Services} {start : ReplayState} {file : Option BridgeSnapshot}
    (config : AppConfig) where
  admitted-Triple :
      {P : Condition} (room_id : String) (r : Result Failure Answer)
      → Triple services start file P (admitted services config room_id r) (λ _. P) P
  admitted-Triple room_id (ok a) = pure-Triple tt
  admitted-Triple {P} room_id (err e) =
      via (λ _. P) (attempt-Triple (webex-Triple (delete_room room_id))) λ _. fail-Triple e

  admit-Triple :
      {P : Condition} (room_id owner_email : String)
      → Triple services start file P (admit services config room_id owner_email) (λ _. P) P
  admit-Triple {P} room_id owner_email =
      branch-Triple (eq_ignore_ascii_case owner_email config.bot_email) (pure-Triple tt) (
        via (λ _. P) (observe-Triple (webex-Triple (ensure_membership room_id owner_email)))
          (admitted-Triple room_id))

  create-Triple :
      (input : CreateBridgeSessionInput)
      → Triple services start file Logged
          (create_bridge_session services config input)
          (λ _. Saved)
          Logged
  unfolding create_bridge_session
  create-Triple input =
      via (λ _. Logged) fresh_suffix-Triple
        λ session_id.
          let title =
            with_prefix config.session_title_prefix
              (with_prefix " " (with_prefix session_id (with_prefix " " input.repo_name))) in
          via (λ _. Logged) (webex-Triple (create_room title))
            λ room.
              via (λ _. Logged) (admit-Triple room.id input.owner_email)
                λ _.
                  via (λ _. Logged) clock-Triple
                    λ updated_at.
                      via (λ _. Logged) clock-Triple
                        λ mirrored_at.
                          let session =
                            new_session input session_id title room updated_at mirrored_at in
                          via
                            (λ _ s r f.
                              LoggedOn everything everything s (apply r (session_created session))
                                f)
                            (modify-Triple (upsert_session session) λ s r f (h, a). (
                              upsert_session-IsSound session s h,
                              upsert_created-Agrees everything everything s r session a,
                            ))
                            λ _.
                              via (λ _. Logged)
                                (weaken-Triple
                                  (persist_event-Triple config everything everything
                                    (session_created session))
                                  (λ s r f h. h) (λ _ s r f h. (h.0, h.1)) (λ s r f h. h))
                                λ _.
                                  via (λ _. Logged)
                                    (webex-Triple (
                                      create_message session.session_room_id
                                        (status_summary session)))
                                    λ overview.
                                      via (λ _. Logged) clock-Triple
                                        λ now.
                                          via (λ _. Saved)
                                            (save_session-Triple config {p = everything}
                                              {q = everything} (ready session overview.id now))
                                            λ _.
                                              via (λ _. Saved)
                                                (refresh-Triple (ready session overview.id now))
                                                λ _. pure-Triple (ready session overview.id now)

  pub create_bridge_session-Triple :
      {P : Condition} (input : CreateBridgeSessionInput)
      → IsKept P
      → Triple services start file P (create_bridge_session services config input) (λ _. P) Logged
  create_bridge_session-Triple input kept = saved-Triple config kept (create-Triple input)
