-- ===== src/Handlers/Saving/Persist.antt =====
-- crates/wxcd-worker/src/main.rs, `persist_event` and `persist_snapshot`: after either one that
-- succeeds, the local snapshot and the log, as the worker tried to write it, hold the worker's state.
use codex_webex_connector.Base.{ℕ, ◌+◌, String, Bool, Option, none, some, ◌≡◌, refl, subst, leb}
use codex_webex_connector.Model.{Instant, BridgeEvent, BridgeSnapshot, SessionRecord}
use codex_webex_connector.EventLog.{ReplayState, apply, from_snapshot}
use codex_webex_connector.Worker
use codex_webex_connector.Worker.{WorkerState}
use codex_webex_connector.Effects.{
  Services, Note, save_snapshot, create_message, update_message, status_summary, call, done, ◌>>◌,
}
use codex_webex_connector.Effects.Logic.{Condition, Triple}
use codex_webex_connector.Effects.Logic.Rules.{
  pure-Triple, branch-Triple, attempt-Triple, clock-Triple, modify-Triple, get_worker-Triple,
  log_event-Triple, log_snapshot-Triple, save_snapshot-Triple, weaken-Triple, webex-Triple, via,
}
use codex_webex_connector.Handlers.{
  AppConfig, persist_event, persist_snapshot, persist_local, refresh, send_plain_message,
  refresh_overview,
}
use codex_webex_connector.Handlers.Saving.{
  IsSound, AgreesOn, Agrees, everything, Sound, Logged, LoggedOn, Saved, SavedOn,
}
use codex_webex_connector.Handlers.Saving.Agreement.{IsSound-count, to_snapshot-Agrees}

-- a snapshot was taken of the worker as it is, but for the count; the worker agrees with the log
-- on what is selected
abbrev Taken : (String → Bool) → (String → Bool) → BridgeSnapshot → Condition
Taken p q snapshot s r f = IsSound s × AgreesOn p q s r × Agrees s (from_snapshot snapshot)

to_snapshot-Agrees_at :
    (now : Instant) (worker s : WorkerState)
    → s ≡ worker
    → IsSound s
    → Agrees s (from_snapshot (Worker.to_snapshot now worker))
to_snapshot-Agrees_at now worker s e h =
    subst (λ v. Agrees s (from_snapshot (Worker.to_snapshot now v))) e (to_snapshot-Agrees now s h)

-- what is said of the worker alone
abbrev Only : (WorkerState → Type 0) → Condition
Only G s r f = G s

module _ {services : Services} {start : ReplayState} {file : Option BridgeSnapshot} where
  -- what only calls Webex keeps any condition
  pub send-Triple :
      {P : Condition} (room_id : String) (text : Note)
      → Triple services start file P (send_plain_message services room_id text) (λ _. P) P
  unfolding send_plain_message
  send-Triple {P} room_id text =
      via (λ _. P) (webex-Triple (create_message room_id text)) λ _. pure-Triple tt

  refresh_at-Triple :
      {P E : Condition} (session : SessionRecord) (id : Option String)
      → Triple services start file P (refresh services session id) (λ _. P) E
  refresh_at-Triple session none = pure-Triple tt
  refresh_at-Triple session (some id) =
      attempt-Triple (webex-Triple (update_message id (status_summary session)))

  pub refresh-Triple :
      {P E : Condition} (session : SessionRecord)
      → Triple services start file P (refresh_overview services session) (λ _. P) E
  unfolding refresh_overview
  refresh-Triple session = refresh_at-Triple session session.overview_message_id

  store-Triple :
      (p q : String → Bool) (snapshot : BridgeSnapshot)
      → Triple services start file
          (Taken p q snapshot)
          (call services (save_snapshot snapshot) >> done)
          (λ _. SavedOn p q)
          (LoggedOn p q)
  store-Triple p q snapshot =
      via (λ _. SavedOn p q)
        (weaken-Triple (save_snapshot-Triple {P = SavedOn p q} {E = LoggedOn p q} snapshot)
          (λ s r f (h, a, b). ((h, a, (snapshot, refl, b)), (h, a))) (λ _ s r f h. h)
          (λ s r f h. h))
        λ _. pure-Triple tt

  -- After `persist_snapshot` succeeds, the local snapshot and the log, as the worker tried to write it,
  -- hold the state of the worker.
  pub persist_snapshot-Triple :
      Triple services start file Sound (persist_snapshot services) (λ _. Saved) Logged
  unfolding persist_snapshot
  persist_snapshot-Triple =
      via (λ _. Sound) clock-Triple
        λ now.
          via (λ seen s r f. (s ≡ seen) × IsSound s) get_worker-Triple
            λ worker.
              let snapshot = Worker.to_snapshot now worker in
              via (λ _. Taken everything everything snapshot)
                (attempt-Triple (
                  weaken-Triple
                    (log_snapshot-Triple {P = Taken everything everything snapshot} snapshot)
                    (λ s r f (e, h). let a = to_snapshot-Agrees_at now worker s e h in (h, a, a))
                    (λ _ s r f h. h) (λ s r f h. h)))
                λ _.
                  via (λ _. Taken everything everything snapshot)
                    (modify-Triple (λ s. record s { events_since_snapshot = 0 })
                      λ s r f (h, a, b). (IsSound-count 0 s h, a, b))
                    λ _. store-Triple everything everything snapshot

  persist_local-Triple :
      (p q : String → Bool) (worker : WorkerState)
      → Triple services start file
          (λ s r f. (s ≡ worker) × LoggedOn p q s r f)
          (persist_local services worker)
          (λ _. SavedOn p q)
          (LoggedOn p q)
  unfolding persist_local
  persist_local-Triple p q worker =
      via (λ _ s r f. (s ≡ worker) × LoggedOn p q s r f) clock-Triple
        λ now.
          weaken-Triple (store-Triple p q (Worker.to_snapshot now worker))
            (λ s r f (e, (h, a)). (h, a, to_snapshot-Agrees_at now worker s e h)) (λ _ s r f h. h)
            (λ s r f h. h)

  -- If the worker agrees with the log and the event on what is selected, it agrees with the log on
  -- that afterwards, and after a success the local snapshot holds the whole worker.
  pub persist_event-Triple :
      (config : AppConfig) (p q : String → Bool) (event : BridgeEvent)
      → Triple services start file
          (λ s r f. LoggedOn p q s (apply r event) f)
          (persist_event services config event)
          (λ _. SavedOn p q)
          (LoggedOn p q)
  unfolding persist_event
  persist_event-Triple config p q event =
      via (λ _. LoggedOn p q) (attempt-Triple (log_event-Triple event))
        λ _.
          via (λ _. LoggedOn p q)
            (modify-Triple (λ s. record s { events_since_snapshot = s.events_since_snapshot + 1 })
              λ s r f (h, a). (IsSound-count (s.events_since_snapshot + 1) s h, a))
            λ _.
              via (λ seen s r f. (s ≡ seen) × LoggedOn p q s r f) get_worker-Triple
                λ worker.
                  branch-Triple (leb config.snapshot_interval worker.events_since_snapshot)
                    (weaken-Triple persist_snapshot-Triple (λ s r f (e, (h, a)). h)
                      (λ _ s r f (h, a, b).
                        (h, (λ j. ((λ e. (a j).0 refl), (λ e. (a j).1 refl))), b))
                      (λ s r f (h, a). (h, (λ j. ((λ e. (a j).0 refl), (λ e. (a j).1 refl))))))
                    (persist_local-Triple p q worker)

  -- what is said of the worker alone, and not of the count, stays
  module _ (G : WorkerState → Type 0)
      (stable : (k : ℕ) (s : WorkerState) → G s → G (record s { events_since_snapshot = k })) where
    save_framed-Triple :
        (snapshot : BridgeSnapshot)
        → Triple services start file
            (Only G)
            (call services (save_snapshot snapshot) >> done)
            (λ _. Only G)
            (Only G)
    save_framed-Triple snapshot =
        via (λ _. Only G)
          (weaken-Triple (save_snapshot-Triple {P = Only G} {E = Only G} snapshot)
            (λ s r f g. (g, g)) (λ _ s r f g. g) (λ s r f g. g))
          λ _. pure-Triple tt

    snapshot_framed-Triple :
        Triple services start file (Only G) (persist_snapshot services) (λ _. Only G) (Only G)
    unfolding persist_snapshot
    snapshot_framed-Triple =
        via (λ _. Only G) clock-Triple
          λ now.
            via (λ seen s r f. (s ≡ seen) × G s) get_worker-Triple
              λ worker.
                let snapshot = Worker.to_snapshot now worker in
                via (λ _. Only G)
                  (attempt-Triple (
                    weaken-Triple (log_snapshot-Triple {P = Only G} snapshot) (λ s r f (e, g). g)
                      (λ _ s r f g. g) (λ s r f g. g)))
                  λ _.
                    via (λ _. Only G)
                      (modify-Triple (λ s. record s { events_since_snapshot = 0 })
                        λ s r f g. stable 0 s g)
                      λ _. save_framed-Triple snapshot

    pub persist_framed-Triple :
        (config : AppConfig) (event : BridgeEvent)
        → Triple services start file
            (Only G)
            (persist_event services config event)
            (λ _. Only G)
            (Only G)
    unfolding persist_event persist_local
    persist_framed-Triple config event =
        via (λ _. Only G) (attempt-Triple (log_event-Triple event))
          λ _.
            via (λ _. Only G)
              (modify-Triple (λ s. record s { events_since_snapshot = s.events_since_snapshot + 1 })
                λ s r f g. stable (s.events_since_snapshot + 1) s g)
              λ _.
                via (λ seen s r f. (s ≡ seen) × G s) get_worker-Triple
                  λ worker.
                    weaken-Triple
                      (branch-Triple (leb config.snapshot_interval worker.events_since_snapshot)
                        snapshot_framed-Triple
                        (via (λ _. Only G) clock-Triple
                          λ now. save_framed-Triple (Worker.to_snapshot now worker)))
                      (λ s r f (e, g). g) (λ _ s r f g. g) (λ s r f g. g)
