-- ===== src/Handlers/Saving/Changes.antt =====
-- crates/wxcd-worker/src/main.rs, `handle_codex_event`: the session of a thread that is changed in place,
-- put in again, and logged.
use codex_webex_connector.Base.{
  String, Option, none, some, ◌≡◌, refl, ap, ◌∙◌, arith, Option-cases, inl, inr,
}
use codex_webex_connector.Base.Dict
use codex_webex_connector.Model.{Instant, SessionRecord, BridgeSnapshot, session_updated}
use codex_webex_connector.EventLog.{ReplayState, apply}
use codex_webex_connector.Worker.{WorkerState, upsert_session}
use codex_webex_connector.Effects.{Services, Handler, modify, get_worker, ◌>>=◌}
use codex_webex_connector.Effects.Logic.{Condition, Triple}
use codex_webex_connector.Effects.Logic.Rules.{
  via, pure-Triple, clock-Triple, modify-Triple, get_worker-Triple, weaken-Triple,
}
use codex_webex_connector.Handlers.{AppConfig, save_session, persist_event}
use codex_webex_connector.Handlers.CodexEvents.{put, session_of_thread, update_with, update_session}
use codex_webex_connector.Handlers.Saving.{IsSound, Agrees, everything, Saved, Sound}
use codex_webex_connector.Handlers.Saving.InPlace.{SamePlace, put_again-IsSound, put_again-Agrees}
use codex_webex_connector.Handlers.Saving.Persist.{persist_event-Triple, refresh-Triple}
use codex_webex_connector.Handlers.Saving.Sessions.{IsKept}

-- a change of a session that leaves it in its place
abbrev pub StaysInPlace : (SessionRecord → Instant → SessionRecord) → Type 0
StaysInPlace change = (t : SessionRecord) (now : Instant) → SamePlace (change t now) t

-- the session is changed in place, in a worker that the log holds otherwise
abbrev pub Changed : String → SessionRecord → SessionRecord → Condition
Changed id t old s r f =
    (before : WorkerState) × (s ≡ put id t before)
    × (Dict.get before.sessions id ≡ some old)
    × IsSound before
    × Agrees before r

-- put in again, it has only to be logged
abbrev pub PutAgain : SessionRecord → Condition
PutAgain t s r f = IsSound s × Agrees s (apply r (session_updated t))

pub session_of_thread-known :
    (worker : WorkerState) (o : Option String) (id : String) (t : SessionRecord)
    → session_of_thread worker o ≡ some (id, t)
    → Dict.get worker.sessions id ≡ some t
session_of_thread-known worker none id t e = cc
session_of_thread-known worker (some sid) id t e =
    elim (Option-cases (Dict.get worker.sessions sid)) [
      | inl q ↦ ground arith
      | inr (u, q) ↦ ground arith
    ]

pub put_again :
    (id : String) (t old : SessionRecord) (s : WorkerState) (r : ReplayState)
    (f : Option BridgeSnapshot)
    → SamePlace t old
    → Changed id t old s r f
    → PutAgain t (upsert_session t s) r f
put_again id t old s r f place (before, e, known, h, a) =
    let named = h.routed.keyed id old known in
    rw e (
      put_again-IsSound before id t old known named place h,
      put_again-Agrees before id t old known named place r a,
    )

module _ {services : Services} {start : ReplayState} {file : Option BridgeSnapshot}
    (config : AppConfig) where
  pub put-Triple :
      {P E : Condition} (kept : IsKept P) (id : String) (t old : SessionRecord)
      → Triple services start file
          (λ s r f. (Dict.get s.sessions id ≡ some old) × P s r f)
          (modify (put id t))
          (λ _. Changed id t old)
          E
  put-Triple kept id t old =
      modify-Triple (put id t)
        λ s r f (known, h). let logged = kept.logs s r f h in (s, refl, known, logged.0, logged.1)

  pub log_put-Triple :
      (t : SessionRecord)
      → Triple services start file
          (PutAgain t)
          (persist_event services config (session_updated t))
          (λ _. Saved)
          Sound
  log_put-Triple t =
      weaken-Triple (persist_event-Triple config everything everything (session_updated t))
        (λ s r f h. h) (λ _ s r f h. h) (λ s r f h. h.0)

  module _ {P : Condition} (kept : IsKept P) where
    update_with-Triple :
        (change : SessionRecord → Instant → SessionRecord)
        → StaysInPlace change
        → (worker : WorkerState) (o : Option (String × SessionRecord))
        → ((id : String) (t : SessionRecord)
            → o ≡ some (id, t)
            → Dict.get worker.sessions id ≡ some t)
        → Triple services start file
            (λ s r f. (s ≡ worker) × P s r f)
            (update_with services config change o)
            (λ _. P)
            Sound
    unfolding save_session
    update_with-Triple change stays worker none known =
        weaken-Triple (pure-Triple {Q = λ _. P} {E = Sound} tt) (λ s r f h. h.1) (λ _ s r f h. h)
          (λ s r f h. h)
    update_with-Triple change stays worker (some (id, old)) known =
        via (λ _ s r f. (Dict.get s.sessions id ≡ some old) × P s r f)
          (weaken-Triple (clock-Triple {P = λ s r f. (s ≡ worker) × P s r f} {E = Sound})
            (λ s r f h. h)
            (λ _ s r f (e, h). (ap (λ v. Dict.get v.sessions id) e ∙ known id old refl, h))
            (λ s r f h. h))
          λ now.
            let t = change old now in
            via (λ _. Changed id t old) (put-Triple kept id t old)
              λ _.
                via (λ _. Saved)
                  (via (λ _. PutAgain t)
                    (modify-Triple (upsert_session t)
                      λ s r f h. put_again id t old s r f (stays old now) h)
                    λ _. log_put-Triple t)
                  λ _.
                    weaken-Triple (refresh-Triple {P = Saved} {E = Sound} t) (λ s r f h. h)
                      (λ _. kept.saves) (λ s r f h. h)

    -- the session of a thread is looked up, and what is done with it keeps the condition
    pub of_thread-Triple :
        (thread_id : String) (m : Option (String × SessionRecord) → Handler (Unit {0}))
        → ((worker : WorkerState) (o : Option (String × SessionRecord))
            → ((id : String) (t : SessionRecord)
                → o ≡ some (id, t)
                → Dict.get worker.sessions id ≡ some t)
            → Triple services start file (λ s r f. (s ≡ worker) × P s r f) (m o) (λ _. P) Sound)
        → Triple services start file P
            (get_worker >>= (λ worker.
              m (session_of_thread worker (Dict.get worker.thread_to_session thread_id))))
            (λ _. P)
            Sound
    of_thread-Triple thread_id m h =
        via (λ seen s r f. (s ≡ seen) × P s r f) get_worker-Triple
          λ worker.
            h worker (session_of_thread worker (Dict.get worker.thread_to_session thread_id))
              (session_of_thread-known worker (Dict.get worker.thread_to_session thread_id))

    -- a failure leaves the worker sound
    pub sound-Triple :
        {A : Type 0} {m : Handler A}
        → Triple services start file P m (λ _. P) P
        → Triple services start file P m (λ _. P) Sound
    sound-Triple t =
        weaken-Triple t (λ s r f h. h) (λ _ s r f h. h) λ s r f h. (kept.logs s r f h).0

    pub update_session-Triple :
        (thread_id : String) (change : SessionRecord → Instant → SessionRecord)
        → StaysInPlace change
        → Triple services start file P
            (update_session services config thread_id change)
            (λ _. P)
            Sound
    unfolding update_session
    update_session-Triple thread_id change stays =
        of_thread-Triple thread_id (update_with services config change)
          (update_with-Triple change stays)
