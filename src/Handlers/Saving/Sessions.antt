-- ===== src/Handlers/Saving/Sessions.antt =====
-- crates/wxcd-worker/src/main.rs: a session that is put in and persisted. `P` stands for what a
-- handler keeps: that the log holds the worker, or that the local snapshot does so as well.
use codex_webex_connector.Base.{String, Bool, ◌||◌, Option, some, ◌≡◌, refl, ap, ◌∙◌, ◌==◌}
use codex_webex_connector.Base.Dict
use codex_webex_connector.Base.Result.{Result, ok}
use codex_webex_connector.Worker.Guards.{GuardError}
use codex_webex_connector.Model.{Instant, SessionRecord, BridgeSnapshot, session_updated}
use codex_webex_connector.EventLog.{ReplayState, apply, from_snapshot}
use codex_webex_connector.Worker.{WorkerState, upsert_session}
use codex_webex_connector.Effects.{Services, Handler, Failure, refused, require, checked}
use codex_webex_connector.Effects.Logic.{Condition, Implies, Triple}
use codex_webex_connector.Effects.Logic.Rules.{
  weaken-Triple, require-Triple, checked-Triple, pure-Triple, fail-Triple, clock-Triple,
  modify-Triple, via,
}
use codex_webex_connector.Handlers.{AppConfig, save_session}
use codex_webex_connector.Handlers.Messages.{save_now}
use codex_webex_connector.Handlers.Saving.{
  everything, durable_of, IsSound, Agrees, Logged, LoggedOn, Saved, SavedOn,
}
use codex_webex_connector.Handlers.Saving.Agreement.{upsert_session-IsSound, upsert_session-Agrees}
use codex_webex_connector.Handlers.Saving.Persist.{persist_event-Triple, refresh-Triple}

-- the same sessions, but for what is left out, and the same approvals
abbrev pub SameView : WorkerState → WorkerState → Type 0
SameView s t =
    (j : String)
    → (durable_of (Dict.get t.sessions j) ≡ durable_of (Dict.get s.sessions j))
      × (Dict.get t.pending_approvals j ≡ Dict.get s.pending_approvals j)

SameView-Agrees : (s t : WorkerState) (r : ReplayState) → SameView s t → Agrees s r → Agrees t r
SameView-Agrees s t r v h j = (λ e. (v j).0 ∙ (h j).0 refl, λ e. (v j).1 ∙ (h j).1 refl)

-- a condition between both, which says no more of the worker than they do
pub record IsKept (P : Condition) : Type 0 where
  pub saves : Implies Saved P
  pub logs : Implies P Logged
  pub views :
      (s t : WorkerState) (r : ReplayState) (f : Option BridgeSnapshot)
      → SameView s t
      → IsSound t
      → P s r f
      → P t r f

pub Logged-IsKept : IsKept Logged
Logged-IsKept = record {
  saves = λ s r f (h, a, b). (h, a);
  logs = λ s r f h. h;
  views = λ s t r f v g (h, a). (g, SameView-Agrees s t r v a);
}

pub Saved-IsKept : IsKept Saved
Saved-IsKept = record {
  saves = λ s r f h. h;
  logs = λ s r f (h, a, b). (h, a);
  views = λ s t r f v g (h, a, (snapshot, e, b)). (
    g,
    SameView-Agrees s t r v a,
    (snapshot, e, SameView-Agrees s t (from_snapshot snapshot) v b),
  );
}

module _ {services : Services} {start : ReplayState} {file : Option BridgeSnapshot}
    (config : AppConfig) where
  pub save_session-Triple :
      {p q : String → Bool} (t : SessionRecord)
      → Triple services start file
          (LoggedOn p q)
          (save_session services config t)
          (λ _. SavedOn (λ j. p j || t.session_id == j) q)
          (LoggedOn (λ j. p j || t.session_id == j) q)
  unfolding save_session
  save_session-Triple {p} {q} t =
      let u : String → Bool = λ j. p j || t.session_id == j in
      via (λ _ s r f. LoggedOn u q s (apply r (session_updated t)) f)
        (modify-Triple (upsert_session t)
          λ s r f (h, a). (upsert_session-IsSound t s h, upsert_session-Agrees p q s r t a))
        λ _. persist_event-Triple config u q (session_updated t)

  module _ {P : Condition} (kept : IsKept P) where
    -- what ends in a persisted event, from a log that holds the worker
    pub saved-Triple :
        {A : Type 0} {m : Handler A}
        → Triple services start file Logged m (λ _. Saved) Logged
        → Triple services start file P m (λ _. P) Logged
    saved-Triple t = weaken-Triple t kept.logs (λ _. kept.saves) (λ s r f h. h)

    pub save_now-Triple :
        (update : Instant → SessionRecord)
        → Triple services start file P (save_now services config update) (λ _. P) Logged
    unfolding save_now
    save_now-Triple update = saved-Triple (
        via (λ _. Logged) clock-Triple
          λ now.
            via (λ _. Saved) (save_session-Triple {p = everything} {q = everything} (update now))
              λ _. refresh-Triple (update now))

    -- a failure of what keeps a condition leaves the log in agreement
    pub kept-Triple :
        {A : Type 0} {m : Handler A}
        → Triple services start file P m (λ _. P) P
        → Triple services start file P m (λ _. P) Logged
    kept-Triple t = weaken-Triple t (λ s r f h. h) (λ _ s r f h. h) kept.logs

    -- a failure of what keeps more than the condition
    pub held-Triple :
        {A : Type 0} {R : Condition} {m : Handler A}
        → Triple services start file R m (λ _. R) R
        → Implies R P
        → Triple services start file R m (λ _. R) Logged
    held-Triple t h =
        weaken-Triple t (λ s r f x. x) (λ _ s r f x. x) λ s r f x. kept.logs s r f (h s r f x)

    -- what is looked up in the state is found in it
    pub lookup-Triple :
        {A : Type 0} (look : WorkerState → Option A) (worker : WorkerState) (e : Failure)
        → Triple services start file
            (λ s r f. (s ≡ worker) × P s r f)
            (require (look worker) e)
            (λ a s r f. (look s ≡ some a) × P s r f)
            Logged
    lookup-Triple {A} look worker e =
        let found : A → Condition = λ a s r f. (look s ≡ some a) × P s r f in
        require-Triple (look worker) e
          (λ a known.
            weaken-Triple (pure-Triple {Q = found} {E = Logged} a)
              (λ s r f (q, h). (ap look q ∙ known, h)) (λ _ s r f h. h) (λ s r f h. h))
          (weaken-Triple (fail-Triple {Q = found} {E = Logged} e)
            (λ s r f (q, h). kept.logs s r f h) (λ _ s r f h. h) (λ s r f h. h))

    pub check-Triple :
        {A : Type 0} (test : WorkerState → Result GuardError A) (worker : WorkerState)
        → Triple services start file
            (λ s r f. (s ≡ worker) × P s r f)
            (checked (test worker))
            (λ a s r f. (test s ≡ ok a) × P s r f)
            Logged
    check-Triple {A} test worker =
        let passed : A → Condition = λ a s r f. (test s ≡ ok a) × P s r f in
        checked-Triple (test worker)
          (λ a known.
            weaken-Triple (pure-Triple {Q = passed} {E = Logged} a)
              (λ s r f (q, h). (ap test q ∙ known, h)) (λ _ s r f h. h) (λ s r f h. h))
          (λ e.
            weaken-Triple (fail-Triple {Q = passed} {E = Logged} (refused e))
              (λ s r f (q, h). kept.logs s r f h) (λ _ s r f h. h) (λ s r f h. h))
