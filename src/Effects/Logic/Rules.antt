-- ===== src/Effects/Logic/Rules.antt =====
-- The rules for what a handler leaves behind, one for each way to build a handler and each kind of
-- call.
use codex_webex_connector.Base.{
  Bool, true, false, Option, none, some, ◌∷◌, ◌≡◌, refl, if◌then◌else◌,
}
use codex_webex_connector.Base.Result.{Result, ok, err}
use codex_webex_connector.Model.{BridgeEvent, BridgeSnapshot}
use codex_webex_connector.EventLog.{ReplayState, apply, from_snapshot}
use codex_webex_connector.Worker.{WorkerState}
use codex_webex_connector.Worker.Guards.{GuardError}
use codex_webex_connector.Effects.{
  DeliveryRequest, CodexCall, Failure, Handler, Services, WebexCall, codex, attempt, observe,
  delivery_enqueue, log_event, log_snapshot, save_snapshot, webex, call, clock, fresh_suffix, pure,
  fail, require, checked, refused, modify, get_worker, ◌>>=◌,
}
use codex_webex_connector.Effects.Logic.{
  Condition, Implies, Outcome, Triple, answered-Post, both-Post, continue-Post, end-At,
  ignored-Post, last_saved, sought, observe-Post, outcome-Post, saved-Post, weaken-Post,
}

module _ {services : Services} {start : ReplayState} {file : Option BridgeSnapshot} where
  module _ {A : Type 0} {Q : A → Condition} {E : Condition} where
    pub pure-Triple : (a : A) → Triple services start file (Q a) (pure a) Q E
    pure-Triple a = record { runs = λ w h. h }

    pub fail-Triple : (e : Failure) → Triple services start file E (fail e) Q E
    fail-Triple e = record { runs = λ w h. h }

    pub require-Triple :
        {P : Condition} (o : Option A) (e : Failure)
        → ((a : A) → o ≡ some a → Triple services start file P (pure a) Q E)
        → Triple services start file P (fail e) Q E
        → Triple services start file P (require o e) Q E
    require-Triple none e h k = k
    require-Triple (some a) e h k = h a refl

    pub checked-Triple :
        {P : Condition} (r : Result GuardError A)
        → ((a : A) → r ≡ ok a → Triple services start file P (pure a) Q E)
        → ((e : GuardError) → Triple services start file P (fail (refused e)) Q E)
        → Triple services start file P (checked r) Q E
    checked-Triple (ok a) h k = h a refl
    checked-Triple (err e) h k = k e

    pub branch-Triple :
        {P : Condition} (b : Bool) {m n : Handler A}
        → Triple services start file P m Q E
        → Triple services start file P n Q E
        → Triple services start file P (if b then m else n) Q E
    branch-Triple true h k = h
    branch-Triple false h k = k

    pub weaken-Triple :
        {P P2 : Condition} {Q2 : A → Condition} {E2 : Condition} {m : Handler A}
        → Triple services start file P m Q E
        → Implies P2 P
        → ((a : A) → Implies (Q a) (Q2 a))
        → Implies E E2
        → Triple services start file P2 m Q2 E2
    weaken-Triple {P} {P2} {Q2} {E2} {m} t g h k = record {
      runs = λ w p.
          weaken-Post services start file Q Q2 E E2 (m w) h k
            (t.runs w (end-At services start file P2 P w g p));
    }

  -- two steps, by the condition between them
  pub via :
      {A B : Type 0} {P E : Condition} {R : B → Condition} {m : Handler A} {k : A → Handler B}
      (Q : A → Condition)
      → Triple services start file P m Q E
      → ((a : A) → Triple services start file (Q a) (k a) R E)
      → Triple services start file P (m >>= k) R E
  via {A} {B} {P} {E} {R} {m} {k} Q h f = record {
    runs = λ w p. continue-Post services start file Q R E (m w) k (h.runs w p) f;
  }

  module _ {A : Type 0} {P Q E : Condition} {m : Handler A} where
    pub attempt-Triple :
        Triple services start file P m (λ _. Q) Q
        → Triple services start file P (attempt m) (λ _. Q) E
    attempt-Triple h = record {
      runs = λ w p. ignored-Post services start file Q E (m w) (h.runs w p);
    }

    pub observe-Triple :
        Triple services start file P m (λ _. Q) Q
        → Triple services start file P (observe m) (λ _. Q) E
    observe-Triple h = record {
      runs = λ w p. observe-Post services start file Q E (m w) (h.runs w p);
    }

  module _ {P : Condition} where
    -- the calls that neither log nor save
    pub webex-Triple :
        (c : WebexCall) → Triple services start file P (call services (webex c)) (λ _. P) P
    unfolding call
    webex-Triple c = record {
      runs = λ w h.
          answered-Post services start file P (services.answer w.trace (webex c)) (webex c)
            (record w { trace = webex c ∷ w.trace }) h;
    }

    pub codex-Triple :
        (c : CodexCall) → Triple services start file P (call services (codex c)) (λ _. P) P
    unfolding call
    codex-Triple c = record {
      runs = λ w h.
          answered-Post services start file P (services.answer w.trace (codex c)) (codex c)
            (record w { trace = codex c ∷ w.trace }) h;
    }

    pub delivery_enqueue-Triple :
        (q : DeliveryRequest)
        → Triple services start file P (call services (delivery_enqueue q)) (λ _. P) P
    unfolding call
    delivery_enqueue-Triple q = record {
      runs = λ w h.
          answered-Post services start file P (services.answer w.trace (delivery_enqueue q))
            (delivery_enqueue q) (record w { trace = delivery_enqueue q ∷ w.trace }) h;
    }

    pub log_event-Triple :
        (e : BridgeEvent)
        → Triple services start file
            (λ s r f. P s (apply r e) f)
            (call services (log_event e))
            (λ _. P)
            P
    unfolding call
    log_event-Triple e = record {
      runs = λ w h.
          answered-Post services start file P (services.answer w.trace (log_event e)) (log_event e)
            (record w { trace = log_event e ∷ w.trace }) h;
    }

    pub log_snapshot-Triple :
        (snapshot : BridgeSnapshot)
        → Triple services start file
            (λ s r f. P s (from_snapshot snapshot) f)
            (call services (log_snapshot snapshot))
            (λ _. P)
            P
    unfolding call
    log_snapshot-Triple snapshot = record {
      runs = λ w h.
          answered-Post services start file P (services.answer w.trace (log_snapshot snapshot))
            (log_snapshot snapshot) (record w { trace = log_snapshot snapshot ∷ w.trace }) h;
    }

    pub save_snapshot-Triple :
        {E : Condition} (snapshot : BridgeSnapshot)
        → Triple services start file
            (λ s r f. P s r (some snapshot) × E s r f)
            (call services (save_snapshot snapshot))
            (λ _. P)
            E
    unfolding call
    save_snapshot-Triple {E} snapshot = record {
      runs = λ w (p, e).
          saved-Post services start file P E (services.answer w.trace (save_snapshot snapshot))
            snapshot w p e refl;
    }

    module _ {E : Condition} where
      pub clock-Triple : Triple services start file P (clock services) (λ _. P) E
      unfolding clock
      clock-Triple = record { runs = λ w h. h }

      pub fresh_suffix-Triple : Triple services start file P (fresh_suffix services) (λ _. P) E
      unfolding fresh_suffix
      fresh_suffix-Triple = record { runs = λ w h. h }

      pub modify-Triple :
          {Q : Condition} (f : WorkerState → WorkerState)
          → ((s : WorkerState) (r : ReplayState) (saved : Option BridgeSnapshot)
              → P s r saved
              → Q (f s) r saved)
          → Triple services start file P (modify f) (λ _. Q) E
      unfolding modify
      modify-Triple f h = record {
        runs = λ w p. h w.worker (sought start w.trace) (last_saved services file w.trace) p;
      }

      -- what is read of the state stays true of it
      pub get_worker-Triple :
          Triple services start file P get_worker (λ seen s r saved. (s ≡ seen) × P s r saved) E
      unfolding get_worker
      get_worker-Triple = record { runs = λ w h. (refl, h) }

-- what two triples say of the same handler holds together
module _ {services : Services} {start : ReplayState} {file : Option BridgeSnapshot}
    {A : Type 0} where
  pub both-Triple :
      {P N : Condition} {Q R : A → Condition} {E F : Condition} {m : Handler A}
      → Triple services start file P m Q E
      → Triple services start file N m R F
      → Triple services start file
          (λ s l f. P s l f × N s l f)
          m
          (λ a s l f. Q a s l f × R a s l f)
          (λ s l f. E s l f × F s l f)
  both-Triple {P} {N} {Q} {R} {E} {F} {m} h k = record {
    runs = λ w (p, n). both-Post services start file Q R E F (m w) (h.runs w p) (k.runs w n);
  }

  pub outcome-Triple :
      {P : Condition} {Q : A → Condition} {E F : Condition} {m : Handler A}
      → Triple services start file P m Q E
      → Triple services start file P (observe m) (Outcome Q E) F
  outcome-Triple {P} {Q} {E} {F} {m} h = record {
    runs = λ w p. outcome-Post services start file Q E F (m w) (h.runs w p);
  }
