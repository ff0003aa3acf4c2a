-- ===== src/Effects/Logic.antt =====
-- Reasoning on handlers: a triple says what a handler leaves behind when it ends, with a value or
-- with a failure. Conditions speak of the worker state, of what replaying the appended events would give,
-- and of the local snapshot that was saved last.
pub mod Rules
pub mod Stored
use codex_webex_connector.Base.{
  Bool, true, false, Option, none, some, List, [], ◌∷◌, ◌≡◌, refl, is_some, if◌then◌else◌,
}
use codex_webex_connector.Base.Result.{Result, ok, err}
use codex_webex_connector.Model.{BridgeEvent, BridgeSnapshot}
use codex_webex_connector.EventLog.{ReplayState, apply, from_snapshot}
use codex_webex_connector.Worker.{WorkerState}
use codex_webex_connector.Worker.Guards.{GuardError}
use codex_webex_connector.Effects
use codex_webex_connector.Effects.{
  Answer, Call, DeliveryRequest, CodexCall, Failure, Handler, Services, World, WebexCall, codex,
  continue, attempt, observe, delivery_enqueue, log_event, log_snapshot, random_suffix, read_clock,
  save_snapshot, webex, call, clock, fresh_suffix, pure, fail, require, checked, refused, modify,
  get_worker, ◌>>=◌, ◌>>◌, ignored,
}

-- what the trace does to a replayed state: the events and snapshots that the worker tried to append
abbrev pub sought : ReplayState → List Call → ReplayState
sought start [] = start
sought start (log_event e ∷ calls) = apply (sought start calls) e
sought start (log_snapshot s ∷ calls) = from_snapshot s
sought start (save_snapshot s ∷ calls) = sought start calls
sought start (read_clock ∷ calls) = sought start calls
sought start (random_suffix ∷ calls) = sought start calls
sought start (webex c ∷ calls) = sought start calls
sought start (codex c ∷ calls) = sought start calls
sought start (delivery_enqueue e ∷ calls) = sought start calls

-- the local snapshot: the one that was written last with success, at first the one of the file
abbrev pub last_saved : Services → Option BridgeSnapshot → List Call → Option BridgeSnapshot
last_saved services file [] = file
last_saved services file (save_snapshot s ∷ calls) =
    let before = last_saved services file calls in
    if is_some (services.answer calls (save_snapshot s)) then some s else before
last_saved services file (log_event e ∷ calls) = last_saved services file calls
last_saved services file (log_snapshot s ∷ calls) = last_saved services file calls
last_saved services file (read_clock ∷ calls) = last_saved services file calls
last_saved services file (random_suffix ∷ calls) = last_saved services file calls
last_saved services file (webex c ∷ calls) = last_saved services file calls
last_saved services file (codex c ∷ calls) = last_saved services file calls
last_saved services file (delivery_enqueue e ∷ calls) = last_saved services file calls

abbrev pub Condition : Type 1
Condition = WorkerState → ReplayState → Option BridgeSnapshot → Type 0

abbrev pub Implies : Condition → Condition → Type 0
Implies P Q =
    (s : WorkerState) (r : ReplayState) (saved : Option BridgeSnapshot) → P s r saved → Q s r saved

-- what holds when a handler has ended in one way or the other
abbrev pub Outcome : {A : Type 0} → (A → Condition) → Condition → Result Failure A → Condition
Outcome Q E (ok a) = Q a
Outcome Q E (err e) = E

module _ (services : Services) (start : ReplayState) (file : Option BridgeSnapshot) where
  abbrev pub At : Condition → World → Type 0
  At P w = P w.worker (sought start w.trace) (last_saved services file w.trace)

  end-At : (P Q : Condition) (w : World) → Implies P Q → At P w → At Q w
  end-At P Q w h p = h w.worker (sought start w.trace) (last_saved services file w.trace) p

  abbrev pub Post : {A : Type 0} → (A → Condition) → Condition → World × Result Failure A → Type 0
  Post Q E (w, ok a) = At (Q a) w
  Post Q E (w, err e) = At E w

  -- from `P`, the handler ends with a value and its `Q`, or with a failure and `E`
  pub record Triple {A : Type 0} (P : Condition) (m : Handler A) (Q : A → Condition) (E : Condition)
      : Type 0 where
    pub runs : (w : World) → At P w → Post Q E (m w)

  continue-Post :
      {A B : Type 0} (Q : A → Condition) (R : B → Condition) (E : Condition)
      (r : World × Result Failure A) (k : A → Handler B)
      → Post Q E r
      → ((a : A) → Triple (Q a) (k a) R E)
      → Post R E (continue r k)
  continue-Post Q R E (w, ok a) k h f = (f a).runs w h
  continue-Post Q R E (w, err e) k h f = h

  module _ {A : Type 0} (Q E : Condition) where
    ignored-Post : (r : World × Result Failure A) → Post (λ _. Q) Q r → Post (λ _. Q) E (ignored r)
    ignored-Post (w, ok a) h = h
    ignored-Post (w, err e) h = h

    observe-Post :
        (r : World × Result Failure A) → Post (λ _. Q) Q r → Post (λ _. Q) E (r.0, ok r.1)
    observe-Post (w, ok a) h = h
    observe-Post (w, err e) h = h

  outcome-Post :
      {A : Type 0} (Q : A → Condition) (E F : Condition) (r : World × Result Failure A)
      → Post Q E r
      → Post (Outcome Q E) F (r.0, ok r.1)
  outcome-Post Q E F (w, ok a) h = h
  outcome-Post Q E F (w, err e) h = h

  answered-Post :
      (P : Condition) (o : Option Answer) (c : Call) (w : World)
      → At P w
      → Post (λ _. P) P (w, Effects.answered services o c)
  answered-Post P none c w h = h
  answered-Post P (some a) c w h = h

  -- a snapshot that could not be written leaves the file as it was
  saved-Post :
      (P E : Condition) (o : Option Answer) (snapshot : BridgeSnapshot) (w : World)
      → P w.worker (sought start w.trace) (some snapshot)
      → E w.worker (sought start w.trace) (last_saved services file w.trace)
      → services.answer w.trace (save_snapshot snapshot) ≡ o
      → Post
          (λ _. P)
          E
          (
            record w { trace = save_snapshot snapshot ∷ w.trace },
            Effects.answered services o (save_snapshot snapshot),
          )
  saved-Post P E none snapshot w p e q = rw q e
  saved-Post P E (some a) snapshot w p e q = rw q p

  weaken-Post :
      {A : Type 0} (Q Q2 : A → Condition) (E E2 : Condition) (r : World × Result Failure A)
      → ((a : A) → Implies (Q a) (Q2 a))
      → Implies E E2
      → Post Q E r
      → Post Q2 E2 r
  weaken-Post Q Q2 E E2 (w, ok a) h k e = end-At (Q a) (Q2 a) w (h a) e
  weaken-Post Q Q2 E E2 (w, err x) h k e = end-At E E2 w k e

module _ (services : Services) (start : ReplayState) (file : Option BridgeSnapshot) where
  both-Post :
      {A : Type 0} (Q R : A → Condition) (E F : Condition) (r : World × Result Failure A)
      → Post services start file Q E r
      → Post services start file R F r
      → Post services start file (λ a s l f. Q a s l f × R a s l f) (λ s l f. E s l f × F s l f) r
  both-Post Q R E F (w, ok a) h k = (h, k)
  both-Post Q R E F (w, err e) h k = (h, k)
