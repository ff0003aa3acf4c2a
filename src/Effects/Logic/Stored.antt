-- ===== src/Effects/Logic/Stored.antt =====
-- crates/wxcd-worker/src/main.rs, `persist_event` and `persist_snapshot` go on when an append to the
-- Data Space fails. What the Data Space then holds is less than what the worker tried to append, and a
-- snapshot that is appended later makes up for it.
use codex_webex_connector.Base.{
  Bool, true, false, ◌&&◌, Option, List, [], ◌∷◌, ◌≡◌, ◌⊎◌, inl, inr, refl, ap, sym, subst, arith,
  is_some, Bool-cases, if◌then◌else◌,
}
use codex_webex_connector.Base.Result.{Result, ok, err}
use codex_webex_connector.Model.{BridgeSnapshot}
use codex_webex_connector.EventLog.{ReplayState, apply, from_snapshot}
use codex_webex_connector.Effects.{
  Call, Handler, Services, World, Failure, codex, delivery_enqueue, log_event, log_snapshot,
  random_suffix, read_clock, save_snapshot, webex,
}
use codex_webex_connector.Effects.Logic.{Condition, At, Post, Triple, sought, last_saved}

module _ (services : Services) where
  -- what a replay of the Data Space gives: only the appends that succeeded
  abbrev pub stored : ReplayState → List Call → ReplayState
  stored start [] = start
  stored start (log_event e ∷ calls) =
      let before = stored start calls in
      if is_some (services.answer calls (log_event e)) then apply before e else before
  stored start (log_snapshot s ∷ calls) =
      let before = stored start calls in
      if is_some (services.answer calls (log_snapshot s)) then from_snapshot s else before
  stored start (save_snapshot s ∷ calls) = stored start calls
  stored start (read_clock ∷ calls) = stored start calls
  stored start (random_suffix ∷ calls) = stored start calls
  stored start (webex c ∷ calls) = stored start calls
  stored start (codex c ∷ calls) = stored start calls
  stored start (delivery_enqueue e ∷ calls) = stored start calls

  -- no append failed, as far back as the last snapshot, that one included
  abbrev pub appended : List Call → Bool
  appended [] = true
  appended (log_event e ∷ calls) =
      let before = appended calls in is_some (services.answer calls (log_event e)) && before
  appended (log_snapshot s ∷ calls) = is_some (services.answer calls (log_snapshot s))
  appended (save_snapshot s ∷ calls) = appended calls
  appended (read_clock ∷ calls) = appended calls
  appended (random_suffix ∷ calls) = appended calls
  appended (webex c ∷ calls) = appended calls
  appended (codex c ∷ calls) = appended calls
  appended (delivery_enqueue e ∷ calls) = appended calls

  stored-eq-sought :
      (start : ReplayState) (calls : List Call)
      → appended calls ≡ true
      → stored start calls ≡ sought start calls
  stored-eq-sought start [] h = refl
  stored-eq-sought start (log_event e ∷ calls) h =
      let answered : is_some (services.answer calls (log_event e)) ≡ true = ground arith in
      let before : appended calls ≡ true = ground arith in
      rw answered (ap (λ r. apply r e) (stored-eq-sought start calls before))
  stored-eq-sought start (log_snapshot s ∷ calls) h = rw h refl
  stored-eq-sought start (save_snapshot s ∷ calls) h = stored-eq-sought start calls h
  stored-eq-sought start (read_clock ∷ calls) h = stored-eq-sought start calls h
  stored-eq-sought start (random_suffix ∷ calls) h = stored-eq-sought start calls h
  stored-eq-sought start (webex c ∷ calls) h = stored-eq-sought start calls h
  stored-eq-sought start (codex c ∷ calls) h = stored-eq-sought start calls h
  stored-eq-sought start (delivery_enqueue e ∷ calls) h = stored-eq-sought start calls h

  module _ (start : ReplayState) (file : Option BridgeSnapshot) where
    -- the condition holds with the Data Space for the log
    abbrev pub InDataSpace : Condition → World → Type 0
    InDataSpace P w = P w.worker (stored start w.trace) (last_saved services file w.trace)

    -- the condition holds of what the worker tried to append, and of the Data Space unless an append
    -- failed
    abbrev pub Holds : Condition → World → Type 0
    Holds P w = At services start file P w × ((appended w.trace ≡ false) ⊎ InDataSpace P w)

    abbrev pub Leaves : {A : Type 0} → Condition → Condition → World × Result Failure A → Type 0
    Leaves Q E (w, ok a) = Holds Q w
    Leaves Q E (w, err e) = Holds E w

    At-Holds : (P : Condition) (w : World) → At services start file P w → Holds P w
    At-Holds P w h = (
      h,
      elim (Bool-cases (appended w.trace)) [
        | inl e ↦ inr (
            subst (λ r. P w.worker r (last_saved services file w.trace))
              (sym (stored-eq-sought start w.trace e)) h)
        | inr e ↦ inl e
      ],
    )

    Post-Leaves :
        {A : Type 0} (Q E : Condition) (r : World × Result Failure A)
        → Post services start file (λ _. Q) E r
        → Leaves Q E r
    Post-Leaves Q E (w, ok a) h = At-Holds Q w h
    Post-Leaves Q E (w, err e) h = At-Holds E w h

    pub Triple-Leaves :
        {A : Type 0} {P Q E : Condition} {m : Handler A}
        → Triple services start file P m (λ _. Q) E
        → (w : World) → At services start file P w
        → Leaves Q E (m w)
    Triple-Leaves {A} {P} {Q} {E} {m} t w h = Post-Leaves Q E (m w) (t.runs w h)
