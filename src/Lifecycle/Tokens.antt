-- ===== src/Lifecycle/Tokens.antt =====
-- crates/wxcd-worker/src/main.rs: a transition token is good only as long as the control has not
-- moved. In between, other threads may call the methods of `LifecycleControl` that can move the phase,
-- in any order. Work that is admitted or finished moves only the count of the work in flight, and is
-- in Lifecycle.Permits.
use codex_webex_connector.Base.{
  ℕ, suc, ◌+◌, ◌%◌, ◌<◌, Bool, true, false, none, some, ◌≡◌, ◌≢◌, ◌⊎◌, inl, inr, refl, ap, ◌∙◌,
  arith,
}
use codex_webex_connector.Model.{Instant}
use codex_webex_connector.Lifecycle.{
  LifecycleControl, LifecyclePhaseState, LifecycleTransitionToken, quiescing, activating, u64_mod,
  phase, begin_quiesce, is_current_quiesce, begin_unquiesce_activation,
  complete_unquiesce_activation, cancel_unquiesce_activation, begin_unquiesce_if_current,
  begin_shutdown, restore_shutdown_phase, sidecar_drain_barrier_started_at,
}

-- the methods that can move the phase
pub data Op : Type 0 where
  op_quiesce : Instant → Op
  op_activate : LifecycleTransitionToken → Op
  op_complete : Instant → LifecycleTransitionToken → Op
  op_cancel : LifecycleTransitionToken → Op
  op_unquiesce : LifecycleTransitionToken → Op
  op_shutdown : Instant → Op
  op_restore : LifecyclePhaseState → Op

unfoldable pub perform : LifecycleControl → Op → LifecycleControl
unfolding begin_quiesce begin_unquiesce_activation complete_unquiesce_activation
    cancel_unquiesce_activation begin_unquiesce_if_current begin_shutdown restore_shutdown_phase
perform c (op_quiesce now) = (begin_quiesce now c).0
perform c (op_activate token) = (begin_unquiesce_activation token c).0
perform c (op_complete now token) = (complete_unquiesce_activation now token c).0
perform c (op_cancel token) = cancel_unquiesce_activation token c
perform c (op_unquiesce token) = (begin_unquiesce_if_current token c).0
perform c (op_shutdown now) = (begin_shutdown now c).0
perform c (op_restore previous) = restore_shutdown_phase previous c

-- `Runs n c d`: these methods get the control from `c` to `d` with `n` moves, and calls that do nothing
pub data Runs : ℕ → LifecycleControl → LifecycleControl → Type 0 where
  stop : {c : LifecycleControl} → Runs 0 c c
  moved :
      {n : ℕ} {c d : LifecycleControl} (op : Op)
      → perform c op ≢ c
      → Runs n (perform c op) d
      → Runs (suc n) c d
  refused :
      {n : ℕ} {c d : LifecycleControl} (op : Op)
      → perform c op ≡ c
      → Runs n (perform c op) d
      → Runs n c d

-- A method leaves the control as it is, or takes the next generation; it never counts work.
perform-generation :
    (c : LifecycleControl) (op : Op)
    → (perform c op ≡ c) ⊎ ((perform c op).state.generation ≡ (c.state.generation + 1) % u64_mod)
unfolding perform
perform-generation c (op_quiesce now) = ground arith
perform-generation c (op_activate token) = ground arith
perform-generation c (op_complete now token) = ground arith
perform-generation c (op_cancel token) = ground arith
perform-generation c (op_unquiesce token) = ground arith
perform-generation c (op_shutdown now) = ground arith
perform-generation c (op_restore previous) = ground arith

-- generations of a u64
abbrev pub InRange : LifecycleControl → Type 0
InRange c = c.state.generation < u64_mod

Runs-generation :
    (n : ℕ) {c d : LifecycleControl}
    → InRange c
    → Runs n c d
    → d.state.generation ≡ (c.state.generation + n) % u64_mod
Runs-generation n r stop = omega arith
Runs-generation (suc n) {c} r (moved op h rest) = elim (perform-generation c op) [
  | inl same ↦ absurd (h same)
  | inr next ↦ omega (arith, Runs-generation n (omega arith) rest)
]
Runs-generation n {c} {d} r (refused op h rest) =
    let at_end : d.state.generation ≡ ((perform c op).state.generation + n) % u64_mod =
      Runs-generation n (rw h r) rest in
    at_end ∙ ap (λ (x : LifecycleControl). (x.state.generation + n) % u64_mod) h

Runs-zero : (n : ℕ) {c d : LifecycleControl} → n ≡ 0 → Runs n c d → d ≡ c
Runs-zero n e stop = refl
Runs-zero (suc n) e (moved op h rest) = absurd (omega arith)
Runs-zero n e (refused op h rest) = Runs-zero n e rest ∙ h

unmoved :
    (n : ℕ) {c d : LifecycleControl}
    → InRange c
    → n < u64_mod
    → Runs n c d
    → d.state.generation ≡ c.state.generation
    → d ≡ c
unmoved n r b run e = Runs-zero n (omega (arith, Runs-generation n r run)) run

-- the uses of a token that the worker accepts
pub data Accepts (token : LifecycleTransitionToken) (d : LifecycleControl) : Type 0 where
  as_current_quiesce : is_current_quiesce token d ≡ true → Accepts token d
  as_activation : (begin_unquiesce_activation token d).1 ≢ none → Accepts token d
  as_completion :
      (now : Instant) → (complete_unquiesce_activation now token d).1 ≡ true → Accepts token d
  as_unquiesce : (begin_unquiesce_if_current token d).1 ≡ true → Accepts token d
  as_cancellation : cancel_unquiesce_activation token d ≢ d → Accepts token d

Accepts-generation :
    (token : LifecycleTransitionToken) (d : LifecycleControl)
    → Accepts token d
    → d.state.generation ≡ token.generation
unfolding is_current_quiesce begin_unquiesce_activation complete_unquiesce_activation
    begin_unquiesce_if_current cancel_unquiesce_activation
Accepts-generation token d (as_current_quiesce h) = ground arith
Accepts-generation token d (as_activation h) = ground arith
Accepts-generation token d (as_completion now h) = ground arith
Accepts-generation token d (as_unquiesce h) = ground arith
Accepts-generation token d (as_cancellation h) = ground arith

-- A token of the present generation is accepted later, by any of the five methods that take one,
-- only if the control has not moved in between, whatever fewer than 2 ^ 64 moves other threads
-- could have made.
pub token_is_fresh :
    (n : ℕ) (c d : LifecycleControl) (token : LifecycleTransitionToken)
    → InRange c
    → token.generation ≡ c.state.generation
    → n < u64_mod
    → Runs n c d
    → Accepts token d
    → d ≡ c
token_is_fresh n c d token r e b run a = unmoved n r b run (Accepts-generation token d a ∙ e)

cancelled_generation :
    (c : LifecycleControl) (token activation : LifecycleTransitionToken)
    → InRange c
    → (begin_unquiesce_activation token c).1 ≡ some activation
    → (let d = cancel_unquiesce_activation activation (begin_unquiesce_activation token c).0 in
        (phase d ≡ quiescing)
        × (d.state.phase_started_at ≡ c.state.phase_started_at)
        × (d.in_flight ≡ c.in_flight)
        × (d.state.generation ≢ token.generation)
        × (d.state.generation ≢ activation.generation))
unfolding begin_unquiesce_activation cancel_unquiesce_activation
cancelled_generation c token activation r h = ground arith

-- Cancelling an activation puts the quiesce back with the drain barrier that it had, under a
-- generation of its own: neither the token of the quiesce nor that of the activation is accepted by
-- any method that takes one.
pub cancel-begin_unquiesce_activation :
    (c : LifecycleControl) (token activation : LifecycleTransitionToken)
    → InRange c
    → (begin_unquiesce_activation token c).1 ≡ some activation
    → (let d = cancel_unquiesce_activation activation (begin_unquiesce_activation token c).0 in
        (phase d ≡ quiescing)
        × (d.state.phase_started_at ≡ c.state.phase_started_at)
        × (d.in_flight ≡ c.in_flight)
        × (¬ Accepts token d)
        × (¬ Accepts activation d))
cancel-begin_unquiesce_activation c token activation r h =
    let (q, b, n, spent, other) = cancelled_generation c token activation r h in
    let d = cancel_unquiesce_activation activation (begin_unquiesce_activation token c).0 in
    (
      q,
      b,
      n,
      (λ a. spent (Accepts-generation token d a)),
      λ a. other (Accepts-generation activation d a),
    )

-- A shutdown that is taken back restores the phase and its start, under a new generation.
pub restore-begin_shutdown :
    (now : Instant) (c : LifecycleControl) (previous : LifecyclePhaseState)
    → InRange c
    → (begin_shutdown now c).1 ≡ some previous
    → (let d = restore_shutdown_phase previous (begin_shutdown now c).0 in
        (phase d ≡ phase c)
        × (d.state.phase_started_at ≡ c.state.phase_started_at)
        × (d.in_flight ≡ c.in_flight)
        × (d.state.generation ≢ c.state.generation))
unfolding begin_shutdown restore_shutdown_phase
restore-begin_shutdown now c previous r h = ground arith

abbrev is_restore : Op → Bool
is_restore (op_restore previous) = true
is_restore _ = false

-- While the worker drains, no method but a restored shutdown moves the barrier: it stays, or the
-- worker activates and the start of the quiesce is kept.
pub barrier-perform :
    (c : LifecycleControl) (op : Op) (t : Instant)
    → is_restore op ≡ false
    → sidecar_drain_barrier_started_at c ≡ some t
    → (sidecar_drain_barrier_started_at (perform c op) ≡ some t)
      ⊎ ((phase (perform c op) ≡ activating) × ((perform c op).state.phase_started_at ≡ t))
unfolding perform sidecar_drain_barrier_started_at
barrier-perform c (op_quiesce now) t n h = ground arith
barrier-perform c (op_activate token) t n h = ground arith
barrier-perform c (op_complete now token) t n h = ground arith
barrier-perform c (op_cancel token) t n h = ground arith
barrier-perform c (op_unquiesce token) t n h = ground arith
barrier-perform c (op_shutdown now) t n h = ground arith
barrier-perform c (op_restore previous) t n h = cc
