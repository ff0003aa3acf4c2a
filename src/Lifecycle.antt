-- ===== src/Lifecycle.antt =====
-- crates/wxcd-worker/src/main.rs, `LifecycleControl`: the admission phase of the worker behind its
-- mutex. A method runs under the lock, so it is one step on the record; `Utc::now()` is the
-- argument `now`. `generation` and `in_flight` are u64 and wrap.
pub mod Permits
pub mod Tokens
pub mod Admission
use codex_webex_connector.Base.{
  ℕ, ◌+◌, ◌-◌, ◌/◌, ◌%◌, ◌^◌, String, Bool, true, false, not, ◌&&◌, ◌||◌, Option, none, some, leb,
  eqb, is_some, if◌then◌else◌,
}
use codex_webex_connector.Model.{Instant}

pub data LifecycleAdmissionPhase : Type 0 where
  active quiescing activating shutting_down : LifecycleAdmissionPhase

pub record LifecyclePhaseState : Type 0 where
  pub phase : LifecycleAdmissionPhase
  pub generation : ℕ
  pub phase_started_at : Instant

pub record LifecycleTransitionToken : Type 0 where
  pub generation : ℕ
  pub restore_phase_started_at : Option Instant

pub record LifecycleControl : Type 0 where
  pub state : LifecyclePhaseState
  pub in_flight : ℕ

abbrev pub u64_mod : ℕ
u64_mod = 2 ^ 64

-- `wrapping_add(1)`
abbrev pub next_generation : ℕ → ℕ
next_generation g = (g + 1) % u64_mod

abbrev pub is_quiescing : LifecycleAdmissionPhase → Bool
is_quiescing quiescing = true
is_quiescing _ = false

abbrev pub is_activating : LifecycleAdmissionPhase → Bool
is_activating activating = true
is_activating _ = false

abbrev pub is_active : LifecycleAdmissionPhase → Bool
is_active active = true
is_active _ = false

abbrev pub is_shutting_down : LifecycleAdmissionPhase → Bool
is_shutting_down shutting_down = true
is_shutting_down _ = false

abbrev pub for_generation : ℕ → LifecycleTransitionToken
for_generation g = record { generation = g; restore_phase_started_at = none }

abbrev pub for_activation : ℕ → Instant → LifecycleTransitionToken
for_activation g t = record { generation = g; restore_phase_started_at = some t }

abbrev pub phase : LifecycleControl → LifecycleAdmissionPhase
phase c = c.state.phase

unfoldable pub new : LifecycleAdmissionPhase → Instant → LifecycleControl
new initial_phase now = record {
  state = record { phase = initial_phase; generation = 0; phase_started_at = now };
  in_flight = 0;
}

-- what `sidecar_drain_barrier_started_at` answers in a phase
abbrev pub barrier_in : LifecycleAdmissionPhase → Instant → Option Instant
barrier_in quiescing t = some t
barrier_in shutting_down t = some t
barrier_in _ t = none

unfoldable pub sidecar_drain_barrier_started_at : LifecycleControl → Option Instant
sidecar_drain_barrier_started_at c = barrier_in c.state.phase c.state.phase_started_at

-- the transitions, by the phase that they start from
abbrev pub quiesce_from :
    LifecycleAdmissionPhase
    → Instant
    → LifecycleControl
    → LifecycleControl × Option LifecycleTransitionToken
quiesce_from active now c =
    let g = next_generation c.state.generation in
    (
      record c { state = record { phase = quiescing; generation = g; phase_started_at = now } },
      some (for_generation g),
    )
quiesce_from quiescing now c =
    let g = next_generation c.state.generation in
    (record c { state = record c.state { generation = g } }, some (for_generation g))
quiesce_from _ now c = (c, none)

unfoldable pub begin_quiesce :
    Instant → LifecycleControl → LifecycleControl × Option LifecycleTransitionToken
begin_quiesce now c = quiesce_from c.state.phase now c

-- `is_some()` of the token
unfoldable pub quiesce : Instant → LifecycleControl → LifecycleControl × Bool
unfolding begin_quiesce
quiesce now c = let (d, token) = begin_quiesce now c in (d, is_some token)

unfoldable pub quiesce_for_drain :
    Instant → LifecycleControl → LifecycleControl × Option LifecycleTransitionToken
unfolding begin_quiesce
quiesce_for_drain now c = begin_quiesce now c

unfoldable pub is_current_quiesce : LifecycleTransitionToken → LifecycleControl → Bool
is_current_quiesce token c = is_quiescing c.state.phase && eqb c.state.generation token.generation

-- from `Quiescing` to `Activating`; the start of the quiesce goes into the token
abbrev pub activate : LifecycleControl → LifecycleControl × Option LifecycleTransitionToken
activate c =
    let g = next_generation c.state.generation in
    (
      record c { state = record c.state { phase = activating; generation = g } },
      some (for_activation g c.state.phase_started_at),
    )

unfoldable pub begin_unquiesce_activation :
    LifecycleTransitionToken → LifecycleControl → LifecycleControl × Option LifecycleTransitionToken
begin_unquiesce_activation token c =
    if not (is_quiescing c.state.phase) || not (eqb c.state.generation token.generation)
    then (c, none)
    else activate c

unfoldable pub complete_unquiesce_activation :
    Instant → LifecycleTransitionToken → LifecycleControl → LifecycleControl × Bool
complete_unquiesce_activation now token c =
    if not (is_activating c.state.phase) || not (eqb c.state.generation token.generation)
    then (c, false)
    else (
      record c {
        state = record {
          phase = active;
          generation = next_generation c.state.generation;
          phase_started_at = now;
        };
      },
      true,
    )

abbrev pub restored : Option Instant → Instant → Instant
restored none t = t
restored (some t) _ = t

unfoldable pub cancel_unquiesce_activation :
    LifecycleTransitionToken → LifecycleControl → LifecycleControl
cancel_unquiesce_activation token c =
    if is_activating c.state.phase && eqb c.state.generation token.generation
    then record c {
      state = record {
        phase = quiescing;
        generation = next_generation c.state.generation;
        phase_started_at = restored token.restore_phase_started_at c.state.phase_started_at;
      };
    }
    else c

abbrev pub prepare_in : LifecycleAdmissionPhase → ℕ → Instant → Option LifecycleTransitionToken
prepare_in active g t = some (for_generation g)
prepare_in quiescing g t = some (for_activation g t)
prepare_in _ g t = none

unfoldable pub prepare_unquiesce : LifecycleControl → Option LifecycleTransitionToken
prepare_unquiesce c = prepare_in c.state.phase c.state.generation c.state.phase_started_at

-- the second `match`; its last arm is `unreachable!`, behind the guard
abbrev pub unquiesce_from :
    LifecycleAdmissionPhase
    → LifecycleControl
    → LifecycleControl × Bool × Option LifecycleTransitionToken
unquiesce_from quiescing c = let (d, token) = activate c in (d, true, token)
unquiesce_from _ c = (c, true, none)

unfoldable pub begin_unquiesce_if_current :
    LifecycleTransitionToken
    → LifecycleControl
    → LifecycleControl × Bool × Option LifecycleTransitionToken
begin_unquiesce_if_current token c =
    if is_activating c.state.phase
      || is_shutting_down c.state.phase
      || not (eqb c.state.generation token.generation)
    then (c, false, none)
    else unquiesce_from c.state.phase c

abbrev pub shutdown_from :
    LifecycleAdmissionPhase
    → Instant
    → LifecycleControl
    → LifecycleControl × Option LifecyclePhaseState
shutdown_from active now c = (
  record c {
    state = record {
      phase = shutting_down;
      generation = next_generation c.state.generation;
      phase_started_at = now;
    };
  },
  some c.state,
)
shutdown_from quiescing now c = (
  record c {
    state = record c.state {
      phase = shutting_down;
      generation = next_generation c.state.generation;
    };
  },
  some c.state,
)
shutdown_from _ now c = (c, none)

unfoldable pub begin_shutdown :
    Instant → LifecycleControl → LifecycleControl × Option LifecyclePhaseState
begin_shutdown now c = shutdown_from c.state.phase now c

unfoldable pub restore_shutdown_phase : LifecyclePhaseState → LifecycleControl → LifecycleControl
restore_shutdown_phase previous c =
    if is_shutting_down c.state.phase
    then record c {
      state = record {
        phase = previous.phase;
        generation = next_generation c.state.generation;
        phase_started_at = previous.phase_started_at;
      };
    }
    else c
