-- ===== src/Samples/LifecycleTests.antt =====
-- The theorems on the admission of work at concrete runs.
use codex_webex_connector.Base.{none, some, [], ◌∷◌, ◌≡◌, ◌⊎◌, ◌↔◌, refl, arith}
use codex_webex_connector.Lifecycle.{
  LifecycleControl, active, quiescing, activating, shutting_down, phase, for_generation,
  for_activation, new, is_current_quiesce, begin_unquiesce_activation, cancel_unquiesce_activation,
  begin_shutdown, restore_shutdown_phase, sidecar_drain_barrier_started_at,
}
use codex_webex_connector.Lifecycle.Admission.{
  admitted, try_begin_drainable_external_work, IsDrainable,
  try_begin_drainable_external_work-admitted,
}
use codex_webex_connector.Lifecycle.Permits.{
  World, begin, finish_permit, run, unfinished, AllFinished, run-in_flight,
}
use codex_webex_connector.Lifecycle.Tokens.{
  op_quiesce, op_activate, perform, Runs, stop, refused, as_current_quiesce, Accepts,
  token_is_fresh, cancel-begin_unquiesce_activation, barrier-perform,
}

-- a worker that began to quiesce at instant 100
abbrev draining : LifecycleControl
draining = record {
  state = record { phase = quiescing; generation = 1; phase_started_at = 100 };
  in_flight = 0;
}

abbrev fresh : LifecycleControl
fresh = record {
  state = record { phase = active; generation = 0; phase_started_at = 50 };
  in_flight = 0;
}

-- another thread tries to activate with a token of the generation before, in vain
refused_call : Runs 0 draining draining
unfolding perform begin_unquiesce_activation
refused_call = refused (op_activate (for_generation 0)) refl stop

token_is_fresh_example : draining ≡ draining
unfolding is_current_quiesce
token_is_fresh_example =
    token_is_fresh 0 draining draining (for_generation 1) (omega arith) refl (omega arith)
      refused_call (as_current_quiesce refl)

abbrev cancelled : LifecycleControl
cancelled =
    cancel_unquiesce_activation (for_activation 2 100)
      (begin_unquiesce_activation (for_generation 1) draining).0

cancel-begin_unquiesce_activation_example :
    (phase cancelled ≡ quiescing)
    × (cancelled.state.phase_started_at ≡ 100)
    × (cancelled.in_flight ≡ 0)
    × (¬ Accepts (for_generation 1) cancelled)
    × (¬ Accepts (for_activation 2 100) cancelled)
unfolding begin_unquiesce_activation
cancel-begin_unquiesce_activation_example =
    cancel-begin_unquiesce_activation draining (for_generation 1) (for_activation 2 100)
      (omega arith) refl

abbrev restored_control : LifecycleControl
restored_control = restore_shutdown_phase draining.state (begin_shutdown 200 draining).0

barrier-perform_example :
    (sidecar_drain_barrier_started_at (perform draining (op_quiesce 200)) ≡ some 100)
    ⊎ ((phase (perform draining (op_quiesce 200)) ≡ activating)
        × ((perform draining (op_quiesce 200)).state.phase_started_at ≡ 100))
unfolding sidecar_drain_barrier_started_at
barrier-perform_example = barrier-perform draining (op_quiesce 200) 100 refl refl

abbrev two_begun_one_finished : World
two_begun_one_finished =
    run (record { control = new active 50; permits = [] })
      (begin none ∷ begin none ∷ finish_permit 0 ∷ finish_permit 0 ∷ [])

run-in_flight_example :
    (two_begun_one_finished.control.in_flight ≡ unfinished two_begun_one_finished.permits)
    × ((two_begun_one_finished.control.in_flight ≡ 0) ↔ AllFinished two_begun_one_finished.permits)
run-in_flight_example =
    run-in_flight active 50 (begin none ∷ begin none ∷ finish_permit 0 ∷ finish_permit 0 ∷ [])
      (omega arith)

try_begin_drainable_external_work-admitted_example :
    ((try_begin_drainable_external_work (some 90) draining).1 ≡ admitted) ↔ (
      (quiescing ≡ active)
      ⊎ (((quiescing ≡ quiescing) ⊎ (quiescing ≡ shutting_down)) × IsDrainable (some 90) draining))
try_begin_drainable_external_work-admitted_example =
    try_begin_drainable_external_work-admitted (some 90) draining
