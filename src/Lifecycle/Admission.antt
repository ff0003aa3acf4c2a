-- ===== src/Lifecycle/Admission.antt =====
-- crates/wxcd-worker/src/main.rs: which work is let in (`try_begin_drainable_external_work`), and
-- `health_check` with the request and response of crates/wxcd-cbth-rpc/src/lib.rs.
use codex_webex_connector.Base.{
  ℕ, ◌+◌, ◌/◌, ◌%◌, ◌≤◌, String, Bool, true, false, not, ◌&&◌, ◌||◌, Option, none, some, ◌≡◌, ◌↔◌,
  ◌⊎◌, arith, leb, is_some_and, if◌then◌else◌,
}
use codex_webex_connector.Model.{Instant}
use codex_webex_connector.Lifecycle.{
  LifecycleControl, LifecycleAdmissionPhase, active, quiescing, activating, shutting_down, u64_mod,
  is_quiescing, is_active, is_shutting_down, phase,
}

-- `DateTime::timestamp_millis`, of an instant in nanoseconds
abbrev pub timestamp_millis : Instant → ℕ
timestamp_millis t = t / 1_000_000

unfoldable pub sidecar_received_before_cutoff : Instant → Instant → Bool
sidecar_received_before_cutoff received_at cutoff =
    leb (timestamp_millis received_at) (timestamp_millis cutoff)

-- why work is refused
pub data Refusal : Type 0 where
  plugin_quiescing plugin_activating plugin_shutting_down : Refusal

pub data Admission : Type 0 where
  admitted : Admission
  refused : Refusal → Admission

-- `fetch_add(1)`, and the permit
abbrev pub admit : LifecycleControl → LifecycleControl × Admission
admit c = (record c { in_flight = (c.in_flight + 1) % u64_mod }, admitted)

abbrev admit_if : Bool → Refusal → LifecycleControl → LifecycleControl × Admission
admit_if drainable why c = if drainable then admit c else (c, refused why)

abbrev admission_in :
    LifecycleAdmissionPhase → Option Instant → LifecycleControl → LifecycleControl × Admission
admission_in active received c = admit c
admission_in quiescing received c =
    admit_if (is_some_and received (λ r. sidecar_received_before_cutoff r c.state.phase_started_at))
      plugin_quiescing c
admission_in activating received c = (c, refused plugin_activating)
admission_in shutting_down received c =
    admit_if (is_some_and received (λ r. sidecar_received_before_cutoff r c.state.phase_started_at))
      plugin_shutting_down c

unfoldable pub try_begin_drainable_external_work :
    Option Instant → LifecycleControl → LifecycleControl × Admission
unfolding sidecar_received_before_cutoff
try_begin_drainable_external_work received c = admission_in c.state.phase received c

abbrev external_in : LifecycleAdmissionPhase → LifecycleControl → LifecycleControl × Admission
external_in active c = admit c
external_in quiescing c = (c, refused plugin_quiescing)
external_in activating c = (c, refused plugin_activating)
external_in shutting_down c = (c, refused plugin_shutting_down)

unfoldable pub try_begin_external_work : LifecycleControl → LifecycleControl × Admission
try_begin_external_work c = external_in c.state.phase c

-- Work that no sidecar received is admitted as drainable work without a time of receipt is.
pub try_begin_external_work-eq-try_begin_drainable_external_work :
    (c : LifecycleControl) → try_begin_external_work c ≡ try_begin_drainable_external_work none c
unfolding try_begin_external_work try_begin_drainable_external_work
try_begin_external_work-eq-try_begin_drainable_external_work c = ground arith

-- the work that the drain barrier lets through
abbrev pub IsDrainable : Option Instant → LifecycleControl → Type 0
IsDrainable none c = ⊥
IsDrainable (some r) c = timestamp_millis r ≤ timestamp_millis c.state.phase_started_at

-- Work is admitted exactly when the worker is active, or quiesces or shuts down and the sidecar
-- had received the work by the millisecond in which that began.
pub try_begin_drainable_external_work-admitted :
    (received : Option Instant) (c : LifecycleControl)
    → ((try_begin_drainable_external_work received c).1 ≡ admitted) ↔ (
        (phase c ≡ active)
        ⊎ (((phase c ≡ quiescing) ⊎ (phase c ≡ shutting_down)) × IsDrainable received c))
unfolding try_begin_drainable_external_work
try_begin_drainable_external_work-admitted received c = ground arith

abbrev pub is_admitted : Admission → Bool
is_admitted admitted = true
is_admitted (refused why) = false

-- admission never moves the phase, and counts exactly the work that it admits
pub try_begin_drainable_external_work-counts :
    (received : Option Instant) (c : LifecycleControl)
    → (let (d, answer) = try_begin_drainable_external_work received c in
        (d.state ≡ c.state)
        × (d.in_flight ≡ (if is_admitted answer then (c.in_flight + 1) % u64_mod else c.in_flight)))
unfolding try_begin_drainable_external_work
try_begin_drainable_external_work-counts received c = ground arith

pub data PluginLifecycleMode : Type 0 where
  pre_active active_mode : PluginLifecycleMode

pub record PluginHealthCheckRequest : Type 0 where
  pub mode : PluginLifecycleMode
  pub allow_external_side_effects : Bool
  pub allow_cursor_advance : Bool
  pub allow_delivery_commit : Bool

pub record PluginHealthCheckResponse : Type 0 where
  pub healthy : Bool
  pub message : Option String

abbrev pub is_pre_active : PluginLifecycleMode → Bool
is_pre_active pre_active = true
is_pre_active active_mode = false

abbrev unhealthy : String → PluginHealthCheckResponse
unhealthy why = record { healthy = false; message = some why }

unfoldable pub health_check :
    PluginHealthCheckRequest → Bool → LifecycleControl → PluginHealthCheckResponse
health_check request process_healthy c =
    if not process_healthy
    then unhealthy "worker has not completed startup health checks"
    else if is_pre_active request.mode
        && (request.allow_external_side_effects || request.allow_cursor_advance
            || request.allow_delivery_commit)
    then unhealthy
        "pre-active health check must fence side effects, cursor advance, and delivery commit"
    else if is_shutting_down (phase c)
    then unhealthy "worker is shutting down"
    else if is_pre_active request.mode && not (is_quiescing (phase c))
    then unhealthy "pre-active health check requires quiesced Webex work admission"
    else if not (is_pre_active request.mode) && not (is_active (phase c))
    then unhealthy "worker is quiesced and not accepting Webex work"
    else record { healthy = true; message = none }

-- The worker reports healthy exactly when it has started and, before activation, nothing is
-- allowed and admission is quiesced, or, after it, admission is active; a message is given exactly
-- when it is not healthy.
pub health_check-healthy :
    (request : PluginHealthCheckRequest) (process_healthy : Bool) (c : LifecycleControl)
    → (let answer = health_check request process_healthy c in
        ((answer.healthy ≡ true) ↔ (
          (process_healthy ≡ true)
          × (((request.mode ≡ pre_active)
                × (request.allow_external_side_effects ≡ false)
                × (request.allow_cursor_advance ≡ false)
                × (request.allow_delivery_commit ≡ false)
                × (phase c ≡ quiescing))
              ⊎ ((request.mode ≡ active_mode) × (phase c ≡ active)))))
        × ((answer.healthy ≡ true) ↔ (answer.message ≡ none)))
unfolding health_check
health_check-healthy request process_healthy c = ground arith
