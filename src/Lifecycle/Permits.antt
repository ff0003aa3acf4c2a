-- ===== src/Lifecycle/Permits.antt =====
-- crates/wxcd-worker/src/main.rs, `LifecycleWorkPermit`: a permit is held for each admitted piece
-- of work and gives its place back once, by `finish` or by being dropped. The world is the control
-- and the permits handed out, newest first; any thread may finish or drop any of them at any time.
use codex_webex_connector.Base.{
  ℕ, zero, suc, ◌+◌, ◌-◌, ◌%◌, ◌≤◌, ◌<◌, Bool, true, false, Option, List, [], ◌∷◌, ◌≡◌, refl, arith,
  eqb, length, if◌then◌else◌, ◌↔◌, All,
}
use codex_webex_connector.Model.{Instant}
use codex_webex_connector.Lifecycle.{
  LifecycleControl, LifecycleAdmissionPhase, LifecyclePhaseState, u64_mod, new,
}
use codex_webex_connector.Lifecycle.Admission.{
  Admission, admitted, refused, try_begin_drainable_external_work,
  try_begin_drainable_external_work-counts,
}

pub record LifecycleWorkPermit : Type 0 where
  pub finished : Bool

-- `finish`; the flag says that the waiters were notified. `fetch_sub` wraps.
unfoldable pub finish :
    LifecycleWorkPermit → LifecycleControl → LifecycleWorkPermit × LifecycleControl × Bool
finish p c = if p.finished then (p, c, false) else (
  record { finished = true },
  record c { in_flight = (c.in_flight + u64_mod - 1) % u64_mod },
  eqb c.in_flight 1,
)

-- `drop` calls `finish`
abbrev pub drop_permit :
    LifecycleWorkPermit → LifecycleControl → LifecycleWorkPermit × LifecycleControl × Bool
drop_permit = finish

pub record World : Type 0 where
  pub control : LifecycleControl
  pub permits : List LifecycleWorkPermit

-- the permits with the one at index `i` finished, and what it does to the control
finish_at :
    ℕ → List LifecycleWorkPermit → LifecycleControl → List LifecycleWorkPermit × LifecycleControl
unfolding finish
finish_at i [] c = ([], c)
finish_at zero (p ∷ ps) c = let (q, d, _) = finish p c in (q ∷ ps, d)
finish_at (suc i) (p ∷ ps) c = let (qs, d) = finish_at i ps c in (p ∷ qs, d)

abbrev hand_out : Admission → List LifecycleWorkPermit → List LifecycleWorkPermit
hand_out admitted ps = record { finished = false } ∷ ps
hand_out (refused why) ps = ps

-- A thread begins work, finishes or drops a permit, or moves the phase by whatever method.
pub data Action : Type 0 where
  begin : Option Instant → Action
  finish_permit : ℕ → Action
  transition : LifecyclePhaseState → Action

unfoldable pub act : World → Action → World
unfolding finish_at
act w (begin received) =
    let (c, answer) = try_begin_drainable_external_work received w.control in
    record { control = c; permits = hand_out answer w.permits }
act w (finish_permit i) =
    let (ps, c) = finish_at i w.permits w.control in record { control = c; permits = ps }
act w (transition s) = record w { control = record w.control { state = s } }

unfoldable pub run : World → List Action → World
unfolding act
run w [] = w
run w (a ∷ rest) = run (act w a) rest

abbrev pub unfinished : List LifecycleWorkPermit → ℕ
unfinished [] = 0
unfinished (p ∷ ps) = (if p.finished then 0 else 1) + unfinished ps

unfinished-le-length : (ps : List LifecycleWorkPermit) → unfinished ps ≤ length ps
unfinished-le-length [] = omega arith
unfinished-le-length (p ∷ ps) = ground (arith, unfinished-le-length ps)

abbrev IsCounted : ℕ → List LifecycleWorkPermit → LifecycleControl → Type 0
IsCounted k ps c = c.in_flight ≡ k + unfinished ps

-- `k` stands for the permits before these
finish_at-IsCounted :
    (i k : ℕ) (ps : List LifecycleWorkPermit) (c : LifecycleControl)
    → k + length ps < u64_mod
    → IsCounted k ps c
    → (let (qs, d) = finish_at i ps c in IsCounted k qs d × (length qs ≡ length ps))
unfolding finish_at
finish_at-IsCounted i k [] c b h = (h, refl)
finish_at-IsCounted zero k (p ∷ ps) c b h = ground (arith, unfinished-le-length ps)
finish_at-IsCounted (suc i) k (p ∷ ps) c b h =
    let ih =
      finish_at-IsCounted i (k + (if p.finished then 0 else 1)) ps c (ground arith)
        (ground arith) in
    (omega (arith, ih.0), omega (arith, ih.1))

act-IsCounted :
    (w : World) (a : Action)
    → length w.permits + 1 < u64_mod
    → IsCounted 0 w.permits w.control
    → (IsCounted 0 (act w a).permits (act w a).control)
      × (length (act w a).permits ≤ length w.permits + 1)
unfolding act
act-IsCounted w (begin received) b h = ground (
  arith,
  try_begin_drainable_external_work-counts received w.control,
  unfinished-le-length w.permits,
)
act-IsCounted w (finish_permit i) b h =
    omega (arith, finish_at-IsCounted i 0 w.permits w.control (omega arith) h)
act-IsCounted w (transition s) b h = omega arith

run-IsCounted :
    (actions : List Action) (w : World)
    → length w.permits + length actions < u64_mod
    → IsCounted 0 w.permits w.control
    → IsCounted 0 (run w actions).permits (run w actions).control
unfolding run
run-IsCounted [] w b h = h
run-IsCounted (a ∷ rest) w b h =
    let (counted, longer) = act-IsCounted w a (omega arith) h in
    run-IsCounted rest (act w a) (omega arith) counted

abbrev pub AllFinished : List LifecycleWorkPermit → Type 0
AllFinished = All (λ p. p.finished ≡ true)

unfinished-zero : (ps : List LifecycleWorkPermit) → (unfinished ps ≡ 0) ↔ AllFinished ps
unfinished-zero [] = (λ _. tt, λ _. refl)
unfinished-zero (p ∷ ps) = ground (arith, unfinished-zero ps)

-- From a fresh control, through any fewer than 2 ^ 64 actions of any threads, the counter is the
-- number of permits not yet finished, however often one was finished; so it is zero exactly when
-- every permit was given back.
pub run-in_flight :
    (initial_phase : LifecycleAdmissionPhase) (now : Instant) (actions : List Action)
    → length actions < u64_mod
    → (let w = run (record { control = new initial_phase now; permits = [] }) actions in
        (w.control.in_flight ≡ unfinished w.permits)
        × ((w.control.in_flight ≡ 0) ↔ AllFinished w.permits))
unfolding new
run-in_flight initial_phase now actions b =
    let counted =
      run-IsCounted actions (record { control = new initial_phase now; permits = [] }) (omega arith)
        refl in
    let permits =
      (run (record { control = new initial_phase now; permits = [] }) actions).permits in
    (omega arith, ground (arith, unfinished-zero permits))
