-- ===== src/Sessions/Probe.antt =====
-- crates/wxcd-worker/src/main.rs, `apply_thread_probe`: what the probe of its Codex thread makes of
-- a session. Messages are compared as whole texts.
use codex_webex_connector.Base.{
  String, Bool, true, false, not, ◌&&◌, Option, none, some, ◌≡◌, arith, ◌==◌, eq_iff, is_some,
  is_some_and, if◌then◌else◌,
}
use codex_webex_connector.Model.{
  Instant, SessionRecord, SessionState, SessionFailureKind, missing_thread, unreadable_thread,
  probe_unavailable, counts_as_archived, state_is_failed,
}

pub data ThreadProbeKind : Type 0 where
  readable missing unreadable unavailable : ThreadProbeKind

pub record ThreadProbe : Type 0 where
  pub kind : ThreadProbeKind
  pub message : String

abbrev pub same_kind : SessionFailureKind → SessionFailureKind → Bool
same_kind missing_thread missing_thread = true
same_kind unreadable_thread unreadable_thread = true
same_kind probe_unavailable probe_unavailable = true
same_kind _ _ = false

abbrev readable_probe : SessionRecord → String → Instant → Option SessionRecord
readable_probe s message detected_at =
    if not (is_some s.failure) && not (state_is_failed s.state)
    then none
    else some (record s {
      failure = none;
      state = if state_is_failed s.state then SessionState.idle else s.state;
      last_checkpoint = some message;
      updated_at = detected_at;
    })

abbrev failed_probe : SessionFailureKind → SessionRecord → String → Instant → Option SessionRecord
failed_probe kind s message detected_at =
    if state_is_failed s.state
      && is_some_and s.failure (λ f. same_kind f.kind kind && f.message == message)
    then none
    else some (record s {
      state = SessionState.failed;
      failure = some (record { kind = kind; message = message; detected_at = detected_at });
      last_checkpoint = some message;
      updated_at = detected_at;
    })

abbrev probe_by : ThreadProbeKind → SessionRecord → String → Instant → Option SessionRecord
probe_by readable = readable_probe
probe_by missing = failed_probe missing_thread
probe_by unreadable = failed_probe unreadable_thread
probe_by unavailable = failed_probe probe_unavailable

unfoldable pub apply_thread_probe : SessionRecord → ThreadProbe → Instant → Option SessionRecord
apply_thread_probe s probe detected_at =
    if counts_as_archived s then none else probe_by probe.kind s probe.message detected_at

-- the session after the probe, changed or not
abbrev pub probed : SessionRecord → ThreadProbe → Instant → SessionRecord
probed s probe detected_at = elim (apply_thread_probe s probe detected_at) [ none ↦ s | some t ↦ t ]

abbrev pub failed_iff : ThreadProbeKind → Bool
failed_iff readable = false
failed_iff _ = true

-- A probe never touches an archived session. Of any other it leaves a session that is failed
-- exactly if the thread was not readable, without failure data if it was readable, and archived no
-- more than before. Whatever the probe, nothing of a session changes but its state, its failure data,
-- its last checkpoint and the time of its last change.
pub apply_thread_probe_lem :
    (s : SessionRecord) (probe : ThreadProbe) (at : Instant)
    → (let t = probed s probe at in
        (counts_as_archived s ≡ true → t ≡ s)
        × (counts_as_archived s ≡ false
            → (state_is_failed t.state ≡ failed_iff probe.kind)
              × (probe.kind ≡ readable → t.failure ≡ none)
              × (counts_as_archived t ≡ false))
        × (t ≡ record s {
          state = t.state;
          failure = t.failure;
          last_checkpoint = t.last_checkpoint;
          updated_at = t.updated_at;
        }))
unfolding apply_thread_probe
apply_thread_probe_lem s probe at = ground arith

-- Probing again with the same answer changes nothing, whenever it comes.
pub apply_thread_probe_idem :
    (s : SessionRecord) (probe : ThreadProbe) (at later : Instant)
    → apply_thread_probe (probed s probe at) probe later ≡ none
unfolding apply_thread_probe
apply_thread_probe_idem s probe at later = ground (arith, eq_iff probe.message probe.message)
