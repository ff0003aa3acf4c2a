-- ===== src/Handlers/Saving/Agreement.antt =====
-- crates/wxcd-worker/src/main.rs: each change of the worker state, against the event that is logged
-- for it.
use codex_webex_connector.Base.{
  ℕ, String, Bool, false, not, ◌||◌, Option, none, some, ◌≡◌, refl, sym, subst, ap, ◌∙◌, arith,
  ◌==◌, eq_iff, eq_refl, some_eq, inl, inr, Bool-cases, Option-cases,
}
use codex_webex_connector.Base.Dict
use codex_webex_connector.Base.Dict.{get-insert, get-remove, option_if}
use codex_webex_connector.Base.Dict.Entries.{get-retain, retain-IsKeyed}
use codex_webex_connector.Model.{
  SessionRecord, PendingApproval, Instant, session_created, session_updated, session_archived,
  session_purged, approval_requested, approval_resolved, ApprovalDecision,
}
use codex_webex_connector.EventLog.{ReplayState, apply, from_snapshot, mark_archived}
use codex_webex_connector.EventLog.Apply.{session_step, get-apply_sessions, get-apply_approvals}
use codex_webex_connector.EventLog.Snapshots.{from_snapshot-to_snapshot}
use codex_webex_connector.Worker
use codex_webex_connector.Worker.{
  WorkerState, to_replay_state, upsert_session, remove_session,
  remove_pending_approvals_for_session,
}
use codex_webex_connector.Worker.Indexes.{
  upsert_session-IsRouted, remove_session-IsRouted, SameRoutes-IsRouted,
}
use codex_webex_connector.Handlers.Archive.{archived_at}
use codex_webex_connector.Handlers.Saving.{durable, durable_of, IsSound, AgreesOn, Agrees}

-- a part of the state that soundness does not read
pub IsSound-count :
    (n : ℕ) (s : WorkerState) → IsSound s → IsSound (record s { events_since_snapshot = n })
IsSound-count n s h = record {
  routed =
      SameRoutes-IsRouted s (record s { events_since_snapshot = n }) (refl, refl, refl, refl)
        h.routed;
  approvals_keyed = h.approvals_keyed;
}

pub upsert_session-IsSound :
    (t : SessionRecord) (s : WorkerState) → IsSound s → IsSound (upsert_session t s)
unfolding upsert_session
upsert_session-IsSound t s h = record {
  routed = upsert_session-IsRouted t s h.routed;
  approvals_keyed = h.approvals_keyed;
}

-- a snapshot of a sound state, read back
pub to_snapshot-Agrees :
    (now : Instant) (s : WorkerState)
    → IsSound s
    → Agrees s (from_snapshot (Worker.to_snapshot now s))
unfolding Worker.to_snapshot to_replay_state from_snapshot
to_snapshot-Agrees now s h j =
    let found =
      from_snapshot-to_snapshot now (to_replay_state s) j
        (record { sessions_keyed = h.routed.keyed; approvals_keyed = h.approvals_keyed }) in
    (λ e. ap durable_of (sym found.0), λ e. sym found.1)

module _ (p q : String → Bool) (s : WorkerState) (r : ReplayState) where
  pub upsert_session-Agrees :
      (t : SessionRecord)
      → AgreesOn p q s r
      → AgreesOn
          (λ j. p j || t.session_id == j)
          q
          (upsert_session t s)
          (apply r (session_updated t))
  unfolding upsert_session
  upsert_session-Agrees t h j = (
    λ e. ground (
      arith,
      (h j).0,
      get-apply_sessions r j (session_updated t),
      get-insert t.session_id j t s.sessions,
    ),
    λ e. (h j).1 e ∙ sym (get-apply_approvals r j (session_updated t)),
  )

  pub upsert_created-Agrees :
      (t : SessionRecord)
      → AgreesOn p q s r
      → AgreesOn p q (upsert_session t s) (apply r (session_created t))
  unfolding upsert_session
  upsert_created-Agrees t h j = (
    λ e. ground (
      arith,
      (h j).0,
      get-apply_sessions r j (session_created t),
      get-insert t.session_id j t s.sessions,
    ),
    λ e. (h j).1 e ∙ sym (get-apply_approvals r j (session_created t)),
  )

  pub insert_approval-Agrees :
      (a : PendingApproval)
      → AgreesOn p q s r
      → AgreesOn p
          (λ j. q j || a.approval_id == j)
          (record s { pending_approvals = Dict.insert a.approval_id a s.pending_approvals })
          (apply r (approval_requested a))
  insert_approval-Agrees a h j = (
    λ e. (h j).0 e ∙ ap durable_of (sym (get-apply_sessions r j (approval_requested a))),
    λ e. ground (
      arith,
      (h j).1,
      get-apply_approvals r j (approval_requested a),
      get-insert a.approval_id j a s.pending_approvals,
    ),
  )

  pub remove_approval-Agrees :
      (id session_id : String) (d : ApprovalDecision) (at : Instant)
      → AgreesOn p q s r
      → AgreesOn p q
          (record s { pending_approvals = Dict.remove id s.pending_approvals })
          (apply r (approval_resolved id session_id d at))
  remove_approval-Agrees id session_id d at h j = (
    λ e.
        (h j).0 e
        ∙ ap durable_of (sym (get-apply_sessions r j (approval_resolved id session_id d at))),
    λ e. ground (
      arith,
      (h j).1,
      get-apply_approvals r j (approval_resolved id session_id d at),
      get-remove id j s.pending_approvals,
    ),
  )

archived-durable :
    (o : Option SessionRecord) (found : SessionRecord) (id : String) (now at : Instant)
    → durable_of (some found) ≡ durable_of o
    → durable_of (some (archived_at found now))
      ≡ durable_of (session_step id o (session_archived id at))
archived-durable none found id now at e = cc
archived-durable (some t) found id now at e =
    rw (eq_refl id) (ap (λ v. some (mark_archived v)) (some_eq (durable found) (durable t) e))

archived-elsewhere :
    (o : Option SessionRecord) (id j : String) (at : Instant)
    → (id == j) ≡ false
    → session_step j o (session_archived id at) ≡ o
archived-elsewhere none id j at e = refl
archived-elsewhere (some t) id j at e = rw e refl

module _ (s : WorkerState) (r : ReplayState) (id : String) (found : SessionRecord)
    (known : Dict.get s.sessions id ≡ some found) (named : found.session_id ≡ id) where
  pub archive-Agrees :
      (now at : Instant)
      → Agrees s r
      → Agrees
          (remove_pending_approvals_for_session id (upsert_session (archived_at found now) s))
          (apply r (session_archived id at))
  unfolding upsert_session remove_pending_approvals_for_session
  archive-Agrees now at h j =
      let archived_found : Dict.get
            (Dict.insert found.session_id (archived_at found now) s.sessions) id
          ≡ some (archived_at found now) =
        get-insert found.session_id id (archived_at found now) s.sessions
        ∙ rw ((eq_iff found.session_id id).1 named) refl in
      (
        λ e. elim (Bool-cases (id == j)) [
          | inl same ↦
              subst
                (λ k.
                  durable_of
                    (Dict.get (Dict.insert found.session_id (archived_at found now) s.sessions) k)
                  ≡ durable_of (Dict.get (apply r (session_archived id at)).sessions k))
                ((eq_iff id j).0 same)
                (ap durable_of archived_found
                  ∙ archived-durable (Dict.get r.sessions id) found id now at
                      (ap durable_of (sym known) ∙ (h id).0 refl)
                  ∙ ap durable_of (sym (get-apply_sessions r id (session_archived id at))))
          | inr other ↦ ground (
            arith,
            (h j).0,
            archived-elsewhere (Dict.get r.sessions j) id j at other,
            get-apply_sessions r j (session_archived id at),
            get-insert found.session_id j (archived_at found now) s.sessions,
          )
        ],
        λ e. ground (
          arith,
          (h j).1,
          get-apply_approvals r j (session_archived id at),
          get-retain (λ a. not (a.session_id == id)) j s.pending_approvals,
        ),
      )

  pub purge-Agrees :
      (at : Instant) → Agrees s r → Agrees (remove_session id s).0 (apply r (session_purged id at))
  unfolding remove_session remove_pending_approvals_for_session
  purge-Agrees at h j = rw known (
    λ e.
        ground (
          arith,
          (h j).0,
          get-apply_sessions r j (session_purged id at),
          get-remove id j s.sessions,
        ),
    λ e. ground (
      arith,
      (h j).1,
      get-apply_approvals r j (session_purged id at),
      get-retain (λ a. not (a.session_id == id)) j s.pending_approvals,
    ),
  )

pub remove_pending-IsSound :
    (id : String) (s : WorkerState)
    → IsSound s
    → IsSound (remove_pending_approvals_for_session id s)
unfolding remove_pending_approvals_for_session
remove_pending-IsSound id s h = record {
  routed =
      SameRoutes-IsRouted s (remove_pending_approvals_for_session id s) (refl, refl, refl, refl)
        h.routed;
  approvals_keyed =
      retain-IsKeyed (λ a. a.approval_id) (λ a. not (a.session_id == id)) s.pending_approvals
        h.approvals_keyed;
}

pub remove_session-IsSound :
    (id : String) (s : WorkerState) → IsSound s → IsSound (remove_session id s).0
unfolding remove_session remove_pending_approvals_for_session
remove_session-IsSound id s h = record {
  routed = remove_session-IsRouted id s h.routed;
  approvals_keyed = elim (Option-cases (Dict.get s.sessions id)) [
    | inl e ↦ rw e h.approvals_keyed
    | inr (t, e) ↦ rw e (
        retain-IsKeyed (λ a. a.approval_id) (λ a. not (a.session_id == id)) s.pending_approvals
          h.approvals_keyed)
  ];
}
