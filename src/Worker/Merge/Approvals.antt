-- ===== src/Worker/Merge/Approvals.antt =====
-- crates/wxcd-worker/src/main.rs, `merge_local_pending_approvals`: which approvals it lets in.
use codex_webex_connector.Base.{
  String, Bool, true, false, Option, some, List, [], ◌∷◌, foldl, ◌≡◌, ◌⊎◌, inl, inr, refl, sym, ap,
  ◌∙◌, arith, ◌==◌, eq_iff, Bool-cases, Option-cases,
}
use codex_webex_connector.Base.Dict
use codex_webex_connector.Base.Dict.{Dict, get-insert}
use codex_webex_connector.Base.IdSet
use codex_webex_connector.Model.{SessionRecord, PendingApproval}
use codex_webex_connector.Sessions.{session_belongs_to_installation}
use codex_webex_connector.Worker.{WorkerState}
use codex_webex_connector.Worker.Merge.{
  local_approval_is_stale_against_remote, local_pending_approval_is_claimable, merge_approval,
  merge_local_pending_approvals,
}

-- all that the test of an approval reads of the state
abbrev SameBasis : WorkerState → WorkerState → Type 0
SameBasis s t =
    (t.sessions ≡ s.sessions)
    × (t.remote_resolved_approval_ids ≡ s.remote_resolved_approval_ids)
    × (t.remote_snapshot_created_at ≡ s.remote_snapshot_created_at)

claimable-SameBasis :
    (s t : WorkerState) (a : PendingApproval) (installation : String)
    → SameBasis s t
    → local_pending_approval_is_claimable t a installation
      ≡ local_pending_approval_is_claimable s a installation
unfolding local_pending_approval_is_claimable local_approval_is_stale_against_remote
claimable-SameBasis s t a installation (e, f, g) = rw (e, f, g) refl

module _ (s : WorkerState) (installation j : String) where
  -- the approval stays, or a claimable one of this identifier takes its place
  abbrev IsMerged : Option PendingApproval → Option PendingApproval → Type 0
  IsMerged before after =
      (after ≡ before)
      ⊎ ((a : PendingApproval) × (after ≡ some a)
          × (local_pending_approval_is_claimable s a installation ≡ true)
          × (a.approval_id ≡ j))

  IsMerged-trans : (x y z : Option PendingApproval) → IsMerged x y → IsMerged y z → IsMerged x z
  IsMerged-trans x y z h (inr new) = inr new
  IsMerged-trans x y z (inl same) (inl e) = inl (e ∙ same)
  IsMerged-trans x y z (inr (a, e, c, i)) (inl f) = inr (a, f ∙ e, c, i)

  merge_approval-others :
      (acc : WorkerState × Bool) (a : PendingApproval)
      → (a.approval_id == j) ≡ false
      → Dict.get (merge_approval installation acc a).0.pending_approvals j
        ≡ Dict.get acc.0.pending_approvals j
  unfolding merge_approval
  merge_approval-others acc a h =
      ground (arith, get-insert a.approval_id j a acc.0.pending_approvals)

  merge_approval_self :
      (acc : WorkerState × Bool) (a : PendingApproval)
      → (a.approval_id == j) ≡ true
      → (Dict.get (merge_approval installation acc a).0.pending_approvals j
          ≡ Dict.get acc.0.pending_approvals j)
        ⊎ ((Dict.get (merge_approval installation acc a).0.pending_approvals j ≡ some a)
            × (local_pending_approval_is_claimable acc.0 a installation ≡ true))
  unfolding merge_approval
  merge_approval_self acc a h = ground (arith, get-insert a.approval_id j a acc.0.pending_approvals)

  merge_approval-SameBasis :
      (acc : WorkerState × Bool) (a : PendingApproval)
      → SameBasis s acc.0
      → SameBasis s (merge_approval installation acc a).0
  unfolding merge_approval
  merge_approval-SameBasis acc a h = ground arith

  merge_approval-IsMerged :
      (acc : WorkerState × Bool) (a : PendingApproval)
      → SameBasis s acc.0
      → IsMerged
          (Dict.get acc.0.pending_approvals j)
          (Dict.get (merge_approval installation acc a).0.pending_approvals j)
  merge_approval-IsMerged acc a h = elim (Bool-cases (a.approval_id == j)) [
    | inr other ↦ inl (merge_approval-others acc a other)
    | inl here ↦ elim (merge_approval_self acc a here) [
      | inl same ↦ inl same
      | inr (new, ok) ↦ inr (
        a,
        new,
        sym (claimable-SameBasis s acc.0 a installation h) ∙ ok,
        (eq_iff a.approval_id j).0 here,
      )
    ]
  ]

  merge_approvals-IsMerged :
      (approvals : List PendingApproval) (acc : WorkerState × Bool)
      → SameBasis s acc.0
      → IsMerged
          (Dict.get acc.0.pending_approvals j)
          (Dict.get (foldl (merge_approval installation) acc approvals).0.pending_approvals j)
  merge_approvals-IsMerged [] acc h = inl refl
  merge_approvals-IsMerged (a ∷ approvals) acc h =
      let next = merge_approval installation acc a in
      IsMerged-trans (Dict.get acc.0.pending_approvals j) (Dict.get next.0.pending_approvals j)
        (Dict.get (foldl (merge_approval installation) next approvals).0.pending_approvals j)
        (merge_approval-IsMerged acc a h)
        (merge_approvals-IsMerged approvals next (merge_approval-SameBasis acc a h))

claimable-session :
    (s : WorkerState) (a : PendingApproval) (installation : String)
    → local_pending_approval_is_claimable s a installation ≡ true
    → (IdSet.contains s.remote_resolved_approval_ids a.approval_id ≡ false)
      × ((x : SessionRecord) × (Dict.get s.sessions a.session_id ≡ some x)
          × (session_belongs_to_installation x installation ≡ true)
          × (a.thread_id ≡ x.thread_id))
unfolding local_pending_approval_is_claimable local_approval_is_stale_against_remote
claimable-session s a installation h = elim (Option-cases (Dict.get s.sessions a.session_id)) [
  | inl e ↦ absurd (ground arith)
  | inr (x, e) ↦
      (ground arith, (x, e, ground arith, ground (arith, eq_iff a.thread_id x.thread_id)))
]

-- The merge of the local approvals changes a pending approval only to one of the same identifier
-- that was not resolved and whose session is known, this installation's, and of the same thread.
pub merge_local_pending_approvals_lem :
    (approvals : Dict PendingApproval) (installation : String) (s : WorkerState) (j : String)
    → (let after =
          Dict.get (merge_local_pending_approvals approvals installation s).0.pending_approvals j in
        (after ≡ Dict.get s.pending_approvals j)
        ⊎ ((a : PendingApproval) × (x : SessionRecord) × (after ≡ some a)
            × (a.approval_id ≡ j)
            × (IdSet.contains s.remote_resolved_approval_ids j ≡ false)
            × (Dict.get s.sessions a.session_id ≡ some x)
            × (session_belongs_to_installation x installation ≡ true)
            × (a.thread_id ≡ x.thread_id)))
unfolding merge_local_pending_approvals
merge_local_pending_approvals_lem approvals installation s j =
    elim (merge_approvals-IsMerged s installation j (Dict.values approvals) (s, false)
      (refl, refl, refl)) [
        | inl same ↦ inl same
        | inr (a, e, claimable, id) ↦
            let (open_, (x, found, ours, thread)) = claimable-session s a installation claimable in
            inr (
              a,
              x,
              e,
              id,
              sym (ap (λ k. IdSet.contains s.remote_resolved_approval_ids k) id) ∙ open_,
              found,
              ours,
              thread,
            )
      ]
