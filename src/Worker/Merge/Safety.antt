-- ===== src/Worker/Merge/Safety.antt =====
-- crates/wxcd-worker/src/main.rs, `merge_local_mirror` as a whole.
use codex_webex_connector.Base.{
  String, Bool, true, false, ◌||◌, List, [], ◌∷◌, foldl, ◌≡◌, refl, sym, ap, subst, ◌∙◌, arith,
}
use codex_webex_connector.Base.Dict
use codex_webex_connector.Base.Dict.{Dict, get-insert}
use codex_webex_connector.Base.Dict.Entries.{IsKeyed}
use codex_webex_connector.Base.IdSet
use codex_webex_connector.Model.{Instant, SessionRecord, PendingApproval}
use codex_webex_connector.EventLog.{ReplayState}
use codex_webex_connector.Sessions.{LocalMirrorClaimScope}
use codex_webex_connector.Worker.{WorkerState, rebuild_session_indexes}
use codex_webex_connector.Worker.Indexes.{IsRouted, rebuild_session_indexes-IsRouted}
use codex_webex_connector.Worker.Routing.{IsComplete, rebuild_session_indexes-IsComplete}
use codex_webex_connector.Worker.Merge.{
  merge_session, merge_approval, merge_local_pending_approvals, merge_local_mirror, rebuild_if,
}
use codex_webex_connector.Worker.Merge.Claims.{
  IsClaim, IsClaim-refl, IsClaim-trans, merge_session-IsClaim,
}
use codex_webex_connector.Worker.Merge.Rounds.{id_of, IsRound, merge_session-IsRound}

or_false_left : (a b : Bool) → (a || b) ≡ false → a ≡ false
or_false_left a b h = ground arith

or_false_right : (a b : Bool) → (a || b) ≡ false → b ≡ false
or_false_right a b h = ground arith

-- What a loop over sessions may do to the state that it started from.
record IsProgress (installation : String) (start : WorkerState) (acc : WorkerState × Bool)
    : Type 0 where
  purged : acc.0.remote_purged_session_ids ≡ start.remote_purged_session_ids
  keyed : IsKeyed id_of acc.0.sessions
  unchanged : acc.1 ≡ false → acc.0 ≡ start
  claims :
      (j : String)
      → IsClaim installation
          (IdSet.contains start.remote_purged_session_ids j)
          (Dict.get start.sessions j)
          (Dict.get acc.0.sessions j)

module _ (installation : String) (start : WorkerState) where
  round-IsProgress :
      (acc after : WorkerState × Bool)
      → IsRound acc after
      → ((j : String)
          → IsClaim installation
              (IdSet.contains acc.0.remote_purged_session_ids j)
              (Dict.get acc.0.sessions j)
              (Dict.get after.0.sessions j))
      → IsProgress installation start acc
      → IsProgress installation start after
  round-IsProgress acc after r c p = record {
    purged = r.purged ∙ p.purged;
    keyed = r.keyed p.keyed;
    unchanged = λ e.
        let same = r.unchanged e in
        ap (λ (x : WorkerState × Bool). x.0) same
        ∙ p.unchanged (ap (λ (x : WorkerState × Bool). x.1) (sym same) ∙ e);
    claims = λ j.
        IsClaim-trans installation _ (Dict.get start.sessions j) (Dict.get acc.0.sessions j)
          (Dict.get after.0.sessions j) (p.claims j)
          (subst
            (λ ids.
              IsClaim installation (IdSet.contains ids j) (Dict.get acc.0.sessions j)
                (Dict.get after.0.sessions j))
            p.purged (c j));
  }

  merge_sessions-IsProgress :
      (mirrored_at : Instant) (scope : LocalMirrorClaimScope) (locals : List SessionRecord)
      (acc : WorkerState × Bool)
      → IsProgress installation start acc
      → IsProgress installation start
          (foldl (merge_session installation mirrored_at scope) acc locals)
  merge_sessions-IsProgress mirrored_at scope [] acc p = p
  merge_sessions-IsProgress mirrored_at scope (t ∷ locals) acc p =
      merge_sessions-IsProgress mirrored_at scope locals
        (merge_session installation mirrored_at scope acc t)
        (round-IsProgress acc _ (merge_session-IsRound installation mirrored_at scope acc t)
          (merge_session-IsClaim installation mirrored_at scope acc t) p)

-- the second loop moves only the pending approvals, and reports when it does
record IsAside (start : WorkerState) (acc : WorkerState × Bool) : Type 0 where
  sessions : acc.0.sessions ≡ start.sessions
  unchanged : acc.1 ≡ false → acc.0 ≡ start

merge_approval-IsAside :
    (installation : String) (start : WorkerState) (acc : WorkerState × Bool) (a : PendingApproval)
    → IsAside start acc
    → IsAside start (merge_approval installation acc a)
unfolding merge_approval
merge_approval-IsAside installation start acc a h = ground arith

merge_approvals-IsAside :
    (installation : String) (start : WorkerState) (approvals : List PendingApproval)
    (acc : WorkerState × Bool)
    → IsAside start acc
    → IsAside start (foldl (merge_approval installation) acc approvals)
merge_approvals-IsAside installation start [] acc h = h
merge_approvals-IsAside installation start (a ∷ approvals) acc h =
    merge_approvals-IsAside installation start approvals (merge_approval installation acc a)
      (merge_approval-IsAside installation start acc a h)

abbrev first_loop :
    ReplayState → String → Instant → LocalMirrorClaimScope → WorkerState → WorkerState × Bool
first_loop replay installation mirrored_at scope s =
    foldl (merge_session installation mirrored_at scope) (s, false) (Dict.values replay.sessions)

first_loop-IsProgress :
    (replay : ReplayState) (installation : String) (mirrored_at : Instant)
    (scope : LocalMirrorClaimScope) (s : WorkerState)
    → IsKeyed id_of s.sessions
    → IsProgress installation s (first_loop replay installation mirrored_at scope s)
first_loop-IsProgress replay installation mirrored_at scope s keyed =
    merge_sessions-IsProgress installation s mirrored_at scope (Dict.values replay.sessions)
      (s, false)
      (record {
        purged = refl;
        keyed = keyed;
        unchanged = λ _. refl;
        claims = λ j. IsClaim-refl installation _ (Dict.get s.sessions j);
      })

second_loop-IsAside :
    (approvals : Dict PendingApproval) (installation : String) (s : WorkerState)
    → IsAside s (merge_local_pending_approvals approvals installation s)
unfolding merge_local_pending_approvals
second_loop-IsAside approvals installation s =
    merge_approvals-IsAside installation s (Dict.values approvals) (s, false)
      (record { sessions = refl; unchanged = λ _. refl })

pub rebuild_if-sessions :
    (changed : Bool) (s : WorkerState) → (rebuild_if changed s).sessions ≡ s.sessions
unfolding rebuild_session_indexes
rebuild_if-sessions true s = refl
rebuild_if-sessions false s = refl

-- Merging the local mirror makes of every session only what a claim may make of it: an unknown
-- session comes in as this installation's own and never after it was purged; a known one does not
-- go away, is left alone if its execution authority is another installation, stays archived if it was,
-- and belongs to this installation if it changed. A session without an authority may be taken over,
-- even if another installation mirrored it.
pub merge_local_mirror-IsClaim :
    (replay : ReplayState) (installation : String) (mirrored_at : Instant)
    (scope : LocalMirrorClaimScope) (s : WorkerState) (j : String)
    → IsKeyed id_of s.sessions
    → IsClaim installation
        (IdSet.contains s.remote_purged_session_ids j)
        (Dict.get s.sessions j)
        (Dict.get (merge_local_mirror replay installation mirrored_at scope s).0.sessions j)
unfolding merge_local_mirror
merge_local_mirror-IsClaim replay installation mirrored_at scope s j keyed =
    let s1 = first_loop replay installation mirrored_at scope s in
    let s2 = merge_local_pending_approvals replay.pending_approvals installation s1.0 in
    subst
      (λ m.
        IsClaim installation (IdSet.contains s.remote_purged_session_ids j) (Dict.get s.sessions j)
          (Dict.get m j))
      (sym (
        rebuild_if-sessions (s2.1 || s1.1) s2.0
        ∙ (second_loop-IsAside replay.pending_approvals installation s1.0).sessions))
      ((first_loop-IsProgress replay installation mirrored_at scope s keyed).claims j)

rebuild_if-IsRouted :
    (changed : Bool) (start s : WorkerState)
    → IsRouted start
    → (changed ≡ false → s ≡ start)
    → IsKeyed id_of s.sessions
    → IsRouted (rebuild_if changed s)
      × (changed ≡ true → IsComplete (rebuild_if changed s))
      × (changed ≡ false → rebuild_if changed s ≡ start)
rebuild_if-IsRouted true start s routed same keyed =
    (rebuild_session_indexes-IsRouted s keyed, (λ e. rebuild_session_indexes-IsComplete s), λ e. cc)
rebuild_if-IsRouted false start s routed same keyed =
    (subst IsRouted (sym (same refl)) routed, (λ e. cc), λ e. same e)

-- If every index entry leads to a session of its key that is to be indexed, the merge keeps that so. If
-- it reports a change, every session that is to be routed or indexed has an entry afterwards; if it
-- reports none, it has made none.
pub merge_local_mirror-IsRouted :
    (replay : ReplayState) (installation : String) (mirrored_at : Instant)
    (scope : LocalMirrorClaimScope) (s : WorkerState)
    → IsRouted s
    → (let (t, changed) = merge_local_mirror replay installation mirrored_at scope s in
        IsRouted t × (changed ≡ true → IsComplete t) × (changed ≡ false → t ≡ s))
unfolding merge_local_mirror
merge_local_mirror-IsRouted replay installation mirrored_at scope s routed =
    let s1 = first_loop replay installation mirrored_at scope s in
    let s2 = merge_local_pending_approvals replay.pending_approvals installation s1.0 in
    let first = first_loop-IsProgress replay installation mirrored_at scope s routed.keyed in
    let second = second_loop-IsAside replay.pending_approvals installation s1.0 in
    rebuild_if-IsRouted (s2.1 || s1.1) s s2.0 routed
      (λ e.
        second.unchanged (or_false_left s2.1 s1.1 e) ∙ first.unchanged (or_false_right s2.1 s1.1 e))
      (subst (IsKeyed id_of) (sym second.sessions) first.keyed)
