-- ===== src/Worker/Handoff/Steps.antt =====
-- `apply_webex_handoff_payload`: its loop over the sessions, and the loops that follow it.
use codex_webex_connector.Base.{
  String, Bool, true, false, Option, none, some, List, [], ◌∷◌, foldl, ◌≡◌, refl, sym, ap, subst,
  ◌∙◌, arith, if◌then◌else◌,
}
use codex_webex_connector.Base.Dict
use codex_webex_connector.Base.Dict.{Dict, get-insert}
use codex_webex_connector.Base.Dict.Entries.{IsKeyed}
use codex_webex_connector.Base.IdSet
use codex_webex_connector.Base.IdSet.{IdSet}
use codex_webex_connector.Model.{Instant, SessionRecord, PendingApproval}
use codex_webex_connector.Worker.{WorkerState, upsert_session}
use codex_webex_connector.Worker.Indexes.{
  IsRouted, SameRoutes, SameRoutes-trans, rebuild_session_indexes-IsRouted,
}
use codex_webex_connector.Worker.Recent.{merge_recent_event_ids}
use codex_webex_connector.Worker.Recent.Window.{merge_recent_event_ids-routes}
use codex_webex_connector.Worker.Merge.{merge_approval, merge_local_pending_approvals, rebuild_if}
use codex_webex_connector.Worker.Routing.{IsComplete, rebuild_session_indexes-IsComplete}
use codex_webex_connector.Worker.Merge.Rounds.{id_of, IsKeyed-insert_at}
use codex_webex_connector.Worker.Handoff.{
  Progress, replace, complete, adopt, import_known, import_session,
  reconcile_handoff_pending_approvals, with_missing,
}
use codex_webex_connector.Worker.Handoff.Rounds.{
  IsHandedOver, IsHandedOver-trans, import_session-IsHandedOver,
}

-- what one round leaves alone
record IsRound (p q : Progress) : Type 0 where
  purged : q.worker.remote_purged_session_ids ≡ p.worker.remote_purged_session_ids
  keyed : IsKeyed id_of p.worker.sessions → IsKeyed id_of q.worker.sessions
  unchanged : q.changed ≡ false → q ≡ p

IsRound-refl : (p : Progress) → IsRound p p
IsRound-refl p = record { purged = refl; keyed = λ h. h; unchanged = λ _. refl }

IsRound-if :
    (b : Bool) {p x y : Progress} → IsRound p x → IsRound p y → IsRound p (if b then x else y)
IsRound-if true h k = h
IsRound-if false h k = k

replace-IsRound : (local : SessionRecord) (p : Progress) → IsRound p (replace local p)
unfolding upsert_session
replace-IsRound local p = record {
  purged = refl;
  keyed = λ h. IsKeyed-insert_at local.session_id local p.worker.sessions refl h;
  unchanged = λ e. cc;
}

complete-IsRound :
    (installation : String) (local t : SessionRecord) (p : Progress)
    → Dict.get p.worker.sessions local.session_id ≡ some t
    → IsRound p (complete installation local t p)
complete-IsRound installation local t p e =
    IsRound-if _
      (record {
        purged = refl;
        keyed = λ h.
            IsKeyed-insert_at local.session_id (with_missing t installation local.local_mirror)
              p.worker.sessions (h local.session_id t e) h;
        unchanged = λ e. cc;
      })
      (IsRound-refl p)

import_known-IsRound :
    (installation : String) (flying : Bool) (local adopted : SessionRecord)
    (o : Option SessionRecord) (p : Progress)
    → Dict.get p.worker.sessions adopted.session_id ≡ o
    → IsRound p (import_known installation flying local adopted o p)
import_known-IsRound installation flying local adopted none p e =
    IsRound-if _ (IsRound-refl p) (replace-IsRound adopted p)
import_known-IsRound installation flying local adopted (some t) p e =
    IsRound-if _ (IsRound-refl p)
      (IsRound-if _ (replace-IsRound adopted p) (complete-IsRound installation adopted t p e))

import_session-IsRound :
    (installation : String) (mirrored_at : Instant) (ids : List String) (p : Progress)
    (local : SessionRecord)
    → IsRound p (import_session installation mirrored_at ids p local)
unfolding import_session
import_session-IsRound installation mirrored_at ids p local = IsRound-if _ (IsRound-refl p) (
    IsRound-if _ (IsRound-refl p) (
      import_known-IsRound installation _ local
        (adopt local installation
          (record { installation_id = installation; mirrored_at = mirrored_at }))
        _ p refl))

-- the loop over the exported sessions, from the state that it started from
pub record IsProgress (installation : String) (start : WorkerState) (p : Progress) : Type 0 where
  pub purged : p.worker.remote_purged_session_ids ≡ start.remote_purged_session_ids
  pub keyed : IsKeyed id_of p.worker.sessions
  pub unchanged : p.changed ≡ false → p.worker ≡ start
  pub sessions :
      (j : String)
      → IsHandedOver installation
          (IdSet.contains start.remote_purged_session_ids j)
          (Dict.get start.sessions j)
          (Dict.get p.worker.sessions j)

module _ (installation : String) (start : WorkerState) (mirrored_at : Instant)
    (ids : List String) where
  round-IsProgress :
      (p : Progress) (local : SessionRecord)
      → IsProgress installation start p
      → IsProgress installation start (import_session installation mirrored_at ids p local)
  round-IsProgress p local h =
      let r = import_session-IsRound installation mirrored_at ids p local in
      let q = import_session installation mirrored_at ids p local in
      record {
        purged = r.purged ∙ h.purged;
        keyed = r.keyed h.keyed;
        unchanged = λ e.
            let same = r.unchanged e in
            ap (λ (x : Progress). x.worker) same
            ∙ h.unchanged (ap (λ (x : Progress). x.changed) (sym same) ∙ e);
        sessions = λ j.
            IsHandedOver-trans installation _ (Dict.get start.sessions j)
              (Dict.get p.worker.sessions j) (Dict.get q.worker.sessions j) (h.sessions j)
              (subst
                (λ gone.
                  IsHandedOver installation (IdSet.contains gone j) (Dict.get p.worker.sessions j)
                    (Dict.get q.worker.sessions j))
                h.purged (import_session-IsHandedOver installation mirrored_at ids p local j));
      }

  pub import_sessions-IsProgress :
      (locals : List SessionRecord) (p : Progress)
      → IsProgress installation start p
      → IsProgress installation start (foldl (import_session installation mirrored_at ids) p locals)
  import_sessions-IsProgress [] p h = h
  import_sessions-IsProgress (t ∷ locals) p h =
      import_sessions-IsProgress locals (import_session installation mirrored_at ids p t)
        (round-IsProgress p t h)

-- the two loops over the approvals, and the event ids, leave the sessions and their indexes alone
merge_approvals-SameRoutes :
    (installation : String) (approvals : List PendingApproval) (acc : WorkerState × Bool)
    → SameRoutes acc.0 (foldl (merge_approval installation) acc approvals).0
unfolding merge_approval
merge_approvals-SameRoutes installation [] acc = (refl, refl, refl, refl)
merge_approvals-SameRoutes installation (a ∷ approvals) acc =
    SameRoutes-trans acc.0 (merge_approval installation acc a).0
      (foldl (merge_approval installation) (merge_approval installation acc a) approvals).0
      (ground arith)
      (merge_approvals-SameRoutes installation approvals (merge_approval installation acc a))

reconcile-SameRoutes :
    (ids : IdSet) (approvals : Dict PendingApproval) (installation : String) (s : WorkerState)
    → SameRoutes s (reconcile_handoff_pending_approvals ids approvals installation s).0
unfolding reconcile_handoff_pending_approvals
reconcile-SameRoutes ids approvals installation s = ground arith

merge-SameRoutes :
    (approvals : Dict PendingApproval) (installation : String) (s : WorkerState)
    → SameRoutes s (merge_local_pending_approvals approvals installation s).0
unfolding merge_local_pending_approvals
merge-SameRoutes approvals installation s =
    merge_approvals-SameRoutes installation (Dict.values approvals) (s, false)

-- the state before the indexes are rebuilt
abbrev pub unbuilt : String → Dict PendingApproval → List String → Progress → WorkerState
unbuilt installation approvals event_ids p =
    let s1 =
      (reconcile_handoff_pending_approvals p.authoritative approvals installation p.worker).0 in
    let s2 = (merge_local_pending_approvals approvals installation s1).0 in
    (merge_recent_event_ids event_ids s2).0

pub unbuilt-SameRoutes :
    (installation : String) (approvals : Dict PendingApproval) (event_ids : List String)
    (p : Progress)
    → SameRoutes p.worker (unbuilt installation approvals event_ids p)
unbuilt-SameRoutes installation approvals event_ids p =
    let s1 =
      (reconcile_handoff_pending_approvals p.authoritative approvals installation p.worker).0 in
    let s2 = (merge_local_pending_approvals approvals installation s1).0 in
    SameRoutes-trans p.worker s1 (unbuilt installation approvals event_ids p)
      (reconcile-SameRoutes p.authoritative approvals installation p.worker)
      (SameRoutes-trans s1 s2 (unbuilt installation approvals event_ids p)
        (merge-SameRoutes approvals installation s1) (merge_recent_event_ids-routes event_ids s2))

pub rebuilt-IsComplete :
    (b : Bool) (s : WorkerState) → (b ≡ false → IsComplete s) → IsComplete (rebuild_if b s)
rebuilt-IsComplete true s h = rebuild_session_indexes-IsComplete s
rebuilt-IsComplete false s h = h refl

pub SameRoutes-IsComplete : (s t : WorkerState) → SameRoutes s t → IsComplete s → IsComplete t
SameRoutes-IsComplete s t (a, b, c, d) h = rw (a, b, c, d) h

pub rebuilt-IsRouted :
    (b : Bool) (s : WorkerState)
    → IsKeyed id_of s.sessions
    → (b ≡ false → IsRouted s)
    → IsRouted (rebuild_if b s)
rebuilt-IsRouted true s keyed h = rebuild_session_indexes-IsRouted s keyed
rebuilt-IsRouted false s keyed h = h refl
