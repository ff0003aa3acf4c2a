-- ===== src/EventLog/Apply.antt =====
-- crates/wxcd-eventlog/src/lib.rs, `ReplayState::apply`, seen from one session, one approval, and
-- the sets of tombstones.
use codex_webex_connector.Base.{
  String, Bool, true, false, not, sym, All, Option, none, some, List, [], ◌∷◌, foldl, ◌≡◌, refl,
  ◌∙◌, ap, arith, ◌==◌, eq_iff, eq_refl, if◌then◌else◌,
}
use codex_webex_connector.Base.Dict
use codex_webex_connector.Base.Dict.{Dict, option_if, get-insert, get-remove}
use codex_webex_connector.Base.Dict.Entries.{IsKeyed, get-retain}
use codex_webex_connector.Base.IdSet
use codex_webex_connector.Base.IdSet.{contains-insert, contains-remove}
use codex_webex_connector.Model.{
  SessionRecord, accept, accept_for_session, decline, cancel, PendingApproval, BridgeEvent,
  session_created, session_updated, session_archived, session_purged, approval_requested,
  approval_resolved, Instant,
}
use codex_webex_connector.EventLog.{ReplayState, mark_archived, update_at, apply}

-- What an event does to the session `j`, given what is known of `j` and nothing else.
abbrev pub session_step : String → Option SessionRecord → BridgeEvent → Option SessionRecord
session_step j o (session_created s) = if s.session_id == j then some s else o
session_step j o (session_updated s) = if s.session_id == j then some s else o
session_step j none (session_archived id at) = none
session_step j (some s) (session_archived id at) = some (if id == j then mark_archived s else s)
session_step j o (session_purged id at) = if id == j then none else o
session_step j o (approval_requested a) = o
session_step j o (approval_resolved id sid d at) = o

-- What an event does to the pending approval `j`.
abbrev pub approval_step : String → Option PendingApproval → BridgeEvent → Option PendingApproval
approval_step j o (session_created s) = o
approval_step j o (session_updated s) = o
approval_step j o (session_archived id at) = option_if (λ a. not (a.session_id == id)) o
approval_step j o (session_purged id at) = option_if (λ a. not (a.session_id == id)) o
approval_step j o (approval_requested a) = if a.approval_id == j then some a else o
approval_step j o (approval_resolved id sid d at) = if id == j then none else o

get-update_at :
    (id j : String) (o : Option SessionRecord) (m : Dict SessionRecord) (at : Instant)
    → Dict.get m id ≡ o
    → Dict.get (update_at id o m) j ≡ session_step j (Dict.get m j) (session_archived id at)
get-update_at id j none m at e = ground (arith, eq_iff id j)
get-update_at id j (some t) m at e =
    ground (arith, eq_iff id j, get-insert id j (mark_archived t) m)

module _ (s : ReplayState) (j : String) where
  pub get-apply_sessions :
      (e : BridgeEvent) → Dict.get (apply s e).sessions j ≡ session_step j (Dict.get s.sessions j) e
  unfolding apply
  get-apply_sessions (session_created t) = get-insert t.session_id j t s.sessions
  get-apply_sessions (session_updated t) = get-insert t.session_id j t s.sessions
  get-apply_sessions (session_archived id at) =
      get-update_at id j (Dict.get s.sessions id) s.sessions at refl
  get-apply_sessions (session_purged id at) = get-remove id j s.sessions
  get-apply_sessions (approval_requested a) = refl
  get-apply_sessions (approval_resolved id sid d at) = ground arith

  pub get-apply_approvals :
      (e : BridgeEvent)
      → Dict.get (apply s e).pending_approvals j
        ≡ approval_step j (Dict.get s.pending_approvals j) e
  unfolding apply
  get-apply_approvals (session_created t) = refl
  get-apply_approvals (session_updated t) = refl
  get-apply_approvals (session_archived id at) = get-retain _ j s.pending_approvals
  get-apply_approvals (session_purged id at) = get-retain _ j s.pending_approvals
  get-apply_approvals (approval_requested a) = get-insert a.approval_id j a s.pending_approvals
  get-apply_approvals (approval_resolved id sid accept at) = get-remove id j s.pending_approvals
  get-apply_approvals (approval_resolved id sid accept_for_session at) =
      get-remove id j s.pending_approvals
  get-apply_approvals (approval_resolved id sid decline at) = get-remove id j s.pending_approvals
  get-apply_approvals (approval_resolved id sid cancel at) = get-remove id j s.pending_approvals

-- each session and each approval stands under its own identifier
pub record IsConsistent (s : ReplayState) : Type 0 where
  pub sessions_keyed : IsKeyed (λ t. t.session_id) s.sessions
  pub approvals_keyed : IsKeyed (λ a. a.approval_id) s.pending_approvals

session_step-keyed :
    (j : String) (o : Option SessionRecord) (e : BridgeEvent) (v : SessionRecord)
    → ((w : SessionRecord) → o ≡ some w → w.session_id ≡ j)
    → session_step j o e ≡ some v
    → v.session_id ≡ j
session_step-keyed j o (session_created s) v h e = ground (arith, eq_iff s.session_id j, h v)
session_step-keyed j o (session_updated s) v h e = ground (arith, eq_iff s.session_id j, h v)
session_step-keyed j none (session_archived id at) v h e = cc
session_step-keyed j (some s) (session_archived id at) v h e = ground (arith, h s refl)
session_step-keyed j o (session_purged id at) v h e = ground (arith, h v)
session_step-keyed j o (approval_requested a) v h e = h v e
session_step-keyed j o (approval_resolved id sid d at) v h e = h v e

approval_step-keyed :
    (j : String) (o : Option PendingApproval) (e : BridgeEvent) (v : PendingApproval)
    → ((w : PendingApproval) → o ≡ some w → w.approval_id ≡ j)
    → approval_step j o e ≡ some v
    → v.approval_id ≡ j
approval_step-keyed j o (session_created s) v h e = h v e
approval_step-keyed j o (session_updated s) v h e = h v e
approval_step-keyed j o (session_archived id at) v h e = h v (ground arith)
approval_step-keyed j o (session_purged id at) v h e = h v (ground arith)
approval_step-keyed j o (approval_requested a) v h e = ground (arith, eq_iff a.approval_id j, h v)
approval_step-keyed j o (approval_resolved id sid d at) v h e = ground (arith, h v)

pub apply-IsConsistent :
    (s : ReplayState) (e : BridgeEvent) → IsConsistent s → IsConsistent (apply s e)
apply-IsConsistent s e h = record {
  sessions_keyed = λ j v f.
      session_step-keyed j (Dict.get s.sessions j) e v (h.sessions_keyed j)
        (sym (get-apply_sessions s j e) ∙ f);
  approvals_keyed = λ j v f.
      approval_step-keyed j (Dict.get s.pending_approvals j) e v (h.approvals_keyed j)
        (sym (get-apply_approvals s j e) ∙ f);
}

-- What a list of events makes of the state is, for each session and each approval by itself, what
-- its own events make of it.
pub foldl-apply_pointwise :
    (s : ReplayState) (es : List BridgeEvent) (j : String)
    → (Dict.get (foldl apply s es).sessions j ≡ foldl (session_step j) (Dict.get s.sessions j) es)
      × (Dict.get (foldl apply s es).pending_approvals j
          ≡ foldl (approval_step j) (Dict.get s.pending_approvals j) es)
foldl-apply_pointwise s [] j = (refl, refl)
foldl-apply_pointwise s (e ∷ es) j =
    let ih = foldl-apply_pointwise (apply s e) es j in
    (
      ih.0 ∙ ap (λ o. foldl (session_step j) o es) (get-apply_sessions s j e),
      ih.1 ∙ ap (λ o. foldl (approval_step j) o es) (get-apply_approvals s j e),
    )

-- the events that bring a session into being again
abbrev pub writes : String → BridgeEvent → Bool
writes j (session_created s) = s.session_id == j
writes j (session_updated s) = s.session_id == j
writes j _ = false

session_step-none :
    (j : String) (e : BridgeEvent) → writes j e ≡ false → session_step j none e ≡ none
session_step-none j (session_created s) h = ground arith
session_step-none j (session_updated s) h = ground arith
session_step-none j (session_archived id at) h = refl
session_step-none j (session_purged id at) h = ground arith
session_step-none j (approval_requested a) h = refl
session_step-none j (approval_resolved id sid d at) h = refl

foldl-session_step-none :
    (j : String) (es : List BridgeEvent)
    → All (λ e. writes j e ≡ false) es
    → foldl (session_step j) none es ≡ none
foldl-session_step-none j [] h = refl
foldl-session_step-none j (e ∷ es) h =
    ap (λ o. foldl (session_step j) o es) (session_step-none j e h.0)
    ∙ foldl-session_step-none j es h.1

apply-purged :
    (j : String) (s : ReplayState) (e : BridgeEvent)
    → IdSet.contains s.purged_session_ids j ≡ true
    → IdSet.contains (apply s e).purged_session_ids j ≡ true
unfolding apply
apply-purged j s (session_purged id at) h =
    ground (arith, contains-insert id j s.purged_session_ids)
apply-purged j s (approval_resolved id sid d at) h = ground arith
apply-purged j s _ h = h

foldl-apply-purged :
    (j : String) (es : List BridgeEvent) (s : ReplayState)
    → IdSet.contains s.purged_session_ids j ≡ true
    → IdSet.contains (foldl apply s es).purged_session_ids j ≡ true
foldl-apply-purged j [] s h = h
foldl-apply-purged j (e ∷ es) s h = foldl-apply-purged j es (apply s e) (apply-purged j s e h)

-- After a session is purged, and whatever events follow that neither create nor update it, the
-- session is absent and its tombstone is kept.
pub purge_is_final :
    (s : ReplayState) (id : String) (at : Instant) (es : List BridgeEvent)
    → All (λ e. writes id e ≡ false) es
    → (let t = foldl apply (apply s (session_purged id at)) es in
        (Dict.get t.sessions id ≡ none) × (IdSet.contains t.purged_session_ids id ≡ true))
purge_is_final s id at es h = (
  (foldl-apply_pointwise (apply s (session_purged id at)) es id).0
      ∙ ap (λ o. foldl (session_step id) o es)
          (get-apply_sessions s id (session_purged id at) ∙ rw (eq_refl id) refl)
      ∙ foldl-session_step-none id es h,
  foldl-apply-purged id es (apply s (session_purged id at))
      (unfold apply in rw (contains-insert, eq_refl)),
)
