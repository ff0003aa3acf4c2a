-- ===== src/Handlers/Saving/Requests.antt =====
-- crates/wxcd-worker/src/main.rs, `build_pending_approval` and `request_approval`: a request that
-- succeeds leaves the log and the local snapshot in agreement with the worker. The approval is put in
-- before it is logged, and what fails in between leaves it in the worker only.
use codex_webex_connector.Base.{
  String, Bool, not, Option, none, some, [], ◌∷◌, ◌≡◌, refl, sym, ap, ◌∙◌, arith, ◌==◌, eq_iff,
}
use codex_webex_connector.Base.Dict
use codex_webex_connector.Base.Dict.{get-insert}
use codex_webex_connector.Base.Dict.Entries.{insert-IsKeyed}
use codex_webex_connector.Json.{Json, json_str}
use codex_webex_connector.Model.{
  ApprovalKind, PendingApproval, SessionRecord, BridgeSnapshot, session_updated, approval_requested,
}
use codex_webex_connector.EventLog.{ReplayState, apply}
use codex_webex_connector.EventLog.Apply.{get-apply_sessions, get-apply_approvals}
use codex_webex_connector.Worker.{WorkerState, upsert_session}
use codex_webex_connector.Worker.Indexes.{SameRoutes-IsRouted}
use codex_webex_connector.Effects.{Services, require, bad_input, approval_card, create_message}
use codex_webex_connector.Effects.Logic.{Condition, Triple}
use codex_webex_connector.Effects.Logic.Rules.{
  via, pure-Triple, fail-Triple, require-Triple, webex-Triple, clock-Triple, fresh_suffix-Triple,
  modify-Triple, get_worker-Triple, weaken-Triple, both-Triple,
}
use codex_webex_connector.Handlers.{AppConfig, save_session}
use codex_webex_connector.Handlers.Approvals.{
  build_pending_approval, request_approval, mark_waiting, waiting,
}
use codex_webex_connector.Handlers.Saving.{
  IsSound, AgreesOn, Agrees, everything, Logged, LoggedOn, Saved, Sound, durable_of,
}
use codex_webex_connector.Handlers.Saving.Persist.{
  persist_event-Triple, persist_framed-Triple, refresh-Triple,
}
use codex_webex_connector.Handlers.Saving.Sessions.{
  Logged-IsKept, lookup-Triple, save_session-Triple,
}

abbrev Holds : PendingApproval → WorkerState → Type 0
Holds a s = Dict.get s.pending_approvals a.approval_id ≡ some a

abbrev but : PendingApproval → String → Bool
but a j = not (a.approval_id == j)

-- the approval is in the worker, and the log holds the rest
abbrev Put : PendingApproval → Condition
Put a s r f = LoggedOn everything (but a) s r f × Holds a s

abbrev with_approval : PendingApproval → WorkerState → WorkerState
with_approval a s = record s { pending_approvals = Dict.insert a.approval_id a s.pending_approvals }

with_approval-IsSound :
    (a : PendingApproval) (s : WorkerState) → IsSound s → IsSound (with_approval a s)
with_approval-IsSound a s h = record {
  routed = SameRoutes-IsRouted s (with_approval a s) (refl, refl, refl, refl) h.routed;
  approvals_keyed = insert-IsKeyed (λ b. b.approval_id) a s.pending_approvals h.approvals_keyed;
}

with_approval-Agrees :
    (a : PendingApproval) (s : WorkerState) (r : ReplayState)
    → Agrees s r
    → AgreesOn everything (but a) (with_approval a s) r
with_approval-Agrees a s r h j =
    ((h j).0, λ e. ground (arith, (h j).1, get-insert a.approval_id j a s.pending_approvals))

-- with the request logged, all agrees
put_logged :
    (a : PendingApproval) (s : WorkerState) (r : ReplayState)
    → AgreesOn everything (but a) s r
    → Holds a s
    → Agrees s (apply r (approval_requested a))
put_logged a s r h held j = (
  λ e. (h j).0 e ∙ ap durable_of (sym (get-apply_sessions r j (approval_requested a))),
  λ e. ground (
    arith,
    (h j).1,
    held,
    eq_iff a.approval_id j,
    get-apply_approvals r j (approval_requested a),
  ),
)

module _ {services : Services} {start : ReplayState} {file : Option BridgeSnapshot} where
  pub read-Triple :
      {P : Condition} {A : Type 0} (o : Option A)
      → Triple services start file P (require o bad_input) (λ _. P) P
  read-Triple o = require-Triple o bad_input (λ a e. pure-Triple a) (fail-Triple bad_input)

  pub build_pending_approval-Triple :
      {P : Condition} (id : Json) (kind : ApprovalKind) (params : Json)
      → Triple services start file P (build_pending_approval services id kind params) (λ _. P) P
  unfolding build_pending_approval
  build_pending_approval-Triple {P} id kind params =
      via (λ _. P)
        (weaken-Triple (get_worker-Triple {P = P} {E = P}) (λ s r f h. h) (λ _ s r f h. h.1)
          (λ s r f h. h))
        λ worker.
          via (λ _. P) (read-Triple (json_str params ("threadId" ∷ [])))
            λ thread_id.
              via (λ _. P) (read-Triple (Dict.get worker.thread_to_session thread_id))
                λ session_id.
                  via (λ _. P) fresh_suffix-Triple
                    λ suffix.
                      via (λ _. P) (read-Triple (json_str params ("turnId" ∷ [])))
                        λ turn_id.
                          via (λ _. P) (read-Triple (json_str params ("itemId" ∷ [])))
                            λ item_id. via (λ _. P) clock-Triple λ now. pure-Triple _

  module _ (config : AppConfig) where
    hold-Triple :
        (a : PendingApproval) (t : SessionRecord)
        → Triple services start file
            (λ s r f. Holds a s)
            (save_session services config t)
            (λ _ s r f. Holds a s)
            (λ s r f. Holds a s)
    unfolding save_session upsert_session
    hold-Triple a t =
        via (λ _ s r f. Holds a s) (modify-Triple (upsert_session t) λ s r f h. h)
          λ _. persist_framed-Triple (Holds a) (λ k s h. h) config (session_updated t)

    mark_waiting-Triple :
        (a : PendingApproval) (o : Option SessionRecord)
        → Triple services start file (Put a) (mark_waiting services config o) (λ _. Put a) Sound
    mark_waiting-Triple a none = pure-Triple tt
    mark_waiting-Triple a (some session) =
        via (λ _. Put a) clock-Triple
          λ now.
            via (λ _. Put a)
              (weaken-Triple
                (both-Triple
                  (save_session-Triple config {p = everything} {q = but a} (waiting session now))
                  (hold-Triple a (waiting session now)))
                (λ s r f h. h) (λ _ s r f h. ((h.0.0, h.0.1), h.1)) (λ s r f h. h.0.0))
              λ _. refresh-Triple (waiting session now)

    pub request_approval-Triple :
        (a : PendingApproval)
        → Triple services start file Logged (request_approval services config a) (λ _. Saved) Sound
    unfolding request_approval
    request_approval-Triple asked =
        via (λ seen s r f. (s ≡ seen) × Logged s r f) get_worker-Triple
          λ worker.
            via (λ _. Logged)
              (weaken-Triple
                (lookup-Triple config Logged-IsKept (λ s. Dict.get s.sessions asked.session_id)
                  worker bad_input)
                (λ s r f h. h) (λ _ s r f h. h.1) (λ s r f h. h.0))
              λ session.
                via (λ _. Logged)
                  (weaken-Triple
                    (webex-Triple {P = Logged}
                      (create_message session.session_room_id (approval_card asked)))
                    (λ s r f h. h) (λ _ s r f h. h) (λ s r f h. h.0))
                  λ card.
                    let a = record asked { card_message_id = some card.id } in
                    via (λ _. Put a)
                      (modify-Triple (with_approval a) λ s r f (h, b). (
                        (with_approval-IsSound a s h, with_approval-Agrees a s r b),
                        ground (
                          arith,
                          eq_iff a.approval_id a.approval_id,
                          get-insert a.approval_id a.approval_id a s.pending_approvals,
                        ),
                      ))
                      λ _.
                        via (λ _. Put a)
                          (weaken-Triple (get_worker-Triple {P = Put a} {E = Sound}) (λ s r f h. h)
                            (λ _ s r f h. h.1) (λ s r f h. h))
                          λ known.
                            via (λ _. Put a)
                              (mark_waiting-Triple a (Dict.get known.sessions a.session_id))
                              λ _.
                                weaken-Triple
                                  (persist_event-Triple config everything everything
                                    (approval_requested a))
                                  (λ s r f ((h, b), held). (h, put_logged a s r b held))
                                  (λ _ s r f h. h) (λ s r f h. h.0)
