-- ===== src/Handlers/Saving/Approvals.antt =====
-- crates/wxcd-worker/src/main.rs, `request_approval` and `resolve_approval`: they leave the log and
-- the local snapshot in agreement with the worker. An approval is put in before it is logged, and
-- what fails in between leaves it in the worker only.
use codex_webex_connector.Base.{String, Option, none, some, ◌≡◌, refl}
use codex_webex_connector.Base.Dict
use codex_webex_connector.Base.Dict.{get-insert}
use codex_webex_connector.Base.Dict.Entries.{remove-IsKeyed}
use codex_webex_connector.Model.{
  ApprovalKind, ApprovalDecision, accept, accept_for_session, decline, cancel, command_execution,
  file_change, permissions, Instant, PendingApproval, SessionRecord, BridgeSnapshot,
  approval_resolved,
}
use codex_webex_connector.EventLog.{ReplayState, apply}
use codex_webex_connector.Worker.{WorkerState}
use codex_webex_connector.Worker.Indexes.{SameRoutes-IsRouted}
use codex_webex_connector.Effects.{
  Services, bad_input, resolved_notice, respond, respond_error, permission_declined,
  permission_cancelled, CodexCall, codex, call, pure, ◌>>◌,
}
use codex_webex_connector.Effects.Logic.{Condition, Triple}
use codex_webex_connector.Effects.Logic.Rules.{
  via, pure-Triple, fail-Triple, require-Triple, codex-Triple, clock-Triple, modify-Triple,
  get_worker-Triple, weaken-Triple,
}
use codex_webex_connector.Handlers.{AppConfig}
use codex_webex_connector.Handlers.Approvals.{
  parse_decision, resolve_approval, answer_codex, answer_by, answer_permissions, decision_body,
  grant, mark_running, running_again,
}
use codex_webex_connector.Handlers.Saving.{IsSound, Agrees, everything, Logged, Saved}
use codex_webex_connector.Handlers.Saving.Agreement.{remove_approval-Agrees}
use codex_webex_connector.Handlers.Saving.Persist.{
  persist_event-Triple, refresh-Triple, send-Triple,
}
use codex_webex_connector.Handlers.Saving.Sessions.{
  IsKept, Logged-IsKept, saved-Triple, lookup-Triple, save_session-Triple,
}

remove_approval-IsSound :
    (id : String) (s : WorkerState)
    → IsSound s
    → IsSound (record s { pending_approvals = Dict.remove id s.pending_approvals })
remove_approval-IsSound id s h = record {
  routed =
      SameRoutes-IsRouted s (record s { pending_approvals = Dict.remove id s.pending_approvals })
        (refl, refl, refl, refl) h.routed;
  approvals_keyed = remove-IsKeyed (λ a. a.approval_id) id s.pending_approvals h.approvals_keyed;
}

-- the resolution has only to be logged
abbrev Resolved : String → String → ApprovalDecision → Condition
Resolved id session_id d s r f =
    IsSound s × ((at : Instant) → Agrees s (apply r (approval_resolved id session_id d at)))

module _ {services : Services} {start : ReplayState} {file : Option BridgeSnapshot} where
  respond-Triple :
      {P : Condition} (c : CodexCall)
      → Triple services start file P (call services (codex c) >> pure tt) (λ _. P) P
  respond-Triple {P} c = via (λ _. P) (codex-Triple c) λ _. pure-Triple tt

  answer_permissions-Triple :
      {P : Condition} (a : PendingApproval) (d : ApprovalDecision)
      → Triple services start file P (answer_permissions services a d) (λ _. P) P
  answer_permissions-Triple a accept =
      respond-Triple (respond a.codex_request_id (grant a.requested_permissions "turn"))
  answer_permissions-Triple a accept_for_session =
      respond-Triple (respond a.codex_request_id (grant a.requested_permissions "session"))
  answer_permissions-Triple a decline =
      respond-Triple (respond_error a.codex_request_id permission_declined)
  answer_permissions-Triple a cancel =
      respond-Triple (respond_error a.codex_request_id permission_cancelled)

  answer_by-Triple :
      {P : Condition} (kind : ApprovalKind) (a : PendingApproval) (d : ApprovalDecision)
      → Triple services start file P (answer_by services kind a d) (λ _. P) P
  answer_by-Triple command_execution a d =
      respond-Triple (respond a.codex_request_id (decision_body d))
  answer_by-Triple file_change a d = respond-Triple (respond a.codex_request_id (decision_body d))
  answer_by-Triple permissions a d = answer_permissions-Triple a d

  answer_codex-Triple :
      {P : Condition} (a : PendingApproval) (d : ApprovalDecision)
      → Triple services start file P (answer_codex services a d) (λ _. P) P
  unfolding answer_codex
  answer_codex-Triple a d = answer_by-Triple a.kind a d

  module _ (config : AppConfig) where
    mark_running-Triple :
        (id decision : String) (o : Option SessionRecord)
        → Triple services start file Saved
            (mark_running services config id decision o)
            (λ _. Saved)
            Logged
    mark_running-Triple id decision none = pure-Triple tt
    mark_running-Triple id decision (some session) =
        via (λ _. Saved) clock-Triple
          λ now.
            via (λ _. Saved)
              (weaken-Triple
                (save_session-Triple config {p = everything} {q = everything}
                  (running_again session now))
                (λ s r f h. (h.0, h.1)) (λ _ s r f h. h) (λ s r f h. h))
              λ _.
                via (λ _. Saved) (refresh-Triple (running_again session now))
                  λ _.
                    weaken-Triple
                      (send-Triple session.session_room_id (resolved_notice id decision))
                      (λ s r f h. h) (λ _ s r f h. h) (λ s r f h. (h.0, h.1))

    resolve-Triple :
        (id decision : String)
        → Triple services start file Logged
            (resolve_approval services config id decision)
            (λ _. Saved)
            Logged
    unfolding resolve_approval
    resolve-Triple id decision =
        via (λ seen s r f. (s ≡ seen) × Logged s r f) get_worker-Triple
          λ worker.
            via (λ a s r f. (Dict.get s.pending_approvals id ≡ some a) × Logged s r f)
              (lookup-Triple config Logged-IsKept (λ s. Dict.get s.pending_approvals id) worker
                bad_input)
              λ a.
                via (λ _. Logged)
                  (weaken-Triple
                    (require-Triple {Q = λ _. Logged} {E = Logged} (parse_decision decision)
                      bad_input (λ d e. pure-Triple d) (fail-Triple bad_input))
                    (λ s r f h. h.1) (λ _ s r f h. h) (λ s r f h. h))
                  λ d.
                    via (λ _. Logged) (answer_codex-Triple a d)
                      λ _.
                        via (λ _. Resolved id a.session_id d)
                          (modify-Triple
                            (λ s. record s {
                              pending_approvals = Dict.remove id s.pending_approvals;
                            })
                            λ s r f (h, b). (
                              remove_approval-IsSound id s h,
                              λ at.
                                  remove_approval-Agrees everything everything s r id a.session_id d
                                    at b,
                            ))
                          λ _.
                            via (λ _. Resolved id a.session_id d) clock-Triple
                              λ at.
                                via (λ _. Saved)
                                  (weaken-Triple
                                    (persist_event-Triple config everything everything
                                      (approval_resolved id a.session_id d at))
                                    (λ s r f (h, b). (h, b at)) (λ _ s r f h. h) (λ s r f h. h))
                                  λ _.
                                    via (λ seen s r f. (s ≡ seen) × Saved s r f) get_worker-Triple
                                      λ known.
                                        weaken-Triple
                                          (mark_running-Triple id decision
                                            (Dict.get known.sessions a.session_id))
                                          (λ s r f h. h.1) (λ _ s r f h. h) (λ s r f h. h)

    pub resolve_approval-Triple :
        {P : Condition} (id decision : String)
        → IsKept P
        → Triple services start file P
            (resolve_approval services config id decision)
            (λ _. P)
            Logged
    resolve_approval-Triple id decision kept = saved-Triple config kept (resolve-Triple id decision)
