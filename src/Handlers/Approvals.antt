-- ===== src/Handlers/Approvals.antt =====
-- crates/wxcd-worker/src/main.rs, `build_pending_approval`, `request_approval`, `parse_decision` and
-- `resolve_approval`: an approval from the request of Codex to the answer of a person.
use codex_webex_connector.Base.{String, ◌||◌, Option, none, some, [], ◌∷◌, ◌==◌, if◌then◌else◌}
use codex_webex_connector.Base.Dict
use codex_webex_connector.Base.Text.{with_prefix}
use codex_webex_connector.Json.{Json, string, object, no_fields, field, json_str, get, then_str}
use codex_webex_connector.Model.{
  ApprovalKind, ApprovalDecision, accept, accept_for_session, decline, cancel, command_execution,
  file_change, permissions, Instant, PendingApproval, SessionRecord, SessionState,
  approval_requested, approval_resolved,
}
use codex_webex_connector.Effects.{
  Services, Handler, bad_input, approval_card, resolved_notice, webex, create_message, codex,
  respond, respond_error, permission_declined, permission_cancelled, clock, call, fresh_suffix,
  get_worker, modify, pure, require, done, ◌>>=◌, ◌>>◌,
}
use codex_webex_connector.Handlers.{
  AppConfig, persist_event, save_session, refresh_overview, send_plain_message,
}

unfoldable pub parse_decision : String → Option ApprovalDecision
parse_decision decision =
    if decision == "accept"
    then some accept
    else if decision == "accept_for_session" || decision == "acceptForSession"
    then some accept_for_session
    else if decision == "decline"
    then some decline
    else if decision == "cancel"
    then some cancel
    else none

abbrev pub decision_name : ApprovalDecision → String
decision_name accept = "accept"
decision_name accept_for_session = "acceptForSession"
decision_name decline = "decline"
decision_name cancel = "cancel"

abbrev pub decision_body : ApprovalDecision → Json
decision_body decision = object (field "decision" (string (decision_name decision)) no_fields)

abbrev asked_for : Option Json → Json
asked_for none = object no_fields
asked_for (some asked) = asked

abbrev pub grant : Option Json → String → Json
grant asked scope =
    object (field "permissions" (asked_for asked) (field "scope" (string scope) no_fields))

abbrev pub waiting : SessionRecord → Instant → SessionRecord
waiting session now = record session { state = SessionState.waiting_approval; updated_at = now }

abbrev pub running_again : SessionRecord → Instant → SessionRecord
running_again session now = record session {
  state = SessionState.running;
  failure = none;
  updated_at = now;
}

module _ (services : Services) where
  -- the fields are evaluated in the order in which they are written
  unfoldable pub build_pending_approval : Json → ApprovalKind → Json → Handler PendingApproval
  build_pending_approval codex_request_id kind params = do
    worker ← get_worker
    thread_id ← require (json_str params ("threadId" ∷ [])) bad_input
    session_id ← require (Dict.get worker.thread_to_session thread_id) bad_input
    suffix ← fresh_suffix services
    turn_id ← require (json_str params ("turnId" ∷ [])) bad_input
    item_id ← require (json_str params ("itemId" ∷ [])) bad_input
    now ← clock services
    pure (record {
      approval_id = with_prefix "apr_" suffix;
      session_id = session_id;
      thread_id = thread_id;
      turn_id = turn_id;
      codex_request_id = codex_request_id;
      item_id = item_id;
      kind = kind;
      reason = then_str (get params "reason");
      command = then_str (get params "command");
      cwd = then_str (get params "cwd");
      requested_permissions = none;
      card_message_id = none;
      requested_at = now;
    })

  abbrev pub answer_with : PendingApproval → Json → Handler (Unit {0})
  answer_with approval body = do
    call services (codex (respond approval.codex_request_id body))
    done

  abbrev pub answer_permissions : PendingApproval → ApprovalDecision → Handler (Unit {0})
  answer_permissions approval accept =
      answer_with approval (grant approval.requested_permissions "turn")
  answer_permissions approval accept_for_session =
      answer_with approval (grant approval.requested_permissions "session")
  answer_permissions approval decline = do
    call services (codex (respond_error approval.codex_request_id permission_declined))
    done
  answer_permissions approval cancel = do
    call services (codex (respond_error approval.codex_request_id permission_cancelled))
    done

  abbrev pub answer_by : ApprovalKind → PendingApproval → ApprovalDecision → Handler (Unit {0})
  answer_by command_execution approval decision = answer_with approval (decision_body decision)
  answer_by file_change approval decision = answer_with approval (decision_body decision)
  answer_by permissions approval decision = answer_permissions approval decision

  -- the `match` on the kind
  unfoldable pub answer_codex : PendingApproval → ApprovalDecision → Handler (Unit {0})
  answer_codex approval decision = answer_by approval.kind approval decision

  module _ (config : AppConfig) where
    abbrev pub mark_waiting : Option SessionRecord → Handler (Unit {0})
    mark_waiting none = done
    mark_waiting (some session) = do
      now ← clock services
      save_session services config (waiting session now)
      refresh_overview services (waiting session now)

    unfoldable pub request_approval : PendingApproval → Handler (Unit {0})
    request_approval requested = do
      worker ← get_worker
      session ← require (Dict.get worker.sessions requested.session_id) bad_input
      card ←
          call services (webex (create_message session.session_room_id (approval_card requested)))
      let approval = record requested { card_message_id = some card.id }
      modify (λ s. record s {
        pending_approvals = Dict.insert approval.approval_id approval s.pending_approvals;
      })
      now_known ← get_worker
      mark_waiting (Dict.get now_known.sessions approval.session_id)
      persist_event services config (approval_requested approval)

    abbrev pub mark_running : String → String → Option SessionRecord → Handler (Unit {0})
    mark_running approval_id decision none = done
    mark_running approval_id decision (some session) = do
      now ← clock services
      save_session services config (running_again session now)
      refresh_overview services (running_again session now)
      send_plain_message services session.session_room_id (resolved_notice approval_id decision)

    unfoldable pub resolve_approval : String → String → Handler (Unit {0})
    unfolding answer_codex
    resolve_approval approval_id decision = do
      worker ← get_worker
      approval ← require (Dict.get worker.pending_approvals approval_id) bad_input
      parsed ← require (parse_decision decision) bad_input
      answer_codex approval parsed
      modify (λ s. record s { pending_approvals = Dict.remove approval_id s.pending_approvals })
      at ← clock services
      persist_event services config (approval_resolved approval_id approval.session_id parsed at)
      now_known ← get_worker
      mark_running approval_id decision (Dict.get now_known.sessions approval.session_id)
