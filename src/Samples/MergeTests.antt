-- ===== src/Samples/MergeTests.antt =====
-- The theorems on the local mirror and the handoff at concrete states.
use codex_webex_connector.Base.{Option, String, true, false, some, [], ◌∷◌, ◌≡◌, ◌⊎◌, ◌↔◌, refl}
use codex_webex_connector.Base.Dict
use codex_webex_connector.Base.Dict.{Dict}
use codex_webex_connector.Base.Result.{ok}
use codex_webex_connector.Base.IdSet
use codex_webex_connector.Model.{SessionRecord, PendingApproval, SessionState}
use codex_webex_connector.EventLog.{ReplayState, initial}
use codex_webex_connector.Sessions.{current_writer_snapshot, session_belongs_to_installation}
use codex_webex_connector.Worker.{WorkerState, rebuild_session_indexes, set_executable_installation}
use codex_webex_connector.Worker.Indexes.{IsRouted}
use codex_webex_connector.Worker.Routing.{IsComplete}
use codex_webex_connector.Worker.Merge.{merge_local_mirror, merge_local_pending_approvals}
use codex_webex_connector.Worker.Merge.Approvals.{merge_local_pending_approvals_lem}
use codex_webex_connector.Worker.Merge.Claims.{IsClaim}
use codex_webex_connector.Worker.Merge.Safety.{
  merge_local_mirror-IsClaim, merge_local_mirror-IsRouted,
}
use codex_webex_connector.Worker.Handoff.{
  WebexHandoffPayload, validate_webex_handoff_payload, apply_webex_handoff_payload,
  lifecycle_codex_in_flight_count,
}
use codex_webex_connector.Worker.Handoff.Rounds.{IsHandedOver}
use codex_webex_connector.Worker.Handoff.Safety.{
  IsAtRest, validate_webex_handoff_payload-ok, apply_webex_handoff_payload_lem,
  lifecycle_codex_in_flight_count-zero,
}
use codex_webex_connector.Samples.{session, approval, worker}
use codex_webex_connector.Samples.WorkerTests.{worker-IsRouted, worker-IsComplete}

-- what the local snapshot knows: a newer version of one session, and a new one
abbrev local : ReplayState
local = record initial {
  sessions =
      ("s1", session "s1" "here" 8 SessionState.running)
      ∷ ("s2", session "s2" "here" 9 SessionState.idle)
      ∷ [];
}

merge_local_mirror-IsClaim_example :
    IsClaim "here"
      (IdSet.contains worker.remote_purged_session_ids "s1")
      (Dict.get worker.sessions "s1")
      (Dict.get (merge_local_mirror local "here" 10 current_writer_snapshot worker).0.sessions "s1")
merge_local_mirror-IsClaim_example =
    merge_local_mirror-IsClaim local "here" 10 current_writer_snapshot worker "s1"
      worker-IsRouted.keyed

merge_local_mirror-IsRouted_example :
    IsRouted (merge_local_mirror local "here" 10 current_writer_snapshot worker).0
    × ((merge_local_mirror local "here" 10 current_writer_snapshot worker).1 ≡ true
        → IsComplete (merge_local_mirror local "here" 10 current_writer_snapshot worker).0)
    × ((merge_local_mirror local "here" 10 current_writer_snapshot worker).1 ≡ false
        → (merge_local_mirror local "here" 10 current_writer_snapshot worker).0 ≡ worker)
merge_local_mirror-IsRouted_example =
    merge_local_mirror-IsRouted local "here" 10 current_writer_snapshot worker worker-IsRouted

abbrev payload : WebexHandoffPayload
payload = record {
  plugin_name = "webex-connector";
  exported_at = 12;
  source_plugin_instance_id = "plugin";
  source_plugin_release_id = "release";
  durable_bridge_snapshot = record {
    created_at = 11;
    writer_installation_id = some "here";
    sessions = session "s1" "here" 8 SessionState.running ∷ [];
    pending_approvals = approval ∷ [];
  };
  recent_webex_event_ids = "e1" ∷ [];
  in_flight = record { sessions = []; pending_approval_count = 0 };
  sidecar = record { deferred_ingress_records = []; drain_state_records = [] };
}

runs_here : worker.executable_installation_id ≡ some "here"
unfolding set_executable_installation rebuild_session_indexes
runs_here = refl

apply_webex_handoff_payload_lem_example :
    (t : WorkerState) × (apply_webex_handoff_payload 13 payload worker ≡ ok t)
    × IsRouted t
    × IsComplete t
    × ((j : String)
        → IsHandedOver "here"
            (IdSet.contains worker.remote_purged_session_ids j)
            (Dict.get worker.sessions j)
            (Dict.get t.sessions j))
apply_webex_handoff_payload_lem_example =
    apply_webex_handoff_payload_lem "here" 13 payload worker worker-IsRouted worker-IsComplete
      runs_here

lifecycle_codex_in_flight_count-zero_example :
    (lifecycle_codex_in_flight_count worker ≡ 0)
    ↔ ((id : String) (t : SessionRecord) → Dict.get worker.sessions id ≡ some t → IsAtRest worker t)
lifecycle_codex_in_flight_count-zero_example = lifecycle_codex_in_flight_count-zero worker

validate_webex_handoff_payload-ok_example :
    (validate_webex_handoff_payload "plugin" worker payload ≡ ok tt) ↔ (
      (payload.plugin_name ≡ "webex-connector")
      × (payload.source_plugin_instance_id ≡ "plugin")
      × (payload.durable_bridge_snapshot.writer_installation_id ≡ some "here"))
validate_webex_handoff_payload-ok_example =
    validate_webex_handoff_payload-ok "plugin" "here" worker payload runs_here

abbrev offered : Dict PendingApproval
offered = ("a2", record approval { approval_id = "a2"; requested_at = 9 }) ∷ []

abbrev merged_approval : Option PendingApproval
merged_approval =
    Dict.get (merge_local_pending_approvals offered "here" worker).0.pending_approvals "a2"

merge_local_pending_approvals_lem_example :
    (merged_approval ≡ Dict.get worker.pending_approvals "a2")
    ⊎ ((a : PendingApproval) × (x : SessionRecord) × (merged_approval ≡ some a)
        × (a.approval_id ≡ "a2")
        × (IdSet.contains worker.remote_resolved_approval_ids "a2" ≡ false)
        × (Dict.get worker.sessions a.session_id ≡ some x)
        × (session_belongs_to_installation x "here" ≡ true)
        × (a.thread_id ≡ x.thread_id))
merge_local_pending_approvals_lem_example =
    merge_local_pending_approvals_lem offered "here" worker "a2"
