-- ===== src/Worker/Handoff/Safety.antt =====
-- `validate_webex_handoff_payload`, `apply_webex_handoff_payload` and
-- `lifecycle_codex_in_flight_count` as wholes.
use codex_webex_connector.Base.{
  String, Bool, false, Option, none, some, List, [], ◌∷◌, foldl, map, ◌≡◌, ◌≢◌, ◌⊎◌, ◌↔◌, refl, sym,
  subst, ◌∙◌, arith, eq_iff, length, filterb, All,
}
use codex_webex_connector.Base.Result.{ok}
use codex_webex_connector.Base.Dict
use codex_webex_connector.Base.Dict.{Dict}
use codex_webex_connector.Base.Dict.Entries.{IsKeyed, get-All, All-values}
use codex_webex_connector.Base.IdSet
use codex_webex_connector.Model.{Instant, SessionRecord, creating, running, waiting_approval}
use codex_webex_connector.EventLog.{from_snapshot}
use codex_webex_connector.Worker.{WorkerState, should_route_session_room}
use codex_webex_connector.Worker.Indexes.{IsRouted, SameRoutes, SameRoutes-IsRouted}
use codex_webex_connector.Worker.Routing.{IsComplete}
use codex_webex_connector.Worker.Merge.Rounds.{id_of}
use codex_webex_connector.Worker.Merge.Safety.{rebuild_if-sessions}
use codex_webex_connector.Worker.Handoff.{
  check_writer, Progress, WebexHandoffPayload, import_session, finish_import,
  validate_webex_handoff_payload, apply_webex_handoff_payload, lifecycle_codex_in_flight_count,
  is_in_flight,
}
use codex_webex_connector.Worker.Handoff.Rounds.{IsHandedOver, IsHandedOver-refl}
use codex_webex_connector.Worker.Handoff.Steps.{
  IsProgress, import_sessions-IsProgress, unbuilt, unbuilt-SameRoutes, rebuilt-IsRouted,
  rebuilt-IsComplete, SameRoutes-IsComplete,
}

check_writer-ok :
    (writer : Option String) (installation : String)
    → (check_writer writer installation ≡ ok tt) ↔ (writer ≡ some installation)
check_writer-ok none installation = ground arith
check_writer-ok (some w) installation = ground (arith, eq_iff w installation)

-- A worker whose installation is known accepts a payload exactly if it is the Webex connector's,
-- was exported by this plugin instance, and its snapshot was written by that installation.
pub validate_webex_handoff_payload-ok :
    (plugin_instance_id installation : String) (s : WorkerState) (payload : WebexHandoffPayload)
    → s.executable_installation_id ≡ some installation
    → (validate_webex_handoff_payload plugin_instance_id s payload ≡ ok tt) ↔ (
        (payload.plugin_name ≡ "webex-connector")
        × (payload.source_plugin_instance_id ≡ plugin_instance_id)
        × (payload.durable_bridge_snapshot.writer_installation_id ≡ some installation))
unfolding validate_webex_handoff_payload
validate_webex_handoff_payload-ok plugin_instance_id installation s payload e = ground (
  arith,
  eq_iff payload.plugin_name "webex-connector",
  eq_iff payload.source_plugin_instance_id plugin_instance_id,
  check_writer-ok payload.durable_bridge_snapshot.writer_installation_id installation,
)

module _ (installation : String) (now : Instant) (payload : WebexHandoffPayload)
    (s : WorkerState) where
  abbrev looped : Progress
  looped =
      foldl (import_session installation now (map (λ t. t.session_id) payload.in_flight.sessions))
        (record { worker = s; changed = false; authoritative = IdSet.empty })
        (Dict.values (from_snapshot payload.durable_bridge_snapshot).sessions)

  looped-IsProgress : IsRouted s → IsProgress installation s looped
  looped-IsProgress routed =
      import_sessions-IsProgress installation s now
        (map (λ t. t.session_id) payload.in_flight.sessions)
        (Dict.values (from_snapshot payload.durable_bridge_snapshot).sessions)
        (record { worker = s; changed = false; authoritative = IdSet.empty })
        (record {
          purged = refl;
          keyed = routed.keyed;
          unchanged = λ _. refl;
          sessions = λ j. IsHandedOver-refl installation _ (Dict.get s.sessions j);
        })

  abbrev imported : WorkerState
  imported =
      finish_import installation (from_snapshot payload.durable_bridge_snapshot).pending_approvals
        payload.recent_webex_event_ids looped

  abbrev before_rebuild : WorkerState
  before_rebuild =
      unbuilt installation (from_snapshot payload.durable_bridge_snapshot).pending_approvals
        payload.recent_webex_event_ids looped

  same_routes : SameRoutes looped.worker before_rebuild
  same_routes =
      unbuilt-SameRoutes installation
        (from_snapshot payload.durable_bridge_snapshot).pending_approvals
        payload.recent_webex_event_ids looped

  imported-sessions : imported.sessions ≡ looped.worker.sessions
  imported-sessions = rebuild_if-sessions _ before_rebuild ∙ same_routes.0

  imported-IsRouted : IsRouted s → IsRouted imported
  imported-IsRouted routed =
      let p = looped-IsProgress routed in
      rebuilt-IsRouted _ before_rebuild (subst (IsKeyed id_of) (sym same_routes.0) p.keyed) λ e.
        SameRoutes-IsRouted looped.worker before_rebuild same_routes
          (subst IsRouted (sym (p.unchanged (ground arith))) routed)

  imported-IsComplete : IsRouted s → IsComplete s → IsComplete imported
  imported-IsComplete routed complete =
      let p = looped-IsProgress routed in
      rebuilt-IsComplete _ before_rebuild λ e.
        SameRoutes-IsComplete looped.worker before_rebuild same_routes
          (subst IsComplete (sym (p.unchanged (ground arith))) complete)

  -- Let a worker have an installation, let each entry of its indexes lead to a session of its key that
  -- is to be indexed, and let no session that is to be indexed lack an entry. It takes any handoff over,
  -- and the same holds of its indexes afterwards. No session comes in that was purged, and a known
  -- session does not go away, is left alone if its execution authority is another installation, and
  -- stays archived if it was. A session without an authority may be replaced, even if another
  -- installation mirrored it.
  pub apply_webex_handoff_payload_lem :
      IsRouted s
      → IsComplete s
      → s.executable_installation_id ≡ some installation
      → (t : WorkerState) × (apply_webex_handoff_payload now payload s ≡ ok t)
        × IsRouted t
        × IsComplete t
        × ((j : String)
            → IsHandedOver installation
                (IdSet.contains s.remote_purged_session_ids j)
                (Dict.get s.sessions j)
                (Dict.get t.sessions j))
  unfolding apply_webex_handoff_payload
  apply_webex_handoff_payload_lem routed complete e = (
    imported,
    rw e,
    imported-IsRouted routed,
    imported-IsComplete routed complete,
    λ j.
        subst
          (λ m.
            IsHandedOver installation (IdSet.contains s.remote_purged_session_ids j)
              (Dict.get s.sessions j) (Dict.get m j))
          (sym imported-sessions) ((looped-IsProgress routed).sessions j),
  )

none_left :
    (p : SessionRecord → Bool) (ts : List SessionRecord)
    → length (filterb p ts) ≡ 0
    → All (λ t. p t ≡ false) ts
none_left p [] h = tt
none_left p (t ∷ ts) h = (ground arith, none_left p ts (ground arith))

idle_count :
    (p : SessionRecord → Bool) (ts : List SessionRecord)
    → All (λ t. p t ≡ false) ts
    → length (filterb p ts) ≡ 0
idle_count p [] h = refl
idle_count p (t ∷ ts) h = rw h.0 (idle_count p ts h.1)

-- the room of the session is not routed, or no turn is under way
abbrev pub IsAtRest : WorkerState → SessionRecord → Type 0
IsAtRest s t =
    (should_route_session_room s t ≡ false)
    ⊎ ((t.active_turn_id ≡ none)
        × (t.state ≢ creating)
        × (t.state ≢ running)
        × (t.state ≢ waiting_approval))

IsAtRest-idle : (s : WorkerState) (t : SessionRecord) → is_in_flight s t ≡ false → IsAtRest s t
IsAtRest-idle s t h = ground arith

idle-IsAtRest : (s : WorkerState) (t : SessionRecord) → IsAtRest s t → is_in_flight s t ≡ false
idle-IsAtRest s t h = ground arith

-- The count of turns in flight is zero exactly if every session whose room is routed has no active
-- turn and is not being created, running or waiting for an approval.
pub lifecycle_codex_in_flight_count-zero :
    (s : WorkerState)
    → (lifecycle_codex_in_flight_count s ≡ 0)
      ↔ ((id : String) (t : SessionRecord) → Dict.get s.sessions id ≡ some t → IsAtRest s t)
unfolding lifecycle_codex_in_flight_count
lifecycle_codex_in_flight_count-zero s = (
  λ h id t found. IsAtRest-idle s t (
      get-All (λ x. is_in_flight s x ≡ false) s.sessions id
        (none_left (is_in_flight s) (Dict.values s.sessions) h) found),
  λ h. idle_count (is_in_flight s) (Dict.values s.sessions) (
      All-values (λ x. is_in_flight s x ≡ false) s.sessions
        λ k t found. idle-IsAtRest s t (h k t found)),
)
