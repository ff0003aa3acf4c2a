-- ===== src/EventLog/Snapshots.antt =====
-- crates/wxcd-eventlog/src/lib.rs: snapshots and appended frames, as a later replay reads them.
use codex_webex_connector.Base.{
  ◌+◌, String, true, Option, Option-cases, inl, inr, none, some, List, [], ◌∷◌, foldl, reverse, ◌≡◌,
  refl, arith,
}
use codex_webex_connector.Base.Dict
use codex_webex_connector.Base.Dict.Entries.{from_values-IsKeyed, get-from_values}
use codex_webex_connector.Base.IdSet
use codex_webex_connector.Base.Text.{strip_prefix, with_prefix, strip_prefix-with_prefix}
use codex_webex_connector.Model.{Instant, BridgeEvent, BridgeEventEnvelope, BridgeSnapshot}
use codex_webex_connector.EventLog.{ReplayState, initial, to_snapshot, from_snapshot, apply}
use codex_webex_connector.EventLog.Apply.{IsConsistent, apply-IsConsistent}
use codex_webex_connector.EventLog.Frames.{
  Codec, Message, body, event_prefix, snapshot_prefix, snapshot_of, event_of, append_event,
  append_snapshot, is_kept_event, is_kept_snapshot,
}
use codex_webex_connector.EventLog.Replay.{
  replay_from_messages, step, step_with, replay_from_messages-eq-foldl, replay_from_messages-cons,
}

pub from_snapshot-IsConsistent : (s : BridgeSnapshot) → IsConsistent (from_snapshot s)
unfolding from_snapshot
from_snapshot-IsConsistent s = record {
  sessions_keyed = from_values-IsKeyed (λ t. t.session_id) s.sessions;
  approvals_keyed = from_values-IsKeyed (λ a. a.approval_id) s.pending_approvals;
}

initial-IsConsistent : IsConsistent initial
unfolding Dict.get
initial-IsConsistent = record { sessions_keyed = λ k v e. cc; approvals_keyed = λ k v e. cc }

-- Writing a snapshot of a consistent state and reading it back keeps every session and every
-- pending approval, counts no events, and starts with no tombstones, be it of archived or purged
-- sessions or of resolved approvals.
pub from_snapshot-to_snapshot :
    (now : Instant) (s : ReplayState) (j : String)
    → IsConsistent s
    → (let t = from_snapshot (to_snapshot now s) in
        (Dict.get t.sessions j ≡ Dict.get s.sessions j)
        × (Dict.get t.pending_approvals j ≡ Dict.get s.pending_approvals j)
        × (t.events_since_snapshot ≡ 0)
        × (t.snapshot_created_at ≡ some now)
        × (t.archived_session_ids ≡ IdSet.empty)
        × (t.purged_session_ids ≡ IdSet.empty)
        × (t.resolved_approval_ids ≡ IdSet.empty))
unfolding from_snapshot to_snapshot
from_snapshot-to_snapshot now s j h = (
  get-from_values (λ t. t.session_id) s.sessions j h.sessions_keyed,
  get-from_values (λ a. a.approval_id) s.pending_approvals j h.approvals_keyed,
  refl,
  refl,
  refl,
  refl,
  refl,
)

module _ (codec : Codec) where
  step_with-IsConsistent :
      (o : Option BridgeSnapshot) (e : Option BridgeEventEnvelope) (st : ReplayState)
      → IsConsistent st
      → IsConsistent (step_with codec o e st)
  step_with-IsConsistent (some s) e st h = from_snapshot-IsConsistent s
  step_with-IsConsistent none none st h = h
  step_with-IsConsistent none (some e) st h =
      let c = apply-IsConsistent st e.event h in
      record { sessions_keyed = c.sessions_keyed; approvals_keyed = c.approvals_keyed }

  foldl-step-IsConsistent :
      (ms : List Message) (st : ReplayState)
      → IsConsistent st
      → IsConsistent (foldl (step codec) st ms)
  unfolding step
  foldl-step-IsConsistent [] st h = h
  foldl-step-IsConsistent (m ∷ ms) st h =
      foldl-step-IsConsistent ms (step codec st m)
        (step_with-IsConsistent (snapshot_of codec m) (event_of codec m) st h)

  -- Whatever the Data Space holds, malformed frames included, the replayed state keeps each
  -- session and each pending approval under its own identifier.
  pub replay_from_messages-IsConsistent :
      (messages : List Message) → IsConsistent (replay_from_messages codec messages)
  replay_from_messages-IsConsistent messages =
      rw (replay_from_messages-eq-foldl codec messages)
        (foldl-step-IsConsistent (reverse messages) initial initial-IsConsistent)

  event_frame-not-snapshot :
      (payload : String) → strip_prefix snapshot_prefix (with_prefix event_prefix payload) ≡ none
  unfolding strip_prefix with_prefix
  event_frame-not-snapshot payload = refl

  append_event-body :
      (now : Instant) (event : BridgeEvent) (text : String)
      → is_kept_event event ≡ true
      → append_event codec now event ≡ some text
      → (p : String) × (codec.decode_event p ≡ some (record { ts = now; event = event }))
        × (text ≡ with_prefix event_prefix p)
  unfolding append_event
  append_event-body now event text k h =
      elim (Option-cases (codec.encode_event (record { ts = now; event = event }))) [
        | inl e ↦ ground arith
        | inr (p, e) ↦
            (p, codec.event_round_trip (record { ts = now; event = event }) p k e, ground arith)
      ]

  append_snapshot-body :
      (snapshot : BridgeSnapshot) (text : String)
      → is_kept_snapshot snapshot ≡ true
      → append_snapshot codec snapshot ≡ some text
      → (p : String) × (codec.decode_snapshot p ≡ some snapshot)
        × (text ≡ with_prefix snapshot_prefix p)
  unfolding append_snapshot
  append_snapshot-body snapshot text k h = elim (Option-cases (codec.encode_snapshot snapshot)) [
    | inl e ↦ ground arith
    | inr (p, e) ↦ (p, codec.snapshot_round_trip snapshot p k e, ground arith)
  ]

  snapshot_of-appended :
      (m : Message) (snapshot : BridgeSnapshot) (text : String)
      → is_kept_snapshot snapshot ≡ true
      → append_snapshot codec snapshot ≡ some text
      → body m ≡ some text
      → snapshot_of codec m ≡ some snapshot
  unfolding snapshot_of
  snapshot_of-appended m snapshot text k h b =
      let (p, d, t) = append_snapshot-body snapshot text k h in
      rw (b, t, strip_prefix-with_prefix snapshot_prefix p) d

  event_of-appended :
      (m : Message) (now : Instant) (event : BridgeEvent) (text : String)
      → is_kept_event event ≡ true
      → append_event codec now event ≡ some text
      → body m ≡ some text
      → (snapshot_of codec m ≡ none)
        × (event_of codec m ≡ some (record { ts = now; event = event }))
  unfolding snapshot_of event_of
  event_of-appended m now event text k h b =
      let (p, d, t) = append_event-body now event text k h in
      (rw (b, t, event_frame-not-snapshot p), rw (b, t, strip_prefix-with_prefix event_prefix p) d)

  -- An event that was appended to the Data Space is, in the next replay, applied to what the
  -- replay gave before, and counted, if the JSON values that it stores hold no number but integers, no
  -- member twice, and no `null` for the requested permissions.
  pub replay-append_event :
      (m : Message) (messages : List Message) (now : Instant) (event : BridgeEvent) (text : String)
      → is_kept_event event ≡ true
      → append_event codec now event ≡ some text
      → body m ≡ some text
      → (let t = apply (replay_from_messages codec messages) event in
          replay_from_messages codec (m ∷ messages)
          ≡ record t { events_since_snapshot = t.events_since_snapshot + 1 })
  unfolding step
  replay-append_event m messages now event text k h b =
      let (no_snapshot, is_event) = event_of-appended m now event text k h b in
      rw (replay_from_messages-cons codec m messages, no_snapshot, is_event)

  -- A snapshot that was appended replaces, in the next replay, everything before it, if the JSON values
  -- of its pending approvals hold no number but integers, no member twice, and no `null` for the
  -- requested permissions.
  pub replay-append_snapshot :
      (m : Message) (messages : List Message) (snapshot : BridgeSnapshot) (text : String)
      → is_kept_snapshot snapshot ≡ true
      → append_snapshot codec snapshot ≡ some text
      → body m ≡ some text
      → replay_from_messages codec (m ∷ messages) ≡ from_snapshot snapshot
  unfolding step
  replay-append_snapshot m messages snapshot text k h b =
      rw (replay_from_messages-cons codec m messages, snapshot_of-appended m snapshot text k h b)
