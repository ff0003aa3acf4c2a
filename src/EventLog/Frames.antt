-- ===== src/EventLog/Frames.antt =====
-- crates/wxcd-eventlog/src/lib.rs: the frames of the Data Space. The JSON codec (serde_json) is a
-- parameter: an encoded text decodes to what was encoded, but for a `null` in an option and for floats.
use codex_webex_connector.Base.{
  String, Bool, true, false, not, ◌&&◌, any, Option, none, some, ◌≡◌, is_some, is_some_and,
}
use codex_webex_connector.Base.Text.{strip_prefix, with_prefix}
use codex_webex_connector.Json.{Json, null}
use codex_webex_connector.Json.Exact.{is_exact}
use codex_webex_connector.Model.{
  Instant, PendingApproval, approval_requested, BridgeEvent, BridgeEventEnvelope, BridgeSnapshot,
}

-- crates/wxcd-webex/src/lib.rs, `Message`
pub record Message : Type 0 where
  pub id : String
  pub room_id : Option String
  pub markdown : Option String
  pub text : Option String
  pub person_email : Option String
  pub created : Option Instant

abbrev pub event_prefix : String
event_prefix = "WXCD/V1 EVENT "

abbrev pub snapshot_prefix : String
snapshot_prefix = "WXCD/V1 SNAPSHOT "

-- `message.text.as_deref().or(message.markdown.as_deref())`
abbrev pub or_text : Option String → Option String → Option String
or_text none m = m
or_text (some t) m = some t

abbrev pub body : Message → Option String
body m = or_text m.text m.markdown

unfoldable pub message_has_snapshot : Message → Bool
unfolding strip_prefix
message_has_snapshot m = is_some_and (body m) (λ t. is_some (strip_prefix snapshot_prefix t))

infixl 5 ◌>>=◌
abbrev pub ◌>>=◌ {ℓ κ} : {A : Type ℓ} {B : Type κ} → Option A → (A → Option B) → Option B
none >>= f = none
some a >>= f = f a

-- what `Some(Value::Null)` is not: an option of a JSON value that is written and read back as it is
abbrev pub is_kept : Option Json → Bool
is_kept none = true
is_kept (some null) = false
is_kept (some v) = is_exact v

abbrev pub is_kept_approval : PendingApproval → Bool
is_kept_approval a = is_exact a.codex_request_id && is_kept a.requested_permissions

-- the stored JSON values come back from their text
abbrev pub is_kept_event : BridgeEvent → Bool
is_kept_event (approval_requested a) = is_kept_approval a
is_kept_event _ = true

abbrev pub is_kept_snapshot : BridgeSnapshot → Bool
is_kept_snapshot s = not (any (λ a. not (is_kept_approval a)) s.pending_approvals)

-- `serde_json::to_string` and `from_str` at the two frame types. What is read is what was written if
-- the stored JSON values are exact, and no option holds a `null`, which is read as no value at all.
pub record Codec : Type 0 where
  pub encode_event : BridgeEventEnvelope → Option String
  pub decode_event : String → Option BridgeEventEnvelope
  pub encode_snapshot : BridgeSnapshot → Option String
  pub decode_snapshot : String → Option BridgeSnapshot
  pub event_round_trip :
      (e : BridgeEventEnvelope) (p : String)
      → is_kept_event e.event ≡ true
      → encode_event e ≡ some p
      → decode_event p ≡ some e
  pub snapshot_round_trip :
      (s : BridgeSnapshot) (p : String)
      → is_kept_snapshot s ≡ true
      → encode_snapshot s ≡ some p
      → decode_snapshot p ≡ some s

module _ (codec : Codec) where
  -- the snapshot, or the event, that a message carries and that decodes
  unfoldable pub snapshot_of : Message → Option BridgeSnapshot
  unfolding strip_prefix
  snapshot_of m = do
    text ← body m
    payload ← strip_prefix snapshot_prefix text
    codec.decode_snapshot payload

  unfoldable pub event_of : Message → Option BridgeEventEnvelope
  unfolding strip_prefix
  event_of m = do
    text ← body m
    payload ← strip_prefix event_prefix text
    codec.decode_event payload

  -- the texts that `append_event` and `append_snapshot` post
  unfoldable pub append_event : Instant → BridgeEvent → Option String
  append_event now event = do
    payload ← codec.encode_event (record { ts = now; event = event })
    some (with_prefix event_prefix payload)

  unfoldable pub append_snapshot : BridgeSnapshot → Option String
  append_snapshot snapshot = do
    payload ← codec.encode_snapshot snapshot
    some (with_prefix snapshot_prefix payload)
