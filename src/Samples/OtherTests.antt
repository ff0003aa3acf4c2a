-- ===== src/Samples/OtherTests.antt =====
-- The theorems on thread probes, RPC frames and history pages at concrete data.
use codex_webex_connector.Base.{
  ℕ, ◌-◌, ◌≤◌, ◌<◌, true, false, Option, none, some, List, [], ◌∷◌, ◌++◌, ◌≡◌, refl, arith, length,
  drop,
}
use codex_webex_connector.Base.Result.{ok}
use codex_webex_connector.Model.{SessionRecord, counts_as_archived, state_is_failed}
use codex_webex_connector.Sessions.Probe.{
  ThreadProbe, missing, readable, probed, failed_iff, apply_thread_probe, apply_thread_probe_lem,
  apply_thread_probe_idem,
}
use codex_webex_connector.Rpc.{
  RpcCodec, read_plugin_rpc_frame, write_plugin_rpc_frame, from_be_bytes, to_be_bytes, read_exact,
  frame_length_prefix_bytes,
}
use codex_webex_connector.Rpc.Framing.{read-write_plugin_rpc_frame, read_plugin_rpc_frame-bounded}
use codex_webex_connector.History.Pages.{pages, pages-eq-drop}
use codex_webex_connector.Samples.{idle_session}

abbrev gone : ThreadProbe
gone = record { kind = missing; message = "no such thread" }

abbrev after_probe : SessionRecord
after_probe = probed idle_session gone 9

apply_thread_probe_lem_example :
    (counts_as_archived idle_session ≡ true → after_probe ≡ idle_session)
    × (counts_as_archived idle_session ≡ false
        → (state_is_failed after_probe.state ≡ failed_iff missing)
          × (missing ≡ readable → after_probe.failure ≡ none)
          × (counts_as_archived after_probe ≡ false))
    × (after_probe ≡ record idle_session {
      state = after_probe.state;
      failure = after_probe.failure;
      last_checkpoint = after_probe.last_checkpoint;
      updated_at = after_probe.updated_at;
    })
apply_thread_probe_lem_example = apply_thread_probe_lem idle_session gone 9

apply_thread_probe_idem_example : apply_thread_probe (probed idle_session gone 9) gone 12 ≡ none
apply_thread_probe_idem_example = apply_thread_probe_idem idle_session gone 9 12

-- a codec of numbers as one byte
abbrev one_byte : ℕ → Option (List ℕ)
one_byte n = some (n ∷ [])

abbrev read_byte : List ℕ → Option ℕ
read_byte (n ∷ []) = some n
read_byte _ = none

read-one_byte : (x : ℕ) (p : List ℕ) → one_byte x ≡ some p → read_byte p ≡ some x
read-one_byte x p h = ground arith

one_byte-not_empty : (x : ℕ) (p : List ℕ) → one_byte x ≡ some p → 0 < length p
one_byte-not_empty x p h = ground arith

abbrev byte_codec : RpcCodec ℕ
byte_codec = record {
  to_vec = one_byte;
  from_slice = read_byte;
  round_trip = read-one_byte;
  not_empty = one_byte-not_empty;
}

written : write_plugin_rpc_frame one_byte 7 16 ≡ ok (0 ∷ 0 ∷ 0 ∷ 1 ∷ 7 ∷ [])
unfolding write_plugin_rpc_frame to_be_bytes
written = refl

read-write_plugin_rpc_frame_example :
    read_plugin_rpc_frame read_byte 16 (0 ∷ 0 ∷ 0 ∷ 1 ∷ 7 ∷ 9 ∷ []) ≡ ok (7, 9 ∷ [])
read-write_plugin_rpc_frame_example =
    read-write_plugin_rpc_frame byte_codec 7 16 (0 ∷ 0 ∷ 0 ∷ 1 ∷ 7 ∷ []) (9 ∷ []) written

read_plugin_rpc_frame-bounded_example :
    (prefix payload : List ℕ) × (0 ∷ 0 ∷ 0 ∷ 1 ∷ 7 ∷ 9 ∷ [] ≡ prefix ++ (payload ++ 9 ∷ []))
    × (length prefix ≡ frame_length_prefix_bytes)
    × (length payload ≡ from_be_bytes prefix)
    × (0 < length payload)
    × (length payload ≤ 16)
    × (read_byte payload ≡ some 7)
unfolding read_plugin_rpc_frame from_be_bytes read_exact
read_plugin_rpc_frame-bounded_example =
    read_plugin_rpc_frame-bounded read_byte 16 (0 ∷ 0 ∷ 0 ∷ 1 ∷ 7 ∷ 9 ∷ []) (9 ∷ []) 7 refl

abbrev five : List ℕ
five = 1 ∷ 2 ∷ 3 ∷ 4 ∷ 5 ∷ []

pages-eq-drop_example : pages five 2 2 ≡ drop (5 - 4) five
pages-eq-drop_example = pages-eq-drop five 2 2 (omega arith)
