-- ===== src/Rpc.antt =====
-- crates/wxcd-cbth-rpc/src/lib.rs: the errors of the plugin RPC, its frames (a length of four
-- bytes, most significant first, and a JSON text), and one request with its answer. A byte is a
-- number, a stream the list of its bytes. serde_json is a parameter. An error carries no message
-- text, and a socket that fails in the middle of a write is left out.
pub mod Framing
use codex_webex_connector.Base.{
  ℕ, ◌+◌, ◌-◌, ◌*◌, ◌/◌, ◌%◌, ◌^◌, ◌<◌, String, Bool, true, false, not, Option, none, some, List,
  [], ◌∷◌, ◌++◌, ◌≡◌, ltb, leb, eqb, ◌==◌, length, take, drop, if◌then◌else◌,
}
use codex_webex_connector.Base.Result.{Result, ok, err, ◌>>=◌, ◌>>◌, ok_or, bail_if}

pub data PluginRpcErrorKind : Type 0 where
  unsupported_protocol missing_capability stale_lease policy_blocked : PluginRpcErrorKind
  target_unavailable transient_daemon_unavailable malformed frame_over_budget : PluginRpcErrorKind
  io invalid_request method_not_found internal : PluginRpcErrorKind

-- the JSON of `frame_too_large`
pub record FrameSize : Type 0 where
  pub frame_bytes : ℕ
  pub max_frame_bytes : ℕ

pub record PluginRpcError : Type 0 where
  pub kind : PluginRpcErrorKind
  pub retryable : Bool
  pub details : Option FrameSize

abbrev pub is_retryable : PluginRpcErrorKind → Bool
is_retryable io = true
is_retryable transient_daemon_unavailable = true
is_retryable _ = false

unfoldable pub new : PluginRpcErrorKind → PluginRpcError
new kind = record { kind = kind; retryable = is_retryable kind; details = none }

abbrev pub malformed_frame : PluginRpcError
malformed_frame = record { kind = malformed; retryable = false; details = none }

abbrev pub frame_too_large : ℕ → ℕ → PluginRpcError
frame_too_large frame_bytes max_frame_bytes = record {
  kind = frame_over_budget;
  retryable = false;
  details = some (record { frame_bytes = frame_bytes; max_frame_bytes = max_frame_bytes });
}

-- a stream that ends inside a frame
abbrev pub unexpected_eof : PluginRpcError
unexpected_eof = record { kind = io; retryable = false; details = none }

abbrev pub u32_mod : ℕ
u32_mod = 2 ^ 32

abbrev pub frame_length_prefix_bytes : ℕ
frame_length_prefix_bytes = 4

-- `u32::to_be_bytes` and `u32::from_be_bytes`
unfoldable pub to_be_bytes : ℕ → List ℕ
to_be_bytes n = n / 16777216 % 256 ∷ n / 65536 % 256 ∷ n / 256 % 256 ∷ n % 256 ∷ []

unfoldable pub from_be_bytes : List ℕ → ℕ
from_be_bytes (a ∷ b ∷ c ∷ d ∷ []) = a * 16777216 + b * 65536 + c * 256 + d
from_be_bytes _ = 0

-- `read_exact`: so many bytes, and what is left
unfoldable pub read_exact : ℕ → List ℕ → Result PluginRpcError (List ℕ × List ℕ)
read_exact n stream =
    if leb n (length stream) then ok (take n stream, drop n stream) else err unexpected_eof

module _ {T : Type 0} where
  unfoldable pub read_plugin_rpc_frame :
      (List ℕ → Option T) → ℕ → List ℕ → Result PluginRpcError (T × List ℕ)
  read_plugin_rpc_frame from_slice max_frame_bytes stream = do
    bail_if (eqb max_frame_bytes 0) malformed_frame
    (prefix, behind) ← read_exact frame_length_prefix_bytes stream
    bail_if (eqb (from_be_bytes prefix) 0) malformed_frame
    bail_if (ltb max_frame_bytes (from_be_bytes prefix))
        (frame_too_large (from_be_bytes prefix) max_frame_bytes)
    (payload, rest) ← read_exact (from_be_bytes prefix) behind
    frame ← ok_or (from_slice payload) malformed_frame
    ok (frame, rest)

  -- the bytes written
  unfoldable pub write_plugin_rpc_frame :
      (T → Option (List ℕ)) → T → ℕ → Result PluginRpcError (List ℕ)
  write_plugin_rpc_frame to_vec frame max_frame_bytes = do
    bail_if (eqb max_frame_bytes 0) malformed_frame
    payload ← ok_or (to_vec frame) malformed_frame
    bail_if (ltb max_frame_bytes (length payload))
        (frame_too_large (length payload) max_frame_bytes)
    bail_if (ltb (u32_mod - 1) (length payload)) (frame_too_large (length payload) (u32_mod - 1))
    ok (to_be_bytes (length payload % u32_mod) ++ payload)

-- What is relied on of serde_json: a text that it wrote is not empty and reads back.
pub record RpcCodec (T : Type 0) : Type 0 where
  pub to_vec : T → Option (List ℕ)
  pub from_slice : List ℕ → Option T
  pub round_trip : (x : T) (p : List ℕ) → to_vec x ≡ some p → from_slice p ≡ some x
  pub not_empty : (x : T) (p : List ℕ) → to_vec x ≡ some p → 0 < length p
