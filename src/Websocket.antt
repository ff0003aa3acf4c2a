-- ===== src/Websocket.antt =====
-- crates/wxcd-codex/src/lib.rs: the websocket frames from the Codex app server. Bytes are numbers. The
-- reader is seen as the raw frames that `read_raw_websocket_frame` takes from it, up to its end.
pub mod Fragments
pub mod Raw
pub mod Mask
pub mod Writing
use codex_webex_connector.Base.{
  ℕ, ◌+◌, ◌*◌, String, Bool, true, false, not, ◌&&◌, Option, none, some, List, [], ◌∷◌, ◌++◌, ltb,
  leb, eqb, length, if◌then◌else◌,
}
use codex_webex_connector.Base.Result.{Result, ok, err}

abbrev pub max_websocket_frame_bytes : ℕ
max_websocket_frame_bytes = 16 * 1024 * 1024

pub data WebSocketFrame : Type 0 where
  text ping pong : List ℕ → WebSocketFrame
  close other : WebSocketFrame

pub record WebSocketReadState : Type 0 where
  pub partial_text : Option (List ℕ)

pub record RawWebSocketFrame : Type 0 where
  pub fin : Bool
  pub opcode : ℕ
  pub payload : List ℕ

pub data FrameError : Type 0 where
  unfinished_text no_text_to_continue message_too_large fragmented_non_text : FrameError

-- what one frame does: an error, a frame for the caller, or another round
pub data Round : Type 0 where
  failed : FrameError → Round
  answered : WebSocketFrame → WebSocketReadState → Round
  again : WebSocketReadState → Round

abbrev pub on_text : RawWebSocketFrame → Option (List ℕ) → Round
on_text frame (some partial) = failed unfinished_text
on_text frame none =
    if frame.fin
    then answered (text frame.payload) (record { partial_text = none })
    else again (record { partial_text = some frame.payload })

abbrev pub on_continuation : RawWebSocketFrame → Option (List ℕ) → Round
on_continuation frame none = failed no_text_to_continue
on_continuation frame (some partial) =
    if ltb max_websocket_frame_bytes (length partial + length frame.payload)
    then failed message_too_large
    else if frame.fin
    then answered (text (partial ++ frame.payload)) (record { partial_text = none })
    else again (record { partial_text = some (partial ++ frame.payload) })

-- the `match` on the opcode
unfoldable pub accept_frame : WebSocketReadState → RawWebSocketFrame → Round
accept_frame state frame =
    if eqb frame.opcode 1
    then on_text frame state.partial_text
    else if eqb frame.opcode 0
    then on_continuation frame state.partial_text
    else if eqb frame.opcode 8
    then answered close state
    else if eqb frame.opcode 9
    then answered (ping frame.payload) state
    else if eqb frame.opcode 10
    then answered (pong frame.payload) state
    else if frame.fin
    then answered other state
    else failed fragmented_non_text

-- the answer, the state, and the frames that are left in the reader
abbrev pub ReadResult : Type 0
ReadResult = Result FrameError (Option WebSocketFrame × WebSocketReadState × List RawWebSocketFrame)

abbrev pub after_round :
    Round → List RawWebSocketFrame → (WebSocketReadState → ReadResult) → ReadResult
after_round (failed e) frames next = err e
after_round (answered frame state) frames next = ok (some frame, state, frames)
after_round (again state) frames next = next state

unfoldable pub read_websocket_frame : WebSocketReadState → List RawWebSocketFrame → ReadResult
read_websocket_frame state [] = ok (none, state, [])
read_websocket_frame state (frame ∷ frames) =
    after_round (accept_frame state frame) frames (λ next. read_websocket_frame next frames)
