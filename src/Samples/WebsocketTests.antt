-- ===== src/Samples/WebsocketTests.antt =====
-- The theorems on websocket frames, at concrete bytes and fragments.
use codex_webex_connector.Base.{true, some, [], ◌∷◌, ◌++◌, ◌≡◌, refl, arith}
use codex_webex_connector.Base.Result.{ok, ◌>>=◌}
use codex_webex_connector.Websocket.{RawWebSocketFrame, text, read_websocket_frame}
use codex_webex_connector.Websocket.Fragments.{
  first_fragment, continued, idle, FitsResult, read_websocket_frame-fragments,
  read_websocket_frame-FitsResult,
}
use codex_webex_connector.Websocket.Raw.{
  IsRawFrame, read_raw_websocket_frame, read_raw_websocket_frame-IsRawFrame,
}
use codex_webex_connector.Websocket.Writing.{read-write_websocket_frame, write_websocket_frame}

read_websocket_frame-fragments_example :
    read_websocket_frame idle
      (first_fragment (1 ∷ []) ∷ continued ((2 ∷ []) ∷ []) (3 ∷ []) (first_fragment [] ∷ []))
    ≡ ok (some (text (1 ∷ 2 ∷ 3 ∷ [])), idle, first_fragment [] ∷ [])
read_websocket_frame-fragments_example =
    read_websocket_frame-fragments (1 ∷ []) ((2 ∷ []) ∷ []) (3 ∷ []) (first_fragment [] ∷ [])
      (omega arith)

read_websocket_frame-FitsResult_example :
    FitsResult (read_websocket_frame idle (first_fragment (1 ∷ []) ∷ []))
read_websocket_frame-FitsResult_example =
    read_websocket_frame-FitsResult idle (first_fragment (1 ∷ []) ∷ []) tt (omega arith, tt)

abbrev hello : RawWebSocketFrame
hello = record { fin = true; opcode = 1; payload = 104 ∷ 105 ∷ [] }

-- a text of two bytes under the mask 1 2 3 4
hello_reads :
    read_raw_websocket_frame (129 ∷ 130 ∷ 1 ∷ 2 ∷ 3 ∷ 4 ∷ 105 ∷ 107 ∷ 9 ∷ [])
    ≡ ok (some (hello, 9 ∷ []))
unfolding read_raw_websocket_frame
hello_reads = refl

read_raw_websocket_frame-IsRawFrame_example : IsRawFrame hello
read_raw_websocket_frame-IsRawFrame_example =
    read_raw_websocket_frame-IsRawFrame (129 ∷ 130 ∷ 1 ∷ 2 ∷ 3 ∷ 4 ∷ 105 ∷ 107 ∷ 9 ∷ []) hello
      (9 ∷ []) hello_reads

read-write_websocket_frame_example :
    (write_websocket_frame 1 (104 ∷ 105 ∷ []) (1 ∷ 2 ∷ 3 ∷ 4 ∷ [])
      >>= (λ bytes. read_raw_websocket_frame (bytes ++ (9 ∷ []))))
    ≡ ok (some (hello, 9 ∷ []))
read-write_websocket_frame_example =
    read-write_websocket_frame 1 (104 ∷ 105 ∷ []) (1 ∷ 2 ∷ 3 ∷ 4 ∷ []) (9 ∷ []) (omega arith)
      (omega arith) refl refl (omega arith, (omega arith, (omega arith, (omega arith, tt))))
      (omega arith, (omega arith, tt))
