-- ===== src/Websocket/Fragments.antt =====
-- crates/wxcd-codex/src/lib.rs, `read_websocket_frame`: texts that come in fragments.
use codex_webex_connector.Base.{
  ℕ, ◌+◌, ◌≤◌, Bool, true, false, Option, none, some, List, [], ◌∷◌, ◌++◌, ◌≡◌, refl, arith, ltb,
  eqb, length, length-append, Bool-cases, inl, inr, if◌then◌else◌, All,
}
use codex_webex_connector.Base.Result.{ok, err}
use codex_webex_connector.Websocket.{
  fragmented_non_text, WebSocketFrame, text, ping, pong, close, other, WebSocketReadState,
  RawWebSocketFrame, Round, failed, answered, again, on_text, on_continuation, accept_frame,
  after_round, ReadResult, read_websocket_frame, max_websocket_frame_bytes,
}

abbrev pub started : List ℕ → WebSocketReadState
started partial = record { partial_text = some partial }

abbrev pub idle : WebSocketReadState
idle = record { partial_text = none }

abbrev pub first_fragment : List ℕ → RawWebSocketFrame
first_fragment p = record { fin = false; opcode = 1; payload = p }

-- the fragments behind the first one, the last of which is marked
abbrev pub continued : List (List ℕ) → List ℕ → List RawWebSocketFrame → List RawWebSocketFrame
continued [] last rest = record { fin = true; opcode = 0; payload = last } ∷ rest
continued (p ∷ ps) last rest =
    record { fin = false; opcode = 0; payload = p } ∷ continued ps last rest

abbrev pub joined : List ℕ → List (List ℕ) → List ℕ → List ℕ
joined partial [] last = partial ++ last
joined partial (p ∷ ps) last = joined (partial ++ p) ps last

joined-length :
    (partial : List ℕ) (ps : List (List ℕ)) (last : List ℕ)
    → length partial ≤ length (joined partial ps last)
joined-length partial [] last = ground (arith, length-append partial last)
joined-length partial (p ∷ ps) last =
    ground (arith, joined-length (partial ++ p) ps last, length-append partial p)

continued-reads :
    (partial : List ℕ) (ps : List (List ℕ)) (last : List ℕ) (rest : List RawWebSocketFrame)
    → length (joined partial ps last) ≤ max_websocket_frame_bytes
    → read_websocket_frame (started partial) (continued ps last rest)
      ≡ ok (some (text (joined partial ps last)), idle, rest)
unfolding read_websocket_frame accept_frame
continued-reads partial [] last rest h =
    elim (Bool-cases (ltb max_websocket_frame_bytes (length partial + length last))) [
      | inl e ↦ ground (arith, length-append partial last)
      | inr e ↦ rw e refl
    ]
continued-reads partial (p ∷ ps) last rest h =
    elim (Bool-cases (ltb max_websocket_frame_bytes (length partial + length p))) [
      | inl e ↦ ground (arith, length-append partial p, joined-length (partial ++ p) ps last)
      | inr e ↦ rw e (continued-reads (partial ++ p) ps last rest h)
    ]

-- A text that comes in fragments of which none is marked as the last but the last, and that is within
-- the limit, is read as the fragments put together in order; what follows is left in the reader.
pub read_websocket_frame-fragments :
    (first : List ℕ) (ps : List (List ℕ)) (last : List ℕ) (rest : List RawWebSocketFrame)
    → length (joined first ps last) ≤ max_websocket_frame_bytes
    → read_websocket_frame idle (first_fragment first ∷ continued ps last rest)
      ≡ ok (some (text (joined first ps last)), idle, rest)
unfolding read_websocket_frame accept_frame
read_websocket_frame-fragments first ps last rest h = continued-reads first ps last rest h

abbrev pub FitsText : Option (List ℕ) → Type 0
FitsText none = Unit
FitsText (some p) = length p ≤ max_websocket_frame_bytes

abbrev FitsFrame : WebSocketFrame → Type 0
FitsFrame (text p) = length p ≤ max_websocket_frame_bytes
FitsFrame (ping p) = length p ≤ max_websocket_frame_bytes
FitsFrame (pong p) = length p ≤ max_websocket_frame_bytes
FitsFrame close = Unit
FitsFrame other = Unit

abbrev FitsRound : Round → Type 0
FitsRound (failed e) = Unit
FitsRound (answered frame state) = FitsFrame frame × FitsText state.partial_text
FitsRound (again state) = FitsText state.partial_text

-- the frame that is given and the text that is kept are within the limit
abbrev pub FitsResult : ReadResult → Type 0
FitsResult (err e) = Unit
FitsResult (ok (none, state, rest)) = FitsText state.partial_text
FitsResult (ok (some frame, state, rest)) = FitsFrame frame × FitsText state.partial_text

abbrev pub FitsRaw : RawWebSocketFrame → Type 0
FitsRaw frame = length frame.payload ≤ max_websocket_frame_bytes

FitsRound-if : (b : Bool) (r q : Round) → FitsRound r → FitsRound q → FitsRound (if b then r else q)
FitsRound-if true r q h k = h
FitsRound-if false r q h k = k

on_text-FitsRound :
    (frame : RawWebSocketFrame) (o : Option (List ℕ)) → FitsRaw frame → FitsRound (on_text frame o)
on_text-FitsRound frame (some partial) h = tt
on_text-FitsRound frame none h =
    FitsRound-if frame.fin (answered (text frame.payload) idle) (again (started frame.payload))
      (h, tt) h

on_continuation-FitsRound :
    (frame : RawWebSocketFrame) (o : Option (List ℕ)) → FitsRound (on_continuation frame o)
on_continuation-FitsRound frame none = tt
on_continuation-FitsRound frame (some partial) =
    elim (Bool-cases (ltb max_websocket_frame_bytes (length partial + length frame.payload))) [
      | inl e ↦ rw e tt
      | inr e ↦
          let fits : length (partial ++ frame.payload) ≤ max_websocket_frame_bytes =
            ground (arith, length-append partial frame.payload) in
          rw e (
            FitsRound-if frame.fin (answered (text (partial ++ frame.payload)) idle)
              (again (started (partial ++ frame.payload))) (fits, tt) fits)
    ]

accept_frame-FitsRound :
    (state : WebSocketReadState) (frame : RawWebSocketFrame)
    → FitsText state.partial_text
    → FitsRaw frame
    → FitsRound (accept_frame state frame)
unfolding accept_frame
accept_frame-FitsRound state frame s h =
    FitsRound-if (eqb frame.opcode 1) _ _ (on_text-FitsRound frame state.partial_text h) (
      FitsRound-if (eqb frame.opcode 0) _ _ (on_continuation-FitsRound frame state.partial_text) (
        FitsRound-if (eqb frame.opcode 8) (answered close state) _ (tt, s)
          (FitsRound-if (eqb frame.opcode 9) (answered (ping frame.payload) state) _ (h, s)
            (FitsRound-if (eqb frame.opcode 10) (answered (pong frame.payload) state) _ (h, s)
              (FitsRound-if frame.fin (answered other state) (failed fragmented_non_text) (tt, s)
                tt)))))

after_round-FitsResult :
    (r : Round) (frames : List RawWebSocketFrame) (next : WebSocketReadState → ReadResult)
    → FitsRound r
    → ((state : WebSocketReadState) → FitsText state.partial_text → FitsResult (next state))
    → FitsResult (after_round r frames next)
after_round-FitsResult (failed e) frames next h k = tt
after_round-FitsResult (answered frame state) frames next h k = h
after_round-FitsResult (again state) frames next h k = k state h

-- Whatever the frames, none of them over the limit, what is given to the caller and what is kept for
-- the next read are within the limit.
pub read_websocket_frame-FitsResult :
    (state : WebSocketReadState) (frames : List RawWebSocketFrame)
    → FitsText state.partial_text
    → All FitsRaw frames
    → FitsResult (read_websocket_frame state frames)
unfolding read_websocket_frame
read_websocket_frame-FitsResult state [] s h = s
read_websocket_frame-FitsResult state (frame ∷ frames) s h =
    after_round-FitsResult (accept_frame state frame) frames
      (λ next. read_websocket_frame next frames) (accept_frame-FitsRound state frame s h.0)
      (λ next fits. read_websocket_frame-FitsResult next frames fits h.1)
