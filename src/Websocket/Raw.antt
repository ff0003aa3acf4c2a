-- ===== src/Websocket/Raw.antt =====
-- crates/wxcd-codex/src/lib.rs, `read_raw_websocket_frame`: one frame from the bytes of a stream, with
-- its length and its mask. A byte is a number below 256, so that `& 0x0f` is a remainder and a test of
-- the top bit is a comparison with 128.
use Prim.Native.Nat.{bit_xor}
use codex_webex_connector.Base.{
  ℕ, ◌+◌, ◌*◌, ◌%◌, ◌<◌, Bool, false, not, ◌&&◌, ◌||◌, Option, none, some, List, [], ◌∷◌, ◌≡◌, refl,
  subst, ◌∙◌, arith, ltb, leb, eqb, length, take, drop, length-take, Bool-cases, inl, inr,
  if◌then◌else◌,
}
use codex_webex_connector.Base.Result.{Result, ok, err, ◌>>=◌, ◌>>◌, bail_if}
use codex_webex_connector.Websocket.{RawWebSocketFrame, max_websocket_frame_bytes}
use codex_webex_connector.Websocket.Fragments.{FitsRaw}

pub data RawError : Type 0 where
  cut_off too_large control_too_large : RawError

unfoldable pub read_exact : ℕ → List ℕ → Result RawError (List ℕ × List ℕ)
read_exact n stream =
    if leb n (length stream) then ok (take n stream, drop n stream) else err cut_off

-- `from_be_bytes`
abbrev pub be_value : ℕ → List ℕ → ℕ
be_value acc [] = acc
be_value acc (b ∷ bs) = be_value (acc * 256 + b) bs

-- the length, and what is behind it
abbrev pub frame_length : ℕ → List ℕ → Result RawError (ℕ × List ℕ)
frame_length n stream =
    if eqb n 126
    then read_exact 2 stream >>= (λ r. ok (be_value 0 r.0, r.1))
    else if eqb n 127
    then read_exact 8 stream >>= (λ r. ok (be_value 0 r.0, r.1))
    else ok (n, stream)

abbrev pub read_mask : Bool → List ℕ → Result RawError (List ℕ × List ℕ)
read_mask masked stream = if masked then read_exact 4 stream else ok ([], stream)

abbrev pub rotate : List ℕ → List ℕ → List ℕ
rotate [] all = all
rotate (k ∷ key) all = k ∷ key

-- each byte against the next one of the key, which comes round again
unfoldable pub unmask : List ℕ → List ℕ → List ℕ → List ℕ
unmask key all [] = []
unmask [] [] (b ∷ bytes) = b ∷ bytes
unmask [] (k ∷ ks) (b ∷ bytes) = bit_xor b k ∷ unmask ks (k ∷ ks) bytes
unmask (k ∷ key) all (b ∷ bytes) = bit_xor b k ∷ unmask key all bytes

abbrev pub RawResult : Type 0
RawResult = Result RawError (Option (RawWebSocketFrame × List ℕ))

abbrev pub framed : ℕ → List ℕ → List ℕ × List ℕ → RawResult
framed first mask (bytes, rest) = ok (
    some
      (record { fin = leb 128 first; opcode = first % 16; payload = unmask mask mask bytes }, rest))

abbrev pub read_body : ℕ → ℕ → ℕ × List ℕ → RawResult
read_body first second (size, stream) =
    let opcode = first % 16 in
    let fin = leb 128 first in
    bail_if (ltb max_websocket_frame_bytes size) too_large
    >> (bail_if (leb 8 opcode && (not fin || ltb 125 size)) control_too_large
        >> (read_mask (leb 128 second) stream
            >>= (λ mask. read_exact size mask.1 >>= framed first mask.0)))

unfoldable pub read_raw_websocket_frame : List ℕ → RawResult
unfolding read_exact unmask
read_raw_websocket_frame [] = ok none
read_raw_websocket_frame (first ∷ []) = ok none
read_raw_websocket_frame (first ∷ second ∷ stream) =
    frame_length (second % 128) stream >>= read_body first second

pub length-unmask : (key all bytes : List ℕ) → length (unmask key all bytes) ≡ length bytes
unfolding unmask
length-unmask key all [] = refl
length-unmask [] [] (b ∷ bytes) = refl
length-unmask [] (k ∷ ks) (b ∷ bytes) = ground (arith, length-unmask ks (k ∷ ks) bytes)
length-unmask (k ∷ key) all (b ∷ bytes) = ground (arith, length-unmask key all bytes)

read_exact-length :
    (n : ℕ) (stream : List ℕ) (r : List ℕ × List ℕ) → read_exact n stream ≡ ok r → length r.0 ≡ n
unfolding read_exact
read_exact-length n stream r h = elim (Bool-cases (leb n (length stream))) [
  | inl e ↦ ground (arith, length-take n stream)
  | inr e ↦ ground arith
]

-- a frame within the limits
abbrev pub IsRawFrame : RawWebSocketFrame → Type 0
IsRawFrame f =
    FitsRaw f
    × (f.opcode < 16)
    × ((leb 8 f.opcode && (not f.fin || ltb 125 (length f.payload))) ≡ false)

framed_eq :
    (g : RawWebSocketFrame) (behind : List ℕ) (f : RawWebSocketFrame) (rest : List ℕ)
    → Path RawResult (ok (some (g, behind))) (ok (some (f, rest)))
    → g ≡ f
framed_eq g behind f rest h = cc

body-IsRawFrame :
    (first size : ℕ) (mask : List ℕ) (body : Result RawError (List ℕ × List ℕ))
    (f : RawWebSocketFrame) (rest : List ℕ)
    → ltb max_websocket_frame_bytes size ≡ false
    → (leb 8 (first % 16) && (not (leb 128 first) || ltb 125 size)) ≡ false
    → ((r : List ℕ × List ℕ) → body ≡ ok r → length r.0 ≡ size)
    → (body >>= framed first mask) ≡ ok (some (f, rest))
    → IsRawFrame f
body-IsRawFrame first size mask (err e) f rest l c n h = cc
body-IsRawFrame first size mask (ok (front, behind)) f rest l c n h =
    let same : length (unmask mask mask front) ≡ size =
      length-unmask mask mask front ∙ n (front, behind) refl in
    let whole : RawWebSocketFrame = record {
      fin = leb 128 first;
      opcode = first % 16;
      payload = unmask mask mask front;
    } in
    subst IsRawFrame (framed_eq whole behind f rest h) (ground arith, omega arith, rw same c)

masked :
    (first size : ℕ) (m : Result RawError (List ℕ × List ℕ)) (f : RawWebSocketFrame) (rest : List ℕ)
    → (m >>= (λ mask. read_exact size mask.1 >>= framed first mask.0)) ≡ ok (some (f, rest))
    → ltb max_websocket_frame_bytes size ≡ false
    → (leb 8 (first % 16) && (not (leb 128 first) || ltb 125 size)) ≡ false
    → IsRawFrame f
masked first size (err e) f rest h l c = cc
masked first size (ok (key, stream)) f rest h l c =
    body-IsRawFrame first size key (read_exact size stream) f rest l c
      (read_exact-length size stream) h

read_body-IsRawFrame :
    (first second : ℕ) (sized : ℕ × List ℕ) (f : RawWebSocketFrame) (rest : List ℕ)
    → read_body first second sized ≡ ok (some (f, rest))
    → IsRawFrame f
read_body-IsRawFrame first second (size, stream) f rest h =
    elim (Bool-cases (ltb max_websocket_frame_bytes size)) [
      | inl e ↦ ground arith
      | inr e ↦ elim (Bool-cases (leb 8 (first % 16) && (not (leb 128 first) || ltb 125 size))) [
        | inl c ↦ ground arith
        | inr c ↦ masked first size (read_mask (leb 128 second) stream) f rest (rw (e, c) at h) e c
      ]
    ]

sized-IsRawFrame :
    (first second : ℕ) (r : Result RawError (ℕ × List ℕ)) (f : RawWebSocketFrame) (rest : List ℕ)
    → (r >>= read_body first second) ≡ ok (some (f, rest))
    → IsRawFrame f
sized-IsRawFrame first second (err e) f rest h = cc
sized-IsRawFrame first second (ok sized) f rest h = read_body-IsRawFrame first second sized f rest h

-- Whatever the bytes, the payload of a frame that is read is within the limit, its opcode has four
-- bits, and a control frame is whole and has at most 125 bytes.
pub read_raw_websocket_frame-IsRawFrame :
    (stream : List ℕ) (f : RawWebSocketFrame) (rest : List ℕ)
    → read_raw_websocket_frame stream ≡ ok (some (f, rest))
    → IsRawFrame f
unfolding read_raw_websocket_frame
read_raw_websocket_frame-IsRawFrame [] f rest h = cc
read_raw_websocket_frame-IsRawFrame (first ∷ []) f rest h = cc
read_raw_websocket_frame-IsRawFrame (first ∷ second ∷ stream) f rest h =
    sized-IsRawFrame first second (frame_length (second % 128) stream) f rest h
