-- ===== src/Websocket/Writing.antt =====
-- crates/wxcd-codex/src/lib.rs, `write_websocket_frame`: the bytes of a frame, and how they are read.
-- The mask that is drawn at random is a parameter.
use codex_webex_connector.Base.{
  ℕ, ◌+◌, ◌/◌, ◌%◌, ◌<◌, ◌≤◌, true, false, ◌&&◌, some, List, [], ◌∷◌, ◌++◌, ◌≡◌, refl, ap, subst,
  arith, ltb, leb, length, length-append, take, drop, All, Bool-cases, inl, inr, if◌then◌else◌,
}
use codex_webex_connector.Base.Result.{Result, ok, ◌>>=◌, ◌>>◌, bail_if}
use codex_webex_connector.Websocket.{RawWebSocketFrame, max_websocket_frame_bytes}
use codex_webex_connector.Websocket.Raw.{
  RawError, too_large, control_too_large, read_exact, be_value, frame_length, read_mask, read_body,
  unmask, length-unmask, read_raw_websocket_frame,
}
use codex_webex_connector.Websocket.Mask.{IsByte, unmask-unmask}

abbrev pub long_bytes : ℕ → List ℕ
long_bytes n =
    n / 72057594037927936 % 256
    ∷ n / 281474976710656 % 256
    ∷ n / 1099511627776 % 256
    ∷ n / 4294967296 % 256
    ∷ n / 16777216 % 256
    ∷ n / 65536 % 256
    ∷ n / 256 % 256
    ∷ n % 256
    ∷ []

-- the second byte, and the bytes of a length that does not fit into it
unfoldable pub length_bytes : ℕ → ℕ × List ℕ
length_bytes n =
    if ltb n 126
    then (128 + n, [])
    else if ltb n 65536
    then (254, n / 256 % 256 ∷ n % 256 ∷ [])
    else (255, long_bytes n)

unfoldable pub write_websocket_frame : ℕ → List ℕ → List ℕ → Result RawError (List ℕ)
unfolding length_bytes
write_websocket_frame opcode payload mask =
    bail_if (ltb max_websocket_frame_bytes (length payload)) too_large
    >> (bail_if (leb 8 (opcode % 16) && ltb 125 (length payload)) control_too_large
        >> (let (second, extended) = length_bytes (length payload) in
            ok ((128 + opcode % 16) ∷ second ∷ (extended ++ (mask ++ unmask mask mask payload)))))

take-front : (p rest : List ℕ) → take (length p) (p ++ rest) ≡ p
take-front [] rest = refl
take-front (x ∷ p) rest = ap (◌∷◌ x) (take-front p rest)

drop-front : (p rest : List ℕ) → drop (length p) (p ++ rest) ≡ rest
drop-front [] rest = refl
drop-front (x ∷ p) rest = drop-front p rest

read_exact-front : (p rest : List ℕ) → read_exact (length p) (p ++ rest) ≡ ok (p, rest)
unfolding read_exact
read_exact-front p rest =
    let fits : leb (length p) (length (p ++ rest)) ≡ true =
      rw (length-append p rest) (ground arith) in
    rw (fits, take-front p rest, drop-front p rest) refl

valued_eq :
    (bytes tail : List ℕ) (n : ℕ)
    → be_value 0 bytes ≡ n
    → Path
        (Result RawError (ℕ × List ℕ))
        (read_exact (length bytes) (bytes ++ tail) >>= (λ r. ok (be_value 0 r.0, r.1)))
        (ok (n, tail))
valued_eq bytes tail n h = rw (read_exact-front bytes tail, h) refl

short_length :
    (n : ℕ) (tail : List ℕ) → n < 126 → frame_length ((128 + n) % 128) tail ≡ ok (n, tail)
unfolding read_exact
short_length n tail h = let same : (128 + n) % 128 ≡ n = omega arith in rw same (ground arith)

pair_value : (n : ℕ) → n < 65536 → be_value 0 (n / 256 % 256 ∷ n % 256 ∷ []) ≡ n
pair_value n h = omega arith

long_value : (n : ℕ) → n ≤ max_websocket_frame_bytes → be_value 0 (long_bytes n) ≡ n
long_value n h =
    let a : n / 72057594037927936 % 256 ≡ 0 = omega arith in
    let b : n / 281474976710656 % 256 ≡ 0 = omega arith in
    let c : n / 1099511627776 % 256 ≡ 0 = omega arith in
    let d : n / 4294967296 % 256 ≡ 0 = omega arith in rw (a, b, c, d) (omega arith)

read_pair :
    (n : ℕ) (tail : List ℕ)
    → n < 65536
    → frame_length (254 % 128) ((n / 256 % 256 ∷ n % 256 ∷ []) ++ tail) ≡ ok (n, tail)
read_pair n tail h = valued_eq (n / 256 % 256 ∷ n % 256 ∷ []) tail n (pair_value n h)

read_long :
    (n : ℕ) (tail : List ℕ)
    → n ≤ max_websocket_frame_bytes
    → frame_length (255 % 128) (long_bytes n ++ tail) ≡ ok (n, tail)
read_long n tail h = valued_eq (long_bytes n) tail n (long_value n h)

frame_length-length_bytes :
    (n : ℕ) (tail : List ℕ)
    → n ≤ max_websocket_frame_bytes
    → frame_length ((length_bytes n).0 % 128) ((length_bytes n).1 ++ tail) ≡ ok (n, tail)
unfolding length_bytes
frame_length-length_bytes n tail h = elim (Bool-cases (ltb n 126)) [
  | inl e ↦ rw e (short_length n tail (ground arith))
  | inr e ↦ elim (Bool-cases (ltb n 65536)) [
    | inl f ↦ rw (e, f) (read_pair n tail (ground arith))
    | inr f ↦ rw (e, f) (read_long n tail h)
  ]
]

length_bytes-masked : (n : ℕ) → leb 128 (length_bytes n).0 ≡ true
unfolding length_bytes
length_bytes-masked n = elim (Bool-cases (ltb n 126)) [
  | inl e ↦ rw e (ground arith)
  | inr e ↦ elim (Bool-cases (ltb n 65536)) [ inl f ↦ rw (e, f) refl | inr f ↦ rw (e, f) refl ]
]

read_mask-front :
    (second : ℕ) (mask tail : List ℕ)
    → leb 128 second ≡ true
    → length mask ≡ 4
    → read_mask (leb 128 second) (mask ++ tail) ≡ ok (mask, tail)
read_mask-front second mask tail h l =
    rw h (subst (λ k. read_exact k (mask ++ tail) ≡ ok (mask, tail)) l (read_exact-front mask tail))

read_exact-unmask :
    (mask payload rest : List ℕ)
    → read_exact (length payload) (unmask mask mask payload ++ rest)
      ≡ ok (unmask mask mask payload, rest)
read_exact-unmask mask payload rest =
    subst
      (λ k. read_exact k (unmask mask mask payload ++ rest) ≡ ok (unmask mask mask payload, rest))
      (length-unmask mask mask payload) (read_exact-front (unmask mask mask payload) rest)

-- the frame that is meant
abbrev pub whole_frame : ℕ → List ℕ → RawWebSocketFrame
whole_frame opcode payload = record { fin = true; opcode = opcode; payload = payload }

read_body-written :
    (first second opcode : ℕ) (payload mask rest : List ℕ)
    → first % 16 ≡ opcode
    → leb 128 first ≡ true
    → leb 128 second ≡ true
    → ltb max_websocket_frame_bytes (length payload) ≡ false
    → (leb 8 opcode && ltb 125 (length payload)) ≡ false
    → length mask ≡ 4
    → All IsByte mask
    → All IsByte payload
    → read_body first second (length payload, mask ++ (unmask mask mask payload ++ rest))
      ≡ ok (some (whole_frame opcode payload, rest))
read_body-written first second opcode payload mask rest o f s l c m b p =
    rw
      (
        o,
        f,
        l,
        c,
        read_mask-front second mask (unmask mask mask payload ++ rest) s m,
        read_exact-unmask mask payload rest,
        o,
        f,
        unmask-unmask mask mask payload b b p,
      )
      refl

append_assoc : (xs ys zs : List ℕ) → (xs ++ ys) ++ zs ≡ xs ++ (ys ++ zs)
append_assoc [] ys zs = refl
append_assoc (x ∷ xs) ys zs = ap (◌∷◌ x) (append_assoc xs ys zs)

reading :
    (opcode : ℕ) (payload mask rest : List ℕ)
    → opcode < 16
    → length payload ≤ max_websocket_frame_bytes
    → (leb 8 opcode && ltb 125 (length payload)) ≡ false
    → length mask ≡ 4
    → All IsByte mask
    → All IsByte payload
    → (frame_length
          ((length_bytes (length payload)).0 % 128)
          (((length_bytes (length payload)).1 ++ (mask ++ unmask mask mask payload)) ++ rest)
        >>= read_body (128 + opcode % 16) (length_bytes (length payload)).0)
      ≡ ok (some (whole_frame opcode payload, rest))
reading opcode payload mask rest o l c m b p =
    rw
      (
        append_assoc (length_bytes (length payload)).1 (mask ++ unmask mask mask payload) rest,
        append_assoc mask (unmask mask mask payload) rest,
        frame_length-length_bytes (length payload) (mask ++ (unmask mask mask payload ++ rest)) l,
      )
      (read_body-written (128 + opcode % 16) (length_bytes (length payload)).0 opcode payload mask
        rest (omega arith) (ground arith) (length_bytes-masked (length payload)) (ground arith) c m
        b p)

-- The bytes that are written for a whole frame within the limits, whatever follows them, are read as
-- that frame, and exactly what follows is left: for an opcode of four bits, a payload of bytes of at
-- most 16 MiB (of at most 125 bytes in a control frame) and every mask of four bytes.
pub read-write_websocket_frame :
    (opcode : ℕ) (payload mask rest : List ℕ)
    → opcode < 16
    → length payload ≤ max_websocket_frame_bytes
    → (leb 8 opcode && ltb 125 (length payload)) ≡ false
    → length mask ≡ 4
    → All IsByte mask
    → All IsByte payload
    → (write_websocket_frame opcode payload mask
        >>= (λ bytes. read_raw_websocket_frame (bytes ++ rest)))
      ≡ ok (some (whole_frame opcode payload, rest))
unfolding write_websocket_frame read_raw_websocket_frame
read-write_websocket_frame opcode payload mask rest o l c m b p =
    let same : opcode % 16 ≡ opcode = omega arith in
    let fits : ltb max_websocket_frame_bytes (length payload) ≡ false = ground arith in
    let small : (leb 8 (opcode % 16) && ltb 125 (length payload)) ≡ false = rw same c in
    rw (fits, small) (reading opcode payload mask rest o l c m b p)
