-- ===== src/Rpc/Framing.antt =====
-- crates/wxcd-cbth-rpc/src/lib.rs: a frame that was written reads back, and no more than the budget
-- is ever read.
use mathlib.Core.List.{append_assoc}
use codex_webex_connector.Base.{
  ℕ, ◌%◌, ◌≤◌, ◌<◌, true, false, Option, none, some, List, [], ◌∷◌, ◌++◌, ◌≡◌, refl, ap, arith, ltb,
  leb, eqb, length, take, drop, length-take, take-append-drop, length-append, Option-cases, inl,
  inr,
}
use codex_webex_connector.Base.Result.{ok, Result-cases}
use codex_webex_connector.Rpc.{
  to_be_bytes, from_be_bytes, read_exact, read_plugin_rpc_frame, write_plugin_rpc_frame, RpcCodec,
  frame_length_prefix_bytes, u32_mod,
}

from_be_bytes-to_be_bytes : (n : ℕ) → n < u32_mod → from_be_bytes (to_be_bytes n) ≡ n
unfolding from_be_bytes to_be_bytes
from_be_bytes-to_be_bytes n h = omega arith

take-front : (p rest : List ℕ) → take (length p) (p ++ rest) ≡ p
take-front [] rest = refl
take-front (x ∷ p) rest = ap (◌∷◌ x) (take-front p rest)

drop-front : (p rest : List ℕ) → drop (length p) (p ++ rest) ≡ rest
drop-front [] rest = refl
drop-front (x ∷ p) rest = drop-front p rest

leb-front : (p rest : List ℕ) → leb (length p) (length (p ++ rest)) ≡ true
leb-front p rest = ground (arith, length-append p rest)

read_exact-append : (p rest : List ℕ) → read_exact (length p) (p ++ rest) ≡ ok (p, rest)
unfolding read_exact
read_exact-append p rest = rw (leb-front p rest, take-front p rest, drop-front p rest) refl

read_exact-prefix :
    (n : ℕ) (behind : List ℕ)
    → read_exact frame_length_prefix_bytes (to_be_bytes n ++ behind) ≡ ok (to_be_bytes n, behind)
unfolding read_exact to_be_bytes
read_exact-prefix n behind = ground arith

module _ {T : Type 0} (codec : RpcCodec T) where
  write-payload :
      (x : T) (max : ℕ) (p bytes : List ℕ)
      → codec.to_vec x ≡ some p
      → write_plugin_rpc_frame codec.to_vec x max ≡ ok bytes
      → (length p ≤ max) × (length p < u32_mod) × (bytes ≡ to_be_bytes (length p % u32_mod) ++ p)
  unfolding write_plugin_rpc_frame
  write-payload x max p bytes e h = ground arith

  write-nothing :
      (x : T) (max : ℕ) (bytes : List ℕ)
      → codec.to_vec x ≡ none
      → write_plugin_rpc_frame codec.to_vec x max ≡ ok bytes
      → ⊥
  unfolding write_plugin_rpc_frame
  write-nothing x max bytes e h = ground arith

  read-frame :
      (x : T) (max : ℕ) (p rest : List ℕ)
      → codec.from_slice p ≡ some x
      → 0 < length p
      → length p ≤ max
      → length p < u32_mod
      → read_plugin_rpc_frame codec.from_slice max (to_be_bytes (length p) ++ (p ++ rest))
        ≡ ok (x, rest)
  unfolding read_plugin_rpc_frame
  read-frame x max p rest d n m u =
      let positive : eqb max 0 ≡ false = ground arith in
      let filled : eqb (length p) 0 ≡ false = ground arith in
      let fits : ltb max (length p) ≡ false = ground arith in
      rw
        (
          positive,
          read_exact-prefix (length p) (p ++ rest),
          from_be_bytes-to_be_bytes (length p) u,
          filled,
          fits,
          read_exact-append p rest,
          d,
        )
        refl

  -- A frame that `write_plugin_rpc_frame` writes within a budget is read back by
  -- `read_plugin_rpc_frame` under the same budget, and what follows it in the stream is left there.
  pub read-write_plugin_rpc_frame :
      (x : T) (max : ℕ) (bytes rest : List ℕ)
      → write_plugin_rpc_frame codec.to_vec x max ≡ ok bytes
      → read_plugin_rpc_frame codec.from_slice max (bytes ++ rest) ≡ ok (x, rest)
  read-write_plugin_rpc_frame x max bytes rest h = elim (Option-cases (codec.to_vec x)) [
    | inl e ↦ absurd (write-nothing x max bytes e h)
    | inr (p, e) ↦
        let (m, u, b) = write-payload x max p bytes e h in
        let small : length p % u32_mod ≡ length p = omega arith in
        rw (b, small, append_assoc)
          (read-frame x max p rest (codec.round_trip x p e) (codec.not_empty x p e) m u)
  ]

read_exact-taken :
    (n : ℕ) (stream front rest : List ℕ)
    → read_exact n stream ≡ ok (front, rest)
    → (stream ≡ front ++ rest) × (length front ≡ n)
unfolding read_exact
read_exact-taken n stream front rest h =
    ground (arith, take-append-drop n stream, length-take n stream)

-- Whatever the stream holds, what a read accepts is one frame: four bytes that give the length of
-- the payload behind them, at least one byte and within the budget, and the rest of the stream is
-- left as it was.
pub read_plugin_rpc_frame-bounded :
    {T : Type 0} (from_slice : List ℕ → Option T) (max : ℕ) (stream rest : List ℕ) (x : T)
    → read_plugin_rpc_frame from_slice max stream ≡ ok (x, rest)
    → (prefix payload : List ℕ) × (stream ≡ prefix ++ (payload ++ rest))
      × (length prefix ≡ frame_length_prefix_bytes)
      × (length payload ≡ from_be_bytes prefix)
      × (0 < length payload)
      × (length payload ≤ max)
      × (from_slice payload ≡ some x)
unfolding read_plugin_rpc_frame
read_plugin_rpc_frame-bounded from_slice max stream rest x h =
    elim (Result-cases (read_exact frame_length_prefix_bytes stream)) [
      | inr (e, r) ↦ absurd (ground arith)
      | inl ((prefix, behind), r) ↦ elim (Result-cases (read_exact (from_be_bytes prefix) behind)) [
        | inr (e, q) ↦ absurd (ground arith)
        | inl ((payload, left), q) ↦
            let (at, four) = read_exact-taken frame_length_prefix_bytes stream prefix behind r in
            let (split, size) = read_exact-taken (from_be_bytes prefix) behind payload left q in
            (prefix, payload, ground arith, four, size, ground arith, ground arith, ground arith)
      ]
    ]
