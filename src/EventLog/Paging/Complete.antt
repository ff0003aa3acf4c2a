-- ===== src/EventLog/Paging/Complete.antt =====
-- `EventLog::replay` as a whole: what it reads replays like the whole room, and it always ends.
use mathlib.Core.List.{append-nil}
use codex_webex_connector.Base.{
  ℕ, zero, suc, ◌+◌, ◌-◌, ◌≤◌, ◌<◌, String, true, Option, none, List, [], ◌∷◌, ◌++◌, ◌≡◌, ◌≢◌,
  Option-cases, refl, sym, ◌∙◌, ap, arith, any, is_some, All, length, subst, inl, inr, Bool-cases,
}
use codex_webex_connector.EventLog.{ReplayState}
use codex_webex_connector.EventLog.Frames.{Codec, Message, message_has_snapshot, snapshot_of}
use codex_webex_connector.EventLog.Replay.{replay_from_messages, step, replay_from_messages-cons}
use codex_webex_connector.EventLog.Paging.{
  Serves, ReadsEnough, ReadResult, read, request_failed, page_limit, out_of_fuel, replay_page_size,
  replay_max_pages, replay_page_exceeds_limit, last_id, read_pages, replay, replay_read,
}
use codex_webex_connector.EventLog.Paging.Rounds.{read_pages-ReadsEnough}

module _ (codec : Codec) where
  -- a frame with the snapshot prefix is one that decodes
  abbrev pub IsReadable : Message → Type 0
  IsReadable m = message_has_snapshot m ≡ true → is_some (snapshot_of codec m) ≡ true

  step-snapshot :
      (a b : ReplayState) (m : Message)
      → is_some (snapshot_of codec m) ≡ true
      → step codec a m ≡ step codec b m
  unfolding step
  step-snapshot a b m h = ground arith

  -- What stands behind a snapshot that decodes plays no part in the replay.
  replay-older :
      (seen older : List Message)
      → All IsReadable seen
      → any message_has_snapshot seen ≡ true
      → replay_from_messages codec (seen ++ older) ≡ replay_from_messages codec seen
  replay-older [] older r h = cc
  replay-older (m ∷ ms) older r h =
      replay_from_messages-cons codec m (ms ++ older)
      ∙ elim (Bool-cases (message_has_snapshot m)) [
        | inl here ↦
            step-snapshot (replay_from_messages codec (ms ++ older)) (replay_from_messages codec ms)
              m (r.0 here)
        | inr later ↦ ap (λ s. step codec s m) (replay-older ms older r.1 (rw later at h))
      ]
      ∙ sym (replay_from_messages-cons codec m ms)

All-front {ℓ κ} : {A : Type ℓ} (P : A → Type κ) (xs ys : List A) → All P (xs ++ ys) → All P xs
All-front P [] ys h = tt
All-front P (x ∷ xs) ys h = (h.0, All-front P xs ys h.1)

module _ (codec : Codec) (fetch : Option String → Option (List Message)) where
  replay_of_read :
      (log : List Message) (r : ReadResult)
      → ReadsEnough log r
      → All (IsReadable codec) log
      → replay_read codec r ≡ inr (replay_from_messages codec log)
  replay_of_read log r e h =
      let readable =
        All-front (IsReadable codec) e.seen e.unseen (subst (All (IsReadable codec)) e.splits h) in
      rw (e.result, e.splits)
        (elim e.enough [
          | inl all ↦ rw (all, append-nil)
          | inr found ↦ ap (λ s. inr s) (sym (replay-older codec e.seen e.unseen readable found))
        ])

  -- If the service answers as it documents, the room holds at most 5000 messages and its snapshot
  -- frames decode, `replay` succeeds and gives what replaying every message of the room gives,
  -- though it stops at the first snapshot.
  pub replay-eq-replay_from_messages :
      (log : List Message)
      → Serves replay_page_size replay_max_pages fetch log
      → length log ≤ 5000
      → All (IsReadable codec) log
      → replay codec fetch ≡ inr (replay_from_messages codec log)
  unfolding replay
  replay-eq-replay_from_messages log serves fits readable =
      replay_of_read log _
        (read_pages-ReadsEnough replay_page_size replay_max_pages fetch log serves 51 [] log none 0
          (omega arith) serves.first_page refl (omega arith) (omega arith))
        readable

  read_pages-ends :
      (page_size max_pages fuel : ℕ) (messages : List Message) (before : Option String) (k : ℕ)
      → max_pages - k < fuel
      → read_pages page_size max_pages fetch fuel messages before k ≢ out_of_fuel
  unfolding read_pages replay_page_exceeds_limit
  read_pages-ends page_size max_pages zero messages before k h = absurd (omega arith)
  read_pages-ends page_size max_pages (suc fuel) messages before k h =
      elim (Option-cases (fetch before)) [
        | inl e ↦ rw (e, read_pages) (λ q. cc)
        | inr (page, e) ↦
            rw (e, read_pages)
              (ground (
                arith,
                read_pages-ends page_size max_pages fuel (messages ++ page) (last_id page) (k + 1),
              ))
      ]

  replay_read-out_of_fuel :
      (r : ReadResult) → r ≢ out_of_fuel → replay_read codec r ≢ inl out_of_fuel
  replay_read-out_of_fuel (read messages) h e = cc
  replay_read-out_of_fuel out_of_fuel h e = h refl
  replay_read-out_of_fuel request_failed h e = cc
  replay_read-out_of_fuel page_limit h e = cc

  -- Whatever the service answers, the loop ends by one of its own exits within 51 rounds.
  pub replay-ends : replay codec fetch ≢ inl out_of_fuel
  unfolding replay
  replay-ends =
      replay_read-out_of_fuel _
        (read_pages-ends replay_page_size replay_max_pages 51 [] none 0 (omega arith))
  -- If the newest page holds a frame with the snapshot prefix, the loop stops there and replays
  -- that page alone, whether or not the frame decodes.
