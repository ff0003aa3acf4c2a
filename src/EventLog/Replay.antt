-- ===== src/EventLog/Replay.antt =====
-- crates/wxcd-eventlog/src/lib.rs, `replay_from_messages`: two passes, one for the newest snapshot
-- and one for the events behind it. They amount to a single pass from the oldest message.
use mathlib.Core.List.{foldl-append, reverse-cons}
use codex_webex_connector.Base.{
  inl, inr, Option-cases, ℕ, suc, ◌+◌, Option, none, some, List, [], ◌∷◌, ◌++◌, foldl, reverse, ◌≡◌,
  refl, ◌∙◌, ap, arith, drop, length,
}
use codex_webex_connector.Model.{BridgeEventEnvelope, BridgeSnapshot}
use codex_webex_connector.EventLog.{ReplayState, initial, from_snapshot, apply}
use codex_webex_connector.EventLog.Frames.{Codec, Message, snapshot_of, event_of}

drop-append :
    (xs : List Message) (m : Message) (ys : List Message)
    → drop (suc (length xs)) (xs ++ m ∷ ys) ≡ ys
drop-append [] m ys = refl
drop-append (x ∷ xs) m ys = drop-append xs m ys

drop-append_at :
    (k : ℕ) (xs : List Message) (m : Message) (ys : List Message)
    → k ≡ length xs
    → drop (suc k) (xs ++ m ∷ ys) ≡ ys
drop-append_at k xs m ys e = ap (λ n. drop (suc n) (xs ++ m ∷ ys)) e ∙ drop-append xs m ys

module _ (codec : Codec) where
  abbrev keep_snapshot : Option BridgeSnapshot → ℕ → ReplayState × Option ℕ → ReplayState × Option ℕ
  keep_snapshot none i acc = acc
  keep_snapshot (some s) i acc = (from_snapshot s, some i)

  -- the first loop, from index `i`
  find_snapshot : ℕ → List Message → ReplayState × Option ℕ → ReplayState × Option ℕ
  find_snapshot i [] acc = acc
  find_snapshot i (m ∷ ms) acc =
      find_snapshot (suc i) ms (keep_snapshot (snapshot_of codec m) i acc)

  abbrev pub apply_frame : Option BridgeEventEnvelope → ReplayState → ReplayState
  apply_frame none s = s
  apply_frame (some e) s =
      let t = apply s e.event in record t { events_since_snapshot = t.events_since_snapshot + 1 }

  -- the second loop
  apply_events : List Message → ReplayState → ReplayState
  apply_events [] s = s
  apply_events (m ∷ ms) s = apply_events ms (apply_frame (event_of codec m) s)

  abbrev replay_start : Option ℕ → ℕ
  replay_start none = 0
  replay_start (some i) = suc i

  unfoldable pub replay_from_messages : List Message → ReplayState
  unfolding find_snapshot apply_events
  replay_from_messages messages =
      let ms = reverse messages in
      let (state, latest) = find_snapshot 0 ms (initial, none) in
      apply_events (drop (replay_start latest) ms) (record state { events_since_snapshot = 0 })

  -- the abstract log: a snapshot replaces the state, an event is applied, all else is skipped
  abbrev pub step_with :
      Option BridgeSnapshot → Option BridgeEventEnvelope → ReplayState → ReplayState
  step_with (some s) e st = from_snapshot s
  step_with none e st = apply_frame e st

  unfoldable pub step : ReplayState → Message → ReplayState
  step st m = step_with (snapshot_of codec m) (event_of codec m) st

  data NoSnapshot : List Message → Type 0 where
    nil : NoSnapshot []
    cons :
        {m : Message} {ms : List Message}
        → snapshot_of codec m ≡ none
        → NoSnapshot ms
        → NoSnapshot (m ∷ ms)

  -- where the first loop stops: no snapshot at all, or the newest one and what is behind it
  data Found (i : ℕ) (ms : List Message) (acc : ReplayState × Option ℕ) : Type 0 where
    no_snapshot : NoSnapshot ms → find_snapshot i ms acc ≡ acc → Found i ms acc
    newest :
        (before : List Message) (m : Message) (after : List Message) (s : BridgeSnapshot) (k : ℕ)
        → k ≡ i + length before
        → ms ≡ before ++ m ∷ after
        → snapshot_of codec m ≡ some s
        → NoSnapshot after
        → find_snapshot i ms acc ≡ (from_snapshot s, some k)
        → Found i ms acc

  Found-cons :
      (i : ℕ) (m : Message) (ms : List Message) (acc : ReplayState × Option ℕ)
      → Found (suc i) ms (keep_snapshot (snapshot_of codec m) i acc)
      → Found i (m ∷ ms) acc
  unfolding find_snapshot
  Found-cons i m ms acc (newest before x after s k j e f n r) =
      newest (m ∷ before) x after s k (omega arith) (ap (◌∷◌ m) e) f n r
  Found-cons i m ms acc (no_snapshot n r) = elim (Option-cases (snapshot_of codec m)) [
    | inl q ↦ no_snapshot (cons q n) (ground arith)
    | inr (s, q) ↦ newest [] m ms s i (omega arith) refl q n (ground arith)
  ]

  find : (i : ℕ) (ms : List Message) (acc : ReplayState × Option ℕ) → Found i ms acc
  unfolding find_snapshot
  find i [] acc = no_snapshot nil refl
  find i (m ∷ ms) acc =
      Found-cons i m ms acc (find (suc i) ms (keep_snapshot (snapshot_of codec m) i acc))

  -- behind the newest snapshot both views apply the events and nothing else
  apply_events-eq-foldl :
      (ms : List Message) (s : ReplayState) → NoSnapshot ms → apply_events ms s ≡ foldl step s ms
  unfolding apply_events step
  apply_events-eq-foldl [] s h = refl
  apply_events-eq-foldl (m ∷ ms) s (cons e h) =
      apply_events-eq-foldl ms (apply_frame (event_of codec m) s) h ∙ rw e

  foldl-newest :
      (before : List Message) (m : Message) (after : List Message) (s : BridgeSnapshot)
      (st : ReplayState)
      → snapshot_of codec m ≡ some s
      → foldl step st (before ++ m ∷ after) ≡ foldl step (from_snapshot s) after
  unfolding step
  foldl-newest [] m after s st e = ap (λ t. foldl step t after) (rw e)
  foldl-newest (x ∷ before) m after s st e = foldl-newest before m after s (step st x) e

  replay-of-Found :
      (ms : List Message)
      → Found 0 ms (initial, none)
      → (let (state, latest) = find_snapshot 0 ms (initial, none) in
          apply_events (drop (replay_start latest) ms) (record state { events_since_snapshot = 0 }))
        ≡ foldl step initial ms
  replay-of-Found ms (no_snapshot n r) = rw r (apply_events-eq-foldl ms initial n)
  replay-of-Found ms (newest before m after s k j e f n r) =
      rw
        (
          r,
          e,
          drop-append_at k before m after (omega arith),
          foldl-newest before m after s initial f,
        )
        (unfold from_snapshot in apply_events-eq-foldl after (from_snapshot s) n)

  -- Replaying the messages of the Data Space, which come newest first, is one fold from the
  -- oldest message on: a decodable snapshot frame replaces the state, a decodable event frame is
  -- applied and counted, any other message is skipped.
  pub replay_from_messages-eq-foldl :
      (messages : List Message)
      → replay_from_messages messages ≡ foldl step initial (reverse messages)
  unfolding replay_from_messages
  replay_from_messages-eq-foldl messages =
      replay-of-Found (reverse messages) (find 0 (reverse messages) (initial, none))

  -- The same, one message at a time: the newest message acts last.
  pub replay_from_messages-cons :
      (m : Message) (messages : List Message)
      → replay_from_messages (m ∷ messages) ≡ step (replay_from_messages messages) m
  replay_from_messages-cons m messages = rw (
    replay_from_messages-eq-foldl (m ∷ messages),
    reverse-cons,
    foldl-append,
    replay_from_messages-eq-foldl messages,
  )
