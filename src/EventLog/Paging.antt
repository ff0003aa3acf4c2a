-- ===== src/EventLog/Paging.antt =====
-- crates/wxcd-eventlog/src/lib.rs, `EventLog::replay`: the Data Space is read backwards in pages.
-- The pages come from the Webex service, which is a parameter: `fetch before` is the answer to
-- `list_messages_page`. `none` as an answer is a request that failed.
pub mod Rounds
pub mod Complete
use mathlib.Core.List.{append_assoc, append-nil}
use codex_webex_connector.Base.{
  ℕ, zero, suc, ◌+◌, ◌*◌, ◌-◌, ◌≤◌, ◌<◌, min, String, Bool, true, false, not, ◌&&◌, Option, none,
  some, List, [], ◌∷◌, ◌++◌, ◌≡◌, ◌⊎◌, refl, sym, ◌∙◌, ap, arith, ltb, leb, eqb, any, is_some, All,
  length, take, drop, length-take, length-drop, take-append-drop, subst, dec_lt, if◌then◌else◌, inl,
  inr, Bool-cases,
}
use codex_webex_connector.EventLog.{ReplayState}
use codex_webex_connector.EventLog.Frames.{Codec, Message, message_has_snapshot, snapshot_of}
use codex_webex_connector.EventLog.Replay.{replay_from_messages, step, replay_from_messages-cons}

abbrev pub replay_page_size : ℕ
replay_page_size = 100

abbrev pub replay_max_pages : ℕ
replay_max_pages = 50

-- the loop either reads to a stop, fails in a request, or meets the page limit
pub data ReadResult : Type 0 where
  read : List Message → ReadResult
  request_failed : ReadResult
  page_limit : ReadResult
  out_of_fuel : ReadResult

unfoldable pub replay_page_exceeds_limit : ℕ → ℕ → ℕ → Bool
replay_page_exceeds_limit page_len pages_read max_pages = ltb 0 page_len && leb max_pages pages_read

unfoldable pub replay_needs_older_page : List Message → ℕ → ℕ → Bool
replay_needs_older_page messages last_page_len page_size =
    eqb last_page_len page_size && not (any message_has_snapshot messages)

-- `page.last().map(|message| message.id.clone())`
abbrev pub last_id : List Message → Option String
last_id [] = none
last_id (m ∷ []) = some m.id
last_id (m ∷ n ∷ ms) = last_id (n ∷ ms)

module _ (page_size max_pages : ℕ) (fetch : Option String → Option (List Message)) where
  -- the loop; the fuel bounds its rounds
  unfoldable pub read_pages : ℕ → List Message → Option String → ℕ → ReadResult
  unfolding replay_page_exceeds_limit replay_needs_older_page
  read_pages zero messages before pages_read = out_of_fuel
  read_pages (suc fuel) messages before pages_read = elim (fetch before) [
    | none ↦ request_failed
    | some page ↦
        let rest = read_pages fuel (messages ++ page) (last_id page) (pages_read + 1) in
        if eqb (length page) 0
        then read messages
        else if replay_page_exceeds_limit (length page) pages_read max_pages
        then page_limit
        else if not (replay_needs_older_page (messages ++ page) (length page) page_size)
        then read (messages ++ page)
        else rest
  ]

  -- What the service documents: at most `page_size` messages, newest first, from the newest of the
  -- room or from the one behind `before`.
  pub record Serves (log : List Message) : Type 0 where
    pub first_page : fetch none ≡ some (take page_size log)
    pub page_before :
        (newer : List Message) (m : Message) (older : List Message)
        → log ≡ newer ++ m ∷ older
        → fetch (some m.id) ≡ some (take page_size older)

-- what was read is a front part of the room that holds a snapshot frame, or all of the room
pub record ReadsEnough (log : List Message) (r : ReadResult) : Type 0 where
  pub seen : List Message
  pub unseen : List Message
  pub result : r ≡ read seen
  pub splits : log ≡ seen ++ unseen
  pub enough : (unseen ≡ []) ⊎ (any message_has_snapshot seen ≡ true)

module _ (codec : Codec) where
  abbrev pub replay_read : ReadResult → ReadResult ⊎ ReplayState
  replay_read (read messages) = inr (replay_from_messages codec messages)
  replay_read r = inl r

  -- `EventLog::replay`; each round but the last reads a page, so one round more than the page limit
  -- is enough
  unfoldable pub replay : (Option String → Option (List Message)) → ReadResult ⊎ ReplayState
  replay fetch =
      replay_read
        (read_pages replay_page_size replay_max_pages fetch (replay_max_pages + 1) [] none 0)
