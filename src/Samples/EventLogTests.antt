-- ===== src/Samples/EventLogTests.antt =====
-- The theorems on the event log at concrete logs.
use codex_webex_connector.Base.{
  ◌+◌, String, true, Option, none, some, List, [], ◌∷◌, ◌++◌, foldl, reverse, ◌≡◌, ◌≢◌, refl, subst,
  arith, inl, inr, any, take, All, ◌==◌, eq_iff, if◌then◌else◌,
}
use codex_webex_connector.Base.Dict
use codex_webex_connector.Base.IdSet
use codex_webex_connector.Model.{session_archived, session_purged}
use codex_webex_connector.EventLog.{ReplayState, initial, apply, from_snapshot, to_snapshot}
use codex_webex_connector.EventLog.Apply.{
  IsConsistent, session_step, approval_step, foldl-apply_pointwise, purge_is_final,
}
use codex_webex_connector.Base.Text.{strip_prefix, with_prefix}
use codex_webex_connector.EventLog.Frames.{
  Message, append_event, append_snapshot, message_has_snapshot, snapshot_of,
}
use codex_webex_connector.EventLog.Replay.{
  replay_from_messages, step, replay_from_messages-eq-foldl,
}
use codex_webex_connector.EventLog.Snapshots.{
  from_snapshot-to_snapshot, replay_from_messages-IsConsistent, replay-append_event,
  replay-append_snapshot,
}
use codex_webex_connector.EventLog.Paging.{
  Serves, out_of_fuel, replay, replay_page_size, replay_max_pages,
}
use codex_webex_connector.EventLog.Paging.Complete.{
  IsReadable, replay-eq-replay_from_messages, replay-ends,
}
use codex_webex_connector.Samples.{
  codec, log, purge_message, snapshot_message, chatter, replayed, empty_snapshot,
}

replay_from_messages-eq-foldl_example :
    replay_from_messages codec log ≡ foldl (step codec) initial (reverse log)
replay_from_messages-eq-foldl_example = replay_from_messages-eq-foldl codec log

-- the service, for the log of three messages
abbrev fetch_before : String → Option (List Message)
fetch_before id =
    if id == "m3"
    then some (snapshot_message ∷ chatter ∷ [])
    else if id == "m2"
    then some (chatter ∷ [])
    else some []

abbrev fetch : Option String → Option (List Message)
fetch none = some log
fetch (some id) = fetch_before id

fetch-page_before :
    (newer : List Message) (m : Message) (older : List Message)
    → log ≡ newer ++ m ∷ older
    → fetch_before m.id ≡ some (take replay_page_size older)
fetch-page_before [] m older e =
    let here : purge_message ≡ m = cc in
    let rest : snapshot_message ∷ chatter ∷ [] ≡ older = cc in
    subst (λ x. fetch_before x.id ≡ some (take replay_page_size older)) here
      (subst (λ x. fetch_before purge_message.id ≡ some (take replay_page_size x)) rest refl)
fetch-page_before (a ∷ []) m older e =
    let here : snapshot_message ≡ m = cc in
    let rest : chatter ∷ [] ≡ older = cc in
    subst (λ x. fetch_before x.id ≡ some (take replay_page_size older)) here
      (subst (λ x. fetch_before snapshot_message.id ≡ some (take replay_page_size x)) rest refl)
fetch-page_before (a ∷ b ∷ []) m older e =
    let here : chatter ≡ m = cc in
    let rest : [] ≡ older = cc in
    subst (λ x. fetch_before x.id ≡ some (take replay_page_size older)) here
      (subst (λ x. fetch_before chatter.id ≡ some (take replay_page_size x)) rest refl)
fetch-page_before (a ∷ b ∷ c ∷ []) m older e = cc
fetch-page_before (a ∷ b ∷ c ∷ d ∷ newer) m older e = cc

fetch-Serves : Serves replay_page_size replay_max_pages fetch log
fetch-Serves = record { first_page = refl; page_before = fetch-page_before }

log-IsReadable : All (IsReadable codec) log
unfolding message_has_snapshot snapshot_of strip_prefix
log-IsReadable = ((λ e. cc), ((λ e. refl), ((λ e. cc), tt)))

replay-eq-replay_from_messages_example : replay codec fetch ≡ inr (replay_from_messages codec log)
replay-eq-replay_from_messages_example =
    replay-eq-replay_from_messages codec fetch log fetch-Serves (omega arith) log-IsReadable

replay-ends_example : replay codec fetch ≢ inl out_of_fuel
replay-ends_example = replay-ends codec fetch

log_has_snapshot : any message_has_snapshot log ≡ true
unfolding message_has_snapshot strip_prefix
log_has_snapshot = refl

foldl-apply_pointwise_example :
    (Dict.get (foldl apply replayed (session_archived "s1" 7 ∷ [])).sessions "s1"
      ≡ foldl (session_step "s1") (Dict.get replayed.sessions "s1") (session_archived "s1" 7 ∷ []))
    × (Dict.get (foldl apply replayed (session_archived "s1" 7 ∷ [])).pending_approvals "s1"
        ≡ foldl
            (approval_step "s1")
            (Dict.get replayed.pending_approvals "s1")
            (session_archived "s1" 7 ∷ []))
foldl-apply_pointwise_example = foldl-apply_pointwise replayed (session_archived "s1" 7 ∷ []) "s1"

abbrev after_purge : ReplayState
after_purge = foldl apply (apply replayed (session_purged "s1" 7)) (session_archived "s1" 8 ∷ [])

purge_is_final_example :
    (Dict.get after_purge.sessions "s1" ≡ none)
    × (IdSet.contains after_purge.purged_session_ids "s1" ≡ true)
purge_is_final_example = purge_is_final replayed "s1" 7 (session_archived "s1" 8 ∷ []) (refl, tt)

replayed-IsConsistent : IsConsistent replayed
unfolding Dict.get
replayed-IsConsistent = record {
  sessions_keyed = λ k v e. ground (arith, eq_iff "s1" k);
  approvals_keyed = λ k v e. ground (arith, eq_iff "a1" k);
}

from_snapshot-to_snapshot_example :
    (Dict.get (from_snapshot (to_snapshot 9 replayed)).sessions "s1"
      ≡ Dict.get replayed.sessions "s1")
    × (Dict.get (from_snapshot (to_snapshot 9 replayed)).pending_approvals "s1"
        ≡ Dict.get replayed.pending_approvals "s1")
    × ((from_snapshot (to_snapshot 9 replayed)).events_since_snapshot ≡ 0)
    × ((from_snapshot (to_snapshot 9 replayed)).snapshot_created_at ≡ some 9)
    × ((from_snapshot (to_snapshot 9 replayed)).archived_session_ids ≡ IdSet.empty)
    × ((from_snapshot (to_snapshot 9 replayed)).purged_session_ids ≡ IdSet.empty)
    × ((from_snapshot (to_snapshot 9 replayed)).resolved_approval_ids ≡ IdSet.empty)
from_snapshot-to_snapshot_example = from_snapshot-to_snapshot 9 replayed "s1" replayed-IsConsistent

replay_from_messages-IsConsistent_example : IsConsistent (replay_from_messages codec log)
replay_from_messages-IsConsistent_example = replay_from_messages-IsConsistent codec log

purge_text : append_event codec 0 (session_purged "s1" 0) ≡ some "WXCD/V1 EVENT s1"
unfolding append_event with_prefix
purge_text = refl

snapshot_text : append_snapshot codec empty_snapshot ≡ some "WXCD/V1 SNAPSHOT {}"
unfolding append_snapshot with_prefix
snapshot_text = refl

abbrev before : ReplayState
before = apply (replay_from_messages codec (snapshot_message ∷ [])) (session_purged "s1" 0)

replay-append_event_example :
    replay_from_messages codec (purge_message ∷ snapshot_message ∷ [])
    ≡ record before { events_since_snapshot = before.events_since_snapshot + 1 }
replay-append_event_example =
    replay-append_event codec purge_message (snapshot_message ∷ []) 0 (session_purged "s1" 0)
      "WXCD/V1 EVENT s1" refl purge_text refl

replay-append_snapshot_example :
    replay_from_messages codec (snapshot_message ∷ purge_message ∷ [])
    ≡ from_snapshot empty_snapshot
replay-append_snapshot_example =
    replay-append_snapshot codec snapshot_message (purge_message ∷ []) empty_snapshot
      "WXCD/V1 SNAPSHOT {}" refl snapshot_text refl
