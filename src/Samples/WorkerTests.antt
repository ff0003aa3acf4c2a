-- ===== src/Samples/WorkerTests.antt =====
-- The theorems on the worker's indexes, its window of events and its guards, at concrete states.
use codex_webex_connector.Base.{◌+◌, ◌-◌, not, some, [], ◌∷◌, ◌≡◌, refl, arith, drop, if◌then◌else◌}
use codex_webex_connector.Base.Dict
use codex_webex_connector.Base.Dict.{Dict}
use codex_webex_connector.Base.IdSet.{contains}
use codex_webex_connector.Model.{SessionRecord, SessionState}
use codex_webex_connector.Worker.{
  WorkerState, initial, upsert_session, rebuild_session_indexes, from_replay,
  set_executable_installation, should_route_session_room, should_index_session_thread,
}
use codex_webex_connector.Worker.Indexes.{
  IsRouted, IsReindexed, upsert_session_lem, set_executable_installation-IsRouted,
}
use codex_webex_connector.Worker.Routing.{
  from_replay-IsRouted, IsComplete, set_executable_installation-from_replay,
}
use codex_webex_connector.Worker.Recent.{remember_event, recent_event_id_limit, IsWindow}
use codex_webex_connector.Worker.Recent.Window.{remember_event_lem}
use codex_webex_connector.Samples.{session, replayed, worker}

replayed_worker-IsRouted : IsRouted (from_replay replayed)
replayed_worker-IsRouted = from_replay-IsRouted replayed

pub worker-IsRouted : IsRouted worker
worker-IsRouted =
    set_executable_installation-IsRouted "here" (from_replay replayed)
      replayed_worker-IsRouted.keyed

abbrev second : SessionRecord
second = session "s2" "here" 7 SessionState.running

upsert_session_lem_example :
    IsRouted (upsert_session second worker)
    × IsReindexed
        (λ x. x.session_room_id)
        (should_route_session_room worker)
        second
        (Dict.get worker.sessions second.session_id)
        worker.room_to_session
        (upsert_session second worker).room_to_session
    × IsReindexed
        (λ x. x.thread_id)
        (should_index_session_thread worker)
        second
        (Dict.get worker.sessions second.session_id)
        worker.thread_to_session
        (upsert_session second worker).thread_to_session
upsert_session_lem_example = upsert_session_lem second worker worker-IsRouted

set_executable_installation-from_replay_example : IsRouted worker × IsComplete worker
set_executable_installation-from_replay_example =
    set_executable_installation-from_replay "here" replayed

pub worker-IsComplete : IsComplete worker
worker-IsComplete = (set_executable_installation-from_replay "here" replayed).1

runs_here : worker.executable_installation_id ≡ some "here"
unfolding set_executable_installation rebuild_session_indexes
runs_here = refl

abbrev remembering : WorkerState
remembering = record initial { recent_event_ids = "e1" ∷ []; recent_event_queue = "e1" ∷ [] }

remembering-IsWindow : IsWindow remembering
unfolding contains
remembering-IsWindow = record { same = λ j. refl; distinct = (refl, tt); bounded = omega arith }

remember_event_lem_example :
    IsWindow (remember_event "e2" remembering).0
    × ((remember_event "e2" remembering).1 ≡ not (contains ("e1" ∷ []) "e2"))
    × ((remember_event "e2" remembering).0.recent_event_queue ≡ (
        if (remember_event "e2" remembering).1
        then drop (1 + 1 - recent_event_id_limit) ("e1" ∷ "e2" ∷ [])
        else "e1" ∷ []))
remember_event_lem_example = remember_event_lem "e2" remembering remembering-IsWindow
