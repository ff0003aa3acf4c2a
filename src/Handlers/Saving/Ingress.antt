-- ===== src/Handlers/Saving/Ingress.antt =====
-- crates/wxcd-worker/src/main.rs, `handle_webex_ingress` and `handle_attachment_action`: each event is
-- worked on once, and what is done leaves the log and the local snapshot in agreement with the worker.
use codex_webex_connector.Base.{
  String, Bool, true, false, not, Option, none, some, List, [], ◌∷◌, ◌++◌, filterb, ◌≡◌, refl, ◌==◌,
  Bool-cases, inl, inr,
}
use codex_webex_connector.Base.Dict
use codex_webex_connector.Base.IdSet
use codex_webex_connector.Base.IdSet.{IdSet, contains-remove}
use codex_webex_connector.Base.Result.{Result, ok, err}
use codex_webex_connector.Model.{BridgeSnapshot}
use codex_webex_connector.EventLog.{ReplayState}
use codex_webex_connector.Worker.{WorkerState}
use codex_webex_connector.Worker.Indexes.{SameRoutes-IsRouted}
use codex_webex_connector.Worker.Recent.{evict, remember_event, forget_event}
use codex_webex_connector.Effects.{Services, Handler, World, Failure}
use codex_webex_connector.Effects.Logic.{Condition, Triple, At, sought, last_saved, Outcome}
use codex_webex_connector.Effects.Logic.Stored.{Leaves, Triple-Leaves}
use codex_webex_connector.Effects.Logic.Rules.{
  via, pure-Triple, fail-Triple, branch-Triple, outcome-Triple, delivery_enqueue-Triple,
  modify-Triple, get_worker-Triple, weaken-Triple,
}
use codex_webex_connector.Handlers.{AppConfig}
use codex_webex_connector.Handlers.Notifications.{
  WebexAsyncNotificationEvent, build_async_notification_delivery_request,
}
use codex_webex_connector.Handlers.Ingress.{
  WebexMessageEvent, WebexIngressEnvelope, message_created, attachment_action_created,
  async_notification, health_check, active_check, is_ignored_sender, remember, settle, once,
  handle_attachment_action, in_room, on_message, enqueue_async_notification, notify_once,
  handle_webex_ingress,
}
use codex_webex_connector.Handlers.Saving.{IsSound, Logged, Saved}
use codex_webex_connector.Handlers.Saving.Actions.{handle_attachment_action-Triple}
use codex_webex_connector.Handlers.Saving.Messages.{handle_session_message-Triple}
use codex_webex_connector.Handlers.Saving.Requests.{read-Triple}
use codex_webex_connector.Handlers.Saving.Sessions.{
  IsKept, Saved-IsKept, Logged-IsKept, kept-Triple,
}

-- a message in the control room
abbrev pub to_control_room : String → WebexIngressEnvelope → Bool
to_control_room control_room_id (message_created m) = m.room_id == control_room_id
to_control_room control_room_id _ = false

-- the window of event ids, replaced
abbrev with_window : IdSet → List String → WorkerState → WorkerState
with_window ids queue s = record s { recent_event_ids = ids; recent_event_queue = queue }

with_window-IsSound :
    (ids : IdSet) (queue : List String) (s : WorkerState)
    → IsSound s
    → IsSound (with_window ids queue s)
with_window-IsSound ids queue s h = record {
  routed = SameRoutes-IsRouted s (with_window ids queue s) (refl, refl, refl, refl) h.routed;
  approvals_keyed = h.approvals_keyed;
}

windowed :
    {P : Condition} (kept : IsKept P) (ids : IdSet) (queue : List String) (s : WorkerState)
    (r : ReplayState) (f : Option BridgeSnapshot)
    → P s r f
    → P (with_window ids queue s) r f
windowed kept ids queue s r f h =
    kept.views s (with_window ids queue s) r f (λ j. (refl, refl))
      (with_window-IsSound ids queue s (kept.logs s r f h).0) h

remembered :
    {P : Condition} (kept : IsKept P) (event_id : String) (s : WorkerState) (r : ReplayState)
    (f : Option BridgeSnapshot)
    → P s r f
    → P (remember_event event_id s).0 r f
unfolding remember_event
remembered kept event_id s r f h = elim (Bool-cases (IdSet.contains s.recent_event_ids event_id)) [
  | inl e ↦ rw e h
  | inr e ↦ rw e (
      windowed kept
        (evict (IdSet.insert event_id s.recent_event_ids) (s.recent_event_queue ++ event_id ∷ [])).0
        (evict (IdSet.insert event_id s.recent_event_ids) (s.recent_event_queue ++ event_id ∷ [])).1
        s r f h)
]

forgotten :
    {P : Condition} (kept : IsKept P) (event_id : String) (s : WorkerState) (r : ReplayState)
    (f : Option BridgeSnapshot)
    → P s r f
    → P (forget_event event_id s) r f
unfolding forget_event
forgotten kept event_id s r f h = elim (Bool-cases (IdSet.contains s.recent_event_ids event_id)) [
  | inl e ↦ rw e (
      windowed kept (IdSet.remove event_id s.recent_event_ids)
        (filterb (λ queued. not (queued == event_id)) s.recent_event_queue) s r f h)
  | inr e ↦ rw e h
]

module _ {services : Services} {start : ReplayState} {file : Option BridgeSnapshot} where
  remember-Triple :
      {P E : Condition} (kept : IsKept P) (event_id : String)
      → Triple services start file P (remember event_id) (λ _. P) E
  unfolding remember
  remember-Triple kept event_id = record {
    runs = λ w h.
        remembered kept event_id w.worker (sought start w.trace) (last_saved services file w.trace)
          h;
  }

  enqueue-Triple :
      {P : Condition} (broker : Option String) (n : WebexAsyncNotificationEvent)
      → Triple services start file P (enqueue_async_notification services broker n) (λ _. P) P
  unfolding enqueue_async_notification
  enqueue-Triple {P} broker n =
      via (λ _. P) (read-Triple broker)
        λ b.
          via (λ _. P)
            (weaken-Triple (get_worker-Triple {P = P} {E = P}) (λ s r f h. h) (λ _ s r f h. h.1)
              (λ s r f h. h))
            λ worker.
              via (λ _. P) (read-Triple (build_async_notification_delivery_request worker n))
                λ request. via (λ _. P) (delivery_enqueue-Triple request) λ _. pure-Triple tt

  settle-Triple :
      {P : Condition} (kept : IsKept P) (event_id : String) (ack : Bool)
      (r : Result Failure (Unit {0}))
      → Triple services start file
          (Outcome (λ _. P) Logged r)
          (settle event_id ack r)
          (λ _. P)
          Logged
  settle-Triple kept event_id ack (ok a) = pure-Triple tt
  settle-Triple kept event_id true (err e) =
      via (λ _. Logged)
        (modify-Triple (forget_event event_id) λ s r f h. forgotten Logged-IsKept event_id s r f h)
        λ _. fail-Triple e
  settle-Triple kept event_id false (err e) = fail-Triple e

  module _ (config : AppConfig) {P : Condition} (kept : IsKept P) where
    module _ (installation control_room_id : String)
        (control_message : WebexMessageEvent → Handler (Unit {0})) (broker : Option String) where
      once-Triple :
          (email event_id : String) (ack : Bool) (work : Handler (Unit {0}))
          → Triple services start file P work (λ _. P) Logged
          → Triple services start file P
              (once services config installation control_room_id control_message broker email
                event_id ack work)
              (λ _. P)
              Logged
      unfolding once
      once-Triple email event_id ack work h =
          branch-Triple (is_ignored_sender config email) (pure-Triple tt) (
            via (λ _. P) (remember-Triple kept event_id)
              λ is_new.
                branch-Triple is_new
                  (via (Outcome (λ _. P) Logged) (outcome-Triple h)
                    λ r. settle-Triple kept event_id ack r)
                  (pure-Triple tt))

      in_room-Triple :
          (m : WebexMessageEvent) (o : Option String)
          → Triple services start file P
              (in_room services config installation control_room_id control_message broker m o)
              (λ _. P)
              Logged
      in_room-Triple m none = pure-Triple tt
      in_room-Triple m (some id) = handle_session_message-Triple config kept id m.text

      on_message-Triple :
          (m : WebexMessageEvent)
          → (m.room_id == control_room_id) ≡ false
          → Triple services start file P
              (on_message services config installation control_room_id control_message broker m)
              (λ _. P)
              Logged
      unfolding on_message
      on_message-Triple m elsewhere =
          via (λ _. P)
            (weaken-Triple (get_worker-Triple {P = P} {E = Logged}) (λ s r f h. h)
              (λ _ s r f h. h.1) (λ s r f h. h))
            λ worker. rw elsewhere (in_room-Triple m (Dict.get worker.room_to_session m.room_id))

      notify_once-Triple :
          (n : WebexAsyncNotificationEvent)
          → Triple services start file P
              (notify_once services config installation control_room_id control_message broker n)
              (λ _. P)
              Logged
      unfolding notify_once
      notify_once-Triple n =
          via (λ _. P)
            (weaken-Triple (get_worker-Triple {P = P} {E = Logged}) (λ s r f h. h)
              (λ _ s r f h. h.1) (λ s r f h. h))
            λ worker.
              branch-Triple (IdSet.contains worker.recent_event_ids n.event_id) (pure-Triple tt) (
                via (λ _. P) (kept-Triple config kept (enqueue-Triple broker n))
                  λ _. via (λ _. P) (remember-Triple kept n.event_id) λ _. pure-Triple tt)

      pub handle_webex_ingress-Triple :
          (event : WebexIngressEnvelope)
          → to_control_room control_room_id event ≡ false
          → Triple services start file P
              (handle_webex_ingress services config installation control_room_id control_message
                broker event)
              (λ _. P)
              Logged
      unfolding handle_webex_ingress
      handle_webex_ingress-Triple (message_created m) elsewhere =
          once-Triple m.person_email m.event_id m.processing_ack
            (on_message services config installation control_room_id control_message broker m)
            (on_message-Triple m elsewhere)
      handle_webex_ingress-Triple (attachment_action_created a) elsewhere =
          once-Triple a.person_email a.event_id a.processing_ack
            (handle_attachment_action services config installation a)
            (handle_attachment_action-Triple config kept installation a)
      handle_webex_ingress-Triple (async_notification n) elsewhere = notify_once-Triple n
      handle_webex_ingress-Triple health_check elsewhere = pure-Triple tt
      handle_webex_ingress-Triple active_check elsewhere = pure-Triple tt

-- Let the worker be sound, and let its sessions and approvals be those of the local snapshot and of
-- the log as the worker tried to write it. Any event from the sidecar but a message in the control room,
-- if it is handled with success, leaves all that so, whatever the services answer, failed appends
-- included. The Data Space then holds the sessions and approvals as well, unless the append of the
-- last snapshot, or one since, has failed. If the event fails, the same holds but for the local snapshot.
pub handle_webex_ingress-Saved :
    (services : Services) (start : ReplayState) (file : Option BridgeSnapshot) (config : AppConfig)
    (installation control_room_id : String)
    (control_message : WebexMessageEvent → Handler (Unit {0})) (broker : Option String)
    (event : WebexIngressEnvelope) (w : World)
    → to_control_room control_room_id event ≡ false
    → At services start file Saved w
    → Leaves services start file Saved Logged (
        handle_webex_ingress services config installation control_room_id control_message broker
          event w)
handle_webex_ingress-Saved services start file config installation room control broker event w e h =
    Triple-Leaves services start file
      (handle_webex_ingress-Triple config Saved-IsKept installation room control broker event e) w h
