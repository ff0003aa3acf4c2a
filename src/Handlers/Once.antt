-- ===== src/Handlers/Once.antt =====
-- crates/wxcd-worker/src/main.rs, `handle_webex_ingress`: an event that comes again is not worked on
-- again, unless the work failed and its sender waits for the outcome.
use codex_webex_connector.Base.{
  String, Bool, true, false, Option, none, some, ◌≡◌, refl, sym, subst, ap, ◌∙◌, arith, eq_refl,
  Bool-cases, some_eq, Option-cases, inl, inr, if◌then◌else◌,
}
use codex_webex_connector.Base.IdSet
use codex_webex_connector.Base.IdSet.{contains-remove}
use codex_webex_connector.Base.Result.{Result, ok, err}
use codex_webex_connector.Worker.{WorkerState}
use codex_webex_connector.Worker.Recent.{remember_event, forget_event}
use codex_webex_connector.Effects.{
  Services, Handler, World, Failure, delivery_enqueue, done, ◌>>=◌, ◌>>◌, observe, continue, modify,
  get_worker, call,
}
use codex_webex_connector.Handlers.{AppConfig}
use codex_webex_connector.Handlers.Notifications.{
  WebexAsyncNotificationEvent, build_async_notification_delivery_request,
}
use codex_webex_connector.Handlers.Ingress.{
  WebexMessageEvent, WebexIngressEnvelope, message_created, attachment_action_created,
  async_notification, health_check, active_check, event_id_of, ingress_requires_processing_ack,
  is_ignored_sender, remember, settle, once, notify_once, on_message, handle_attachment_action,
  enqueue_async_notification, handle_webex_ingress,
}

forget_event-contains :
    (id : String) (s : WorkerState) → IdSet.contains (forget_event id s).recent_event_ids id ≡ false
unfolding forget_event
forget_event-contains id s = elim (Bool-cases (IdSet.contains s.recent_event_ids id)) [
  | inl e ↦ rw e (ground (arith, contains-remove id id s.recent_event_ids, eq_refl id))
  | inr e ↦ rw e e
]

-- a failure that ends the work takes the event out of the window
settle-forgets :
    (id : String) (r : World × Result Failure (Unit {0})) (v : World) (e : Failure)
    → continue (r.0, ok r.1) (settle id true) ≡ (v, err e)
    → IdSet.contains v.worker.recent_event_ids id ≡ false
unfolding modify
settle-forgets id (u, ok a) v e h = cc
settle-forgets id (u, err x) v e h =
    ap (λ p. IdSet.contains p.0.worker.recent_event_ids id) (sym h)
    ∙ forget_event-contains id u.worker

new-forgets :
    (id : String) (work : Handler (Unit {0})) (is_new : Bool) (u v : World) (e : Failure)
    → (if is_new then observe work >>= settle id true else done) u ≡ (v, err e)
    → IdSet.contains v.worker.recent_event_ids id ≡ false
new-forgets id work true u v e h = settle-forgets id (work u) v e h
new-forgets id work false u v e h = cc

unignored-forgets :
    (id : String) (work : Handler (Unit {0})) (ignored : Bool) (w v : World) (e : Failure)
    → (if ignored
          then done
          else remember id >>= (λ is_new. if is_new then observe work >>= settle id true else done))
        w
      ≡ (v, err e)
    → IdSet.contains v.worker.recent_event_ids id ≡ false
unfolding remember
unignored-forgets id work true w v e h = cc
unignored-forgets id work false w v e h =
    let (worker, is_new) = remember_event id w.worker in
    new-forgets id work is_new (record w { worker = worker }) v e h

enqueued-forgets :
    (id : String) (w : World) (r : World × Result Failure (Unit {0})) (v : World) (e : Failure)
    → r.0.worker ≡ w.worker
    → IdSet.contains w.worker.recent_event_ids id ≡ false
    → continue r (λ _. remember id >> done) ≡ (v, err e)
    → IdSet.contains v.worker.recent_event_ids id ≡ false
unfolding remember
enqueued-forgets id w (u, ok a) v e same q h = cc
enqueued-forgets id w (u, err x) v e same q h =
    ap (λ p. IdSet.contains p.0.worker.recent_event_ids id) (sym h)
    ∙ ap (λ k. IdSet.contains k.recent_event_ids id) same
    ∙ q

is_new :
    (id : String) (v : World)
    → IdSet.contains v.worker.recent_event_ids id ≡ false
    → (IdSet.contains v.worker.recent_event_ids id ≡ false)
      × ((remember_event id v.worker).1 ≡ true)
unfolding remember_event
is_new id v h = (h, rw h refl)

module _ (services : Services) (config : AppConfig) (installation control_room_id : String)
    (control_message : WebexMessageEvent → Handler (Unit {0})) (broker : Option String) where
  enqueue-worker :
      (b : Option String) (n : WebexAsyncNotificationEvent) (w : World)
      → (enqueue_async_notification services b n w).0.worker ≡ w.worker
  unfolding enqueue_async_notification get_worker call
  enqueue-worker none n w = refl
  enqueue-worker (some b) n w =
      elim (Option-cases (build_async_notification_delivery_request w.worker n)) [
        | inl e ↦ rw e refl
        | inr (q, e) ↦ elim (Option-cases (services.answer w.trace (delivery_enqueue q))) [
          | inl f ↦ rw (e, f) refl
          | inr (a, f) ↦ rw (e, f) refl
        ]
      ]

  once-remembered :
      (email id : String) (ack : Bool) (work : Handler (Unit {0})) (w : World)
      → IdSet.contains w.worker.recent_event_ids id ≡ true
      → once services config installation control_room_id control_message broker email id ack work w
        ≡ (w, ok tt)
  unfolding once remember remember_event
  once-remembered email id ack work w h = elim (Bool-cases (is_ignored_sender config email)) [
    | inl e ↦ rw e refl
    | inr e ↦ rw (e, h) refl
  ]

  once-forgets :
      (email id : String) (ack : Bool) (work : Handler (Unit {0})) (w v : World) (e : Failure)
      → ack ≡ true
      → once services config installation control_room_id control_message broker email id ack work w
        ≡ (v, err e)
      → IdSet.contains v.worker.recent_event_ids id ≡ false
  unfolding once
  once-forgets email id ack work w v e a h =
      unignored-forgets id work (is_ignored_sender config email) w v e (
        subst
          (λ b.
            once services config installation control_room_id control_message broker email id b work
              w
            ≡ (v, err e))
          a h)

  notify_once-forgets :
      (n : WebexAsyncNotificationEvent) (known : Bool) (w v : World) (e : Failure)
      → IdSet.contains w.worker.recent_event_ids n.event_id ≡ known
      → (if known
            then done
            else enqueue_async_notification services broker n >> (remember n.event_id >> done))
          w
        ≡ (v, err e)
      → IdSet.contains v.worker.recent_event_ids n.event_id ≡ false
  notify_once-forgets n true w v e q h = cc
  notify_once-forgets n false w v e q h =
      enqueued-forgets n.event_id w (enqueue_async_notification services broker n w) v e
        (enqueue-worker broker n w) q h

  -- An event whose id is in the window, of whatever kind, is not worked on: nothing is called, and
  -- the worker stays as it is.
  pub handle_webex_ingress-remembered :
      (event : WebexIngressEnvelope) (id : String) (w : World)
      → event_id_of event ≡ some id
      → IdSet.contains w.worker.recent_event_ids id ≡ true
      → handle_webex_ingress services config installation control_room_id control_message broker
          event w
        ≡ (w, ok tt)
  unfolding handle_webex_ingress notify_once get_worker
  handle_webex_ingress-remembered (message_created m) id w e h =
      once-remembered m.person_email m.event_id m.processing_ack
        (on_message services config installation control_room_id control_message broker m) w
        (ap (λ k. IdSet.contains w.worker.recent_event_ids k) (some_eq m.event_id id e) ∙ h)
  handle_webex_ingress-remembered (attachment_action_created a) id w e h =
      once-remembered a.person_email a.event_id a.processing_ack
        (handle_attachment_action services config installation a) w
        (ap (λ k. IdSet.contains w.worker.recent_event_ids k) (some_eq a.event_id id e) ∙ h)
  handle_webex_ingress-remembered (async_notification n) id w e h =
      rw (ap (λ k. IdSet.contains w.worker.recent_event_ids k) (some_eq n.event_id id e) ∙ h) refl
  handle_webex_ingress-remembered health_check id w e h = cc
  handle_webex_ingress-remembered active_check id w e h = cc

  -- If an event whose sender waits for the outcome fails, whatever the failure, its id is not in the
  -- window, and so the next delivery of it is new.
  pub handle_webex_ingress-forgets :
      (event : WebexIngressEnvelope) (id : String) (w v : World) (e : Failure)
      → event_id_of event ≡ some id
      → ingress_requires_processing_ack event ≡ true
      → handle_webex_ingress services config installation control_room_id control_message broker
          event w
        ≡ (v, err e)
      → (IdSet.contains v.worker.recent_event_ids id ≡ false)
        × ((remember_event id v.worker).1 ≡ true)
  unfolding handle_webex_ingress notify_once get_worker ingress_requires_processing_ack
  handle_webex_ingress-forgets (message_created m) id w v e q ack h = is_new id v (
      subst (λ k. IdSet.contains v.worker.recent_event_ids k ≡ false) (some_eq m.event_id id q)
        (once-forgets m.person_email m.event_id m.processing_ack
          (on_message services config installation control_room_id control_message broker m) w v e
          ack h))
  handle_webex_ingress-forgets (attachment_action_created a) id w v e q ack h = is_new id v (
      subst (λ k. IdSet.contains v.worker.recent_event_ids k ≡ false) (some_eq a.event_id id q)
        (once-forgets a.person_email a.event_id a.processing_ack
          (handle_attachment_action services config installation a) w v e ack h))
  handle_webex_ingress-forgets (async_notification n) id w v e q ack h = is_new id v (
      subst (λ k. IdSet.contains v.worker.recent_event_ids k ≡ false) (some_eq n.event_id id q)
        (notify_once-forgets n (IdSet.contains w.worker.recent_event_ids n.event_id) w v e refl h))
  handle_webex_ingress-forgets health_check id w v e q ack h = cc
  handle_webex_ingress-forgets active_check id w v e q ack h = cc
