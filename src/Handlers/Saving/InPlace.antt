-- ===== src/Handlers/Saving/InPlace.antt =====
-- crates/wxcd-worker/src/main.rs, `handle_codex_event`: a session that is changed in place, and put
-- in again. When it is put in, the session that is replaced is the changed one, and its room and its
-- thread are what leads the indexes to the old entries.
use codex_webex_connector.Base.{
  String, Bool, true, false, ◌&&◌, Option, some, ◌≡◌, refl, sym, subst, ap, ◌∙◌, arith, ◌==◌,
  eq_iff, eq_refl, is_some_and, if◌then◌else◌,
}
use codex_webex_connector.Base.Dict
use codex_webex_connector.Base.Dict.{Dict, get-insert}
use codex_webex_connector.Base.Dict.Entries.{IsKeyed, insert-IsKeyed}
use codex_webex_connector.Model.{SessionRecord, session_updated}
use codex_webex_connector.EventLog.{ReplayState, apply}
use codex_webex_connector.EventLog.Apply.{get-apply_sessions, get-apply_approvals}
use codex_webex_connector.Worker.{
  WorkerState, upsert_session, forget_key, index_session, should_route_session_room,
  should_index_session_thread,
}
use codex_webex_connector.Worker.Indexes.{Sessions, IsIndex, IsRouted, upsert_session-IsRouted}
use codex_webex_connector.Handlers.CodexEvents.{put}
use codex_webex_connector.Handlers.Saving.{durable_of, IsSound, Agrees}

-- the identifier, the room and the thread stay
abbrev pub SamePlace : SessionRecord → SessionRecord → Type 0
SamePlace t old =
    (t.session_id ≡ old.session_id)
    × (t.session_room_id ≡ old.session_room_id)
    × (t.thread_id ≡ old.thread_id)

module _ (s : WorkerState) (id : String) (t old : SessionRecord)
    (known : Dict.get s.sessions id ≡ some old) (named : old.session_id ≡ id)
    (place : SamePlace t old) where
  abbrev twice : Sessions
  twice = Dict.insert t.session_id t (Dict.insert id t s.sessions)

  get-twice : (j : String) → Dict.get twice j ≡ Dict.get (Dict.insert t.session_id t s.sessions) j
  get-twice j = ground (
    arith,
    eq_iff t.session_id j,
    eq_iff id j,
    get-insert t.session_id j t (Dict.insert id t s.sessions),
    get-insert t.session_id j t s.sessions,
    get-insert id j t s.sessions,
    named,
    place.0,
  )

  -- the key that is forgotten is the same
  forget_key-put :
      (field : SessionRecord → String) (index : Dict String)
      → field t ≡ field old
      → forget_key field (Dict.get (Dict.insert id t s.sessions) t.session_id) index
        ≡ forget_key field (Dict.get s.sessions t.session_id) index
  forget_key-put field index same =
      let changed : Dict.get (Dict.insert id t s.sessions) t.session_id ≡ some t =
        get-insert id t.session_id t s.sessions ∙ rw (place.0, named, eq_refl id) refl in
      let before : Dict.get s.sessions t.session_id ≡ some old =
        ap (λ k. Dict.get s.sessions k) (place.0 ∙ named) ∙ known in
      ap (λ o. forget_key field o index) changed
      ∙ ap (λ k. Dict.remove k index) same
      ∙ ap (λ o. forget_key field o index) (sym before)

  put-IsIndex :
      (field : SessionRecord → String) (test : SessionRecord → Bool) (index : Dict String)
      → field t ≡ field old
      → IsIndex field test
          (Dict.insert t.session_id t s.sessions)
          (index_session field test t (forget_key field (Dict.get s.sessions t.session_id) index))
      → IsIndex field test twice (
          index_session field test t
            (forget_key field (Dict.get (Dict.insert id t s.sessions) t.session_id) index))
  put-IsIndex field test index same h key j e =
      ap (λ o. is_some_and o (λ v. field v == key && test v)) (get-twice j)
      ∙ h key j (
          ap (λ kept. Dict.get (index_session field test t kept) key)
            (sym (forget_key-put field index same))
          ∙ e)

  put_again-IsRouted : IsRouted s → IsRouted (upsert_session t (put id t s))
  unfolding upsert_session put
  put_again-IsRouted h =
      let routed = upsert_session-IsRouted t s h in
      record {
        keyed = λ k v e. routed.keyed k v (sym (get-twice k) ∙ e);
        rooms =
            put-IsIndex (λ v. v.session_room_id) (should_route_session_room s) s.room_to_session
              place.1 routed.rooms;
        threads =
            put-IsIndex (λ v. v.thread_id) (should_index_session_thread s) s.thread_to_session
              place.2 routed.threads;
      }

  pub put_again-IsSound : IsSound s → IsSound (upsert_session t (put id t s))
  unfolding upsert_session put
  put_again-IsSound h = record {
    routed = put_again-IsRouted h.routed;
    approvals_keyed = h.approvals_keyed;
  }

  pub put_again-Agrees :
      (r : ReplayState)
      → Agrees s r
      → Agrees (upsert_session t (put id t s)) (apply r (session_updated t))
  unfolding upsert_session put
  put_again-Agrees r h j = (
    λ e.
        ap durable_of (get-twice j)
        ∙ ground (
          arith,
          (h j).0,
          get-apply_sessions r j (session_updated t),
          get-insert t.session_id j t s.sessions,
        ),
    λ e. (h j).1 e ∙ sym (get-apply_approvals r j (session_updated t)),
  )

-- A change in place that a view does not see.
module _ (m : Sessions) (id : String) (t old : SessionRecord)
    (known : Dict.get m id ≡ some old) where
  unseen-at :
      {B : Type 0} (view : Option SessionRecord → B) (j : String)
      → view (some t) ≡ view (some old)
      → (b : Bool) → (id == j) ≡ b
      → view (if b then some t else Dict.get m j) ≡ view (Dict.get m j)
  unseen-at view j e false q = refl
  unseen-at view j e true q = e ∙ ap view (sym known ∙ ap (λ k. Dict.get m k) ((eq_iff id j).0 q))

  pub unseen :
      {B : Type 0} (view : Option SessionRecord → B) (j : String)
      → view (some t) ≡ view (some old)
      → view (Dict.get (Dict.insert id t m) j) ≡ view (Dict.get m j)
  unseen view j e = ap view (get-insert id j t m) ∙ unseen-at view j e (id == j) refl

  unseen-IsIndex :
      (field : SessionRecord → String) (test : SessionRecord → Bool) (index : Dict String)
      → field t ≡ field old
      → test t ≡ test old
      → IsIndex field test m index
      → IsIndex field test (Dict.insert id t m) index
  unseen-IsIndex field test index f e h key j q =
      unseen (λ o. is_some_and o (λ v. field v == key && test v)) j (rw (f, e) refl) ∙ h key j q

pub unseen-IsSound :
    (s : WorkerState) (id : String) (t old : SessionRecord)
    → Dict.get s.sessions id ≡ some old
    → SamePlace t old
    → should_route_session_room s t ≡ should_route_session_room s old
    → should_index_session_thread s t ≡ should_index_session_thread s old
    → IsSound s
    → IsSound (put id t s)
unfolding put
unseen-IsSound s id t old known (a, b, c) rooms threads h = record {
  routed = record {
    keyed =
        subst (λ i. IsKeyed (λ v. v.session_id) (Dict.insert i t s.sessions))
          (a ∙ h.routed.keyed id old known)
          (insert-IsKeyed (λ v. v.session_id) t s.sessions h.routed.keyed);
    rooms =
        unseen-IsIndex s.sessions id t old known (λ v. v.session_room_id)
          (should_route_session_room s) s.room_to_session b rooms h.routed.rooms;
    threads =
        unseen-IsIndex s.sessions id t old known (λ v. v.thread_id) (should_index_session_thread s)
          s.thread_to_session c threads h.routed.threads;
  };
  approvals_keyed = h.approvals_keyed;
}
