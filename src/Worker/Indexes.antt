-- ===== src/Worker/Indexes.antt =====
-- crates/wxcd-worker/src/main.rs: the indexes of `WorkerState` agree with its sessions.
use codex_webex_connector.Base.{
  String, Bool, true, false, ◌&&◌, Option, none, some, List, [], ◌∷◌, ◌≡◌, refl, ap, ◌∙◌, arith,
  ◌==◌, eq_iff, is_some_and, All, if◌then◌else◌,
}
use codex_webex_connector.Base.Dict
use codex_webex_connector.Base.Dict.{Dict, get-insert, get-remove}
use codex_webex_connector.Base.Dict.Entries.{IsKeyed, All-values, insert-IsKeyed, remove-IsKeyed}
use codex_webex_connector.Model.{SessionRecord}
use codex_webex_connector.Worker.{
  WorkerState, forget_key, index_session, rebuild_index, upsert_session, remove_session,
  remove_found, remove_pending_approvals_for_session, rebuild_session_indexes,
  set_executable_installation, should_route_session_room, should_index_session_thread,
}

abbrev pub Sessions : Type 0
Sessions = Dict SessionRecord

-- One index, on one field of the sessions, of the sessions that pass a test.
module _ (field : SessionRecord → String) (test : SessionRecord → Bool) where
  abbrev pub leads_to : Sessions → String → String → Bool
  leads_to sessions key id = is_some_and (Dict.get sessions id) (λ t. field t == key && test t)

  -- each entry leads to a session of that key that passes the test
  abbrev pub IsIndex : Sessions → Dict String → Type 0
  IsIndex sessions index =
      (key id : String) → Dict.get index key ≡ some id → leads_to sessions key id ≡ true

  -- without the key of the session that is replaced, no entry leads to that session
  forget_key-leads_to :
      (sessions : Sessions) (index : Dict String) (sid key id : String) (o : Option SessionRecord)
      → Dict.get sessions sid ≡ o
      → IsIndex sessions index
      → Dict.get (forget_key field o index) key ≡ some id
      → (leads_to sessions key id ≡ true) × ((sid == id) ≡ false)
  forget_key-leads_to sessions index sid key id none found h e =
      ground (arith, h key id, eq_iff sid id)
  forget_key-leads_to sessions index sid key id (some previous) found h e = ground (
    arith,
    h key id,
    get-remove (field previous) key index,
    eq_iff (field previous) key,
    eq_iff sid id,
  )

  upsert-IsIndex :
      (sessions : Sessions) (index : Dict String) (session : SessionRecord)
      → IsIndex sessions index
      → IsIndex (Dict.insert session.session_id session sessions) (
          index_session field test session
            (forget_key field (Dict.get sessions session.session_id) index))
  upsert-IsIndex sessions index session h key id e =
      let kept = forget_key field (Dict.get sessions session.session_id) index in
      ground (
        arith,
        forget_key-leads_to sessions index session.session_id key id
            (Dict.get sessions session.session_id) refl h,
        get-insert (field session) key session.session_id kept,
        get-insert session.session_id id session sessions,
        eq_iff (field session) key,
        eq_iff session.session_id id,
      )

  -- the session stands under its key if it passes the test, the one it replaced stands under its own
  -- no more, and the other entries are as they were
  abbrev pub IsReindexed : SessionRecord → Option SessionRecord → Dict String → Dict String → Type 0
  IsReindexed session previous before after =
      (key : String)
      → Dict.get after key ≡ (
          if field session == key && test session
          then some session.session_id
          else if is_some_and previous (λ t. field t == key)
          then none
          else Dict.get before key)

  index_session-IsReindexed :
      (session : SessionRecord) (previous : Option SessionRecord) (index : Dict String)
      → IsReindexed session previous index
          (index_session field test session (forget_key field previous index))
  index_session-IsReindexed session none index key =
      ground (arith, get-insert (field session) key session.session_id index)
  index_session-IsReindexed session (some t) index key = ground (
    arith,
    get-remove (field t) key index,
    get-insert (field session) key session.session_id (Dict.remove (field t) index),
  )

  remove-IsIndex :
      (sessions : Sessions) (index : Dict String) (id : String) (session : SessionRecord)
      → Dict.get sessions id ≡ some session
      → IsIndex sessions index
      → IsIndex (Dict.remove id sessions) (Dict.remove (field session) index)
  remove-IsIndex sessions index id session found h key j e = ground (
    arith,
    h key j,
    get-remove (field session) key index,
    get-remove id j sessions,
    eq_iff (field session) key,
    eq_iff id j,
  )

  index_session-IsIndex :
      (sessions : Sessions) (index : Dict String) (session : SessionRecord)
      → Dict.get sessions session.session_id ≡ some session
      → IsIndex sessions index
      → IsIndex sessions (index_session field test session index)
  index_session-IsIndex sessions index session found h key id e = ground (
    arith,
    h key id,
    get-insert (field session) key session.session_id index,
    eq_iff (field session) key,
    eq_iff session.session_id id,
  )

  rebuild_index-IsIndex :
      (sessions : Sessions) (ts : List SessionRecord) (index : Dict String)
      → All (λ t. Dict.get sessions t.session_id ≡ some t) ts
      → IsIndex sessions index
      → IsIndex sessions (rebuild_index field test ts index)
  unfolding rebuild_index
  rebuild_index-IsIndex sessions [] index found h = h
  rebuild_index-IsIndex sessions (t ∷ ts) index found h =
      rebuild_index-IsIndex sessions ts (index_session field test t index) found.1
        (index_session-IsIndex sessions index t found.0 h)

-- The sessions stand under their identifiers, a room leads to the session of that room if that
-- session is routed, and a thread to the session of that thread if it is indexed.
pub record IsRouted (s : WorkerState) : Type 0 where
  pub keyed : IsKeyed (λ t. t.session_id) s.sessions
  pub rooms :
      IsIndex (λ t. t.session_room_id) (should_route_session_room s) s.sessions s.room_to_session
  pub threads :
      IsIndex (λ t. t.thread_id) (should_index_session_thread s) s.sessions s.thread_to_session

pub upsert_session-IsRouted :
    (session : SessionRecord) (s : WorkerState) → IsRouted s → IsRouted (upsert_session session s)
unfolding upsert_session
upsert_session-IsRouted session s h = record {
  keyed = insert-IsKeyed (λ t. t.session_id) session s.sessions h.keyed;
  rooms =
      upsert-IsIndex (λ t. t.session_room_id) (should_route_session_room s) s.sessions
        s.room_to_session session h.rooms;
  threads =
      upsert-IsIndex (λ t. t.thread_id) (should_index_session_thread s) s.sessions
        s.thread_to_session session h.threads;
}

-- If every index entry leads to a session of its key that is to be indexed, adding or replacing a
-- session keeps that so. The session then stands under its room if it is to be routed, and under its
-- thread if it is to be indexed; the keys of the session it replaced are free but for that, and all
-- other entries are as they were.
pub upsert_session_lem :
    (session : SessionRecord) (s : WorkerState)
    → IsRouted s
    → (let t = upsert_session session s in
        let previous = Dict.get s.sessions session.session_id in
        IsRouted t
        × IsReindexed
            (λ x. x.session_room_id)
            (should_route_session_room s)
            session
            previous
            s.room_to_session
            t.room_to_session
        × IsReindexed
            (λ x. x.thread_id)
            (should_index_session_thread s)
            session
            previous
            s.thread_to_session
            t.thread_to_session)
unfolding upsert_session
upsert_session_lem session s h = (
  upsert_session-IsRouted session s h,
  index_session-IsReindexed (λ x. x.session_room_id) (should_route_session_room s) session
      (Dict.get s.sessions session.session_id) s.room_to_session,
  index_session-IsReindexed (λ x. x.thread_id) (should_index_session_thread s) session
      (Dict.get s.sessions session.session_id) s.thread_to_session,
)

remove_found-IsRouted :
    (id : String) (s : WorkerState) (o : Option SessionRecord)
    → Dict.get s.sessions id ≡ o
    → IsRouted s
    → IsRouted (remove_found id o s).0
unfolding remove_pending_approvals_for_session
remove_found-IsRouted id s none found h = h
remove_found-IsRouted id s (some session) found h = record {
  keyed = remove-IsKeyed (λ t. t.session_id) id s.sessions h.keyed;
  rooms =
      remove-IsIndex (λ t. t.session_room_id) (should_route_session_room s) s.sessions
        s.room_to_session id session found h.rooms;
  threads =
      remove-IsIndex (λ t. t.thread_id) (should_index_session_thread s) s.sessions
        s.thread_to_session id session found h.threads;
}

-- So does removing one, present or not.
pub remove_session-IsRouted :
    (id : String) (s : WorkerState) → IsRouted s → IsRouted (remove_session id s).0
unfolding remove_session
remove_session-IsRouted id s h = remove_found-IsRouted id s (Dict.get s.sessions id) refl h

found_by_id :
    (sessions : Sessions)
    → IsKeyed (λ t. t.session_id) sessions
    → All (λ (t : SessionRecord). Dict.get sessions t.session_id ≡ some t) (Dict.values sessions)
found_by_id sessions keyed =
    All-values (λ (t : SessionRecord). Dict.get sessions t.session_id ≡ some t) sessions
      λ k v e. ap (λ j. Dict.get sessions j) (keyed k v e) ∙ e

IsIndex-empty :
    (field : SessionRecord → String) (test : SessionRecord → Bool) (sessions : Sessions)
    → IsIndex field test sessions Dict.empty
unfolding Dict.get
IsIndex-empty field test sessions key id e = cc

-- Rebuilding the indexes makes them agree whatever they held before.
pub rebuild_session_indexes-IsRouted :
    (s : WorkerState)
    → IsKeyed (λ t. t.session_id) s.sessions
    → IsRouted (rebuild_session_indexes s)
unfolding rebuild_session_indexes
rebuild_session_indexes-IsRouted s keyed = record {
  keyed = keyed;
  rooms =
      rebuild_index-IsIndex (λ t. t.session_room_id) (should_route_session_room s) s.sessions
        (Dict.values s.sessions) Dict.empty (found_by_id s.sessions keyed)
        (IsIndex-empty _ _ s.sessions);
  threads =
      rebuild_index-IsIndex (λ t. t.thread_id) (should_index_session_thread s) s.sessions
        (Dict.values s.sessions) Dict.empty (found_by_id s.sessions keyed)
        (IsIndex-empty _ _ s.sessions);
}

pub set_executable_installation-IsRouted :
    (id : String) (s : WorkerState)
    → IsKeyed (λ t. t.session_id) s.sessions
    → IsRouted (set_executable_installation id s)
unfolding set_executable_installation
set_executable_installation-IsRouted id s keyed =
    rebuild_session_indexes-IsRouted (record s { executable_installation_id = some id }) keyed

-- the parts of the state that the agreement reads are the same
abbrev pub SameRoutes : WorkerState → WorkerState → Type 0
SameRoutes s t =
    (t.sessions ≡ s.sessions)
    × (t.room_to_session ≡ s.room_to_session)
    × (t.thread_to_session ≡ s.thread_to_session)
    × (t.executable_installation_id ≡ s.executable_installation_id)

pub SameRoutes-trans : (s t u : WorkerState) → SameRoutes s t → SameRoutes t u → SameRoutes s u
SameRoutes-trans s t u h k = (k.0 ∙ h.0, k.1 ∙ h.1, k.2 ∙ h.2, k.3 ∙ h.3)

pub SameRoutes-IsRouted : (s t : WorkerState) → SameRoutes s t → IsRouted s → IsRouted t
SameRoutes-IsRouted s t (a, b, c, d) h = record {
  keyed = rw a h.keyed;
  rooms = rw (a, b, d) h.rooms;
  threads = rw (a, c, d) h.threads;
}
