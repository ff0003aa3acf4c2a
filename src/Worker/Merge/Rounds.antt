-- ===== src/Worker/Merge/Rounds.antt =====
-- `merge_local_mirror`: what one round of the loop over the sessions leaves alone.
use codex_webex_connector.Base.{
  String, Bool, true, false, Option, none, some, ◌≡◌, refl, arith, eq_iff, if◌then◌else◌,
}
use codex_webex_connector.Base.Dict
use codex_webex_connector.Base.Dict.{Dict, get-insert}
use codex_webex_connector.Base.Dict.Entries.{IsKeyed}
use codex_webex_connector.Model.{Instant, SessionRecord, LocalSessionMirror}
use codex_webex_connector.Sessions.{LocalMirrorClaimScope}
use codex_webex_connector.Worker.{WorkerState, upsert_session}
use codex_webex_connector.Worker.Merge.{
  claim, desired_mirror, merge_known, merge_session, local_session_is_stale_against_remote,
}

abbrev pub id_of : SessionRecord → String
id_of t = t.session_id

pub IsKeyed-insert_at :
    (k : String) (t : SessionRecord) (m : Dict SessionRecord)
    → t.session_id ≡ k
    → IsKeyed id_of m
    → IsKeyed id_of (Dict.insert k t m)
IsKeyed-insert_at k t m e h j v f = ground (arith, get-insert k j t m, eq_iff k j, h j v)

-- what one round leaves alone
pub record IsRound (acc after : WorkerState × Bool) : Type 0 where
  pub purged : after.0.remote_purged_session_ids ≡ acc.0.remote_purged_session_ids
  pub keyed : IsKeyed id_of acc.0.sessions → IsKeyed id_of after.0.sessions
  pub unchanged : after.1 ≡ false → after ≡ acc

IsRound-refl : (acc : WorkerState × Bool) → IsRound acc acc
IsRound-refl acc = record { purged = refl; keyed = λ h. h; unchanged = λ _. refl }

upsert-IsRound :
    (local : SessionRecord) (s : WorkerState) (changed : Bool)
    → IsRound (s, changed) (upsert_session local s, true)
unfolding upsert_session
upsert-IsRound local s changed = record {
  purged = refl;
  keyed = λ h. IsKeyed-insert_at local.session_id local s.sessions refl h;
  unchanged = λ e. cc;
}

IsRound-if :
    (b : Bool) {acc x y : WorkerState × Bool}
    → IsRound acc x
    → IsRound acc y
    → IsRound acc (if b then x else y)
IsRound-if true h k = h
IsRound-if false h k = k

amend-IsRound :
    (local t : SessionRecord) (installation : String) (mirror : LocalSessionMirror)
    (s : WorkerState) (changed : Bool)
    → Dict.get s.sessions local.session_id ≡ some t
    → IsRound
        (s, changed)
        (
          record s {
            sessions = Dict.insert local.session_id (claim t installation mirror) s.sessions;
          },
          true,
        )
amend-IsRound local t installation mirror s changed e = record {
  purged = refl;
  keyed = λ h.
      IsKeyed-insert_at local.session_id (claim t installation mirror) s.sessions
        (h local.session_id t e) h;
  unchanged = λ e. cc;
}

merge_known-IsRound :
    (installation : String) (mirror : LocalSessionMirror) (local : SessionRecord)
    (o : Option SessionRecord) (s : WorkerState) (changed : Bool)
    → Dict.get s.sessions local.session_id ≡ o
    → IsRound (s, changed) (merge_known installation mirror local o (s, changed))
merge_known-IsRound installation mirror local none s changed e =
    IsRound-if (local_session_is_stale_against_remote s local) (IsRound-refl (s, changed))
      (upsert-IsRound local s changed)
merge_known-IsRound installation mirror local (some t) s changed e =
    IsRound-if _ (IsRound-refl (s, changed)) (
      IsRound-if _ (upsert-IsRound local s changed) (
        IsRound-if _ (amend-IsRound local t installation mirror s changed e)
          (IsRound-refl (s, changed))))

pub merge_session-IsRound :
    (installation : String) (mirrored_at : Instant) (scope : LocalMirrorClaimScope)
    (acc : WorkerState × Bool) (local : SessionRecord)
    → IsRound acc (merge_session installation mirrored_at scope acc local)
unfolding merge_session
merge_session-IsRound installation mirrored_at scope acc local =
    let mirror = desired_mirror local.local_mirror installation mirrored_at in
    IsRound-if _ (IsRound-refl acc) (
      merge_known-IsRound installation mirror (claim local installation mirror)
        (Dict.get acc.0.sessions local.session_id) acc.0 acc.1 refl)
