-- ===== src/Worker/Merge/Claims.antt =====
-- crates/wxcd-worker/src/main.rs, `merge_local_mirror`: what one local session may do to the
-- session of its identifier.
use codex_webex_connector.Base.{
  String, Bool, true, false, not, Option, none, some, ◌≡◌, ◌⊎◌, inl, inr, refl, sym, subst, ◌∙◌,
  arith, ◌==◌, eq_iff, is_some_and, if◌then◌else◌, Bool-cases,
}
use codex_webex_connector.Base.Dict
use codex_webex_connector.Base.Dict.{Dict, get-insert}
use codex_webex_connector.Base.IdSet
use codex_webex_connector.Model.{Instant, SessionRecord, LocalSessionMirror, counts_as_archived}
use codex_webex_connector.Sessions.{
  session_belongs_to_installation, local_session_is_claimable_mirror_evidence,
  remote_session_accepts_local_mirror_claim, remote_session_blocks_local_replacement,
  LocalMirrorClaimScope, allows,
}
use codex_webex_connector.Worker.{WorkerState, upsert_session}
use codex_webex_connector.Worker.Merge.{
  local_session_is_stale_against_remote, claim, desired_mirror, merge_known, merge_session,
}

-- The execution authority of the session is another installation. A session without an authority is
-- not protected, not even by a mirror of another installation.
abbrev pub has_foreign_authority : String → SessionRecord → Bool
has_foreign_authority installation t =
    is_some_and t.authority (λ a. not (a.installation_id == installation))

-- What a merge may make of one session. An unknown session comes in as this installation's own,
-- and not if it was purged; a known one never goes away, is left alone if its authority is another
-- installation, stays archived if it was, and is this installation's own if it changed.
abbrev pub IsClaim : String → Bool → Option SessionRecord → Option SessionRecord → Type 0
IsClaim installation purged none none = Unit
IsClaim installation purged none (some t) =
    (purged ≡ false) × (session_belongs_to_installation t installation ≡ true)
IsClaim installation purged (some b) none = ⊥
IsClaim installation purged (some b) (some t) =
    (has_foreign_authority installation b ≡ true → t ≡ b)
    × (counts_as_archived b ≡ true → counts_as_archived t ≡ true)
    × ((t ≡ b) ⊎ (session_belongs_to_installation t installation ≡ true))

module _ (installation : String) (purged : Bool) where
  pub IsClaim-refl : (o : Option SessionRecord) → IsClaim installation purged o o
  IsClaim-refl none = tt
  IsClaim-refl (some b) = (λ _. refl, λ h. h, inl refl)

  pub IsClaim-trans :
      (a b c : Option SessionRecord)
      → IsClaim installation purged a b
      → IsClaim installation purged b c
      → IsClaim installation purged a c
  IsClaim-trans none none c h k = k
  IsClaim-trans none (some b) none h k = absurd k
  IsClaim-trans none (some b) (some c) h k = elim k.2 [
    | inl same ↦ (h.0, rw same h.1)
    | inr own ↦ (h.0, own)
  ]
  IsClaim-trans (some a) none c h k = absurd h
  IsClaim-trans (some a) (some b) none h k = absurd k
  IsClaim-trans (some a) (some b) (some c) h k = (
    λ f. k.0 (rw (h.0 f) f) ∙ h.0 f,
    λ f. k.1 (h.1 f),
    elim k.2 [
      | inl same ↦ elim h.2 [ inl first ↦ inl (same ∙ first) | inr own ↦ inr (rw same own) ]
      | inr own ↦ inr own
    ],
  )

claim-belongs :
    (session : SessionRecord) (installation : String) (mirror : LocalSessionMirror)
    → remote_session_accepts_local_mirror_claim session installation ≡ true
    → session_belongs_to_installation (claim session installation mirror) installation ≡ true
unfolding session_belongs_to_installation remote_session_accepts_local_mirror_claim
claim-belongs session installation mirror h = ground (arith, eq_iff installation installation)

not_foreign :
    (t : SessionRecord) (installation : String)
    → remote_session_accepts_local_mirror_claim t installation ≡ true
    → has_foreign_authority installation t ≡ true
    → ⊥
unfolding remote_session_accepts_local_mirror_claim
not_foreign t installation h f = ground arith

pub get-upsert_session :
    (session : SessionRecord) (s : WorkerState) (j : String)
    → Dict.get (upsert_session session s).sessions j
      ≡ (if session.session_id == j then some session else Dict.get s.sessions j)
unfolding upsert_session
get-upsert_session session s j = get-insert session.session_id j session s.sessions

-- One round of the loop, on a session that is claimed.
module _ (installation : String) (mirror : LocalSessionMirror) (local : SessionRecord)
    (s : WorkerState) (changed : Bool) where
  abbrev after : Option SessionRecord → String → Option SessionRecord
  after o j = Dict.get (merge_known installation mirror local o (s, changed)).0.sessions j

  after-others :
      (o : Option SessionRecord) (j : String)
      → (local.session_id == j) ≡ false
      → after o j ≡ Dict.get s.sessions j
  after-others none j h = ground (arith, get-upsert_session local s j)
  after-others (some t) j h = ground (
    arith,
    get-upsert_session local s j,
    get-insert local.session_id j (claim t installation mirror) s.sessions,
  )

  abbrev purged : Bool
  purged = IdSet.contains s.remote_purged_session_ids local.session_id

  after-none :
      Dict.get s.sessions local.session_id ≡ none
      → (after none local.session_id ≡ none)
        ⊎ ((after none local.session_id ≡ some local) × (purged ≡ false))
  unfolding local_session_is_stale_against_remote
  after-none e =
      ground (
        arith,
        get-upsert_session local s local.session_id,
        eq_iff local.session_id local.session_id,
      )

  after-some :
      (t : SessionRecord)
      → Dict.get s.sessions local.session_id ≡ some t
      → (after (some t) local.session_id ≡ some t)
        ⊎ ((remote_session_accepts_local_mirror_claim t installation ≡ true)
            × ((after (some t) local.session_id ≡ some (claim t installation mirror))
                ⊎ ((after (some t) local.session_id ≡ some local)
                    × (counts_as_archived t ≡ true → counts_as_archived local ≡ true))))
  unfolding remote_session_blocks_local_replacement
  after-some t e = ground (
    arith,
    get-upsert_session local s local.session_id,
    get-insert local.session_id local.session_id (claim t installation mirror) s.sessions,
    eq_iff local.session_id local.session_id,
  )

  module _ (own : session_belongs_to_installation local installation ≡ true) where
    after-IsClaim_self :
        (o : Option SessionRecord)
        → Dict.get s.sessions local.session_id ≡ o
        → IsClaim installation purged o (after o local.session_id)
    after-IsClaim_self none e = elim (after-none e) [
      | inl absent ↦ subst (IsClaim installation purged none) (sym absent) tt
      | inr (new, alive) ↦ subst (IsClaim installation purged none) (sym new) (alive, own)
    ]
    after-IsClaim_self (some t) e = elim (after-some t e) [
      | inl same ↦
          subst (IsClaim installation purged (some t)) (sym same)
            (IsClaim-refl installation purged (some t))
      | inr (accepts, inl marked) ↦ subst (IsClaim installation purged (some t)) (sym marked) (
        λ f. absurd (not_foreign t installation accepts f),
        λ h. h,
        inr (claim-belongs t installation mirror accepts),
      )
      | inr (accepts, inr (replaced, archived)) ↦
          subst (IsClaim installation purged (some t)) (sym replaced)
            (λ f. absurd (not_foreign t installation accepts f), archived, inr own)
    ]

    pub after-IsClaim :
        (j : String)
        → IsClaim installation
            (IdSet.contains s.remote_purged_session_ids j)
            (Dict.get s.sessions j)
            (after (Dict.get s.sessions local.session_id) j)
    after-IsClaim j = elim (Bool-cases (local.session_id == j)) [
      | inl here ↦
          subst
            (λ k.
              IsClaim installation (IdSet.contains s.remote_purged_session_ids k)
                (Dict.get s.sessions k) (after (Dict.get s.sessions local.session_id) k))
            ((eq_iff local.session_id j).0 here)
            (after-IsClaim_self (Dict.get s.sessions local.session_id) refl)
      | inr other ↦
          subst
            (IsClaim installation (IdSet.contains s.remote_purged_session_ids j)
              (Dict.get s.sessions j))
            (sym (after-others (Dict.get s.sessions local.session_id) j other))
            (IsClaim-refl installation _ (Dict.get s.sessions j))
    ]

-- a local session that passes the first test of the loop is this installation's once claimed
own_claim :
    (local : SessionRecord) (installation : String) (mirror : LocalSessionMirror)
    → local_session_is_claimable_mirror_evidence local installation ≡ true
    → session_belongs_to_installation (claim local installation mirror) installation ≡ true
unfolding local_session_is_claimable_mirror_evidence remote_session_accepts_local_mirror_claim
own_claim local installation mirror h = claim-belongs local installation mirror h

-- One round of the loop makes of every session what a claim may make of it.
pub merge_session-IsClaim :
    (installation : String) (mirrored_at : Instant) (scope : LocalMirrorClaimScope)
    (acc : WorkerState × Bool) (local : SessionRecord) (j : String)
    → IsClaim installation
        (IdSet.contains acc.0.remote_purged_session_ids j)
        (Dict.get acc.0.sessions j)
        (Dict.get (merge_session installation mirrored_at scope acc local).0.sessions j)
unfolding merge_session
merge_session-IsClaim installation mirrored_at scope acc local j =
    elim (Bool-cases (local_session_is_claimable_mirror_evidence local installation)) [
      | inl claimable ↦ elim (Bool-cases (allows scope local installation)) [
        | inl allowed ↦
            let mirror = desired_mirror local.local_mirror installation mirrored_at in
            rw (claimable, allowed)
              (after-IsClaim installation mirror (claim local installation mirror) acc.0 acc.1
                (own_claim local installation mirror claimable) j)
        | inr out ↦ rw (claimable, out) (IsClaim-refl installation _ (Dict.get acc.0.sessions j))
      ]
      | inr out ↦ rw out (IsClaim-refl installation _ (Dict.get acc.0.sessions j))
    ]
