-- ===== src/Worker/Handoff/Rounds.antt =====
-- `apply_webex_handoff_payload`: what one exported session may do to the session of its identifier.
use codex_webex_connector.Base.{
  ◌⊎◌, String, Bool, true, false, Option, none, some, List, any, ◌≡◌, inl, inr, refl, sym, subst,
  ◌∙◌, arith, ◌==◌, eq_iff, Bool-cases,
}
use codex_webex_connector.Base.Dict
use codex_webex_connector.Base.Dict.{Dict, get-insert}
use codex_webex_connector.Base.IdSet
use codex_webex_connector.Model.{Instant, SessionRecord, LocalSessionMirror, counts_as_archived}
use codex_webex_connector.Sessions.{
  local_session_has_current_installation_evidence, remote_session_accepts_local_mirror_claim,
  remote_session_blocks_local_replacement,
}
use codex_webex_connector.Worker.Merge.Claims.{has_foreign_authority, get-upsert_session}
use codex_webex_connector.Worker.Handoff.{
  Progress, adopt, with_missing, import_known, import_session,
}

-- What a handoff may make of one session. None comes in that was purged; a known one never goes
-- away, is left alone if its authority is another installation, and stays archived if it was.
abbrev pub IsHandedOver : String → Bool → Option SessionRecord → Option SessionRecord → Type 0
IsHandedOver installation purged none none = Unit
IsHandedOver installation purged none (some t) = purged ≡ false
IsHandedOver installation purged (some b) none = ⊥
IsHandedOver installation purged (some b) (some t) =
    (has_foreign_authority installation b ≡ true → t ≡ b)
    × (counts_as_archived b ≡ true → counts_as_archived t ≡ true)

module _ (installation : String) (purged : Bool) where
  pub IsHandedOver-refl : (o : Option SessionRecord) → IsHandedOver installation purged o o
  IsHandedOver-refl none = tt
  IsHandedOver-refl (some b) = (λ _. refl, λ h. h)

  pub IsHandedOver-trans :
      (a b c : Option SessionRecord)
      → IsHandedOver installation purged a b
      → IsHandedOver installation purged b c
      → IsHandedOver installation purged a c
  IsHandedOver-trans none none c h k = k
  IsHandedOver-trans none (some b) none h k = absurd k
  IsHandedOver-trans none (some b) (some c) h k = h
  IsHandedOver-trans (some a) none c h k = absurd h
  IsHandedOver-trans (some a) (some b) none h k = absurd k
  IsHandedOver-trans (some a) (some b) (some c) h k =
      (λ f. k.0 (rw (h.0 f) f) ∙ h.0 f, λ f. k.1 (h.1 f))

module _ (installation : String) (flying : Bool) (local : SessionRecord)
    (mirror : LocalSessionMirror) (p : Progress) where
  abbrev completed : SessionRecord → SessionRecord
  completed t = with_missing t installation (adopt local installation mirror).local_mirror

  abbrev after : Option SessionRecord → String → Option SessionRecord
  after o j =
      Dict.get
        (import_known installation flying local (adopt local installation mirror) o
          p).worker.sessions
        j

  after-others :
      (o : Option SessionRecord) (j : String)
      → (local.session_id == j) ≡ false
      → after o j ≡ Dict.get p.worker.sessions j
  after-others none j h =
      ground (arith, get-upsert_session (adopt local installation mirror) p.worker j)
  after-others (some t) j h = ground (
    arith,
    get-upsert_session (adopt local installation mirror) p.worker j,
    get-insert local.session_id j (completed t) p.worker.sessions,
  )

  after-none :
      Dict.get p.worker.sessions local.session_id ≡ none
      → (after none local.session_id ≡ none)
        ⊎ (after none local.session_id ≡ some (adopt local installation mirror))
  after-none e = ground (
    arith,
    get-upsert_session (adopt local installation mirror) p.worker local.session_id,
    eq_iff local.session_id local.session_id,
  )

  after-some :
      (t : SessionRecord)
      → Dict.get p.worker.sessions local.session_id ≡ some t
      → (after (some t) local.session_id ≡ some t)
        ⊎ ((has_foreign_authority installation t ≡ false)
            × ((after (some t) local.session_id ≡ some (completed t))
                ⊎ ((after (some t) local.session_id ≡ some (adopt local installation mirror))
                    × (counts_as_archived t ≡ true → counts_as_archived local ≡ true))))
  unfolding remote_session_accepts_local_mirror_claim remote_session_blocks_local_replacement
  after-some t e = ground (
    arith,
    get-upsert_session (adopt local installation mirror) p.worker local.session_id,
    get-insert local.session_id local.session_id (completed t) p.worker.sessions,
    eq_iff local.session_id local.session_id,
  )

  abbrev gone : Bool
  gone = IdSet.contains p.worker.remote_purged_session_ids local.session_id

  after_self :
      (o : Option SessionRecord)
      → gone ≡ false
      → Dict.get p.worker.sessions local.session_id ≡ o
      → IsHandedOver installation gone o (after o local.session_id)
  after_self none alive e = elim (after-none e) [
    | inl absent ↦ subst (IsHandedOver installation gone none) (sym absent) tt
    | inr new ↦ subst (IsHandedOver installation gone none) (sym new) alive
  ]
  after_self (some t) alive e = elim (after-some t e) [
    | inl same ↦
        subst (IsHandedOver installation gone (some t)) (sym same)
          (IsHandedOver-refl installation gone (some t))
    | inr (own, inl marked) ↦
        subst (IsHandedOver installation gone (some t)) (sym marked) (λ f. cc, λ h. h)
    | inr (own, inr (replaced, archived)) ↦
        subst (IsHandedOver installation gone (some t)) (sym replaced) (λ f. cc, archived)
  ]

  pub after-IsHandedOver :
      gone ≡ false
      → (j : String)
      → IsHandedOver installation
          (IdSet.contains p.worker.remote_purged_session_ids j)
          (Dict.get p.worker.sessions j)
          (after (Dict.get p.worker.sessions local.session_id) j)
  after-IsHandedOver alive j = elim (Bool-cases (local.session_id == j)) [
    | inl here ↦
        subst
          (λ k.
            IsHandedOver installation (IdSet.contains p.worker.remote_purged_session_ids k)
              (Dict.get p.worker.sessions k)
              (after (Dict.get p.worker.sessions local.session_id) k))
          ((eq_iff local.session_id j).0 here)
          (after_self (Dict.get p.worker.sessions local.session_id) alive refl)
    | inr other ↦
        subst
          (IsHandedOver installation (IdSet.contains p.worker.remote_purged_session_ids j)
            (Dict.get p.worker.sessions j))
          (sym (after-others (Dict.get p.worker.sessions local.session_id) j other))
          (IsHandedOver-refl installation _ (Dict.get p.worker.sessions j))
  ]

pub import_session-IsHandedOver :
    (installation : String) (mirrored_at : Instant) (ids : List String) (p : Progress)
    (local : SessionRecord) (j : String)
    → IsHandedOver installation
        (IdSet.contains p.worker.remote_purged_session_ids j)
        (Dict.get p.worker.sessions j)
        (Dict.get (import_session installation mirrored_at ids p local).worker.sessions j)
unfolding import_session
import_session-IsHandedOver installation mirrored_at ids p local j =
    elim (Bool-cases (local_session_has_current_installation_evidence local installation)) [
      | inl ours ↦
          elim (Bool-cases (IdSet.contains p.worker.remote_purged_session_ids local.session_id)) [
            | inl gone ↦
                rw (ours, gone) (IsHandedOver-refl installation _ (Dict.get p.worker.sessions j))
            | inr alive ↦
                rw (ours, alive)
                  (after-IsHandedOver installation (any (λ id. id == local.session_id) ids) local
                    (record { installation_id = installation; mirrored_at = mirrored_at }) p alive
                    j)
          ]
      | inr out ↦ rw out (IsHandedOver-refl installation _ (Dict.get p.worker.sessions j))
    ]
