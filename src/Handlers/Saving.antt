-- ===== src/Handlers/Saving.antt =====
-- crates/wxcd-worker/src/main.rs: when the worker state, the events that it appends and the local
-- snapshot say the same. What a session has that no event carries, the time of its last change and
-- the text of the turn that runs, is left out. Here and in the modules below, the log is the one that
-- the worker tried to write, failed appends included; Effects.Logic.Stored has what the Data Space holds.
pub mod Agreement
pub mod Persist
pub mod InPlace
pub mod Sessions
pub mod Messages
pub mod Approvals
pub mod Requests
pub mod Changes
pub mod CodexEvents
pub mod Creation
pub mod Probes
pub mod Archive
pub mod Actions
pub mod Ingress
pub mod Operator
use codex_webex_connector.Base.{String, Bool, true, Option, none, some, ◌≡◌}
use codex_webex_connector.Base.Dict
use codex_webex_connector.Base.Dict.Entries.{IsKeyed}
use codex_webex_connector.Model.{SessionRecord, BridgeSnapshot}
use codex_webex_connector.EventLog.{ReplayState, from_snapshot}
use codex_webex_connector.Worker.{WorkerState}
use codex_webex_connector.Worker.Indexes.{IsRouted}
use codex_webex_connector.Effects.Logic.{Condition}

abbrev pub durable : SessionRecord → SessionRecord
durable t = record t { updated_at = 0; active_turn_buffer = "" }

abbrev pub durable_of : Option SessionRecord → Option SessionRecord
durable_of none = none
durable_of (some t) = some (durable t)

-- the indexes agree with the sessions, and each approval stands under its identifier
pub record IsSound (s : WorkerState) : Type 0 where
  pub routed : IsRouted s
  pub approvals_keyed : IsKeyed (λ a. a.approval_id) s.pending_approvals

-- on the sessions and the approvals that the tests select, the worker and a replay agree
abbrev pub AgreesOn : (String → Bool) → (String → Bool) → WorkerState → ReplayState → Type 0
AgreesOn p q s r =
    (j : String)
    → (p j ≡ true → durable_of (Dict.get s.sessions j) ≡ durable_of (Dict.get r.sessions j))
      × (q j ≡ true → Dict.get s.pending_approvals j ≡ Dict.get r.pending_approvals j)

abbrev pub everything : String → Bool
everything j = true

-- the same sessions, but for what is left out, and the same approvals
abbrev pub Agrees : WorkerState → ReplayState → Type 0
Agrees = AgreesOn everything everything

abbrev pub IsSaved : WorkerState → Option BridgeSnapshot → Type 0
IsSaved s saved =
    (snapshot : BridgeSnapshot) × (saved ≡ some snapshot) × Agrees s (from_snapshot snapshot)

abbrev pub Sound : Condition
Sound s r saved = IsSound s

-- sound, and what was logged agrees on what is selected
abbrev pub LoggedOn : (String → Bool) → (String → Bool) → Condition
LoggedOn p q s r saved = IsSound s × AgreesOn p q s r

abbrev pub Logged : Condition
Logged = LoggedOn everything everything

-- and the local snapshot agrees on everything
abbrev pub SavedOn : (String → Bool) → (String → Bool) → Condition
SavedOn p q s r saved = IsSound s × AgreesOn p q s r × IsSaved s saved

abbrev pub Saved : Condition
Saved = SavedOn everything everything
