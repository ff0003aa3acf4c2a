-- ===== src/Effects.antt =====
-- crates/wxcd-worker/src/main.rs: what the handlers of the worker run in. A handler reads and writes
-- the worker state and calls the outside: the clock, the Data Space, the local snapshot file, Webex
-- and Codex. Each call goes on a trace, newest first. What the outside answers is a parameter, a
-- function of the call and of the trace before it, so it may fail at any call and depend on
-- everything that happened. Texts for people are named by what they say.
pub mod Logic
use codex_webex_connector.Base.{ℕ, String, Bool, true, false, Option, none, some, List, [], ◌∷◌}
use codex_webex_connector.Base.Result.{Result, ok, err}
use codex_webex_connector.Json.{Json}
use codex_webex_connector.Model.{
  Instant, SessionRecord, PendingApproval, BridgeEvent, BridgeSnapshot,
}
use codex_webex_connector.Worker.{WorkerState}
use codex_webex_connector.Worker.Guards.{GuardError}

-- a turn as `read_thread_history` gives it
pub record ImportedHistoryTurn : Type 0 where
  pub user_text : String
  pub assistant_text : Option String

-- the texts that `wxcd-render` and the handlers write for people
pub data Note : Type 0 where
  help : Note
  status_summary final_summary failed_guard : SessionRecord → Note
  approval_card : PendingApproval → Note
  resolved_notice : String → String → Note
  unrecovered_notice : String → Note
  history_unreadable : String → String → Note
  history_message : String → Note
  purge_warning : SessionRecord → Note
  cleanup_preview : List SessionRecord → Note
  cleaned_up : List String → Note
  purged not_managed_notice archived_notice : SessionRecord → Note
  diagnosed : SessionRecord → String → Note
  diagnostics : List SessionRecord → Note

pub data WebexCall : Type 0 where
  create_room : String → WebexCall
  delete_room : String → WebexCall
  update_room_title : String → String → WebexCall
  ensure_membership : String → String → WebexCall
  create_message : String → Note → WebexCall
  update_message : String → Note → WebexCall
  get_attachment_action : String → WebexCall

-- the codes of `respond_error`: -32001, -32010 and -32011
pub data RpcCode : Type 0 where
  unhandled_request permission_declined permission_cancelled : RpcCode

pub data CodexCall : Type 0 where
  thread_resume thread_archive : String → CodexCall
  thread_read : String → Bool → CodexCall
  thread_list_page : Bool → Option String → CodexCall
  turn_start : String → String → String → CodexCall
  turn_interrupt : String → String → CodexCall
  respond : Json → Json → CodexCall
  respond_error : Json → RpcCode → CodexCall

-- `PluginDeliveryEnqueueRequest`, what changes from one request to the next
pub record DeliveryRequest : Type 0 where
  pub source_thread_id : String
  pub session_id : String
  pub event_id : String
  pub summary : String
  pub payload : Option Json
  pub created : Instant

pub data Call : Type 0 where
  read_clock random_suffix : Call
  log_event : BridgeEvent → Call
  log_snapshot : BridgeSnapshot → Call
  save_snapshot : BridgeSnapshot → Call
  webex : WebexCall → Call
  codex : CodexCall → Call
  delivery_enqueue : DeliveryRequest → Call

-- what a call that succeeds answers; a call reads the members that its service documents
pub record Answer : Type 0 where
  pub id : String
  pub web_link : Option String
  pub body : Json
  pub thread_ids : List String
  pub next_cursor : Option String

pub data Failure : Type 0 where
  call_failed : Call → Failure
  refused : GuardError → Failure
  bad_input : Failure
  unending_list : Failure

-- with the messages of `render_history_page`, and `{error:#}`
pub record Services : Type 0 where
  pub answer : List Call → Call → Option Answer
  pub now : List Call → Instant
  pub random : List Call → String
  pub history_messages : String → List ImportedHistoryTurn → ℕ → ℕ → List String
  pub error_text : Failure → String

pub record World : Type 0 where
  pub worker : WorkerState
  pub trace : List Call

abbrev pub Handler : Type 0 → Type 0
Handler A = World → World × Result Failure A

module _ {A : Type 0} where
  abbrev pub pure : A → Handler A
  pure a w = (w, ok a)

  abbrev pub fail : Failure → Handler A
  fail e w = (w, err e)

abbrev pub continue :
    {A B : Type 0} → World × Result Failure A → (A → Handler B) → World × Result Failure B
continue (w, ok a) f = f a w
continue (w, err e) f = (w, err e)

infixl 5 ◌>>=◌ ◌>>◌
abbrev pub ◌>>=◌ : {A B : Type 0} → Handler A → (A → Handler B) → Handler B
(m >>= f) w = continue (m w) f

abbrev pub ◌>>◌ : {A B : Type 0} → Handler A → Handler B → Handler B
m >> k = m >>= λ _. k

abbrev pub done : Handler (Unit {0})
done = pure tt

-- `ok_or_else(…)?` and a check that is a `Result`
abbrev pub require : {A : Type 0} → Option A → Failure → Handler A
require none e = fail e
require (some a) e = pure a

abbrev pub checked : {A : Type 0} → Result GuardError A → Handler A
checked (ok a) = pure a
checked (err e) = fail (refused e)

unfoldable pub get_worker : Handler WorkerState
get_worker w = (w, ok w.worker)

unfoldable pub modify : (WorkerState → WorkerState) → Handler (Unit {0})
modify f w = (record w { worker = f w.worker }, ok tt)

-- `.ok()`, and errors that are only logged
abbrev pub ignored : {A : Type 0} → World × Result Failure A → World × Result Failure (Unit {0})
ignored (w, r) = (w, ok tt)

abbrev pub attempt : {A : Type 0} → Handler A → Handler (Unit {0})
attempt m w = ignored (m w)

-- `match … { Ok(_) => …, Err(_) => … }`
abbrev pub observe : {A : Type 0} → Handler A → Handler (Result Failure A)
observe m w = let (v, r) = m w in (v, ok r)

module _ (services : Services) where
  abbrev pub answered : Option Answer → Call → Result Failure Answer
  answered none c = err (call_failed c)
  answered (some a) c = ok a

  unfoldable pub call : Call → Handler Answer
  call c w = (record w { trace = c ∷ w.trace }, answered (services.answer w.trace c) c)

  unfoldable pub clock : Handler Instant
  clock w = (record w { trace = read_clock ∷ w.trace }, ok (services.now w.trace))

  unfoldable pub fresh_suffix : Handler String
  fresh_suffix w = (record w { trace = random_suffix ∷ w.trace }, ok (services.random w.trace))
