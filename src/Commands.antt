-- ===== src/Commands.antt =====
-- crates/wxcd-worker/src/main.rs: the commands that people type in the control room and in session
-- rooms, behind a mention of the bot or without one.
pub mod Mentions
pub mod Pages
use codex_webex_connector.Base.{
  ℕ, String, Bool, true, false, not, ◌&&◌, ◌||◌, Option, none, some, List, ◌==◌, eqb, ltb, is_some,
  if◌then◌else◌,
}
use codex_webex_connector.Base.Text.{trim, is_empty, strip_prefix}
use codex_webex_connector.Base.Text.Ascii.{
  eq_ignore_ascii_case, rsplit_once, strip_suffix, parse_usize,
}

pub data ListMode : Type 0 where
  bridge local all : ListMode

pub record ListCommand : Type 0 where
  pub mode : ListMode
  pub page : ℕ

pub data DiagnoseCommand : Type 0 where
  sessions : DiagnoseCommand
  session : String → DiagnoseCommand

pub data CleanupFailedCommand : Type 0 where
  preview : CleanupFailedCommand
  all_failed : CleanupFailedCommand
  one_session : String → CleanupFailedCommand

pub record PurgeArchivedCommand : Type 0 where
  pub session_id : String
  pub confirmed : Bool

infixl 5 ◌>>=◌
abbrev pub ◌>>=◌ {ℓ κ} : {A : Type ℓ} {B : Type κ} → Option A → (A → Option B) → Option B
none >>= f = none
some a >>= f = f a

-- `text.strip_prefix(a).or_else(|| text.strip_prefix(b))`
abbrev pub strip_either : String → String → String → Option String
strip_either a b text = elim (strip_prefix a text) [
  | none ↦ strip_prefix b text
  | some rest ↦ some rest
]

-- `filter(|value| !value.is_empty())`
abbrev pub non_empty : String → Option String
non_empty s = if is_empty s then none else some s

unfoldable pub matches_help_command : String → Bool
matches_help_command text = eq_ignore_ascii_case text "help" || eq_ignore_ascii_case text "/help"

abbrev list_of : String → ℕ → Option ListCommand
list_of scope page =
    if eq_ignore_ascii_case scope "local"
    then some (record { mode = local; page = page })
    else if eq_ignore_ascii_case scope "all"
    then some (record { mode = all; page = page })
    else none

abbrev positive : ℕ → Option ℕ
positive n = if eqb n 0 then none else some n

abbrev list_page : String → Option (String × String) → Option ListCommand
list_page rest none = list_of rest 1
list_page rest (some (scope, page_str)) = do
  parsed ← parse_usize (trim page_str)
  page ← positive parsed
  list_of (trim scope) page

unfoldable pub parse_list_command : String → Option ListCommand
parse_list_command text =
    if eq_ignore_ascii_case text "list" || eq_ignore_ascii_case text "/list"
    then some (record { mode = bridge; page = 1 })
    else do
      rest ← strip_either "list " "/list " text
      list_page (trim rest) (rsplit_once (trim rest) " page ")

unfoldable pub parse_resume_local_thread_id : String → Option String
parse_resume_local_thread_id text = do
  rest ← strip_either "resume local " "/resume local " text
  non_empty (trim rest)

unfoldable pub parse_attach_session_id : String → Option String
parse_attach_session_id text = do
  rest ← strip_either "attach " "/attach " text
  non_empty (trim rest)

abbrev diagnose_of : String → Option DiagnoseCommand
diagnose_of rest =
    if eq_ignore_ascii_case rest "sessions"
    then some sessions
    else do id ← non_empty rest; some (session id)

unfoldable pub parse_diagnose_command : String → Option DiagnoseCommand
parse_diagnose_command text = do
  rest ← strip_either "diagnose " "/diagnose " text
  diagnose_of (trim rest)

abbrev cleanup_of : String → Option CleanupFailedCommand
cleanup_of rest =
    if eq_ignore_ascii_case rest "all"
    then some all_failed
    else do id ← non_empty rest; some (one_session id)

unfoldable pub parse_cleanup_failed_command : String → Option CleanupFailedCommand
parse_cleanup_failed_command text =
    if eq_ignore_ascii_case text "cleanup failed" || eq_ignore_ascii_case text "/cleanup failed"
    then some preview
    else do rest ← strip_either "cleanup failed " "/cleanup failed " text; cleanup_of (trim rest)

-- the session id, and whether `confirm` stands behind it
abbrev confirmation : String → Option String → String × Bool
confirmation rest none = (rest, false)
confirmation rest (some id) = (trim id, true)

unfoldable pub parse_purge_archived_command : String → Option PurgeArchivedCommand
parse_purge_archived_command text = do
  after ← strip_either "purge archived " "/purge archived " text
  rest ← non_empty (trim after)
  let (id, confirmed) = confirmation rest (strip_suffix " confirm" rest)
  session_id ← non_empty id
  some (record { session_id = session_id; confirmed = confirmed })

unfoldable pub parse_session_history_page : String → Option ℕ
parse_session_history_page text = if eq_ignore_ascii_case text "/history" then some 1 else do
  rest ← strip_prefix "/history page " text
  page ← parse_usize (trim rest)
  if ltb 0 page then some page else none

unfoldable pub is_session_command : String → Bool
is_session_command text =
    is_some (parse_session_history_page text)
    || text == "help"
    || text == "/help"
    || text == "/status"
    || text == "/resume"
    || text == "/pause"
    || text == "/stop"

unfoldable pub is_control_command : String → Bool
is_control_command text =
    matches_help_command text
    || is_some (parse_list_command text)
    || is_some (parse_resume_local_thread_id text)
    || is_some (parse_attach_session_id text)
    || is_some (parse_diagnose_command text)
    || is_some (parse_cleanup_failed_command text)
    || is_some (parse_purge_archived_command text)
    || is_some (strip_prefix "new " text)
    || is_some (strip_prefix "/new " text)
    || is_some (strip_prefix "archive " text)
    || is_some (strip_prefix "/archive " text)

-- `is_failed_session_room_command`
unfoldable pub is_failed_session_room_command : String → Bool
is_failed_session_room_command text =
    is_some (parse_session_history_page text)
    || text == "help"
    || text == "/help"
    || text == "/status"
    || text == "/resume"
