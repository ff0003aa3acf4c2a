-- ===== src/Commands/Pages.antt =====
-- crates/wxcd-worker/src/main.rs: the pages that `parse_list_command` and
-- `parse_session_history_page` accept.
use codex_webex_connector.Base.{
  ℕ, ◌<◌, String, Option, none, some, ◌≡◌, arith, ltb, Bool-cases, Option-cases, inl, inr, ◌||◌,
  if◌then◌else◌,
}
use codex_webex_connector.Base.Text.{trim, strip_prefix}
use codex_webex_connector.Base.Text.Ascii.{eq_ignore_ascii_case, rsplit_once, parse_usize}
use codex_webex_connector.Commands.{
  ListCommand, parse_list_command, list_page, list_of, parse_session_history_page, strip_either,
  ◌>>=◌,
}

list_of-page : (scope : String) (n : ℕ) (c : ListCommand) → list_of scope n ≡ some c → c.page ≡ n
list_of-page scope n c h = elim (Bool-cases (eq_ignore_ascii_case scope "local")) [
  | inl e ↦ ground arith
  | inr e ↦ elim (Bool-cases (eq_ignore_ascii_case scope "all")) [
    | inl f ↦ ground arith
    | inr f ↦ ground arith
  ]
]

list_page-positive :
    (rest : String) (split : Option (String × String)) (c : ListCommand)
    → list_page rest split ≡ some c
    → 0 < c.page
list_page-positive rest none c h = ground (arith, list_of-page rest 1 c h)
list_page-positive rest (some (scope, page)) c h = elim (Option-cases (parse_usize (trim page))) [
  | inl e ↦ ground arith
  | inr (n, e) ↦ ground (arith, list_of-page (trim scope) n c)
]

list_command-positive :
    (rest : Option String) (c : ListCommand)
    → (rest >>= (λ r. list_page (trim r) (rsplit_once (trim r) " page "))) ≡ some c
    → 0 < c.page
list_command-positive none c h = cc
list_command-positive (some r) c h = list_page-positive (trim r) (rsplit_once (trim r) " page ") c h

history_page-positive :
    (rest : Option String) (page : ℕ)
    → (rest >>= (λ r. parse_usize (trim r) >>= (λ n. if ltb 0 n then some n else none))) ≡ some page
    → 0 < page
history_page-positive none page h = cc
history_page-positive (some r) page h = elim (Option-cases (parse_usize (trim r))) [
  | inl e ↦ ground arith
  | inr (n, e) ↦ ground arith
]

-- The page of a list command, and that of a history command, is at least 1.
pub parsed_pages_positive :
    (text : String) (c : ListCommand) (text2 : String) (page : ℕ)
    → parse_list_command text ≡ some c
    → parse_session_history_page text2 ≡ some page
    → (0 < c.page) × (0 < page)
unfolding parse_list_command parse_session_history_page
parsed_pages_positive text c text2 page h k = (
  elim (Bool-cases (eq_ignore_ascii_case text "list" || eq_ignore_ascii_case text "/list")) [
    | inl e ↦ ground arith
    | inr e ↦ list_command-positive (strip_either "list " "/list " text) c (rw e at h)
  ],
  elim (Bool-cases (eq_ignore_ascii_case text2 "/history")) [
    | inl e ↦ ground arith
    | inr e ↦ history_page-positive (strip_prefix "/history page " text2) page (rw e at k)
  ],
)
