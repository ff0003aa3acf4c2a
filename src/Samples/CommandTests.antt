-- ===== src/Samples/CommandTests.antt =====
-- The theorems on commands, at concrete texts.
use codex_webex_connector.Base.{ℕ, ◌<◌, String, true, false, some, none, ◌≡◌, refl, ◌⊎◌}
use codex_webex_connector.Base.Text.{trim}
use codex_webex_connector.Commands.{
  ListCommand, all, parse_list_command, parse_session_history_page, is_session_command,
}
use codex_webex_connector.Commands.Mentions.{
  normalize_prefixed_command_text, normalize_session_command_text,
}
use codex_webex_connector.Commands.Mentions.Reading.{IsRead, normalize_prefixed_command_text_lem}
use codex_webex_connector.Commands.Pages.{parsed_pages_positive}

abbrev second_page : ListCommand
second_page = record { mode = all; page = 2 }

list_parses : parse_list_command "list all page 2" ≡ some second_page
unfolding parse_list_command codex_webex_connector.Base.Text.Ascii.eq_ignore_ascii_case
    codex_webex_connector.Base.Text.strip_prefix codex_webex_connector.Base.Text.Ascii.rsplit_once
    trim codex_webex_connector.Base.Text.Ascii.parse_usize
list_parses = refl

history_parses : parse_session_history_page "/history page 3" ≡ some 3
unfolding parse_session_history_page codex_webex_connector.Base.Text.Ascii.eq_ignore_ascii_case
    codex_webex_connector.Base.Text.strip_prefix codex_webex_connector.Base.Text.Ascii.parse_usize
    trim
history_parses = refl

mention : normalize_session_command_text "Web Bot /status" "bot@x" (some "web-bot") ≡ "/status"
unfolding normalize_session_command_text normalize_prefixed_command_text is_session_command
    parse_session_history_page codex_webex_connector.Base.Text.Ascii.eq_ignore_ascii_case trim
    codex_webex_connector.Base.Text.strip_prefix
    codex_webex_connector.Commands.Mentions.find_command
    codex_webex_connector.Commands.Mentions.is_bot_mention_prefix
    codex_webex_connector.Commands.Mentions.normalize_mention_name
    codex_webex_connector.Base.Text.Ascii.split_once
mention = refl

parsed_pages_positive_example : (0 < second_page.page) × (0 < 3)
parsed_pages_positive_example =
    parsed_pages_positive "list all page 2" second_page "/history page 3" 3 list_parses
      history_parses

normalize_prefixed_command_text_lem_example :
    IsRead "bot@x" (some "web-bot") is_session_command (trim " Web Bot /status ") (
      normalize_prefixed_command_text "bot@x"
        (some "web-bot")
        is_session_command
        " Web Bot /status ")
normalize_prefixed_command_text_lem_example =
    normalize_prefixed_command_text_lem "bot@x" (some "web-bot") is_session_command
      " Web Bot /status "
