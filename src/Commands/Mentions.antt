-- ===== src/Commands/Mentions.antt =====
-- crates/wxcd-worker/src/main.rs, `normalize_prefixed_command_text`: a command behind a mention of
-- the bot. The characters before a white space are the prefix, kept in reverse while they are read.
pub mod Reading
use Prim.Native.Char.{Char, code}
use codex_webex_connector.Base.{
  ℕ, String, Bool, true, false, not, ◌&&◌, ◌||◌, Option, none, some, List, [], ◌∷◌, eqb,
  is_some_and, ◌≡◌, ◌≢◌, refl, arith, inl, inr, Bool-cases, Option-cases, if◌then◌else◌,
}
use codex_webex_connector.Base.Text.{trim, trim_start, is_whitespace}
use codex_webex_connector.Base.Text.Ascii.{lower_code, is_ascii_alphanumeric, split_once}
use codex_webex_connector.Commands.{is_session_command, is_control_command}

-- the letters and digits, in lower case, as their numbers
unfoldable pub normalize_mention_name : String → List ℕ
normalize_mention_name String.[] = []
normalize_mention_name (String.◌∷◌ c s) =
    let rest = normalize_mention_name s in
    if is_ascii_alphanumeric (code c) then lower_code (code c) ∷ rest else rest

abbrev pub same_name : List ℕ → List ℕ → Bool
same_name [] [] = true
same_name [] (d ∷ ds) = false
same_name (c ∷ cs) [] = false
same_name (c ∷ cs) (d ∷ ds) = eqb c d && same_name cs ds

abbrev pub is_nothing : List ℕ → Bool
is_nothing [] = true
is_nothing (c ∷ cs) = false

-- `bot_email.split('@').next()`
abbrev pub local_part : String → String
local_part email = elim (split_once email "@") [ none ↦ email | some (head, rest) ↦ head ]

unfoldable pub is_bot_mention_prefix : String → String → Option String → Bool
is_bot_mention_prefix prefix bot_email bot_display_name =
    let name = normalize_mention_name prefix in
    not (is_nothing name)
    && (same_name name (normalize_mention_name (local_part bot_email))
        || is_some_and bot_display_name (λ d. same_name name (normalize_mention_name d)))

-- the text whose characters stand in reverse in front of `s`
abbrev pub rev_onto : List Char → String → String
rev_onto [] s = s
rev_onto (c ∷ cs) s = rev_onto cs (String.◌∷◌ c s)

module _ (bot_email : String) (bot_display_name : Option String) (is_command : String → Bool) where
  abbrev pub is_split : List Char → Char → String → Bool
  is_split front c s =
      is_whitespace (code c)
      && is_bot_mention_prefix (trim (rev_onto front "")) bot_email bot_display_name
      && is_command (trim_start (String.◌∷◌ c s))

  -- the loop over the characters
  unfoldable pub find_command : List Char → String → Option String
  find_command front String.[] = none
  find_command front (String.◌∷◌ c s) =
      let rest = find_command (c ∷ front) s in
      if is_split front c s then some (trim_start (String.◌∷◌ c s)) else rest

  unfoldable pub normalize_prefixed_command_text : String → String
  normalize_prefixed_command_text text =
      let trimmed = trim text in
      if is_command trimmed
      then trimmed
      else elim (find_command [] trimmed) [ none ↦ trimmed | some candidate ↦ candidate ]

unfoldable pub normalize_session_command_text : String → String → Option String → String
normalize_session_command_text text bot_email bot_display_name =
    normalize_prefixed_command_text bot_email bot_display_name is_session_command text

unfoldable pub normalize_control_command_text : String → String → Option String → String
normalize_control_command_text text bot_email bot_display_name =
    normalize_prefixed_command_text bot_email bot_display_name is_control_command text
