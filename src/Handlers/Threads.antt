-- ===== src/Handlers/Threads.antt =====
-- crates/wxcd-worker/src/main.rs, `read_thread_history` and `extract_thread_history_turns`: the
-- turns of a Codex thread that have a text.
use codex_webex_connector.Base.{
  String, Bool, true, ◌&&◌, Option, none, some, List, [], ◌∷◌, ◌==◌, is_some_and, if◌then◌else◌,
}
use codex_webex_connector.Base.Result.{Result, ok, err}
use codex_webex_connector.Base.Text.{trim, is_empty, with_prefix}
use codex_webex_connector.Json.{Json, then_array, then_str, get, pointer}
use codex_webex_connector.Effects.{
  Services, Handler, Answer, Failure, ImportedHistoryTurn, codex, thread_read, thread_resume, call,
  observe, pure, ◌>>=◌, ◌>>◌,
}

-- `item.get(key).and_then(Value::as_str) == Some(text)`
abbrev has_str : Json → String → String → Bool
has_str value key text = is_some_and (then_str (get value key)) (λ found. found == text)

-- a text that is not blank is put in front of the others
abbrev keep_text : Option String → List String → List String
keep_text none texts = texts
keep_text (some text) texts = if is_empty (trim text) then texts else trim text ∷ texts

unfoldable user_texts_of : List Json → List String → List String
user_texts_of [] texts = texts
user_texts_of (content ∷ contents) texts =
    let rest = user_texts_of contents texts in
    if has_str content "type" "text" then keep_text (then_str (get content "text")) rest else rest

abbrev contents_of : Option (List Json) → List Json
contents_of none = []
contents_of (some contents) = contents

unfoldable user_texts : List Json → List String
unfolding user_texts_of
user_texts [] = []
user_texts (item ∷ items) =
    let rest = user_texts items in
    if has_str item "type" "userMessage"
    then user_texts_of (contents_of (then_array (get item "content"))) rest
    else rest

unfoldable assistant_texts : List Json → List String
assistant_texts [] = []
assistant_texts (item ∷ items) =
    let rest = assistant_texts items in
    if has_str item "type" "agentMessage" && has_str item "phase" "final_answer"
    then keep_text (then_str (get item "text")) rest
    else rest

-- `texts.join("\n\n")`
abbrev join_from : String → List String → String
join_from text [] = text
join_from text (next ∷ texts) = with_prefix text (with_prefix "\n\n" (join_from next texts))

abbrev join_texts : List String → String
join_texts [] = ""
join_texts (text ∷ texts) = join_from text texts

abbrev joined : List String → Option String
joined [] = none
joined (text ∷ texts) = some (join_texts (text ∷ texts))

abbrev turn_of : List String → List String → List ImportedHistoryTurn → List ImportedHistoryTurn
turn_of [] [] rest = rest
turn_of (text ∷ texts) answers rest =
    record { user_text = join_texts (text ∷ texts); assistant_text = joined answers } ∷ rest
turn_of [] (answer ∷ answers) rest =
    record { user_text = ""; assistant_text = joined (answer ∷ answers) } ∷ rest

unfoldable pub history_turns : List Json → List ImportedHistoryTurn
unfolding user_texts assistant_texts
history_turns [] = []
history_turns (turn ∷ turns) =
    let rest = history_turns turns in
    elim (then_array (get turn "items")) [
      | none ↦ rest
      | some items ↦ turn_of (user_texts items) (assistant_texts items) rest
    ]

unfoldable pub extract_thread_history_turns : Json → List ImportedHistoryTurn
unfolding history_turns
extract_thread_history_turns thread =
    history_turns (contents_of (then_array (pointer thread ("thread" ∷ "turns" ∷ []))))

module _ (services : Services) where
  abbrev pub read_again : String → Result Failure Answer → Handler Answer
  read_again thread_id (ok thread) = pure thread
  read_again thread_id (err e) = do
    call services (codex (thread_resume thread_id))
    call services (codex (thread_read thread_id true))

  unfoldable pub read_thread_history : String → Handler (List ImportedHistoryTurn)
  unfolding extract_thread_history_turns
  read_thread_history thread_id = do
    first ← observe (call services (codex (thread_read thread_id true)))
    thread ← read_again thread_id first
    pure (extract_thread_history_turns thread.body)
