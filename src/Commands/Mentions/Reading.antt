-- ===== src/Commands/Mentions/Reading.antt =====
-- crates/wxcd-worker/src/main.rs, `normalize_prefixed_command_text`: what a text is read as, against a
-- description of its own of the places at which it could be split.
use Prim.Native.Char.{Char, code}
use codex_webex_connector.Base.{
  ℕ, String, Bool, true, false, Option, none, some, List, [], ◌∷◌, is_some_and, ◌≡◌, ◌≢◌, refl,
  arith, inl, inr, Bool-cases, Option-cases,
}
use codex_webex_connector.Base.Text.{trim, trim_start, is_whitespace}
use codex_webex_connector.Commands.Mentions.{
  normalize_mention_name, same_name, is_nothing, local_part, is_bot_mention_prefix, rev_onto,
  is_split, find_command, normalize_prefixed_command_text,
}

-- `Splits front s before c rest`: behind the characters of `front`, in reverse, `s` is read up to the
-- character `c`, with `before` in front of it, in reverse, and `rest` behind it
pub data Splits : List Char → String → List Char → Char → String → Type 0 where
  here : {front : List Char} {c : Char} {s : String} → Splits front (String.◌∷◌ c s) front c s
  later :
      {front before : List Char} {c d : Char} {s rest : String}
      → Splits (c ∷ front) s before d rest
      → Splits front (String.◌∷◌ c s) before d rest

same_name_sound : (xs ys : List ℕ) → same_name xs ys ≡ true → xs ≡ ys
same_name_sound [] [] h = refl
same_name_sound [] (d ∷ ds) h = cc
same_name_sound (c ∷ cs) [] h = cc
same_name_sound (c ∷ cs) (d ∷ ds) h =
    let first : c ≡ d = ground arith in
    let others : cs ≡ ds = same_name_sound cs ds (ground arith) in cc

same_name_refl : (xs : List ℕ) → same_name xs xs ≡ true
same_name_refl [] = refl
same_name_refl (c ∷ cs) = ground (arith, same_name_refl cs)

module _ (bot_email : String) (bot_display_name : Option String) where
  -- the letters and digits are those of the bot's address up to the `@`, or of its display name, and
  -- there are some
  pub data IsMention (prefix : String) : Type 0 where
    by_email :
        normalize_mention_name prefix ≢ []
        → normalize_mention_name prefix ≡ normalize_mention_name (local_part bot_email)
        → IsMention prefix
    by_display_name :
        (name : String)
        → normalize_mention_name prefix ≢ []
        → bot_display_name ≡ some name
        → normalize_mention_name prefix ≡ normalize_mention_name name
        → IsMention prefix

  some_letters : (xs : List ℕ) → is_nothing xs ≡ false → xs ≢ []
  some_letters [] h = cc
  some_letters (x ∷ xs) h = λ e. cc

  has_letters : (xs : List ℕ) → xs ≢ [] → is_nothing xs ≡ false
  has_letters [] h = absurd (h refl)
  has_letters (x ∷ xs) h = refl

  by_name-IsMention :
      (prefix : String) (o : Option String)
      → bot_display_name ≡ o
      → normalize_mention_name prefix ≢ []
      → is_some_and o (λ d. same_name (normalize_mention_name prefix) (normalize_mention_name d))
        ≡ true
      → IsMention prefix
  by_name-IsMention prefix none e n h = cc
  by_name-IsMention prefix (some d) e n h =
      by_display_name d n e
        (same_name_sound (normalize_mention_name prefix) (normalize_mention_name d) h)

  is_bot_mention_prefix_sound :
      (prefix : String)
      → is_bot_mention_prefix prefix bot_email bot_display_name ≡ true
      → IsMention prefix
  unfolding is_bot_mention_prefix
  is_bot_mention_prefix_sound prefix h =
      let name = normalize_mention_name prefix in
      let n : name ≢ [] = some_letters name (ground arith) in
      elim (Bool-cases (same_name name (normalize_mention_name (local_part bot_email)))) [
        | inl e ↦
            by_email n (same_name_sound name (normalize_mention_name (local_part bot_email)) e)
        | inr e ↦ by_name-IsMention prefix bot_display_name refl n (ground arith)
      ]

  is_bot_mention_prefix_complete :
      (prefix : String)
      → IsMention prefix
      → is_bot_mention_prefix prefix bot_email bot_display_name ≡ true
  unfolding is_bot_mention_prefix
  is_bot_mention_prefix_complete prefix (by_email n e) =
      let some_name : is_nothing (normalize_mention_name prefix) ≡ false =
        has_letters (normalize_mention_name prefix) n in
      rw (some_name, e, same_name_refl (normalize_mention_name (local_part bot_email))) refl
  is_bot_mention_prefix_complete prefix (by_display_name name n d e) =
      let some_name : is_nothing (normalize_mention_name prefix) ≡ false =
        has_letters (normalize_mention_name prefix) n in
      rw (some_name, d, e, same_name_refl (normalize_mention_name name)) (ground arith)

module _ (bot_email : String) (bot_display_name : Option String) (is_command : String → Bool) where
  -- a command behind a mention of the bot, at a white space
  pub record IsPrefixed (before : List Char) (c : Char) (rest : String) : Type 0 where
    pub space : is_whitespace (code c) ≡ true
    pub mention : IsMention bot_email bot_display_name (trim (rev_onto before ""))
    pub command : is_command (trim_start (String.◌∷◌ c rest)) ≡ true

  is_split-IsPrefixed :
      (before : List Char) (c : Char) (rest : String)
      → is_split bot_email bot_display_name is_command before c rest ≡ true
      → IsPrefixed before c rest
  is_split-IsPrefixed before c rest h = record {
    space = ground arith;
    mention =
        is_bot_mention_prefix_sound bot_email bot_display_name (trim (rev_onto before ""))
          (ground arith);
    command = ground arith;
  }

  IsPrefixed-is_split :
      (before : List Char) (c : Char) (rest : String)
      → IsPrefixed before c rest
      → is_split bot_email bot_display_name is_command before c rest ≡ true
  IsPrefixed-is_split before c rest h =
      rw
        (
          h.space,
          is_bot_mention_prefix_complete bot_email bot_display_name (trim (rev_onto before ""))
              h.mention,
          h.command,
        )
        refl

  abbrev Found : List Char → String → String → Type 0
  Found front s candidate =
      (before : List Char) × (c : Char) × (rest : String) × Splits front s before c rest
      × IsPrefixed before c rest
      × (candidate ≡ trim_start (String.◌∷◌ c rest))

  find_command-Found :
      (front : List Char) (s candidate : String)
      → find_command bot_email bot_display_name is_command front s ≡ some candidate
      → Found front s candidate
  unfolding find_command
  find_command-Found front String.[] candidate h = cc
  find_command-Found front (String.◌∷◌ c s) candidate h =
      elim (Bool-cases (is_split bot_email bot_display_name is_command front c s)) [
        | inl e ↦ (front, c, s, here, is_split-IsPrefixed front c s e, ground arith)
        | inr e ↦
            let (before, d, rest, splits, prefixed, same) =
              find_command-Found (c ∷ front) s candidate (ground arith) in
            (before, d, rest, later splits, prefixed, same)
      ]

  find_command-none :
      (front : List Char) (s : String) (before : List Char) (c : Char) (rest : String)
      → find_command bot_email bot_display_name is_command front s ≡ none
      → Splits front s before c rest
      → is_split bot_email bot_display_name is_command before c rest ≡ false
  unfolding find_command
  find_command-none front String.[] before c rest h splits = elim splits [ ]
  find_command-none front (String.◌∷◌ c s) _ _ _ h here = ground arith
  find_command-none front (String.◌∷◌ c s) before d rest h (later splits) =
      find_command-none (c ∷ front) s before d rest (ground arith) splits

  -- What a text is read as.
  pub data IsRead (trimmed result : String) : Type 0 where
    as_it_stands : is_command trimmed ≡ true → result ≡ trimmed → IsRead trimmed result
    behind_mention :
        (before : List Char) (c : Char) (rest : String)
        → is_command trimmed ≡ false
        → Splits [] trimmed before c rest
        → IsPrefixed before c rest
        → result ≡ trim_start (String.◌∷◌ c rest)
        → IsRead trimmed result
    as_text :
        is_command trimmed ≡ false
        → ((before : List Char) (c : Char) (rest : String)
            → Splits [] trimmed before c rest
            → ¬ IsPrefixed before c rest)
        → result ≡ trimmed
        → IsRead trimmed result

  -- A text, but for the white space around it, is read as it stands if it is a command. If it is none,
  -- it is read as a command that stands in it behind a white space and a mention of the bot, which is
  -- the name before the `@` of its address or its display name, as letters and digits. If there is
  -- no such command at any place of the text, it is read as it stands.
  pub normalize_prefixed_command_text_lem :
      (text : String)
      → IsRead
          (trim text)
          (normalize_prefixed_command_text bot_email bot_display_name is_command text)
  unfolding normalize_prefixed_command_text
  normalize_prefixed_command_text_lem text = elim (Bool-cases (is_command (trim text))) [
    | inl e ↦ rw e (as_it_stands e refl)
    | inr e ↦
        elim (Option-cases (find_command bot_email bot_display_name is_command [] (trim text))) [
          | inl q ↦
              rw (e, q)
                (as_text e
                  (λ before c rest splits prefixed.
                    let no = find_command-none [] (trim text) before c rest q splits in
                    let yes = IsPrefixed-is_split before c rest prefixed in cc)
                  refl)
          | inr (candidate, q) ↦
              let (before, c, rest, splits, prefixed, same) =
                find_command-Found [] (trim text) candidate q in
              rw (e, q) (behind_mention before c rest e splits prefixed same)
        ]
  ]
