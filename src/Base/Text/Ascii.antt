-- ===== src/Base/Text/Ascii.antt =====
-- ASCII case, splitting, and decimal numbers, as Rust's `str` has them.
use Prim.Native.Char.{Char, code}
use Prim.Native.String.{char_at}
use codex_webex_connector.Base.{
  ℕ, ◌+◌, ◌-◌, ◌*◌, ◌^◌, String, Bool, true, false, ◌&&◌, ◌||◌, Option, none, some, leb, eqb,
  if◌then◌else◌,
}
use codex_webex_connector.Base.Text.{strip_prefix}

abbrev pub is_upper : ℕ → Bool
is_upper c = leb 65 c && leb c 90

abbrev pub is_lower : ℕ → Bool
is_lower c = leb 97 c && leb c 122

abbrev pub is_digit : ℕ → Bool
is_digit c = leb 48 c && leb c 57

abbrev pub is_ascii_alphanumeric : ℕ → Bool
is_ascii_alphanumeric c = is_upper c || is_lower c || is_digit c

-- `char::to_ascii_lowercase`, on the number of the character
abbrev pub lower_code : ℕ → ℕ
lower_code c = if is_upper c then c + 32 else c

abbrev lower_char : Char → Char
lower_char c = if is_upper (code c) then char_at "abcdefghijklmnopqrstuvwxyz" (code c - 65) else c

unfoldable pub to_ascii_lowercase : String → String
to_ascii_lowercase String.[] = String.[]
to_ascii_lowercase (String.◌∷◌ c s) = String.◌∷◌ (lower_char c) (to_ascii_lowercase s)

unfoldable pub eq_ignore_ascii_case : String → String → Bool
eq_ignore_ascii_case String.[] String.[] = true
eq_ignore_ascii_case String.[] (String.◌∷◌ d t) = false
eq_ignore_ascii_case (String.◌∷◌ c s) String.[] = false
eq_ignore_ascii_case (String.◌∷◌ c s) (String.◌∷◌ d t) =
    eqb (lower_code (code c)) (lower_code (code d)) && eq_ignore_ascii_case s t

abbrev before_first : Option String → Char → Option (String × String) → Option (String × String)
before_first (some rest) c later = some ("", rest)
before_first none c none = none
before_first none c (some (head, rest)) = some (String.◌∷◌ c head, rest)

-- `split_once`: around the first occurrence
unfoldable pub split_once : String → String → Option (String × String)
unfolding strip_prefix
split_once String.[] sep = elim (strip_prefix sep String.[]) [
  | none ↦ none
  | some rest ↦ some ("", rest)
]
split_once (String.◌∷◌ c s) sep =
    let later = split_once s sep in before_first (strip_prefix sep (String.◌∷◌ c s)) c later

abbrev before_last : Option String → Char → Option (String × String) → Option (String × String)
before_last here c (some (head, rest)) = some (String.◌∷◌ c head, rest)
before_last (some rest) c none = some ("", rest)
before_last none c none = none

-- `rsplit_once`: around the last occurrence
unfoldable pub rsplit_once : String → String → Option (String × String)
unfolding strip_prefix
rsplit_once String.[] sep = elim (strip_prefix sep String.[]) [
  | none ↦ none
  | some rest ↦ some ("", rest)
]
rsplit_once (String.◌∷◌ c s) sep =
    let later = rsplit_once s sep in before_last (strip_prefix sep (String.◌∷◌ c s)) c later

abbrev only_whole : Option (String × String) → Option String
only_whole (some (head, String.[])) = some head
only_whole _ = none

-- `strip_suffix`: the last occurrence, if nothing is behind it
unfoldable pub strip_suffix : String → String → Option String
unfolding rsplit_once
strip_suffix suffix s = only_whole (rsplit_once s suffix)

abbrev pub usize_max : ℕ
usize_max = 2 ^ 64 - 1

-- the digits of a number that fits usize, behind those read so far
unfoldable pub parse_digits : ℕ → String → Option ℕ
parse_digits n String.[] = some n
parse_digits n (String.◌∷◌ c s) =
    let m = n * 10 + (code c - 48) in
    let rest = parse_digits m s in if is_digit (code c) && leb m usize_max then rest else none

abbrev some_digits : String → Option ℕ
some_digits String.[] = none
some_digits (String.◌∷◌ c s) = parse_digits 0 (String.◌∷◌ c s)

abbrev after_plus : Option String → String → Option ℕ
after_plus none s = some_digits s
after_plus (some rest) s = some_digits rest

-- `parse::<usize>`: digits, behind a plus sign or none
unfoldable pub parse_usize : String → Option ℕ
unfolding parse_digits strip_prefix
parse_usize s = after_plus (strip_prefix "+" s) s
