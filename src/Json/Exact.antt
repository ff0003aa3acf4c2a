-- ===== src/Json/Exact.antt =====
-- `serde_json::Value`: the values that come back from their text as they are.
use Prim.Native.Char.{code}
use codex_webex_connector.Base.{ℕ, String, Bool, true, false, not, ◌&&◌, ◌||◌, ◌==◌, eqb, leb}
use codex_webex_connector.Json.{
  Json, Items, Fields, number, array, object, no_items, item, no_fields, field,
}

abbrev is_ascii_digit : ℕ → Bool
is_ascii_digit n = leb 48 n && leb n 57

abbrev has_key : Fields → String → Bool
has_key no_fields k = false
has_key (field j v rest) k = let later = has_key rest k in j == k || later

-- the text of an integer; a float need not come back from its text
abbrev is_integer_digits : String → Bool
is_integer_digits String.[] = true
is_integer_digits (String.◌∷◌ c s) =
    let rest = is_integer_digits s in is_ascii_digit (code c) && rest

abbrev is_integer : String → Bool
is_integer String.[] = false
is_integer (String.◌∷◌ c String.[]) = is_ascii_digit (code c)
is_integer (String.◌∷◌ c (String.◌∷◌ d s)) =
    (is_ascii_digit (code c) || eqb (code c) 45) && is_ascii_digit (code d) && is_integer_digits s

-- a value that holds no number but integers, and no member twice
abbrev mutual
  pub is_exact : Json → Bool
  is_exact (number n) = is_integer n
  is_exact (array vs) = are_exact vs
  is_exact (object fs) = are_exact_fields fs
  is_exact _ = true

  are_exact : Items → Bool
  are_exact no_items = true
  are_exact (item v vs) = let head = is_exact v in let rest = are_exact vs in head && rest

  are_exact_fields : Fields → Bool
  are_exact_fields no_fields = true
  are_exact_fields (field k v fs) =
      let head = is_exact v in let rest = are_exact_fields fs in not (has_key fs k) && head && rest
