-- ===== src/Json.antt =====
-- `serde_json::Value` as the program reads it, with `find_string` and `json_str` of
-- crates/wxcd-worker/src/main.rs. A number is its text. The members of an object come in the
-- order in which they are iterated over.
pub mod Exact
use codex_webex_connector.Base.{
  String, Bool, Option, none, some, List, [], ◌∷◌, ◌==◌, if◌then◌else◌,
}

mutual
  pub data Json : Type 0 where
    null : Json
    boolean : Bool → Json
    number : String → Json
    string : String → Json
    array : Items → Json
    object : Fields → Json

  pub data Items : Type 0 where
    no_items : Items
    item : Json → Items → Items

  pub data Fields : Type 0 where
    no_fields : Fields
    field : String → Json → Fields → Fields

-- `Value::as_str` and `Value::as_array`
abbrev pub as_str : Json → Option String
as_str (string s) = some s
as_str _ = none

abbrev pub to_list : Items → List Json
to_list no_items = []
to_list (item v vs) = v ∷ to_list vs

abbrev pub as_array : Json → Option (List Json)
as_array (array vs) = some (to_list vs)
as_array _ = none

abbrev pub first_of {ℓ} : {A : Type ℓ} → Option A → Option A → Option A
first_of none o = o
first_of (some a) o = some a

-- `get` on an object
unfoldable pub get_field : Fields → String → Option Json
get_field no_fields k = none
get_field (field j v rest) k = if j == k then some v else get_field rest k

abbrev pub get : Json → String → Option Json
get (object fields) k = get_field fields k
get _ k = none

abbrev pub then_get : Option Json → String → Option Json
then_get none k = none
then_get (some v) k = get v k

abbrev pub then_str : Option Json → Option String
then_str none = none
then_str (some v) = as_str v

abbrev pub then_array : Option Json → Option (List Json)
then_array none = none
then_array (some v) = as_array v

-- `pointer`, on a path of keys
abbrev pub pointer : Json → List String → Option Json
pointer v [] = some v
pointer v (k ∷ ks) = elim (get v k) [ none ↦ none | some w ↦ pointer w ks ]

abbrev pub json_str : Json → List String → Option String
json_str v path = then_str (pointer v path)

-- the first string under the key, an object's own before those of its members
unfoldable mutual
  pub find_string : Json → String → Option String
  find_string null k = none
  find_string (boolean b) k = none
  find_string (number n) k = none
  find_string (string s) k = none
  find_string (array vs) k = find_in_items vs k
  find_string (object fields) k = first_of (then_str (get_field fields k)) (find_in_fields fields k)

  pub find_in_items : Items → String → Option String
  find_in_items no_items k = none
  find_in_items (item v vs) k = first_of (find_string v k) (find_in_items vs k)

  pub find_in_fields : Fields → String → Option String
  find_in_fields no_fields k = none
  find_in_fields (field j v rest) k = first_of (find_string v k) (find_in_fields rest k)
