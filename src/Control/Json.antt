-- ===== src/Control/Json.antt =====
-- JsonValue of src/control_server.cpp, and the typed access to the fields of an object.
use ocudu_channel.Common.{
  ℕ, [], ◌∷◌, str_eq, if◌then◌else◌, Bool, Option, none, some, List, String, Result, ok, err,
}

-- The kind and the payload that goes with it.
mutual
  pub data JsonValue (F : Type 0) : Type 0 where
    string : String → JsonValue F
    number : F → JsonValue F
    boolean : Bool → JsonValue F
    object : Fields F → JsonValue F
    array : Items F → JsonValue F

  pub data Fields (F : Type 0) : Type 0 where
    end : Fields F
    field : String → JsonValue F → Fields F → Fields F

  pub data Items (F : Type 0) : Type 0 where
    nil : Items F
    cons : JsonValue F → Items F → Items F

-- `JsonParseError`. `expected` has the character that `expect` wanted, `wrong_kind` the field's name.
pub data JsonError : Type 0 where
  unexpected_end : JsonError
  expected : ℕ → JsonError
  unsupported_escape : JsonError
  expected_separator : JsonError
  expected_value : JsonError
  invalid_number : JsonError
  wrong_kind : String → JsonError
  out_of_fuel : JsonError

module _ {F : Type 0} where
  -- `find` on the object's map.
  unfoldable pub find : String → Fields F → Option (JsonValue F)
  find k end = none
  find k (field j v o) = if str_eq j k then some v else find k o

  -- `out.emplace(key, value)`: the first of two equal keys stays.
  unfoldable pub emplace_field : String → JsonValue F → Fields F → Fields F
  emplace_field k v end = field k v end
  emplace_field k v (field j w o) =
      if str_eq j k then field j w o else field j w (emplace_field k v o)

  -- `arr.push_back(value)`
  unfoldable pub push_item : JsonValue F → Items F → Items F
  push_item v nil = cons v nil
  push_item v (cons w xs) = cons w (push_item v xs)

  unfoldable pub items_to_list : Items F → List (JsonValue F)
  items_to_list nil = []
  items_to_list (cons v xs) = v ∷ items_to_list xs

  as_number : String → F → Option (JsonValue F) → Result JsonError F
  as_number key fallback none = ok fallback
  as_number key fallback (some (number n)) = ok n
  as_number key fallback (some _) = err (wrong_kind key)

  unfoldable pub get_number : Fields F → String → F → Result JsonError F
  unfolding as_number
  get_number o key fallback = as_number key fallback (find key o)

  as_bool : String → Bool → Option (JsonValue F) → Result JsonError Bool
  as_bool key fallback none = ok fallback
  as_bool key fallback (some (boolean b)) = ok b
  as_bool key fallback (some _) = err (wrong_kind key)

  unfoldable pub get_bool : Fields F → String → Bool → Result JsonError Bool
  unfolding as_bool
  get_bool o key fallback = as_bool key fallback (find key o)

  as_string : String → String → Option (JsonValue F) → Result JsonError String
  as_string key fallback none = ok fallback
  as_string key fallback (some (string s)) = ok s
  as_string key fallback (some _) = err (wrong_kind key)

  unfoldable pub get_string : Fields F → String → String → Result JsonError String
  unfolding as_string
  get_string o key fallback = as_string key fallback (find key o)
