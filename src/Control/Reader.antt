-- ===== src/Control/Reader.antt =====
-- JsonReader of src/control_server.cpp. The position `i_` is the rest of the text: a reader takes it
-- and returns what it read with what is left.
pub mod Escape
pub mod Shrink
pub mod Total
use Prim.Native.Char.{Char, code}
use ocudu_channel.Common.{
  ℕ, zero, suc, ◌+◌, ◌*◌, Bool, true, false, not, ◌&&◌, ◌||◌, String, if◌then◌else◌, leb, ◌==◌,
  Floats, Result, ok, err, ◌>>=◌, ◌>>◌, guard, Option, none, some,
}
use ocudu_channel.Control.Json.{
  JsonValue, Fields, Items, string, number, boolean, object, array, end, nil, JsonError,
  unexpected_end, expected, unsupported_escape, expected_separator, expected_value, invalid_number,
  out_of_fuel, emplace_field, push_item,
}

-- The characters that the grammar names.
abbrev quote : ℕ
quote = 34

abbrev backslash : ℕ
backslash = 92

abbrev open_brace : ℕ
open_brace = 123

abbrev close_brace : ℕ
close_brace = 125

abbrev open_bracket : ℕ
open_bracket = 91

abbrev close_bracket : ℕ
close_bracket = 93

abbrev comma : ℕ
comma = 44

abbrev colon : ℕ
colon = 58

abbrev minus : ℕ
minus = 45

abbrev plus : ℕ
plus = 43

pub is_ws : ℕ → Bool
is_ws c = c == 32 || c == 9 || c == 10 || c == 13

unfoldable pub skip_ws : String → String
unfolding is_ws
skip_ws String.[] = String.[]
skip_ws (String.◌∷◌ c s) = if is_ws (code c) then skip_ws s else String.◌∷◌ c s

pub peek : String → Result JsonError ℕ
peek String.[] = err unexpected_end
peek (String.◌∷◌ c s) = ok (code c)

pub take_char : String → Result JsonError (Char × String)
take_char String.[] = err unexpected_end
take_char (String.◌∷◌ c s) = ok (c, s)

pub expect : ℕ → String → Result JsonError String
expect want String.[] = err unexpected_end
expect want (String.◌∷◌ c s) = if code c == want then ok s else err (expected want)

-- What an escape stands for.
pub unescape : Char → Result JsonError Char
unescape c =
    if code c == quote
    then ok c
    else if code c == backslash
    then ok c
    else if code c == 110
    then ok "\n"
    else err unsupported_escape

pub push_char : Char → Result JsonError (String × String) → Result JsonError (String × String)
push_char c (err e) = err e
push_char c (ok (out, s)) = ok (String.◌∷◌ c out, s)

pub push_escaped :
    Result JsonError Char → Result JsonError (String × String) → Result JsonError (String × String)
unfolding push_char
push_escaped (err e) rest = err e
push_escaped (ok c) rest = push_char c rest

-- The loop of `read_string`; `escaping` is the state after a backslash.
unfoldable pub read_chars : Bool → String → Result JsonError (String × String)
unfolding push_escaped push_char unescape
read_chars escaping String.[] = err unexpected_end
read_chars true (String.◌∷◌ c s) = let rest = read_chars false s in push_escaped (unescape c) rest
read_chars false (String.◌∷◌ c s) =
    let escaped = read_chars true s in
    let plain = read_chars false s in
    if code c == quote
    then ok (String.[], s)
    else if code c == backslash
    then escaped
    else push_char c plain

unfoldable pub read_string : String → Result JsonError (String × String)
unfolding expect read_chars
read_string s = expect quote s >>= read_chars false

-- `src_.compare(i_, n, word) == 0`, with the position after it.
pub after_word : String → String → Option String
after_word String.[] s = some s
after_word (String.◌∷◌ c word) String.[] = none
after_word (String.◌∷◌ c word) (String.◌∷◌ d s) =
    if code c == code d then after_word word s else none

pub is_number_char : ℕ → Bool
is_number_char c = leb 48 c && leb c 57 || c == 46 || c == 101 || c == 69 || c == plus || c == minus

-- The longest prefix of such characters, and the rest.
pub number_chars : String → String × String
unfolding is_number_char
number_chars String.[] = (String.[], String.[])
number_chars (String.◌∷◌ c s) =
    let (digits, rest) = number_chars s in
    if is_number_char (code c) then (String.◌∷◌ c digits, rest) else (String.[], String.◌∷◌ c s)

-- The number of characters: the fuel of a text is twice that and two, since each round of a loop
-- reads a character.
unfoldable pub size : String → ℕ
size String.[] = 0
size (String.◌∷◌ c s) = suc (size s)

module _ {F G : Type 0} (fl : Floats F G) where
  -- `std::stod` on the characters of a number; a sign in front is one of them.
  as_double : Option F → String → Result JsonError (JsonValue F × String)
  as_double none rest = err invalid_number
  as_double (some n) rest = ok (number n, rest)

  read_digits : String × String → Result JsonError (JsonValue F × String)
  unfolding as_double
  read_digits (String.[], rest) = err expected_value
  read_digits (String.◌∷◌ c digits, rest) = as_double (fl.stod (String.◌∷◌ c digits)) rest

  -- The words `true` and `false`, or a number.
  read_false : String → Option String → Result JsonError (JsonValue F × String)
  unfolding read_digits number_chars
  read_false s (some rest) = ok (boolean false, rest)
  read_false s none = read_digits (number_chars s)

  read_atom : String → Option String → Result JsonError (JsonValue F × String)
  unfolding read_false after_word
  read_atom s (some rest) = ok (boolean true, rest)
  read_atom s none = read_false s (after_word "false" s)

  -- After a field, or an item: `again` is the loop's next round.
  after_member :
      (String → Result JsonError (Fields F × String))
      → Fields F
      → Char × String
      → Result JsonError (Fields F × String)
  after_member again out (c, s) =
      if code c == comma
      then again s
      else if code c == close_brace
      then ok (out, s)
      else err expected_separator

  after_item :
      (String → Result JsonError (Items F × String))
      → Items F
      → Char × String
      → Result JsonError (Items F × String)
  after_item again xs (c, s) =
      if code c == comma
      then again s
      else if code c == close_bracket
      then ok (xs, s)
      else err expected_separator

  -- `read_flat_object`, with its loop as an argument.
  object_by :
      (String → Result JsonError (Fields F × String))
      → String
      → Result JsonError (Fields F × String)
  unfolding expect peek skip_ws
  object_by members s = do
    s1 ← expect open_brace (skip_ws s)
    c ← peek (skip_ws s1)
    (if c == close_brace
        then (expect close_brace (skip_ws s1) >>= λ s2. ok (end, s2))
        else members (skip_ws s1))

  -- An array, from its bracket on.
  array_by :
      (String → Result JsonError (Items F × String))
      → String
      → Result JsonError (JsonValue F × String)
  unfolding expect peek skip_ws
  array_by items s = do
    s1 ← expect open_bracket s
    c ← peek (skip_ws s1)
    (if c == close_bracket
        then (expect close_bracket (skip_ws s1) >>= λ s2. ok (array nil, s2))
        else (items (skip_ws s1) >>= λ (xs, s2). ok (array xs, s2)))

  -- `read_value` at a character `c` that is not white space, at the front of `s`.
  value_by :
      (String → Result JsonError (Fields F × String))
      → (String → Result JsonError (Items F × String))
      → String
      → ℕ
      → Result JsonError (JsonValue F × String)
  unfolding read_string object_by array_by read_atom after_word
  value_by members items s c =
      if c == quote
      then (read_string s >>= λ (text, s1). ok (string text, s1))
      else if c == open_brace
      then (object_by members s >>= λ (o, s1). ok (object o, s1))
      else if c == open_bracket
      then array_by items s
      else read_atom s (after_word "true" s)

  unfoldable mutual
    unfolding read_string expect skip_ws peek take_char after_member after_item object_by array_by
        value_by

    -- The loop of `read_flat_object`, from the next field on.
    pub read_members : ℕ → Fields F → String → Result JsonError (Fields F × String)
    read_members zero out s = err out_of_fuel
    read_members (suc n) out s = do
      (key, s1) ← read_string (skip_ws s)
      s2 ← expect colon (skip_ws s1)
      (v, s3) ← read_value n (skip_ws s2)
      next ← take_char (skip_ws s3)
      after_member (read_members n (emplace_field key v out)) (emplace_field key v out) next

    pub read_value : ℕ → String → Result JsonError (JsonValue F × String)
    read_value zero s = err out_of_fuel
    read_value (suc n) s =
        peek (skip_ws s) >>= value_by (read_members n end) (read_items n nil) (skip_ws s)

    -- The loop over an array's items.
    pub read_items : ℕ → Items F → String → Result JsonError (Items F × String)
    read_items zero xs s = err out_of_fuel
    read_items (suc n) xs s = do
      (v, s1) ← read_value n (skip_ws s)
      next ← take_char (skip_ws s1)
      after_item (read_items n (push_item v xs)) (push_item v xs) next

  unfoldable pub parse_body : String → Result JsonError (Fields F)
  unfolding object_by read_members size
  parse_body s = object_by (read_members (2 * size s + 2) end) s >>= λ (fields, rest). ok fields
