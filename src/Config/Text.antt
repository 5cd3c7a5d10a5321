-- ===== src/Config/Text.antt =====
-- The text helpers of src/config.cpp: trimming, comments, indentation, and the values of keys.
pub mod Words
pub mod Numbers
pub mod Names
mod Examples
use Prim.Native.Char.{Char, code}
use ocudu_channel.Common.{
  ℕ, suc, ◌+◌, ◌-◌, ◌*◌, ◌%◌, ◌^◌, Bool, true, false, not, ◌&&◌, ◌||◌, Option, none, some, String,
  str_eq, if◌then◌else◌, leb, ◌==◌, Result, ok, err,
}
use ocudu_channel.Config.{
  Backend, cpu, cuda, ModelStepType, path_loss, awgn, phase, cfo, tdl, FadingSpectrum, jakes,
  gaussian, flat,
}

-- The exceptions of load_config_file, with the key, text or line that they name.
pub data ValueError : Type 0 where
  bad_number : String → String → ValueError
  bad_unsigned : String → String → ValueError
  bad_bool : String → String → ValueError
  unknown_key : String → ValueError
  unsupported : String → ValueError

-- std::isspace
unfoldable pub is_space : ℕ → Bool
is_space c = c == 32 || (leb 9 c && leb c 13)

unfoldable pub trim_left : String → String
trim_left String.[] = String.[]
trim_left (String.◌∷◌ c s) = if is_space (code c) then trim_left s else String.◌∷◌ c s

unfoldable pub empty_text : String → Bool
empty_text String.[] = true
empty_text (String.◌∷◌ c s) = false

-- A character in front of a text without its trailing spaces.
unfoldable pub cons_trimmed : Char → String → String
cons_trimmed c rest = if empty_text rest && is_space (code c) then String.[] else String.◌∷◌ c rest

unfoldable pub trim_right : String → String
trim_right String.[] = String.[]
trim_right (String.◌∷◌ c s) = cons_trimmed c (trim_right s)

unfoldable pub trim : String → String
trim value = trim_right (trim_left value)

-- Up to the first '#'.
unfoldable pub strip_comment : String → String
strip_comment String.[] = String.[]
strip_comment (String.◌∷◌ c s) =
    let rest = strip_comment s in if code c == 35 then String.[] else String.◌∷◌ c rest

unfoldable pub indent_of : String → ℕ
indent_of String.[] = 0
indent_of (String.◌∷◌ c s) = let rest = indent_of s in if code c == 32 then suc rest else 0

-- The texts before and after the first ':'.
unfoldable pub split_colon : String → Option (String × String)
split_colon String.[] = none
split_colon (String.◌∷◌ c s) = if code c == 58 then some (String.[], s) else elim (split_colon s) [
  | none ↦ none
  | some (before, after) ↦ some (String.◌∷◌ c before, after)
]

-- The text without its last character, and that character.
unfoldable pub init : String → String
init String.[] = String.[]
init (String.◌∷◌ c String.[]) = String.[]
init (String.◌∷◌ c (String.◌∷◌ d s)) = String.◌∷◌ c (init (String.◌∷◌ d s))

unfoldable pub last_code : String → ℕ
last_code String.[] = 0
last_code (String.◌∷◌ c String.[]) = code c
last_code (String.◌∷◌ c (String.◌∷◌ d s)) = last_code (String.◌∷◌ d s)

-- A value of two characters or more that begins and ends with the same quote loses both.
unfoldable pub unquote : String → String
unquote String.[] = String.[]
unquote (String.◌∷◌ c String.[]) = String.◌∷◌ c String.[]
unquote (String.◌∷◌ c (String.◌∷◌ d s)) =
    if (code c == 34 && last_code (String.◌∷◌ d s) == 34)
      || (code c == 39 && last_code (String.◌∷◌ d s) == 39)
    then init (String.◌∷◌ d s)
    else String.◌∷◌ c (String.◌∷◌ d s)

unfoldable pub key_value : String → Option (String × String) → String × String
key_value line none = (trim line, String.[])
key_value line (some (before, after)) = (trim before, unquote (trim after))

unfoldable pub split_key_value : String → String × String
split_key_value line = key_value line (split_colon line)

-- std::stoull: spaces, a sign, digits. The results are the value and the text that is left.
is_digit : ℕ → Bool
is_digit c = leb 48 c && leb c 57

unfoldable pub digits : ℕ → String → ℕ × String
unfolding is_digit
digits acc String.[] = (acc, String.[])
digits acc (String.◌∷◌ c s) =
    let rest = digits (acc * 10 + (code c - 48)) s in
    if is_digit (code c) then rest else (acc, String.◌∷◌ c s)

starts_digit : String → Bool
unfolding is_digit
starts_digit String.[] = false
starts_digit (String.◌∷◌ c s) = is_digit (code c)

-- What is read of digits; a value past 64 bits is out of range.
unsigned_value : Bool → String → Option (ℕ × String)
unfolding starts_digit
unsigned_value negative s =
    let (value, rest) = digits 0 s in
    if not (starts_digit s) || leb (2 ^ 64) value
    then none
    else some (if negative then (2 ^ 64 - value) % 2 ^ 64 else value, rest)

signed_value : String → Option (ℕ × String)
unfolding unsigned_value
signed_value String.[] = none
signed_value (String.◌∷◌ c s) =
    if code c == 45
    then unsigned_value true s
    else if code c == 43
    then unsigned_value false s
    else unsigned_value false (String.◌∷◌ c s)

unfoldable pub stoull : String → Option (ℕ × String)
unfolding signed_value
stoull s = signed_value (trim_left s)

starts_minus : String → Bool
starts_minus String.[] = false
starts_minus (String.◌∷◌ c s) = code c == 45

-- The value, if the whole text was read.
whole_unsigned : String → String → Option (ℕ × String) → Result ValueError ℕ
whole_unsigned value key none = err (bad_unsigned key value)
whole_unsigned value key (some (n, rest)) =
    if empty_text rest then ok n else err (bad_unsigned key value)

unfoldable pub parse_u64 : String → String → Result ValueError ℕ
unfolding starts_minus whole_unsigned
parse_u64 value key =
    if starts_minus value
    then err (bad_unsigned key value)
    else whole_unsigned value key (stoull value)

-- `stod` is std::stod, with the text that it leaves; `none` is its exception.
module _ {F : Type 0} (stod : String → Option (F × String)) where
  unfoldable pub whole_double : String → String → Option (F × String) → Result ValueError F
  whole_double value key none = err (bad_number key value)
  whole_double value key (some (v, rest)) =
      if empty_text rest then ok v else err (bad_number key value)

  unfoldable pub parse_double : String → String → Result ValueError F
  parse_double value key = whole_double value key (stod value)

unfoldable pub parse_bool : String → String → Result ValueError Bool
parse_bool value key =
    if str_eq value "true" || str_eq value "True" || str_eq value "TRUE" || str_eq value "1"
    then ok true
    else if str_eq value "false" || str_eq value "False" || str_eq value "FALSE" || str_eq value "0"
    then ok false
    else err (bad_bool key value)

unfoldable pub parse_backend : String → Result ValueError Backend
parse_backend value =
    if str_eq value "cpu"
    then ok cpu
    else if str_eq value "cuda"
    then ok cuda
    else err (unsupported value)

unfoldable pub parse_model_step_type : String → Result ValueError ModelStepType
parse_model_step_type value =
    if str_eq value "path_loss"
    then ok path_loss
    else if str_eq value "awgn"
    then ok awgn
    else if str_eq value "phase"
    then ok phase
    else if str_eq value "cfo"
    then ok cfo
    else if str_eq value "tdl"
    then ok tdl
    else err (unsupported value)

unfoldable pub parse_fading_spectrum : String → Result ValueError FadingSpectrum
parse_fading_spectrum value =
    if str_eq value "jakes"
    then ok jakes
    else if str_eq value "gaussian"
    then ok gaussian
    else if str_eq value "flat"
    then ok flat
    else err (unsupported value)

-- to_string of a backend and of a step's type.
unfoldable pub backend_name : Backend → String
backend_name cpu = "cpu"
backend_name cuda = "cuda"

unfoldable pub step_type_name : ModelStepType → String
step_type_name path_loss = "path_loss"
step_type_name awgn = "awgn"
step_type_name phase = "phase"
step_type_name cfo = "cfo"
step_type_name tdl = "tdl"
