-- ===== src/Control/Reader/Escape.antt =====
-- `json_escape` of src/control_server.cpp, which quotes the texts of the replies, beside
-- `read_string`.
use Prim.Native.Char.{Char, code}
use text.Mathlib.TextEquality.{Char-path}
use ocudu_channel.Common.{◌≡◌, refl, ◌||◌, String, false, if◌then◌else◌, ◌==◌, ok, arith}
use ocudu_channel.Control.Reader.{
  read_string, read_chars, expect, push_escaped, push_char, unescape, quote, backslash,
}

escape_char : Char → String → String
escape_char c rest =
    if code c == quote || code c == backslash
    then String.◌∷◌ "\\" (String.◌∷◌ c rest)
    else if code c == 10
    then String.◌∷◌ "\\" (String.◌∷◌ "n" rest)
    else String.◌∷◌ c rest

-- `json_escape`, in front of what follows.
unfoldable pub json_escape : String → String → String
unfolding escape_char
json_escape String.[] rest = rest
json_escape (String.◌∷◌ c s) rest = escape_char c (json_escape s rest)

one_char :
    (c : Char) (s rest : String) {out : String}
    → read_chars false s ≡ ok (out, rest)
    → read_chars false (escape_char c s) ≡ ok (String.◌∷◌ c out, rest)
unfolding read_chars escape_char push_escaped push_char unescape
one_char c s rest e = ground (arith, Char-path c "\n")

read_back :
    (s rest : String) → read_chars false (json_escape s (String.◌∷◌ "\"" rest)) ≡ ok (s, rest)
unfolding json_escape read_chars
read_back String.[] rest = refl
read_back (String.◌∷◌ c s) rest =
    one_char c (json_escape s (String.◌∷◌ "\"" rest)) rest (read_back s rest)

-- An escaped text between quotes, in front of anything, is read back as the text.
pub read_string-json_escape :
    (s rest : String)
    → read_string (String.◌∷◌ "\"" (json_escape s (String.◌∷◌ "\"" rest))) ≡ ok (s, rest)
unfolding read_string expect
read_string-json_escape s rest = read_back s rest
