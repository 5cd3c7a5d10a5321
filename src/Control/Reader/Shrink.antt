-- ===== src/Control/Reader/Shrink.antt =====
-- Lengths of the texts that the readers of src/control_server.cpp leave.
use Prim.Native.Char.{Char, code}
use ocudu_channel.Common.{
  ℕ, suc, ◌+◌, ◌≤◌, ◌<◌, ◌≡◌, refl, Bool, true, false, String, ◌==◌, some, Result, ok, err, ◌>>=◌,
  if_both, arith,
}
use ocudu_channel.Control.Json.{
  JsonError, unexpected_end, expected, unsupported_escape, expected_separator, expected_value,
  invalid_number, wrong_kind, out_of_fuel,
}
use ocudu_channel.Control.Reader.{
  skip_ws, peek, take_char, expect, unescape, push_char, push_escaped, read_chars, read_string,
  after_word, number_chars, size, quote, backslash, is_ws, is_number_char,
}

abbrev pub IsSourceError : JsonError → Type 0
IsSourceError out_of_fuel = ⊥
IsSourceError unexpected_end = Unit
IsSourceError (expected c) = Unit
IsSourceError unsupported_escape = Unit
IsSourceError expected_separator = Unit
IsSourceError expected_value = Unit
IsSourceError invalid_number = Unit
IsSourceError (wrong_kind key) = Unit

-- A reader left fewer than `k` characters, or failed with an error of the code.
abbrev pub Within {ℓ} : {A : Type ℓ} → ℕ → Result JsonError (A × String) → Type 0
Within k (ok (a, s)) = size s < k
Within k (err e) = IsSourceError e

abbrev pub Shorter : ℕ → Result JsonError String → Type 0
Shorter k (ok s) = size s < k
Shorter k (err e) = IsSourceError e

pub Within-le {ℓ} :
    {A : Type ℓ} (k l : ℕ) (m : Result JsonError (A × String)) → k ≤ l → Within k m → Within l m
Within-le k l (ok (a, s)) h w = omega (arith, w)
Within-le k l (err e) h w = w

pub Within-bind {ℓ κ} :
    {A : Type ℓ} {B : Type κ} (k l : ℕ) (m : Result JsonError (A × String))
    (f : A × String → Result JsonError (B × String))
    → Within k m
    → ((a : A) (s : String) → size s < k → Within l (f (a, s)))
    → Within l (m >>= f)
Within-bind k l (ok (a, s)) f w h = h a s w
Within-bind k l (err e) f w h = w

pub Shorter-bind {ℓ} :
    {B : Type ℓ} (k l : ℕ) (m : Result JsonError String)
    (f : String → Result JsonError (B × String))
    → Shorter k m
    → ((s : String) → size s < k → Within l (f s))
    → Within l (m >>= f)
Shorter-bind k l (ok s) f w h = h s w
Shorter-bind k l (err e) f w h = w

pub peek-bind {ℓ} :
    {B : Type ℓ} (l : ℕ) (s : String) (f : ℕ → Result JsonError (B × String))
    → ((c : ℕ) → Within l (f c))
    → Within l (peek s >>= f)
unfolding peek
peek-bind l String.[] f h = tt
peek-bind l (String.◌∷◌ c s) f h = h (code c)

pub size-skip_ws : (s : String) → size (skip_ws s) ≤ size s
unfolding size skip_ws
size-skip_ws String.[] = omega arith
size-skip_ws (String.◌∷◌ c s) =
    if_both (λ t. size t ≤ suc (size s)) (is_ws (code c)) (omega (arith, size-skip_ws s))
      (omega arith)

pub expect-Shorter : (want : ℕ) (s : String) → Shorter (size s) (expect want s)
unfolding expect size
expect-Shorter want String.[] = tt
expect-Shorter want (String.◌∷◌ c s) =
    if_both (Shorter (suc (size s))) (code c == want) (omega arith) tt

pub take_char-Within : (s : String) → Within (size s) (take_char s)
unfolding take_char size
take_char-Within String.[] = tt
take_char-Within (String.◌∷◌ c s) = omega arith

pub push_char-Within :
    (k : ℕ) (c : Char) (m : Result JsonError (String × String))
    → Within k m
    → Within k (push_char c m)
unfolding push_char
push_char-Within k c (ok (out, s)) w = w
push_char-Within k c (err e) w = w

pub push_escaped-Within :
    (k : ℕ) (c : Char) (m : Result JsonError (String × String))
    → Within k m
    → Within k (push_escaped (unescape c) m)
unfolding push_escaped unescape
push_escaped-Within k c m w =
    if_both (λ d. Within k (push_escaped d m)) (code c == quote) (push_char-Within k c m w)
      (if_both (λ d. Within k (push_escaped d m)) (code c == backslash) (push_char-Within k c m w)
        (if_both (λ d. Within k (push_escaped d m)) (code c == 110) (push_char-Within k "\n" m w)
          tt))

pub read_chars-Within : (b : Bool) (s : String) → Within (size s) (read_chars b s)
unfolding read_chars size
read_chars-Within b String.[] = tt
read_chars-Within true (String.◌∷◌ c s) =
    push_escaped-Within (suc (size s)) c (read_chars false s) (
      Within-le (size s) (suc (size s)) (read_chars false s) (omega arith)
        (read_chars-Within false s))
read_chars-Within false (String.◌∷◌ c s) =
    if_both (Within (suc (size s))) (code c == quote) (omega arith) (
      if_both (Within (suc (size s))) (code c == backslash)
        (Within-le (size s) (suc (size s)) (read_chars true s) (omega arith)
          (read_chars-Within true s))
        (push_char-Within (suc (size s)) c (read_chars false s) (
          Within-le (size s) (suc (size s)) (read_chars false s) (omega arith)
            (read_chars-Within false s))))

pub read_string-Within : (s : String) → Within (size s) (read_string s)
unfolding read_string
read_string-Within s =
    Shorter-bind (size s) (size s) (expect quote s) (read_chars false) (expect-Shorter quote s)
      (λ t h.
        Within-le (size t) (size s) (read_chars false t) (omega (arith, h))
          (read_chars-Within false t))

pub after_word-size :
    (word s : String) {rest : String}
    → after_word word s ≡ some rest
    → size rest + size word ≡ size s
unfolding after_word size
after_word-size String.[] s e = ground arith
after_word-size (String.◌∷◌ c word) String.[] e = cc
after_word-size (String.◌∷◌ c word) (String.◌∷◌ d s) {rest} e =
    ground (arith, after_word-size word s {rest = rest})

pub size-number_chars : (s : String) → size (number_chars s).0 + size (number_chars s).1 ≡ size s
unfolding number_chars size
size-number_chars String.[] = refl
size-number_chars (String.◌∷◌ c s) =
    if_both (λ (p : String × String). size (p.0) + size (p.1) ≡ suc (size s))
      (is_number_char (code c)) (omega (arith, size-number_chars s)) (omega arith)
