-- ===== src/Config/Text/Words.antt =====
-- Texts that the helpers of src/config.cpp leave as they are.
use Prim.Native.Char.{code}
use ocudu_channel.Common.{◌≡◌, refl, arith, Bool, true, false, not, ◌&&◌, some, String, ◌==◌}
use ocudu_channel.Config.Text.{
  is_space, trim_left, empty_text, cons_trimmed, trim_right, trim, strip_comment, split_colon,
  unquote, key_value, split_key_value,
}

unfoldable pub join : String → String → String
join String.[] t = t
join (String.◌∷◌ c s) t = String.◌∷◌ c (join s t)

-- No spaces and no '#'.
unfoldable pub graphic : String → Bool
graphic String.[] = true
graphic (String.◌∷◌ c s) = not (is_space (code c)) && not (code c == 35) && graphic s

unfoldable pub no_colon : String → Bool
no_colon String.[] = true
no_colon (String.◌∷◌ c s) = not (code c == 58) && no_colon s

-- A first character that starts neither a quote nor a bracket.
unfoldable pub starts_word : String → Bool
starts_word String.[] = false
starts_word (String.◌∷◌ c s) =
    not (code c == 34) && not (code c == 39) && not (code c == 123) && not (code c == 91)

unfoldable pub is_word : String → Bool
is_word s = graphic s && starts_word s

pub strip_comment-join :
    (s t : String) → graphic s ≡ true → strip_comment (join s t) ≡ join s (strip_comment t)
unfolding join strip_comment graphic
strip_comment-join String.[] t h = refl
strip_comment-join (String.◌∷◌ c s) t h = ground (arith, strip_comment-join s t)

pub strip_comment-graphic : (s : String) → graphic s ≡ true → strip_comment s ≡ s
unfolding strip_comment graphic
strip_comment-graphic String.[] h = refl
strip_comment-graphic (String.◌∷◌ c s) h = ground (arith, strip_comment-graphic s)

pub trim_right-graphic : (s : String) → graphic s ≡ true → trim_right s ≡ s
unfolding trim_right graphic cons_trimmed
trim_right-graphic String.[] h = refl
trim_right-graphic (String.◌∷◌ c s) h = ground (arith, trim_right-graphic s)

pub empty_text-join : (s t : String) → empty_text t ≡ false → empty_text (join s t) ≡ false
unfolding join empty_text
empty_text-join String.[] t h = h
empty_text-join (String.◌∷◌ c s) t h = refl

pub trim_right-join :
    (s t : String) → empty_text t ≡ false → trim_right t ≡ t → trim_right (join s t) ≡ join s t
unfolding join trim_right cons_trimmed
trim_right-join String.[] t e h = h
trim_right-join (String.◌∷◌ c s) t e h =
    ground (arith, trim_right-join s t e h, empty_text-join s t e)

pub trim_left-graphic : (s : String) → graphic s ≡ true → trim_left s ≡ s
unfolding trim_left graphic
trim_left-graphic String.[] h = refl
trim_left-graphic (String.◌∷◌ c s) h = ground arith

pub split_colon-join :
    (s t : String) → no_colon s ≡ true → split_colon (join s (String.◌∷◌ ":" t)) ≡ some (s, t)
unfolding join split_colon no_colon
split_colon-join String.[] t h = refl
split_colon-join (String.◌∷◌ c s) t h = ground (arith, split_colon-join s t)

pub unquote-word : (s : String) → starts_word s ≡ true → unquote s ≡ s
unfolding unquote starts_word
unquote-word String.[] h = cc
unquote-word (String.◌∷◌ c String.[]) h = refl
unquote-word (String.◌∷◌ c (String.◌∷◌ d s)) h = ground arith

pub graphic-nonempty : (s : String) → starts_word s ≡ true → empty_text s ≡ false
unfolding starts_word empty_text
graphic-nonempty String.[] h = cc
graphic-nonempty (String.◌∷◌ c s) h = refl

-- A word is its own trimmed text, also after a space.
pub trim-word : (s : String) → graphic s ≡ true → trim s ≡ s
unfolding trim
trim-word s h = rw (trim_left-graphic s h, trim_right-graphic s h) refl

pub trim_left-space : (s : String) → trim_left (String.◌∷◌ " " s) ≡ trim_left s
unfolding trim_left is_space
trim_left-space s = refl

-- A key, a colon, a space and a value.
unfoldable pub entry : String → String → String
entry key value = join key (String.◌∷◌ ":" (String.◌∷◌ " " value))

pub split_key_value-entry :
    (key value : String)
    → graphic key ≡ true
    → no_colon key ≡ true
    → is_word value ≡ true
    → split_key_value (entry key value) ≡ (key, value)
unfolding split_key_value key_value entry is_word trim
split_key_value-entry key value g colon w =
    let shown : graphic value ≡ true = ground arith in
    let begins : starts_word value ≡ true = ground arith in
    rw
      (
        split_colon-join key (String.◌∷◌ " " value) colon,
        trim_left-graphic key g,
        trim_right-graphic key g,
        trim_left-space value,
        trim_left-graphic value shown,
        trim_right-graphic value shown,
        unquote-word value begins,
      )
      refl

-- What a key may be.
unfoldable pub is_key : String → Bool
is_key s = graphic s && no_colon s && starts_word s

module _ (key value : String) (k : is_key key ≡ true) (w : is_word value ≡ true) where
  pub strip_comment-entry : strip_comment (entry key value) ≡ entry key value
  unfolding is_key is_word entry strip_comment
  strip_comment-entry =
      let shown : graphic key ≡ true = ground arith in
      let rest : graphic value ≡ true = ground arith in
      rw
        (
          strip_comment-join key (String.◌∷◌ ":" (String.◌∷◌ " " value)) shown,
          strip_comment-graphic value rest,
        )
        refl

  trim_left-join :
      (s t : String) → graphic s ≡ true → starts_word s ≡ true → trim_left (join s t) ≡ join s t
  unfolding trim_left join graphic starts_word
  trim_left-join String.[] t g b = cc
  trim_left-join (String.◌∷◌ c s) t g b = ground arith

  pub trim_left-entry : trim_left (entry key value) ≡ entry key value
  unfolding is_key entry
  trim_left-entry = trim_left-join key _ (ground arith) (ground arith)

  pub trim_right-entry : trim_right (entry key value) ≡ entry key value
  unfolding is_word entry join empty_text
  trim_right-entry =
      let rest : graphic value ≡ true = ground arith in
      let there = graphic-nonempty value (ground arith) in
      trim_right-join key (String.◌∷◌ ":" (String.◌∷◌ " " value)) refl
        (trim_right-join ": " value there (trim_right-graphic value rest))

  pub split_colon-entry : split_colon (entry key value) ≡ some (key, String.◌∷◌ " " value)
  unfolding is_key entry
  split_colon-entry = split_colon-join key (String.◌∷◌ " " value) (ground arith)
