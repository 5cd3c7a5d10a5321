-- ===== src/Config/Load/Loop/Printed.antt =====
-- Lines with a key and a value, as `load_config_file` of src/config.cpp reads them.
use ocudu_channel.Common.{◌≡◌, refl, arith, ℕ, true, false, ◌||◌, Option, some, String, Floats}
use ocudu_channel.Config.Text.{
  is_space, trim, trim_left, empty_text, strip_comment, indent_of, split_colon,
}
use ocudu_channel.Config.Text.Words.{
  join, graphic, starts_word, is_word, is_key, entry, strip_comment-entry, trim_left-entry,
  trim_right-entry, split_colon-entry, trim-word, trim_right-join, trim_left-space,
}
use ocudu_channel.Config.Load.{is_item, item_text, starts_flow, value_part, is_flow, leading_tab}
use ocudu_channel.Config.Load.Reader.{Reader}
use ocudu_channel.Config.Load.Loop.{in_section, step_line}

-- A line of its own, and one that starts an item.
unfoldable pub plain_line : String → String → String
plain_line key value = join "    " (entry key value)

unfoldable pub item_line : String → String → String
item_line key value = join "  - " (entry key value)

is_item-join :
    (s t : String)
    → graphic s ≡ true
    → starts_word s ≡ true
    → is_item (join s (String.◌∷◌ ":" t)) ≡ false
unfolding is_item join graphic is_space starts_word
is_item-join String.[] t g b = cc
is_item-join (String.◌∷◌ c String.[]) t g b = ground arith
is_item-join (String.◌∷◌ c (String.◌∷◌ d s)) t g b = ground arith

starts_flow-join : (s t : String) → starts_word s ≡ true → starts_flow (join s t) ≡ false
unfolding starts_flow join starts_word
starts_flow-join String.[] t b = cc
starts_flow-join (String.◌∷◌ c s) t b = ground arith

starts_flow-word : (s : String) → starts_word s ≡ true → starts_flow s ≡ false
unfolding starts_flow starts_word
starts_flow-word String.[] b = cc
starts_flow-word (String.◌∷◌ c s) b = ground arith

leading_tab-join :
    (s t : String) → graphic s ≡ true → starts_word s ≡ true → leading_tab (join s t) ≡ false
unfolding leading_tab join graphic is_space starts_word
leading_tab-join String.[] t g b = cc
leading_tab-join (String.◌∷◌ c s) t g b = ground arith

indent_of-join : (s t : String) → graphic s ≡ true → starts_word s ≡ true → indent_of (join s t) ≡ 0
unfolding indent_of join graphic is_space starts_word
indent_of-join String.[] t g b = cc
indent_of-join (String.◌∷◌ c s) t g b = ground arith

empty_text-start : (s t : String) → starts_word s ≡ true → empty_text (join s t) ≡ false
unfolding empty_text join starts_word
empty_text-start String.[] t b = cc
empty_text-start (String.◌∷◌ c s) t b = refl

module _ (key value : String) (k : is_key key ≡ true) (w : is_word value ≡ true) where
  shown : graphic key ≡ true
  unfolding is_key
  shown = ground arith

  begins : starts_word key ≡ true
  unfolding is_key
  begins = ground arith

  pub trim-entry : trim (entry key value) ≡ entry key value
  unfolding trim
  trim-entry = rw (trim_left-entry key value k w, trim_right-entry key value k w) refl

  starts_flow-value :
      starts_flow (value_part (entry key value) (some (key, String.◌∷◌ " " value))) ≡ false
  unfolding value_part is_word trim
  starts_flow-value =
      let g : graphic value ≡ true = ground arith in
      let trimmed : trim value ≡ value = trim-word value g in
      rw (trim_left-space value, trimmed) (starts_flow-word value (ground arith))

  pub is_item-entry : is_item (entry key value) ≡ false
  unfolding entry
  is_item-entry = is_item-join key (String.◌∷◌ " " value) shown begins

  no_flow :
      starts_flow (entry key value)
        || starts_flow (value_part (entry key value) (split_colon (entry key value)))
      ≡ false
  unfolding entry
  no_flow =
      rw
        (
          starts_flow-join key (String.◌∷◌ ":" (String.◌∷◌ " " value)) begins,
          split_colon-entry key value k w,
        )
        starts_flow-value

  is_flow-entry : is_flow (entry key value) ≡ false
  unfolding is_flow
  is_flow-entry = rw is_item-entry no_flow

  stripped_plain : strip_comment (plain_line key value) ≡ plain_line key value
  unfolding strip_comment plain_line join
  stripped_plain = rw (strip_comment-entry key value k w) refl

  trimmed_plain : trim (plain_line key value) ≡ entry key value
  unfolding trim trim_left is_space plain_line join
  trimmed_plain = rw (trim_left-entry key value k w, trim_right-entry key value k w) refl

  indent_of_plain : indent_of (plain_line key value) ≡ 4
  unfolding indent_of plain_line join entry
  indent_of_plain =
      rw (indent_of-join key (String.◌∷◌ ":" (String.◌∷◌ " " value)) shown begins) refl

  leading_tab_plain : leading_tab (plain_line key value) ≡ false
  unfolding leading_tab plain_line join entry
  leading_tab_plain =
      rw (leading_tab-join key (String.◌∷◌ ":" (String.◌∷◌ " " value)) shown begins) refl

  empty_text-entry : empty_text (entry key value) ≡ false
  unfolding entry
  empty_text-entry = empty_text-start key _ begins

  stripped_item : strip_comment (item_line key value) ≡ item_line key value
  unfolding strip_comment item_line join
  stripped_item = rw (strip_comment-entry key value k w) refl

  trimmed_item : trim (item_line key value) ≡ join "- " (entry key value)
  unfolding trim trim_left is_space item_line join
  trimmed_item =
      trim_right-join "- " (entry key value) empty_text-entry (trim_right-entry key value k w)

  is_flow_item : is_flow (join "- " (entry key value)) ≡ false
  unfolding is_flow join is_item item_text
  is_flow_item = rw (trim-entry) no_flow

  -- A line with a key and a value goes to its section, four columns in.
  pub step_line-plain :
      {F G : Type 0} (fl : Floats F G) (stod : String → Option (F × String)) (n : ℕ) (st : Reader F)
      → step_line fl stod n (plain_line key value) st
        ≡ in_section fl stod st.section n 4 (entry key value) st
  unfolding step_line
  step_line-plain fl stod n st =
      rw
        (
          stripped_plain, trimmed_plain, empty_text-entry, leading_tab_plain, is_flow-entry,
          indent_of_plain,
        )
        refl

  -- The first line of an item too, two columns in.
  pub step_line-item :
      {F G : Type 0} (fl : Floats F G) (stod : String → Option (F × String)) (n : ℕ) (st : Reader F)
      → step_line fl stod n (item_line key value) st
        ≡ in_section fl stod st.section n 2 (join "- " (entry key value)) st
  unfolding step_line empty_text join leading_tab item_line indent_of
  step_line-item fl stod n st = rw (stripped_item, trimmed_item, is_flow_item) refl
