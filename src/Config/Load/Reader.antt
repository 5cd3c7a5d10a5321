-- ===== src/Config/Load/Reader.antt =====
-- What `load_config_file` of src/config.cpp does with a line of each section.
pub mod Pointers
pub mod Steps
pub mod Lines
pub mod Models
use Prim.Native.Char.{Char, code}
use ocudu_channel.Common.{
  ℕ, suc, ◌+◌, Bool, true, false, not, ◌&&◌, Option, none, some, List, [], ◌∷◌, ◌++◌, String,
  str_eq, emplace, if◌then◌else◌, ◌==◌, is_empty, Floats, Signal, Result, ok, err, ◌>>=◌,
}
use ocudu_channel.Runtime.{TapSpec, zero_double, default_tap}
use ocudu_channel.Config.{cuda, ModelStep, DeviceConfig, LinkConfig, TopologyConfig}
use ocudu_channel.Config.Validate.{ConfigError, validate_config}
use ocudu_channel.Config.Fold.{fold_link_leading_delays}
use ocudu_channel.Config.Text.{
  ValueError, trim, empty_text, strip_comment, indent_of, init, split_key_value,
}
use ocudu_channel.Config.Load.{
  LoadError, tab_indent, flow_style, unknown_top, malformed, unopened, invalid, Section, no_section,
  in_runtime, in_devices, in_links, in_models, update_last, update_at, of_value, leading_tab,
  is_item, item_text, is_flow, ends_colon, apply_runtime, apply_device, apply_link, apply_step,
  apply_tap, apply_fading_key, default_device, default_link, default_step,
}

-- The local variables of the loop. A pointer to the current device, link, step or tap is set when
-- its flag is, and then points to the last of its list.
pub record Reader (F : Type 0) : Type 0 where
  pub config : TopologyConfig F
  pub section : Section
  pub has_device : Bool
  pub has_link : Bool
  pub current_model : Option String
  pub has_step : Bool
  pub in_taps : Bool
  pub has_tap : Bool
  pub in_fading : Bool

module _ {F : Type 0} where
  -- The pointers and flags of a step are reset.
  abbrev pub no_step : Reader F → Reader F
  no_step st = record st { has_step = false; in_taps = false; has_tap = false; in_fading = false }

  unfoldable pub section_line : ℕ → String → Reader F → Result LoadError (Reader F)
  section_line n line st =
      let st = no_step (record st { has_device = false; has_link = false; current_model = none }) in
      if str_eq line "runtime:"
      then ok (record st { section = in_runtime })
      else if str_eq line "devices:"
      then ok (record st { section = in_devices })
      else if str_eq line "links:"
      then ok (record st { section = in_links })
      else if str_eq line "models:"
      then ok (record st { section = in_models })
      else err (unknown_top n line)

  unfoldable pub runtime_line : String → Reader F → Result LoadError (Reader F)
  runtime_line line st =
      let (key, value) = split_key_value line in
      of_value (apply_runtime key value st.config.runtime) >>= λ r.
      ok (record st { config = record (st.config) { runtime = r } })

  -- A change to the chain of the current model.
  unfoldable pub on_chain :
      (List (ModelStep F) → Result ValueError (List (ModelStep F)))
      → Reader F
      → Result LoadError (Reader F)
  on_chain f st = elim st.current_model [
    | none ↦ ok st
    | some id ↦ of_value (update_at f id st.config.models) >>= λ models.
        ok (record st { config = record (st.config) { models = models } })
  ]

  -- A change to the taps of the current step.
  unfoldable pub on_taps :
      (List (TapSpec F) → Result ValueError (List (TapSpec F)))
      → Reader F
      → Result LoadError (Reader F)
  on_taps f st =
      on_chain (update_last (λ step. f step.taps >>= λ taps. ok (record step { taps = taps }))) st

  -- A line that ends in a colon names a model; one that is there already is continued.
  unfoldable pub open_model : String → Reader F → Reader F
  open_model id st = no_step (record st {
    config = record (st.config) { models = emplace id [] st.config.models };
    current_model = some id;
  })

unfoldable pub is_some : {A : Type 0} → Option A → Bool
is_some none = false
is_some (some a) = true

module _ {F G : Type 0} (fl : Floats F G) (stod : String → Option (F × String)) where
  unfoldable pub change_devices :
      String × String → List (DeviceConfig F) → Reader F → Result LoadError (Reader F)
  change_devices (key, value) devices st =
      of_value (update_last (apply_device stod key value) devices) >>= λ changed.
      ok (record st { config = record (st.config) { devices = changed }; has_device = true })

  unfoldable pub device_line : ℕ → String → Reader F → Result LoadError (Reader F)
  device_line n line st =
      if is_item line
      then change_devices (split_key_value (item_text line))
          (st.config.devices ++ default_device fl ∷ []) st
      else if st.has_device
      then change_devices (split_key_value line) st.config.devices st
      else err (malformed n)

  unfoldable pub change_links :
      String × String → List (LinkConfig F) → Reader F → Result LoadError (Reader F)
  change_links (key, value) links st =
      of_value (update_last (apply_link stod key value) links) >>= λ changed.
      ok (record st { config = record (st.config) { links = changed }; has_link = true })

  unfoldable pub link_line : ℕ → String → Reader F → Result LoadError (Reader F)
  link_line n line st =
      if is_item line
      then change_links (split_key_value (item_text line)) (st.config.links ++ default_link fl ∷ [])
          st
      else if st.has_link
      then change_links (split_key_value line) st.config.links st
      else err (malformed n)

  -- A new step, with its first key.
  unfoldable pub new_step : String → Reader F → Result LoadError (Reader F)
  new_step line st =
      let (key, value) = split_key_value (item_text line) in
      on_chain (λ chain. update_last (apply_step stod key value) (chain ++ default_step fl ∷ []))
        (record (no_step st) { has_step = true })

  unfoldable pub new_tap : String → Reader F → Result LoadError (Reader F)
  new_tap line st =
      let (key, value) = split_key_value (item_text line) in
      on_taps (λ taps. update_last (apply_tap stod key value) (taps ++ default_tap fl ∷ []))
        (record st { has_tap = true })

  unfoldable pub old_tap : String → Reader F → Result LoadError (Reader F)
  old_tap line st =
      let (key, value) = split_key_value line in on_taps (update_last (apply_tap stod key value)) st

  unfoldable pub fading_line : String → Reader F → Result LoadError (Reader F)
  fading_line line st =
      let (key, value) = split_key_value line in
      on_chain (update_last (apply_fading_key stod key value)) st

  unfoldable pub old_step : String → Reader F → Result LoadError (Reader F)
  old_step line st =
      let (key, value) = split_key_value line in
      on_chain (update_last (apply_step stod key value)) st

  unfoldable pub open_taps : Reader F → Result LoadError (Reader F)
  open_taps st =
      on_chain (update_last (λ step. ok (record step { taps_declared = true })))
        (record st { in_taps = true; has_tap = false; in_fading = false })

  unfoldable pub open_fading : Reader F → Result LoadError (Reader F)
  open_fading st =
      on_chain (update_last (λ step. ok (record step { fading_enabled = true })))
        (record st { in_fading = true; in_taps = false; has_tap = false })

  unfoldable pub model_line : ℕ → ℕ → String → Reader F → Result LoadError (Reader F)
  unfolding is_some
  model_line n indent line st =
      let has_model = is_some st.current_model in
      if indent == 2 && ends_colon line
      then ok (open_model (init line) st)
      else if has_model && str_eq line "chain:"
      then ok (no_step st)
      else if has_model && indent == 6 && is_item line
      then new_step line st
      else if st.has_step && indent == 8 && str_eq line "taps:"
      then open_taps st
      else if st.has_step && indent == 8 && str_eq line "fading:"
      then open_fading st
      else if st.has_step && st.in_taps && indent == 10 && is_item line
      then new_tap line st
      else if st.has_tap && st.in_taps && indent == 12
      then old_tap line st
      else if st.has_step && st.in_fading && indent == 10
      then fading_line line st
      else if st.has_step && indent == 8 && not st.in_taps && not st.in_fading
      then old_step line st
      else err (malformed n)
