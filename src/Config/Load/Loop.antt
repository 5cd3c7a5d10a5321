-- ===== src/Config/Load/Loop.antt =====
-- One round of the loop of `load_config_file` of src/config.cpp, the loop, and what follows it.
pub mod Loaded
pub mod Printed
pub mod RoundTrip
pub mod Pointers
mod Examples
use Prim.Native.Char.{Char, code}
use ocudu_channel.Common.{
  ℕ, suc, true, false, Option, none, some, List, [], ◌∷◌, String, if◌then◌else◌, ◌==◌, is_empty,
  Floats, Signal, Result, ok, err, ◌>>=◌,
}
use ocudu_channel.Config.{cuda, TopologyConfig}
use ocudu_channel.Config.Validate.{ConfigError, validate_config}
use ocudu_channel.Config.Fold.{fold_link_leading_delays}
use ocudu_channel.Config.Text.{trim, empty_text, strip_comment, indent_of}
use ocudu_channel.Config.Load.{
  LoadError, tab_indent, flow_style, Section, unopened, invalid, no_section, in_runtime, in_devices,
  in_links, in_models, leading_tab, is_flow,
}
use ocudu_channel.Config.Load.Reader.{
  Reader, section_line, runtime_line, device_line, link_line, model_line,
}

module _ {F G : Type 0} (fl : Floats F G) (stod : String → Option (F × String)) where
  unfoldable pub in_section : Section → ℕ → ℕ → String → Reader F → Result LoadError (Reader F)
  in_section no_section n indent line st = ok st
  in_section in_runtime n indent line st = runtime_line line st
  in_section in_devices n indent line st = device_line fl stod n line st
  in_section in_links n indent line st = link_line fl stod n line st
  in_section in_models n indent line st = model_line fl stod n indent line st

  -- One round of the loop.
  unfoldable pub step_line : ℕ → String → Reader F → Result LoadError (Reader F)
  step_line n raw_line st =
      let without_comment = strip_comment raw_line in
      let indent = indent_of without_comment in
      let line = trim without_comment in
      if empty_text line
      then ok st
      else if leading_tab without_comment
      then err (tab_indent n)
      else if is_flow line
      then err (flow_style n)
      else if indent == 0
      then section_line n line st
      else in_section st.section n indent line st

  -- The lines from the one of the given number on.
  unfoldable pub read_lines : ℕ → List String → Reader F → Result LoadError (Reader F)
  read_lines n [] st = ok st
  read_lines n (raw_line ∷ lines) st =
      step_line n raw_line st >>= λ st'. read_lines (suc n) lines st'

module _ {F : Type 0} where
  abbrev pub start : Reader F
  start = record {
    config = record {
      runtime = record {
        backend = cuda;
        gpu_device = 0;
        batch_samples_auto = true;
        batch_samples = 0;
        queue_samples = 614400;
      };
      devices = [];
      links = [];
      models = [];
    };
    section = no_section;
    has_device = false;
    has_link = false;
    current_model = none;
    has_step = false;
    in_taps = false;
    has_tap = false;
    in_fading = false;
  }

prepend : Char → List String → List String
prepend c [] = (String.◌∷◌ c String.[]) ∷ []
prepend c (line ∷ lines) = String.◌∷◌ c line ∷ lines

-- std::getline until the end: what follows the last newline counts if it is not empty.
unfoldable pub get_lines : String → List String
unfolding prepend
get_lines String.[] = []
get_lines (String.◌∷◌ c s) =
    let rest = get_lines s in if code c == 10 then String.[] ∷ rest else prepend c rest

unfoldable pub checked :
    {F : Type 0} → TopologyConfig F → List ConfigError → Result LoadError (TopologyConfig F)
checked config errors = if is_empty errors then ok config else err (invalid errors)

module _ {F G : Type 0} (sg : Signal F G) (print : F → String) where
  module _ (stod : String → Option (F × String)) where
    -- `file` is the text of the file, if it can be opened.
    unfoldable pub load_config_file : Option String → Result LoadError (TopologyConfig F)
    load_config_file none = err unopened
    load_config_file (some file) = read_lines sg.floats stod 1 (get_lines file) start >>= λ st.
        let config = fold_link_leading_delays sg print st.config in
        checked config (validate_config sg.floats config)
