-- ===== src/Config/Load/Loop/Examples.antt =====
-- A file with a device, a link and a model, in whole numbers.
use ocudu_channel.Common.{
  All, List, Result, String, [], arith, assign, emplace, false, is_ok, lookup, ok, ok_value, refl,
  some, text_append, true, whole_signal, ℕ, ◌++◌, ◌∷◌, ◌≡◌,
}
use ocudu_channel.Config.{
  LinkConfig, ModelStep, TopologyConfig, cpu, find_device, find_model, first_device, jakes,
  resolve_batch_samples, tdl,
}
use ocudu_channel.Config.Fold.{
  delayed_chain, effective_id, find_synthesized, fold_link, fold_link_leading_delays, fold_links,
  is_zero, same_delay, timing_offset, total_delay,
}
use ocudu_channel.Config.Load.{
  LoadError, apply_device, apply_fading_key, apply_link, apply_runtime, apply_step, apply_tap,
  ends_colon, is_flow, is_item, item_text, leading_tab, of_value, starts_flow, update_at,
  update_last, value_part,
}
use ocudu_channel.Config.Load.Loop.{
  checked, get_lines, in_section, load_config_file, prepend, read_lines, start, step_line,
}
use ocudu_channel.Config.Load.Loop.Loaded.{load_config_file-Accepted}
use ocudu_channel.Config.Load.Loop.Pointers.{read_lines-Pointed, start-Pointed}
use ocudu_channel.Config.Load.Loop.RoundTrip.{Printable, print_links, read_lines-print_links}
use ocudu_channel.Config.Load.Reader.{
  Reader, change_devices, change_links, device_line, fading_line, is_some, link_line, model_line,
  new_step, new_tap, old_step, old_tap, on_chain, on_taps, open_fading, open_model, open_taps,
  runtime_line, section_line,
}
use ocudu_channel.Config.Load.Reader.Pointers.{Pointed}
use ocudu_channel.Config.Text.{
  cons_trimmed, digits, empty_text, indent_of, init, is_space, key_value, last_code, parse_backend,
  parse_bool, parse_double, parse_fading_spectrum, parse_model_step_type, parse_u64, split_colon,
  split_key_value, stoull, strip_comment, trim, trim_left, trim_right, unquote, whole_double,
}
use ocudu_channel.Config.Text.Words.{graphic, is_word, starts_word}
use ocudu_channel.Config.Validate.{
  all_of, each, holds_any, is_allowed_param, is_tdl, validate_config,
}
use ocudu_channel.Config.Validate.Accepted.{Accepted}
use ocudu_channel.Runtime.{TapSpec}

abbrev lines : List String → String
lines [] = ""
lines (l ∷ ls) = text_append l (text_append "\n" (lines ls))

abbrev file : String
file = lines (
    "runtime:" ∷ "  backend: cpu # on the host" ∷ "" ∷ "devices:" ∷ "  - id: gnb"
    ∷ "    tx_endpoint: tcp://127.0.0.1:2000" ∷ "    rx_endpoint: tcp://127.0.0.1:2001" ∷ "links:"
    ∷ "  - from: gnb" ∷ "    to: gnb" ∷ "    model: los" ∷ "models:" ∷ "  los:" ∷ "    chain:"
    ∷ "      - type: tdl" ∷ "        taps:" ∷ "          - delay_samples: 3"
    ∷ "            gain_db: 2" ∷ "        fading:" ∷ "          f_d_max_hz: 5" ∷ [])

abbrev name : ℕ → String
name n = "5"

abbrev tap : TapSpec ℕ
tap = record {
  delay_samples = 3;
  gain_db = 2;
  phase_rad = 0;
  is_los = false;
  los_k_db = 0;
  los_angle_rad = 0;
}

abbrev los : List (ModelStep ℕ)
los =
    record {
      type = tdl;
      params = [];
      taps = tap ∷ [];
      taps_declared = true;
      fading_enabled = true;
      fading_f_d_max_hz = 5;
      fading_spectrum = jakes;
      fading_grid_us = 100;
    }
    ∷ []

abbrev topology : TopologyConfig ℕ
topology = record {
  runtime = record {
    backend = cpu;
    gpu_device = 0;
    batch_samples_auto = true;
    batch_samples = 0;
    queue_samples = 614400;
  };
  devices =
      record {
        id = "gnb";
        role = "node";
        sample_rate_hz = 23040000;
        tx_endpoint = "tcp://127.0.0.1:2000";
        rx_endpoint = "tcp://127.0.0.1:2001";
        rx_model = "";
        tx_timing_offset_samples = 0;
      }
      ∷ [];
  links = record { from = "gnb"; to = "gnb"; model = "los"; propagation_delay_samples = 0 } ∷ [];
  models = ("los", los) ∷ [];
}

loads : load_config_file whole_signal name stoull (some file) ≡ ok topology
unfolding load_config_file assign emplace lookup delayed_chain effective_id find_synthesized
    fold_link fold_link_leading_delays fold_links is_zero same_delay timing_offset total_delay
    in_section checked get_lines prepend read_lines step_line change_devices change_links
    device_line fading_line is_some link_line model_line new_step new_tap old_step old_tap on_chain
    on_taps open_fading open_model open_taps runtime_line section_line apply_device apply_fading_key
    apply_link apply_runtime apply_step apply_tap ends_colon is_flow is_item item_text leading_tab
    of_value starts_flow update_at update_last value_part cons_trimmed digits indent_of init
    empty_text is_space key_value last_code parse_backend parse_bool parse_double
    parse_fading_spectrum parse_model_step_type parse_u64 split_colon split_key_value strip_comment
    trim trim_left trim_right unquote all_of each holds_any is_allowed_param is_tdl validate_config
    find_device find_model first_device resolve_batch_samples stoull whole_double
loads = refl

load_config_file-Accepted_example : Accepted whole_signal.floats topology
unfolding resolve_batch_samples
load_config_file-Accepted_example =
    load_config_file-Accepted whole_signal name stoull (some file) topology loads (omega arith, tt)

abbrev reading : Result LoadError (Reader ℕ)
reading = read_lines whole_signal.floats stoull 1 (get_lines file) start

reads : is_ok reading ≡ true
unfolding load_config_file assign emplace lookup delayed_chain effective_id find_synthesized
    fold_link fold_link_leading_delays fold_links is_zero same_delay timing_offset total_delay
    in_section checked get_lines prepend read_lines step_line change_devices change_links
    device_line fading_line is_some link_line model_line new_step new_tap old_step old_tap on_chain
    on_taps open_fading open_model open_taps runtime_line section_line apply_device apply_fading_key
    apply_link apply_runtime apply_step apply_tap ends_colon is_flow is_item item_text leading_tab
    of_value starts_flow update_at update_last value_part cons_trimmed digits indent_of init
    empty_text is_space key_value last_code parse_backend parse_bool parse_double
    parse_fading_spectrum parse_model_step_type parse_u64 split_colon split_key_value strip_comment
    trim trim_left trim_right unquote all_of each holds_any is_allowed_param is_tdl validate_config
    find_device find_model first_device resolve_batch_samples stoull whole_double
reads = refl

abbrev final : (st : Reader ℕ) × (reading ≡ ok st)
final = ok_value reading reads

read_lines-Pointed_example : Pointed final.0
read_lines-Pointed_example =
    read_lines-Pointed whole_signal.floats stoull 1 (get_lines file) start start-Pointed final.1

abbrev two_links : List (LinkConfig ℕ)
two_links =
    record { from = "gnb"; to = "ue"; model = "los"; propagation_delay_samples = 5 }
    ∷ record { from = "ue"; to = "gnb"; model = "nlos"; propagation_delay_samples = 5 }
    ∷ []

printable : All (Printable whole_signal.floats stoull name) two_links
unfolding is_word graphic is_space starts_word stoull digits trim_left
printable = (
  record { from = refl; to = refl; model = refl; delay = refl; read_back = refl },
  (record { from = refl; to = refl; model = refl; delay = refl; read_back = refl }, tt),
)

read_lines-print_links_example :
    (st : Reader ℕ) × (read_lines whole_signal.floats stoull 1
        ("links:" ∷ print_links name two_links)
        start
      ≡ ok st)
    × (st.config
        ≡ record ((start {F = ℕ}).config) { links = (start {F = ℕ}).config.links ++ two_links })
read_lines-print_links_example =
    read_lines-print_links whole_signal.floats stoull name 1 two_links start printable
