-- ===== src/Config/Load.antt =====
-- `load_config_file` of src/config.cpp: a reader of lines with a state. The pointers to the current
-- device, link, step and tap always point to the last of their list, so that they are flags here.
pub mod Reader
pub mod Loop
use Prim.Native.Char.{code}
use ocudu_channel.Common.{
  ℕ, ◌%◌, ◌^◌, Bool, true, false, not, ◌&&◌, ◌||◌, Option, none, some, List, [], ◌∷◌, String,
  str_eq, Map, assign, if◌then◌else◌, ◌==◌, Floats, Result, ok, err, ◌>>=◌,
}
use ocudu_channel.Runtime.{TapSpec, zero_double}
use ocudu_channel.Config.{tdl, jakes, ModelStep, RuntimeConfig, DeviceConfig, LinkConfig}
use ocudu_channel.Config.Validate.{ConfigError}
use ocudu_channel.Config.Text.{
  ValueError, unknown_key, trim, empty_text, split_colon, last_code, parse_u64, parse_double,
  parse_bool, parse_backend, parse_model_step_type, parse_fading_spectrum,
}

pub data LoadError : Type 0 where
  bad_value : ValueError → LoadError
  tab_indent : ℕ → LoadError
  flow_style : ℕ → LoadError
  unknown_top : ℕ → String → LoadError
  malformed : ℕ → LoadError
  unopened : LoadError
  invalid : List ConfigError → LoadError

pub data Section : Type 0 where
  no_section : Section
  in_runtime : Section
  in_devices : Section
  in_links : Section
  in_models : Section

unfoldable pub update_last : {A E : Type 0} → (A → Result E A) → List A → Result E (List A)
update_last f [] = ok []
update_last f (x ∷ []) = f x >>= λ y. ok (y ∷ [])
update_last f (x ∷ y ∷ xs) = update_last f (y ∷ xs) >>= λ ys. ok (x ∷ ys)

-- A change to the value of a key, if it is there.
unfoldable pub update_at : {A E : Type 0} → (A → Result E A) → String → Map A → Result E (Map A)
update_at f k [] = ok []
update_at f k ((j, w) ∷ m) =
    let rest = update_at f k m in
    if str_eq j k
    then (f w >>= λ v. ok ((j, v) ∷ m))
    else (rest >>= λ changed. ok ((j, w) ∷ changed))

unfoldable pub of_value : {A : Type 0} → Result ValueError A → Result LoadError A
of_value (ok a) = ok a
of_value (err e) = err (bad_value e)

-- A tab among the leading spaces.
unfoldable pub leading_tab : String → Bool
leading_tab String.[] = false
leading_tab (String.◌∷◌ c s) =
    let rest = leading_tab s in if code c == 9 then true else code c == 32 && rest

-- The line starts with "- ", and the text after that.
unfoldable pub is_item : String → Bool
is_item (String.◌∷◌ c (String.◌∷◌ d s)) = code c == 45 && code d == 32
is_item _ = false

unfoldable pub item_text : String → String
item_text (String.◌∷◌ c (String.◌∷◌ d s)) = trim s
item_text _ = String.[]

starts_flow : String → Bool
starts_flow String.[] = false
starts_flow (String.◌∷◌ c s) = code c == 123 || code c == 91

value_part : String → Option (String × String) → String
value_part probe none = probe
value_part probe (some (before, after)) = trim after

-- A mapping or a sequence between brackets, as an item or as a value.
unfoldable pub is_flow : String → Bool
unfolding starts_flow value_part
is_flow line =
    let probe = if is_item line then item_text line else line in
    starts_flow probe || starts_flow (value_part probe (split_colon probe))

unfoldable pub ends_colon : String → Bool
ends_colon line = last_code line == 58

-- `gpu_device` holds the 32 bits of the int.
unfoldable pub apply_runtime : String → String → RuntimeConfig → Result ValueError RuntimeConfig
apply_runtime key value r =
    if str_eq key "backend"
    then (parse_backend value >>= λ b. ok (record r { backend = b }))
    else if str_eq key "gpu_device"
    then (parse_u64 value key >>= λ n. ok (record r { gpu_device = n % 2 ^ 32 }))
    else if str_eq key "batch_samples"
    then if str_eq value "auto"
      then ok (record r { batch_samples_auto = true; batch_samples = 0 })
      else (parse_u64 value key >>= λ n.
          ok (record r { batch_samples_auto = false; batch_samples = n }))
    else if str_eq key "queue_samples"
    then (parse_u64 value key >>= λ n. ok (record r { queue_samples = n }))
    else err (unknown_key key)

module _ {F : Type 0} (stod : String → Option (F × String)) where
  unfoldable pub apply_device :
      String → String → DeviceConfig F → Result ValueError (DeviceConfig F)
  apply_device key value d =
      if str_eq key "id"
      then ok (record d { id = value })
      else if str_eq key "role"
      then ok (record d { role = value })
      else if str_eq key "sample_rate_hz"
      then (parse_u64 value key >>= λ n. ok (record d { sample_rate_hz = n }))
      else if str_eq key "tx_endpoint"
      then ok (record d { tx_endpoint = value })
      else if str_eq key "rx_endpoint"
      then ok (record d { rx_endpoint = value })
      else if str_eq key "rx_model"
      then ok (record d { rx_model = value })
      else if str_eq key "tx_timing_offset_samples"
      then (parse_double stod value key >>= λ v. ok (record d { tx_timing_offset_samples = v }))
      else err (unknown_key key)

  unfoldable pub apply_link : String → String → LinkConfig F → Result ValueError (LinkConfig F)
  apply_link key value l =
      if str_eq key "from"
      then ok (record l { from = value })
      else if str_eq key "to"
      then ok (record l { to = value })
      else if str_eq key "model"
      then ok (record l { model = value })
      else if str_eq key "propagation_delay_samples"
      then (parse_double stod value key >>= λ v. ok (record l { propagation_delay_samples = v }))
      else err (unknown_key key)

  unfoldable pub apply_step : String → String → ModelStep F → Result ValueError (ModelStep F)
  apply_step key value step =
      if str_eq key "type"
      then (parse_model_step_type value >>= λ t. ok (record step { type = t }))
      else if not (empty_text value)
      then (parse_double stod value key >>= λ v.
          ok (record step { params = assign key v step.params }))
      else err (unknown_key key)

  unfoldable pub apply_tap : String → String → TapSpec F → Result ValueError (TapSpec F)
  apply_tap key value tap =
      if str_eq key "delay_samples"
      then (parse_double stod value key >>= λ v. ok (record tap { delay_samples = v }))
      else if str_eq key "gain_db"
      then (parse_double stod value key >>= λ v. ok (record tap { gain_db = v }))
      else if str_eq key "phase_rad"
      then (parse_double stod value key >>= λ v. ok (record tap { phase_rad = v }))
      else if str_eq key "is_los"
      then (parse_bool value key >>= λ b. ok (record tap { is_los = b }))
      else if str_eq key "los_k_db"
      then (parse_double stod value key >>= λ v. ok (record tap { los_k_db = v }))
      else if str_eq key "los_angle_rad"
      then (parse_double stod value key >>= λ v. ok (record tap { los_angle_rad = v }))
      else err (unknown_key key)

  unfoldable pub apply_fading_key : String → String → ModelStep F → Result ValueError (ModelStep F)
  apply_fading_key key value step =
      if str_eq key "f_d_max_hz"
      then (parse_double stod value key >>= λ v. ok (record step { fading_f_d_max_hz = v }))
      else if str_eq key "spectrum"
      then (parse_fading_spectrum value >>= λ s. ok (record step { fading_spectrum = s }))
      else if str_eq key "grid_us"
      then (parse_double stod value key >>= λ v. ok (record step { fading_grid_us = v }))
      else err (unknown_key key)

module _ {F G : Type 0} (fl : Floats F G) where
  abbrev pub default_device : DeviceConfig F
  default_device = record {
    id = "";
    role = "node";
    sample_rate_hz = 23040000;
    tx_endpoint = "";
    rx_endpoint = "";
    rx_model = "";
    tx_timing_offset_samples = zero_double fl;
  }

  abbrev pub default_link : LinkConfig F
  default_link = record {
    from = "";
    to = "";
    model = "";
    propagation_delay_samples = zero_double fl;
  }

  abbrev pub default_step : ModelStep F
  default_step = record {
    type = tdl;
    params = [];
    taps = [];
    taps_declared = false;
    fading_enabled = false;
    fading_f_d_max_hz = zero_double fl;
    fading_spectrum = jakes;
    fading_grid_us = fl.literal false 100 0;
  }
