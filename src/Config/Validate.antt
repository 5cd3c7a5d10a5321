-- ===== src/Config/Validate.antt =====
-- `validate_config` of src/config.cpp: the list of errors, in the order in which it finds them. Models
-- and parameters are visited in the order of insertion, where std::map goes by key: only the order of
-- the errors differs.
pub mod Accepted
use ocudu_channel.Common.{
  ℕ, ◌*◌, ◌%◌, word_mod, Bool, true, false, not, ◌&&◌, ◌||◌, Option, none, some, List, [], ◌∷◌,
  ◌++◌, String, str_eq, Map, lookup, if◌then◌else◌, ltb, ◌==◌, length, is_empty, Floats,
}
use ocudu_channel.Runtime.{TapSpec, zero_double}
use ocudu_channel.Config.{
  ModelStepType, path_loss, awgn, phase, cfo, tdl, ModelStep, RuntimeConfig, DeviceConfig,
  LinkConfig, TopologyConfig, resolve_batch_samples, find_device, find_model,
}

-- The messages of the code, with the id that they name.
pub data ConfigError : Type 0 where
  queue_zero : ConfigError
  batch_zero : ConfigError
  no_devices : ConfigError
  device_id_missing : ConfigError
  device_duplicate : String → ConfigError
  rate_zero : String → ConfigError
  queue_small : String → ConfigError
  tx_missing : String → ConfigError
  rx_missing : String → ConfigError
  rx_model_unknown : String → ConfigError
  tx_offset_negative : String → ConfigError
  source_unknown : String → ConfigError
  destination_unknown : String → ConfigError
  model_unknown : String → ConfigError
  mixed_rates : String → String → ConfigError
  propagation_negative : String → String → ConfigError
  not_source : String → ConfigError
  not_destination : String → ConfigError
  chain_empty : String → ConfigError
  param_unknown : String → String → ConfigError
  delay_negative : String → ConfigError
  noise_negative : String → ConfigError
  taps_missing : String → ConfigError
  taps_too_many : String → ConfigError
  tap_delay_negative : String → ConfigError
  tap_delay_large : String → ConfigError
  tap_delay_duplicate : String → ConfigError
  los_without_fading : String → ConfigError
  los_k_low : String → ConfigError
  doppler_negative : String → ConfigError
  doppler_large : String → ConfigError
  grid_not_positive : String → ConfigError
  taps_on_other : String → ConfigError
  fading_on_other : String → ConfigError

-- `if (test) errors.emplace_back(error)`
abbrev pub report : Bool → ConfigError → List ConfigError
report test error = if test then error ∷ [] else []

is_none {ℓ} : {A : Type ℓ} → Option A → Bool
is_none none = true
is_none (some a) = false

-- The errors of several tests, in order.
unfoldable pub all_of : List (List ConfigError) → List ConfigError
all_of [] = []
all_of (es ∷ tests) = es ++ all_of tests

-- The errors of each element of a list, one after the other.
unfoldable pub each {ℓ} : {A : Type ℓ} → (A → List ConfigError) → List A → List ConfigError
each f [] = []
each f (x ∷ xs) = f x ++ each f xs

unfoldable pub holds_any {ℓ} : {A : Type ℓ} → (A → Bool) → List A → Bool
holds_any p [] = false
holds_any p (x ∷ xs) = p x || holds_any p xs

unfoldable pub is_allowed_param : ModelStepType → String → Bool
is_allowed_param path_loss key = str_eq key "path_loss_db"
is_allowed_param awgn key = str_eq key "snr_db" || str_eq key "noise_power"
is_allowed_param phase key = str_eq key "phase_rad"
is_allowed_param cfo key = str_eq key "cfo_hz" || str_eq key "phase_rad"
is_allowed_param tdl key = false

unfoldable pub is_tdl : ModelStepType → Bool
is_tdl tdl = true
is_tdl _ = false

validate_runtime : RuntimeConfig → List ConfigError
validate_runtime r = all_of (
    (report (r.queue_samples == 0) queue_zero)
    ∷ (report (not r.batch_samples_auto && r.batch_samples == 0) batch_zero)
    ∷ [])

module _ {F G : Type 0} (fl : Floats F G) (config : TopologyConfig F) where
  negative : F → Bool
  negative v = fl.lt v (zero_double fl)

  -- `seen` has the ids of the devices before.
  validate_device : List String → DeviceConfig F → List ConfigError
  unfolding is_none negative holds_any
  validate_device seen d =
      let batch = resolve_batch_samples config.runtime d.sample_rate_hz in
      all_of (
        (report (str_eq d.id "") device_id_missing)
        ∷ (report (holds_any (λ id. str_eq id d.id) seen) (device_duplicate d.id))
        ∷ (report (d.sample_rate_hz == 0) (rate_zero d.id))
        ∷ (report
            (not (d.sample_rate_hz == 0)
              && not (config.runtime.queue_samples == 0)
              && ltb config.runtime.queue_samples ((2 * batch) % word_mod))
            (queue_small d.id))
        ∷ (report (str_eq d.tx_endpoint "") (tx_missing d.id))
        ∷ (report (str_eq d.rx_endpoint "") (rx_missing d.id))
        ∷ (report (not (str_eq d.rx_model "") && is_none (find_model config d.rx_model))
            (rx_model_unknown d.id))
        ∷ (report (negative d.tx_timing_offset_samples) (tx_offset_negative d.id))
        ∷ [])

  validate_devices : List String → List (DeviceConfig F) → List ConfigError
  unfolding validate_device
  validate_devices seen [] = []
  validate_devices seen (d ∷ ds) = validate_device seen d ++ validate_devices (d.id ∷ seen) ds

  rates_differ : Option (DeviceConfig F) → Option (DeviceConfig F) → Bool
  rates_differ (some a) (some b) = not (a.sample_rate_hz == b.sample_rate_hz)
  rates_differ _ _ = false

  validate_link : LinkConfig F → List ConfigError
  unfolding is_none negative rates_differ
  validate_link l = all_of (
      (report (is_none (find_device config l.from)) (source_unknown l.from))
      ∷ (report (is_none (find_device config l.to)) (destination_unknown l.to))
      ∷ (report (is_none (find_model config l.model)) (model_unknown l.model))
      ∷ (report (rates_differ (find_device config l.from) (find_device config l.to))
          (mixed_rates l.from l.to))
      ∷ (report (negative l.propagation_delay_samples) (propagation_negative l.from l.to))
      ∷ [])

  -- Every device is some link's source, and some link's destination.
  validate_role : DeviceConfig F → List ConfigError
  unfolding holds_any
  validate_role d = all_of (
      (report (not (holds_any (λ (l : LinkConfig F). str_eq l.from d.id) config.links))
        (not_source d.id))
      ∷ (report (not (holds_any (λ (l : LinkConfig F). str_eq l.to d.id) config.links))
          (not_destination d.id))
      ∷ [])

  param_negative : Option F → Bool
  unfolding negative
  param_negative none = false
  param_negative (some v) = negative v

  -- `seen` has the delays of the taps before; `std::set` takes two of them for one if neither is less.
  validate_taps : String → Bool → List F → List (TapSpec F) → List ConfigError
  unfolding negative holds_any
  validate_taps id fading seen [] = []
  validate_taps id fading seen (t ∷ ts) = all_of (
      (report (negative t.delay_samples) (tap_delay_negative id))
      ∷ (report (fl.lt (fl.literal false 1000000 0) t.delay_samples) (tap_delay_large id))
      ∷ (report
          (holds_any (λ d. not (fl.lt d t.delay_samples) && not (fl.lt t.delay_samples d)) seen)
          (tap_delay_duplicate id))
      ∷ (report (t.is_los && not fading) (los_without_fading id))
      ∷ (report (t.is_los && fl.le t.los_k_db (zero_double fl)) (los_k_low id))
      ∷ (validate_taps id fading (t.delay_samples ∷ seen) ts)
      ∷ [])

  validate_fading : String → ModelStep F → List ConfigError
  unfolding negative
  validate_fading id step =
      if step.fading_enabled
      then all_of (
          report (negative step.fading_f_d_max_hz) (doppler_negative id)
          ∷ report (fl.lt (fl.literal false 100000 0) step.fading_f_d_max_hz) (doppler_large id)
          ∷ report (not (fl.lt (zero_double fl) step.fading_grid_us)) (grid_not_positive id)
          ∷ [])
      else []

  validate_tdl : String → ModelStep F → List ConfigError
  unfolding validate_taps validate_fading
  validate_tdl id step = all_of (
      (report (is_empty step.taps) (taps_missing id))
      ∷ (report (ltb 64 (length step.taps)) (taps_too_many id))
      ∷ (validate_taps id step.fading_enabled [] step.taps)
      ∷ (validate_fading id step)
      ∷ [])

  validate_step : String → ModelStep F → List ConfigError
  unfolding each param_negative validate_tdl is_tdl
  validate_step id step = all_of (
      (each
        (λ (p : String × F).
          report (not (is_allowed_param step.type (p.0))) (param_unknown id (p.0)))
        step.params)
      ∷ (report (param_negative (lookup "delay_samples" step.params)) (delay_negative id))
      ∷ (report (param_negative (lookup "noise_power" step.params)) (noise_negative id))
      ∷ ((if is_tdl step.type
          then validate_tdl id step
          else report (not (is_empty step.taps) || step.taps_declared) (taps_on_other id)))
      ∷ (report (step.fading_enabled && not (is_tdl step.type)) (fading_on_other id))
      ∷ [])

  validate_model : String × List (ModelStep F) → List ConfigError
  unfolding each validate_step
  validate_model (id, chain) =
      report (is_empty chain) (chain_empty id) ++ each (validate_step id) chain

  unfoldable pub validate_config : List ConfigError
  unfolding validate_runtime validate_devices each validate_link validate_role validate_model
  validate_config = all_of (
      validate_runtime config.runtime
      ∷ report (is_empty config.devices) no_devices
      ∷ validate_devices [] config.devices
      ∷ each validate_link config.links
      ∷ each validate_role config.devices
      ∷ each validate_model config.models
      ∷ [])
