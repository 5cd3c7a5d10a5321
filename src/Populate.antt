-- ===== src/Populate.antt =====
-- `populate_mutable_params_from_yaml` of src/mutable_params.cpp: the initial parameters of a link
-- from its model's chain.
pub mod Last
mod Examples
use ocudu_channel.Common.{
  ◌≡◌, refl, ap, Bool, true, false, not, ◌&&◌, Option, none, some, List, [], ◌∷◌, ◌++◌, String, Map,
  lookup, if◌then◌else◌, if_both, Floats, ◌∙◌,
}
use ocudu_channel.Runtime.{MutableParams, TapSpec, zero_double}
use ocudu_channel.Config.{ModelStepType, path_loss, awgn, phase, cfo, tdl, ModelStep}

module _ {F : Type 0} where
  or_else : F → Option F → F
  or_else fallback none = fallback
  or_else fallback (some v) = v

  unfoldable pub param_or : ModelStep F → String → F → F
  unfolding or_else
  param_or step name fallback = or_else fallback (lookup name step.params)

  is_some : Option F → Bool
  is_some none = false
  is_some (some v) = true

  -- `step.params.find(name) != step.params.end()`
  unfoldable pub has_param : ModelStep F → String → Bool
  unfolding is_some
  has_param step name = is_some (lookup name step.params)

module _ {F G : Type 0} (fl : Floats F G) where
  sixty : F
  sixty = fl.literal false 60 0

  -- The struct's defaults.
  abbrev pub default_params : MutableParams G
  unfolding sixty
  default_params = record {
    path_loss_db = fl.to_float (zero_double fl);
    awgn_snr_db = fl.to_float sixty;
    cfo_hz = fl.to_float (zero_double fl);
    tap0_delay_samples = fl.to_float (zero_double fl);
    tap0_gain_db = fl.to_float (zero_double fl);
    tap0_phase_rad = fl.to_float (zero_double fl);
    los_k_db = fl.to_float (zero_double fl);
  }

  -- The switch on one step's type.
  unfoldable pub scan_step : ModelStepType → ModelStep F → MutableParams G → MutableParams G
  unfolding sixty
  scan_step path_loss step out = record out {
    path_loss_db = fl.to_float (param_or step "path_loss_db" (zero_double fl));
  }
  scan_step cfo step out = record out {
    cfo_hz = fl.to_float (param_or step "cfo_hz" (zero_double fl));
  }
  scan_step phase step out = record out {
    cfo_hz = fl.to_float (param_or step "cfo_hz" (zero_double fl));
  }
  scan_step awgn step out =
      if has_param step "noise_power"
      then out
      else record out { awgn_snr_db = fl.to_float (param_or step "snr_db" sixty) }
  scan_step tdl step out = out

  unfoldable pub scan_chain : List (ModelStep F) → MutableParams G → MutableParams G
  unfolding scan_step
  scan_chain [] out = out
  scan_chain (step ∷ steps) out = scan_chain steps (scan_step step.type step out)

  take_tap : List (TapSpec F) → MutableParams G → MutableParams G
  take_tap [] out = out
  take_tap (tap0 ∷ taps) out = record out {
    tap0_delay_samples = fl.to_float tap0.delay_samples;
    tap0_gain_db = fl.to_float tap0.gain_db;
    tap0_phase_rad = fl.to_float tap0.phase_rad;
    los_k_db = fl.to_float tap0.los_k_db;
  }

  lead_tap : ModelStepType → ModelStep F → MutableParams G → MutableParams G
  unfolding take_tap
  lead_tap tdl step out = take_tap step.taps out
  lead_tap _ step out = out

  lead_chain : List (ModelStep F) → MutableParams G → MutableParams G
  unfolding lead_tap
  lead_chain [] out = out
  lead_chain (step ∷ steps) out = lead_tap step.type step out

  unfoldable pub populate_mutable_params_from_yaml : List (ModelStep F) → MutableParams G
  unfolding lead_chain scan_chain
  populate_mutable_params_from_yaml chain = lead_chain chain (scan_chain chain default_params)
