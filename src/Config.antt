-- ===== src/Config.antt =====
-- The topology of include/ocudu_gpu_channel/config.h and the lookups of src/config.cpp.
pub mod Validate
pub mod Fold
pub mod Text
pub mod Load
mod Examples
use ocudu_channel.Common.{
  ℕ, ◌*◌, ◌/◌, Bool, true, false, Option, none, some, List, [], ◌∷◌, String, str_eq, Map, lookup,
  if◌then◌else◌, max,
}
use ocudu_channel.Runtime.{TapSpec}

pub data ModelStepType : Type 0 where
  path_loss : ModelStepType
  awgn : ModelStepType
  phase : ModelStepType
  cfo : ModelStepType
  tdl : ModelStepType

pub data Backend : Type 0 where
  cpu : Backend
  cuda : Backend

pub data FadingSpectrum : Type 0 where
  jakes : FadingSpectrum
  gaussian : FadingSpectrum
  flat : FadingSpectrum

pub record ModelStep (F : Type 0) : Type 0 where
  pub type : ModelStepType
  pub params : Map F
  pub taps : List (TapSpec F)
  pub taps_declared : Bool
  pub fading_enabled : Bool
  pub fading_f_d_max_hz : F
  pub fading_spectrum : FadingSpectrum
  pub fading_grid_us : F

pub record RuntimeConfig : Type 0 where
  pub backend : Backend
  pub gpu_device : ℕ
  pub batch_samples_auto : Bool
  pub batch_samples : ℕ
  pub queue_samples : ℕ

pub record DeviceConfig (F : Type 0) : Type 0 where
  pub id : String
  pub role : String
  pub sample_rate_hz : ℕ
  pub tx_endpoint : String
  pub rx_endpoint : String
  pub rx_model : String
  pub tx_timing_offset_samples : F

pub record LinkConfig (F : Type 0) : Type 0 where
  pub from : String
  pub to : String
  pub model : String
  pub propagation_delay_samples : F

-- `models` maps an id to its chain.
pub record TopologyConfig (F : Type 0) : Type 0 where
  pub runtime : RuntimeConfig
  pub devices : List (DeviceConfig F)
  pub links : List (LinkConfig F)
  pub models : Map (List (ModelStep F))

unfoldable pub resolve_batch_samples : RuntimeConfig → ℕ → ℕ
resolve_batch_samples runtime sample_rate_hz =
    if runtime.batch_samples_auto then max 1 (sample_rate_hz / 1000) else runtime.batch_samples

module _ {F : Type 0} where
  first_device : String → List (DeviceConfig F) → Option (DeviceConfig F)
  first_device id [] = none
  first_device id (d ∷ ds) = if str_eq d.id id then some d else first_device id ds

  unfoldable pub find_device : TopologyConfig F → String → Option (DeviceConfig F)
  unfolding first_device
  find_device config id = first_device id config.devices

  unfoldable pub find_model : TopologyConfig F → String → Option (List (ModelStep F))
  find_model config id = lookup id config.models
