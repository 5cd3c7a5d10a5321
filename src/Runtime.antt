-- ===== src/Runtime.antt =====
-- include/ocudu_gpu_channel/runtime_control.h: the control block of a link, which the control thread
-- writes and the link's server thread snaps at each slot; MutableParams of mutable_params.h, TapSpec
-- of config.h. The telemetry block is modelled in Telemetry.
pub mod Snap
mod Examples
use ocudu_channel.Common.{
  ℕ, ◌+◌, ◌%◌, ◌^◌, Bool, true, false, not, List, [], ◌∷◌, ltb, ◌==◌, if◌then◌else◌, Floats,
  replicate,
}

-- The kDeviceMaxTaps of device_channel.h.
abbrev pub max_taps : ℕ
max_taps = 32

pub record MutableParams (G : Type 0) : Type 0 where
  pub path_loss_db : G
  pub awgn_snr_db : G
  pub cfo_hz : G
  pub tap0_delay_samples : G
  pub tap0_gain_db : G
  pub tap0_phase_rad : G
  pub los_k_db : G

pub record TapSpec (F : Type 0) : Type 0 where
  pub delay_samples : F
  pub gain_db : F
  pub phase_rad : F
  pub is_los : Bool
  pub los_k_db : F
  pub los_angle_rad : F

-- `taps` is the whole array, of which the first `n_taps` entries count.
pub record ProfileShadow (F G : Type 0) : Type 0 where
  pub n_taps : ℕ
  pub taps : List (TapSpec F)
  pub fading_enabled : Bool
  pub fading_f_d_max_hz : G
  pub fading_spectrum : ℕ
  pub fading_grid_us : G
  pub force : Bool

pub record BrokerLinkControl (F G : Type 0) : Type 0 where
  pub shadow : MutableParams G
  pub shadow_profile : ProfileShadow F G
  pub profile_pending : Bool
  pub take_effect_at_slot : ℕ
  pub current_slot : ℕ
  pub seqno : ℕ
  pub force_inert_warnings : ℕ
  pub dl_size_samples_hint : ℕ
  pub slot_count_hint : ℕ

-- `fetch_add(1)` on the 32-bit sequence number.
abbrev pub bump_seqno : ℕ → ℕ
bump_seqno n = (n + 1) % 2 ^ 32

module _ {F G : Type 0} where
  -- The results are `live`, `live_seqno`, the control block, and whether `live` was updated.
  unfoldable pub snap_mutable_params :
      MutableParams G
      → ℕ
      → BrokerLinkControl F G
      → ℕ
      → MutableParams G × ℕ × BrokerLinkControl F G × Bool
  snap_mutable_params live live_seqno ctl slot_idx =
      let seen = record ctl { current_slot = slot_idx } in
      if ctl.seqno == live_seqno
      then (live, live_seqno, seen, false)
      else if ltb slot_idx ctl.take_effect_at_slot
      then (live, live_seqno, seen, false)
      else (ctl.shadow, ctl.seqno, seen, true)

  unfoldable pub snap_profile_from_shadow :
      ProfileShadow F G → BrokerLinkControl F G → ProfileShadow F G × Bool
  snap_profile_from_shadow live_profile ctl =
      if not ctl.profile_pending then (live_profile, false) else (ctl.shadow_profile, true)

module _ {F G : Type 0} (fl : Floats F G) where
  abbrev pub zero_double : F
  zero_double = fl.literal false 0 0

  -- The default `TapSpec{}`.
  abbrev pub default_tap : TapSpec F
  default_tap = record {
    delay_samples = zero_double;
    gain_db = zero_double;
    phase_rad = zero_double;
    is_los = false;
    los_k_db = zero_double;
    los_angle_rad = zero_double;
  }

  -- The default `ProfileShadow{}`.
  abbrev pub default_profile : ProfileShadow F G
  default_profile = record {
    n_taps = 0;
    taps = replicate max_taps default_tap;
    fading_enabled = false;
    fading_f_d_max_hz = fl.to_float zero_double;
    fading_spectrum = 0;
    fading_grid_us = fl.to_float (fl.literal false 100 0);
    force = false;
  }

  unfoldable pub init_broker_link_control :
      BrokerLinkControl F G → MutableParams G → BrokerLinkControl F G
  init_broker_link_control ctl yaml_initial = record ctl {
    shadow = yaml_initial;
    shadow_profile = default_profile;
    profile_pending = false;
    take_effect_at_slot = 0;
    current_slot = 0;
    seqno = 0;
  }
