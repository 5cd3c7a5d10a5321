-- ===== src/Runtime/Examples.antt =====
-- Snaps of a concrete link, with numbers for `double` and `float`.
use ocudu_channel.Common.{ℕ, ◌≡◌, false, [], ◌∷◌, arith}
use ocudu_channel.Runtime.{MutableParams, BrokerLinkControl}
use ocudu_channel.Runtime.Snap.{snap_all, snap_all-reached}

abbrev flat : ℕ → MutableParams ℕ
flat n = record {
  path_loss_db = n;
  awgn_snr_db = 60;
  cfo_hz = 0;
  tap0_delay_samples = 0;
  tap0_gain_db = 0;
  tap0_phase_rad = 0;
  los_k_db = 0;
}

-- An update to 12 dB that waits for slot 5.
abbrev waiting : BrokerLinkControl ℕ ℕ
waiting = record {
  shadow = flat 12;
  shadow_profile = record {
    n_taps = 0;
    taps = [];
    fading_enabled = false;
    fading_f_d_max_hz = 0;
    fading_spectrum = 0;
    fading_grid_us = 100;
    force = false;
  };
  profile_pending = false;
  take_effect_at_slot = 5;
  current_slot = 0;
  seqno = 1;
  force_inert_warnings = 0;
  dl_size_samples_hint = 0;
  slot_count_hint = 0;
}

snap_all-reached_example : snap_all (flat 3) 0 waiting (3 ∷ 4 ∷ 5 ∷ 6 ∷ []) ≡ flat 12
snap_all-reached_example = snap_all-reached (flat 3) 0 waiting (3 ∷ 4 ∷ 5 ∷ 6 ∷ []) (omega arith)

still_waits : snap_all (flat 3) 0 waiting (3 ∷ 4 ∷ []) ≡ flat 3
still_waits = snap_all-reached (flat 3) 0 waiting (3 ∷ 4 ∷ []) (omega arith)
