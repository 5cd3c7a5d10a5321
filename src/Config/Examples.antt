-- ===== src/Config/Examples.antt =====
-- Two nodes and the links between them, in whole numbers.
use ocudu_channel.Common.{ℕ, ◌≡◌, refl, arith, true, false, [], ◌∷◌, whole, lookup, String}
use ocudu_channel.Config.{
  jakes, cuda, path_loss, DeviceConfig, LinkConfig, TopologyConfig, resolve_batch_samples,
  find_device, find_model,
}
use ocudu_channel.Config.Validate.{
  validate_config, all_of, holds_any, is_allowed_param, each, queue_small,
}
use ocudu_channel.Config.Validate.Accepted.{Accepted, validate_config-Accepted}

abbrev node : String → DeviceConfig ℕ
node id = record {
  id = id;
  role = "node";
  sample_rate_hz = 23040000;
  tx_endpoint = "tcp://127.0.0.1:2000";
  rx_endpoint = "tcp://127.0.0.1:2001";
  rx_model = "";
  tx_timing_offset_samples = 0;
}

abbrev edge : String → String → LinkConfig ℕ
edge from to = record { from = from; to = to; model = "los"; propagation_delay_samples = 0 }

abbrev pair_of : ℕ → TopologyConfig ℕ
pair_of queue = record {
  runtime = record {
    backend = cuda;
    gpu_device = 0;
    batch_samples_auto = true;
    batch_samples = 0;
    queue_samples = queue;
  };
  devices = node "gnb0" ∷ node "ue0" ∷ [];
  links = edge "gnb0" "ue0" ∷ edge "ue0" "gnb0" ∷ [];
  models =
      (
        "los",
        (record {
          type = path_loss;
          params = ("path_loss_db", 3) ∷ [];
          taps = [];
          taps_declared = false;
          fading_enabled = false;
          fading_f_d_max_hz = 0;
          fading_spectrum = jakes;
          fading_grid_us = 100;
        })
            ∷ [],
      )
      ∷ [];
}

pair_fine : validate_config whole (pair_of 614400) ≡ []
unfolding validate_config all_of each holds_any is_allowed_param resolve_batch_samples find_device
    find_model lookup
pair_fine = refl

-- A ring of one batch and a half.
pair_small : validate_config whole (pair_of 34560) ≡ queue_small "gnb0" ∷ queue_small "ue0" ∷ []
unfolding validate_config all_of each holds_any is_allowed_param resolve_batch_samples find_device
    find_model lookup
pair_small = refl

validate_config-Accepted_example : Accepted whole (pair_of 614400)
unfolding resolve_batch_samples
validate_config-Accepted_example =
    validate_config-Accepted whole (pair_of 614400) (omega arith, (omega arith, tt)) pair_fine
