-- ===== src/Support/Examples.antt =====
-- Two nodes with a leading tdl step each way, in whole numbers.
use ocudu_channel.Common.{
  ℕ, ◌≡◌, ◌↔◌, refl, true, false, List, [], ◌∷◌, String, str_eq, eq_iff, lookup, ◌==◌,
  if◌then◌else◌, whole_signal, All,
}
use ocudu_channel.Config.{
  cpu, tdl, path_loss, jakes, gaussian, ModelStep, DeviceConfig, LinkConfig, TopologyConfig,
  find_device, find_model,
}
use ocudu_channel.Config.Fold.{is_zero, effective_id, timing_offset, fold_link_leading_delays}
use ocudu_channel.Config.Fold.Models.{Plain, Named}
use ocudu_channel.Iq.{IqSample}
use ocudu_channel.Cpu.{Random}
use ocudu_channel.Support.{
  validate_cuda_support, cuda_steps, cuda_link, cuda_device, is_leading_propagation,
  cuda_step_supported,
}
use ocudu_channel.Support.Chains.{OfModel, TdlFirst, ReceiverOk, validate_cuda_support-TdlFirst}
use ocudu_channel.Support.Folded.{ReceiverThere, fold_supported}

abbrev print : ℕ → String
print n = if n == 0 then "0" else "5"

abbrev chain : List (ModelStep ℕ)
chain =
    (record {
      type = path_loss;
      params = ("path_loss_db", 0) ∷ [];
      taps = [];
      taps_declared = false;
      fading_enabled = false;
      fading_f_d_max_hz = 0;
      fading_spectrum = jakes;
      fading_grid_us = 100;
    })
    ∷ []

abbrev node : String → DeviceConfig ℕ
node id = record {
  id = id;
  role = "node";
  sample_rate_hz = 23040000;
  tx_endpoint = "tcp://127.0.0.1:2000";
  rx_endpoint = "tcp://127.0.0.1:2001";
  rx_model = "";
  tx_timing_offset_samples = 0;
}

abbrev topology : TopologyConfig ℕ
topology = record {
  runtime = record {
    backend = cpu;
    gpu_device = 0;
    batch_samples_auto = true;
    batch_samples = 0;
    queue_samples = 614400;
  };
  devices = node "a" ∷ node "b" ∷ [];
  links =
      (record { from = "a"; to = "b"; model = "los"; propagation_delay_samples = 5 })
      ∷ (record { from = "b"; to = "a"; model = "los"; propagation_delay_samples = 0 })
      ∷ [];
  models = ("los", chain) ∷ [];
}

abbrev still : Random ℕ ℕ ℕ ℕ
still = record {
  hash = λ s. 0;
  to_string = λ n. "";
  seed_normal = λ n. n;
  draw_normal = λ sigma r. (0, r);
  uniform = record { seed = λ n. n; draw = λ r. (0, r) };
}

supported : validate_cuda_support topology ≡ []
unfolding validate_cuda_support find_model lookup cuda_link cuda_steps is_leading_propagation
    cuda_step_supported cuda_device
supported = refl

validate_cuda_support-TdlFirst_example : (validate_cuda_support topology ≡ []) ↔ (
    All (λ (l : LinkConfig ℕ). OfModel TdlFirst (find_model topology l.model)) topology.links
    × All (ReceiverOk topology) topology.devices)
validate_cuda_support-TdlFirst_example = validate_cuda_support-TdlFirst topology

plain : All (Plain whole_signal print topology) topology.links
unfolding lookup effective_id timing_offset is_zero find_device
plain = (((chain, refl), refl), (((chain, refl), refl), tt))

apart : (s t : String) → str_eq s t ≡ false → s ≡ t → ⊥
apart s t differ e = let same : str_eq s t ≡ true = (eq_iff s t).1 e in cc

named : Named whole_signal print topology topology.links
unfolding effective_id timing_offset is_zero find_device
named = (((λ e. absurd (apart _ _ refl e)), tt), (tt, tt))

receivers : All (ReceiverThere whole_signal print topology) topology.devices
receivers = ((λ e. cc), ((λ e. cc), tt))

fold_supported_example :
    validate_cuda_support (fold_link_leading_delays whole_signal print topology) ≡ []
fold_supported_example = fold_supported whole_signal print topology plain named receivers supported

-- A chain that leads with a Gaussian fading step, in front of both links.
abbrev gaussian_chain : List (ModelStep ℕ)
gaussian_chain =
    (record {
      type = tdl;
      params = [];
      taps =
          (record {
            delay_samples = 0;
            gain_db = 0;
            phase_rad = 0;
            is_los = false;
            los_k_db = 0;
            los_angle_rad = 0;
          })
          ∷ [];
      taps_declared = true;
      fading_enabled = true;
      fading_f_d_max_hz = 10;
      fading_spectrum = gaussian;
      fading_grid_us = 100;
    })
    ∷ chain

abbrev gaussian_topology : TopologyConfig ℕ
gaussian_topology = record topology { models = ("los", gaussian_chain) ∷ [] }

abbrev one_sample : IqSample ℕ
one_sample = record { i = 1; q = 0 }
