-- ===== src/Config/Fold/Models/Examples.antt =====
-- Three links in whole numbers: two delayed by the same number of samples, or by numbers that are
-- printed alike.
use ocudu_channel.Common.{
  ℕ, ◌==◌, if◌then◌else◌, All, ◌≡◌, refl, true, false, some, List, [], ◌∷◌, String, str_eq, lookup,
  whole_signal, eq_iff,
}
use ocudu_channel.Config.{
  cpu, path_loss, jakes, ModelStep, DeviceConfig, LinkConfig, TopologyConfig, find_device,
}
use ocudu_channel.Config.Fold.{
  is_zero, same_delay, delayed_chain, effective_id, timing_offset, total_delay,
  fold_link_leading_delays,
}
use ocudu_channel.Config.Fold.Models.{Plain, Named}
use ocudu_channel.Config.Fold.Models.Links.{Paired, fold-Paired}
use ocudu_channel.Config.Fold.Clash.{clone_id, PrintAlike, fold-PrintAlike}

-- How the delays 0 and 5 are printed.
abbrev print : ℕ → String
print n = if n == 0 then "0" else "5"

abbrev loss : List (ModelStep ℕ)
loss =
    (record {
      type = path_loss;
      params = ("path_loss_db", 0) ∷ [];
      taps = [];
      taps_declared = false;
      fading_enabled = false;
      fading_f_d_max_hz = 0;
      fading_spectrum = jakes;
      fading_grid_us = 100;
    })
    ∷ []

abbrev node : String → DeviceConfig ℕ
node id = record {
  id = id;
  role = "node";
  sample_rate_hz = 23040000;
  tx_endpoint = "tcp://127.0.0.1:2000";
  rx_endpoint = "tcp://127.0.0.1:2001";
  rx_model = "";
  tx_timing_offset_samples = 0;
}

abbrev edge : String → String → ℕ → LinkConfig ℕ
edge from to delay = record {
  from = from;
  to = to;
  model = "los";
  propagation_delay_samples = delay;
}

abbrev topology : TopologyConfig ℕ
topology = record {
  runtime = record {
    backend = cpu;
    gpu_device = 0;
    batch_samples_auto = true;
    batch_samples = 0;
    queue_samples = 614400;
  };
  devices = node "a" ∷ node "b" ∷ [];
  links = edge "a" "b" 5 ∷ edge "b" "a" 0 ∷ edge "a" "b" 5 ∷ [];
  models = ("los", loss) ∷ [];
}

plain : All (Plain whole_signal print topology) topology.links
unfolding lookup effective_id timing_offset is_zero find_device
plain = (((loss, refl), refl), (((loss, refl), refl), (((loss, refl), refl), tt)))

apart : (s t : String) → str_eq s t ≡ false → s ≡ t → ⊥
apart s t differ e = let same : str_eq s t ≡ true = (eq_iff s t).1 e in cc

named : Named whole_signal print topology topology.links
unfolding effective_id timing_offset is_zero find_device
named = (
  ((λ e. absurd (apart _ _ refl e)), ((λ e. (refl, refl)), tt)),
  (((λ e. absurd (apart _ _ refl e)), tt), (tt, tt)),
)

abbrev folded : TopologyConfig ℕ
folded = fold_link_leading_delays whole_signal print topology

fold-Paired_example :
    Paired whole_signal print topology folded.models topology.links folded.links
    × ((k : String) (c : List (ModelStep ℕ))
        → lookup k topology.models ≡ some c
        → lookup k folded.models ≡ some c)
fold-Paired_example = fold-Paired whole_signal print topology plain named

-- Two links of 5 and 7 samples, which are printed alike.
abbrev clashing : TopologyConfig ℕ
clashing = record topology { links = edge "a" "b" 5 ∷ edge "a" "b" 7 ∷ edge "b" "a" 0 ∷ [] }

alike : PrintAlike whole_signal print clashing (edge "a" "b" 5) (edge "a" "b" 7)
unfolding is_zero
alike = record { from = refl; model = refl; printed = refl; zeros = refl }

fold-PrintAlike_example :
    (ls : List (LinkConfig ℕ)) × ((fold_link_leading_delays whole_signal print clashing).links
      ≡ record (edge "a" "b" 5) { model = clone_id whole_signal print clashing (edge "a" "b" 5) }
        ∷ record (edge "a" "b" 7) { model = clone_id whole_signal print clashing (edge "a" "b" 5) }
        ∷ ls)
    × (lookup
          (clone_id whole_signal print clashing (edge "a" "b" 5))
          (fold_link_leading_delays whole_signal print clashing).models
        ≡ some (delayed_chain whole_signal 5 loss))
unfolding is_zero total_delay timing_offset find_device lookup same_delay effective_id
fold-PrintAlike_example =
    fold-PrintAlike whole_signal print clashing (edge "a" "b" 5) (edge "a" "b" 7)
      (edge "b" "a" 0 ∷ []) loss refl alike refl refl refl refl refl
