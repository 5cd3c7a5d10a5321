-- ===== src/Config/Fold.antt =====
-- `fold_link_leading_delays` of src/config.cpp: each link's delays become a leading tdl step of a
-- model of its own.
pub mod Models
pub mod Clash
use ocudu_channel.Common.{
  Bool, true, false, not, ◌&&◌, Option, none, some, List, [], ◌∷◌, map, String, text_append, str_eq,
  Map, lookup, emplace, if◌then◌else◌, Signal,
}
use ocudu_channel.Runtime.{TapSpec, zero_double, default_tap}
use ocudu_channel.Config.{
  tdl, jakes, ModelStep, DeviceConfig, LinkConfig, TopologyConfig, find_device,
}
use ocudu_channel.Config.Validate.{is_tdl}

-- An entry of `synthesized`.
pub record Synthesized (F : Type 0) : Type 0 where
  pub delay : F
  pub base : String
  pub id : String

-- What the loop changes besides the links.
pub record Folding (F : Type 0) : Type 0 where
  pub models : Map (List (ModelStep F))
  pub synthesized : List (Synthesized F)

module _ {F G : Type 0} (sg : Signal F G) where
  -- `v == 0.0`
  unfoldable pub is_zero : F → Bool
  is_zero v = sg.floats.le v (zero_double sg.floats) && sg.floats.le (zero_double sg.floats) v

  -- How std::map compares two delays: neither is less.
  unfoldable pub same_delay : F → F → Bool
  same_delay a b = not (sg.floats.lt a b) && not (sg.floats.lt b a)

  unfoldable pub find_synthesized : F → String → List (Synthesized F) → Option String
  find_synthesized delay base [] = none
  find_synthesized delay base (s ∷ ss) =
      if same_delay s.delay delay && str_eq s.base base
      then some s.id
      else find_synthesized delay base ss

  shift_tap : F → TapSpec F → TapSpec F
  shift_tap total tap = record tap { delay_samples = sg.add tap.delay_samples total }

  -- A single tap with the delay and unit gain.
  delay_step : F → ModelStep F
  delay_step total =
      let tap : TapSpec F = default_tap sg.floats in
      record {
        type = tdl;
        params = [];
        taps = record tap { delay_samples = total } ∷ [];
        taps_declared = true;
        fading_enabled = false;
        fading_f_d_max_hz = zero_double sg.floats;
        fading_spectrum = jakes;
        fading_grid_us = sg.floats.literal false 100 0;
      }

  -- The clone's chain.
  unfoldable pub delayed_chain : F → List (ModelStep F) → List (ModelStep F)
  unfolding shift_tap delay_step
  delayed_chain total [] = delay_step total ∷ []
  delayed_chain total (step ∷ chain) =
      if is_tdl step.type
      then record step { taps = map (shift_tap total) step.taps; taps_declared = true } ∷ chain
      else delay_step total ∷ step ∷ chain

  offset_of : Option (DeviceConfig F) → F
  offset_of none = zero_double sg.floats
  offset_of (some d) = d.tx_timing_offset_samples

  -- `tx_timing_offset` and `total_delay` of a link.
  unfoldable pub timing_offset : TopologyConfig F → LinkConfig F → F
  unfolding offset_of
  timing_offset config link = offset_of (find_device config link.from)

  unfoldable pub total_delay : TopologyConfig F → LinkConfig F → F
  total_delay config link = sg.add (timing_offset config link) link.propagation_delay_samples

-- `print` is `operator<<` of an output stream on a double.
module _ {F G : Type 0} (sg : Signal F G) (print : F → String) where
  -- The name of the clone.
  unfoldable pub effective_id : String → F → F → String
  effective_id base tx_timing_offset propagation_delay = text_append "__ocg_lead_delay__" (
      text_append base (
        if not (is_zero sg tx_timing_offset) && not (is_zero sg propagation_delay)
        then text_append "__txoff_"
            (text_append (print tx_timing_offset) (text_append "__prop_" (print propagation_delay)))
        else if not (is_zero sg tx_timing_offset)
        then text_append "__txoff_" (print tx_timing_offset)
        else text_append "__prop_" (print propagation_delay)))

  -- The clone is made, unless there is a model of its name, and noted.
  fold_new :
      TopologyConfig F
      → LinkConfig F
      → Option (List (ModelStep F))
      → Folding F
      → LinkConfig F × Folding F
  fold_new config link none f = (link, f)
  fold_new config link (some chain) f =
      let total = total_delay sg config link in
      let id =
        effective_id link.model (timing_offset sg config link) link.propagation_delay_samples in
      (
        record link { model = id },
        record {
          models = emplace id (delayed_chain sg total chain) f.models;
          synthesized = record { delay = total; base = link.model; id = id } ∷ f.synthesized;
        },
      )

  fold_known :
      TopologyConfig F → LinkConfig F → Option String → Folding F → LinkConfig F × Folding F
  unfolding fold_new
  fold_known config link (some id) f = (record link { model = id }, f)
  fold_known config link none f = fold_new config link (lookup link.model f.models) f

  unfoldable pub fold_link : TopologyConfig F → LinkConfig F → Folding F → LinkConfig F × Folding F
  unfolding fold_known
  fold_link config link f =
      if is_zero sg (total_delay sg config link)
      then (link, f)
      else fold_known config link
          (find_synthesized sg (total_delay sg config link) link.model f.synthesized) f

  unfoldable pub fold_links :
      TopologyConfig F → List (LinkConfig F) → Folding F → List (LinkConfig F) × Folding F
  fold_links config [] f = ([], f)
  fold_links config (link ∷ links) f =
      let (link', g) = fold_link config link f in
      let (links', h) = fold_links config links g in (link' ∷ links', h)

  unfoldable pub fold_link_leading_delays : TopologyConfig F → TopologyConfig F
  fold_link_leading_delays config =
      let (links, f) =
        fold_links config config.links (record { models = config.models; synthesized = [] }) in
      record config { links = links; models = f.models }
