-- ===== src/Cpu.antt =====
-- The CPU backend of src/cpu_backend.cpp and include/ocudu_gpu_channel/cpu_backend.h: the state of a
-- link, and its preparation. The scratch buffers hold nothing from one call to the next, and are left
-- out.
pub mod Steps
pub mod Prepared
pub mod Apply
mod Examples
use ocudu_channel.Common.{
  ℕ, ◌+◌, ◌%◌, ◌^◌, Bool, true, false, not, Option, none, some, List, [], ◌∷◌, String, text_append,
  str_eq, Map, lookup, assign, if◌then◌else◌, ◌==◌, length, replicate, Signal,
}
use ocudu_channel.Runtime.{
  MutableParams, TapSpec, ProfileShadow, BrokerLinkControl, default_profile,
  init_broker_link_control, zero_double,
}
use ocudu_channel.Config.{
  ModelStepType, path_loss, awgn, phase, cfo, tdl, jakes, ModelStep, DeviceConfig, LinkConfig,
  TopologyConfig, resolve_batch_samples, find_device, find_model,
}
use ocudu_channel.Config.Validate.{is_tdl}
use ocudu_channel.Populate.{default_params, populate_mutable_params_from_yaml}
use ocudu_channel.Iq.{IqSample}
use ocudu_channel.Delay.{literal, prepare_tdl_state}
use ocudu_channel.Delay.Fading.{TdlFadingState, Uniform, prepare_tdl_fading_state}

-- The generators and the hash of the standard library: std::hash and std::to_string, std::mt19937
-- with std::normal_distribution (of mean 0, and with what the distribution keeps), and std::mt19937_64
-- with its distribution.
pub record Random (N U F G : Type 0) : Type 0 where
  pub hash : String → ℕ
  pub to_string : ℕ → String
  pub seed_normal : ℕ → N
  pub draw_normal : G → N → G × N
  pub uniform : Uniform U F

pub record StepState (N F G : Type 0) : Type 0 where
  pub delay_line : List (IqSample G)
  pub phase_rad : F
  pub noise : N
  pub tdl_polyphase : List (List G)
  pub tdl_fading : TdlFadingState F G

-- TelemetrySnapshot of runtime_control.h.
pub record TelemetrySnapshot (G : Type 0) : Type 0 where
  pub slot : ℕ
  pub seqno : ℕ
  pub params : MutableParams G
  pub profile_active : Bool
  pub warmup_until : ℕ

-- `published` is the latest snapshot in the control block's telemetry.
pub record LinkState (N F G : Type 0) : Type 0 where
  pub steps : List (StepState N F G)
  pub live : MutableParams G
  pub ctl : BrokerLinkControl F G
  pub live_seqno : ℕ
  pub next_slot : ℕ
  pub live_profile : ProfileShadow F G
  pub live_profile_active : Bool
  pub chain_has_leading_tdl : Bool
  pub warmup_until_slot : ℕ
  pub published : TelemetrySnapshot G

unfoldable pub leads_with_tdl : {F : Type 0} → List (ModelStep F) → Bool
leads_with_tdl [] = false
leads_with_tdl (step ∷ steps) = is_tdl step.type

-- from + ">" + to + ":" + model
unfoldable pub link_key : {F : Type 0} → LinkConfig F → String
link_key link =
    text_append link.from (text_append ">" (text_append link.to (text_append ":" link.model)))

unfoldable pub rx_key : String → String
rx_key id = text_append id ">rx"

module _ {N U F G : Type 0} (sg : Signal F G) (rnd : Random N U F G) where
  -- `TdlFadingState{}`
  abbrev pub no_fading : TdlFadingState F G
  no_fading = record {
    enabled = false;
    f_d_max_hz = zero_double sg.floats;
    spectrum = jakes;
    grid_us = literal sg 100 0;
    draws = [];
    slot_start_samples = 0;
  }

  -- `StepState{}`, with the generator seeded.
  new_step : String → ℕ → StepState N F G
  new_step key i = record {
    delay_line = [];
    phase_rad = zero_double sg.floats;
    noise =
        rnd.seed_normal (rnd.hash (text_append key (text_append ":" (rnd.to_string i))) % 2 ^ 32);
    tdl_polyphase = [];
    tdl_fading = no_fading;
  }

  prepare_tdl_step : StepState N F G → ModelStep F → ℕ → StepState N F G
  prepare_tdl_step state step fading_seed =
      let (polyphase, line) = prepare_tdl_state sg step.taps state.delay_line in
      record state {
        tdl_polyphase = polyphase;
        delay_line = line;
        tdl_fading = prepare_tdl_fading_state sg rnd.uniform step fading_seed;
      }

  prepare_step : String → ℕ → ModelStep F → StepState N F G
  unfolding new_step prepare_tdl_step
  prepare_step key i step =
      if is_tdl step.type
      then prepare_tdl_step (new_step key i) step
          (rnd.hash (text_append key (text_append ":fading:" (rnd.to_string i))))
      else new_step key i

  unfoldable pub prepare_steps : String → ℕ → List (ModelStep F) → List (StepState N F G)
  unfolding prepare_step
  prepare_steps key i [] = []
  prepare_steps key i (step ∷ steps) = prepare_step key i step ∷ prepare_steps key (i + 1) steps

  -- `BrokerLinkControl{}` and `LinkState{}`
  abbrev new_control : BrokerLinkControl F G
  new_control = record {
    shadow = default_params sg.floats;
    shadow_profile = default_profile sg.floats;
    profile_pending = false;
    take_effect_at_slot = 0;
    current_slot = 0;
    seqno = 0;
    force_inert_warnings = 0;
    dl_size_samples_hint = 0;
    slot_count_hint = 0;
  }

  abbrev pub new_link : LinkState N F G
  new_link = record {
    steps = [];
    live = default_params sg.floats;
    ctl = new_control;
    live_seqno = 0;
    next_slot = 0;
    live_profile = default_profile sg.floats;
    live_profile_active = false;
    chain_has_leading_tdl = false;
    warmup_until_slot = 0;
    published = record {
      slot = 0;
      seqno = 0;
      params = default_params sg.floats;
      profile_active = false;
      warmup_until = 0;
    };
  }

  front_line : List (StepState N F G) → ℕ → ℕ
  front_line [] hint = hint
  front_line (s ∷ steps) hint = length s.delay_line

  -- A link whose steps do not fit the chain is set up for it.
  set_up : String → List (ModelStep F) → ℕ → LinkState N F G → LinkState N F G
  unfolding front_line
  set_up key chain sample_count s =
      let steps = prepare_steps key 0 chain in
      let live = populate_mutable_params_from_yaml sg.floats chain in
      let ctl = init_broker_link_control sg.floats s.ctl live in
      let hint = ctl.dl_size_samples_hint in
      record s {
        steps = steps;
        live = live;
        ctl = record ctl {
          dl_size_samples_hint = if leads_with_tdl chain then front_line steps hint else hint;
          slot_count_hint = sample_count;
        };
        chain_has_leading_tdl = leads_with_tdl chain;
      }

  or_new : Option (LinkState N F G) → LinkState N F G
  or_new none = new_link
  or_new (some s) = s

  -- The state that the call finds or makes.
  unfoldable pub ensured :
      String → List (ModelStep F) → ℕ → Option (LinkState N F G) → LinkState N F G
  unfolding set_up or_new
  ensured key chain sample_count found =
      let s = or_new found in
      if length s.steps == length chain then s else set_up key chain sample_count s

  unfoldable pub ensure_link_state :
      String → List (ModelStep F) → ℕ → Map (LinkState N F G) → Map (LinkState N F G)
  ensure_link_state key chain sample_count states =
      assign key (ensured key chain sample_count (lookup key states)) states

  prepare_link :
      TopologyConfig F
      → LinkConfig F
      → Option (DeviceConfig F)
      → Option (List (ModelStep F))
      → Map (LinkState N F G)
      → Map (LinkState N F G)
  prepare_link config link (some destination) (some chain) states =
      ensure_link_state (link_key link) chain
        (resolve_batch_samples config.runtime destination.sample_rate_hz) states
  prepare_link config link _ _ states = states

  prepare_links :
      TopologyConfig F → List (LinkConfig F) → Map (LinkState N F G) → Map (LinkState N F G)
  unfolding prepare_link
  prepare_links config [] states = states
  prepare_links config (link ∷ links) states =
      prepare_links config links (
        prepare_link config link (find_device config link.to) (find_model config link.model) states)

  prepare_device :
      TopologyConfig F
      → DeviceConfig F
      → Option (List (ModelStep F))
      → Map (LinkState N F G)
      → Map (LinkState N F G)
  prepare_device config device none states = states
  prepare_device config device (some chain) states =
      if str_eq device.rx_model ""
      then states
      else ensure_link_state (rx_key device.id) chain
          (resolve_batch_samples config.runtime device.sample_rate_hz) states

  prepare_devices :
      TopologyConfig F → List (DeviceConfig F) → Map (LinkState N F G) → Map (LinkState N F G)
  unfolding prepare_device
  prepare_devices config [] states = states
  prepare_devices config (device ∷ devices) states =
      prepare_devices config devices
        (prepare_device config device (find_model config device.rx_model) states)

  unfoldable pub prepare : TopologyConfig F → Map (LinkState N F G) → Map (LinkState N F G)
  unfolding prepare_links prepare_devices
  prepare config states =
      prepare_devices config config.devices (prepare_links config config.links states)
