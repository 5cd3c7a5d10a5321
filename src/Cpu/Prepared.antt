-- ===== src/Cpu/Prepared.antt =====
-- The states that `CpuChannelProcessor::prepare` of src/cpu_backend.cpp leaves.
use ocudu_channel.Common.{
  ℕ, suc, ◌+◌, ◌≡◌, refl, ap, ◌∙◌, arith, true, false, Option, none, some, List, [], ◌∷◌, String,
  str_eq, eq_iff, Map, lookup, lookup-assign, if_both, ◌==◌, length, Signal, All,
}
use ocudu_channel.Config.{
  ModelStep, DeviceConfig, LinkConfig, TopologyConfig, find_device, find_model,
  resolve_batch_samples,
}
use ocudu_channel.Runtime.{init_broker_link_control}
use ocudu_channel.Config.{tdl}
use ocudu_channel.Config.Validate.{is_tdl}
use ocudu_channel.Delay.Fading.{prepare_tdl_fading_state}
use ocudu_channel.Cpu.{
  Random, LinkState, link_key, rx_key, StepState, prepare_tdl_step, prepare_step, prepare_steps,
  ensured, ensure_link_state, prepare_link, prepare_links, prepare_device, prepare_devices, prepare,
}

module _ {N U F G : Type 0} (sg : Signal F G) (rnd : Random N U F G) where
  pub length-prepare_steps :
      (key : String) (i : ℕ) (chain : List (ModelStep F))
      → length (prepare_steps sg rnd key i chain) ≡ length chain
  unfolding prepare_steps
  length-prepare_steps key i [] = refl
  length-prepare_steps key i (step ∷ chain) = ap suc (length-prepare_steps key (i + 1) chain)

  module _ (config : TopologyConfig F) (k : String) where
    ensure-other :
        (key : String) (chain : List (ModelStep F)) (n : ℕ) (m : Map (LinkState N F G))
        → str_eq key k ≡ false
        → lookup k (ensure_link_state sg rnd key chain n m) ≡ lookup k m
    unfolding ensure_link_state
    ensure-other key chain n m other = lookup-assign key _ k m ∙ rw other refl

    link-other :
        (l : LinkConfig F) (d : Option (DeviceConfig F)) (c : Option (List (ModelStep F)))
        (m : Map (LinkState N F G))
        → str_eq (link_key l) k ≡ false
        → lookup k (prepare_link sg rnd config l d c m) ≡ lookup k m
    unfolding prepare_link
    link-other l (some d) (some c) m other = ensure-other (link_key l) c _ m other
    link-other l none _ m other = refl
    link-other l (some d) none m other = refl

    links-other :
        (ls : List (LinkConfig F)) (m : Map (LinkState N F G))
        → All (λ (l : LinkConfig F). str_eq (link_key l) k ≡ false) ls
        → lookup k (prepare_links sg rnd config ls m) ≡ lookup k m
    unfolding prepare_links
    links-other [] m others = refl
    links-other (l ∷ ls) m others = links-other ls _ others.1 ∙ link-other l _ _ m others.0

    device-other :
        (d : DeviceConfig F) (c : Option (List (ModelStep F))) (m : Map (LinkState N F G))
        → str_eq (rx_key d.id) k ≡ false
        → lookup k (prepare_device sg rnd config d c m) ≡ lookup k m
    unfolding prepare_device
    device-other d none m other = refl
    device-other d (some c) m other =
        if_both (λ n. lookup k n ≡ lookup k m) (str_eq d.rx_model "") refl
          (ensure-other (rx_key d.id) c _ m other)

    devices-other :
        (ds : List (DeviceConfig F)) (m : Map (LinkState N F G))
        → All (λ (d : DeviceConfig F). str_eq (rx_key d.id) k ≡ false) ds
        → lookup k (prepare_devices sg rnd config ds m) ≡ lookup k m
    unfolding prepare_devices
    devices-other [] m others = refl
    devices-other (d ∷ ds) m others = devices-other ds _ others.1 ∙ device-other d _ m others.0

  -- The first link's state, if no other link or receiver has its key, is as set up for its model.
  pub prepare-first :
      (config : TopologyConfig F) (l : LinkConfig F) (rest : List (LinkConfig F))
      (d : DeviceConfig F) (c : List (ModelStep F))
      → config.links ≡ l ∷ rest
      → find_device config l.to ≡ some d
      → find_model config l.model ≡ some c
      → All (λ (k : LinkConfig F). str_eq (link_key k) (link_key l) ≡ false) rest
      → All (λ (e : DeviceConfig F). str_eq (rx_key e.id) (link_key l) ≡ false) config.devices
      → lookup (link_key l) (prepare sg rnd config [])
        ≡ some (
            ensured sg rnd
              (link_key l)
              c
              (resolve_batch_samples config.runtime d.sample_rate_hz)
              none)
  unfolding prepare prepare_links prepare_link ensure_link_state lookup
  prepare-first config l rest d c links to model keys receivers =
      devices-other config (link_key l) config.devices _ receivers
      ∙ ap (λ ls. lookup (link_key l) (prepare_links sg rnd config ls [])) links
      ∙ links-other config (link_key l) rest _ keys
      ∙ rw (to, model)
          (lookup-assign (link_key l) _ (link_key l) []
            ∙ rw ((eq_iff (link_key l) (link_key l)).1 refl) refl)

  ensured-fits :
      (key : String) (chain : List (ModelStep F)) (m : ℕ) (s : LinkState N F G)
      → length s.steps ≡ length chain
      → ensured sg rnd key chain m (some s) ≡ s
  unfolding ensured
  ensured-fits key chain m s size =
      let same : (length s.steps == length chain) ≡ true = ground arith in rw same refl

  -- A state that a call makes has the prepared steps, and no profile to swap in.
  module _ (key : String) (step : ModelStep F) (chain : List (ModelStep F)) (n : ℕ) where
    none_yet : (length {A = ModelStep F} [] == length (step ∷ chain)) ≡ false
    none_yet = ground arith

    pub ensured-steps :
        (ensured sg rnd key (step ∷ chain) n none).steps ≡ prepare_steps sg rnd key 0 (step ∷ chain)
    unfolding ensured
    ensured-steps = rw none_yet refl

    pub ensured-pending : (ensured sg rnd key (step ∷ chain) n none).ctl.profile_pending ≡ false
    unfolding ensured init_broker_link_control
    ensured-pending = rw none_yet refl

    -- A later call keeps it.
    pub ensured-again :
        (m : ℕ)
        → ensured sg rnd key (step ∷ chain) m (some (ensured sg rnd key (step ∷ chain) n none))
          ≡ ensured sg rnd key (step ∷ chain) n none
    ensured-again m =
        ensured-fits key (step ∷ chain) m (ensured sg rnd key (step ∷ chain) n none)
          (ap length ensured-steps ∙ length-prepare_steps key 0 (step ∷ chain))

    -- The state of a leading tdl step has the step's fading.
    pub prepare_steps-fading :
        step.type ≡ tdl
        → (h : StepState N F G) × (t : List (StepState N F G)) × (prepare_steps sg rnd key 0
              (step ∷ chain)
            ≡ h ∷ t)
          × (h.tdl_fading.enabled ≡ step.fading_enabled)
          × (h.tdl_fading.spectrum ≡ step.fading_spectrum)
    unfolding prepare_steps prepare_step prepare_tdl_step prepare_tdl_fading_state is_tdl
    prepare_steps-fading type = (
      prepare_step sg rnd key 0 step,
      prepare_steps sg rnd key 1 chain,
      refl,
      rw type refl,
      rw type refl,
    )
