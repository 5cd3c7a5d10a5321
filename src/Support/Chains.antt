-- ===== src/Support/Chains.antt =====
-- Which chains the backends of src/processing.cpp take.
use ocudu_channel.Common.{
  ℕ, suc, ◌≡◌, ◌↔◌, inl, inr, refl, ap, ◌∙◌, Bool, true, false, not, Option, none, some, List, [],
  ◌∷◌, ◌++◌, String, str_eq, if◌then◌else◌, if_both, is_empty, Signal, ok, err, All, All-map,
  Bool-cases,
}
use ocudu_channel.Config.{
  cpu, ModelStepType, path_loss, awgn, phase, cfo, tdl, ModelStep, DeviceConfig, LinkConfig,
  TopologyConfig, find_model,
}
use ocudu_channel.Config.Fold.{delayed_chain}
use ocudu_channel.Config.Validate.{is_tdl}
use ocudu_channel.Cpu.{Random, prepare}
use ocudu_channel.Support.{
  SupportError, cuda_step_supported, cpu_step_supported, is_leading_propagation, each, cuda_step_at,
  cpu_chain, cpu_receiver, cuda_steps, cuda_link, cuda_receiver_step, cuda_receiver, cuda_device,
  validate_cpu_support, validate_cuda_support, cpu_processor, create_channel_processor, create_for,
  invalid_cpu, cpu_step,
}

each-none :
    {A : Type 0} (f : A → List SupportError) → ((x : A) → f x ≡ []) → (xs : List A) → each f xs ≡ []
unfolding each
each-none f h [] = refl
each-none f h (x ∷ xs) = ap (λ e. e ++ each f xs) (h x) ∙ each-none f h xs

append-nil_iff : (xs ys : List SupportError) → (xs ++ ys ≡ []) ↔ ((xs ≡ []) × (ys ≡ []))
append-nil_iff [] ys = (λ e. (refl, e), λ h. h.1)
append-nil_iff (x ∷ xs) ys = (λ e. cc, λ h. absurd (clash (h.0)))
  where
    clash : ◌≡◌ {A = List SupportError} (x ∷ xs) [] → ⊥
    clash e = cc

each-nil_iff :
    {A : Type 0} (f : A → List SupportError) (xs : List A)
    → (each f xs ≡ []) ↔ All (λ x. f x ≡ []) xs
unfolding each
each-nil_iff f [] = (λ e. tt, λ h. refl)
each-nil_iff f (x ∷ xs) =
    let split = append-nil_iff (f x) (each f xs) in
    let rest = each-nil_iff f xs in
    (λ e. let (here, there) = split.0 e in (here, rest.0 there), λ h. split.1 (h.0, rest.1 (h.1)))

cpu_supported_all : (t : ModelStepType) → cpu_step_supported t ≡ true
unfolding cpu_step_supported
cpu_supported_all path_loss = refl
cpu_supported_all awgn = refl
cpu_supported_all phase = refl
cpu_supported_all cfo = refl
cpu_supported_all tdl = refl

later_iff :
    (id : String) (k : ℕ) (t : ModelStepType)
    → (cuda_step_at id (suc k) t ≡ []) ↔ (is_tdl t ≡ false)
unfolding cuda_step_at is_leading_propagation cuda_step_supported is_tdl
later_iff id k path_loss = (λ e. refl, λ e. refl)
later_iff id k awgn = (λ e. refl, λ e. refl)
later_iff id k phase = (λ e. refl, λ e. refl)
later_iff id k cfo = (λ e. refl, λ e. refl)
later_iff id k tdl = (λ e. cc, λ e. cc)

first_fine : (id : String) (t : ModelStepType) → cuda_step_at id 0 t ≡ []
unfolding cuda_step_at is_leading_propagation cuda_step_supported
first_fine id path_loss = refl
first_fine id awgn = refl
first_fine id phase = refl
first_fine id cfo = refl
first_fine id tdl = refl

receiver_iff :
    (id : String) (t : ModelStepType) → (cuda_receiver_step id t ≡ []) ↔ (is_tdl t ≡ false)
unfolding cuda_receiver_step is_leading_propagation cuda_step_supported is_tdl
receiver_iff id path_loss = (λ e. refl, λ e. refl)
receiver_iff id awgn = (λ e. refl, λ e. refl)
receiver_iff id phase = (λ e. refl, λ e. refl)
receiver_iff id cfo = (λ e. refl, λ e. refl)
receiver_iff id tdl = (λ e. cc, λ e. cc)

All_iff :
    {A : Type 0} {P Q : A → Type 0} (f : (x : A) → P x ↔ Q x) (xs : List A) → All P xs ↔ All Q xs
All_iff f xs = (All-map (λ x. (f x).0) xs, All-map (λ x. (f x).1) xs)

trans_iff : {A B C : Type 0} → (A ↔ B) → (B ↔ C) → (A ↔ C)
trans_iff f g = (λ a. g.0 (f.0 a), λ c. f.1 (g.1 c))

module _ {F : Type 0} where
  -- The chain has no tdl step.
  abbrev pub NoTdl : List (ModelStep F) → Type 0
  NoTdl chain = All (λ (s : ModelStep F). is_tdl s.type ≡ false) chain

  -- A tdl step stands first, if anywhere.
  abbrev pub TdlFirst : List (ModelStep F) → Type 0
  TdlFirst [] = Unit
  TdlFirst (step ∷ chain) = NoTdl chain

  -- What holds of the chain that a model id stands for, if there is one.
  abbrev pub OfModel : (List (ModelStep F) → Type 0) → Option (List (ModelStep F)) → Type 0
  OfModel P none = Unit
  OfModel P (some chain) = P chain

  steps_iff :
      (id : String) (k : ℕ) (chain : List (ModelStep F))
      → (cuda_steps id (suc k) chain ≡ []) ↔ NoTdl chain
  unfolding cuda_steps
  steps_iff id k [] = (λ e. tt, λ h. refl)
  steps_iff id k (step ∷ chain) =
      let split =
        append-nil_iff (cuda_step_at id (suc k) step.type) (cuda_steps id (suc (suc k)) chain) in
      let here = later_iff id k step.type in
      let there = steps_iff id (suc k) chain in
      (
        λ e. let (x, y) = split.0 e in (here.0 x, there.0 y),
        λ h. split.1 (here.1 (h.0), there.1 (h.1)),
      )

  link_iff :
      (id : String) (o : Option (List (ModelStep F))) → (cuda_link id o ≡ []) ↔ OfModel TdlFirst o
  unfolding cuda_link cuda_steps
  link_iff id none = (λ e. tt, λ h. refl)
  link_iff id (some []) = (λ e. tt, λ h. refl)
  link_iff id (some (step ∷ chain)) =
      let split = append-nil_iff (cuda_step_at id 0 step.type) (cuda_steps id 1 chain) in
      let there = steps_iff id 0 chain in
      (λ e. there.0 ((split.0 e).1), λ h. split.1 (first_fine id step.type, there.1 h))

  receivers_iff :
      (id : String) (o : Option (List (ModelStep F))) → (cuda_receiver id o ≡ []) ↔ OfModel NoTdl o
  unfolding cuda_receiver
  receivers_iff id none = (λ e. tt, λ h. refl)
  receivers_iff id (some chain) =
      trans_iff (each-nil_iff (λ (step : ModelStep F). cuda_receiver_step id step.type) chain)
        (All_iff (λ (step : ModelStep F). receiver_iff id step.type) chain)

  -- What a device's receiver model must be.
  abbrev pub ReceiverOk : TopologyConfig F → DeviceConfig F → Type 0
  ReceiverOk config d = str_eq d.rx_model "" ≡ false → OfModel NoTdl (find_model config d.rx_model)

  device_iff :
      (config : TopologyConfig F) (d : DeviceConfig F)
      → (cuda_device config d ≡ []) ↔ ReceiverOk config d
  unfolding cuda_device
  device_iff config d = elim (Bool-cases (str_eq d.rx_model "")) [
    | inl blank ↦ rw blank (λ e other. cc, λ h. refl)
    | inr named ↦ rw named (
        let r = receivers_iff d.rx_model (find_model config d.rx_model) in
        (λ e _. r.0 e, λ h. r.1 (h refl)))
  ]

  -- The CUDA backend's check finds no error exactly when, in every link's model that is there, a tdl
  -- step stands first if anywhere, and no receiver model that is there has a tdl step.
  pub validate_cuda_support-TdlFirst :
      (config : TopologyConfig F)
      → (validate_cuda_support config ≡ []) ↔ (
          All (λ (l : LinkConfig F). OfModel TdlFirst (find_model config l.model)) config.links
          × All (ReceiverOk config) config.devices)
  unfolding validate_cuda_support
  validate_cuda_support-TdlFirst config =
      let links = λ (l : LinkConfig F). cuda_link l.model (find_model config l.model) in
      let split =
        append-nil_iff (each links config.links) (each (cuda_device config) config.devices) in
      let left = trans_iff (each-nil_iff links config.links) (
        All_iff (λ (l : LinkConfig F). link_iff l.model (find_model config l.model))
          config.links) in
      let right =
        trans_iff (each-nil_iff (cuda_device config) config.devices)
          (All_iff (device_iff config) config.devices) in
      (
        λ e. let (x, y) = split.0 e in (left.0 x, right.0 y),
        λ h. split.1 (left.1 (h.0), right.1 (h.1)),
      )

module _ {F G : Type 0} (sg : Signal F G) where
  -- A delay in front keeps a chain in the form that the CUDA backend takes.
  pub delayed_chain-TdlFirst :
      (total : F) (chain : List (ModelStep F))
      → TdlFirst chain
      → TdlFirst (delayed_chain sg total chain)
  unfolding delayed_chain
  delayed_chain-TdlFirst total [] h = tt
  delayed_chain-TdlFirst total (step ∷ chain) h = elim (Bool-cases (is_tdl step.type)) [
    | inl leads ↦ rw leads h
    | inr plain ↦ rw plain (plain, h)
  ]

module _ {F : Type 0} where
  cpu_chain-nil : (error : SupportError) (o : Option (List (ModelStep F))) → cpu_chain error o ≡ []
  unfolding cpu_chain cpu_step
  cpu_chain-nil error none = refl
  cpu_chain-nil error (some chain) =
      each-none _ (λ (step : ModelStep F). rw (cpu_supported_all step.type) refl) chain

  cpu_receiver-nil : (config : TopologyConfig F) (d : DeviceConfig F) → cpu_receiver config d ≡ []
  unfolding cpu_receiver
  cpu_receiver-nil config d =
      if_both (λ es. es ≡ []) (str_eq d.rx_model "") refl
        (cpu_chain-nil (SupportError.receiver_unsupported d.rx_model)
          (find_model config d.rx_model))

  validate_cpu_support-nil : (config : TopologyConfig F) → validate_cpu_support config ≡ []
  unfolding validate_cpu_support
  validate_cpu_support-nil config =
      (append-nil_iff
          (each
            (λ (l : LinkConfig F).
              cpu_chain (SupportError.step_unsupported l.model) (find_model config l.model))
            config.links)
          (each (cpu_receiver config) config.devices)).1
        (
          each-none _
              (λ (l : LinkConfig F).
                cpu_chain-nil (SupportError.step_unsupported l.model) (find_model config l.model))
              config.links,
          each-none _ (cpu_receiver-nil config) config.devices,
        )

module _ {N U F G : Type 0} (sg : Signal F G) (rnd : Random N U F G) (has_cuda : Bool) where
  -- A topology for the CPU backend always gets its processor, prepared for it, in every build.
  pub create_channel_processor-cpu :
      (config : TopologyConfig F)
      → config.runtime.backend ≡ cpu
      → create_channel_processor sg rnd has_cuda config
        ≡ ok (cpu_processor (prepare sg rnd config []))
  unfolding create_channel_processor create_for
  create_channel_processor-cpu config backend =
      ap (λ b. create_for sg rnd has_cuda b config) backend
      ∙ ap
          (λ (es : List SupportError).
            if not (is_empty es)
            then err (invalid_cpu es)
            else ok (cpu_processor (prepare sg rnd config [])))
          (validate_cpu_support-nil config)
