-- ===== src/Support.antt =====
-- src/processing.cpp: which topologies a backend can run, and the choice of the processor.
pub mod Chains
pub mod Folded
pub mod Spectrum
mod Examples
use ocudu_channel.Common.{
  ℕ, zero, suc, Bool, true, false, not, ◌||◌, Option, none, some, List, [], ◌∷◌, ◌++◌, String,
  str_eq, Map, if◌then◌else◌, is_empty, Signal, Result, ok, err,
}
use ocudu_channel.Config.{
  Backend, cpu, cuda, ModelStepType, path_loss, awgn, phase, cfo, tdl, ModelStep, DeviceConfig,
  LinkConfig, TopologyConfig, find_model,
}
use ocudu_channel.Cpu.{Random, LinkState, prepare}

pub data SupportError : Type 0 where
  step_unsupported : String → SupportError
  receiver_unsupported : String → SupportError
  only_first : String → SupportError
  receiver_propagation : String → SupportError

unfoldable pub cuda_step_supported : ModelStepType → Bool
cuda_step_supported path_loss = true
cuda_step_supported phase = true
cuda_step_supported cfo = true
cuda_step_supported awgn = true
cuda_step_supported tdl = false

unfoldable pub cpu_step_supported : ModelStepType → Bool
cpu_step_supported path_loss = true
cpu_step_supported phase = true
cpu_step_supported cfo = true
cpu_step_supported awgn = true
cpu_step_supported tdl = true

unfoldable pub is_leading_propagation : ModelStepType → Bool
is_leading_propagation tdl = true
is_leading_propagation _ = false

-- The errors of each element of a list, one after the other.
unfoldable pub each : {A : Type 0} → (A → List SupportError) → List A → List SupportError
each f [] = []
each f (x ∷ xs) = f x ++ each f xs

-- The `s`-th step of a link's model, and a step of a receiver's.
pub cuda_step_at : String → ℕ → ModelStepType → List SupportError
cuda_step_at id s type =
    if is_leading_propagation type
    then elim s [ zero ↦ [] | suc k ↦ only_first id ∷ [] ]
    else if cuda_step_supported type
    then []
    else step_unsupported id ∷ []

pub cuda_receiver_step : String → ModelStepType → List SupportError
cuda_receiver_step id type =
    if is_leading_propagation type
    then receiver_propagation id ∷ []
    else if cuda_step_supported type
    then []
    else receiver_unsupported id ∷ []

module _ {F : Type 0} where
  -- One step of a link's model, or of a receiver's.
  cpu_step : SupportError → ModelStep F → List SupportError
  cpu_step error step = if cpu_step_supported step.type then [] else error ∷ []

  cpu_chain : SupportError → Option (List (ModelStep F)) → List SupportError
  unfolding cpu_step each
  cpu_chain error none = []
  cpu_chain error (some chain) = each (cpu_step error) chain

  cpu_receiver : TopologyConfig F → DeviceConfig F → List SupportError
  unfolding cpu_chain
  cpu_receiver config device =
      if str_eq device.rx_model ""
      then []
      else cpu_chain (receiver_unsupported device.rx_model) (find_model config device.rx_model)

  unfoldable pub validate_cpu_support : TopologyConfig F → List SupportError
  unfolding cpu_chain cpu_receiver each
  validate_cpu_support config =
      each (λ (l : LinkConfig F). cpu_chain (step_unsupported l.model) (find_model config l.model))
        config.links
      ++ each (cpu_receiver config) config.devices

  -- The steps of a link's model from the `s`-th on.
  unfoldable pub cuda_steps : String → ℕ → List (ModelStep F) → List SupportError
  unfolding cuda_step_at
  cuda_steps id s [] = []
  cuda_steps id s (step ∷ chain) = cuda_step_at id s step.type ++ cuda_steps id (suc s) chain

  unfoldable pub cuda_link : String → Option (List (ModelStep F)) → List SupportError
  cuda_link id none = []
  cuda_link id (some chain) = cuda_steps id 0 chain

  unfoldable pub cuda_receiver : String → Option (List (ModelStep F)) → List SupportError
  unfolding cuda_receiver_step each
  cuda_receiver id none = []
  cuda_receiver id (some chain) =
      each (λ (step : ModelStep F). cuda_receiver_step id step.type) chain

  unfoldable pub cuda_device : TopologyConfig F → DeviceConfig F → List SupportError
  cuda_device config device =
      if str_eq device.rx_model ""
      then []
      else cuda_receiver device.rx_model (find_model config device.rx_model)

  unfoldable pub validate_cuda_support : TopologyConfig F → List SupportError
  unfolding each
  validate_cuda_support config =
      each (λ (l : LinkConfig F). cuda_link l.model (find_model config l.model)) config.links
      ++ each (cuda_device config) config.devices

pub data CreateError : Type 0 where
  invalid_cpu : List SupportError → CreateError
  invalid_cuda : List SupportError → CreateError
  not_compiled : CreateError

-- A CPU processor with its states, or a CUDA one.
pub data Processor (N F G : Type 0) : Type 0 where
  cpu_processor : Map (LinkState N F G) → Processor N F G
  cuda_processor : Processor N F G

-- `has_cuda` is OCUDU_GPU_CHANNEL_HAS_CUDA.
module _ {N U F G : Type 0} (sg : Signal F G) (rnd : Random N U F G) (has_cuda : Bool) where
  create_for : Backend → TopologyConfig F → Result CreateError (Processor N F G)
  create_for cpu config =
      let errors = validate_cpu_support config in
      if not (is_empty errors)
      then err (invalid_cpu errors)
      else ok (cpu_processor (prepare sg rnd config []))
  create_for cuda config =
      let errors = validate_cuda_support config in
      if not (is_empty errors)
      then err (invalid_cuda errors)
      else if has_cuda
      then ok cuda_processor
      else err not_compiled

  unfoldable pub create_channel_processor : TopologyConfig F → Result CreateError (Processor N F G)
  unfolding create_for
  create_channel_processor config = create_for config.runtime.backend config
