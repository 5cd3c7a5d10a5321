-- ===== src/Cpu/Steps.antt =====
-- The chain loop of `CpuChannelProcessor::apply_chain_to_link` in src/cpu_backend.cpp.
use ocudu_channel.Common.{
  ℕ, true, List, [], ◌∷◌, if◌then◌else◌, ◌==◌, length, take, Signal, Result, ok, ◌>>=◌, map,
}
use ocudu_channel.Runtime.{MutableParams, TapSpec, zero_double}
use ocudu_channel.Config.{ModelStepType, path_loss, awgn, phase, cfo, tdl, ModelStep}
use ocudu_channel.Populate.{param_or}
use ocudu_channel.Iq.{IqSample, narrow, scale, rotate, power}
use ocudu_channel.Delay.{literal, polyphase_of, compute_windowed_sinc_taps, frac_of, apply_tdl_step}
use ocudu_channel.Delay.Fading.{ApplyError, apply_tdl_step_fading}
use ocudu_channel.Cpu.{Random, StepState, LinkState}

module _ {F G : Type 0} (sg : Signal F G) where
  open sg use {add, sub, mul, div, of_nat, pi, sqrt, fmod, pow10, widen}

  two_pi : F
  two_pi = mul (literal sg 2 0) pi

  sum_power : F → List (IqSample G) → F
  sum_power sum [] = sum
  sum_power sum (s ∷ ss) = sum_power (add sum (power sg s)) ss

  unfoldable pub estimate_average_power : List (IqSample G) → F
  unfolding sum_power
  estimate_average_power [] = zero_double sg.floats
  estimate_average_power (s ∷ ss) =
      div (sum_power (zero_double sg.floats) (s ∷ ss)) (of_nat (length (s ∷ ss)))

  path_factor : MutableParams G → G
  path_factor live =
      narrow sg (pow10 (div (widen (sg.neg_float live.path_loss_db)) (literal sg 20 0)))

  -- An explicit noise power, or the one that the live SNR gives for the samples at hand.
  noise_power_of : ModelStep F → MutableParams G → List (IqSample G) → F
  noise_power_of step live current =
      let explicit = param_or step "noise_power" (sg.floats.literal true 1 0) in
      if sg.floats.lt explicit (zero_double sg.floats)
      then div (estimate_average_power current)
          (pow10 (div (widen live.awgn_snr_db) (literal sg 10 0)))
      else explicit

  -- `std::sqrt(std::max(0.0, noise_power) / 2.0)`
  sigma_of : F → G
  sigma_of noise_power =
      let nonneg =
        if sg.floats.lt (zero_double sg.floats) noise_power
        then noise_power
        else zero_double sg.floats in
      narrow sg (sqrt (div nonneg (literal sg 2 0)))

  phase_increment : MutableParams G → ℕ → F
  unfolding two_pi
  phase_increment live sample_rate_hz =
      if sample_rate_hz == 0
      then zero_double sg.floats
      else div (mul two_pi (widen live.cfo_hz)) (of_nat sample_rate_hz)

  wrap_phase : F → F
  unfolding two_pi
  wrap_phase p = if sg.floats.lt two_pi p then fmod p two_pi else p

  -- The rotated samples, and the running phase after them.
  rotate_all : F → F → List (IqSample G) → F → List (IqSample G) × F
  unfolding wrap_phase
  rotate_all fixed_phase increment [] p = ([], p)
  rotate_all fixed_phase increment (s ∷ ss) p =
      let (rest, last) = rotate_all fixed_phase increment ss (wrap_phase (add p increment)) in
      (rotate sg s (add fixed_phase p) ∷ rest, last)

  -- The first tap takes the live parameters.
  override_tap : MutableParams G → TapSpec F → TapSpec F
  override_tap live tap = record tap {
    delay_samples = widen live.tap0_delay_samples;
    gain_db = widen live.tap0_gain_db;
    phase_rad = widen live.tap0_phase_rad;
    los_k_db = if tap.is_los then widen live.los_k_db else tap.los_k_db;
  }

  override_taps : MutableParams G → List (TapSpec F) → List (TapSpec F)
  unfolding override_tap
  override_taps live [] = []
  override_taps live (tap ∷ taps) = override_tap live tap ∷ taps

  override_polyphase : MutableParams G → List (TapSpec F) → List (List G) → List (List G)
  override_polyphase live (tap ∷ taps) (h ∷ polyphase) =
      compute_windowed_sinc_taps sg (frac_of sg (widen live.tap0_delay_samples)) ∷ polyphase
  override_polyphase live _ polyphase = polyphase

module _ {N U F G : Type 0} (sg : Signal F G) (rnd : Random N U F G) where
  add_noise : G → List (IqSample G) → N → List (IqSample G) × N
  add_noise sigma [] r = ([], r)
  add_noise sigma (s ∷ ss) r =
      let (ni, r1) = rnd.draw_normal sigma r in
      let (nq, r2) = rnd.draw_normal sigma r1 in
      let (rest, last) = add_noise sigma ss r2 in
      (record { i = sg.add_float s.i ni; q = sg.add_float s.q nq } ∷ rest, last)

  -- All taps of a live profile, or those of the chain with the first one overridden.
  unfoldable pub effective_taps : LinkState N F G → ModelStep F → List (TapSpec F)
  unfolding override_taps
  effective_taps link step =
      if link.live_profile_active
      then take link.live_profile.n_taps link.live_profile.taps
      else override_taps sg link.live step.taps

  unfoldable pub effective_polyphase :
      LinkState N F G → ModelStep F → StepState N F G → List (List G)
  unfolding override_polyphase
  effective_polyphase link step state =
      if link.live_profile_active
      then polyphase_of sg (take link.live_profile.n_taps link.live_profile.taps)
      else override_polyphase sg link.live step.taps state.tdl_polyphase

  -- The samples after a step, and its state.
  abbrev pub Stepped : Type 0
  Stepped = List (IqSample G) × StepState N F G

  tdl_step :
      LinkState N F G
      → ModelStep F
      → ℕ
      → List (IqSample G)
      → StepState N F G
      → Result ApplyError Stepped
  tdl_step link step sample_rate_hz current state =
      let taps = effective_taps link step in
      let polyphase = effective_polyphase link step state in
      if step.fading_enabled
      then (apply_tdl_step_fading sg current taps polyphase state.delay_line state.tdl_fading
            sample_rate_hz
          >>= λ (r : List (IqSample G) × List (IqSample G) × _).
              ok (r.0, record state { delay_line = r.1; tdl_fading = r.2 }))
      else let (out, line) = apply_tdl_step sg current taps polyphase state.delay_line in
        ok (out, record state { delay_line = line })

  turn : LinkState N F G → ModelStep F → ℕ → List (IqSample G) → StepState N F G → Stepped
  unfolding phase_increment rotate_all
  turn link step sample_rate_hz current state =
      let (next, p) =
        rotate_all sg (param_or step "phase_rad" (zero_double sg.floats))
          (phase_increment sg link.live sample_rate_hz) current state.phase_rad in
      (next, record state { phase_rad = p })

  -- The switch on the step's type.
  unfoldable pub run_step :
      ModelStepType
      → LinkState N F G
      → ModelStep F
      → ℕ
      → List (IqSample G)
      → StepState N F G
      → Result ApplyError Stepped
  unfolding path_factor noise_power_of sigma_of add_noise turn tdl_step
  run_step path_loss link step sample_rate_hz current state =
      ok (map (λ s. scale sg s (path_factor sg link.live)) current, state)
  run_step awgn link step sample_rate_hz current state =
      let (next, r) =
        add_noise (sigma_of sg (noise_power_of sg step link.live current)) current state.noise in
      ok (next, record state { noise = r })
  run_step phase link step sample_rate_hz current state =
      ok (turn link step sample_rate_hz current state)
  run_step cfo link step sample_rate_hz current state =
      ok (turn link step sample_rate_hz current state)
  run_step tdl link step sample_rate_hz current state =
      tdl_step link step sample_rate_hz current state

  -- The loop over the chain; each step has its state.
  unfoldable pub run_chain :
      LinkState N F G
      → List (ModelStep F)
      → ℕ
      → List (IqSample G)
      → List (StepState N F G)
      → Result ApplyError (List (IqSample G) × List (StepState N F G))
  unfolding run_step
  run_chain link (step ∷ chain) sample_rate_hz current (state ∷ states) =
      run_step step.type link step sample_rate_hz current state >>= λ (r : Stepped).
      run_chain link chain sample_rate_hz (r.0) states
      >>= λ (rest : List (IqSample G) × List (StepState N F G)). ok (rest.0, r.1 ∷ rest.1)
  run_chain link _ sample_rate_hz current states = ok (current, states)
