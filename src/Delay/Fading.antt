-- ===== src/Delay/Fading.antt =====
-- The fading sub-config of a `tdl` step in include/ocudu_gpu_channel/delay.h: a sum of sinusoids per
-- tap on a coarse grid, with linear interpolation, and a line-of-sight path.
pub mod Refused
use ocudu_channel.Common.{
  ℕ, zero, suc, ◌+◌, ◌-◌, ◌*◌, ◌/◌, min, max, Bool, true, false, List, [], ◌∷◌, map, if◌then◌else◌,
  length, get_or, ltb, Signal, Result, ok, err, add64,
}
use ocudu_channel.Runtime.{TapSpec}
use ocudu_channel.Config.{FadingSpectrum, jakes, gaussian, flat, ModelStep}
use ocudu_channel.Iq.{IqSample, narrow, silence, add_sample, scale, rotate_by}
use ocudu_channel.Delay.{literal, convolve, weighted, tap_gain, tap_rotate, roll, apply_tdl_step}

-- kTdlFadingSinusoids
abbrev pub sinusoids : ℕ
sinusoids = 20

-- The random state of a tap: its sub-rays' angles and phases, and the line of sight's phase.
pub record TapDraws (G : Type 0) : Type 0 where
  pub rays : List (G × G)
  pub phi_los : G

-- TdlFadingState; `draws` has tap_alpha, tap_phi and tap_phi_los.
pub record TdlFadingState (F G : Type 0) : Type 0 where
  pub enabled : Bool
  pub f_d_max_hz : F
  pub spectrum : FadingSpectrum
  pub grid_us : F
  pub draws : List (TapDraws G)
  pub slot_start_samples : ℕ

-- The exceptions of the code, and its read past the end of `tap_alpha`, which is undefined.
pub data ApplyError : Type 0 where
  draws_out_of_bounds : ApplyError
  spectrum_unsupported : ApplyError
  sizes_differ : ApplyError
  input_malformed : ApplyError

-- std::mt19937_64 and std::uniform_real_distribution over [0, 2 pi).
pub record Uniform (R F : Type 0) : Type 0 where
  pub seed : ℕ → R
  pub draw : R → F × R

module _ {R F G : Type 0} (sg : Signal F G) (rng : Uniform R F) where
  draw_rays : ℕ → R → List (G × G) × R
  draw_rays zero r = ([], r)
  draw_rays (suc m) r =
      let (alpha, r1) = rng.draw r in
      let (phi, r2) = rng.draw r1 in
      let (rest, last) = draw_rays m r2 in ((narrow sg alpha, narrow sg phi) ∷ rest, last)

  draw_taps : List (TapSpec F) → R → List (TapDraws G)
  unfolding draw_rays
  draw_taps [] r = []
  draw_taps (t ∷ ts) r =
      let (rays, r1) = draw_rays sinusoids r in
      let (los, r2) = rng.draw r1 in
      record { rays = rays; phi_los = narrow sg los } ∷ draw_taps ts r2

  unfoldable pub prepare_tdl_fading_state : ModelStep F → ℕ → TdlFadingState F G
  unfolding draw_taps
  prepare_tdl_fading_state step seed = record {
    enabled = step.fading_enabled;
    f_d_max_hz = step.fading_f_d_max_hz;
    spectrum = step.fading_spectrum;
    grid_us = step.fading_grid_us;
    draws = if step.fading_enabled then draw_taps step.taps (rng.seed seed) else [];
    slot_start_samples = 0;
  }

-- A complex number is its real and imaginary part.
module _ {F G : Type 0} (sg : Signal F G) where
  open sg use {add, mul, div, of_nat, pi, sqrt, cos, sin, fmod, pow10, widen, float_of_nat}

  two_pi : F
  two_pi = mul (literal sg 2 0) pi

  -- The product of two complex numbers.
  times : IqSample G → IqSample G → IqSample G
  times a b = rotate_by sg a b.i b.q

  -- `exp(j * angle)`, of a float and of a double.
  unit_at : G → IqSample G
  unit_at angle = record { i = sg.cos_float angle; q = sg.sin_float angle }

  unit_step : F → IqSample G
  unit_step angle = record { i = narrow sg (cos angle); q = narrow sg (sin angle) }

  -- The angle at the start of the slot, reduced before it is made a float.
  start_angle : F → F → G → G
  unfolding two_pi
  start_angle omega t phi = narrow sg (fmod (add (mul omega t) (widen phi)) two_pi)

  unfoldable pub grid_stride : TdlFadingState F G → ℕ → ℕ
  grid_stride fading sample_rate_hz =
      max 1 (sg.round_int (mul (mul fading.grid_us (literal sg 1 6)) (of_nat sample_rate_hz)))

  unfoldable pub grid_count : ℕ → ℕ → ℕ
  grid_count count stride = (count + stride - 1) / stride + 1

  -- The sum of one sub-ray onto the grid, by phase accumulation.
  add_ray : List (IqSample G) → IqSample G → IqSample G → List (IqSample G)
  unfolding times
  add_ray [] current step_mul = []
  add_ray (g ∷ grid) current step_mul =
      add_sample sg g current ∷ add_ray grid (times current step_mul) step_mul

  add_rays : F → F → F → List (G × G) → List (IqSample G) → List (IqSample G)
  unfolding two_pi unit_at unit_step start_angle add_ray
  add_rays f_d start_t grid_dt [] grid = grid
  add_rays f_d start_t grid_dt ((alpha, phi) ∷ rays) grid =
      let omega = mul (mul two_pi f_d) (cos (widen alpha)) in
      add_rays f_d start_t grid_dt rays
        (add_ray grid (unit_at (start_angle omega start_t phi)) (unit_step (mul omega grid_dt)))

  zeros : ℕ → List (IqSample G)
  zeros zero = []
  zeros (suc n) = silence sg ∷ zeros n

  unfoldable pub tap_grid : TdlFadingState F G → F → F → ℕ → TapDraws G → List (IqSample G)
  unfolding add_rays zeros
  tap_grid fading start_t grid_dt count draws =
      map (λ v. scale sg v (narrow sg (div (literal sg 1 0) (sqrt (of_nat sinusoids)))))
        (add_rays fading.f_d_max_hz start_t grid_dt draws.rays (zeros count))

  -- What the loop over the samples keeps of a tap; the line-of-sight part is used for such taps only.
  pub record TapFading : Type 0 where
    pub grid : List (IqSample G)
    pub los_current : IqSample G
    pub los_step : IqSample G
    pub los_factor : G
    pub rayleigh_factor : G

  unfoldable pub tap_fading :
      TdlFadingState F G → F → F → ℕ → F → TapSpec F → TapDraws G → TapFading
  unfolding two_pi unit_at unit_step start_angle
  tap_fading fading start_t grid_dt count sr tap draws =
      let grid = tap_grid fading start_t grid_dt count draws in
      let k_lin = pow10 (div tap.los_k_db (literal sg 10 0)) in
      let k_one = add k_lin (literal sg 1 0) in
      let omega = mul (mul two_pi fading.f_d_max_hz) (cos tap.los_angle_rad) in
      if tap.is_los
      then record {
        grid = grid;
        los_current = unit_at (start_angle omega start_t draws.phi_los);
        los_step = unit_step (div omega sr);
        los_factor = narrow sg (sqrt (div k_lin k_one));
        rayleigh_factor = narrow sg (sqrt (div (literal sg 1 0) k_one));
      }
      else record {
        grid = grid;
        los_current = silence sg;
        los_step = record { i = sg.one_float; q = sg.zero_float };
        los_factor = sg.zero_float;
        rayleigh_factor = sg.one_float;
      }

  all_fading :
      TdlFadingState F G → F → F → ℕ → F → List (TapSpec F) → List (TapDraws G) → List TapFading
  all_fading fading start_t grid_dt count sr (tap ∷ taps) (draws ∷ rest) =
      tap_fading fading start_t grid_dt count sr tap draws
      ∷ all_fading fading start_t grid_dt count sr taps rest
  all_fading fading start_t grid_dt count sr _ _ = []

  -- g_k at sample `n`: interpolated on the grid, with the line of sight where the tap has one.
  unfoldable pub tap_weight : ℕ → ℕ → ℕ → TapSpec F → TapFading → IqSample G
  tap_weight count stride n tap t =
      let g_floor = n / stride in
      let g_ceil = min (g_floor + 1) (count - 1) in
      let frac = sg.div_float (float_of_nat (n - g_floor * stride)) (float_of_nat stride) in
      let rayleigh =
        add_sample sg
          (scale sg (get_or t.grid g_floor (silence sg)) (sg.sub_float sg.one_float frac))
          (scale sg (get_or t.grid g_ceil (silence sg)) frac) in
      if tap.is_los
      then add_sample sg (weighted sg t.los_factor t.los_current)
          (weighted sg t.rayleigh_factor rayleigh)
      else rayleigh

  -- The loop over the taps at sample `n`.
  sum_faded :
      List (IqSample G)
      → List (IqSample G)
      → ℕ
      → ℕ
      → ℕ
      → List (TapSpec F)
      → List (List G)
      → List TapFading
      → IqSample G
      → IqSample G
  unfolding times
  sum_faded input line count stride n (tap ∷ taps) (h ∷ polyphase) (t ∷ ts) acc =
      let x = convolve sg input line (n + 3) h (sg.floor_int tap.delay_samples) (silence sg) in
      let faded = times (tap_rotate sg tap x) (tap_weight count stride n tap t) in
      sum_faded input line count stride n taps polyphase ts
        (add_sample sg acc (weighted sg (tap_gain sg tap) faded))
  sum_faded input line count stride n _ _ _ acc = acc

  -- The line-of-sight phases move on by a sample.
  advance_los : List (TapSpec F) → List TapFading → List TapFading
  unfolding times
  advance_los (tap ∷ taps) (t ∷ ts) =
      (if tap.is_los then record t { los_current = times t.los_current t.los_step } else t)
      ∷ advance_los taps ts
  advance_los _ _ = []

  faded_outputs :
      List (IqSample G)
      → List (IqSample G)
      → ℕ
      → ℕ
      → List (TapSpec F)
      → List (List G)
      → List TapFading
      → ℕ
      → ℕ
      → List (IqSample G)
  unfolding sum_faded advance_los
  faded_outputs input line count stride taps polyphase ts n zero = []
  faded_outputs input line count stride taps polyphase ts n (suc k) =
      sum_faded input line count stride n taps polyphase ts (silence sg)
      ∷ faded_outputs input line count stride taps polyphase (advance_los taps ts) (n + 1) k

  is_jakes : FadingSpectrum → Bool
  is_jakes jakes = true
  is_jakes gaussian = false
  is_jakes flat = false

  -- The slot's output, the delay line and the fading state after it.
  abbrev pub Applied : Type 0
  Applied = List (IqSample G) × List (IqSample G) × TdlFadingState F G

  faded_step :
      List (IqSample G)
      → List (TapSpec F)
      → List (List G)
      → List (IqSample G)
      → TdlFadingState F G
      → ℕ
      → Applied
  unfolding all_fading faded_outputs
  faded_step input taps polyphase line fading sample_rate_hz =
      let sr = of_nat sample_rate_hz in
      let stride = grid_stride fading sample_rate_hz in
      let count = grid_count (length input) stride in
      let start_t = div (of_nat fading.slot_start_samples) sr in
      let ts = all_fading fading start_t (div (of_nat stride) sr) count sr taps fading.draws in
      (
        faded_outputs input line count stride taps polyphase ts 0 (length input),
        roll sg input line,
        record fading { slot_start_samples = add64 fading.slot_start_samples (length input) },
      )

  unfoldable pub apply_tdl_step_fading :
      List (IqSample G)
      → List (TapSpec F)
      → List (List G)
      → List (IqSample G)
      → TdlFadingState F G
      → ℕ
      → Result ApplyError Applied
  unfolding faded_step is_jakes
  apply_tdl_step_fading input taps polyphase line fading sample_rate_hz =
      if fading.enabled
      then if is_jakes fading.spectrum
        then if ltb (length fading.draws) (length taps)
          then err draws_out_of_bounds
          else ok (faded_step input taps polyphase line fading sample_rate_hz)
        else err spectrum_unsupported
      else let (out, line') = apply_tdl_step sg input taps polyphase line in ok (out, line', fading)
