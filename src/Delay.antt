-- ===== src/Delay.antt =====
-- include/ocudu_gpu_channel/delay.h: the tapped delay line of a `tdl` step, with its history across
-- slots.
pub mod Slots
pub mod Prepared
pub mod Fading
mod Examples
use ocudu_channel.Common.{
  ℕ, zero, suc, ◌+◌, ◌-◌, false, List, [], ◌∷◌, ◌++◌, map, if◌then◌else◌, ltb, leb, length, get_or,
  drop, replicate, Signal, add64,
}
use ocudu_channel.Runtime.{TapSpec, zero_double}
use ocudu_channel.Iq.{IqSample, narrow, silence, add_sample, rotate_by}

-- kTdlFracFilterTaps
abbrev pub filter_taps : ℕ
filter_taps = 8

module _ {F G : Type 0} (sg : Signal F G) where
  open sg use {mul_float, add, sub, mul, div, of_nat, pi, sin, cos, fabs, floor, pow10}

  -- `static_cast<double>(i - k)` of two small integers.
  abbrev signed : ℕ → ℕ → F
  signed i k = sg.floats.literal (ltb i k) (if ltb i k then k - i else i - k) 0

  abbrev pub literal : ℕ → ℕ → F
  literal = sg.floats.literal false

  sinc : F → F
  sinc x =
      let pix = mul pi x in
      if sg.floats.lt (fabs x) (literal 1 12) then literal 1 0 else div (sin pix) pix

  hamming : ℕ → F
  hamming i =
      sub (literal 54 2)
        (mul (literal 46 2) (cos (div (mul (mul (literal 2 0) pi) (of_nat i)) (of_nat 7))))

  -- The coefficients from the i-th on, before normalisation.
  raw_taps : F → ℕ → ℕ → List F
  unfolding sinc hamming
  raw_taps frac i zero = []
  raw_taps frac i (suc n) = mul (sinc (sub (signed i 3) frac)) (hamming i) ∷ raw_taps frac (i + 1) n

  pub sum_from : F → List F → F
  sum_from sum [] = sum
  sum_from sum (c ∷ cs) = sum_from (add sum c) cs

  -- The DC normalisation, and the conversion to float before it.
  pub normalise : F → List F → List G
  normalise sum coeffs =
      let out = map (narrow sg) coeffs in
      if sg.floats.lt (literal 1 12) (fabs sum)
      then map (λ c. mul_float c (narrow sg (div (literal 1 0) sum))) out
      else out

  pub raw_coeffs : F → List F
  unfolding raw_taps
  raw_coeffs frac = raw_taps frac 0 filter_taps

  unfoldable pub compute_windowed_sinc_taps : F → List G
  unfolding normalise sum_from raw_coeffs
  compute_windowed_sinc_taps frac =
      normalise (sum_from (zero_double sg.floats) (raw_coeffs frac)) (raw_coeffs frac)

  -- `tau - std::floor(tau)`
  abbrev pub frac_of : F → F
  frac_of tau = sub tau (floor tau)

  unfoldable pub polyphase_of : List (TapSpec F) → List (List G)
  polyphase_of [] = []
  polyphase_of (t ∷ ts) = compute_windowed_sinc_taps (frac_of t.delay_samples) ∷ polyphase_of ts

  -- The loop's running `std::max`.
  unfoldable pub max_tau : F → List (TapSpec F) → F
  max_tau largest [] = largest
  max_tau largest (t ∷ ts) =
      max_tau (if sg.floats.lt largest t.delay_samples then t.delay_samples else largest) ts

  -- The coefficients and the delay line, which is made afresh where it is too short.
  unfoldable pub prepare_tdl_state :
      List (TapSpec F) → List (IqSample G) → List (List G) × List (IqSample G)
  prepare_tdl_state taps delay_line =
      let ring_size = add64 (sg.ceil_int (max_tau (zero_double sg.floats) taps)) filter_taps in
      (
        polyphase_of taps,
        if ltb (length delay_line) ring_size then replicate ring_size (silence sg) else delay_line,
      )

  -- `read(ahead - behind)`: a negative index counts back from the end of the delay line.
  unfoldable pub read_sample : List (IqSample G) → List (IqSample G) → ℕ → ℕ → IqSample G
  read_sample input delay_line ahead behind =
      if leb behind ahead
      then if leb (length input) (ahead - behind)
        then silence sg
        else get_or input (ahead - behind) (silence sg)
      else if ltb (length delay_line) (behind - ahead)
      then silence sg
      else get_or delay_line (length delay_line - (behind - ahead)) (silence sg)

  unfoldable pub weighted : G → IqSample G → IqSample G
  weighted c s = record { i = mul_float c s.i; q = mul_float c s.q }

  -- The loop over the coefficients; `behind` is `tau_int + i`, and `ahead` is `n + 3`.
  unfoldable pub convolve :
      List (IqSample G) → List (IqSample G) → ℕ → List G → ℕ → IqSample G → IqSample G
  convolve input delay_line ahead [] behind x = x
  convolve input delay_line ahead (c ∷ h) behind x =
      convolve input delay_line ahead h (behind + 1)
        (add_sample sg x (weighted c (read_sample input delay_line ahead behind)))

  -- The static gain and phase of a tap.
  unfoldable pub tap_gain : TapSpec F → G
  tap_gain tap = narrow sg (pow10 (div tap.gain_db (literal 20 0)))

  unfoldable pub tap_rotate : TapSpec F → IqSample G → IqSample G
  tap_rotate tap x = rotate_by sg x (narrow sg (cos tap.phase_rad)) (narrow sg (sin tap.phase_rad))

  -- The loop over the taps at one output sample.
  unfoldable pub sum_taps :
      List (IqSample G)
      → List (IqSample G)
      → ℕ
      → List (TapSpec F)
      → List (List G)
      → IqSample G
      → IqSample G
  sum_taps input delay_line n (tap ∷ taps) (h ∷ polyphase) acc =
      let x = convolve input delay_line (n + 3) h (sg.floor_int tap.delay_samples) (silence sg) in
      sum_taps input delay_line n taps polyphase
        (add_sample sg acc (weighted (tap_gain tap) (tap_rotate tap x)))
  sum_taps input delay_line n _ _ acc = acc

  -- The output samples from the n-th on.
  unfoldable pub outputs :
      List (IqSample G)
      → List (IqSample G)
      → List (TapSpec F)
      → List (List G)
      → ℕ
      → ℕ
      → List (IqSample G)
  outputs input delay_line taps polyphase n zero = []
  outputs input delay_line taps polyphase n (suc k) =
      sum_taps input delay_line n taps polyphase (silence sg)
      ∷ outputs input delay_line taps polyphase (n + 1) k

  -- The delay line moves on by a slot.
  unfoldable pub roll : List (IqSample G) → List (IqSample G) → List (IqSample G)
  roll input delay_line =
      if leb (length delay_line) (length input)
      then drop (length input - length delay_line) input
      else drop (length input) delay_line ++ input

  unfoldable pub apply_tdl_step :
      List (IqSample G)
      → List (TapSpec F)
      → List (List G)
      → List (IqSample G)
      → List (IqSample G) × List (IqSample G)
  apply_tdl_step input taps polyphase delay_line =
      (outputs input delay_line taps polyphase 0 (length input), roll input delay_line)
