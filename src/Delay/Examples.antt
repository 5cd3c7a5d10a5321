-- ===== src/Delay/Examples.antt =====
-- A tap of three samples over two slots, in whole numbers.
use ocudu_channel.Common.{
  ℕ, ◌+◌, ◌≤◌, ◌≡◌, refl, false, List, [], ◌∷◌, ◌++◌, arith, length, drop, replicate, whole_signal,
  All,
}
use ocudu_channel.Runtime.{TapSpec}
use ocudu_channel.Iq.{IqSample, add_sample, rotate_by}
use ocudu_channel.Delay.{
  prepare_tdl_state, convolve, outputs, apply_tdl_step, roll, sum_taps, tap_gain, tap_rotate,
  read_sample, weighted,
}
use ocudu_channel.Delay.Slots.{convolve_lost}
use ocudu_channel.Delay.Slots.Reference.{reference, HasFilterTaps}
use ocudu_channel.Delay.Slots.Stream.{run_slots, run_slots-reference, joined}
use ocudu_channel.Delay.Prepared.{RoundsWell, prepare_tdl_state_room}

abbrev sample : ℕ → IqSample ℕ
sample n = record { i = n; q = 0 }

abbrev tap : ℕ → TapSpec ℕ
tap delay = record {
  delay_samples = delay;
  gain_db = 0;
  phase_rad = 0;
  is_los = false;
  los_k_db = 0;
  los_angle_rad = 0;
}

abbrev taps : List (TapSpec ℕ)
taps = tap 3 ∷ tap 4 ∷ []

abbrev filters : List (List ℕ)
filters = (0 ∷ 0 ∷ 0 ∷ 1 ∷ 0 ∷ 0 ∷ 0 ∷ 0 ∷ []) ∷ (0 ∷ 0 ∷ 0 ∷ 2 ∷ 0 ∷ 0 ∷ 0 ∷ 0 ∷ []) ∷ []

abbrev line : List (IqSample ℕ)
line = replicate 12 (sample 0)

abbrev slots : List (List (IqSample ℕ))
slots = (sample 1 ∷ sample 2 ∷ sample 3 ∷ []) ∷ (sample 4 ∷ sample 5 ∷ []) ∷ []

-- Sample 1 comes out of the first tap after three samples, and twice out of the second after four.
delayed :
    (run_slots whole_signal taps filters slots line).0
    ≡ sample 0 ∷ sample 0 ∷ sample 0 ∷ sample 1 ∷ sample 4 ∷ []
unfolding run_slots apply_tdl_step outputs sum_taps convolve read_sample roll tap_gain tap_rotate
    add_sample weighted rotate_by
delayed = refl

run_slots-reference_example :
    ((run_slots whole_signal taps filters slots line).0
      ≡ reference whole_signal
          (line ++ joined slots)
          taps
          filters
          (length line)
          (length (joined slots)))
    × ((run_slots whole_signal taps filters slots line).1
        ≡ drop (length (joined slots)) (line ++ joined slots))
run_slots-reference_example =
    run_slots-reference whole_signal taps filters slots line (omega arith) (omega arith)

rounds_well : RoundsWell whole_signal
rounds_well = record {
  zero_finite = refl;
  ceil_zero = refl;
  floor-le-ceil = λ v h. omega arith;
  ceil_mono = λ a b h k less. ground arith;
  floor-le-ceil_of = λ a b h k less. ground arith;
}

prepare_tdl_state_room_example :
    All (HasFilterTaps whole_signal) (prepare_tdl_state whole_signal taps []).0
    × All
        (λ (t : TapSpec ℕ). t.delay_samples + 8 ≤ length (prepare_tdl_state whole_signal taps []).1)
        taps
prepare_tdl_state_room_example =
    prepare_tdl_state_room whole_signal taps [] rounds_well
      ((refl, omega arith), ((refl, omega arith), tt))

convolve_lost_example :
    convolve whole_signal (sample 7 ∷ []) line 3 (1 ∷ 2 ∷ []) 500 (sample 0)
    ≡ convolve whole_signal (sample 9 ∷ []) line 3 (1 ∷ 2 ∷ []) 500 (sample 0)
convolve_lost_example =
    convolve_lost whole_signal (sample 7 ∷ []) line (sample 9 ∷ []) line 0 (1 ∷ 2 ∷ []) 500
      (sample 0) (omega arith) (omega arith)
