-- ===== src/Delay/Slots/Reference.antt =====
-- The reference of a `tdl` step: the taps' filters over one stream, with no slots and no delay line.
-- `apply_tdl_step` of include/ocudu_gpu_channel/delay.h is compared with it.
use ocudu_channel.Common.{
  ℕ, zero, suc, ◌+◌, ◌-◌, ◌≤◌, ◌<◌, ◌≡◌, refl, ap, ap₂, ◌∙◌, List, [], ◌∷◌, ◌++◌, arith, length,
  get_or, drop, Signal, All,
}
use ocudu_channel.Runtime.{TapSpec}
use ocudu_channel.Iq.{IqSample, silence, add_sample}
use ocudu_channel.Delay.{filter_taps, weighted, tap_gain, tap_rotate, convolve, sum_taps, outputs}
use ocudu_channel.Delay.Slots.{get_or-append_left, get_or-drop, read_sample-append}

module _ {F G : Type 0} (sg : Signal F G) where
  -- The filter `h` at position `at`, three samples ahead, over a whole stream.
  pub filtered : List (IqSample G) → ℕ → List G → ℕ → IqSample G → IqSample G
  filtered stream at [] behind x = x
  filtered stream at (c ∷ h) behind x =
      filtered stream at h (behind + 1)
        (add_sample sg x (weighted sg c (get_or stream (at + 3 - behind) (silence sg))))

  pub tapped : List (IqSample G) → ℕ → List (TapSpec F) → List (List G) → IqSample G → IqSample G
  unfolding filtered
  tapped stream at (tap ∷ taps) (h ∷ polyphase) acc =
      let x = filtered stream at h (sg.floor_int tap.delay_samples) (silence sg) in
      tapped stream at taps polyphase
        (add_sample sg acc (weighted sg (tap_gain sg tap) (tap_rotate sg tap x)))
  tapped stream at _ _ acc = acc

  -- The `k` outputs from position `at` on.
  unfoldable pub reference :
      List (IqSample G) → List (TapSpec F) → List (List G) → ℕ → ℕ → List (IqSample G)
  unfolding tapped
  reference stream taps polyphase at zero = []
  reference stream taps polyphase at (suc k) =
      tapped stream at taps polyphase (silence sg) ∷ reference stream taps polyphase (at + 1) k

  -- The tap's filter never looks past the sample at hand, nor back beyond `room` samples.
  abbrev pub Reaches : ℕ → TapSpec F → Type 0
  Reaches room tap =
      (3 ≤ sg.floor_int tap.delay_samples) × (sg.floor_int tap.delay_samples + 4 ≤ room)

  abbrev pub HasFilterTaps : List G → Type 0
  HasFilterTaps h = length h ≡ filter_taps

  -- Within a slot, the code's filter is the reference's over the delay line and the slot.
  convolve-filtered :
      (input line : List (IqSample G)) (n : ℕ) (h : List G) (behind : ℕ) (x : IqSample G)
      → n < length input
      → 3 ≤ behind
      → behind + length h ≤ length line + n + 4
      → convolve sg input line (n + 3) h behind x
        ≡ filtered (line ++ input) (length line + n) h behind x
  unfolding convolve filtered
  convolve-filtered input line n [] behind x now late near = refl
  convolve-filtered input line n (c ∷ h) behind x now late near =
      convolve-filtered input line n h (behind + 1) _ now (omega arith) (omega arith)
      ∙ ap
          (λ s.
            filtered (line ++ input) (length line + n) h (behind + 1)
              (add_sample sg x (weighted sg c s)))
          (read_sample-append sg input line (n + 3) behind (length line + n + 3 - behind)
            (omega arith) (omega arith))

  sum_taps-tapped :
      (input line : List (IqSample G)) (n : ℕ) (taps : List (TapSpec F)) (polyphase : List (List G))
      (acc : IqSample G)
      → n < length input
      → All (Reaches (length line)) taps
      → All HasFilterTaps polyphase
      → sum_taps sg input line n taps polyphase acc
        ≡ tapped (line ++ input) (length line + n) taps polyphase acc
  unfolding sum_taps tapped
  sum_taps-tapped input line n [] polyphase acc now reach full = refl
  sum_taps-tapped input line n (tap ∷ taps) [] acc now reach full = refl
  sum_taps-tapped input line n (tap ∷ taps) (h ∷ polyphase) acc now reach full =
      sum_taps-tapped input line n taps polyphase _ now reach.1 full.1
      ∙ ap
          (λ x.
            tapped (line ++ input) (length line + n) taps polyphase
              (add_sample sg acc (weighted sg (tap_gain sg tap) (tap_rotate sg tap x))))
          (convolve-filtered input line n h (sg.floor_int tap.delay_samples) (silence sg) now
            ((reach.0).0) (omega (arith, full.0, (reach.0).1)))

  pub outputs-reference :
      (input line : List (IqSample G)) (taps : List (TapSpec F)) (polyphase : List (List G))
      (n k : ℕ)
      → n + k ≤ length input
      → All (Reaches (length line)) taps
      → All HasFilterTaps polyphase
      → outputs sg input line taps polyphase n k
        ≡ reference (line ++ input) taps polyphase (length line + n) k
  unfolding outputs reference
  outputs-reference input line taps polyphase n zero within reach full = refl
  outputs-reference input line taps polyphase n (suc k) within reach full =
      ap₂ ◌∷◌ (sum_taps-tapped input line n taps polyphase (silence sg) (omega arith) reach full) (
        outputs-reference input line taps polyphase (n + 1) k (omega arith) reach full
        ∙ ap (λ at. reference (line ++ input) taps polyphase at k) next)
    where
      next : length line + (n + 1) ≡ length line + n + 1
      next = omega arith

  -- Two streams with the same samples at the places that are read give the same.
  filtered_same :
      (s t : List (IqSample G)) (at at' : ℕ) (h : List G) (behind : ℕ) (x : IqSample G)
      → ((b : ℕ)
          → behind ≤ b
          → b < behind + length h
          → get_or s (at + 3 - b) (silence sg) ≡ get_or t (at' + 3 - b) (silence sg))
      → filtered s at h behind x ≡ filtered t at' h behind x
  unfolding filtered
  filtered_same s t at at' [] behind x same = refl
  filtered_same s t at at' (c ∷ h) behind x same =
      ap (λ v. filtered s at h (behind + 1) (add_sample sg x (weighted sg c v)))
        (same behind (omega arith) (omega arith))
      ∙ filtered_same s t at at' h (behind + 1) _ (λ b low high. same b (omega arith) (omega arith))

  -- The two streams agree at every place that a tap in reach reads at `at`, and `at'`.
  abbrev Agree : List (IqSample G) → List (IqSample G) → ℕ → ℕ → ℕ → Type 0
  Agree s t at at' room =
      (b : ℕ)
      → 3 ≤ b
      → b < room + 4
      → get_or s (at + 3 - b) (silence sg) ≡ get_or t (at' + 3 - b) (silence sg)

  tapped_same :
      (s t : List (IqSample G)) (at at' room : ℕ) (taps : List (TapSpec F))
      (polyphase : List (List G)) (acc : IqSample G)
      → All (Reaches room) taps
      → All HasFilterTaps polyphase
      → Agree s t at at' room
      → tapped s at taps polyphase acc ≡ tapped t at' taps polyphase acc
  unfolding tapped
  tapped_same s t at at' room [] polyphase acc reach full same = refl
  tapped_same s t at at' room (tap ∷ taps) [] acc reach full same = refl
  tapped_same s t at at' room (tap ∷ taps) (h ∷ polyphase) acc reach full same =
      ap
        (λ x.
          tapped s at taps polyphase
            (add_sample sg acc (weighted sg (tap_gain sg tap) (tap_rotate sg tap x))))
        (filtered_same s t at at' h (sg.floor_int tap.delay_samples) (silence sg)
          (λ b low high. same b (omega (arith, (reach.0).0)) (omega (arith, full.0, (reach.0).1))))
      ∙ tapped_same s t at at' room taps polyphase _ reach.1 full.1 same

  -- A longer stream changes no output before its end.
  pub reference-append :
      (stream more : List (IqSample G)) (room : ℕ) (taps : List (TapSpec F))
      (polyphase : List (List G)) (at k : ℕ)
      → at + k ≤ length stream
      → All (Reaches room) taps
      → All HasFilterTaps polyphase
      → reference (stream ++ more) taps polyphase at k ≡ reference stream taps polyphase at k
  unfolding reference
  reference-append stream more room taps polyphase at zero within reach full = refl
  reference-append stream more room taps polyphase at (suc k) within reach full =
      ap₂ ◌∷◌
        (tapped_same (stream ++ more) stream at at room taps polyphase (silence sg) reach full
          (λ b low high. get_or-append_left stream more (at + 3 - b) (silence sg) (omega arith)))
        (reference-append stream more room taps polyphase (at + 1) k (omega arith) reach full)

  -- Samples that are too old to be read can be dropped.
  pub reference-drop :
      (m : ℕ) (stream : List (IqSample G)) (room : ℕ) (taps : List (TapSpec F))
      (polyphase : List (List G)) (at at' k : ℕ)
      → room ≤ at
      → at' ≡ m + at
      → All (Reaches room) taps
      → All HasFilterTaps polyphase
      → reference (drop m stream) taps polyphase at k ≡ reference stream taps polyphase at' k
  unfolding reference
  reference-drop m stream room taps polyphase at at' zero old shift reach full = refl
  reference-drop m stream room taps polyphase at at' (suc k) old shift reach full =
      ap₂ ◌∷◌
        (tapped_same (drop m stream) stream at at' room taps polyphase (silence sg) reach full
          (λ b low high.
            get_or-drop m stream (at + 3 - b) (at' + 3 - b) (silence sg) (omega arith)))
        (reference-drop m stream room taps polyphase (at + 1) (at' + 1) k (omega arith)
          (omega arith) reach full)

  pub reference-add :
      (stream : List (IqSample G)) (taps : List (TapSpec F)) (polyphase : List (List G))
      (at k l : ℕ)
      → reference stream taps polyphase at (k + l)
        ≡ reference stream taps polyphase at k ++ reference stream taps polyphase (at + k) l
  unfolding reference
  reference-add stream taps polyphase at zero l =
      ap₂ (reference stream taps polyphase) {x = at} (omega arith) (omega arith)
  reference-add stream taps polyphase at (suc k) l =
      ap (reference stream taps polyphase at) shifted
      ∙ ap (◌∷◌ (tapped stream at taps polyphase (silence sg))) (
          reference-add stream taps polyphase (at + 1) k l
          ∙ ap
              (λ p.
                reference stream taps polyphase (at + 1) k ++ reference stream taps polyphase p l)
              onward)
    where
      shifted : suc k + l ≡ suc (k + l)
      shifted = omega arith

      onward : at + 1 + k ≡ at + suc k
      onward = omega arith
