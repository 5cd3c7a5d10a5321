-- ===== src/Delay/Prepared.antt =====
-- The state that `prepare_tdl_state` of include/ocudu_gpu_channel/delay.h makes.
use ocudu_channel.Common.{
  ℕ, suc, ◌+◌, ◌≤◌, ◌<◌, ◌^◌, ◌≡◌, refl, ap, ◌∙◌, true, false, List, [], ◌∷◌, map, arith,
  if◌then◌else◌, if_both, Bool-cases, inl, inr, length, length-replicate, Signal, All, ltb, add64,
  replicate, All-map,
}
use ocudu_channel.Runtime.{TapSpec, zero_double}
use ocudu_channel.Iq.{IqSample, narrow, silence}
use ocudu_channel.Delay.{
  filter_taps, literal, sum_from, raw_coeffs, normalise, compute_windowed_sinc_taps, frac_of,
  polyphase_of, max_tau, prepare_tdl_state,
}
use ocudu_channel.Delay.Slots.Reference.{HasFilterTaps}

module _ {F G : Type 0} (sg : Signal F G) where
  -- What is used of `<`, `std::floor` and `std::ceil` on finite numbers.
  pub record RoundsWell : Type 0 where
    pub zero_finite : sg.floats.is_finite (zero_double sg.floats) ≡ true
    pub ceil_zero : sg.ceil_int (zero_double sg.floats) ≡ 0
    pub floor-le-ceil : (v : F) → sg.floats.is_finite v ≡ true → sg.floor_int v ≤ sg.ceil_int v
    pub ceil_mono :
        (a b : F)
        → sg.floats.is_finite a ≡ true
        → sg.floats.is_finite b ≡ true
        → sg.floats.lt a b ≡ true
        → sg.ceil_int a ≤ sg.ceil_int b
    pub floor-le-ceil_of :
        (a b : F)
        → sg.floats.is_finite a ≡ true
        → sg.floats.is_finite b ≡ true
        → sg.floats.lt a b ≡ false
        → sg.floor_int b ≤ sg.ceil_int a

  -- A finite delay below 2 ^ 32.
  abbrev pub Small : F → Type 0
  Small v = (sg.floats.is_finite v ≡ true) × (sg.ceil_int v < 2 ^ 32)

  length-map {ℓ κ} :
      {A : Type ℓ} {B : Type κ} (f : A → B) (xs : List A) → length (map f xs) ≡ length xs
  length-map f [] = refl
  length-map f (x ∷ xs) = ap suc (length-map f xs)

  length-normalise : (sum : F) (coeffs : List F) → length (normalise sg sum coeffs) ≡ length coeffs
  unfolding normalise
  length-normalise sum coeffs =
      if_both (λ (h : List G). length h ≡ length coeffs)
        (sg.floats.lt (literal sg 1 12) (sg.fabs sum))
        (length-map _ (map (narrow sg) coeffs) ∙ length-map (narrow sg) coeffs)
        (length-map (narrow sg) coeffs)

  compute_windowed_sinc_taps-HasFilterTaps :
      (frac : F) → HasFilterTaps sg (compute_windowed_sinc_taps sg frac)
  unfolding compute_windowed_sinc_taps
  compute_windowed_sinc_taps-HasFilterTaps frac =
      length-normalise (sum_from sg (zero_double sg.floats) (raw_coeffs sg frac))
        (raw_coeffs sg frac)

  polyphase_of-HasFilterTaps :
      (taps : List (TapSpec F)) → All (HasFilterTaps sg) (polyphase_of sg taps)
  unfolding polyphase_of
  polyphase_of-HasFilterTaps [] = tt
  polyphase_of-HasFilterTaps (t ∷ ts) = (
    compute_windowed_sinc_taps-HasFilterTaps (frac_of sg t.delay_samples),
    polyphase_of-HasFilterTaps ts,
  )

  -- The largest delay so far bounds those that it was compared with.
  record Largest (m : F) (taps : List (TapSpec F)) (M : F) : Type 0 where
    small : Small M
    grows : sg.ceil_int m ≤ sg.ceil_int M
    bounds : All (λ t. sg.floor_int t.delay_samples ≤ sg.ceil_int M) taps

  max_tau-Largest :
      (laws : RoundsWell) (m : F) (taps : List (TapSpec F))
      → Small m
      → All (λ t. Small t.delay_samples) taps
      → Largest m taps (max_tau sg m taps)
  unfolding max_tau
  max_tau-Largest laws m [] s h = record { small = s; grows = omega arith; bounds = tt }
  max_tau-Largest laws m (t ∷ ts) s h = elim (Bool-cases (sg.floats.lt m t.delay_samples)) [
    | inl more ↦ rw more (
        let rest = max_tau-Largest laws t.delay_samples ts (h.0) (h.1) in
        record {
          small = rest.small;
          grows = omega (arith, rest.grows, laws.ceil_mono m t.delay_samples (s.0) ((h.0).0) more);
          bounds = (
            omega (arith, rest.grows, laws.floor-le-ceil t.delay_samples ((h.0).0)),
            rest.bounds,
          );
        })
    | inr less ↦ rw less (
        let rest = max_tau-Largest laws m ts s (h.1) in
        record {
          small = rest.small;
          grows = rest.grows;
          bounds = (
            omega (arith, rest.grows, laws.floor-le-ceil_of m t.delay_samples (s.0) ((h.0).0) less),
            rest.bounds,
          );
        })
  ]

  remade :
      (line : List (IqSample G)) (size : ℕ)
      → size ≤ length (if ltb (length line) size then replicate size (silence sg) else line)
  remade line size = ground (arith, length-replicate size (silence sg))

  -- Where `<`, floor and ceil are as they are on finite numbers, and each delay is finite and below
  -- 2 ^ 32: a prepared state has a filter of eight coefficients for every tap, and a delay line that
  -- reaches back eight samples further than any tap's whole delay.
  pub prepare_tdl_state_room :
      (taps : List (TapSpec F)) (line : List (IqSample G))
      → RoundsWell
      → All (λ t. Small t.delay_samples) taps
      → All (HasFilterTaps sg) (prepare_tdl_state sg taps line).0
        × All
            (λ t. sg.floor_int t.delay_samples + 8 ≤ length (prepare_tdl_state sg taps line).1)
            taps
  unfolding prepare_tdl_state
  prepare_tdl_state_room taps line laws small =
      let zero_double_small : Small (zero_double sg.floats) =
        (laws.zero_finite, omega (arith, laws.ceil_zero)) in
      let largest = max_tau-Largest laws (zero_double sg.floats) taps zero_double_small small in
      (
        polyphase_of-HasFilterTaps taps,
        All-map
            (λ t bound. omega (
              arith,
              largest.small,
              bound,
              remade line
                  (add64 (sg.ceil_int (max_tau sg (zero_double sg.floats) taps)) filter_taps),
            ))
            taps largest.bounds,
      )
