-- ===== src/Delay/Slots.antt =====
-- Lemmas on a `tdl` step over a stream that is cut into slots, `apply_tdl_step` of
-- include/ocudu_gpu_channel/delay.h.
pub mod Reference
pub mod Stream
use ocudu_channel.Common.{
  ℕ, zero, suc, false, ◌+◌, ◌-◌, ◌≤◌, ◌<◌, ◌≡◌, refl, sym, ap, ap₂, ◌∙◌, List, [], ◌∷◌, ◌++◌, map,
  arith, length, get_or, drop, length-append, length-drop, drop-append_le, drop_all, Signal, All,
  leb, append_assoc, append-nil, if◌then◌else◌, Bool-cases, inl, inr, ltb,
}
use ocudu_channel.Runtime.{TapSpec}
use ocudu_channel.Iq.{IqSample, silence, add_sample}
use ocudu_channel.Delay.{
  filter_taps, read_sample, weighted, convolve, sum_taps, outputs, roll, apply_tdl_step,
}

module _ {ℓ} {A : Type ℓ} where
  pub get_or-append_left :
      (xs ys : List A) (i : ℕ) (d : A) → i < length xs → get_or (xs ++ ys) i d ≡ get_or xs i d
  get_or-append_left [] ys i d h = absurd (omega arith)
  get_or-append_left (x ∷ xs) ys zero d h = refl
  get_or-append_left (x ∷ xs) ys (suc i) d h = get_or-append_left xs ys i d (omega arith)

  pub get_or-append_right :
      (xs ys : List A) (i j : ℕ) (d : A) → i ≡ length xs + j → get_or (xs ++ ys) i d ≡ get_or ys j d
  get_or-append_right [] ys i j d h = ap (λ k. get_or ys k d) (omega arith)
  get_or-append_right (x ∷ xs) ys zero j d h = absurd (omega arith)
  get_or-append_right (x ∷ xs) ys (suc i) j d h = get_or-append_right xs ys i j d (omega arith)

  pub get_or-drop :
      (n : ℕ) (xs : List A) (i j : ℕ) (d : A) → j ≡ n + i → get_or (drop n xs) i d ≡ get_or xs j d
  get_or-drop zero xs i j d h = ap (λ k. get_or xs k d) (omega arith)
  get_or-drop (suc n) [] i j d h = refl
  get_or-drop (suc n) (x ∷ xs) i zero d h = absurd (omega arith)
  get_or-drop (suc n) (x ∷ xs) i (suc j) d h = get_or-drop n xs i j d (omega arith)

  pub drop-append_ge :
      (n : ℕ) (xs ys : List A) → length xs ≤ n → drop n (xs ++ ys) ≡ drop (n - length xs) ys
  drop-append_ge n [] ys h = ap (λ k. drop k ys) (omega arith)
  drop-append_ge zero (x ∷ xs) ys h = absurd (omega arith)
  drop-append_ge (suc n) (x ∷ xs) ys h =
      drop-append_ge n xs ys (omega arith) ∙ ap (λ k. drop k ys) fewer
    where
      fewer : n - length xs ≡ suc n - length (x ∷ xs)
      fewer = omega arith

module _ {F G : Type 0} (sg : Signal F G) where
  -- The delay line after a slot is the end of what came before and the slot.
  pub roll-drop :
      (input line : List (IqSample G)) → roll sg input line ≡ drop (length input) (line ++ input)
  unfolding roll
  roll-drop input line = elim (Bool-cases (leb (length line) (length input))) [
    | inl long ↦ rw long (sym (drop-append_ge (length input) line input (ground arith)))
    | inr short ↦ rw short (sym (drop-append_le (length input) line input (ground arith)))
  ]

  pub length-roll : (input line : List (IqSample G)) → length (roll sg input line) ≡ length line
  length-roll input line =
      ap length (roll-drop input line)
      ∙ omega (arith, length-drop (length input) (line ++ input), length-append line input)

  -- A read that is not ahead of the slot, nor before the delay line, is a read of both in a row.
  pub read_sample-append :
      (input line : List (IqSample G)) (ahead behind at : ℕ)
      → ahead < length input + behind
      → at + behind ≡ length line + ahead
      → read_sample sg input line ahead behind ≡ get_or (line ++ input) at (silence sg)
  unfolding read_sample
  read_sample-append input line ahead behind at inside place =
      elim (Bool-cases (leb behind ahead)) [
        | inl now ↦
            let here : leb (length input) (ahead - behind) ≡ false = ground arith in
            rw (now, here)
              (sym (get_or-append_right line input at (ahead - behind) (silence sg) (ground arith)))
        | inr past ↦
            let kept : ltb (length line) (behind - ahead) ≡ false = ground arith in
            let same : length line - (behind - ahead) ≡ at = ground arith in
            rw (past, kept, same)
              (sym (get_or-append_left line input at (silence sg) (ground arith)))
      ]

  read_sample_lost :
      (input line : List (IqSample G)) (ahead behind : ℕ)
      → length line + ahead < behind
      → read_sample sg input line ahead behind ≡ silence sg
  unfolding read_sample
  read_sample_lost input line ahead behind far = ground arith

  -- A tap whose delay reaches back beyond the delay line at some output gives a value there that
  -- depends on no sample, neither of the slot nor of the delay line.
  pub convolve_lost :
      (input line input' line' : List (IqSample G)) (n : ℕ) (h : List G) (behind : ℕ)
      (x : IqSample G)
      → length line + n + 3 < behind
      → length line' + n + 3 < behind
      → convolve sg input line (n + 3) h behind x ≡ convolve sg input' line' (n + 3) h behind x
  unfolding convolve
  convolve_lost input line input' line' n [] behind x far far' = refl
  convolve_lost input line input' line' n (c ∷ h) behind x far far' =
      ap (λ s. convolve sg input line (n + 3) h (behind + 1) (add_sample sg x (weighted sg c s)))
        (read_sample_lost input line (n + 3) behind (omega arith)
          ∙ sym (read_sample_lost input' line' (n + 3) behind (omega arith)))
      ∙ convolve_lost input line input' line' n h (behind + 1) _ (omega arith) (omega arith)
