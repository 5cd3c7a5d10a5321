-- ===== src/Ring/Window.antt =====
-- The samples that a ring holds, oldest first, as a walk round its buffer.
use native.Mathlib.Nat.{mod-add-mod, mod-eq_of_lt, mod-eq-sub-mod, mod-lt, mod-mod, add-zero}
use ocudu_channel.Common.{
  ℕ, zero, suc, ◌+◌, ◌-◌, ◌%◌, ◌<◌, ◌≤◌, ◌≡◌, refl, sym, ap, ap₂, ◌∙◌, ◌≢◌, List, [], ◌∷◌, ◌++◌,
  arith, length, get_or, set, drop, take, get_or-set_self, get_or-set_ne, dec_lt,
}

-- Fewer than `slots` steps round the ring do not come back to where they began.
mod-ne : (slots s d : ℕ) → 0 < d → d < slots → (s + d) % slots ≢ s % slots
mod-ne slots s d pos small e = elim (dec_lt (s % slots + d) slots) [
  | yes p ↦ absurd (omega (arith, folded, mod-eq_of_lt p))
  | no p ↦ absurd (
      omega (
        arith,
        folded,
        mod-lt s {m = slots} (omega arith),
        mod-eq-sub-mod {n = s % slots + d} {m = slots} (omega arith),
        mod-eq_of_lt {n = s % slots + d - slots} {m = slots}
            (omega (arith, mod-lt s {m = slots} (omega arith))),
      ))
]
  where
    folded : (s % slots + d) % slots ≡ s % slots
    folded = mod-add-mod s slots d ∙ e

module _ {ℓ} {A : Type ℓ} (blank : A) (slots : ℕ) where
  -- The `n` samples from position `s` on; positions are reduced by the number of slots.
  abbrev pub window : List A → ℕ → ℕ → List A
  window buffer s zero = []
  window buffer s (suc n) = get_or buffer (s % slots) blank ∷ window buffer (s + 1) n

  pub length-window : (buffer : List A) (s n : ℕ) → length (window buffer s n) ≡ n
  length-window buffer s zero = refl
  length-window buffer s (suc n) = ap suc (length-window buffer (s + 1) n)

  window-cong :
      (buffer : List A) (s t n : ℕ) → s % slots ≡ t % slots → window buffer s n ≡ window buffer t n
  window-cong buffer s t zero e = refl
  window-cong buffer s t (suc n) e =
      ap₂ ◌∷◌ (ap (λ k. get_or buffer k blank) e) (window-cong buffer (s + 1) (t + 1) n stepped)
    where
      stepped : (s + 1) % slots ≡ (t + 1) % slots
      stepped = sym (mod-add-mod s slots 1) ∙ ap (λ k. (k + 1) % slots) e ∙ mod-add-mod t slots 1

  pub window-mod : (buffer : List A) (s n : ℕ) → window buffer (s % slots) n ≡ window buffer s n
  window-mod buffer s n = window-cong buffer (s % slots) s n (mod-mod s slots)

  -- Two spellings of one window.
  pub window-eq :
      (buffer : List A) {s t m n : ℕ} → s ≡ t → m ≡ n → window buffer s m ≡ window buffer t n
  window-eq buffer e h = ap₂ (window buffer) e h

  pub drop-window :
      (buffer : List A) (s d n : ℕ) → drop d (window buffer s n) ≡ window buffer (s + d) (n - d)
  drop-window buffer s zero n =
      window-eq buffer {s = s} {t = s + 0} {m = n} {n = n - 0} (omega arith) (omega arith)
  drop-window buffer s (suc d) zero = sym (ap (window buffer (s + suc d)) none_left)
    where
      none_left : 0 - suc d ≡ 0
      none_left = omega arith
  drop-window buffer s (suc d) (suc n) =
      drop-window buffer (s + 1) d n
      ∙ window-eq buffer {s = s + 1 + d} {t = s + suc d} {m = n - d} {n = suc n - suc d}
          (omega arith) (omega arith)

  pub take-window :
      (buffer : List A) (s n m : ℕ) → n ≤ m → take n (window buffer s m) ≡ window buffer s n
  take-window buffer s zero m h = refl
  take-window buffer s (suc n) zero h = absurd (omega arith)
  take-window buffer s (suc n) (suc m) h =
      ap (◌∷◌ (get_or buffer (s % slots) blank)) (take-window buffer (s + 1) n m (omega arith))

  -- Writing the sample behind a window extends the window by that sample.
  pub window-set :
      (buffer : List A) (x : A) (s n i : ℕ)
      → length buffer ≡ slots
      → n < slots
      → i ≡ (s + n) % slots
      → window (set buffer i x) s (suc n) ≡ window buffer s n ++ x ∷ []
  window-set buffer x s zero i len h e =
      ap (λ k. k ∷ [])
        (rw (← here)
          (get_or-set_self buffer i x blank (omega (arith, mod-lt (s + 0) {m = slots} h))))
    where
      here : i ≡ s % slots
      here = e ∙ ap (λ k. k % slots) (add-zero s)
  window-set buffer x s (suc n) i len h e =
      ap₂ ◌∷◌
        (get_or-set_ne buffer i (s % slots) x blank
          (λ same. mod-ne slots s (suc n) (omega arith) h (sym e ∙ same)))
        (window-set buffer x (s + 1) n i len (omega arith) (e ∙ ap (λ k. k % slots) shifted))
    where
      shifted : s + suc n ≡ s + 1 + n
      shifted = omega arith
