-- ===== src/Ring/Bounds.antt =====
-- The representation invariant of IqRing, and what each operation does to the counters.
use ocudu_channel.Common.{
  ℕ, ◌+◌, ◌-◌, ◌%◌, ◌^◌, ◌<◌, ◌≤◌, min, max, ◌≡◌, refl, ◌||◌, List, [], ◌∷◌, true, false, arith,
  length, ltb, length-set, length-replicate, word_mod, add64, sub64, dec_le,
}
use native.Mathlib.Nat.{mod-lt}
use ocudu_channel.Ring.{
  IqRing, capacity, earliest_sequence, free_capacity, push_sample, push_samples, push,
  discard_before, reset,
}

-- `small` is what std::vector allows of 8-byte samples; `unwrapped` holds for the 2^64 first samples.
pub record IsValid {ℓ} {A : Type ℓ} (r : IqRing A) : Type 0 where
  pub small : capacity r ≤ 2 ^ 60
  pub start_in : r.start ≤ capacity r
  pub size_in : r.size ≤ capacity r
  pub counted : r.size ≤ r.next_sequence
  pub unwrapped : r.next_sequence < word_mod

module _ {ℓ} {A : Type ℓ} where
  -- On a valid ring no difference wraps.
  pub earliest_sequence_lem :
      {r : IqRing A} → IsValid r → earliest_sequence r ≡ r.next_sequence - r.size
  unfolding earliest_sequence
  earliest_sequence_lem v = omega arith

  pub free_capacity_lem : {r : IqRing A} → IsValid r → free_capacity r ≡ capacity r - r.size
  unfolding free_capacity
  free_capacity_lem v = omega arith

  -- What pushing samples that fit does to the counters.
  pub record Grown (r : IqRing A) (n : ℕ) (r' : IqRing A) : Type 0 where
    pub valid : IsValid r'
    pub capacity_same : capacity r' ≡ capacity r
    pub next_grown : r'.next_sequence ≡ r.next_sequence + n
    pub size_grown : r'.size ≡ r.size + n
    pub start_same : r'.start ≡ r.start

  pub push_sample-Grown :
      {r : IqRing A} (x : A)
      → IsValid r
      → r.size < capacity r
      → r.next_sequence + 1 < word_mod
      → Grown r 1 (push_sample r x)
  unfolding push_sample
  push_sample-Grown {r} x v room unwrapped =
      let same = length-set r.buffer ((r.start + r.size) % word_mod % capacity r) x in
      record {
        valid = omega (arith, same);
        capacity_same = same;
        next_grown = omega arith;
        size_grown = omega arith;
        start_same = refl;
      }

  pub push_samples-Grown :
      (xs : List A) {r : IqRing A}
      → IsValid r
      → r.size + length xs ≤ capacity r
      → r.next_sequence + length xs < word_mod
      → Grown r (length xs) (push_samples r xs)
  unfolding push_samples
  push_samples-Grown [] v room unwrapped = omega arith
  push_samples-Grown (x ∷ xs) v room unwrapped =
      let g = push_sample-Grown x v (omega arith) (omega arith) in
      let h = push_samples-Grown xs g.valid (omega arith) (omega arith) in
      record {
        valid = h.valid;
        capacity_same = omega arith;
        next_grown = omega arith;
        size_grown = omega arith;
        start_same = omega arith;
      }

  -- The test of `push` does not wrap: it refuses exactly what does not fit.
  push-fits_test :
      {r : IqRing A} (n : ℕ)
      → IsValid r
      → r.size + n ≤ capacity r
      → (ltb (capacity r) n || ltb (capacity r) (add64 r.size n)) ≡ false
  push-fits_test n v room = ground arith

  push-full_test :
      {r : IqRing A} (n : ℕ)
      → IsValid r
      → n < 2 ^ 60
      → capacity r < r.size + n
      → (ltb (capacity r) n || ltb (capacity r) (add64 r.size n)) ≡ true
  push-full_test n v small full = ground arith

  pub push-fits :
      (xs : List A) {r : IqRing A}
      → IsValid r
      → r.size + length xs ≤ capacity r
      → push r xs ≡ (true, push_samples r xs)
  unfolding push push_samples
  push-fits [] v room = refl
  push-fits (x ∷ xs) v room = rw (push-fits_test (length (x ∷ xs)) v room)

  pub push-full :
      (xs : List A) {r : IqRing A}
      → IsValid r
      → length xs < 2 ^ 60
      → capacity r < r.size + length xs
      → push r xs ≡ (false, r)
  unfolding push
  push-full [] v small full = absurd (omega arith)
  push-full (x ∷ xs) v small full = rw (push-full_test (length (x ∷ xs)) v small full)

  -- `push` of fewer than 2 ^ 60 samples keeps the ring's invariant, whether or not it takes them, as
  -- long as the sequence counter does not wrap.
  pub push-IsValid :
      (xs : List A) {r : IqRing A}
      → IsValid r
      → length xs < 2 ^ 60
      → r.next_sequence + length xs < word_mod
      → IsValid (push r xs).1
  push-IsValid xs {r} v small unwrapped = elim (dec_le (r.size + length xs) (capacity r)) [
    | yes room ↦ rw (push-fits xs v room) (push_samples-Grown xs v room unwrapped).valid
    | no full ↦ rw (push-full xs v small (omega arith)) v
  ]

  -- What `discard_before` does to the counters: the earliest sequence moves up to the given one,
  -- but never down and never past the end.
  pub record Trimmed (r : IqRing A) (sequence : ℕ) (r' : IqRing A) : Type 0 where
    pub valid : IsValid r'
    pub capacity_same : capacity r' ≡ capacity r
    pub next_same : r'.next_sequence ≡ r.next_sequence
    pub earliest_moved :
        r'.next_sequence - r'.size ≡ max (r.next_sequence - r.size) (min sequence r.next_sequence)

  pub discard_before-Trimmed :
      {r : IqRing A} (sequence : ℕ) → IsValid r → Trimmed r sequence (discard_before r sequence)
  unfolding discard_before earliest_sequence
  discard_before-Trimmed {r} sequence v = ground (
    arith,
    mod-lt (add64 r.start (sub64 sequence (sub64 r.next_sequence r.size))) {m = capacity r},
  )

  pub reset-IsValid :
      (blank : A) (n : ℕ) → n ≤ 2 ^ 60 → IsValid (reset blank n) × (capacity (reset blank n) ≡ n)
  unfolding reset
  reset-IsValid blank n h = omega (arith, length-replicate n blank)
