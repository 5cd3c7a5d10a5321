-- ===== src/Ring.antt =====
-- IqRing of src/ring.cpp and include/ocudu_gpu_channel/ring.h: a bounded ring of IQ samples that
-- are numbered by a 64-bit sequence counter. Samples are only moved here, so they have any type.
-- `size_t` and `uint64_t` sums keep their wrap-around.
pub mod Window
pub mod Bounds
pub mod Stream
pub mod Discard
pub mod Log
mod Examples
use ocudu_channel.Common.{
  ℕ, zero, suc, ◌+◌, ◌-◌, ◌%◌, Bool, true, false, ◌||◌, Option, none, some, List, [], ◌∷◌, ltb, leb,
  ◌==◌, if◌then◌else◌, length, get_or, set, replicate, add64, sub64,
}

pub record IqRing {ℓ} (A : Type ℓ) : Type ℓ where
  pub buffer : List A
  pub next_sequence : ℕ
  pub start : ℕ
  pub size : ℕ

module _ {ℓ} {A : Type ℓ} where
  abbrev pub capacity : IqRing A → ℕ
  capacity r = length r.buffer

  unfoldable pub free_capacity : IqRing A → ℕ
  free_capacity r = sub64 (capacity r) r.size

  unfoldable pub earliest_sequence : IqRing A → ℕ
  earliest_sequence r = sub64 r.next_sequence r.size

  -- The body of the loop of `push`.
  pub push_sample : IqRing A → A → IqRing A
  push_sample r sample = record r {
    buffer = set r.buffer (add64 r.start r.size % capacity r) sample;
    next_sequence = add64 r.next_sequence 1;
    size = add64 r.size 1;
  }

  pub push_samples : IqRing A → List A → IqRing A
  unfolding push_sample
  push_samples r [] = r
  push_samples r (sample ∷ samples) = push_samples (push_sample r sample) samples

  unfoldable pub push : IqRing A → List A → Bool × IqRing A
  unfolding push_samples push_sample
  push r [] = (true, r)
  push r (x ∷ xs) =
      if ltb (capacity r) (length (x ∷ xs)) || ltb (capacity r) (add64 r.size (length (x ∷ xs)))
      then (false, r)
      else (true, push_samples r (x ∷ xs))

  unfoldable pub discard_before : IqRing A → ℕ → IqRing A
  unfolding earliest_sequence
  discard_before r sequence =
      if leb sequence (earliest_sequence r) || r.size == 0
      then r
      else if leb r.next_sequence sequence
      then record r { start = 0; size = 0 }
      else record r {
        start = add64 r.start (sub64 sequence (earliest_sequence r)) % capacity r;
        size = sub64 r.size (sub64 sequence (earliest_sequence r));
      }

-- `blank` is the value-initialised sample `{}`.
module _ {ℓ} {A : Type ℓ} (blank : A) where
  unfoldable pub reset : ℕ → IqRing A
  reset capacity_samples = record {
    buffer = replicate capacity_samples blank;
    next_sequence = 0;
    start = 0;
    size = 0;
  }

  -- The loop of `read`, from index `i` on, with `n` samples still to copy.
  pub read_samples : IqRing A → ℕ → ℕ → ℕ → List A
  read_samples r offset i zero = []
  read_samples r offset i (suc n) =
      get_or r.buffer (add64 (add64 r.start offset) i % capacity r) blank
      ∷ read_samples r offset (add64 i 1) n

  -- `count` is `out.size()`; `none` is the result false, which leaves `out` as it was.
  unfoldable pub read : IqRing A → ℕ → ℕ → Option (List A)
  unfolding read_samples earliest_sequence
  read r sequence count =
      if count == 0
      then some []
      else if ltb sequence (earliest_sequence r)
          || ltb r.next_sequence (add64 sequence count)
          || capacity r == 0
      then none
      else some (read_samples r (sub64 sequence (earliest_sequence r)) 0 count)
