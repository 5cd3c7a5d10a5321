-- ===== src/Ring/Stream.antt =====
-- IqRing against its contract: the stream of all samples ever pushed, of which the ring still holds
-- a suffix. A sequence number is a position in that stream.
use native.Mathlib.Nat.{add-zero}
use ocudu_channel.Common.{
  ℕ, zero, suc, ◌+◌, ◌-◌, ◌%◌, ◌<◌, ◌≤◌, ◌≡◌, refl, sym, ap, ◌∙◌, List, [], ◌∷◌, ◌++◌, none, some,
  true, false, arith, length, get_or, set, take, drop, drop-append_le, drop-drop, length-append,
  append_assoc, append-nil, word_mod, add64, sub64, add64_small, length-set, ap₂, ◌≡⟨◌⟩◌, ◌∎, ◌==◌,
  ◌||◌, ltb, ◌⊎◌,
}
use ocudu_channel.Ring.{
  IqRing, capacity, earliest_sequence, push_sample, push_samples, push, read_samples, read,
}
use ocudu_channel.Ring.Window.{window, window-eq, window-set, drop-window, take-window}
use ocudu_channel.Ring.Bounds.{IsValid, earliest_sequence_lem, Grown, push_sample-Grown, push-fits}

module _ {ℓ} {A : Type ℓ} (blank : A) where
  -- The samples in the ring, oldest first.
  abbrev pub contents : IqRing A → List A
  contents r = window blank (capacity r) r.buffer r.start r.size

  pub record Holds (r : IqRing A) (stream : List A) : Type ℓ where
    pub counted : r.next_sequence ≡ length stream
    pub held : contents r ≡ drop (r.next_sequence - r.size) stream

  push_sample-held :
      {r : IqRing A} (x : A) (stream : List A)
      → IsValid r
      → r.size < capacity r
      → r.next_sequence + 1 < word_mod
      → Holds r stream
      → contents (push_sample r x) ≡ drop (r.next_sequence - r.size) (stream ++ x ∷ [])
  unfolding push_sample
  push_sample-held {r} x stream v room unwrapped h =
      window blank (length grown) grown r.start (add64 r.size 1)
      ≡⟨ ap (λ c. window blank c grown r.start (add64 r.size 1)) (length-set r.buffer slot x) ⟩
        window blank (capacity r) grown r.start (add64 r.size 1)
      ≡⟨ window-eq blank (capacity r) grown refl more ⟩
        window blank (capacity r) grown r.start (suc r.size)
      ≡⟨ window-set blank (capacity r) r.buffer x r.start r.size slot refl room at ⟩
        contents r ++ x ∷ []
      ≡⟨ ap (λ c. c ++ x ∷ []) h.held ⟩ drop (r.next_sequence - r.size) stream ++ x ∷ []
      ≡⟨ sym
          (drop-append_le (r.next_sequence - r.size) stream (x ∷ []) (omega (arith, h.counted))) ⟩
        drop (r.next_sequence - r.size) (stream ++ x ∷ []) ∎
    where
      slot : ℕ
      slot = add64 r.start r.size % capacity r

      grown : List A
      grown = set r.buffer slot x

      more : add64 r.size 1 ≡ suc r.size
      more = omega arith

      at : slot ≡ (r.start + r.size) % capacity r
      at = ap (λ k. k % capacity r) (add64_small r.start r.size (omega arith))

  push_sample-Holds :
      {r : IqRing A} (x : A) (stream : List A)
      → IsValid r
      → r.size < capacity r
      → r.next_sequence + 1 < word_mod
      → Holds r stream
      → Holds (push_sample r x) (stream ++ x ∷ [])
  push_sample-Holds {r} x stream v room unwrapped h = record {
    counted = omega (arith, g.next_grown, h.counted, length-append stream (x ∷ []));
    held =
        push_sample-held x stream v room unwrapped h ∙ ap (λ k. drop k (stream ++ x ∷ [])) oldest;
  }
    where
      g : Grown r 1 (push_sample r x)
      g = push_sample-Grown x v room unwrapped

      oldest : r.next_sequence - r.size ≡ (push_sample r x).next_sequence - (push_sample r x).size
      oldest = omega (arith, g.next_grown, g.size_grown)

  pub push_samples-Holds :
      (xs : List A) {r : IqRing A} (stream : List A)
      → IsValid r
      → r.size + length xs ≤ capacity r
      → r.next_sequence + length xs < word_mod
      → Holds r stream
      → Holds (push_samples r xs) (stream ++ xs)
  unfolding push_samples
  push_samples-Holds [] stream v room unwrapped h = rw append-nil h
  push_samples-Holds (x ∷ xs) stream v room unwrapped h =
      let g = push_sample-Grown x v (omega arith) (omega arith) in
      rw (← append_assoc stream (x ∷ []) xs) (
        push_samples-Holds xs (stream ++ x ∷ []) g.valid (omega arith) (omega arith)
          (push_sample-Holds x stream v (omega arith) (omega arith) h))

  -- A push that fits appends its samples to the stream and reports success.
  pub push-stream :
      (xs : List A) {r : IqRing A} (stream : List A)
      → IsValid r
      → Holds r stream
      → r.size + length xs ≤ capacity r
      → length stream + length xs < word_mod
      → ((push r xs).0 ≡ true) × Holds (push r xs).1 (stream ++ xs)
  push-stream xs stream v h room unwrapped =
      rw (push-fits xs v room)
        (refl, push_samples-Holds xs stream v room (omega (arith, h.counted)) h)

  read_samples-window :
      (r : IqRing A) (offset i n : ℕ)
      → r.start + offset + i + n < word_mod
      → read_samples blank r offset i n
        ≡ window blank (capacity r) r.buffer (r.start + offset + i) n
  unfolding read_samples
  read_samples-window r offset i zero small = refl
  read_samples-window r offset i (suc n) small =
      ap₂ ◌∷◌ (ap (λ k. get_or r.buffer (k % capacity r) blank) here) (
        ap (λ k. read_samples blank r offset k n) onward
        ∙ read_samples-window r offset (i + 1) n (omega arith)
        ∙ window-eq blank (capacity r) r.buffer {m = n} regroup refl)
    where
      here : add64 (add64 r.start offset) i ≡ r.start + offset + i
      here = omega arith

      onward : add64 i 1 ≡ i + 1
      onward = omega arith

      regroup : r.start + offset + (i + 1) ≡ r.start + offset + i + 1
      regroup = omega arith

  -- The samples of a valid ring from `offset` on are a piece of the stream.
  read_samples-stream :
      {r : IqRing A} (stream : List A) (offset n : ℕ)
      → IsValid r
      → Holds r stream
      → offset + n ≤ r.size
      → read_samples blank r offset 0 n ≡ take n (drop (r.next_sequence - r.size + offset) stream)
  read_samples-stream {r} stream offset n v h inside =
      read_samples-window r offset 0 n (omega arith)
      ∙ window-eq blank slots r.buffer {m = n} (add-zero (r.start + offset)) refl
      ∙ sym (take-window blank slots r.buffer (r.start + offset) n (r.size - offset) (omega arith))
      ∙ ap (take n) (
          sym (drop-window blank slots r.buffer r.start offset r.size)
          ∙ ap (drop offset) h.held
          ∙ drop-drop offset (r.next_sequence - r.size) stream)
    where
      slots : ℕ
      slots = capacity r

  read-inside_test :
      {r : IqRing A} (sequence n : ℕ)
      → IsValid r
      → 0 < n
      → r.next_sequence - r.size ≤ sequence
      → sequence + n ≤ r.next_sequence
      → (ltb sequence (earliest_sequence r)
          || ltb r.next_sequence (add64 sequence n)
          || capacity r == 0)
        ≡ false
  read-inside_test sequence n v some_asked from to = ground (arith, earliest_sequence_lem v)

  read-outside_test :
      {r : IqRing A} (sequence n : ℕ)
      → IsValid r
      → sequence + n < word_mod
      → (sequence < r.next_sequence - r.size) ⊎ (r.next_sequence < sequence + n)
      → (ltb sequence (earliest_sequence r)
          || ltb r.next_sequence (add64 sequence n)
          || capacity r == 0)
        ≡ true
  read-outside_test sequence n v small out = ground (arith, earliest_sequence_lem v)

  -- In a valid ring that holds a suffix of a stream, a nonempty span between the earliest retained
  -- sample and the end of the stream is read as the stream's samples under those sequence numbers.
  pub read-inside :
      {r : IqRing A} (stream : List A) (sequence n : ℕ)
      → IsValid r
      → Holds r stream
      → 0 < n
      → r.next_sequence - r.size ≤ sequence
      → sequence + n ≤ length stream
      → read blank r sequence n ≡ some (take n (drop sequence stream))
  unfolding read
  read-inside {r} stream sequence n v h some_asked from to =
      rw (asked, read-inside_test sequence n v some_asked from (omega (arith, h.counted)), at)
        (ap some (
          read_samples-stream stream (sequence - (r.next_sequence - r.size)) n v h
            (omega (arith, h.counted))
          ∙ ap (λ k. take n (drop k stream)) back))
    where
      asked : (n == 0) ≡ false
      asked = ground arith

      at : sub64 sequence (earliest_sequence r) ≡ sequence - (r.next_sequence - r.size)
      at = omega (arith, earliest_sequence_lem v, h.counted)

      back : r.next_sequence - r.size + (sequence - (r.next_sequence - r.size)) ≡ sequence
      back = omega arith

  -- A span that reaches outside the ring is refused.
  pub read-outside :
      {r : IqRing A} (sequence n : ℕ)
      → IsValid r
      → 0 < n
      → sequence + n < word_mod
      → (sequence < r.next_sequence - r.size) ⊎ (r.next_sequence < sequence + n)
      → read blank r sequence n ≡ none
  unfolding read
  read-outside {r} sequence n v some_asked small out =
      rw (asked, read-outside_test sequence n v small out)
    where
      asked : (n == 0) ≡ false
      asked = ground arith
