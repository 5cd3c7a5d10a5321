-- ===== src/Ring/Discard.antt =====
-- `discard_before` of IqRing against the stream of all samples pushed.
use ocudu_channel.Common.{
  ℕ, ◌+◌, ◌-◌, ◌%◌, ◌≤◌, max, min, ◌≡◌, sym, ap, ◌∙◌, List, true, false, arith, length, drop,
  drop-drop, drop_all, add64, sub64, ◌==◌, ◌||◌, leb, Bool-cases, inl, inr,
}
use ocudu_channel.Ring.{IqRing, capacity, earliest_sequence, discard_before}
use ocudu_channel.Ring.Window.{window, window-mod, drop-window}
use ocudu_channel.Ring.Bounds.{IsValid, earliest_sequence_lem, Trimmed, discard_before-Trimmed}
use ocudu_channel.Ring.Stream.{contents, Holds}

module _ {ℓ} {A : Type ℓ} (blank : A) where
  -- Discarding takes samples off the front and leaves the stream as it is.
  discard_before-held :
      {r : IqRing A} (stream : List A) (sequence : ℕ)
      → IsValid r
      → Holds blank r stream
      → contents blank (discard_before r sequence)
        ≡ drop (max (r.next_sequence - r.size) (min sequence r.next_sequence)) stream
  unfolding discard_before
  discard_before-held {r} stream sequence v h =
      elim (Bool-cases (leb sequence (earliest_sequence r) || r.size == 0)) [
        | inl keep ↦ rw keep (h.held ∙ ap (λ k. drop k stream) (kept keep))
        | inr move ↦ elim (Bool-cases (leb r.next_sequence sequence)) [
          | inl clear ↦ rw (move, clear) (sym (drop_all _ stream (cleared clear)))
          | inr part ↦ rw (move, part) (trimmed move part)
        ]
      ]
    where
      first : ℕ
      first = r.next_sequence - r.size

      last : ℕ
      last = max first (min sequence r.next_sequence)

      slots : ℕ
      slots = capacity r

      kept : (leb sequence (earliest_sequence r) || r.size == 0) ≡ true → first ≡ last
      kept e = ground (arith, earliest_sequence_lem v)

      cleared : leb r.next_sequence sequence ≡ true → length stream ≤ last
      cleared e = ground (arith, h.counted)

      trimmed :
          (leb sequence (earliest_sequence r) || r.size == 0) ≡ false
          → leb r.next_sequence sequence ≡ false
          → window blank slots r.buffer
              (add64 r.start (sub64 sequence (earliest_sequence r)) % slots)
              (sub64 r.size (sub64 sequence (earliest_sequence r)))
            ≡ drop last stream
      trimmed move part =
          let gone : sub64 sequence (earliest_sequence r) ≡ last - first =
            ground (arith, earliest_sequence_lem v, h.counted) in
          let count : sub64 r.size (last - first) ≡ r.size - (last - first) = omega arith in
          let place : add64 r.start (last - first) ≡ r.start + (last - first) = omega arith in
          let onward : first + (last - first) ≡ last = omega arith in
          rw (gone, count, place)
            (window-mod blank slots r.buffer (r.start + (last - first)) (r.size - (last - first))
              ∙ sym (drop-window blank slots r.buffer r.start (last - first) r.size)
              ∙ ap (drop (last - first)) h.held
              ∙ drop-drop (last - first) first stream
              ∙ ap (λ k. drop k stream) onward)

  -- It still holds a suffix of the same stream.
  pub discard_before-Holds :
      {r : IqRing A} (stream : List A) (sequence : ℕ)
      → IsValid r
      → Holds blank r stream
      → Holds blank (discard_before r sequence) stream
  discard_before-Holds {r} stream sequence v h = record {
    counted = omega (arith, t.next_same, h.counted);
    held = discard_before-held stream sequence v h ∙ ap (λ k. drop k stream) (sym t.earliest_moved);
  }
    where
      t : Trimmed r sequence (discard_before r sequence)
      t = discard_before-Trimmed sequence v

  -- A valid ring that holds a suffix of a stream retains, after `discard_before`, exactly the stream's
  -- samples from the given sequence number on, none if that is past the end, and none that it had
  -- discarded before; and its next sequence number stays.
  pub discard_before-stream :
      {r : IqRing A} (stream : List A) (sequence : ℕ)
      → IsValid r
      → Holds blank r stream
      → (contents blank (discard_before r sequence)
          ≡ drop (max (r.next_sequence - r.size) (min sequence (length stream))) stream)
        × ((discard_before r sequence).size
            ≡ length stream - max (r.next_sequence - r.size) (min sequence (length stream)))
        × ((discard_before r sequence).next_sequence ≡ r.next_sequence)
  discard_before-stream {r} stream sequence v h =
      let t = discard_before-Trimmed sequence v in
      (
        discard_before-held stream sequence v h
            ∙ ap (λ n. drop (max (r.next_sequence - r.size) (min sequence n)) stream) h.counted,
        omega (arith, t.earliest_moved, t.next_same, h.counted, t.valid.counted),
        t.next_same,
      )
