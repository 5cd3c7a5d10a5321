-- ===== src/Broker/Puller/Release.antt =====
-- Lemmas on the locked section of the puller in which it releases samples.
use ocudu_channel.Common.{
  ℕ, zero, suc, ◌+◌, ◌-◌, ◌<◌, ◌≤◌, ◌≡◌, refl, ◌⊎◌, inl, inr, true, false, List, [], ◌∷◌, arith,
  Bool-cases, ◌==◌, indices,
}
use ocudu_channel.Ring.{IqRing, capacity, earliest_sequence, discard_before}
use ocudu_channel.Ring.Bounds.{IsValid, earliest_sequence_lem, discard_before-Trimmed}
use ocudu_channel.Ring.Stream.{Holds}
use ocudu_channel.Ring.Discard.{discard_before-Holds}
use ocudu_channel.Broker.State.{Wiring, Link}
use ocudu_channel.Broker.Puller.{Scanned, scan_link, scan, scan_all, release_by, release}

module _ (w : Wiring) (links : ℕ → Link) (d e : ℕ) where
  scan_link-le :
      (acc : Scanned) (i j : ℕ)
      → acc.min_cursor ≤ (links i).cursor
      → e ≤ (links i).cursor
      → (scan_link w links d e acc j).min_cursor ≤ (links i).cursor
  unfolding scan_link
  scan_link-le acc i j h k = ground arith

  scan-le :
      (is : List ℕ) (acc : Scanned) (i : ℕ)
      → acc.min_cursor ≤ (links i).cursor
      → e ≤ (links i).cursor
      → (scan w links d e acc is).min_cursor ≤ (links i).cursor
  unfolding scan
  scan-le [] acc i h k = h
  scan-le (j ∷ is) acc i h k =
      scan-le is (scan_link w links d e acc j) i (scan_link-le acc i j h k) k

  scan_link_self :
      (acc : Scanned) (i : ℕ)
      → w.src_index i ≡ d
      → e ≤ (links i).cursor
      → ((scan_link w links d e acc i).min_cursor ≤ (links i).cursor)
        × ((scan_link w links d e acc i).has_outgoing ≡ true)
  unfolding scan_link
  scan_link_self acc i h k = ground arith

  scan-has_outgoing :
      (is : List ℕ) (acc : Scanned)
      → acc.has_outgoing ≡ true
      → (scan w links d e acc is).has_outgoing ≡ true
  unfolding scan scan_link
  scan-has_outgoing [] acc h = h
  scan-has_outgoing (j ∷ is) acc h =
      scan-has_outgoing is (scan_link w links d e acc j) (ground arith)

  -- Every link of the device is seen, and bounds the minimum.
  scan_sees :
      (n from : ℕ) (acc : Scanned) (i : ℕ)
      → w.src_index i ≡ d
      → e ≤ (links i).cursor
      → from ≤ i
      → i < from + n
      → ((scan w links d e acc (indices from n)).min_cursor ≤ (links i).cursor)
        × ((scan w links d e acc (indices from n)).has_outgoing ≡ true)
  unfolding scan
  scan_sees zero from acc i h k lo hi = absurd (omega arith)
  scan_sees (suc n) from acc i h k lo hi = elim (Bool-cases (from == i)) [
    | inl same ↦
        let at : from ≡ i = ground arith in
        let seen = scan_link_self acc i h k in
        rw at (
          scan-le (indices (i + 1) n) (scan_link w links d e acc i) i seen.0 k,
          scan-has_outgoing (indices (i + 1) n) (scan_link w links d e acc i) seen.1,
        )
    | inr other ↦
        scan_sees n (from + 1) (scan_link w links d e acc from) i h k (ground arith) (omega arith)
  ]

-- A link's cursor lies in what its source's ring holds; before its first serve it is 0, and then so
-- is the earliest sample.
pub record LinkOk {ℓ} {A : Type ℓ} (r : IqRing A) (l : Link) : Type 0 where
  pub lower : r.next_sequence - r.size ≤ l.cursor
  pub upper : l.cursor ≤ r.next_sequence
  pub fresh : (l.cursor_init ≡ true) ⊎ (l.cursor ≡ 0)

-- What the section does to the ring.
pub record Released {ℓ} {A : Type ℓ} (blank : A) (stream : List A) (r r' : IqRing A) : Type ℓ where
  pub valid : IsValid r'
  pub holds : Holds blank r' stream
  pub next_same : r'.next_sequence ≡ r.next_sequence
  pub capacity_same : capacity r' ≡ capacity r

module _ {ℓ} {A : Type ℓ} (blank : A) where
  discard_before-Released :
      {r : IqRing A} (stream : List A) (sequence : ℕ)
      → IsValid r
      → Holds blank r stream
      → Released blank stream r (discard_before r sequence)
  discard_before-Released stream sequence v h =
      let t = discard_before-Trimmed sequence v in
      record {
        valid = t.valid;
        holds = discard_before-Holds blank stream sequence v h;
        next_same = t.next_same;
        capacity_same = t.capacity_same;
      }

  release_by-Released :
      (found : Scanned) {r : IqRing A} (stream : List A)
      → IsValid r
      → Holds blank r stream
      → Released blank stream r (release_by found r)
  unfolding release_by
  release_by-Released found {r} stream v h = elim (Bool-cases found.has_outgoing) [
    | inr unread ↦ rw unread (discard_before-Released stream r.next_sequence v h)
    | inl read ↦ elim (Bool-cases found.has_consumer) [
      | inl begun ↦ rw (read, begun) (discard_before-Released stream found.min_cursor v h)
      | inr waiting ↦
          rw (read, waiting)
            (record { valid = v; holds = h; next_same = refl; capacity_same = refl })
    ]
  ]

  -- What a link has not read stays in the ring.
  release_by-lower :
      (found : Scanned) {r : IqRing A} (cursor : ℕ)
      → IsValid r
      → found.has_outgoing ≡ true
      → found.min_cursor ≤ cursor
      → r.next_sequence - r.size ≤ cursor
      → (release_by found r).next_sequence - (release_by found r).size ≤ cursor
  unfolding release_by
  release_by-lower found {r} cursor v out below lower =
      rw out (elim (Bool-cases found.has_consumer) [
        | inl begun ↦
            rw begun (omega (arith, (discard_before-Trimmed found.min_cursor v).earliest_moved))
        | inr waiting ↦ rw waiting lower
      ])

  pub release-Released :
      (w : Wiring) (links : ℕ → Link) (d : ℕ) {r : IqRing A} (stream : List A)
      → IsValid r
      → Holds blank r stream
      → Released blank stream r (release w links d r)
  unfolding release
  release-Released w links d {r} stream v h = release_by-Released (scan_all w links d r) stream v h

  -- A link of the device keeps its unread samples through the section.
  pub release-LinkOk :
      (w : Wiring) (links : ℕ → Link) (d i : ℕ) {r : IqRing A} (stream : List A)
      → IsValid r
      → Holds blank r stream
      → i < w.link_count
      → w.src_index i ≡ d
      → LinkOk r (links i)
      → LinkOk (release w links d r) (links i)
  release-LinkOk w links d i {r} stream v h small here ok = record {
    lower = still;
    upper = omega (arith, (release-Released w links d stream v h).next_same, ok.upper);
    fresh = ok.fresh;
  }
    where
      still : (release w links d r).next_sequence - (release w links d r).size ≤ (links i).cursor
      still =
          unfold release in
          let seen =
            scan_sees w links d (earliest_sequence r) w.link_count 0
              (record { min_cursor = r.next_sequence; has_consumer = false; has_outgoing = false })
              i here (omega (arith, earliest_sequence_lem v, ok.lower)) (omega arith)
              (omega arith) in
          release_by-lower (scan_all w links d r) (links i).cursor v seen.1 seen.0 ok.lower
