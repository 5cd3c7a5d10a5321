-- ===== src/Broker/Invariant.antt =====
-- What holds of the relay between any two steps of its threads.
use ocudu_channel.Common.{
  ℕ, ◌+◌, ◌<◌, ◌≤◌, ◌≡◌, Bool, true, false, List, ◌∷◌, ◌++◌, take, drop, All, Distinct,
}
use ocudu_channel.Ring.Bounds.{IsValid}
use ocudu_channel.Ring.Stream.{Holds}
use ocudu_channel.Broker.State.{
  Wiring, Relay, Server, ServerPhase, wait_req, gather, failed, vanished, stopped, align, measure,
  read_edges, advance, sending, incoming,
}
use ocudu_channel.Broker.Puller.Release.{LinkOk}

module _ {ℓ} {A : Type ℓ} (blank : A) where
  -- A ring holds a suffix of what its puller received.
  pub record RingOk (s : Relay A) (d : ℕ) : Type ℓ where
    pub valid : IsValid (s.rings d)
    pub holds : Holds blank (s.rings d) (s.received d)

module _ {ℓ} {A : Type ℓ} (w : Wiring) where
  -- A link has delivered exactly the samples before its cursor.
  pub record EdgeOk (s : Relay A) (i : ℕ) : Type ℓ where
    pub in_ring : LinkOk (s.rings (w.src_index i)) (s.links i)
    pub exact : s.delivered i ≡ take (s.links i).cursor (s.received (w.src_index i))

  -- Link `i` ends in device `d` and has begun.
  abbrev pub Started : Relay A → ℕ → ℕ → Type 0
  Started s d i = (i < w.link_count) × (w.dst_index i ≡ d) × ((s.links i).cursor_init ≡ true)

  -- Link `i` of device `d` has `n` unread samples.
  abbrev pub Ready : Relay A → ℕ → ℕ → ℕ → Type 0
  Ready s d n i =
      (i < w.link_count)
      × (w.dst_index i ≡ d)
      × ((s.links i).cursor_init ≡ true)
      × ((s.links i).cursor + n ≤ (s.rings (w.src_index i)).next_sequence)

  -- Link `i` of device `d` has delivered nothing yet.
  abbrev pub Fresh : Relay A → ℕ → ℕ → Type 0
  Fresh s d i = (i < w.link_count) × (w.dst_index i ≡ d) × ((s.links i).cursor ≡ 0)

  -- The incoming links begin together, with the first request.
  abbrev pub Aligned : Relay A → ℕ → Bool → Type 0
  Aligned s d true = All (Started s d) (incoming w d)
  Aligned s d false = All (Fresh s d) (incoming w d)

  -- The window that was read for a link and is not handed over yet.
  abbrev pub Window : Relay A → ℕ → ℕ → List A → Type ℓ
  Window s i serve window =
      window ≡ take serve (drop (s.links i).cursor (s.received (w.src_index i)))

  -- What a server relies on where it stands. It is never at `vanished`.
  abbrev pub PhaseOk : Relay A → ℕ → Server A → ServerPhase A → Type ℓ
  PhaseOk s d v wait_req = Aligned s d v.epoch_set × Unit {ℓ}
  PhaseOk s d v failed = Unit
  PhaseOk s d v stopped = Unit
  PhaseOk s d v vanished = ⊥ × Unit {ℓ}
  PhaseOk s d v gather = (v.epoch_set ≡ true) × Aligned s d true × Unit {ℓ}
  PhaseOk s d v (sending serve inputs) = (v.epoch_set ≡ true) × Aligned s d true × Unit {ℓ}
  PhaseOk s d v (align is) =
      (done : List ℕ) × (done ++ is ≡ incoming w d)
      × All (Started s d) done
      × All (Fresh s d) is
      × Distinct is
      × Unit {ℓ}
  PhaseOk s d v (measure is common) =
      (v.epoch_set ≡ true)
      × Aligned s d true
      × ((done : List ℕ) × (done ++ is ≡ incoming w d) × All (Ready s d common) done × Unit {ℓ})
  PhaseOk s d v (read_edges is serve inputs) =
      (v.epoch_set ≡ true)
      × Aligned s d true
      × (0 < serve)
      × All (Ready s d serve) is
      × Distinct is
      × Unit {ℓ}
  PhaseOk s d v (advance i window is serve inputs) =
      (v.epoch_set ≡ true)
      × Aligned s d true
      × (0 < serve)
      × Ready s d serve i
      × Window s i serve window
      × All (Ready s d serve) is
      × Distinct (i ∷ is)

  abbrev pub ServerOk : Relay A → ℕ → Server A → Type ℓ
  ServerOk s d v = PhaseOk s d v v.phase

module _ {ℓ} {A : Type ℓ} (blank : A) (w : Wiring) where
  pub record Inv (s : Relay A) : Type ℓ where
    pub ring_ok : (d : ℕ) → RingOk blank s d
    pub edge_ok : (i : ℕ) → i < w.link_count → EdgeOk w s i
    pub server_ok : (d : ℕ) → ServerOk w s d (s.servers d)
    pub no_gaps : s.stats.tx_sequence_gaps ≡ 0
