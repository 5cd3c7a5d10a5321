-- ===== src/Broker/Run/Delivery.antt =====
-- What the relay of src/broker.cpp delivers, over every interleaving of its threads.
use ocudu_channel.Common.{
  ℕ, ◌+◌, ◌*◌, ◌^◌, ◌≤◌, ◌<◌, ◌≡◌, ◌≢◌, refl, subst, true, [], length, max, arith, take, drop, some,
  All-map, selected-All, ◌==◌, inr, word_mod, add64,
}
use ocudu_channel.Ring.{reset, read}
use ocudu_channel.Ring.Stream.{read-inside}
use ocudu_channel.Ring.Log.{Refines, reset-Refines}
use ocudu_channel.Broker.State.{Wiring, Relay, vanished, incoming}
use ocudu_channel.Broker.Invariant.{PhaseOk, Inv}
use ocudu_channel.Broker.Puller.Keeps.{pull_step-Inv, stop-Inv}
use ocudu_channel.Broker.Server.{add_served}
use ocudu_channel.Broker.Server.Keeps.{serve_step-Inv}
use ocudu_channel.Broker.Run.{Step, pulls, serves, stops, Reach, here, next, initial}

module _ {ℓ} {A : Type ℓ} (blank : A) (w : Wiring) where
  initial-Inv : w.queue_samples ≤ 2 ^ 60 → Inv blank w (initial blank w)
  unfolding initial
  initial-Inv h = record {
    ring_ok = λ d. record { valid = f.valid; holds = f.holds };
    edge_ok = λ i small. record {
      in_ring = record { lower = omega (arith, f.oldest); upper = omega arith; fresh = inr refl };
      exact = refl;
    };
    server_ok = λ d. (
      All-map
          (λ j (k : ((0 ≤ j) × (j < 0 + w.link_count)) × ((w.dst_index j == d) ≡ true)).
            (omega arith, ground arith, refl))
          (incoming w d) (selected-All w.link_count (λ j. w.dst_index j == d)),
      tt,
    );
    no_gaps = refl;
  }
    where
      f :
          Refines blank
            (reset blank w.queue_samples)
            (record { slots = w.queue_samples; stream = []; earliest = 0 })
      f = reset-Refines blank w.queue_samples h

  Step-Inv : {s t : Relay A} → Step blank w s t → Inv blank w s → Inv blank w t
  Step-Inv (pulls d o short unwrapped) inv = pull_step-Inv blank w d o short unwrapped inv
  Step-Inv (serves d o) inv = serve_step-Inv blank w d o inv
  Step-Inv stops inv = stop-Inv blank w 0 inv

  Reach-keeps : {s t : Relay A} → Inv blank w s → Reach blank w s t → Inv blank w t
  Reach-keeps inv here = inv
  Reach-keeps inv (next r step) = Step-Inv step (Reach-keeps inv r)

  -- The invariant holds whatever the threads, the peers and the stop signal have done.
  pub Reach-Inv :
      {s : Relay A} → w.queue_samples ≤ 2 ^ 60 → Reach blank w (initial blank w) s → Inv blank w s
  Reach-Inv h r = Reach-keeps (initial-Inv h) r

  -- With queues of at most 2 ^ 60 samples, on every state reachable from the start each link has
  -- handed on exactly the first `cursor` samples that its source's puller received, in order, and
  -- its cursor is not ahead of them: none is lost, repeated or reordered.
  pub delivered-exact :
      {s : Relay A} (i : ℕ)
      → w.queue_samples ≤ 2 ^ 60
      → Reach blank w (initial blank w) s
      → i < w.link_count
      → (s.delivered i ≡ take (s.links i).cursor (s.received (w.src_index i)))
        × ((s.links i).cursor ≤ length (s.received (w.src_index i)))
  delivered-exact i h r small =
      let inv = Reach-Inv h r in
      let edge = inv.edge_ok i small in
      (edge.exact, omega (arith, edge.in_ring.upper, (inv.ring_ok (w.src_index i)).holds.counted))

  -- With queues of at most 2 ^ 60 samples, no state reachable from the start has counted a sequence
  -- gap, and none has a server at the "serve window vanished" exception.
  pub relay_sound :
      {s : Relay A} (d : ℕ)
      → w.queue_samples ≤ 2 ^ 60
      → Reach blank w (initial blank w) s
      → (s.stats.tx_sequence_gaps ≡ 0) × ((s.servers d).phase ≢ vanished)
  relay_sound {s} d h r =
      let inv = Reach-Inv h r in
      (inv.no_gaps, λ e. (subst (PhaseOk w s d (s.servers d)) e (inv.server_ok d)).0)

  -- With queues of at most 2 ^ 60 samples, on every state reachable from the start a span of at least
  -- one sample that a link has not read yet, and its source's puller has received, is still in that
  -- source's ring and reads as it was received.
  pub unread-read :
      {s : Relay A} (i n : ℕ)
      → w.queue_samples ≤ 2 ^ 60
      → Reach blank w (initial blank w) s
      → i < w.link_count
      → 0 < n
      → (s.links i).cursor + n ≤ length (s.received (w.src_index i))
      → read blank (s.rings (w.src_index i)) (s.links i).cursor n
        ≡ some (take n (drop (s.links i).cursor (s.received (w.src_index i))))
  unread-read {s} i n h r small pos there =
      let inv = Reach-Inv h r in
      let ring = inv.ring_ok (w.src_index i) in
      read-inside blank (s.received (w.src_index i)) (s.links i).cursor n ring.valid ring.holds pos
        (inv.edge_ok i small).in_ring.lower there

-- For a rate up to 9 GHz and a batch of at most a second of it, a served count below the rate stays
-- below the rate, and the throttle's product of the count with 10^9 does not wrap.
pub add_served_bounds :
    (rate served serve : ℕ)
    → rate ≤ 9000000000
    → served < max 1 rate
    → serve ≤ max 1 rate
    → (add_served rate served serve < max 1 rate) × (add64 served serve * 1000000000 < word_mod)
add_served_bounds rate served serve h k m = ground arith
