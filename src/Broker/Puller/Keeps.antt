-- ===== src/Broker/Puller/Keeps.antt =====
-- Lemmas on a step of a puller and the relay's invariant.
use ocudu_channel.Common.{
  ℕ, max, if_both, ◌+◌, ◌^◌, ◌≤◌, ◌<◌, ◌≡◌, ◌≢◌, refl, sym, ap, ◌∙◌, subst, Bool, true, not, List,
  [], ◌++◌, length, arith, take, take-append_le, append-nil, update, update_self, update_ne,
  ℕ_discrete, dec_le, word_mod, ltb, is_empty, ◌==◌, ◌||◌,
}
use ocudu_channel.Ring.{capacity, push_samples}
use ocudu_channel.Ring.Bounds.{push-fits, push-full, Grown, push_samples-Grown}
use ocudu_channel.Ring.Stream.{push_samples-Holds}
use ocudu_channel.Broker.State.{
  Wiring, Link, Relay, Server, Puller, PullerPhase, top, body, halted, Outcome, Stats, timeout,
  broken, payload, set_puller,
}
use ocudu_channel.Broker.Puller.{
  release, halt_puller, land, send_request, receive, pull_body, pull_phase, pull_step,
}
use ocudu_channel.Broker.Puller.Release.{LinkOk, Released, release-Released, release-LinkOk}
use ocudu_channel.Broker.Invariant.{RingOk, ServerOk, Inv}
use ocudu_channel.Broker.Frame.{Frame, ServerOk-Frame}

module _ {ℓ} {A : Type ℓ} (blank : A) (w : Wiring) (d : ℕ) where
  -- What a step of the puller of device `d` may do to the state.
  record Pulled (s s' : Relay A) : Type ℓ where
    links_same : s'.links ≡ s.links
    servers_same : s'.servers ≡ s.servers
    delivered_same : s'.delivered ≡ s.delivered
    gaps_same : s'.stats.tx_sequence_gaps ≡ s.stats.tx_sequence_gaps
    ring_ok : RingOk blank s' d
    ring_others : (k : ℕ) → k ≢ d → s'.rings k ≡ s.rings k
    received_others : (k : ℕ) → k ≢ d → s'.received k ≡ s.received k
    more : List A
    received_more : s'.received d ≡ s.received d ++ more
    next_more : (s.rings d).next_sequence ≤ (s'.rings d).next_sequence
    in_ring :
        (i : ℕ)
        → i < w.link_count
        → w.src_index i ≡ d
        → LinkOk (s.rings d) (s.links i)
        → LinkOk (s'.rings d) (s.links i)

  module _ {s s' : Relay A} (inv : Inv blank w s) (p : Pulled s s') where
    counted : (k : ℕ) → (s.rings k).next_sequence ≡ length (s.received k)
    counted k = (inv.ring_ok k).holds.counted

    Pulled-Frame : (e : ℕ) → Frame w e s s'
    Pulled-Frame e = record {
      links_same = λ i _. ap (λ (l : ℕ → Link). l i) p.links_same;
      next_grows = λ k. elim (ℕ_discrete k d) [
        | yes here ↦ rw here p.next_more
        | no away ↦ rw (p.ring_others k away) (omega arith)
      ];
      received_grows = λ k. elim (ℕ_discrete k d) [
        | yes here ↦ rw here (p.more, p.received_more)
        | no away ↦ ([], p.received_others k away ∙ sym (append-nil (s.received k)))
      ];
    }

    Pulled-RingOk : (k : ℕ) → RingOk blank s' k
    Pulled-RingOk k = elim (ℕ_discrete k d) [
      | yes here ↦ subst (RingOk blank s') (sym here) p.ring_ok
      | no away ↦ record {
        valid = rw (p.ring_others k away) (inv.ring_ok k).valid;
        holds = rw (p.ring_others k away, p.received_others k away) (inv.ring_ok k).holds;
      }
    ]

    Pulled-in_ring : (i : ℕ) → i < w.link_count → LinkOk (s'.rings (w.src_index i)) (s'.links i)
    Pulled-in_ring i small = rw p.links_same (elim (ℕ_discrete (w.src_index i) d) [
      | yes here ↦ rw here (
          p.in_ring i small here
            (subst (λ k. LinkOk (s.rings k) (s.links i)) here (inv.edge_ok i small).in_ring))
      | no away ↦ rw (p.ring_others (w.src_index i) away) (inv.edge_ok i small).in_ring
    ])

    Pulled-exact :
        (i : ℕ)
        → i < w.link_count
        → s'.delivered i ≡ take (s'.links i).cursor (s'.received (w.src_index i))
    Pulled-exact i small =
        let edge = inv.edge_ok i small in
        let grown = (Pulled-Frame (w.dst_index i)).received_grows (w.src_index i) in
        rw (p.delivered_same, p.links_same, grown.1)
          (edge.exact
            ∙ sym (
                take-append_le (s.links i).cursor (s.received (w.src_index i)) grown.0
                  (omega (arith, edge.in_ring.upper, counted (w.src_index i)))))

    Pulled-Inv : Inv blank w s'
    Pulled-Inv = record {
      ring_ok = Pulled-RingOk;
      edge_ok =
          λ i small. record { in_ring = Pulled-in_ring i small; exact = Pulled-exact i small };
      server_ok = λ e.
          subst (ServerOk w s' e) (sym (ap (λ (v : ℕ → Server A). v e) p.servers_same))
            (ServerOk-Frame w e (Pulled-Frame e) (s.servers e) counted (inv.server_ok e));
      no_gaps = p.gaps_same ∙ inv.no_gaps;
    }

  -- A step that leaves rings, links and servers alone.
  quiet-Pulled :
      {s : Relay A} (pullers : ℕ → Puller A) (stats : Stats) (stop : Bool)
      → stats.tx_sequence_gaps ≡ s.stats.tx_sequence_gaps
      → Inv blank w s
      → Pulled s (record s { pullers = pullers; stats = stats; stop = stop })
  quiet-Pulled {s} pullers stats stop gaps inv = record {
    links_same = refl;
    servers_same = refl;
    delivered_same = refl;
    gaps_same = gaps;
    ring_ok = record { valid = (inv.ring_ok d).valid; holds = (inv.ring_ok d).holds };
    ring_others = λ k away. refl;
    received_others = λ k away. refl;
    more = [];
    received_more = sym (append-nil (s.received d));
    next_more = omega arith;
    in_ring = λ i small here ok. ok;
  }

  release-Pulled :
      {s : Relay A} (pullers : ℕ → Puller A)
      → Inv blank w s
      → Pulled s (record s {
        rings = update s.rings d (release w s.links d (s.rings d));
        pullers = pullers;
      })
  release-Pulled {s} pullers inv = record {
    links_same = refl;
    servers_same = refl;
    delivered_same = refl;
    gaps_same = refl;
    ring_ok = record { valid = rw at r.valid; holds = rw at r.holds };
    ring_others = update_ne s.rings d (release w s.links d (s.rings d));
    received_others = λ k away. refl;
    more = [];
    received_more = sym (append-nil (s.received d));
    next_more = rw at (omega (arith, r.next_same));
    in_ring = λ i small here ok.
        rw at
          (release-LinkOk blank w s.links d i (s.received d) ok_d.valid ok_d.holds small here ok);
  }
    where
      ok_d : RingOk blank s d
      ok_d = inv.ring_ok d

      r : Released blank (s.received d) (s.rings d) (release w s.links d (s.rings d))
      r = release-Released blank w s.links d (s.received d) ok_d.valid ok_d.holds

      at : update s.rings d (release w s.links d (s.rings d)) d ≡ release w s.links d (s.rings d)
      at = update_self s.rings d (release w s.links d (s.rings d))

  -- A message that fits.
  push-Pulled :
      {s : Relay A} (xs : List A) (pullers : ℕ → Puller A) (stats : Stats)
      → stats.tx_sequence_gaps ≡ s.stats.tx_sequence_gaps
      → (s.rings d).size + length xs ≤ capacity (s.rings d)
      → length (s.received d) + length xs < 2 ^ 64
      → Inv blank w s
      → Pulled s (record s {
        rings = update s.rings d (push_samples (s.rings d) xs);
        pullers = pullers;
        stats = stats;
        received = update s.received d (s.received d ++ xs);
      })
  push-Pulled {s} xs pullers stats gaps room unwrapped inv = record {
    links_same = refl;
    servers_same = refl;
    delivered_same = refl;
    gaps_same = gaps;
    ring_ok = record {
      valid = rw at g.valid;
      holds =
          rw (at, update_self s.received d (s.received d ++ xs))
            (push_samples-Holds blank xs (s.received d) ok_d.valid room short ok_d.holds);
    };
    ring_others = update_ne s.rings d (push_samples (s.rings d) xs);
    received_others = update_ne s.received d (s.received d ++ xs);
    more = xs;
    received_more = update_self s.received d (s.received d ++ xs);
    next_more = rw at (omega (arith, g.next_grown));
    in_ring = λ i small here ok. rw at (record {
      lower = omega (arith, g.next_grown, g.size_grown, ok.lower);
      upper = omega (arith, g.next_grown, ok.upper);
      fresh = ok.fresh;
    });
  }
    where
      ok_d : RingOk blank s d
      ok_d = inv.ring_ok d

      short : (s.rings d).next_sequence + length xs < word_mod
      short = omega (arith, ok_d.holds.counted)

      g : Grown (s.rings d) (length xs) (push_samples (s.rings d) xs)
      g = push_samples-Grown xs ok_d.valid room short

      at : update s.rings d (push_samples (s.rings d) xs) d ≡ push_samples (s.rings d) xs
      at = update_self s.rings d (push_samples (s.rings d) xs)

  land-Inv :
      {s : Relay A} (p : Puller A)
      → length p.pending < 2 ^ 60
      → length (s.received d) + length p.pending < 2 ^ 64
      → Inv blank w s
      → Inv blank w (land d p s)
  unfolding land
  land-Inv {s} p short unwrapped inv =
      elim (dec_le ((s.rings d).size + length p.pending) (capacity (s.rings d))) [
        | yes room ↦
            rw (push-fits p.pending (inv.ring_ok d).valid room)
              (Pulled-Inv inv (push-Pulled p.pending _ _ refl room unwrapped inv))
        | no full ↦
            rw (push-full p.pending (inv.ring_ok d).valid short (omega arith))
              (Pulled-Inv inv (quiet-Pulled _ _ s.stop refl inv))
      ]

  halt_puller-Inv : {s : Relay A} (p : Puller A) → Inv blank w s → Inv blank w (halt_puller d p s)
  unfolding halt_puller
  halt_puller-Inv p inv = Pulled-Inv inv (quiet-Pulled _ _ true refl inv)

  set_puller-Inv : {s : Relay A} (p : Puller A) → Inv blank w s → Inv blank w (set_puller d p s)
  set_puller-Inv {s} p inv = Pulled-Inv inv (quiet-Pulled _ s.stats s.stop refl inv)

  send_request-Inv :
      {s : Relay A} (p : Puller A) (o : Outcome A)
      → Inv blank w s
      → Inv blank w (send_request d p o s)
  unfolding send_request
  send_request-Inv p broken inv = halt_puller-Inv p inv
  send_request-Inv p timeout inv = set_puller-Inv _ inv
  send_request-Inv p _ inv = set_puller-Inv _ inv

  receive-Inv :
      {s : Relay A} (p : Puller A) (o : Outcome A) → Inv blank w s → Inv blank w (receive w d p o s)
  unfolding receive
  receive-Inv p broken inv = halt_puller-Inv p inv
  receive-Inv p (payload samples stray) inv =
      if_both (Inv blank w)
        (not (stray == 0) || ltb (max w.queue_samples (w.batch d)) (length samples))
        (halt_puller-Inv p inv) (set_puller-Inv _ inv)
  receive-Inv p _ inv = set_puller-Inv _ inv

  pull_body-Inv :
      {s : Relay A} (p : Puller A) (o : Outcome A)
      → length p.pending < 2 ^ 60
      → length (s.received d) + length p.pending < 2 ^ 64
      → Inv blank w s
      → Inv blank w (pull_body w d p o s)
  unfolding pull_body
  pull_body-Inv p o short unwrapped inv =
      if_both (Inv blank w) (not (is_empty p.pending)) (land-Inv p short unwrapped inv) (
        if_both (Inv blank w) (ltb p.room (w.batch d)) (set_puller-Inv _ inv) (
          if_both (Inv blank w) (not p.request_outstanding) (send_request-Inv p o inv)
            (receive-Inv p o inv)))

  pull_phase-Inv :
      {s : Relay A} (p : Puller A) (o : Outcome A) (phase : PullerPhase)
      → length p.pending < 2 ^ 60
      → length (s.received d) + length p.pending < 2 ^ 64
      → Inv blank w s
      → Inv blank w (pull_phase w d p o s phase)
  unfolding pull_phase
  pull_phase-Inv p o halted short unwrapped inv = inv
  pull_phase-Inv p o body short unwrapped inv = pull_body-Inv p o short unwrapped inv
  pull_phase-Inv {s} p o top short unwrapped inv =
      if_both (Inv blank w) s.stop (set_puller-Inv _ inv) (Pulled-Inv inv (release-Pulled _ inv))

  -- Whatever its ZMQ calls return, a puller keeps the invariant.
  pub pull_step-Inv :
      {s : Relay A} (o : Outcome A)
      → length (s.pullers d).pending < 2 ^ 60
      → length (s.received d) + length (s.pullers d).pending < 2 ^ 64
      → Inv blank w s
      → Inv blank w (pull_step w d o s)
  unfolding pull_step
  pull_step-Inv {s} o short unwrapped inv =
      pull_phase-Inv (s.pullers d) o (s.pullers d).phase short unwrapped inv

  -- A request to stop changes nothing that the invariant speaks of.
  pub stop-Inv : {s : Relay A} → Inv blank w s → Inv blank w (record s { stop = true })
  stop-Inv {s} inv = Pulled-Inv inv (quiet-Pulled s.pullers s.stats true refl inv)
