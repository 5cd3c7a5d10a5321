-- ===== src/Broker/Server/Waits.antt =====
-- Lemmas on the server's start and its wait for a common window, in src/broker.cpp.
use ocudu_channel.Common.{
  ℕ, ◌-◌, ◌<◌, ◌≡◌, ◌≢◌, refl, sym, ap, ◌∙◌, subst, true, false, List, [], ◌∷◌, ◌++◌, arith, take,
  append_assoc, update, update_self, update_ne, ℕ_discrete, inl, is_empty, ◌==◌, if_both, if_split,
  All, All-map, All-append, All-zip, All-append_right, Distinct, selected-Distinct, min,
}
use ocudu_channel.Ring.{IqRing, earliest_sequence}
use ocudu_channel.Ring.Bounds.{IsValid, earliest_sequence_lem}
use ocudu_channel.Broker.State.{
  Wiring, Link, Relay, Server, wait_req, gather, failed, align, measure, sending, incoming, Outcome,
  done, timeout, broken, payload, bump_idle,
}
use ocudu_channel.Broker.Server.{measure_link, take_measure, align_link, begin_serve, accept}
use ocudu_channel.Broker.Server.Moves.{quiet-Inv, link-Inv}
use ocudu_channel.Broker.Puller.Release.{LinkOk}
use ocudu_channel.Broker.Invariant.{EdgeOk, Started, Ready, Fresh, Aligned, PhaseOk, ServerOk, Inv}

-- The links that a loop goes through are those of the device, each once.
pub incoming-Distinct : (w : Wiring) (d : ℕ) → Distinct (incoming w d)
incoming-Distinct w d = selected-Distinct w.link_count (λ i. w.dst_index i == d)

module _ {ℓ} {A : Type ℓ} (w : Wiring) (d : ℕ) where
  module _ (s : Relay A) (i : ℕ) (l : Link) where
    -- A link as it is after link `i` has become `l`.
    pub Started-moved :
        l.cursor_init ≡ true
        → (j : ℕ) → Started w s d j
        → Started w (record s { links = update s.links i l }) d j
    Started-moved begun j (small, mine, h) = elim (ℕ_discrete j i) [
      | yes here ↦ (small, mine, rw (here, update_self s.links i l) begun)
      | no away ↦ (small, mine, rw (update_ne s.links i l j away) h)
    ]

    pub Fresh-moved :
        (j : ℕ) → j ≢ i → Fresh w s d j → Fresh w (record s { links = update s.links i l }) d j
    Fresh-moved j away (small, mine, h) = (small, mine, rw (update_ne s.links i l j away) h)

    pub Ready-moved :
        (n j : ℕ)
        → j ≢ i
        → Ready w s d n j
        → Ready w (record s { links = update s.links i l }) d n j
    Ready-moved n j away (small, mine, h, k) =
        (small, mine, rw (update_ne s.links i l j away) h, rw (update_ne s.links i l j away) k)

module _ {ℓ} {A : Type ℓ} (blank : A) (w : Wiring) (d : ℕ) where
  pub begin_serve-ServerOk :
      (s : Relay A) (v : Server A) → Aligned w s d true → ServerOk w s d (begin_serve w d v)
  begin_serve-ServerOk s v h =
      if_both (PhaseOk w s d (begin_serve w d v)) (is_empty (incoming w d))
        {x = sending (w.batch d) []} {y = gather} (refl, h, tt) (refl, h, tt)

  pub accept-Inv :
      {s : Relay A} (v : Server A) (o : Outcome A)
      → Aligned w s d v.epoch_set
      → v.phase ≡ wait_req
      → Inv blank w s
      → Inv blank w (accept w d v s o)
  unfolding accept
  accept-Inv {s} v done h at inv =
      if_split (Inv blank w) v.epoch_set
        (λ set.
          quiet-Inv blank w d inv (begin_serve w d v) s.stats s.stop refl
            (begin_serve-ServerOk s v (subst (Aligned w s d) set h)))
        (λ unset.
          quiet-Inv blank w d inv (record v { phase = align (incoming w d) }) s.stats s.stop refl
            ([], refl, tt, subst (Aligned w s d) unset h, incoming-Distinct w d, tt))
  accept-Inv {s} v timeout h at inv =
      quiet-Inv blank w d inv waiting s.stats s.stop refl
        (subst (PhaseOk w s d waiting) (sym at) (h, tt))
    where
      waiting : Server A
      waiting = record v { diag = bump_idle v.diag }
  accept-Inv v broken h at inv =
      quiet-Inv blank w d inv (record v { phase = failed }) _ true refl tt
  accept-Inv v (payload xs stray) h at inv = inv

  pub align-Inv :
      {s : Relay A} (v : Server A) (i : ℕ) (is : List ℕ)
      → PhaseOk w s d v (align (i ∷ is))
      → Inv blank w s
      → Inv blank w (record s {
        links = update s.links i (align_link (s.rings (w.src_index i)));
        servers = update s.servers d (record v { phase = align is });
      })
  align-Inv {s} v i is (before, split, begun, fresh, once, _) inv =
      link-Inv blank w d inv i l (record v { phase = align is }) s.stats s.delivered small mine refl
        (λ j away. refl) ok exact
        (
          before ++ i ∷ [],
          append_assoc before (i ∷ []) is ∙ split,
          All-append _ before (i ∷ []) (All-map (Started-moved w d s i l refl) before begun)
              ((small, mine, rw (update_self s.links i l) refl), tt),
          All-map (λ j (h : (j ≢ i) × Fresh w s d j). Fresh-moved w d s i l j h.0 h.1) is
              (All-zip _ _ is once.0 fresh.1),
          once.1,
          tt,
        )
    where
      l : Link
      l = align_link (s.rings (w.src_index i))

      small : i < w.link_count
      small = fresh.0.0

      mine : w.dst_index i ≡ d
      mine = fresh.0.1

      edge : EdgeOk w s i
      edge = inv.edge_ok i small

      first : earliest_sequence (s.rings (w.src_index i)) ≡ (s.links i).cursor
      first = omega (
        arith,
        earliest_sequence_lem (inv.ring_ok (w.src_index i)).valid,
        edge.in_ring.lower,
        fresh.0.2,
      )

      ok : LinkOk (s.rings (w.src_index i)) l
      ok = record {
        lower = omega (arith, first, edge.in_ring.lower);
        upper = omega (arith, first, edge.in_ring.upper);
        fresh = inl refl;
      }

      exact : s.delivered i ≡ take l.cursor (s.received (w.src_index i))
      exact = edge.exact ∙ ap (λ k. take k (s.received (w.src_index i))) (sym first)

  -- Under the invariant a cursor never lags behind its ring, and the window is what is unread.
  measure_link_lem :
      {r : IqRing A} (l : Link) (common : ℕ)
      → IsValid r
      → LinkOk r l
      → measure_link r l common ≡ (l, false, min common (r.next_sequence - l.cursor))
  unfolding measure_link
  measure_link_lem l common v ok = ground (arith, earliest_sequence_lem v)

  pub measure-Inv :
      {s : Relay A} (v : Server A) (i : ℕ) (is : List ℕ) (common : ℕ)
      → PhaseOk w s d v (measure (i ∷ is) common)
      → Inv blank w s
      → Inv blank w
          (take_measure d v i is s (measure_link (s.rings (w.src_index i)) (s.links i) common))
  unfolding take_measure
  measure-Inv {s} v i is common (set, begun, (before, split, there, _)) inv =
      rw (measure_link_lem (s.links i) common (inv.ring_ok (w.src_index i)).valid edge.in_ring) (
        link-Inv blank w d inv i (s.links i) (record v { phase = measure is common' }) s.stats
          s.delivered small mine refl (λ j away. refl) edge.in_ring edge.exact
          (
            set,
            All-map (Started-moved w d s i (s.links i) mine_begun) (incoming w d) begun,
            (
              before ++ i ∷ [],
              append_assoc before (i ∷ []) is ∙ split,
              All-append _ before (i ∷ []) (All-map keep before there) (keep_self, tt),
              tt,
            ),
          ))
    where
      mine_here : Started w s d i
      mine_here =
          (All-append_right (Started w s d) before (i ∷ is)
            (subst (All (Started w s d)) (sym split) begun)).0

      small : i < w.link_count
      small = mine_here.0

      mine : w.dst_index i ≡ d
      mine = mine_here.1

      mine_begun : (s.links i).cursor_init ≡ true
      mine_begun = mine_here.2

      edge : EdgeOk w s i
      edge = inv.edge_ok i small

      common' : ℕ
      common' = min common ((s.rings (w.src_index i)).next_sequence - (s.links i).cursor)

      s' : Relay A
      s' = record s { links = update s.links i (s.links i) }

      same : (j : ℕ) → update s.links i (s.links i) j ≡ s.links j
      same j = elim (ℕ_discrete j i) [
        | yes here ↦ rw (here, update_self s.links i (s.links i))
        | no away ↦ update_ne s.links i (s.links i) j away
      ]

      keep : (j : ℕ) → Ready w s d common j → Ready w s' d common' j
      keep j (within, at, h, k) = (within, at, rw (same j) h, rw (same j) (omega arith))

      keep_self : Ready w s' d common' i
      keep_self =
          (small, mine, rw (same i) mine_begun, rw (same i) (omega (arith, edge.in_ring.upper)))
