-- ===== src/Broker/Server/Keeps.antt =====
-- Lemmas on a step of a server and the relay's invariant, for any results of its ZMQ calls.
use ocudu_channel.Common.{
  ℕ, ap₂, ltb→lt, ◌+◌, ◌≡◌, ◌≢◌, refl, sym, ap, ◌∙◌, subst, Bool, true, List, [], ◌∷◌, ◌++◌, arith,
  take, append-nil, update, update_self, update_ne, add64, inl, ltb, if_both, if_split, All,
  All-map, All-zip, take-append-take-drop,
}
use ocudu_channel.Ring.{read}
use ocudu_channel.Ring.Stream.{read-inside}
use ocudu_channel.Broker.State.{
  Wiring, Link, Relay, Server, ServerPhase, wait_req, gather, failed, vanished, stopped, align,
  measure, read_edges, advance, sending, incoming, Outcome, done, broken,
}
use ocudu_channel.Broker.Server.{
  begin_serve, measured, sent, processed, reply, take_window, serve_phase, serve_step,
}
use ocudu_channel.Broker.Server.Moves.{quiet-Inv, link-Inv}
use ocudu_channel.Broker.Puller.Release.{LinkOk}
use ocudu_channel.Broker.Invariant.{RingOk, EdgeOk, Started, Ready, Aligned, PhaseOk, Inv}
use ocudu_channel.Broker.Server.Waits.{
  incoming-Distinct, Started-moved, Ready-moved, begin_serve-ServerOk, accept-Inv, align-Inv,
  measure-Inv,
}

module _ {ℓ} {A : Type ℓ} (blank : A) (w : Wiring) (d : ℕ) where
  measured-Inv :
      {s : Relay A} (v : Server A) (common : ℕ) (late : Bool)
      → PhaseOk w s d v (measure [] common)
      → Inv blank w s
      → Inv blank w (measured w d v common late s)
  unfolding measured
  measured-Inv {s} v common late (set, begun, (before, split, there, _)) inv =
      if_split (Inv blank w) (ltb 0 common)
        (λ some_ready.
          quiet-Inv blank w d inv (record v { phase = read_edges (incoming w d) common [] }) s.stats
            s.stop refl
            (
              set,
              begun,
              ltb→lt 0 common some_ready,
              subst (All (Ready w s d common)) (sym (append-nil before) ∙ split) there,
              incoming-Distinct w d,
              tt,
            ))
        (λ none_ready. quiet-Inv blank w d inv _ _ s.stop refl (set, begun, tt))

  read-Inv :
      {s : Relay A} (v : Server A) (i : ℕ) (is : List ℕ) (serve : ℕ) (inputs : List (List A))
      → PhaseOk w s d v (read_edges (i ∷ is) serve inputs)
      → Inv blank w s
      → Inv blank w (
          take_window d v i is serve inputs s
            (read blank (s.rings (w.src_index i)) (s.links i).cursor serve))
  unfolding take_window
  read-Inv {s} v i is serve inputs (set, begun, pos, there, once, _) inv =
      rw
        (read-inside blank (s.received (w.src_index i)) (s.links i).cursor serve ring.valid
          ring.holds pos edge.in_ring.lower (omega (arith, there.0.3, ring.holds.counted)))
        (quiet-Inv blank w d inv _ s.stats s.stop refl
          (set, begun, pos, there.0, refl, there.1, once))
    where
      ring : RingOk blank s (w.src_index i)
      ring = inv.ring_ok (w.src_index i)

      edge : EdgeOk w s i
      edge = inv.edge_ok i there.0.0

  advance-Inv :
      {s : Relay A} (v : Server A) (o : Outcome A) (i : ℕ) (window : List A) (is : List ℕ)
      (serve : ℕ) (inputs : List (List A))
      → PhaseOk w s d v (advance i window is serve inputs)
      → Inv blank w s
      → Inv blank w (serve_phase blank w d v o s (advance i window is serve inputs))
  unfolding serve_phase
  advance-Inv {s} v o i window is serve inputs (set, begun, pos, ready, held, there, once) inv =
      link-Inv blank w d inv i l _ s.stats (update s.delivered i (s.delivered i ++ window)) ready.0
        ready.1 refl (update_ne s.delivered i (s.delivered i ++ window)) ok exact
        (
          set,
          All-map (Started-moved w d s i l ready.2) (incoming w d) begun,
          pos,
          All-map (λ j (h : (j ≢ i) × Ready w s d serve j). Ready-moved w d s i l serve j h.0 h.1)
              is (All-zip _ _ is once.0 there),
          once.1,
          tt,
        )
    where
      src : ℕ
      src = w.src_index i

      edge : EdgeOk w s i
      edge = inv.edge_ok i ready.0

      l : Link
      l = record (s.links i) { cursor = add64 (s.links i).cursor serve }

      moved : l.cursor ≡ (s.links i).cursor + serve
      moved = omega (arith, ready.3, (inv.ring_ok src).valid.unwrapped)

      ok : LinkOk (s.rings src) l
      ok = record {
        lower = omega (arith, moved, edge.in_ring.lower);
        upper = omega (arith, moved, ready.3);
        fresh = inl ready.2;
      }

      exact : update s.delivered i (s.delivered i ++ window) i ≡ take l.cursor (s.received src)
      exact =
          update_self s.delivered i (s.delivered i ++ window)
          ∙ ap₂ ◌++◌ edge.exact held
          ∙ take-append-take-drop serve (s.links i).cursor (s.received src)
          ∙ ap (λ k. take k (s.received src)) (sym moved)

  sent-Inv :
      {s : Relay A} (v : Server A) (serve : ℕ)
      → v.epoch_set ≡ true
      → Aligned w s d true
      → Inv blank w s
      → Inv blank w (sent w d v serve s)
  unfolding sent
  sent-Inv {s} v serve set begun inv =
      quiet-Inv blank w d inv _ _ s.stop refl (subst (Aligned w s d) (sym set) begun, tt)

  reply-Inv :
      {s : Relay A} (v : Server A) (serve : ℕ) (o : Outcome A)
      → v.epoch_set ≡ true
      → Aligned w s d true
      → Inv blank w s
      → Inv blank w (reply w d v serve s o)
  unfolding reply
  reply-Inv v serve done set begun inv = sent-Inv v serve set begun inv
  reply-Inv v serve broken set begun inv =
      quiet-Inv blank w d inv (record v { phase = failed }) _ true refl tt
  reply-Inv v serve _ set begun inv = inv

  processed-Inv :
      {s : Relay A} (v : Server A) (serve : ℕ) (inputs : List (List A)) (o : Outcome A)
      → v.epoch_set ≡ true
      → Aligned w s d true
      → Inv blank w s
      → Inv blank w (processed d v serve inputs s o)
  unfolding processed
  processed-Inv v serve inputs broken set begun inv =
      quiet-Inv blank w d inv (record v { phase = failed }) _ true refl tt
  processed-Inv {s} v serve inputs _ set begun inv =
      quiet-Inv blank w d inv (record v { phase = sending serve inputs }) s.stats s.stop refl
        (set, begun, tt)

  serve_phase-Inv :
      {s : Relay A} (v : Server A) (o : Outcome A) (p : ServerPhase A)
      → v.phase ≡ p
      → PhaseOk w s d v p
      → Inv blank w s
      → Inv blank w (serve_phase blank w d v o s p)
  unfolding serve_phase
  serve_phase-Inv {s} v o wait_req at h inv =
      if_both (Inv blank w) s.stop
        (quiet-Inv blank w d inv (record v { phase = stopped }) s.stats s.stop refl tt)
        (accept-Inv blank w d v o h.0 at inv)
  serve_phase-Inv {s} v o (align []) at (before, split, begun, _, _, _) inv =
      quiet-Inv blank w d inv (begin_serve w d v) s.stats s.stop refl (
        begin_serve-ServerOk blank w d s v
          (subst (All (Started w s d)) (sym (append-nil before) ∙ split) begun))
  serve_phase-Inv v o (align (i ∷ is)) at h inv = align-Inv blank w d v i is h inv
  serve_phase-Inv {s} v o gather at (set, begun, _) inv =
      if_both (Inv blank w) s.stop
        (quiet-Inv blank w d inv (record v { phase = stopped }) s.stats s.stop refl tt)
        (quiet-Inv blank w d inv (record v { phase = measure (incoming w d) (w.batch d) }) s.stats
          s.stop refl (set, begun, ([], refl, tt, tt)))
  serve_phase-Inv v o (measure [] common) at h inv = measured-Inv v common _ h inv
  serve_phase-Inv v o (measure (i ∷ is) common) at h inv = measure-Inv blank w d v i is common h inv
  serve_phase-Inv v o (read_edges [] serve inputs) at (set, begun, _, _, _, _) inv =
      processed-Inv v serve inputs o set begun inv
  serve_phase-Inv v o (read_edges (i ∷ is) serve inputs) at h inv =
      read-Inv v i is serve inputs h inv
  serve_phase-Inv v o (advance i window is serve inputs) at h inv =
      advance-Inv v o i window is serve inputs h inv
  serve_phase-Inv {s} v o (sending serve inputs) at (set, begun, _) inv =
      if_both (Inv blank w) s.stop (sent-Inv v serve set begun inv)
        (reply-Inv v serve o set begun inv)
  serve_phase-Inv v o failed at h inv = inv
  serve_phase-Inv v o vanished at h inv = inv
  serve_phase-Inv v o stopped at h inv = inv

  pub serve_step-Inv :
      {s : Relay A} (o : Outcome A) → Inv blank w s → Inv blank w (serve_step blank w d o s)
  unfolding serve_step
  serve_step-Inv {s} o inv =
      serve_phase-Inv (s.servers d) o (s.servers d).phase refl (inv.server_ok d) inv
