-- ===== src/Broker/Frame.antt =====
-- A step of one thread, as the server of another device sees it.
use ocudu_channel.Common.{
  ℕ, ◌≤◌, ◌≡◌, sym, ap, ◌∙◌, Bool, true, false, List, ◌++◌, length, arith, take, drop,
  take-drop-append, All-map,
}
use ocudu_channel.Broker.State.{
  Wiring, Link, Relay, Server, ServerPhase, wait_req, gather, failed, vanished, stopped, align,
  measure, read_edges, advance, sending, incoming,
}
use ocudu_channel.Broker.Invariant.{Started, Ready, Fresh, Aligned, Window, PhaseOk, ServerOk}

module _ {ℓ} {A : Type ℓ} (w : Wiring) where
  -- The links into device `d` are as before, and the rings have only grown at their ends.
  pub record Frame (d : ℕ) (s s' : Relay A) : Type ℓ where
    pub links_same : (i : ℕ) → w.dst_index i ≡ d → s'.links i ≡ s.links i
    pub next_grows : (k : ℕ) → (s.rings k).next_sequence ≤ (s'.rings k).next_sequence
    pub received_grows : (k : ℕ) → (more : List A) × (s'.received k ≡ s.received k ++ more)

  module _ (d : ℕ) {s s' : Relay A} (f : Frame d s s') where
    Started-Frame : (i : ℕ) → Started w s d i → Started w s' d i
    Started-Frame i (small, mine, begun) =
        (small, mine, ap (λ (l : Link). l.cursor_init) (f.links_same i mine) ∙ begun)

    Ready-Frame : (n i : ℕ) → Ready w s d n i → Ready w s' d n i
    Ready-Frame n i (small, mine, begun, there) =
        let same = f.links_same i mine in
        (
          small,
          mine,
          ap (λ (l : Link). l.cursor_init) same ∙ begun,
          omega (arith, ap (λ (l : Link). l.cursor) same, there, f.next_grows (w.src_index i)),
        )

    Window-Frame :
        (i serve : ℕ) (window : List A)
        → (s.rings (w.src_index i)).next_sequence ≡ length (s.received (w.src_index i))
        → Ready w s d serve i
        → Window w s i serve window
        → Window w s' i serve window
    Window-Frame i serve window counted (small, mine, begun, there) h =
        h
        ∙ sym (
            take-drop-append serve (s.links i).cursor (s.received src) more.0
              (omega (arith, there, counted)))
        ∙ ap (λ c. take serve (drop c (s.received src ++ more.0))) (sym cursor_same)
        ∙ ap (λ xs. take serve (drop (s'.links i).cursor xs)) (sym more.1)
      where
        src : ℕ
        src = w.src_index i

        more : (more : List A) × (s'.received src ≡ s.received src ++ more)
        more = f.received_grows src

        cursor_same : (s'.links i).cursor ≡ (s.links i).cursor
        cursor_same = ap (λ (l : Link). l.cursor) (f.links_same i mine)

    Fresh-Frame : (i : ℕ) → Fresh w s d i → Fresh w s' d i
    Fresh-Frame i (small, mine, zero_cursor) =
        (small, mine, ap (λ (l : Link). l.cursor) (f.links_same i mine) ∙ zero_cursor)

    Aligned-Frame : (b : Bool) → Aligned w s d b → Aligned w s' d b
    Aligned-Frame true h = All-map Started-Frame (incoming w d) h
    Aligned-Frame false h = All-map Fresh-Frame (incoming w d) h

    PhaseOk-Frame :
        (v : Server A) (p : ServerPhase A)
        → ((k : ℕ) → (s.rings k).next_sequence ≡ length (s.received k))
        → PhaseOk w s d v p
        → PhaseOk w s' d v p
    PhaseOk-Frame v wait_req counted h = (Aligned-Frame v.epoch_set h.0, tt)
    PhaseOk-Frame v failed counted h = tt
    PhaseOk-Frame v stopped counted h = tt
    PhaseOk-Frame v vanished counted h = h
    PhaseOk-Frame v gather counted (set, begun, _) = (set, Aligned-Frame true begun, tt)
    PhaseOk-Frame v (sending serve inputs) counted (set, begun, _) =
        (set, Aligned-Frame true begun, tt)
    PhaseOk-Frame v (align is) counted (done, split, begun, fresh, once, _) =
        (done, split, All-map Started-Frame done begun, All-map Fresh-Frame is fresh, once, tt)
    PhaseOk-Frame v (measure is common) counted (set, begun, (done, split, there, _)) =
        (set, Aligned-Frame true begun, (done, split, All-map (Ready-Frame common) done there, tt))
    PhaseOk-Frame v (read_edges is serve inputs) counted (set, begun, pos, there, once, _) =
        (set, Aligned-Frame true begun, pos, All-map (Ready-Frame serve) is there, once, tt)
    PhaseOk-Frame v (advance i window is serve inputs) counted
          (set, begun, pos, ready, held, there, once) =
        (
          set,
          Aligned-Frame true begun,
          pos,
          Ready-Frame serve i ready,
          Window-Frame i serve window (counted (w.src_index i)) ready held,
          All-map (Ready-Frame serve) is there,
          once,
        )

    pub ServerOk-Frame :
        (v : Server A)
        → ((k : ℕ) → (s.rings k).next_sequence ≡ length (s.received k))
        → ServerOk w s d v
        → ServerOk w s' d v
    ServerOk-Frame v counted h = PhaseOk-Frame v v.phase counted h
