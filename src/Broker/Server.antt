-- ===== src/Broker/Server.antt =====
-- `run_server` of src/broker.cpp: rings to ZMQ REP. One step is a section under one ring's lock, one
-- atomic operation, or one ZMQ call, whose outcome is an input.
pub mod Moves
pub mod Waits
pub mod Keeps
use ocudu_channel.Common.{
  ℕ, zero, ◌+◌, ◌^◌, ◌<◌, Bool, true, false, not, ◌&&◌, ◌||◌, Option, none, some, List, [], ◌∷◌,
  ◌++◌, ltb, leb, ◌==◌, if◌then◌else◌, length, add64, sub64, min, max, update, is_empty, indices,
  filter_by,
}
use ocudu_channel.Ring.{IqRing, earliest_sequence, free_capacity, push, read, discard_before, reset}
use ocudu_channel.Broker.State.{
  Wiring, Link, Stats, Diag, no_diag, PullerPhase, top, body, halted, Puller, ServerPhase, wait_req,
  gather, failed, vanished, stopped, align, measure, read_edges, advance, sending, Server, Relay,
  incoming, Outcome, done, timeout, broken, payload, bump_idle, bump_blocked, set_puller,
  set_server, report_thread_error,
}

-- `served += serve`, re-based once a second's worth of samples has been served.
abbrev pub add_served : ℕ → ℕ → ℕ → ℕ
add_served rate served serve =
    if leb (max 1 rate) (add64 served serve) then 0 else add64 served serve

module _ {ℓ} {A : Type ℓ} where
  -- The body of the wait loop for one link: clamp the cursor, and take the smaller window.
  unfoldable pub measure_link : IqRing A → Link → ℕ → Link × Bool × ℕ
  measure_link ring link common =
      let gap = ltb link.cursor (earliest_sequence ring) in
      let cur = if gap then earliest_sequence ring else link.cursor in
      (record link { cursor = cur }, gap, min common (sub64 ring.next_sequence cur))

  pub take_measure : ℕ → Server A → ℕ → List ℕ → Relay A → Link × Bool × ℕ → Relay A
  take_measure d v i is s (link, gap, common) = record s {
    links = update s.links i link;
    servers = update s.servers d (record v { phase = measure is common });
    stats = record (s.stats) {
      tx_sequence_gaps = if gap then s.stats.tx_sequence_gaps + 1 else s.stats.tx_sequence_gaps;
    };
  }

  -- The first serve: start a link at its source's earliest sample.
  abbrev align_link : IqRing A → Link
  align_link ring = record { cursor = earliest_sequence ring; cursor_init = true }

  -- With no incoming edges a full batch is served.
  abbrev begin_serve : Wiring → ℕ → Server A → Server A
  begin_serve w d v = record v {
    phase = if is_empty (incoming w d) then sending (w.batch d) [] else gather;
    epoch_set = true;
    starvation_counted = false;
  }

  -- One round of the wait loop has measured every edge; `late` says that the deadline has passed.
  measured : Wiring → ℕ → Server A → ℕ → Bool → Relay A → Relay A
  measured w d v common late s =
      let counts = ltb 0 v.served && not v.starvation_counted && late in
      if ltb 0 common
      then set_server d (record v { phase = read_edges (incoming w d) common [] }) s
      else record s {
        servers = update s.servers d (record v {
          phase = gather;
          starvation_counted = v.starvation_counted || counts;
          diag = bump_blocked v.diag;
        });
        stats = record (s.stats) {
          rx_starvations = if counts then s.stats.rx_starvations + 1 else s.stats.rx_starvations;
        };
      }

  sent : Wiring → ℕ → Server A → ℕ → Relay A → Relay A
  sent w d v serve s = record s {
    servers = update s.servers d (record v {
      phase = wait_req;
      served = add_served (w.rate d) v.served serve;
      diag = record (v.diag) { progress = v.diag.progress + 1; last_samples = serve };
    });
    stats = record (s.stats) { rx_requests = s.stats.rx_requests + 1 };
  }

  -- `send_samples`, tried again on a timeout.
  reply : Wiring → ℕ → Server A → ℕ → Relay A → Outcome A → Relay A
  reply w d v serve s done = sent w d v serve s
  reply w d v serve s broken = report_thread_error (set_server d (record v { phase = failed }) s)
  reply w d v serve s _ = s

  -- `process_superposition`, which may throw.
  processed : ℕ → Server A → ℕ → List (List A) → Relay A → Outcome A → Relay A
  processed d v serve inputs s broken =
      report_thread_error (set_server d (record v { phase = failed }) s)
  processed d v serve inputs s _ = set_server d (record v { phase = sending serve inputs }) s

  -- `zmq_recv` of a request: the first one starts the links.
  pub accept : Wiring → ℕ → Server A → Relay A → Outcome A → Relay A
  accept w d v s done =
      if v.epoch_set
      then set_server d (begin_serve w d v) s
      else set_server d (record v { phase = align (incoming w d) }) s
  accept w d v s timeout = set_server d (record v { diag = bump_idle v.diag }) s
  accept w d v s broken = report_thread_error (set_server d (record v { phase = failed }) s)
  accept w d v s (payload xs stray) = s

  -- `window` is what `read` gave for link `i`; `none` is the exception "serve window vanished".
  take_window : ℕ → Server A → ℕ → List ℕ → ℕ → List (List A) → Relay A → Option (List A) → Relay A
  take_window d v i is serve inputs s none =
      report_thread_error (set_server d (record v { phase = vanished }) s)
  take_window d v i is serve inputs s (some window) =
      set_server d (record v { phase = advance i window is serve inputs }) s

module _ {ℓ} {A : Type ℓ} (blank : A) where
  serve_phase : Wiring → ℕ → Server A → Outcome A → Relay A → ServerPhase A → Relay A
  unfolding accept reply processed measured sent take_window take_measure
  serve_phase w d v o s wait_req =
      if s.stop then set_server d (record v { phase = stopped }) s else accept w d v s o
  serve_phase w d v o s (align []) = set_server d (begin_serve w d v) s
  serve_phase w d v o s (align (i ∷ is)) = record s {
    links = update s.links i (align_link (s.rings (w.src_index i)));
    servers = update s.servers d (record v { phase = align is });
  }
  serve_phase w d v o s gather =
      if s.stop
      then set_server d (record v { phase = stopped }) s
      else set_server d (record v { phase = measure (incoming w d) (w.batch d) }) s
  serve_phase w d v o s (measure [] common) =
      measured w d v common (elim o [ timeout ↦ true | _ ↦ false ]) s
  serve_phase w d v o s (measure (i ∷ is) common) =
      take_measure d v i is s (measure_link (s.rings (w.src_index i)) (s.links i) common)
  serve_phase w d v o s (read_edges [] serve inputs) = processed d v serve inputs s o
  serve_phase w d v o s (read_edges (i ∷ is) serve inputs) =
      take_window d v i is serve inputs s
        (read blank (s.rings (w.src_index i)) (s.links i).cursor serve)
  serve_phase w d v o s (advance i window is serve inputs) = record s {
    links = update s.links i (record (s.links i) { cursor = add64 (s.links i).cursor serve });
    servers = update s.servers d (record v { phase = read_edges is serve (inputs ++ window ∷ []) });
    delivered = update s.delivered i (s.delivered i ++ window);
  }
  serve_phase w d v o s (sending serve inputs) =
      if s.stop then sent w d v serve s else reply w d v serve s o
  serve_phase w d v o s failed = s
  serve_phase w d v o s vanished = s
  serve_phase w d v o s stopped = s

  -- One step of the server of device `d`.
  unfoldable pub serve_step : Wiring → ℕ → Outcome A → Relay A → Relay A
  unfolding serve_phase
  serve_step w d o s = serve_phase w d (s.servers d) o s (s.servers d).phase
