-- ===== src/Broker/Puller.antt =====
-- `run_puller` of src/broker.cpp: ZMQ REQ to ring. One step is the section under the ring's lock, or
-- the rest of the loop's body, where a ZMQ call's outcome is an input.
pub mod Release
pub mod Keeps
use ocudu_channel.Common.{
  ℕ, zero, ◌+◌, ◌^◌, ◌<◌, Bool, true, false, not, ◌&&◌, ◌||◌, Option, none, some, List, [], ◌∷◌,
  ◌++◌, ltb, leb, ◌==◌, if◌then◌else◌, length, add64, sub64, min, max, update, is_empty, indices,
  filter_by,
}
use ocudu_channel.Ring.{IqRing, earliest_sequence, free_capacity, push, read, discard_before, reset}
use ocudu_channel.Broker.State.{
  Wiring, Link, Stats, Diag, no_diag, PullerPhase, top, body, halted, Puller, ServerPhase, wait_req,
  gather, failed, stopped, align, measure, read_edges, advance, sending, Server, Relay, incoming,
  Outcome, done, timeout, broken, payload, bump_idle, bump_blocked, set_puller, set_server,
  report_thread_error,
}

-- The puller's scan of the links that read its ring.
pub record Scanned : Type 0 where
  pub min_cursor : ℕ
  pub has_consumer : Bool
  pub has_outgoing : Bool

scan_link : Wiring → (ℕ → Link) → ℕ → ℕ → Scanned → ℕ → Scanned
scan_link w links d earliest acc i =
    if not (w.src_index i == d)
    then acc
    else if not (links i).cursor_init
    then record acc { min_cursor = earliest; has_outgoing = true }
    else record {
      min_cursor = min acc.min_cursor (links i).cursor;
      has_consumer = true;
      has_outgoing = true;
    }

scan : Wiring → (ℕ → Link) → ℕ → ℕ → Scanned → List ℕ → Scanned
scan w links d earliest acc [] = acc
scan w links d earliest acc (i ∷ is) =
    scan w links d earliest (scan_link w links d earliest acc i) is

module _ {ℓ} {A : Type ℓ} where
  -- Dropping what every consumer has read; with no outgoing link, everything.
  release_by : Scanned → IqRing A → IqRing A
  release_by found ring =
      if not found.has_outgoing
      then discard_before ring ring.next_sequence
      else if found.has_consumer
      then discard_before ring found.min_cursor
      else ring

  abbrev scan_all : Wiring → (ℕ → Link) → ℕ → IqRing A → Scanned
  scan_all w links d ring =
      scan w links d (earliest_sequence ring)
        (record { min_cursor = ring.next_sequence; has_consumer = false; has_outgoing = false })
        (indices 0 w.link_count)

  -- The first locked section of the loop.
  unfoldable pub release : Wiring → (ℕ → Link) → ℕ → IqRing A → IqRing A
  unfolding scan scan_link release_by
  release w links d ring = release_by (scan_all w links d ring) ring

module _ {ℓ} {A : Type ℓ} where
  -- The thread's handler: the puller is gone after an exception.
  halt_puller : ℕ → Puller A → Relay A → Relay A
  halt_puller d p s = report_thread_error (set_puller d (record p { phase = halted }) s)

  -- The `pending > 0` branch: the message is kept and tried again until the ring has room.
  land : ℕ → Puller A → Relay A → Relay A
  land d p s =
      let (pushed, ring) = push (s.rings d) p.pending in
      if pushed
      then record s {
        rings = update s.rings d ring;
        pullers = update s.pullers d (record {
          phase = top;
          room = p.room;
          request_outstanding = p.request_outstanding;
          pending = [];
          pending_counted = false;
          diag = record (p.diag) {
            progress = p.diag.progress + 1;
            last_samples = length p.pending;
          };
        });
        stats = record (s.stats) { tx_pulls = s.stats.tx_pulls + 1 };
        received = update s.received d (s.received d ++ p.pending);
      }
      else record s {
        pullers =
            update s.pullers d
              (record p { phase = top; pending_counted = true; diag = bump_blocked p.diag });
        stats = record (s.stats) {
          tx_queue_overflows =
              if p.pending_counted
              then s.stats.tx_queue_overflows
              else s.stats.tx_queue_overflows + 1;
        };
      }

  -- `send_request`
  send_request : ℕ → Puller A → Outcome A → Relay A → Relay A
  send_request d p broken s = halt_puller d p s
  send_request d p timeout s = set_puller d (record p { phase = top; diag = bump_idle p.diag }) s
  send_request d p _ s = set_puller d (record p { request_outstanding = true }) s

  -- `recv_samples_into`, with its checks of the payload, and the hand-over to `pending`.
  receive : Wiring → ℕ → Puller A → Outcome A → Relay A → Relay A
  receive w d p broken s = halt_puller d p s
  receive w d p (payload samples stray) s =
      if not (stray == 0) || ltb (max w.queue_samples (w.batch d)) (length samples)
      then halt_puller d p s
      else set_puller d (record p { phase = top; request_outstanding = false; pending = samples }) s
  receive w d p _ s = set_puller d (record p { phase = top; diag = bump_idle p.diag }) s

  -- The rest of the loop's body, after the locked section has found `room`.
  pull_body : Wiring → ℕ → Puller A → Outcome A → Relay A → Relay A
  unfolding land send_request receive halt_puller
  pull_body w d p o s =
      if not (is_empty p.pending)
      then land d p s
      else if ltb p.room (w.batch d)
      then set_puller d (record p { phase = top; diag = bump_blocked p.diag }) s
      else if not p.request_outstanding
      then send_request d p o s
      else receive w d p o s

  pull_phase : Wiring → ℕ → Puller A → Outcome A → Relay A → PullerPhase → Relay A
  unfolding pull_body release
  pull_phase w d p o s halted = s
  pull_phase w d p o s body = pull_body w d p o s
  pull_phase w d p o s top =
      if s.stop
      then set_puller d (record p { phase = halted }) s
      else let ring = release w s.links d (s.rings d) in
        record s {
          rings = update s.rings d ring;
          pullers = update s.pullers d (record p { phase = body; room = free_capacity ring });
        }

  -- One step of the puller of device `d`.
  unfoldable pub pull_step : Wiring → ℕ → Outcome A → Relay A → Relay A
  unfolding pull_phase
  pull_step w d o s = pull_phase w d (s.pullers d) o s (s.pullers d).phase
