-- ===== src/Broker/State.antt =====
-- The state of Broker::run in src/broker.cpp: the rings and link cursors, the locals of each worker
-- thread, and the counters. A thread is a phase with its local variables.
use ocudu_channel.Common.{ℕ, ◌+◌, Bool, true, List, ◌==◌, update, indices, filter_by}
use ocudu_channel.Ring.{IqRing}

-- What is fixed for a run: `links` and `devices` by index, the batch and rate of each device, and
-- the capacity of the rings.
pub record Wiring : Type 0 where
  pub link_count : ℕ
  pub src_index : ℕ → ℕ
  pub dst_index : ℕ → ℕ
  pub batch : ℕ → ℕ
  pub rate : ℕ → ℕ
  pub queue_samples : ℕ

-- The atomics of `LinkRuntime`.
pub record Link : Type 0 where
  pub cursor : ℕ
  pub cursor_init : Bool

pub record Stats : Type 0 where
  pub tx_pulls : ℕ
  pub rx_requests : ℕ
  pub rx_starvations : ℕ
  pub tx_queue_overflows : ℕ
  pub tx_sequence_gaps : ℕ
  pub zmq_errors : ℕ

-- `WorkerDiag`, less its time stamps.
pub record Diag : Type 0 where
  pub progress : ℕ
  pub idle_waits : ℕ
  pub blocked_iters : ℕ
  pub last_samples : ℕ

abbrev pub no_diag : Diag
no_diag = record { progress = 0; idle_waits = 0; blocked_iters = 0; last_samples = 0 }

pub data PullerPhase : Type 0 where
  top body halted : PullerPhase

-- The locals of `run_puller`; `pending` is the piece of `recv_buf` that is not in the ring yet.
pub record Puller {ℓ} (A : Type ℓ) : Type ℓ where
  pub phase : PullerPhase
  pub room : ℕ
  pub request_outstanding : Bool
  pub pending : List A
  pub pending_counted : Bool
  pub diag : Diag

-- Where `run_server` stands; a list of links is what a loop has still before it.
pub data ServerPhase {ℓ} (A : Type ℓ) : Type ℓ where
  wait_req gather failed vanished stopped : ServerPhase A
  align : List ℕ → ServerPhase A
  measure : List ℕ → ℕ → ServerPhase A
  read_edges : List ℕ → ℕ → List (List A) → ServerPhase A
  advance : ℕ → List A → List ℕ → ℕ → List (List A) → ServerPhase A
  sending : ℕ → List (List A) → ServerPhase A

pub record Server {ℓ} (A : Type ℓ) : Type ℓ where
  pub phase : ServerPhase A
  pub epoch_set : Bool
  pub served : ℕ
  pub starvation_counted : Bool
  pub diag : Diag

-- `received` and `delivered` are history: what each puller put into its ring, and what each link
-- handed to the superposition. The code keeps neither.
pub record Relay {ℓ} (A : Type ℓ) : Type ℓ where
  pub rings : ℕ → IqRing A
  pub links : ℕ → Link
  pub pullers : ℕ → Puller A
  pub servers : ℕ → Server A
  pub stats : Stats
  pub stop : Bool
  pub received : ℕ → List A
  pub delivered : ℕ → List A

-- The links that end in device `d`, in order.
abbrev pub incoming : Wiring → ℕ → List ℕ
incoming w d = filter_by (λ i. w.dst_index i == d) (indices 0 w.link_count)

-- What a ZMQ call came back with: `payload samples stray` is a message of `stray` bytes more than
-- the whole samples in it, `broken` an error that is neither EAGAIN nor EINTR, or an exception of the
-- channel processor.
pub data Outcome {ℓ} (A : Type ℓ) : Type ℓ where
  done timeout broken : Outcome A
  payload : List A → ℕ → Outcome A

abbrev pub bump_idle : Diag → Diag
bump_idle g = record g { idle_waits = g.idle_waits + 1 }

abbrev pub bump_blocked : Diag → Diag
bump_blocked g = record g { blocked_iters = g.blocked_iters + 1 }

module _ {ℓ} {A : Type ℓ} where
  abbrev pub set_puller : ℕ → Puller A → Relay A → Relay A
  set_puller d p s = record s { pullers = update s.pullers d p }

  abbrev pub set_server : ℕ → Server A → Relay A → Relay A
  set_server d v s = record s { servers = update s.servers d v }

  -- An exception in a worker: count it, and ask everybody to stop.
  abbrev pub report_thread_error : Relay A → Relay A
  report_thread_error s = record s {
    stats = record (s.stats) { zmq_errors = s.stats.zmq_errors + 1 };
    stop = true;
  }
