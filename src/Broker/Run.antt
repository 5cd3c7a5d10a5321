-- ===== src/Broker/Run.antt =====
-- The worker threads of Broker::run together: any interleaving of their steps.
pub mod Delivery
mod Examples
use ocudu_channel.Common.{ℕ, ◌+◌, ◌^◌, ◌<◌, true, false, [], length}
use ocudu_channel.Ring.{reset}
use ocudu_channel.Broker.State.{Wiring, no_diag, top, wait_req, Relay, Outcome}
use ocudu_channel.Broker.Puller.{pull_step}
use ocudu_channel.Broker.Server.{serve_step}

module _ {ℓ} {A : Type ℓ} (blank : A) where
  -- The threads run in any order; anyone may ask to stop. Runs are those on which no sequence
  -- counter wraps: fewer than 2^64 samples from a device, less than 2^60 in a message.
  pub data Step (w : Wiring) (s : Relay A) : Relay A → Type ℓ where
    pulls :
        (d : ℕ) (o : Outcome A)
        → length (s.pullers d).pending < 2 ^ 60
        → length (s.received d) + length (s.pullers d).pending < 2 ^ 64
        → Step w s (pull_step w d o s)
    serves : (d : ℕ) (o : Outcome A) → Step w s (serve_step blank w d o s)
    stops : Step w s (record s { stop = true })

  pub data Reach (w : Wiring) (s : Relay A) : Relay A → Type ℓ where
    here : Reach w s s
    next : {t u : Relay A} → Reach w s t → Step w t u → Reach w s u

  -- What `run` starts the threads from.
  unfoldable pub initial : Wiring → Relay A
  initial w = record {
    rings = λ _. reset blank w.queue_samples;
    links = λ _. record { cursor = 0; cursor_init = false };
    pullers = λ _. record {
      phase = top;
      room = 0;
      request_outstanding = false;
      pending = [];
      pending_counted = false;
      diag = no_diag;
    };
    servers = λ _. record {
      phase = wait_req;
      epoch_set = false;
      served = 0;
      starvation_counted = false;
      diag = no_diag;
    };
    stats = record {
      tx_pulls = 0;
      rx_requests = 0;
      rx_starvations = 0;
      tx_queue_overflows = 0;
      tx_sequence_gaps = 0;
      zmq_errors = 0;
    };
    stop = false;
    received = λ _. [];
    delivered = λ _. [];
  }
