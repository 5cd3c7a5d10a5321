-- ===== src/Telemetry.antt =====
-- The telemetry block of include/ocudu_gpu_channel/runtime_control.h: `publish_telemetry_snapshot` in
-- the server thread and `read_telemetry_snapshot` in the telemetry thread, as interleaved steps. A
-- snapshot is copied word by word, and the other thread may move between two words.
pub mod Untorn
mod Examples
use ocudu_channel.Common.{
  ℕ, zero, suc, ◌+◌, ◌%◌, ◌<◌, ◌≤◌, ◌≡◌, refl, Bool, true, false, List, [], ◌∷◌, ◌==◌,
  if◌then◌else◌, ltb, update, add64, word_mod,
}

-- The words of a TelemetrySnapshot, by index.
abbrev pub Words : Type 0 → Type 0
Words W = ℕ → W

-- The writer is between two calls, or has stored the odd value after `pre` and copied `k` words.
pub data Writer (W : Type 0) : Type 0 where
  idle : Writer W
  filling : ℕ → Words W → ℕ → Writer W

-- The reader is at the start of an attempt with the copy so far, or has loaded `pre` and copied `k`
-- words, or has returned: from an attempt whose two loads agreed, or after the last attempt.
pub data Reader (W : Type 0) : Type 0 where
  attempt : ℕ → Words W → Reader W
  copying : ℕ → ℕ → ℕ → Words W → Reader W
  consistent : Words W → Reader W
  gave_up : Words W → Reader W

-- `published` has the snapshots whose call has ended, the latest first, down to the initial one.
pub record Telemetry (W : Type 0) : Type 0 where
  pub write_seq : ℕ
  pub memory : Words W
  pub writer : Writer W
  pub reader : Reader W
  pub latest : Words W
  pub published : List (Words W)

module _ {W : Type 0} (size : ℕ) where
  -- The writer's next step; `snap` is what a new call publishes.
  write_by : Words W → Telemetry W → Writer W → Telemetry W
  write_by snap s idle = record s {
    write_seq = add64 s.write_seq 1;
    writer = filling s.write_seq snap 0;
  }
  write_by snap s (filling pre new k) =
      if ltb k size
      then record s { memory = update s.memory k (new k); writer = filling pre new (k + 1) }
      else record s {
        write_seq = add64 pre 2;
        writer = idle;
        latest = new;
        published = new ∷ s.published;
      }

  unfoldable pub publish_step : Words W → Telemetry W → Telemetry W
  unfolding write_by
  publish_step snap s = write_by snap s s.writer

module _ {W : Type 0} (size max_retries : ℕ) where
  -- The reader's next step. The loads of an attempt that fails lead to the next attempt.
  read_by : Telemetry W → Reader W → Telemetry W
  read_by s (attempt n copy) =
      if ltb n max_retries
      then if s.write_seq % 2 == 1
        then record s { reader = attempt (n + 1) copy }
        else record s { reader = copying n s.write_seq 0 copy }
      else record s { reader = gave_up copy }
  read_by s (copying n pre k copy) =
      if ltb k size
      then record s { reader = copying n pre (k + 1) (update copy k (s.memory k)) }
      else if pre == s.write_seq
      then record s { reader = consistent copy }
      else record s { reader = attempt (n + 1) copy }
  read_by s (consistent copy) = s
  read_by s (gave_up copy) = s

  unfoldable pub read_step : Telemetry W → Telemetry W
  unfolding read_by
  read_step s = read_by s s.reader

  -- Either thread moves next. The sequence stays below 2^64, and so does not return to an old value.
  pub data Step (s : Telemetry W) : Telemetry W → Type 0 where
    writes : (snap : Words W) → s.write_seq + 2 < word_mod → Step s (publish_step size snap s)
    reads : Step s (read_step s)

  pub data Reach (s : Telemetry W) : Telemetry W → Type 0 where
    here : Reach s s
    next : {t u : Telemetry W} → Reach s t → Step t u → Reach s u

-- A new block, whose reader starts with the copy `TelemetrySnapshot{}`.
module _ {W : Type 0} where
  unfoldable pub initial : Words W → Telemetry W
  initial blank = record {
    write_seq = 0;
    memory = blank;
    writer = idle;
    reader = attempt 0 blank;
    latest = blank;
    published = blank ∷ [];
  }
