-- ===== src/Ring/Log.antt =====
-- The abstract view of IqRing: a log of all samples pushed, of which those from `earliest` on can be
-- read.
use ocudu_channel.Common.{
  ℕ, zero, suc, sym, ◌+◌, ◌-◌, ◌^◌, ◌<◌, ◌≤◌, max, min, ◌≡◌, refl, ap, ap₂, List, [], ◌∷◌, ◌++◌,
  Bool, true, false, Option, none, some, arith, length, take, drop, length-append, word_mod, leb,
  ◌==◌, ◌&&◌, ◌||◌, if◌then◌else◌, dec_le, Bool-cases, inl, inr,
}
use ocudu_channel.Ring.{IqRing, capacity, push, read, discard_before, reset}
use ocudu_channel.Ring.Bounds.{
  IsValid, push-fits, push-full, push_samples-Grown, discard_before-Trimmed, reset-IsValid,
}
use ocudu_channel.Ring.Stream.{Holds, push_samples-Holds, read-inside, read-outside}
use ocudu_channel.Ring.Discard.{discard_before-Holds}

-- The calls that a holder of the ring's lock makes, and what it sees of each.
pub data Op {ℓ} (A : Type ℓ) : Type ℓ where
  put : List A → Op A
  get : ℕ → ℕ → Op A
  trim : ℕ → Op A

pub data Reply {ℓ} (A : Type ℓ) : Type ℓ where
  accepted : Bool → Reply A
  samples : Option (List A) → Reply A
  trimmed : Reply A

pub record Log {ℓ} (A : Type ℓ) : Type ℓ where
  pub slots : ℕ
  pub stream : List A
  pub earliest : ℕ

module _ {ℓ} {A : Type ℓ} where
  -- How many samples the log retains.
  abbrev pub retained : Log A → ℕ
  retained l = length l.stream - l.earliest

  unfoldable pub log_step : Log A → Op A → Reply A × Log A
  log_step l (put xs) =
      if leb (retained l + length xs) l.slots
      then (accepted true, record l { stream = l.stream ++ xs })
      else (accepted false, l)
  log_step l (get sequence n) = (
    samples (
        if n == 0 || (leb l.earliest sequence && leb (sequence + n) (length l.stream))
        then some (take n (drop sequence l.stream))
        else none),
    l,
  )
  log_step l (trim sequence) =
      (trimmed, record l { earliest = max l.earliest (min sequence (length l.stream)) })

  unfoldable pub log_run : Log A → List (Op A) → List (Reply A)
  log_run l [] = []
  log_run l (op ∷ ops) = let (reply, l') = log_step l op in reply ∷ log_run l' ops

  -- Calls within the range of the 64-bit counter, from `pushed` samples on.
  abbrev pub InRange : ℕ → List (Op A) → Type 0
  InRange pushed [] = Unit {0}
  InRange pushed (put xs ∷ ops) =
      (length xs < 2 ^ 60) × (pushed + length xs < word_mod) × InRange (pushed + length xs) ops
  InRange pushed (get sequence n ∷ ops) = (sequence + n < word_mod) × InRange pushed ops
  InRange pushed (trim sequence ∷ ops) = InRange pushed ops

module _ {ℓ} {A : Type ℓ} where
  length-log_step_put :
      (l : Log A) (xs : List A)
      → length (log_step l (put xs)).1.stream ≤ length l.stream + length xs
  unfolding log_step
  length-log_step_put l xs = ground (arith, length-append l.stream xs)

module _ {ℓ} {A : Type ℓ} (blank : A) where
  unfoldable pub step : IqRing A → Op A → Reply A × IqRing A
  step r (put xs) = let (taken, r') = push r xs in (accepted taken, r')
  step r (get sequence n) = (samples (read blank r sequence n), r)
  step r (trim sequence) = (trimmed, discard_before r sequence)

  unfoldable pub run : IqRing A → List (Op A) → List (Reply A)
  run r [] = []
  run r (op ∷ ops) = let (reply, r') = step r op in reply ∷ run r' ops

  pub record Refines (r : IqRing A) (l : Log A) : Type ℓ where
    pub valid : IsValid r
    pub holds : Holds blank r l.stream
    pub oldest : l.earliest ≡ r.next_sequence - r.size
    pub sized : l.slots ≡ capacity r

  -- One call: the same reply, and states that still correspond.
  abbrev Simulates : IqRing A → Log A → Op A → Type ℓ
  Simulates r l op = ((step r op).0 ≡ (log_step l op).0) × Refines (step r op).1 (log_step l op).1

  put-Simulates :
      {r : IqRing A} {l : Log A} (xs : List A)
      → length xs < 2 ^ 60
      → length l.stream + length xs < word_mod
      → Refines r l
      → Simulates r l (put xs)
  unfolding step log_step
  put-Simulates {r} {l} xs small unwrapped f = elim (dec_le (r.size + length xs) (capacity r)) [
    | yes room ↦
        let taken : leb (retained l + length xs) l.slots ≡ true =
          ground (arith, f.holds.counted, f.oldest, f.sized) in
        let g = push_samples-Grown xs f.valid room (omega (arith, f.holds.counted)) in
        rw (push-fits xs f.valid room, taken)
          (
            refl,
            record {
              valid = g.valid;
              holds =
                  push_samples-Holds blank xs l.stream f.valid room (omega (arith, f.holds.counted))
                    f.holds;
              oldest = omega arith;
              sized = omega arith;
            },
          )
    | no full ↦
        let refused : leb (retained l + length xs) l.slots ≡ false =
          ground (arith, f.holds.counted, f.oldest, f.sized) in
        rw (push-full xs f.valid small (omega arith), refused) (refl, f)
  ]

  asked : (n : ℕ) → (suc n == 0) ≡ false
  asked n = ground arith

  read_nothing : (r : IqRing A) (sequence : ℕ) → read blank r sequence 0 ≡ some []
  unfolding read
  read_nothing r sequence = refl

  get-answer :
      {r : IqRing A} {l : Log A} (sequence n : ℕ)
      → sequence + n < word_mod
      → Refines r l
      → read blank r sequence n ≡ (
          if n == 0 || (leb l.earliest sequence && leb (sequence + n) (length l.stream))
          then some (take n (drop sequence l.stream))
          else none)
  get-answer {r} sequence zero small f = read_nothing r sequence
  get-answer {r} {l} sequence (suc n) small f =
      elim (Bool-cases (leb l.earliest sequence && leb (sequence + suc n) (length l.stream))) [
        | inl inside ↦
            rw (asked n, inside)
              (read-inside blank l.stream sequence (suc n) f.valid f.holds (omega arith)
                (ground (arith, f.oldest)) (ground arith))
        | inr outside ↦
            rw (asked n, outside)
              (read-outside blank sequence (suc n) f.valid (omega arith) small
                (ground (arith, f.oldest, f.holds.counted)))
      ]

  step-Simulates :
      {r : IqRing A} {l : Log A} (pushed : ℕ) (op : Op A) (ops : List (Op A))
      → InRange pushed (op ∷ ops)
      → length l.stream ≤ pushed
      → Refines r l
      → Simulates r l op
  unfolding step log_step
  step-Simulates {l = l} pushed (put xs) ops h most f = put-Simulates xs h.0 (omega arith) f
  step-Simulates {l = l} pushed (get sequence n) ops h most f =
      (ap samples (get-answer sequence n h.0 f), f)
  step-Simulates {r} {l} pushed (trim sequence) ops h most f =
      let t = discard_before-Trimmed sequence f.valid in
      (
        refl,
        record {
          valid = t.valid;
          holds = discard_before-Holds blank l.stream sequence f.valid f.holds;
          oldest = omega (arith, t.earliest_moved, f.oldest, f.holds.counted);
          sized = omega (arith, t.capacity_same, f.sized);
        },
      )

  -- A ring that refines a log answers every sequence of calls as the log does, as long as the samples
  -- offered do not wrap the sequence counter.
  pub run-log_run :
      (ops : List (Op A)) (pushed : ℕ) {r : IqRing A} {l : Log A}
      → InRange pushed ops
      → length l.stream ≤ pushed
      → Refines r l
      → run r ops ≡ log_run l ops
  unfolding run log_run log_step
  run-log_run [] pushed h most f = refl
  run-log_run (put xs ∷ ops) pushed {l = l} h most f =
      let s = step-Simulates pushed (put xs) ops h most f in
      ap₂ ◌∷◌ s.0
        (run-log_run ops (pushed + length xs) h.2 (omega (arith, length-log_step_put l xs)) s.1)
  run-log_run (get sequence n ∷ ops) pushed h most f =
      let s = step-Simulates pushed (get sequence n) ops h most f in
      ap₂ ◌∷◌ s.0 (run-log_run ops pushed h.1 most s.1)
  run-log_run (trim sequence ∷ ops) pushed h most f =
      let s = step-Simulates pushed (trim sequence) ops h most f in
      ap₂ ◌∷◌ s.0 (run-log_run ops pushed h most s.1)

  pub reset-Refines :
      (slots : ℕ)
      → slots ≤ 2 ^ 60
      → Refines (reset blank slots) (record { slots = slots; stream = []; earliest = 0 })
  unfolding reset
  reset-Refines slots h = record {
    valid = (reset-IsValid blank slots h).0;
    holds = record { counted = refl; held = refl };
    oldest = refl;
    sized = sym (reset-IsValid blank slots h).1;
  }
