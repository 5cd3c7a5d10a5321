-- ===== src/Ring/Examples.antt =====
-- A ring of four slots on concrete calls, and the theorems of the ring at work on it.
use ocudu_channel.Common.{
  ℕ, ◌-◌, ◌≡◌, refl, List, [], ◌∷◌, ◌++◌, length, drop, none, some, true, false, arith,
}
use ocudu_channel.Ring.{IqRing, push, discard_before, read}
use ocudu_channel.Ring.Bounds.{IsValid, Trimmed, push-IsValid, discard_before-Trimmed}
use ocudu_channel.Ring.Stream.{contents, Holds, push-stream, read-inside}
use ocudu_channel.Ring.Discard.{discard_before-stream}
use ocudu_channel.Ring.Log.{
  Op, put, get, trim, Log, log_run, log_step, Refines, run, run-log_run, accepted, samples, trimmed,
}

-- Samples 12 to 14 of a stream, the last of them round the end of the buffer.
abbrev wrapped : IqRing ℕ
wrapped = record { buffer = 14 ∷ 9 ∷ 12 ∷ 13 ∷ []; next_sequence = 5; start = 2; size = 3 }

abbrev sent : List ℕ
sent = 10 ∷ 11 ∷ 12 ∷ 13 ∷ 14 ∷ []

abbrev view : Log ℕ
view = record { slots = 4; stream = sent; earliest = 2 }

wrapped-IsValid : IsValid wrapped
wrapped-IsValid = omega arith

wrapped-Holds : Holds 0 wrapped sent
wrapped-Holds = record { counted = refl; held = refl }

wrapped-Refines : Refines 0 wrapped view
wrapped-Refines = record {
  valid = wrapped-IsValid;
  holds = wrapped-Holds;
  oldest = refl;
  sized = refl;
}

abbrev script : List (Op ℕ)
script = get 2 3 ∷ put (15 ∷ 16 ∷ []) ∷ trim 3 ∷ put (15 ∷ 16 ∷ []) ∷ get 2 1 ∷ get 5 2 ∷ []

read_wraps : read 0 wrapped 2 3 ≡ some (12 ∷ 13 ∷ 14 ∷ [])
unfolding read
read_wraps = refl

push_refused : (push wrapped (15 ∷ 16 ∷ [])).0 ≡ false
unfolding push
push_refused = refl

push-IsValid_example : IsValid (push wrapped (15 ∷ [])).1
push-IsValid_example = push-IsValid (15 ∷ []) wrapped-IsValid (omega arith) (omega arith)

discard_trims : Trimmed wrapped 4 (discard_before wrapped 4)
discard_trims = discard_before-Trimmed 4 wrapped-IsValid

push_accepts :
    ((push wrapped (15 ∷ [])).0 ≡ true) × Holds 0 (push wrapped (15 ∷ [])).1 (sent ++ 15 ∷ [])
push_accepts =
    push-stream 0 (15 ∷ []) sent wrapped-IsValid wrapped-Holds (omega arith) (omega arith)

read-inside_example : read 0 wrapped 3 2 ≡ some (13 ∷ 14 ∷ [])
read-inside_example =
    read-inside 0 sent 3 2 wrapped-IsValid wrapped-Holds (omega arith) (omega arith) (omega arith)

discard_before-stream_example :
    (contents 0 (discard_before wrapped 4) ≡ drop 4 sent)
    × ((discard_before wrapped 4).size ≡ length sent - 4)
    × ((discard_before wrapped 4).next_sequence ≡ wrapped.next_sequence)
discard_before-stream_example = discard_before-stream 0 sent 4 wrapped-IsValid wrapped-Holds

run-log_run_example :
    run 0 wrapped script
    ≡ samples (some (12 ∷ 13 ∷ 14 ∷ []))
      ∷ accepted false
      ∷ trimmed
      ∷ accepted true
      ∷ samples none
      ∷ samples (some (15 ∷ 16 ∷ []))
      ∷ []
unfolding log_run log_step
run-log_run_example = run-log_run 0 script 5 {l = view} (omega arith) (omega arith) wrapped-Refines
