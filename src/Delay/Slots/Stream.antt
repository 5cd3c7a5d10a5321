-- ===== src/Delay/Slots/Stream.antt =====
-- Calls of `apply_tdl_step` of include/ocudu_gpu_channel/delay.h on the slots of a stream, one after
-- the other.
use ocudu_channel.Common.{
  ◌+◌, ◌≡◌, refl, sym, ap, ap₂, ◌∙◌, subst, List, [], ◌∷◌, ◌++◌, arith, length, drop,
  drop-append_le, drop-drop, length-append, Signal, All, append_assoc, append-nil,
}
use ocudu_channel.Runtime.{TapSpec}
use ocudu_channel.Iq.{IqSample}
use ocudu_channel.Delay.{outputs, roll, apply_tdl_step}
use ocudu_channel.Delay.Slots.{roll-drop, length-roll}
use ocudu_channel.Delay.Slots.Reference.{
  reference, Reaches, HasFilterTaps, outputs-reference, reference-append, reference-drop,
  reference-add,
}

abbrev pub joined {ℓ} : {A : Type ℓ} → List (List A) → List A
joined [] = []
joined (xs ∷ xss) = xs ++ joined xss

module _ {F G : Type 0} (sg : Signal F G) where
  -- The delay line after several slots.
  unfoldable pub roll_all : List (List (IqSample G)) → List (IqSample G) → List (IqSample G)
  roll_all [] line = line
  roll_all (slot ∷ slots) line = roll_all slots (roll sg slot line)

  -- What is left of the stream after a slot, with the rest of the stream.
  rolled :
      (slot rest line : List (IqSample G))
      → roll sg slot line ++ rest ≡ drop (length slot) (line ++ (slot ++ rest))
  rolled slot rest line =
      ap (λ l. l ++ rest) (roll-drop sg slot line)
      ∙ sym (
          drop-append_le (length slot) (line ++ slot) rest (omega (arith, length-append line slot)))
      ∙ ap (drop (length slot)) (append_assoc line slot rest)

  pub roll_all-drop :
      (slots : List (List (IqSample G))) (line : List (IqSample G))
      → roll_all slots line ≡ drop (length (joined slots)) (line ++ joined slots)
  unfolding roll_all
  roll_all-drop [] line = sym (append-nil line)
  roll_all-drop (slot ∷ slots) line =
      roll_all-drop slots (roll sg slot line)
      ∙ ap (drop (length (joined slots))) (rolled slot (joined slots) line)
      ∙ drop-drop (length (joined slots)) (length slot) (line ++ (slot ++ joined slots))
      ∙ ap (λ n. drop n (line ++ (slot ++ joined slots))) (sym (length-append slot (joined slots)))

module _ {F G : Type 0} (sg : Signal F G) (taps : List (TapSpec F))
    (polyphase : List (List G)) where
  -- The outputs of all slots, and the delay line in the end.
  unfoldable pub run_slots :
      List (List (IqSample G)) → List (IqSample G) → List (IqSample G) × List (IqSample G)
  run_slots [] line = ([], line)
  run_slots (slot ∷ slots) line =
      let (out, line') = apply_tdl_step sg slot taps polyphase line in
      let (outs, last) = run_slots slots line' in (out ++ outs, last)

  slots_last :
      (slots : List (List (IqSample G))) (line : List (IqSample G))
      → (run_slots slots line).1 ≡ roll_all sg slots line
  unfolding run_slots apply_tdl_step roll_all
  slots_last [] line = refl
  slots_last (slot ∷ slots) line = slots_last slots (roll sg slot line)

  slots-outputs :
      (slots : List (List (IqSample G))) (line : List (IqSample G))
      → All (Reaches sg (length line)) taps
      → All (HasFilterTaps sg) polyphase
      → (run_slots slots line).0
        ≡ reference sg (line ++ joined slots) taps polyphase (length line) (length (joined slots))
  unfolding run_slots apply_tdl_step reference
  slots-outputs [] line reach full = refl
  slots-outputs (slot ∷ slots) line reach full =
      ap₂ ◌++◌ first (
        slots-outputs slots (roll sg slot line)
          (subst (λ n. All (Reaches sg n) taps) (sym same_room) reach) full
        ∙ later)
      ∙ sym (
          reference-add sg stream taps polyphase (length line) (length slot)
            (length (joined slots)))
      ∙ ap (reference sg stream taps polyphase (length line))
          (sym (length-append slot (joined slots)))
    where
      stream : List (IqSample G)
      stream = line ++ (slot ++ joined slots)

      same_room : length (roll sg slot line) ≡ length line
      same_room = length-roll sg slot line

      first :
          outputs sg slot line taps polyphase 0 (length slot)
          ≡ reference sg stream taps polyphase (length line) (length slot)
      first =
          outputs-reference sg slot line taps polyphase 0 (length slot) (omega arith) reach full
          ∙ ap (λ at. reference sg (line ++ slot) taps polyphase at (length slot)) (omega arith)
          ∙ sym (
              reference-append sg (line ++ slot) (joined slots) (length line) taps polyphase
                (length line) (length slot) (omega (arith, length-append line slot)) reach full)
          ∙ ap (λ s. reference sg s taps polyphase (length line) (length slot))
              (append_assoc line slot (joined slots))

      later :
          reference sg
            (roll sg slot line ++ joined slots)
            taps
            polyphase
            (length (roll sg slot line))
            (length (joined slots))
          ≡ reference sg stream taps polyphase (length line + length slot) (length (joined slots))
      later =
          ap₂ (λ s at. reference sg s taps polyphase at (length (joined slots)))
            (rolled sg slot (joined slots) line) same_room
          ∙ reference-drop sg (length slot) stream (length line) taps polyphase (length line)
              (length line + length slot) (length (joined slots)) (omega arith) (omega arith) reach
              full

  -- For taps that delay by three samples at least, and by four less than the delay line holds at
  -- most, with filters of eight coefficients: however the stream is cut into slots, the outputs of
  -- all calls in a row are the filters' over the delay line and the whole stream, and the delay line
  -- ends as the last samples of these.
  pub run_slots-reference :
      (slots : List (List (IqSample G))) (line : List (IqSample G))
      → All (Reaches sg (length line)) taps
      → All (HasFilterTaps sg) polyphase
      → ((run_slots slots line).0
          ≡ reference sg
              (line ++ joined slots)
              taps
              polyphase
              (length line)
              (length (joined slots)))
        × ((run_slots slots line).1 ≡ drop (length (joined slots)) (line ++ joined slots))
  run_slots-reference slots line reach full =
      (slots-outputs slots line reach full, slots_last slots line ∙ roll_all-drop sg slots line)
