-- ===== src/Cpu/Apply/Warmup/Covers.antt =====
-- The warm-up of src/cpu_backend.cpp over the slots that follow a profile swap.
use native.Mathlib.Nat.{div-add-mod, mod-lt, div-le_self, mul-le-mul_left}
use ocudu_channel.Common.{
  ℕ, suc, ◌+◌, ◌-◌, ◌*◌, ◌≤◌, ◌<◌, ◌≡◌, sym, ap, ◌∙◌, subst, true, false, List, [], ◌∷◌,
  if◌then◌else◌, ◌==◌, leb, length, length-append, length-replicate, replicate, drop, Signal, ok,
  >>=-ok, All, arith, add64, word_mod,
}
use ocudu_channel.Config.{ModelStep}
use ocudu_channel.Iq.{IqSample, silence}
use ocudu_channel.Delay.{roll}
use ocudu_channel.Delay.Slots.{drop-append_ge}
use ocudu_channel.Delay.Slots.Stream.{joined, roll_all, roll_all-drop}
use ocudu_channel.Cpu.{Random, LinkState, leads_with_tdl}
use ocudu_channel.Cpu.Apply.{warmup_slots, serve_link}
use ocudu_channel.Cpu.Apply.Warmup.{
  ok-injective, closed, Arms, begin_slot-Quiet, begin_slot-Armed, front, clear_tdl-front,
  serve_link-Served, serve_slots, Warming,
}

warmup_slots-le : (size count : ℕ) → 0 < count → warmup_slots size count ≤ size + count
unfolding warmup_slots
warmup_slots-le size count h =
    let none_zero : (count == 0) ≡ false = ground arith in
    rw none_zero (omega (arith, div-le_self (size + count - 1) count))

-- That many slots have as many samples as the delay line.
warmup_slots_fill : (size count : ℕ) → 0 < count → size ≤ count * warmup_slots size count
unfolding warmup_slots
warmup_slots_fill size count h =
    let none_zero : (count == 0) ≡ false = ground arith in
    rw none_zero (omega (arith, div-add-mod (size + count - 1) count, mod-lt (size + count - 1) h))

length-joined {ℓ} :
    {A : Type ℓ} (count : ℕ) (xss : List (List A))
    → All (λ (x : List A). length x ≡ count) xss
    → length (joined xss) ≡ count * length xss
length-joined count [] h = omega arith
length-joined count (xs ∷ xss) h =
    grind (arith, length-append xs (joined xss), h.0, length-joined count xss (h.1))

module _ {N U F G : Type 0} (sg : Signal F G) (rnd : Random N U F G) (chain : List (ModelStep F))
    (rate : ℕ) where
  serve_link-Warming :
      (first span k : ℕ) (stream input out : List (IqSample G)) (s t : LinkState N F G)
      → leads_with_tdl chain ≡ true
      → 1 ≤ k
      → first + k + 1 < word_mod
      → Warming sg rnd first span k stream s
      → serve_link sg rnd chain input rate s ≡ ok (out, t)
      → Warming sg rnd first span (k + 1) (roll sg input stream) t
  serve_link-Warming first span k stream input out s t leads begun small w e =
      let q = begin_slot-Quiet sg chain (length input) s w.quiet in
      let v = serve_link-Served sg rnd chain input out rate s t leads e in
      record {
        at_slot = omega (arith, v.same_slot, q.next_grown, w.at_slot);
        quiet = v.same_seqno ∙ q.still_quiet ∙ sym v.same_live;
        until =
            v.same_until
            ∙ q.until_closed
            ∙ ap (λ n. closed n s.warmup_until_slot) w.at_slot
            ∙ ap (closed (first + k)) w.until
            ∙ closed_next;
        told = v.same_told ∙ q.told ∙ sym v.same_until;
        line =
            v.rolled ∙ ap (λ l. roll sg input (front l)) q.same_steps ∙ ap (roll sg input) w.line;
      }
    where
      closed_next :
          closed (first + k) (if leb k span then first + span else 0)
          ≡ (if leb (k + 1) span then first + span else 0)
      closed_next = ground arith

  serve_slots-Warming :
      (first span : ℕ) (inputs : List (List (IqSample G))) (k n : ℕ) (stream : List (IqSample G))
      (s t : LinkState N F G)
      → leads_with_tdl chain ≡ true
      → 1 ≤ k
      → n ≡ k + length inputs
      → first + n < word_mod
      → Warming sg rnd first span k stream s
      → serve_slots sg rnd chain rate inputs s ≡ ok t
      → Warming sg rnd first span n (roll_all sg inputs stream) t
  unfolding serve_slots roll_all
  serve_slots-Warming first span [] k n stream s t leads begun count small w e =
      let same : k ≡ n = omega arith in
      subst (λ m. Warming sg rnd first span m stream t) same
        (subst (λ u. Warming sg rnd first span k stream u) (ok-injective e) w)
  serve_slots-Warming first span (input ∷ inputs) k n stream s t leads begun count small w e =
      let (r, one, rest) =
        >>=-ok (serve_link sg rnd chain input rate s)
          (λ (r : List (IqSample G) × LinkState N F G). serve_slots sg rnd chain rate inputs (r.1))
          e in
      serve_slots-Warming first span inputs (k + 1) n (roll sg input stream) (r.1) t leads
        (omega arith) (omega arith) small
        (serve_link-Warming first span k stream input (r.0) s (r.1) leads begun (omega arith) w one)
        rest

  -- The slot that takes up the profile.
  first-Warming :
      (input out : List (IqSample G)) (s t : LinkState N F G)
      → leads_with_tdl chain ≡ true
      → Arms sg s
      → s.next_slot + 1 < word_mod
      → s.next_slot + warmup_slots (length (front s.steps)) (length input) < word_mod
      → serve_link sg rnd chain input rate s ≡ ok (out, t)
      → Warming sg rnd s.next_slot
          (warmup_slots (length (front s.steps)) (length input))
          1
          (roll sg input (replicate (length (front s.steps)) (silence sg)))
          t
  first-Warming input out s t leads arms small unwrapped e =
      let a = begin_slot-Armed sg chain (length input) s arms in
      let v = serve_link-Served sg rnd chain input out rate s t leads e in
      let (blank, size) = clear_tdl-front sg chain s.steps leads in
      record {
        at_slot = omega (arith, v.same_slot, a.next_grown);
        quiet = v.same_seqno ∙ a.quiet ∙ sym v.same_live;
        until =
            v.same_until
            ∙ a.until_closed
            ∙ ap (λ n. closed s.next_slot (add64 s.next_slot (warmup_slots n (length input)))) size
            ∙ closed_first;
        told = v.same_told ∙ a.told ∙ sym v.same_until;
        line = v.rolled ∙ ap (λ l. roll sg input (front l)) a.cleared ∙ ap (roll sg input) blank;
      }
    where
      span : ℕ
      span = warmup_slots (length (front s.steps)) (length input)

      closed_first :
          closed s.next_slot (add64 s.next_slot span)
          ≡ (if leb 1 span then s.next_slot + span else 0)
      closed_first = ground (arith, unwrapped)

  -- For a chain that leads with a tdl step, from a slot at which a new profile is due and pending, and
  -- with no request after it: over slots of `count` samples each, the snapshot of the k-th slot has
  -- the end of the warm-up if `k` is at most the number of slots that fill the delay line, and 0
  -- otherwise; and from as many slots on, the delay line has samples of these slots only.
  pub serve_slots_warmup :
      (input : List (IqSample G)) (inputs : List (List (IqSample G))) (count : ℕ)
      (s t : LinkState N F G)
      → leads_with_tdl chain ≡ true
      → Arms sg s
      → 0 < count
      → All (λ (x : List (IqSample G)). length x ≡ count) (input ∷ inputs)
      → s.next_slot + length (front s.steps) + count + length inputs + 1 < word_mod
      → serve_slots sg rnd chain rate (input ∷ inputs) s ≡ ok t
      → (t.published.warmup_until ≡ (
          if leb (length (input ∷ inputs)) (warmup_slots (length (front s.steps)) count)
          then s.next_slot + warmup_slots (length (front s.steps)) count
          else 0))
        × (warmup_slots (length (front s.steps)) count ≤ length (input ∷ inputs)
            → front t.steps
              ≡ drop
                  (length (joined (input ∷ inputs)) - length (front s.steps))
                  (joined (input ∷ inputs)))
  unfolding serve_slots roll_all
  serve_slots_warmup input inputs count s t leads arms some_count sizes small e =
      let (r, one, rest) =
        >>=-ok (serve_link sg rnd chain input rate s)
          (λ (r : List (IqSample G) × LinkState N F G). serve_slots sg rnd chain rate inputs (r.1))
          e in
      let bound : warmup_slots size count ≤ size + count = warmup_slots-le size count some_count in
      let started =
        subst
          (λ n.
            Warming sg rnd s.next_slot (warmup_slots size n) 1
              (roll sg input (replicate size (silence sg))) (r.1))
          (sizes.0)
          (first-Warming input (r.0) s (r.1) leads arms (omega arith)
            (subst (λ n. s.next_slot + warmup_slots size n < word_mod) (sym (sizes.0))
              (omega arith))
            one) in
      let w =
        serve_slots-Warming s.next_slot (warmup_slots size count) inputs 1 (suc (length inputs))
          (roll sg input (replicate size (silence sg))) (r.1) t leads (omega arith) (omega arith)
          (omega arith) started rest in
      (w.told ∙ w.until, λ over. w.line ∙ filled over)
    where
      size : ℕ
      size = length (front s.steps)

      filled :
          warmup_slots size count ≤ length (input ∷ inputs)
          → roll_all sg (input ∷ inputs) (replicate size (silence sg))
            ≡ drop (length (joined (input ∷ inputs)) - size) (joined (input ∷ inputs))
      filled over =
          roll_all-drop sg (input ∷ inputs) (replicate size (silence sg))
          ∙ drop-append_ge (length (joined (input ∷ inputs))) (replicate size (silence sg))
              (joined (input ∷ inputs)) enough
          ∙ ap (λ n. drop (length (joined (input ∷ inputs)) - n) (joined (input ∷ inputs)))
              (length-replicate size (silence sg))
        where
          enough : length (replicate size (silence sg)) ≤ length (joined (input ∷ inputs))
          enough = omega (
            arith,
            length-replicate size (silence sg),
            length-joined count (input ∷ inputs) sizes,
            warmup_slots_fill size count some_count,
            mul-le-mul_left count over,
          )
