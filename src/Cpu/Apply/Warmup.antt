-- ===== src/Cpu/Apply/Warmup.antt =====
-- Lemmas on the warm-up after a profile swap, in `CpuChannelProcessor::apply_chain_to_link` of
-- src/cpu_backend.cpp.
pub mod Covers
use ocudu_channel.Common.{
  ℕ, drop_all, zero, suc, ◌+◌, ◌-◌, ◌*◌, ◌/◌, ◌%◌, ◌≤◌, ◌<◌, ◌≡◌, ◌≢◌, refl, sym, ap, ◌∙◌, subst,
  Bool, true, false, not, ◌&&◌, ◌||◌, List, [], ◌∷◌, ◌++◌, if◌then◌else◌, ◌==◌, ==_iff, ltb, leb,
  length, length-replicate, replicate, drop, Signal, Result, ok, err, ◌>>=◌, >>=-ok, All,
  Bool-cases, inl, inr, arith, add64, word_mod, add64_small,
}
use ocudu_channel.Runtime.{snap_mutable_params}
use ocudu_channel.Config.{ModelStepType, path_loss, awgn, phase, cfo, tdl, ModelStep}
use ocudu_channel.Config.Validate.{is_tdl}
use ocudu_channel.Iq.{IqSample, silence}
use ocudu_channel.Delay.{roll, apply_tdl_step}
use ocudu_channel.Delay.Fading.{ApplyError, apply_tdl_step_fading}
use ocudu_channel.Delay.Slots.{roll-drop, length-roll}
use ocudu_channel.Cpu.{Random, StepState, LinkState, leads_with_tdl}
use ocudu_channel.Cpu.Steps.{Stepped, effective_taps, effective_polyphase, run_step, run_chain}
use ocudu_channel.Cpu.Apply.{
  warmup_slots, snap_link, activate, tdl_line_size, clear_tdl, arm_warmup, close_warmup, begin_slot,
  serve_link,
}

-- The end of the warm-up after a slot has looked at it.
abbrev pub closed : ℕ → ℕ → ℕ
closed slot until = if not (until == 0) && leb until slot then 0 else until

module _ {N F G : Type 0} (sg : Signal F G) where
  -- A slot in which the control plane has nothing new.
  pub record Quiet (s t : LinkState N F G) : Type 0 where
    pub next_grown : t.next_slot ≡ add64 s.next_slot 1
    pub same_steps : t.steps ≡ s.steps
    pub still_quiet : t.ctl.seqno ≡ t.live_seqno
    pub until_closed : t.warmup_until_slot ≡ closed s.next_slot s.warmup_until_slot
    pub told : t.published.warmup_until ≡ t.warmup_until_slot

  pub begin_slot-Quiet :
      (chain : List (ModelStep F)) (count : ℕ) (s : LinkState N F G)
      → s.ctl.seqno ≡ s.live_seqno
      → Quiet s (begin_slot sg chain count s)
  unfolding begin_slot snap_link activate arm_warmup close_warmup snap_mutable_params
  begin_slot-Quiet chain count s quiet = ground arith

  -- A slot that takes up a new profile.
  pub record Armed (chain : List (ModelStep F)) (count : ℕ) (s t : LinkState N F G) : Type 0 where
    pub next_grown : t.next_slot ≡ add64 s.next_slot 1
    pub cleared : t.steps ≡ clear_tdl sg chain s.steps
    pub quiet : t.ctl.seqno ≡ t.live_seqno
    pub until_closed :
        t.warmup_until_slot
        ≡ closed s.next_slot (add64 s.next_slot (warmup_slots (tdl_line_size chain s.steps) count))
    pub told : t.published.warmup_until ≡ t.warmup_until_slot

  -- What the link's control block has at such a slot.
  pub record Arms (s : LinkState N F G) : Type 0 where
    pub new_seqno : s.ctl.seqno ≢ s.live_seqno
    pub due : s.ctl.take_effect_at_slot ≤ s.next_slot
    pub pending : s.ctl.profile_pending ≡ true
    pub leading : s.chain_has_leading_tdl ≡ true

  pub begin_slot-Armed :
      (chain : List (ModelStep F)) (count : ℕ) (s : LinkState N F G)
      → Arms s
      → Armed chain count s (begin_slot sg chain count s)
  unfolding begin_slot snap_link activate arm_warmup close_warmup snap_mutable_params
  begin_slot-Armed chain count s arms = ground arith

pub ok-injective : {A : Type 0} {a b : A} → ◌≡◌ {A = Result ApplyError A} (ok a) (ok b) → a ≡ b
ok-injective e = cc

module _ {F G : Type 0} (sg : Signal F G) where
  roll-nil : (input : List (IqSample G)) → roll sg input [] ≡ []
  roll-nil input = roll-drop sg input [] ∙ drop_all (length input) input (omega arith)

-- The delay line of the first step.
abbrev pub front : {N F G : Type 0} → List (StepState N F G) → List (IqSample G)
front [] = []
front (state ∷ states) = state.delay_line

module _ {N F G : Type 0} (sg : Signal F G) where
  pub clear_tdl-front :
      (chain : List (ModelStep F)) (states : List (StepState N F G))
      → leads_with_tdl chain ≡ true
      → (front (clear_tdl sg chain states) ≡ replicate (length (front states)) (silence sg))
        × (tdl_line_size chain states ≡ length (front states))
  unfolding clear_tdl tdl_line_size leads_with_tdl
  clear_tdl-front [] states h = cc
  clear_tdl-front (step ∷ chain) [] h = (refl, refl)
  clear_tdl-front (step ∷ chain) (state ∷ states) h = rw h (refl, refl)

module _ {N U F G : Type 0} (sg : Signal F G) (rnd : Random N U F G) where
  run_step-roll :
      (type : ModelStepType) (link : LinkState N F G) (step : ModelStep F) (rate : ℕ)
      (input : List (IqSample G)) (state : StepState N F G) {r : Stepped sg rnd}
      → is_tdl type ≡ true
      → run_step sg rnd type link step rate input state ≡ ok r
      → (r.1).delay_line ≡ roll sg input state.delay_line
  unfolding run_step is_tdl apply_tdl_step apply_tdl_step_fading
  run_step-roll path_loss link step rate input state t e = cc
  run_step-roll awgn link step rate input state t e = cc
  run_step-roll phase link step rate input state t e = cc
  run_step-roll cfo link step rate input state t e = cc
  run_step-roll tdl link step rate input state t e = ground arith

  -- After a chain that leads with a tdl step, its delay line has moved on by the slot.
  run_chain-front :
      (link : LinkState N F G) (chain : List (ModelStep F)) (rate : ℕ) (input : List (IqSample G))
      (states : List (StepState N F G)) {r : List (IqSample G) × List (StepState N F G)}
      → leads_with_tdl chain ≡ true
      → run_chain sg rnd link chain rate input states ≡ ok r
      → front (r.1) ≡ roll sg input (front states)
  unfolding run_chain leads_with_tdl
  run_chain-front link [] rate input states t e = cc
  run_chain-front link (step ∷ chain) rate input [] t e =
      ap (λ (q : List (IqSample G) × List (StepState N F G)). front (q.1)) (sym (ok-injective e))
      ∙ sym (roll-nil sg input)
  run_chain-front link (step ∷ chain) rate input (state ∷ states) t e =
      let (stepped, ran, more) =
        >>=-ok (run_step sg rnd step.type link step rate input state)
          (λ (q : Stepped sg rnd).
            run_chain sg rnd link chain rate (q.0) states
            >>= λ (rest : List (IqSample G) × List (StepState N F G)). ok (rest.0, q.1 ∷ rest.1))
          e in
      let (rest, later, done) =
        >>=-ok (run_chain sg rnd link chain rate (stepped.0) states)
          (λ (rest : List (IqSample G) × List (StepState N F G)). ok (rest.0, stepped.1 ∷ rest.1))
          more in
      ap (λ (q : List (IqSample G) × List (StepState N F G)). front (q.1)) (sym (ok-injective done))
      ∙ run_step-roll step.type link step rate input state t ran

  -- What a slot leaves of the state that it began with.
  pub record Served (s t : LinkState N F G) (input : List (IqSample G)) : Type 0 where
    pub same_slot : t.next_slot ≡ s.next_slot
    pub same_seqno : t.ctl.seqno ≡ s.ctl.seqno
    pub same_live : t.live_seqno ≡ s.live_seqno
    pub same_until : t.warmup_until_slot ≡ s.warmup_until_slot
    pub same_told : t.published.warmup_until ≡ s.published.warmup_until
    pub rolled : front t.steps ≡ roll sg input (front s.steps)

  pub serve_link-Served :
      (chain : List (ModelStep F)) (input out : List (IqSample G)) (rate : ℕ)
      (s t : LinkState N F G)
      → leads_with_tdl chain ≡ true
      → serve_link sg rnd chain input rate s ≡ ok (out, t)
      → Served (begin_slot sg chain (length input) s) t input
  unfolding serve_link
  serve_link-Served chain input out rate s t leads e =
      let begun : LinkState N F G = begin_slot sg chain (length input) s in
      let (r, ran, done) =
        >>=-ok (run_chain sg rnd begun chain rate input begun.steps)
          (λ (r : List (IqSample G) × List (StepState N F G)).
            ok (r.0, record begun { steps = r.1 }))
          e in
      subst (λ (q : List (IqSample G) × LinkState N F G). Served begun (q.1) input)
        (ok-injective done)
        (record {
          same_slot = refl;
          same_seqno = refl;
          same_live = refl;
          same_until = refl;
          same_told = refl;
          rolled = run_chain-front begun chain rate input begun.steps leads ran;
        })

  -- A link's slots one after the other, with no request in between.
  unfoldable pub serve_slots :
      List (ModelStep F)
      → ℕ
      → List (List (IqSample G))
      → LinkState N F G
      → Result ApplyError (LinkState N F G)
  serve_slots chain rate [] s = ok s
  serve_slots chain rate (input ∷ inputs) s =
      serve_link sg rnd chain input rate s >>= λ (r : List (IqSample G) × LinkState N F G).
      serve_slots chain rate inputs (r.1)

  -- `k` slots after a warm-up began at slot `first`, which lasts for `span` slots.
  pub record Warming (first span k : ℕ) (stream : List (IqSample G)) (s : LinkState N F G)
      : Type 0 where
    pub at_slot : s.next_slot ≡ first + k
    pub quiet : s.ctl.seqno ≡ s.live_seqno
    pub until : s.warmup_until_slot ≡ (if leb k span then first + span else 0)
    pub told : s.published.warmup_until ≡ s.warmup_until_slot
    pub line : front s.steps ≡ stream
