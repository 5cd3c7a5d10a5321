-- ===== src/Cpu/Apply.antt =====
-- `CpuChannelProcessor::apply_chain_to_link` and `process_superposition` of src/cpu_backend.cpp. An
-- exception ends the server thread that called, so the state at an exception is left out.
pub mod Isolated
pub mod Concurrent
pub mod Superposition
pub mod Warmup
use ocudu_channel.Common.{
  ℕ, ◌+◌, ◌-◌, ◌/◌, Bool, true, false, not, ◌&&◌, ◌||◌, Option, none, some, List, [], ◌∷◌, String,
  Map, lookup, assign, if◌then◌else◌, ◌==◌, leb, length, is_empty, replicate, Signal, Result, ok,
  err, ◌>>=◌, add64,
}
use ocudu_channel.Runtime.{BrokerLinkControl, snap_mutable_params, snap_profile_from_shadow}
use ocudu_channel.Config.{ModelStep}
use ocudu_channel.Config.Validate.{is_tdl}
use ocudu_channel.Iq.{IqSample, silence, add_sample}
use ocudu_channel.Delay.Fading.{ApplyError, sizes_differ, input_malformed}
use ocudu_channel.Cpu.{Random, StepState, LinkState, ensured, rx_key}
use ocudu_channel.Cpu.Steps.{run_chain}

-- The slots that a cleared delay line of `dl_size` samples takes to fill.
unfoldable pub warmup_slots : ℕ → ℕ → ℕ
warmup_slots dl_size count = if count == 0 then 1 else (dl_size + count - 1) / count

-- SuperpositionInput; a null model is `none`.
pub record Edge (F G : Type 0) : Type 0 where
  pub key : String
  pub model : Option (List (ModelStep F))
  pub samples : List (IqSample G)

-- A control block whose profile has no leading tdl to act on.
warn_inert : {F G : Type 0} → BrokerLinkControl F G → BrokerLinkControl F G
warn_inert ctl = record ctl { force_inert_warnings = add64 ctl.force_inert_warnings 1 }

module _ {N F G : Type 0} where
  -- The snap at the start of a slot, and whether it changed the live parameters.
  unfoldable pub snap_link : LinkState N F G → LinkState N F G × Bool
  snap_link s =
      let (live, seqno, ctl, changed) = snap_mutable_params s.live s.live_seqno s.ctl s.next_slot in
      (
        record s { live = live; live_seqno = seqno; ctl = ctl; next_slot = add64 s.next_slot 1 },
        changed,
      )

  -- The profile snap, and whether it armed one.
  unfoldable pub activate : LinkState N F G → Bool → LinkState N F G × Bool
  unfolding warn_inert
  activate s changed =
      if changed && s.ctl.profile_pending && (s.chain_has_leading_tdl || s.ctl.shadow_profile.force)
      then (
        record s {
          live_profile = (snap_profile_from_shadow s.live_profile s.ctl).0;
          live_profile_active = true;
          ctl = if s.chain_has_leading_tdl then s.ctl else warn_inert s.ctl;
        },
        true,
      )
      else (s, false)

  -- The size of the delay line of the first tdl step.
  unfoldable pub tdl_line_size : List (ModelStep F) → List (StepState N F G) → ℕ
  tdl_line_size (step ∷ chain) (state ∷ states) =
      if is_tdl step.type then length state.delay_line else tdl_line_size chain states
  tdl_line_size _ _ = 0

module _ {N F G : Type 0} (sg : Signal F G) where
  -- The first tdl step with its delay line cleared.
  unfoldable pub clear_tdl : List (ModelStep F) → List (StepState N F G) → List (StepState N F G)
  clear_tdl (step ∷ chain) (state ∷ states) =
      if is_tdl step.type
      then record state { delay_line = replicate (length state.delay_line) (silence sg) } ∷ states
      else state ∷ clear_tdl chain states
  clear_tdl _ states = states

  -- A new profile clears the delay line and starts the warm-up.
  unfoldable pub arm_warmup : List (ModelStep F) → ℕ → ℕ → LinkState N F G → Bool → LinkState N F G
  arm_warmup chain slot count s just_activated =
      if just_activated
      then record s {
        steps = clear_tdl chain s.steps;
        warmup_until_slot = add64 slot (warmup_slots (tdl_line_size chain s.steps) count);
      }
      else s

  unfoldable pub close_warmup : ℕ → LinkState N F G → LinkState N F G
  close_warmup slot s =
      if not (s.warmup_until_slot == 0) && leb s.warmup_until_slot slot
      then record s { warmup_until_slot = 0 }
      else s

  publish : ℕ → LinkState N F G → LinkState N F G
  publish slot s = record s {
    published = record {
      slot = slot;
      seqno = s.live_seqno;
      params = s.live;
      profile_active = s.live_profile_active;
      warmup_until = s.warmup_until_slot;
    };
  }

  -- What happens to a link's state before the chain runs, on a slot of `count` samples.
  unfoldable pub begin_slot : List (ModelStep F) → ℕ → LinkState N F G → LinkState N F G
  unfolding publish
  begin_slot chain count s =
      let slot = s.next_slot in
      let (snapped, changed) = snap_link s in
      let (activated, just_activated) = activate snapped changed in
      publish slot (close_warmup slot (arm_warmup chain slot count activated just_activated))

module _ {F G : Type 0} (sg : Signal F G) where
  -- output[s] += scratch[s]
  unfoldable pub add_samples : List (IqSample G) → List (IqSample G) → List (IqSample G)
  add_samples (x ∷ xs) (y ∷ ys) = add_sample sg x y ∷ add_samples xs ys
  add_samples xs _ = xs

module _ {N U F G : Type 0} (sg : Signal F G) (rnd : Random N U F G) where
  -- One slot of a link whose state is there.
  unfoldable pub serve_link :
      List (ModelStep F)
      → List (IqSample G)
      → ℕ
      → LinkState N F G
      → Result ApplyError (List (IqSample G) × LinkState N F G)
  serve_link chain input sample_rate_hz link =
      let s = begin_slot sg chain (length input) link in
      run_chain sg rnd s chain sample_rate_hz input s.steps
      >>= λ (r : List (IqSample G) × List (StepState N F G)). ok (r.0, record s { steps = r.1 })

  -- The output, and the states after the call.
  abbrev pub Superposed : Type 0
  Superposed = List (IqSample G) × Map (LinkState N F G)

  unfoldable pub apply_chain_to_link :
      String
      → List (ModelStep F)
      → List (IqSample G)
      → ℕ
      → ℕ
      → Map (LinkState N F G)
      → Result ApplyError Superposed
  apply_chain_to_link key chain input output_size sample_rate_hz states =
      if not (output_size == length input)
      then err sizes_differ
      else if is_empty input
      then ok ([], states)
      else (serve_link chain input sample_rate_hz
            (ensured sg rnd key chain (length input) (lookup key states))
          >>= λ (r : List (IqSample G) × LinkState N F G). ok (r.0, assign key (r.1) states))

  -- One edge is shaped, and added to the sum.
  unfoldable pub add_edge :
      Option (List (ModelStep F))
      → Edge F G
      → ℕ
      → List (IqSample G)
      → Map (LinkState N F G)
      → Result ApplyError Superposed
  add_edge none edge sample_rate_hz sum states = err input_malformed
  add_edge (some chain) edge sample_rate_hz sum states =
      if not (length edge.samples == length sum)
      then err input_malformed
      else (apply_chain_to_link edge.key chain edge.samples (length sum) sample_rate_hz states
          >>= λ (r : Superposed). ok (add_samples sg sum (r.0), r.1))

  unfoldable pub add_edges :
      List (Edge F G) → ℕ → List (IqSample G) → Map (LinkState N F G) → Result ApplyError Superposed
  add_edges [] sample_rate_hz sum states = ok (sum, states)
  add_edges (edge ∷ edges) sample_rate_hz sum states =
      add_edge edge.model edge sample_rate_hz sum states >>= λ (r : Superposed).
      add_edges edges sample_rate_hz (r.0) (r.1)

  -- The receiver model, once on the sum.
  unfoldable pub receive_sum :
      String
      → Option (List (ModelStep F))
      → ℕ
      → List (IqSample G)
      → Map (LinkState N F G)
      → Result ApplyError Superposed
  receive_sum dst_key none sample_rate_hz sum states = ok (sum, states)
  receive_sum dst_key (some chain) sample_rate_hz sum states =
      apply_chain_to_link (rx_key dst_key) chain sum (length sum) sample_rate_hz states

  unfoldable pub process_superposition :
      String
      → List (Edge F G)
      → Option (List (ModelStep F))
      → ℕ
      → ℕ
      → Map (LinkState N F G)
      → Result ApplyError Superposed
  process_superposition dst_key inputs rx_model sample_rate_hz count states =
      add_edges inputs sample_rate_hz (replicate count (silence sg)) states >>= λ (r : Superposed).
      receive_sum dst_key rx_model sample_rate_hz (r.0) (r.1)
