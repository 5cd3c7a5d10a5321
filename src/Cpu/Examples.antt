-- ===== src/Cpu/Examples.antt =====
-- A chain that leads with a tdl step, and calls on different links, in whole numbers.
use ocudu_channel.Common.{
  ℕ, ◌+◌, ◌-◌, ◌≤◌, ◌≡◌, refl, true, false, none, some, List, [], ◌∷◌, String, str_eq, eq_iff,
  arith, length, drop, Map, lookup, if◌then◌else◌, leb, whole_signal, subst, assign, ok, is_ok,
  ok_value, replicate, ◌>>=◌, inl, inr, Bool-cases,
}
use ocudu_channel.Runtime.{
  TapSpec, BrokerLinkControl, snap_mutable_params, init_broker_link_control,
}
use ocudu_channel.Config.{path_loss, tdl, jakes, ModelStep}
use ocudu_channel.Config.Validate.{is_tdl, holds_any}
use ocudu_channel.Iq.{IqSample, silence}
use ocudu_channel.Delay.Slots.Stream.{joined}
use ocudu_channel.Cpu.{
  Random, LinkState, no_fading, new_link, rx_key, leads_with_tdl, ensured, prepare_steps,
}
use ocudu_channel.Cpu.Steps.{run_chain, run_step}
use ocudu_channel.Cpu.Apply.{
  Edge, warmup_slots, serve_link, begin_slot, close_warmup, arm_warmup, activate, snap_link,
  tdl_line_size, clear_tdl, process_superposition, add_edges, add_edge, apply_chain_to_link,
  receive_sum,
}
use ocudu_channel.Cpu.Apply.Concurrent.{Call, serve, uses, uses_key, serve_comm}
use ocudu_channel.Cpu.Apply.Warmup.{Arms, front, serve_slots}
use ocudu_channel.Cpu.Apply.Warmup.Covers.{serve_slots_warmup}
use ocudu_channel.Cpu.Apply.Superposition.{outcome, contributions, total, process_superposition-sum}

-- A generator that always draws 0.
abbrev still : Random ℕ ℕ ℕ ℕ
still = record {
  hash = λ s. 0;
  to_string = λ n. "";
  seed_normal = λ n. n;
  draw_normal = λ sigma r. (0, r);
  uniform = record { seed = λ n. n; draw = λ r. (0, r) };
}

abbrev sample : ℕ → IqSample ℕ
sample n = record { i = n; q = 0 }

abbrev tap : TapSpec ℕ
tap = record {
  delay_samples = 0;
  gain_db = 0;
  phase_rad = 0;
  is_los = false;
  los_k_db = 0;
  los_angle_rad = 0;
}

abbrev chain : List (ModelStep ℕ)
chain =
    (record {
      type = tdl;
      params = [];
      taps = tap ∷ [];
      taps_declared = true;
      fading_enabled = false;
      fading_f_d_max_hz = 0;
      fading_spectrum = jakes;
      fading_grid_us = 100;
    })
    ∷ []

-- A link whose delay line holds three samples, with a profile that is due.
abbrev base : LinkState ℕ ℕ ℕ
base = new_link whole_signal still

abbrev waiting_ctl : BrokerLinkControl ℕ ℕ
waiting_ctl =
    let ctl : BrokerLinkControl ℕ ℕ = base.ctl in
    record ctl { profile_pending = true; seqno = 1; take_effect_at_slot = 4 }

abbrev armed : LinkState ℕ ℕ ℕ
armed = record base {
  steps =
      (record {
        delay_line = sample 7 ∷ sample 8 ∷ sample 9 ∷ [];
        phase_rad = 0;
        noise = 0;
        tdl_polyphase = (0 ∷ 0 ∷ 0 ∷ 1 ∷ 0 ∷ 0 ∷ 0 ∷ 0 ∷ []) ∷ [];
        tdl_fading = no_fading whole_signal still;
      })
      ∷ [];
  ctl = waiting_ctl;
  next_slot = 5;
  chain_has_leading_tdl = true;
}

abbrev arms : Arms whole_signal armed
arms = record {
  new_seqno = (λ e. omega (arith, e));
  due = omega arith;
  pending = refl;
  leading = refl;
}

abbrev pair_slot : ℕ → List (IqSample ℕ)
pair_slot n = sample n ∷ sample (n + 1) ∷ []

abbrev two_slots : List (List (IqSample ℕ))
two_slots = pair_slot 1 ∷ pair_slot 3 ∷ []

served : is_ok (serve_slots whole_signal still chain 1000 two_slots armed) ≡ true
unfolding serve_slots serve_link run_chain begin_slot close_warmup arm_warmup activate snap_link
    snap_mutable_params warmup_slots tdl_line_size is_tdl clear_tdl
served = refl

abbrev after : LinkState ℕ ℕ ℕ
after = (ok_value (serve_slots whole_signal still chain 1000 two_slots armed) served).0

-- The delay line of three samples takes two slots to fill.
serve_slots_warmup_example :
    (after.published.warmup_until ≡ (if leb 2 (warmup_slots 3 2) then 5 + warmup_slots 3 2 else 0))
    × (warmup_slots 3 2 ≤ 2
        → front after.steps ≡ drop (length (joined two_slots) - 3) (joined two_slots))
unfolding leads_with_tdl is_tdl
serve_slots_warmup_example =
    serve_slots_warmup whole_signal still chain 1000 (pair_slot 1) (pair_slot 3 ∷ []) 2 armed after
      refl arms (omega arith) (refl, (refl, tt)) (omega arith)
      ((ok_value (serve_slots whole_signal still chain 1000 two_slots armed) served).1)

abbrev loss : List (ModelStep ℕ)
loss =
    (record {
      type = path_loss;
      params = ("path_loss_db", 0) ∷ [];
      taps = [];
      taps_declared = false;
      fading_enabled = false;
      fading_f_d_max_hz = 0;
      fading_spectrum = jakes;
      fading_grid_us = 100;
    })
    ∷ []

abbrev call_to : String → String → ℕ → Call ℕ ℕ
call_to dst link n = record {
  dst = dst;
  edges = record { key = link; model = some loss; samples = pair_slot n } ∷ [];
  rx = none;
  rate = 1000;
  count = 2;
}

abbrev links : Map (LinkState ℕ ℕ ℕ)
links = []

abbrev to_gnb : Call ℕ ℕ
to_gnb = call_to "gnb0" "ue0>gnb0:los" 1

abbrev to_ue : Call ℕ ℕ
to_ue = call_to "ue0" "gnb0>ue0:los" 5

first_ok : is_ok (serve whole_signal still to_gnb links) ≡ true
unfolding serve process_superposition add_edges add_edge apply_chain_to_link serve_link run_chain
    begin_slot close_warmup arm_warmup activate snap_link snap_mutable_params ensured lookup
    init_broker_link_control prepare_steps receive_sum assign leads_with_tdl is_tdl run_step
first_ok = refl

abbrev first : List (IqSample ℕ) × Map (LinkState ℕ ℕ ℕ)
first = (ok_value (serve whole_signal still to_gnb links) first_ok).0

second_ok : is_ok (serve whole_signal still to_ue first.1) ≡ true
unfolding serve process_superposition add_edges add_edge apply_chain_to_link serve_link run_chain
    begin_slot close_warmup arm_warmup activate snap_link snap_mutable_params ensured lookup
    init_broker_link_control prepare_steps receive_sum assign leads_with_tdl is_tdl run_step
    ok_value
second_ok = refl

abbrev second : List (IqSample ℕ) × Map (LinkState ℕ ℕ ℕ)
second = (ok_value (serve whole_signal still to_ue first.1) second_ok).0

apart : (k : String) → uses to_gnb k ≡ true → uses to_ue k ≡ false
unfolding uses_key holds_any rx_key
apart k on = elim (Bool-cases (str_eq (rx_key "gnb0") k)) [
  | inl rx ↦ subst (λ j. uses to_ue j ≡ false) ((eq_iff (rx_key "gnb0") k).0 rx) refl
  | inr other ↦ elim (Bool-cases (str_eq "ue0>gnb0:los" k)) [
    | inl edge ↦ subst (λ j. uses to_ue j ≡ false) ((eq_iff "ue0>gnb0:los" k).0 edge) refl
    | inr none_left ↦ absurd (ground arith)
  ]
]

serve_comm_example :
    (nd : Map (LinkState ℕ ℕ ℕ)) × (nc : Map (LinkState ℕ ℕ ℕ)) × (serve whole_signal still to_ue
        links
      ≡ ok (second.0, nd))
    × (serve whole_signal still to_gnb nd ≡ ok (first.0, nc))
    × ((k : String) → lookup k nc ≡ lookup k (second.1))
serve_comm_example =
    serve_comm whole_signal still to_gnb to_ue links (first.1) (second.1) (first.0) (second.0) apart
      ((ok_value (serve whole_signal still to_gnb links) first_ok).1)
      ((ok_value (serve whole_signal still to_ue first.1) second_ok).1)

abbrev two_edges : List (Edge ℕ ℕ)
two_edges =
    record { key = "ue0>gnb0:los"; model = some loss; samples = pair_slot 1 }
    ∷ record { key = "ue1>gnb0:los"; model = some loss; samples = pair_slot 5 }
    ∷ []

process_superposition-sum_example :
    outcome (process_superposition whole_signal still "gnb0" two_edges (some loss) 1000 2 links)
    ≡ outcome (
        contributions whole_signal still two_edges 2 1000 links >>= λ xs.
        receive_sum whole_signal still "gnb0"
          (some loss)
          1000
          (total whole_signal still (replicate 2 (silence whole_signal)) xs)
          links)
unfolding uses_key holds_any rx_key
process_superposition-sum_example =
    process_superposition-sum whole_signal still "gnb0" (some loss) 1000 links two_edges 2
      (refl, (refl, tt))
