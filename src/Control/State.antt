-- ===== src/Control/State.antt =====
-- ControlServer and HandlerContext of control_server.h and src/control_server.cpp: the server's
-- state, what it stages in a batch, and the replies.
use ocudu_channel.Common.{
  ℕ, Option, none, some, List, [], ◌∷◌, String, Map, lookup, add64, ltb, if◌then◌else◌,
}
use ocudu_channel.Runtime.{ProfileShadow, BrokerLinkControl}
use ocudu_channel.Control.Json.{JsonError}

-- Why a request is rejected. The text of the reply is the message of the code.
pub data Reason : Type 0 where
  malformed : JsonError → Reason
  bad_field : JsonError → Reason
  unknown_type : String → Reason
  missing_field : Reason
  field_types : Reason
  unknown_link : String → Reason
  unknown_param : String → Reason
  out_of_range : String → Reason
  wants_integer : String → Reason
  negative_slot : Reason
  batch_id_type : Reason
  batch_id_empty : Reason
  unknown_batch : String → Reason
  not_applied : Reason
  link_id_field : Reason
  warmup_span : ℕ → Reason
  taps_field : Reason
  taps_empty : Reason
  taps_too_many : Reason
  tap_not_object : ℕ → Reason
  tap_bad_field : ℕ → JsonError → Reason
  tap_delay_range : ℕ → Reason
  tap_gain_range : ℕ → Reason
  fading_not_object : Reason
  fading_bad_field : JsonError → Reason
  fading_spectrum : Reason
  id_field : Reason
  id_empty : Reason
  already_open : String → Reason

-- `StagedOp`, by its kind.
pub data StagedOp (F G : Type 0) : Type 0 where
  scalar_op : String → String → F → StagedOp F G
  profile_op : String → ProfileShadow F G → StagedOp F G

-- The replies: what the JSON text carries.
pub data Reply : Type 0 where
  rejected : Reason → Reply
  applied : ℕ → ℕ → Reply
  staged : Reply
  swapped : ℕ → ℕ → ℕ → Reply
  opened : String → Reply
  committed : ℕ → ℕ → Reply
  dropped : ℕ → Reply

-- What does not change after construction: the links' pointers, `none` for a null one, as indices
-- into the store of control blocks, so that two links may share one.
pub record Env : Type 0 where
  pub link_map : Map (Option ℕ)
  pub warmup_cap_slots : ℕ

pub record ControlServer (F G : Type 0) : Type 0 where
  pub controls : ℕ → BrokerLinkControl F G
  pub open_batches : Map (List (StagedOp F G))
  pub msgs_received : ℕ
  pub updates_applied : ℕ
  pub updates_rejected : ℕ
  pub batches_committed : ℕ
  pub batches_aborted : ℕ

-- `link_map.find`, with the test against the null pointer.
present : Option (Option ℕ) → Option ℕ
present none = none
present (some pointer) = pointer

unfoldable pub find_control : Env → String → Option ℕ
unfolding present
find_control env link_id = present (lookup link_id env.link_map)

module _ {F G : Type 0} where
  -- The links that `stats` adds up: every entry that is not null.
  inert_of : (ℕ → BrokerLinkControl F G) → Map (Option ℕ) → ℕ
  inert_of controls [] = 0
  inert_of controls ((k, none) ∷ links) = inert_of controls links
  inert_of controls ((k, some c) ∷ links) =
      add64 (controls c).force_inert_warnings (inert_of controls links)

  -- `stats().force_inert_warnings`; the other statistics are the counters themselves.
  unfoldable pub stats_force_inert : Env → ControlServer F G → ℕ
  unfolding inert_of
  stats_force_inert env s = inert_of s.controls env.link_map

  -- The slot that the replies announce.
  abbrev pub applied_at_slot : BrokerLinkControl F G → ℕ
  applied_at_slot ctl =
      if ltb ctl.current_slot ctl.take_effect_at_slot
      then ctl.take_effect_at_slot
      else ctl.current_slot

  abbrev pub make_success_reply : BrokerLinkControl F G → Reply
  make_success_reply ctl = applied ctl.seqno (applied_at_slot ctl)

  abbrev pub make_profile_swap_reply : BrokerLinkControl F G → Reply
  make_profile_swap_reply ctl =
      swapped ctl.seqno (applied_at_slot ctl) (add64 (applied_at_slot ctl) 1)

  abbrev pub emit_rejection : ControlServer F G → Reason → Reply × ControlServer F G
  emit_rejection s reason =
      (rejected reason, record s { updates_rejected = add64 s.updates_rejected 1 })
