-- ===== src/Control/Handlers.antt =====
-- The message handlers of src/control_server.cpp and `ControlServer::handle_message`.
pub mod Batches
pub mod Requests
pub mod Messages
pub mod GoesLive
use ocudu_channel.Common.{
  ℕ, suc, ◌+◌, Bool, true, false, not, Option, none, some, List, [], ◌∷◌, ◌++◌, String, str_eq,
  if◌then◌else◌, Floats, Result, ok, err, ◌>>=◌, ◌>>◌, guard, require, length, update, lookup,
  emplace, erase, modify, add64,
}
use ocudu_channel.Runtime.{ProfileShadow, BrokerLinkControl, bump_seqno, zero_double}
use ocudu_channel.Control.Json.{Fields, JsonError, find, get_number, get_string}
use ocudu_channel.Control.Reader.{parse_body}
use ocudu_channel.Control.Params.{ParamSpec, find_param_spec, apply_update}
use ocudu_channel.Control.State.{
  Reason, malformed, bad_field, unknown_type, unknown_batch, negative_slot, not_applied, id_empty,
  already_open, StagedOp, scalar_op, profile_op, Reply, staged, opened, committed, dropped, Env,
  ControlServer, find_control, make_success_reply, make_profile_swap_reply, emit_rejection,
}
use ocudu_channel.Control.Checks.{
  ScalarRequest, SwapRequest, caught, check_scalar, check_swap, batch_id,
}

module _ {F G : Type 0} where
  -- Staging: the operation is appended to its batch, and counted as applied.
  unfoldable pub stage : ControlServer F G → String → StagedOp F G → Reply × ControlServer F G
  stage s bid op = (
    staged,
    record s {
      open_batches = modify bid (λ ops. ops ++ op ∷ []) s.open_batches;
      updates_applied = add64 s.updates_applied 1;
    },
  )

  -- The assignments of a profile swap that applies at once.
  unfoldable pub commit_profile :
      BrokerLinkControl F G → ProfileShadow F G → ℕ → BrokerLinkControl F G
  commit_profile ctl profile slot = record ctl {
    shadow_profile = profile;
    profile_pending = true;
    take_effect_at_slot = slot;
    seqno = bump_seqno ctl.seqno;
  }

  -- After `apply_update`, whose result false is a rejection.
  pub scalar_done :
      ControlServer F G → ℕ → Option (BrokerLinkControl F G) → Reply × ControlServer F G
  scalar_done s c none = emit_rejection s not_applied
  scalar_done s c (some ctl) = (
    make_success_reply ctl,
    record s { controls = update s.controls c ctl; updates_applied = add64 s.updates_applied 1 },
  )

  pub perform_swap :
      ControlServer F G → SwapRequest F G → ℕ → Option String → Reply × ControlServer F G
  unfolding stage commit_profile
  perform_swap s r slot (some bid) = stage s bid (profile_op r.link_id r.profile)
  perform_swap s r slot none =
      let ctl = commit_profile (s.controls r.control) r.profile slot in
      (
        make_profile_swap_reply ctl,
        record s {
          controls = update s.controls r.control ctl;
          updates_applied = add64 s.updates_applied 1;
        },
      )

  pub begin_new :
      ControlServer F G → String → Option (List (StagedOp F G)) → Reply × ControlServer F G
  begin_new s bid (some ops) = emit_rejection s (already_open bid)
  begin_new s bid none = (opened bid, record s { open_batches = emplace bid [] s.open_batches })

  pub begin_named : ControlServer F G → Result Reason String → Reply × ControlServer F G
  unfolding begin_new
  begin_named s (err reason) = emit_rejection s reason
  begin_named s (ok bid) =
      if str_eq bid ""
      then emit_rejection s id_empty
      else begin_new s bid (lookup bid s.open_batches)

  unfoldable pub handle_batch_begin : ControlServer F G → Fields F → Reply × ControlServer F G
  unfolding begin_named
  handle_batch_begin s fields = begin_named s (batch_id (find "id" fields))

  -- The batch that `commit` and `abort` name, with its operations.
  named_batch :
      ControlServer F G → Result Reason String → Result Reason (String × List (StagedOp F G))
  named_batch s (err reason) = err reason
  named_batch s (ok bid) =
      require (lookup bid s.open_batches) (unknown_batch bid) >>= λ ops. ok (bid, ops)

  pub abort_batch :
      ControlServer F G → Result Reason (String × List (StagedOp F G)) → Reply × ControlServer F G
  abort_batch s (err reason) = emit_rejection s reason
  abort_batch s (ok (bid, ops)) = (
    dropped (length ops),
    record s {
      open_batches = erase bid s.open_batches;
      batches_aborted = add64 s.batches_aborted 1;
    },
  )

  unfoldable pub handle_batch_abort : ControlServer F G → Fields F → Reply × ControlServer F G
  unfolding named_batch abort_batch
  handle_batch_abort s fields = abort_batch s (named_batch s (batch_id (find "id" fields)))

  abbrev pub op_link : StagedOp F G → String
  op_link (scalar_op link_id param value) = link_id
  op_link (profile_op link_id profile) = link_id

module _ {F G : Type 0} (fl : Floats F G) where
  -- The result of `apply_update` is not tested at a commit.
  written : BrokerLinkControl F G → Option (BrokerLinkControl F G) → BrokerLinkControl F G
  written ctl none = ctl
  written ctl (some new) = new

  -- A staged scalar update whose parameter is not listed is skipped, after the gate was written.
  commit_scalar : BrokerLinkControl F G → F → Option (ParamSpec F) → BrokerLinkControl F G × ℕ
  unfolding written
  commit_scalar ctl value none = (ctl, 0)
  commit_scalar ctl value (some spec) = (written ctl (apply_update fl ctl spec value), 1)

  -- One operation on its link's control block, and whether it counts.
  op_on_control : ℕ → StagedOp F G → BrokerLinkControl F G → BrokerLinkControl F G × ℕ
  unfolding commit_scalar commit_profile
  op_on_control apply_at (scalar_op link_id param value) ctl =
      commit_scalar (record ctl { take_effect_at_slot = apply_at }) value (find_param_spec fl param)
  op_on_control apply_at (profile_op link_id profile) ctl = (commit_profile ctl profile apply_at, 1)

  -- `none` is a link that vanished: the operation is skipped.
  commit_op :
      ℕ → StagedOp F G → (ℕ → BrokerLinkControl F G) → Option ℕ → (ℕ → BrokerLinkControl F G) × ℕ
  unfolding op_on_control
  commit_op apply_at op controls none = (controls, 0)
  commit_op apply_at op controls (some c) =
      let (ctl, counts) = op_on_control apply_at op (controls c) in (update controls c ctl, counts)

module _ {F G : Type 0} (fl : Floats F G) (env : Env) where
  pub perform_scalar :
      ControlServer F G → ScalarRequest F → Option String → Reply × ControlServer F G
  unfolding stage scalar_done
  perform_scalar s r (some bid) = stage s bid (scalar_op r.link_id r.param r.value)
  perform_scalar s r none =
      let gated = record (s.controls r.control) { take_effect_at_slot = fl.to_u64 r.slot } in
      scalar_done (record s { controls = update s.controls r.control gated }) r.control
        (apply_update fl gated r.spec r.value)

  pub finish_scalar :
      ControlServer F G → Result Reason (ScalarRequest F) → Reply × ControlServer F G
  unfolding perform_scalar
  finish_scalar s (err reason) = emit_rejection s reason
  finish_scalar s (ok r) = perform_scalar s r r.batch

  unfoldable pub handle_scalar_update : ControlServer F G → Fields F → Reply × ControlServer F G
  unfolding finish_scalar
  handle_scalar_update s fields = finish_scalar s (check_scalar fl env s fields)

  pub finish_swap : ControlServer F G → Result Reason (SwapRequest F G) → Reply × ControlServer F G
  unfolding perform_swap
  finish_swap s (err reason) = emit_rejection s reason
  finish_swap s (ok r) = perform_swap s r (fl.to_u64 r.slot) r.batch

  unfoldable pub handle_profile_swap : ControlServer F G → Fields F → Reply × ControlServer F G
  unfolding finish_swap
  handle_profile_swap s fields = finish_swap s (check_swap fl env s fields)

  -- The loop of `handle_batch_commit`, with `applied_count`.
  unfoldable pub commit_ops :
      ℕ → List (StagedOp F G) → (ℕ → BrokerLinkControl F G) → ℕ → (ℕ → BrokerLinkControl F G) × ℕ
  unfolding commit_op
  commit_ops apply_at [] controls count = (controls, count)
  commit_ops apply_at (op ∷ ops) controls count =
      let (controls', counts) = commit_op fl apply_at op controls (find_control env (op_link op)) in
      commit_ops apply_at ops controls' (count + counts)

  -- The slot of a commit is read after the batch was found.
  commit_slot :
      Fields F
      → Result Reason (String × List (StagedOp F G))
      → Result Reason (String × List (StagedOp F G) × ℕ)
  commit_slot fields found = do
    (bid, ops) ← found
    slot ← caught bad_field (get_number fields "take_effect_at_slot" (zero_double fl))
    guard (not (fl.lt slot (zero_double fl))) negative_slot
    ok (bid, ops, fl.to_u64 slot)

  commit_batch :
      ControlServer F G
      → Result Reason (String × List (StagedOp F G) × ℕ)
      → Reply × ControlServer F G
  unfolding commit_ops
  commit_batch s (err reason) = emit_rejection s reason
  commit_batch s (ok (bid, ops, apply_at)) =
      let (controls, count) = commit_ops apply_at ops s.controls 0 in
      (
        committed count apply_at,
        record s {
          controls = controls;
          open_batches = erase bid s.open_batches;
          batches_committed = add64 s.batches_committed 1;
        },
      )

  unfoldable pub handle_batch_commit : ControlServer F G → Fields F → Reply × ControlServer F G
  unfolding commit_batch commit_slot named_batch
  handle_batch_commit s fields =
      commit_batch s (commit_slot fields (named_batch s (batch_id (find "id" fields))))

  -- The dispatch on the message's type.
  dispatch : ControlServer F G → Fields F → Result JsonError String → Reply × ControlServer F G
  unfolding handle_scalar_update handle_profile_swap handle_batch_begin handle_batch_commit
      handle_batch_abort
  dispatch s fields (err e) = emit_rejection s (bad_field e)
  dispatch s fields (ok type_str) =
      if str_eq type_str "scalar"
      then handle_scalar_update s fields
      else if str_eq type_str "profile_swap"
      then handle_profile_swap s fields
      else if str_eq type_str "batch_begin"
      then handle_batch_begin s fields
      else if str_eq type_str "batch_commit"
      then handle_batch_commit s fields
      else if str_eq type_str "batch_abort"
      then handle_batch_abort s fields
      else emit_rejection s (unknown_type type_str)

  -- What follows the parse of the body.
  unfoldable pub handle_parsed :
      ControlServer F G → Result JsonError (Fields F) → Reply × ControlServer F G
  unfolding dispatch
  handle_parsed s (err e) = emit_rejection s (malformed e)
  handle_parsed s (ok fields) = dispatch s fields (get_string fields "type" "scalar")

  unfoldable pub handle_message : ControlServer F G → String → Reply × ControlServer F G
  unfolding handle_parsed
  handle_message s request_body =
      handle_parsed (record s { msgs_received = add64 s.msgs_received 1 })
        (parse_body fl request_body)
