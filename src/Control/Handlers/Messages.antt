-- ===== src/Control/Handlers/Messages.antt =====
-- Lemmas on what one message does to the control server of src/control_server.cpp.
use ocudu_channel.Common.{
  ℕ, ◌≡◌, refl, Option, none, some, List, String, str_eq, Floats, Result, ok, err, erase, false,
  ◌>>=◌, ◌>>◌, guard, OnOk, All, lookup, lookup-Each, erase-Each, add64, if_both, require, not,
  Bool-cases, inl, inr,
}
use ocudu_channel.Runtime.{MutableParams, zero_double}
use ocudu_channel.Control.Json.{Fields, JsonError, find, get_number, get_string}
use ocudu_channel.Control.State.{
  Reason, bad_field, negative_slot, StagedOp, committed, Env, ControlServer, malformed,
  unknown_type, unknown_batch,
}
use ocudu_channel.Control.Checks.{check_scalar, check_swap, batch_id, caught}
use ocudu_channel.Control.Checks.Good.{check_scalar-Good}
use ocudu_channel.Control.Checks.Swap.{check_swap-Good}
use ocudu_channel.Control.Invariant.{OpOk, Sound}
use ocudu_channel.Control.Handlers.{
  handle_batch_begin, named_batch, handle_batch_abort, handle_scalar_update, handle_profile_swap,
  commit_ops, commit_slot, commit_batch, handle_batch_commit, dispatch, handle_parsed,
}
use ocudu_channel.Control.Handlers.Batches.{commit_ops-Done}
use ocudu_channel.Control.Handlers.Requests.{
  Fine, rejection-Fine, finish_scalar-Fine, finish_swap-Fine, begin_named-Fine, abort_batch-Fine,
}

module _ {F G : Type 0} (fl : Floats F G) (env : Env) (init : ℕ → MutableParams G) where
  -- The operations of the batch that a message names.
  abbrev Named : String × List (StagedOp F G) → Type 0
  Named (bid, ops) = All (OpOk fl env) ops

  abbrev NamedAt : String × List (StagedOp F G) × ℕ → Type 0
  NamedAt (bid, ops, apply_at) = All (OpOk fl env) ops

  looked_up-Named :
      (s : ControlServer F G) (bid : String) (o : Option (List (StagedOp F G)))
      → lookup bid s.open_batches ≡ o
      → Sound fl env init s
      → OnOk Named (require o (unknown_batch bid) >>= λ ops. ok (bid, ops))
  looked_up-Named s bid none e h = tt
  looked_up-Named s bid (some ops) e h =
      lookup-Each (All (OpOk fl env)) bid s.open_batches h.staged_ok e

  named_batch-Named :
      (s : ControlServer F G) (m : Result Reason String)
      → Sound fl env init s
      → OnOk Named (named_batch s m)
  unfolding named_batch
  named_batch-Named s (err reason) h = tt
  named_batch-Named s (ok bid) h = looked_up-Named s bid (lookup bid s.open_batches) refl h

  guarded-NamedAt :
      (bid : String) (ops : List (StagedOp F G)) (m : Result JsonError F)
      → All (OpOk fl env) ops
      → OnOk NamedAt (do
        slot ← caught bad_field m
        guard (not (fl.lt slot (zero_double fl))) negative_slot
        ok (bid, ops, fl.to_u64 slot))
  guarded-NamedAt bid ops (err e) h = tt
  guarded-NamedAt bid ops (ok slot) h = elim (Bool-cases (fl.lt slot (zero_double fl))) [
    | inl before ↦ rw before tt
    | inr now ↦ rw now h
  ]

  commit_slot-NamedAt :
      (fields : Fields F) (m : Result Reason (String × List (StagedOp F G)))
      → OnOk Named m
      → OnOk NamedAt (commit_slot fl env fields m)
  unfolding commit_slot
  commit_slot-NamedAt fields (err reason) h = tt
  commit_slot-NamedAt fields (ok (bid, ops)) h =
      guarded-NamedAt bid ops (get_number fields "take_effect_at_slot" (zero_double fl)) h

  commit_batch-Fine :
      (s : ControlServer F G) (m : Result Reason (String × List (StagedOp F G) × ℕ))
      → OnOk NamedAt m
      → Sound fl env init s
      → Fine fl env init s (commit_batch fl env s m)
  unfolding commit_batch
  commit_batch-Fine s (err reason) g h = rejection-Fine fl env init s reason h
  commit_batch-Fine s (ok (bid, ops, apply_at)) g h = (
    record {
      controls_ok = (commit_ops-Done fl env init apply_at ops s.controls 0 h.controls_ok g).0;
      staged_ok = erase-Each (All (OpOk fl env)) bid s.open_batches h.staged_ok;
    },
    tt,
  )

  dispatch-Fine :
      (s : ControlServer F G) (fields : Fields F) (m : Result JsonError String)
      → Sound fl env init s
      → Fine fl env init s (dispatch fl env s fields m)
  unfolding dispatch handle_scalar_update handle_profile_swap handle_batch_begin handle_batch_commit
      handle_batch_abort
  dispatch-Fine s fields (err e) h = rejection-Fine fl env init s (bad_field e) h
  dispatch-Fine s fields (ok type_str) h =
      if_both (Fine fl env init s) (str_eq type_str "scalar")
        (finish_scalar-Fine fl env init s (check_scalar fl env s fields)
          (λ r e. check_scalar-Good fl env s fields e) h)
        (if_both (Fine fl env init s) (str_eq type_str "profile_swap")
          (finish_swap-Fine fl env init s (check_swap fl env s fields)
            (check_swap-Good fl env s fields) h)
          (if_both (Fine fl env init s) (str_eq type_str "batch_begin")
            (begin_named-Fine fl env init s (batch_id (find "id" fields)) h)
            (if_both (Fine fl env init s) (str_eq type_str "batch_commit")
              (commit_batch-Fine s
                (commit_slot fl env fields (named_batch s (batch_id (find "id" fields))))
                (commit_slot-NamedAt fields (named_batch s (batch_id (find "id" fields)))
                  (named_batch-Named s (batch_id (find "id" fields)) h))
                h)
              (if_both (Fine fl env init s) (str_eq type_str "batch_abort")
                (abort_batch-Fine fl env init s (named_batch s (batch_id (find "id" fields))) h)
                (rejection-Fine fl env init s (unknown_type type_str) h)))))

  pub parsed-Fine :
      (s : ControlServer F G) (m : Result JsonError (Fields F))
      → Sound fl env init s
      → Fine fl env init s (handle_parsed fl env s m)
  unfolding handle_parsed
  parsed-Fine s (err e) h = rejection-Fine fl env init s (malformed e) h
  parsed-Fine s (ok fields) h = dispatch-Fine s fields (get_string fields "type" "scalar") h

module _ {F G : Type 0} (fl : Floats F G) (env : Env) where
  -- The accepted commit: its result in terms of the loop.
  pub commit-runs :
      (s : ControlServer F G) (fields : Fields F) (bid : String) (ops : List (StagedOp F G))
      (slot : F)
      → batch_id (find "id" fields) ≡ ok bid
      → lookup bid s.open_batches ≡ some ops
      → get_number fields "take_effect_at_slot" (zero_double fl) ≡ ok slot
      → fl.lt slot (zero_double fl) ≡ false
      → handle_batch_commit fl env s fields ≡ (
        committed (commit_ops fl env (fl.to_u64 slot) ops s.controls 0).1 (fl.to_u64 slot),
        record s {
          controls = (commit_ops fl env (fl.to_u64 slot) ops s.controls 0).0;
          open_batches = erase bid s.open_batches;
          batches_committed = add64 s.batches_committed 1;
        },
      )
  unfolding handle_batch_commit commit_batch commit_slot named_batch
  commit-runs s fields bid ops slot named is_open slotted later =
      rw (named, is_open, slotted, later) refl
