-- ===== src/Control/Handlers/Requests.antt =====
-- What the handlers of scalar, swap, begin and abort messages in src/control_server.cpp keep, and what
-- their replies promise.
use ocudu_channel.Common.{
  ℕ, ◌≡◌, refl, sym, subst, Option, none, some, List, [], ◌∷◌, ◌++◌, String, str_eq, Floats, Result,
  ok, err, OnOk, All, All-append, lookup, emplace-Each, erase-Each, modify-Each, update, add64,
  if_both,
}
use ocudu_channel.Runtime.{MutableParams, BrokerLinkControl}
use ocudu_channel.Control.State.{
  Reason, StagedOp, scalar_op, profile_op, Reply, rejected, applied, staged, swapped, opened,
  committed, dropped, Env, ControlServer, emit_rejection, id_empty, already_open,
}
use ocudu_channel.Control.Checks.{ScalarRequest, SwapRequest}
use ocudu_channel.Control.Checks.Good.{GoodScalar, GoodSwap}
use ocudu_channel.Control.Invariant.{
  update-each, ControlOk, OpOk, Sound, update-ControlOk, commit_profile-ControlOk, gate-ControlOk,
}
use ocudu_channel.Control.Handlers.{
  stage, commit_profile, scalar_done, perform_swap, begin_new, begin_named, abort_batch,
  perform_scalar, finish_scalar, finish_swap,
}

module _ {F G : Type 0} where
  -- What a reply promises: a rejection has only been counted, and a request that was staged, or that
  -- opened or dropped a batch, has changed no link.
  abbrev pub Clean : ControlServer F G → Reply → ControlServer F G → Type 0
  Clean s (rejected reason) s' = s' ≡ record s { updates_rejected = add64 s.updates_rejected 1 }
  Clean s (applied a b) s' = Unit
  Clean s staged s' = s'.controls ≡ s.controls
  Clean s (swapped a b c) s' = Unit
  Clean s (opened id) s' = s'.controls ≡ s.controls
  Clean s (committed a b) s' = Unit
  Clean s (dropped n) s' = s'.controls ≡ s.controls

module _ {F G : Type 0} (fl : Floats F G) (env : Env) (init : ℕ → MutableParams G) where
  abbrev pub Fine : ControlServer F G → Reply × ControlServer F G → Type 0
  Fine s out = Sound fl env init (out.1) × Clean s (out.0) (out.1)

  pub rejection-Fine :
      (s : ControlServer F G) (reason : Reason)
      → Sound fl env init s
      → Fine s (emit_rejection s reason)
  rejection-Fine s reason h =
      (record { controls_ok = h.controls_ok; staged_ok = h.staged_ok }, refl)

  pub stage-Fine :
      (s : ControlServer F G) (bid : String) (op : StagedOp F G)
      → OpOk fl env op
      → Sound fl env init s
      → Fine s (stage s bid op)
  unfolding stage
  stage-Fine s bid op k h = (
    record {
      controls_ok = h.controls_ok;
      staged_ok =
          modify-Each (All (OpOk fl env)) bid (λ ops. ops ++ op ∷ []) s.open_batches
            (λ ops good. All-append (OpOk fl env) ops (op ∷ []) good (k, tt)) h.staged_ok;
    },
    refl,
  )

  pub changed-Sound :
      (s : ControlServer F G) (c : ℕ) (new : BrokerLinkControl F G)
      → Sound fl env init s
      → ControlOk fl env (init c) new
      → Sound fl env init (record s {
        controls = update s.controls c new;
        updates_applied = add64 s.updates_applied 1;
      })
  changed-Sound s c new h good = record {
    controls_ok = update-each (λ j. ControlOk fl env (init j)) s.controls c new h.controls_ok good;
    staged_ok = h.staged_ok;
  }

  pub perform_scalar-Fine :
      (s : ControlServer F G) (r : ScalarRequest F) (batch : Option String)
      → GoodScalar fl env s r
      → Sound fl env init s
      → Fine s (perform_scalar fl env s r batch)
  unfolding perform_scalar scalar_done
  perform_scalar-Fine s r (some bid) g h =
      stage-Fine s bid (scalar_op r.link_id r.param r.value)
        ((r.control, g.linked), (r.spec, g.listed, g.ranged)) h
  perform_scalar-Fine s r none g h =
      let gated = record (s.controls r.control) { take_effect_at_slot = fl.to_u64 r.slot } in
      let gate_good =
        gate-ControlOk fl env (init r.control) (s.controls r.control) (fl.to_u64 r.slot)
          (h.controls_ok r.control) in
      let (new, done, good) =
        update-ControlOk fl env (init r.control) r.param r.value gated g.listed g.ranged
          gate_good in
      let s1 = record s { controls = update s.controls r.control gated } in
      let h1 : Sound fl env init s1 = record {
        controls_ok =
            update-each (λ j. ControlOk fl env (init j)) s.controls r.control gated h.controls_ok
              gate_good;
        staged_ok = h.staged_ok;
      } in
      subst (λ o. Fine s (scalar_done s1 r.control o)) (sym done)
        (changed-Sound s1 r.control new h1 good, tt)

  pub finish_scalar-Fine :
      (s : ControlServer F G) (m : Result Reason (ScalarRequest F))
      → ((r : ScalarRequest F) → m ≡ ok r → GoodScalar fl env s r)
      → Sound fl env init s
      → Fine s (finish_scalar fl env s m)
  unfolding finish_scalar
  finish_scalar-Fine s (err reason) g h = rejection-Fine s reason h
  finish_scalar-Fine s (ok r) g h = perform_scalar-Fine s r r.batch (g r refl) h

  pub perform_swap-Fine :
      (s : ControlServer F G) (r : SwapRequest F G) (slot : ℕ) (batch : Option String)
      → GoodSwap fl env s r
      → Sound fl env init s
      → Fine s (perform_swap s r slot batch)
  unfolding perform_swap
  perform_swap-Fine s r slot (some bid) g h =
      stage-Fine s bid (profile_op r.link_id r.profile) ((r.control, g.linked), g.profile_ok) h
  perform_swap-Fine s r slot none g h = (
    changed-Sound s r.control (commit_profile (s.controls r.control) r.profile slot) h (
        commit_profile-ControlOk fl env (init r.control) (s.controls r.control) r.profile slot
          g.profile_ok (h.controls_ok r.control)),
    tt,
  )

  pub finish_swap-Fine :
      (s : ControlServer F G) (m : Result Reason (SwapRequest F G))
      → OnOk (GoodSwap fl env s) m
      → Sound fl env init s
      → Fine s (finish_swap fl env s m)
  unfolding finish_swap
  finish_swap-Fine s (err reason) g h = rejection-Fine s reason h
  finish_swap-Fine s (ok r) g h = perform_swap-Fine s r (fl.to_u64 r.slot) r.batch g h

  pub begin_new-Fine :
      (s : ControlServer F G) (bid : String) (o : Option (List (StagedOp F G)))
      → Sound fl env init s
      → Fine s (begin_new s bid o)
  unfolding begin_new
  begin_new-Fine s bid (some ops) h = rejection-Fine s (already_open bid) h
  begin_new-Fine s bid none h = (
    record {
      controls_ok = h.controls_ok;
      staged_ok = emplace-Each (All (OpOk fl env)) bid [] s.open_batches tt h.staged_ok;
    },
    refl,
  )

  pub begin_named-Fine :
      (s : ControlServer F G) (m : Result Reason String)
      → Sound fl env init s
      → Fine s (begin_named s m)
  unfolding begin_named
  begin_named-Fine s (err reason) h = rejection-Fine s reason h
  begin_named-Fine s (ok bid) h =
      if_both (Fine s) (str_eq bid "") (rejection-Fine s id_empty h)
        (begin_new-Fine s bid (lookup bid s.open_batches) h)

  pub abort_batch-Fine :
      (s : ControlServer F G) (m : Result Reason (String × List (StagedOp F G)))
      → Sound fl env init s
      → Fine s (abort_batch s m)
  unfolding abort_batch
  abort_batch-Fine s (err reason) h = rejection-Fine s reason h
  abort_batch-Fine s (ok (bid, ops)) h = (
    record {
      controls_ok = h.controls_ok;
      staged_ok = erase-Each (All (OpOk fl env)) bid s.open_batches h.staged_ok;
    },
    refl,
  )
