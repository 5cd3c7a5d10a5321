-- ===== src/Control/Handlers/GoesLive.antt =====
-- From a scalar request of src/control_server.cpp to the live parameters of the server thread.
use ocudu_channel.Common.{
  ℕ, ◌^◌, ◌≤◌, ◌<◌, ◌≡◌, ◌≢◌, refl, sym, ap, subst, none, some, true, false, String, Floats, ok,
  arith, update, update_self, ltb, ◌==◌,
}
use ocudu_channel.Runtime.{MutableParams, BrokerLinkControl, bump_seqno, snap_mutable_params}
use ocudu_channel.Runtime.Snap.{bump_seqno-ne}
use ocudu_channel.Control.Json.{Fields}
use ocudu_channel.Control.Params.{read_param, apply_update}
use ocudu_channel.Control.Params.Fields.{Updated, apply_update-Updated}
use ocudu_channel.Control.State.{Env, ControlServer}
use ocudu_channel.Control.Checks.{ScalarRequest, check_scalar}
use ocudu_channel.Control.Checks.Good.{check_scalar-Good}
use ocudu_channel.Control.Handlers.{
  handle_scalar_update, finish_scalar, perform_scalar, scalar_done,
}

module _ {F G : Type 0} (fl : Floats F G) (env : Env) where
  -- What the next snap does, for a link whose live parameters were up to date.
  pub record GoesLive (r : ScalarRequest F) (live : MutableParams G)
      (old new : BrokerLinkControl F G) : Type 0 where
    pub waits :
        (slot : ℕ)
        → slot < fl.to_u64 r.slot
        → (snap_mutable_params live old.seqno new slot).0 ≡ live
    pub takes :
        (slot : ℕ)
        → fl.to_u64 r.slot ≤ slot
        → read_param r.param (snap_mutable_params live old.seqno new slot).0
          ≡ some (fl.to_float r.value)
    pub keeps :
        (slot : ℕ) (other : String)
        → fl.to_u64 r.slot ≤ slot
        → r.param ≢ other
        → read_param other (snap_mutable_params live old.seqno new slot).0
          ≡ read_param other old.shadow

  snap-GoesLive :
      (r : ScalarRequest F) (live : MutableParams G) (old new : BrokerLinkControl F G)
      → old.seqno < 2 ^ 32
      → Updated fl r.param r.value (record old { take_effect_at_slot = fl.to_u64 r.slot }) new
      → GoesLive r live old new
  unfolding snap_mutable_params
  snap-GoesLive r live old new small u =
      let seq : new.seqno ≡ bump_seqno old.seqno = ap (λ c. c.seqno) u.rest in
      let gate : new.take_effect_at_slot ≡ fl.to_u64 r.slot =
        ap (λ c. c.take_effect_at_slot) u.rest in
      let differs : (new.seqno == old.seqno) ≡ false =
        ground (arith, seq, bump_seqno-ne old.seqno small) in
      record {
        waits = λ slot h.
            let shut : ltb slot new.take_effect_at_slot ≡ true = ground (arith, gate, h) in
            rw (differs, shut) refl;
        takes = λ slot h.
            let opened : ltb slot new.take_effect_at_slot ≡ false = ground (arith, gate, h) in
            rw (differs, opened) u.written;
        keeps = λ slot other h ne.
            let opened : ltb slot new.take_effect_at_slot ≡ false = ground (arith, gate, h) in
            rw (differs, opened) (u.others other ne);
      }

  -- An accepted scalar update that names no batch, on a link whose live parameters were up to date:
  -- before its slot the next snap leaves the live parameters as they were, and from its slot on it
  -- gives the named one the value rounded to `float` and every other one its shadow's value.
  pub scalar-GoesLive :
      (s : ControlServer F G) (fields : Fields F) (r : ScalarRequest F) (live : MutableParams G)
      → check_scalar fl env s fields ≡ ok r
      → r.batch ≡ none
      → (s.controls r.control).seqno < 2 ^ 32
      → GoesLive r live
          (s.controls r.control)
          ((handle_scalar_update fl env s fields).1.controls r.control)
  unfolding handle_scalar_update finish_scalar perform_scalar scalar_done
  scalar-GoesLive s fields r live checked unbatched small =
      let g = check_scalar-Good fl env s fields checked in
      let old = s.controls r.control in
      let gated = record old { take_effect_at_slot = fl.to_u64 r.slot } in
      let (new, done, u) = apply_update-Updated fl r.param r.value gated g.listed in
      let s1 = record s { controls = update s.controls r.control gated } in
      let result : (scalar_done s1 r.control (apply_update fl gated r.spec r.value)).1.controls
            r.control
          ≡ new =
        subst (λ o. (scalar_done s1 r.control o).1.controls r.control ≡ new) (sym done)
          (update_self s1.controls r.control new) in
      let alone : GoesLive r live old ((perform_scalar fl env s r none).1.controls r.control) =
        subst (GoesLive r live old) (sym result) (snap-GoesLive r live old new small u) in
      subst (λ m. GoesLive r live old ((finish_scalar fl env s m).1.controls r.control))
        (sym checked)
        (subst (λ b. GoesLive r live old ((perform_scalar fl env s r b).1.controls r.control))
          (sym unbatched) alone)
