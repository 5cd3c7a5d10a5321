-- ===== src/Control/Handlers/Batches.antt =====
-- Lemmas on the commit of a batch, `handle_batch_commit` of src/control_server.cpp.
use ocudu_channel.Common.{
  ℕ, suc, ◌+◌, ◌≡◌, refl, sym, subst, Option, none, some, List, [], ◌∷◌, String, Floats, All,
  length, arith, update, update_twice,
}
use ocudu_channel.Runtime.{MutableParams, ProfileShadow, BrokerLinkControl}
use ocudu_channel.Control.Params.Fields.{apply_update-Updated}
use ocudu_channel.Control.Params.{ParamSpec, find_param_spec, apply_update}
use ocudu_channel.Control.State.{StagedOp, scalar_op, profile_op, Env, ControlServer, find_control}
use ocudu_channel.Control.Handlers.{
  commit_ops, commit_op, op_on_control, commit_scalar, written, op_link, scalar_done,
  perform_scalar, perform_swap,
}
use ocudu_channel.Control.Invariant.{
  update-each, ControlOk, OpOk, update-ControlOk, commit_profile-ControlOk, gate-ControlOk,
}

module _ {F G : Type 0} (fl : Floats F G) (env : Env) (init : ℕ → MutableParams G) where
  -- One operation applied: its effect on the link's control block.
  abbrev OpDone : (ℕ → BrokerLinkControl F G) × ℕ → Type 0
  OpDone (controls, counts) = ((j : ℕ) → ControlOk fl env (init j) (controls j)) × (counts ≡ 1)

  commit_op-Done :
      (apply_at c : ℕ) (op : StagedOp F G) (controls : ℕ → BrokerLinkControl F G)
      → ((j : ℕ) → ControlOk fl env (init j) (controls j))
      → OpOk fl env op
      → OpDone (commit_op fl apply_at op controls (some c))
  unfolding commit_op op_on_control commit_scalar written
  commit_op-Done apply_at c (profile_op link_id profile) controls h k = (
    update-each (λ j. ControlOk fl env (init j)) controls c _ h
        (commit_profile-ControlOk fl env (init c) (controls c) profile apply_at k.1 (h c)),
    refl,
  )
  commit_op-Done apply_at c (scalar_op link_id param value) controls h k =
      let (spec, listed, ranged) = k.1 in
      let gated = record (controls c) { take_effect_at_slot = apply_at } in
      let (new, done, good) =
        update-ControlOk fl env (init c) param value gated listed ranged
          (gate-ControlOk fl env (init c) (controls c) apply_at (h c)) in
      rw (listed, done) (update-each (λ j. ControlOk fl env (init j)) controls c new h good, refl)

  op_links :
      (op : StagedOp F G) → OpOk fl env op → (c : ℕ) × (find_control env (op_link op) ≡ some c)
  op_links (scalar_op link_id param value) k = k.0
  op_links (profile_op link_id profile) k = k.0

  -- The loop of a commit: every control block stays good, and every operation is counted.
  pub commit_ops-Done :
      (apply_at : ℕ) (ops : List (StagedOp F G)) (controls : ℕ → BrokerLinkControl F G) (count : ℕ)
      → ((j : ℕ) → ControlOk fl env (init j) (controls j))
      → All (OpOk fl env) ops
      → ((j : ℕ) → ControlOk fl env (init j) ((commit_ops fl env apply_at ops controls count).0 j))
        × ((commit_ops fl env apply_at ops controls count).1 ≡ count + length ops)
  unfolding commit_ops
  commit_ops-Done apply_at [] controls count h k = (h, omega arith)
  commit_ops-Done apply_at (op ∷ ops) controls count h k =
      let (c, linked) = op_links op k.0 in
      let after = commit_op fl apply_at op controls (some c) in
      let done = commit_op-Done apply_at c op controls h k.0 in
      let rest = commit_ops-Done apply_at ops after.0 (count + after.1) done.0 k.1 in
      subst
        (λ o.
          let next = commit_op fl apply_at op controls o in
          let loop = commit_ops fl env apply_at ops next.0 (count + next.1) in
          ((j : ℕ) → ControlOk fl env (init j) (loop.0 j)) × (loop.1 ≡ count + suc (length ops)))
        (sym linked) (rest.0, omega (arith, rest.1, done.1))

-- An operation sent on its own: the handler's effect, when the request names no batch and `slot`.
module _ {F G : Type 0} (fl : Floats F G) (env : Env) (slot : F) where
  send_scalar :
      String → String → F → ControlServer F G → Option ℕ → Option (ParamSpec F) → ControlServer F G
  unfolding perform_scalar
  send_scalar link_id param value s (some c) (some spec) =
      (perform_scalar fl env s
        (record {
          link_id = link_id;
          control = c;
          param = param;
          spec = spec;
          value = value;
          slot = slot;
          batch = none;
        })
        none).1
  send_scalar link_id param value s _ _ = s

  send_swap : String → ProfileShadow F G → ControlServer F G → Option ℕ → ControlServer F G
  unfolding perform_swap
  send_swap link_id profile s (some c) =
      (perform_swap s
        (record { link_id = link_id; control = c; profile = profile; slot = slot; batch = none })
        (fl.to_u64 slot) none).1
  send_swap link_id profile s none = s

  send_now : StagedOp F G → ControlServer F G → ControlServer F G
  unfolding send_scalar send_swap
  send_now (scalar_op link_id param value) s =
      send_scalar link_id param value s (find_control env link_id) (find_param_spec fl param)
  send_now (profile_op link_id profile) s = send_swap link_id profile s (find_control env link_id)

  unfoldable pub send_each : List (StagedOp F G) → ControlServer F G → ControlServer F G
  unfolding send_now
  send_each [] s = s
  send_each (op ∷ ops) s = send_each ops (send_now op s)

  send-commit_op :
      (op : StagedOp F G) (s : ControlServer F G)
      → OpOk fl env op
      → (commit_op fl (fl.to_u64 slot) op s.controls (find_control env (op_link op))).0
        ≡ (send_now op s).controls
  unfolding send_now send_scalar send_swap commit_op op_on_control commit_scalar written
      perform_scalar perform_swap scalar_done
  send-commit_op (profile_op link_id profile) s k = rw k.0.1 refl
  send-commit_op (scalar_op link_id param value) s k =
      let (c, linked) = k.0 in
      let (spec, listed, ranged) = k.1 in
      let gated = record (s.controls c) { take_effect_at_slot = fl.to_u64 slot } in
      let (new, done, u) = apply_update-Updated fl param value gated listed in
      let both : (update s.controls c (written fl gated (apply_update fl gated spec value)))
          ≡ (send_scalar link_id param value s (some c) (some spec)).controls =
        subst
          (λ o.
            update s.controls c (written fl gated o)
            ≡ (scalar_done (record s { controls = update s.controls c gated }) c o).1.controls)
          (sym done) (sym (update_twice s.controls c gated new)) in
      rw (linked, listed) both

  -- A commit leaves the links as sending the batch's operations one by one, in order and unbatched,
  -- with the commit's slot, when they have passed the validation.
  pub commit_ops-send_each :
      (ops : List (StagedOp F G)) (s : ControlServer F G) (count : ℕ)
      → All (OpOk fl env) ops
      → (commit_ops fl env (fl.to_u64 slot) ops s.controls count).0 ≡ (send_each ops s).controls
  unfolding commit_ops send_each
  commit_ops-send_each [] s count k = refl
  commit_ops-send_each (op ∷ ops) s count k =
      let counted = commit_op fl (fl.to_u64 slot) op s.controls (find_control env (op_link op)) in
      subst
        (λ controls.
          (commit_ops fl env (fl.to_u64 slot) ops controls (count + counted.1)).0
          ≡ (send_each ops (send_now op s)).controls)
        (sym (send-commit_op op s k.0))
        (commit_ops-send_each ops (send_now op s) (count + counted.1) k.1)
