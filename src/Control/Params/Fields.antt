-- ===== src/Control/Params/Fields.antt =====
-- Lemmas on the write of one parameter in src/control_server.cpp.
use ocudu_channel.Common.{
  ◌≡◌, ◌≢◌, refl, sym, ◌∙◌, true, false, Option, some, List, [], ◌∷◌, String, str_eq, eq_iff,
  Floats, arith, if_split, some-injective, subst, Bool, if◌then◌else◌,
}
use mathlib.Core.Option.{none-ne-some}
use ocudu_channel.Runtime.{MutableParams, BrokerLinkControl, bump_seqno}
use ocudu_channel.Control.Params.{
  ParamSpec, param_specs, find_spec, find_param_spec, write_param, read_param, apply_update,
  listed-writes,
}

module _ {G : Type 0} where
  read-write_self :
      (name : String) (v : G) (p : MutableParams G) {q : MutableParams G}
      → write_param name v p ≡ some q
      → read_param name q ≡ some v
  unfolding write_param read_param
  read-write_self name v p e = ground arith

  -- One case of a write: the field that `lit` names was set, and `other` is another name.
  elsewhere :
      (name other lit : String) (p p' : MutableParams G) {q : MutableParams G}
      → (other ≢ lit → read_param other p' ≡ read_param other p)
      → name ≢ other
      → str_eq name lit ≡ true
      → some p' ≡ some q
      → read_param other q ≡ read_param other p
  elsewhere name other lit p p' {q} keeps ne h e =
      subst (λ r. read_param other r ≡ read_param other p) (some-injective p' q e)
        (keeps (λ k. ne ((eq_iff name lit).0 h ∙ sym k)))

  try_next :
      (b : Bool) {x y : Option (MutableParams G)} {q : MutableParams G} {T : Type 0}
      → (b ≡ true → x ≡ some q → T)
      → (y ≡ some q → T)
      → (if b then x else y) ≡ some q
      → T
  try_next true h k e = h refl e
  try_next false h k e = k e

  read-write_ne :
      (name other : String) (v : G) (p : MutableParams G) {q : MutableParams G}
      → name ≢ other
      → write_param name v p ≡ some q
      → read_param other q ≡ read_param other p
  unfolding write_param read_param
  read-write_ne name other v p ne =
      try_next (str_eq name "path_loss_db")
        (elsewhere name other "path_loss_db" p (record p { path_loss_db = v })
          (λ k. ground (arith, eq_iff other "path_loss_db")) ne)
        (try_next (str_eq name "awgn_snr_db")
          (elsewhere name other "awgn_snr_db" p (record p { awgn_snr_db = v })
            (λ k. ground (arith, eq_iff other "awgn_snr_db")) ne)
          (try_next (str_eq name "los_k_db")
            (elsewhere name other "los_k_db" p (record p { los_k_db = v })
              (λ k. ground (arith, eq_iff other "los_k_db")) ne)
            (try_next (str_eq name "cfo_hz")
              (elsewhere name other "cfo_hz" p (record p { cfo_hz = v })
                (λ k. ground (arith, eq_iff other "cfo_hz")) ne)
              (try_next (str_eq name "tap0_delay_samples")
                (elsewhere name other "tap0_delay_samples" p (record p { tap0_delay_samples = v })
                  (λ k. ground (arith, eq_iff other "tap0_delay_samples")) ne)
                (try_next (str_eq name "tap0_gain_db")
                  (elsewhere name other "tap0_gain_db" p (record p { tap0_gain_db = v })
                    (λ k. ground (arith, eq_iff other "tap0_gain_db")) ne)
                  (try_next (str_eq name "tap0_phase_rad")
                    (elsewhere name other "tap0_phase_rad" p (record p { tap0_phase_rad = v })
                      (λ k. ground (arith, eq_iff other "tap0_phase_rad")) ne)
                    (λ e. absurd (none-ne-some _ e))))))))

module _ {F G : Type 0} (fl : Floats F G) where
  find_spec-name :
      (name : String) (specs : List (ParamSpec F)) {spec : ParamSpec F}
      → find_spec fl name specs ≡ some spec
      → spec.name ≡ name
  unfolding find_spec
  find_spec-name name [] e = absurd (none-ne-some _ e)
  find_spec-name name (s ∷ specs) {spec} e =
      if_split (λ o. o ≡ some spec → spec.name ≡ name) (str_eq name s.name)
        (λ same found.
          subst (λ t. t.name ≡ name) (some-injective s spec found)
            (sym ((eq_iff name s.name).0 same)))
        (λ _ found. find_spec-name name specs found) e

  pub find_param_spec-name :
      (name : String) {spec : ParamSpec F} → find_param_spec fl name ≡ some spec → spec.name ≡ name
  unfolding find_param_spec
  find_param_spec-name name found = find_spec-name name (param_specs fl) found

  -- What an update of a listed parameter does to the control block.
  pub record Updated (name : String) (value : F) (ctl new : BrokerLinkControl F G) : Type 0 where
    pub written : read_param name new.shadow ≡ some (fl.to_float value)
    pub others :
        (other : String) → name ≢ other → read_param other new.shadow ≡ read_param other ctl.shadow
    pub rest : new ≡ record ctl { shadow = new.shadow; seqno = bump_seqno ctl.seqno }

  -- The update of a whitelisted parameter succeeds, sets that field to the value rounded to `float`,
  -- keeps every other field of the shadow and of the control block, and bumps the sequence number.
  pub apply_update-Updated :
      (name : String) (value : F) (ctl : BrokerLinkControl F G) {spec : ParamSpec F}
      → find_param_spec fl name ≡ some spec
      → (new : BrokerLinkControl F G) × (apply_update fl ctl spec value ≡ some new)
        × Updated name value ctl new
  unfolding apply_update
  apply_update-Updated name value ctl {spec} found =
      let (q, write) = listed-writes fl name (fl.to_float value) ctl.shadow found in
      let named =
        subst (λ n. write_param n (fl.to_float value) ctl.shadow ≡ some q)
          (find_param_spec-name name found) write in
      (
        record ctl { shadow = q; seqno = bump_seqno ctl.seqno },
        rw write refl,
        record {
          written = read-write_self name (fl.to_float value) ctl.shadow named;
          others = λ other ne. read-write_ne name other (fl.to_float value) ctl.shadow ne named;
          rest = refl;
        },
      )
