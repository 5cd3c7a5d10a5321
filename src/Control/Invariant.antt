-- ===== src/Control/Invariant.antt =====
-- What holds of the control server of src/control_server.cpp between two messages.
use ocudu_channel.Common.{
  ℕ, ◌≡◌, ◌≢◌, ◌⊎◌, inl, inr, sym, ap, subst, ◌∙◌, true, some, String, Floats, All, Each, ◌==◌,
  arith, update, ==_iff, if_split, str_eq, eq_iff, Bool-cases, some-injective,
}
use ocudu_channel.Runtime.{MutableParams, ProfileShadow, BrokerLinkControl}
use ocudu_channel.Control.Params.{ParamSpec, find_param_spec, in_range, read_param, apply_update}
use ocudu_channel.Control.Params.Fields.{Updated, apply_update-Updated}
use ocudu_channel.Control.State.{StagedOp, scalar_op, profile_op, Env, ControlServer, find_control}
use ocudu_channel.Control.Checks.Good.{GoodProfile}
use ocudu_channel.Control.Handlers.{commit_profile}

-- What holds of every control block holds after one of them has changed.
pub update-each {ℓ κ} :
    {A : Type ℓ} (P : ℕ → A → Type κ) (f : ℕ → A) (c : ℕ) (v : A)
    → ((j : ℕ) → P j (f j))
    → P c v
    → (j : ℕ) → P j (update f c v j)
update-each P f c v h k j =
    if_split (P j) (j == c) (λ same. subst (λ i. P i v) (sym ((==_iff j c).0 same)) k) (λ _. h j)

module _ {F G : Type 0} (fl : Floats F G) (env : Env) where
  -- Each parameter of a shadow still has its initial value, or a value of its whitelisted range,
  -- rounded to `float`.
  abbrev pub Permitted : MutableParams G → MutableParams G → Type 0
  Permitted init p =
      (name : String) (spec : ParamSpec F)
      → find_param_spec fl name ≡ some spec
      → (read_param name p ≡ read_param name init)
        ⊎ ((v : F) × (in_range fl spec v ≡ true) × (read_param name p ≡ some (fl.to_float v)))

  pub record ControlOk (init : MutableParams G) (ctl : BrokerLinkControl F G) : Type 0 where
    pub permitted : Permitted init ctl.shadow
    pub profile_ok : ctl.profile_pending ≡ true → GoodProfile fl env ctl.shadow_profile

  -- A staged operation has passed the validation.
  abbrev pub OpOk : StagedOp F G → Type 0
  OpOk (scalar_op link_id param value) =
      ((c : ℕ) × (find_control env link_id ≡ some c))
      × ((spec : ParamSpec F) × (find_param_spec fl param ≡ some spec)
          × (in_range fl spec value ≡ true))
  OpOk (profile_op link_id profile) =
      ((c : ℕ) × (find_control env link_id ≡ some c)) × GoodProfile fl env profile

  -- The invariant; `init` has what each control block was initialised with.
  pub record Sound (init : ℕ → MutableParams G) (s : ControlServer F G) : Type 0 where
    pub controls_ok : (c : ℕ) → ControlOk (init c) (s.controls c)
    pub staged_ok : Each (All OpOk) s.open_batches

  write-Permitted :
      (init : MutableParams G) (param : String) (value : F) (ctl new : BrokerLinkControl F G)
      {spec : ParamSpec F}
      → find_param_spec fl param ≡ some spec
      → in_range fl spec value ≡ true
      → Updated fl param value ctl new
      → Permitted init ctl.shadow
      → Permitted init new.shadow
  write-Permitted init param value ctl new {spec} listed ranged u h name spec' listed' =
      elim (Bool-cases (str_eq param name)) [
        | inl same ↦
            let is = (eq_iff param name).0 same in
            let one =
              some-injective spec spec' (sym listed ∙ ap (find_param_spec fl) is ∙ listed') in
            inr (
              value,
              subst (λ t. in_range fl t value ≡ true) one ranged,
              subst (λ n. read_param n new.shadow ≡ some (fl.to_float value)) is u.written,
            )
        | inr other ↦
            let ne : param ≢ name = ground (arith, eq_iff param name) in
            subst
              (λ o.
                (o ≡ read_param name init)
                ⊎ ((v : F) × (in_range fl spec' v ≡ true) × (o ≡ some (fl.to_float v))))
              (sym (u.others name ne)) (h name spec' listed')
      ]

  -- A validated scalar update succeeds and keeps its control block good.
  pub update-ControlOk :
      (init : MutableParams G) (param : String) (value : F) (ctl : BrokerLinkControl F G)
      {spec : ParamSpec F}
      → find_param_spec fl param ≡ some spec
      → in_range fl spec value ≡ true
      → ControlOk init ctl
      → (new : BrokerLinkControl F G) × (apply_update fl ctl spec value ≡ some new)
        × ControlOk init new
  update-ControlOk init param value ctl listed ranged h =
      let (new, done, u) = apply_update-Updated fl param value ctl listed in
      (
        new,
        done,
        record {
          permitted = write-Permitted init param value ctl new listed ranged u h.permitted;
          profile_ok =
              subst (λ c. c.profile_pending ≡ true → GoodProfile fl env c.shadow_profile)
                (sym u.rest) h.profile_ok;
        },
      )

  pub commit_profile-ControlOk :
      (init : MutableParams G) (ctl : BrokerLinkControl F G) (profile : ProfileShadow F G)
      (slot : ℕ)
      → GoodProfile fl env profile
      → ControlOk init ctl
      → ControlOk init (commit_profile ctl profile slot)
  unfolding commit_profile
  commit_profile-ControlOk init ctl profile slot g h = record {
    permitted = h.permitted;
    profile_ok = λ _. g;
  }

  pub gate-ControlOk :
      (init : MutableParams G) (ctl : BrokerLinkControl F G) (slot : ℕ)
      → ControlOk init ctl
      → ControlOk init (record ctl { take_effect_at_slot = slot })
  gate-ControlOk init ctl slot h = record { permitted = h.permitted; profile_ok = h.profile_ok }
