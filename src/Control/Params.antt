-- ===== src/Control/Params.antt =====
-- The whitelist of parameters of src/control_server.cpp, its ranges, and the write to the shadow.
pub mod Fields
use ocudu_channel.Common.{
  ℕ, ◌≡◌, refl, Bool, true, false, not, ◌&&◌, ◌||◌, Option, none, some, List, [], ◌∷◌, String,
  str_eq, if◌then◌else◌, Floats, All, if_split, some-injective, subst,
}
use ocudu_channel.Runtime.{MutableParams, BrokerLinkControl, bump_seqno}

pub record ParamSpec (F : Type 0) : Type 0 where
  pub name : String
  pub min : F
  pub max : F
  pub is_int : Bool

module _ {F G : Type 0} (fl : Floats F G) where
  abbrev below : ℕ → F
  below n = fl.literal true n 0

  abbrev above : ℕ → F
  above n = fl.literal false n 0

  -- `kParamSpecs`
  abbrev pub param_specs : List (ParamSpec F)
  param_specs =
      (record { name = "path_loss_db"; min = below 200; max = above 50; is_int = false })
      ∷ (record { name = "awgn_snr_db"; min = below 30; max = above 120; is_int = false })
      ∷ (record { name = "los_k_db"; min = below 30; max = above 40; is_int = false })
      ∷ (record { name = "cfo_hz"; min = below 50000; max = above 50000; is_int = false })
      ∷ (record { name = "tap0_delay_samples"; min = above 0; max = above 1023; is_int = false })
      ∷ (record { name = "tap0_gain_db"; min = below 100; max = above 20; is_int = false })
      ∷ (record {
        name = "tap0_phase_rad";
        min = fl.literal true 31415926535897932 16;
        max = fl.literal false 31415926535897932 16;
        is_int = false;
      })
      ∷ []

  -- The loop of `find_param_spec`.
  unfoldable pub find_spec : String → List (ParamSpec F) → Option (ParamSpec F)
  find_spec name [] = none
  find_spec name (spec ∷ specs) = if str_eq name spec.name then some spec else find_spec name specs

  unfoldable pub find_param_spec : String → Option (ParamSpec F)
  unfolding find_spec
  find_param_spec name = find_spec name param_specs

  -- The range test of a request.
  unfoldable pub in_range : ParamSpec F → F → Bool
  in_range spec value =
      fl.is_finite value && not (fl.lt value spec.min) && not (fl.lt spec.max value)

module _ {G : Type 0} where
  -- The assignment that `apply_update` selects by the name.
  unfoldable pub write_param : String → G → MutableParams G → Option (MutableParams G)
  write_param name value p =
      if str_eq name "path_loss_db"
      then some (record p { path_loss_db = value })
      else if str_eq name "awgn_snr_db"
      then some (record p { awgn_snr_db = value })
      else if str_eq name "los_k_db"
      then some (record p { los_k_db = value })
      else if str_eq name "cfo_hz"
      then some (record p { cfo_hz = value })
      else if str_eq name "tap0_delay_samples"
      then some (record p { tap0_delay_samples = value })
      else if str_eq name "tap0_gain_db"
      then some (record p { tap0_gain_db = value })
      else if str_eq name "tap0_phase_rad"
      then some (record p { tap0_phase_rad = value })
      else none

  -- `read_shadow`: the field under a name; `none` is NaN, for a name that is not listed.
  unfoldable pub read_param : String → MutableParams G → Option G
  read_param name p =
      if str_eq name "path_loss_db"
      then some p.path_loss_db
      else if str_eq name "awgn_snr_db"
      then some p.awgn_snr_db
      else if str_eq name "los_k_db"
      then some p.los_k_db
      else if str_eq name "cfo_hz"
      then some p.cfo_hz
      else if str_eq name "tap0_delay_samples"
      then some p.tap0_delay_samples
      else if str_eq name "tap0_gain_db"
      then some p.tap0_gain_db
      else if str_eq name "tap0_phase_rad"
      then some p.tap0_phase_rad
      else none

module _ {F G : Type 0} (fl : Floats F G) where
  publish : BrokerLinkControl F G → Option (MutableParams G) → Option (BrokerLinkControl F G)
  publish ctl none = none
  publish ctl (some p) = some (record ctl { shadow = p; seqno = bump_seqno ctl.seqno })

  -- `none` is the result false.
  unfoldable pub apply_update :
      BrokerLinkControl F G → ParamSpec F → F → Option (BrokerLinkControl F G)
  unfolding write_param publish
  apply_update ctl spec value = publish ctl (write_param spec.name (fl.to_float value) ctl.shadow)

  find_spec-All {κ} :
      (P : ParamSpec F → Type κ) (name : String) (specs : List (ParamSpec F)) {spec : ParamSpec F}
      → All P specs
      → find_spec fl name specs ≡ some spec
      → P spec
  unfolding find_spec
  find_spec-All P name [] h e = cc
  find_spec-All P name (s ∷ specs) {spec} h e =
      if_split (λ o. o ≡ some spec → P spec) (str_eq name s.name)
        (λ _ found. subst P (some-injective s spec found) h.0)
        (λ _ found. find_spec-All P name specs h.1 found) e

  -- A listed name selects a field: the update of a whitelisted parameter does not fail.
  pub listed-writes :
      (name : String) {spec : ParamSpec F} (value : G) (p : MutableParams G)
      → find_param_spec fl name ≡ some spec
      → (q : MutableParams G) × (write_param spec.name value p ≡ some q)
  unfolding find_param_spec write_param
  listed-writes name value p found =
      find_spec-All (λ s. (q : MutableParams G) × (write_param s.name value p ≡ some q)) name
        (param_specs fl)
        (
          (_, refl),
          ((_, refl), ((_, refl), ((_, refl), ((_, refl), ((_, refl), ((_, refl), tt)))))),
        )
        found
