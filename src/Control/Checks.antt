-- ===== src/Control/Checks.antt =====
-- The validation of requests in src/control_server.cpp: everything that the handlers test before
-- they change anything, in the order of the tests.
pub mod Good
pub mod Swap
use ocudu_channel.Common.{
  ℕ, zero, suc, ◌+◌, ◌-◌, ◌/◌, Bool, true, false, not, ◌&&◌, ◌||◌, Option, none, some, List, [],
  ◌∷◌, ◌++◌, String, str_eq, if◌then◌else◌, Floats, Result, ok, err, ◌>>=◌, ◌>>◌, guard, require,
  length, ltb, replicate, is_empty, lookup,
}
use ocudu_channel.Runtime.{
  ProfileShadow, TapSpec, BrokerLinkControl, max_taps, zero_double, default_tap, default_profile,
}
use ocudu_channel.Control.Json.{
  JsonValue, Fields, Items, string, number, boolean, object, array, JsonError, find, items_to_list,
  get_number, get_bool, get_string,
}
use ocudu_channel.Control.Params.{ParamSpec, find_param_spec, in_range}
use ocudu_channel.Control.State.{
  Reason, bad_field, unknown_link, unknown_param, missing_field, field_types, out_of_range,
  wants_integer, negative_slot, batch_id_type, batch_id_empty, unknown_batch, link_id_field,
  warmup_span, taps_field, taps_empty, taps_too_many, tap_not_object, tap_bad_field,
  tap_delay_range, tap_gain_range, fading_not_object, fading_bad_field, fading_spectrum, id_field,
  StagedOp, Env, ControlServer, find_control,
}

-- A scalar request that passed every test.
pub record ScalarRequest (F : Type 0) : Type 0 where
  pub link_id : String
  pub control : ℕ
  pub param : String
  pub spec : ParamSpec F
  pub value : F
  pub slot : F
  pub batch : Option String

pub record SwapRequest (F G : Type 0) : Type 0 where
  pub link_id : String
  pub control : ℕ
  pub profile : ProfileShadow F G
  pub slot : F
  pub batch : Option String

-- An exception's message becomes the reason.
module _ {A : Type 0} where
  abbrev pub caught : (JsonError → Reason) → Result JsonError A → Result Reason A
  caught wrap (ok a) = ok a
  caught wrap (err e) = err (wrap e)

module _ {F G : Type 0} where
  -- `resolve_optional_batch`: no batch, an open one, or a rejection.
  open_batch :
      ControlServer F G → String → Option (List (StagedOp F G)) → Result Reason (Option String)
  open_batch s bid none = err (unknown_batch bid)
  open_batch s bid (some ops) = ok (some bid)

  batch_named : ControlServer F G → Option (JsonValue F) → Result Reason (Option String)
  unfolding open_batch
  batch_named s none = ok none
  batch_named s (some (string bid)) =
      if str_eq bid "" then err batch_id_empty else open_batch s bid (lookup bid s.open_batches)
  batch_named s (some _) = err batch_id_type

module _ {F : Type 0} where
  -- The three required fields of a scalar update.
  scalar_fields :
      Option (JsonValue F)
      → Option (JsonValue F)
      → Option (JsonValue F)
      → Result Reason (String × String × F)
  scalar_fields (some (string l)) (some (string p)) (some (number v)) = ok (l, p, v)
  scalar_fields (some _) (some _) (some _) = err field_types
  scalar_fields _ _ _ = err missing_field

  taps_array : Option (JsonValue F) → Result Reason (List (JsonValue F))
  taps_array (some (array xs)) = ok (items_to_list xs)
  taps_array _ = err taps_field

  link_field : Option (JsonValue F) → Result Reason String
  link_field (some (string link_id)) = ok link_id
  link_field _ = err link_id_field

module _ {F G : Type 0} (fl : Floats F G) where
  slot_field : Fields F → Result Reason F
  slot_field fields = do
    slot ← caught bad_field (get_number fields "take_effect_at_slot" (zero_double fl))
    guard (not (fl.lt slot (zero_double fl))) negative_slot
    ok slot

  tap_of : Fields F → Result JsonError (TapSpec F)
  tap_of t = do
    delay_samples ← get_number t "delay_samples" (zero_double fl)
    gain_db ← get_number t "gain_db" (zero_double fl)
    phase_rad ← get_number t "phase_rad" (zero_double fl)
    is_los ← get_bool t "is_los" false
    los_k_db ← get_number t "los_k_db" (zero_double fl)
    los_angle_rad ← get_number t "los_angle_rad" (zero_double fl)
    ok (record {
      delay_samples = delay_samples;
      gain_db = gain_db;
      phase_rad = phase_rad;
      is_los = is_los;
      los_k_db = los_k_db;
      los_angle_rad = los_angle_rad;
    })

  -- The range tests of a tap.
  unfoldable pub delay_in_range : TapSpec F → Bool
  delay_in_range t =
      not (fl.lt t.delay_samples (fl.literal false 0 0))
      && not (fl.lt (fl.literal false 1023 0) t.delay_samples)

  unfoldable pub gain_in_range : TapSpec F → Bool
  gain_in_range t =
      not (fl.lt t.gain_db (fl.literal true 100 0)) && not (fl.lt (fl.literal false 20 0) t.gain_db)

  check_tap : ℕ → JsonValue F → Result Reason (TapSpec F)
  unfolding tap_of
  check_tap k (object t) = do
    tap ← caught (tap_bad_field k) (tap_of t)
    guard (delay_in_range tap) (tap_delay_range k)
    guard (gain_in_range tap) (tap_gain_range k)
    ok tap
  check_tap k _ = err (tap_not_object k)

  -- The loop over the taps, from index `k` on.
  check_taps : ℕ → List (JsonValue F) → Result Reason (List (TapSpec F))
  unfolding check_tap
  check_taps k [] = ok []
  check_taps k (v ∷ vs) = do tap ← check_tap k v; taps ← check_taps (k + 1) vs; ok (tap ∷ taps)

  check_fading : ProfileShadow F G → Option (JsonValue F) → Result Reason (ProfileShadow F G)
  check_fading staged none = ok staged
  check_fading staged (some (object f)) = do
    enabled ← caught fading_bad_field (get_bool f "enabled" false)
    f_d_max_hz ← caught fading_bad_field (get_number f "f_d_max_hz" (zero_double fl))
    grid_us ← caught fading_bad_field (get_number f "grid_us" (fl.literal false 100 0))
    spectrum ← caught fading_bad_field (get_string f "spectrum" "jakes")
    guard (str_eq spectrum "jakes") fading_spectrum
    ok (record staged {
      fading_enabled = enabled;
      fading_f_d_max_hz = fl.to_float f_d_max_hz;
      fading_grid_us = fl.to_float grid_us;
      fading_spectrum = 0;
    })
  check_fading staged (some _) = err fading_not_object

  -- The staged profile of the taps that passed, the rest of the array at its default.
  abbrev staged_profile : List (TapSpec F) → ProfileShadow F G
  staged_profile taps = record (default_profile fl) {
    n_taps = length taps;
    taps = taps ++ replicate (max_taps - length taps) (default_tap fl);
  }

  check_faded : Fields F → Result Reason (List (TapSpec F)) → Result Reason (ProfileShadow F G)
  unfolding check_fading
  check_faded fields (err reason) = err reason
  check_faded fields (ok taps) = check_fading (staged_profile taps) (find "fading" fields)

  -- The taps and the fading of a swap.
  check_profile : Fields F → Result Reason (ProfileShadow F G)
  unfolding check_taps taps_array check_faded
  check_profile fields = do
    entries ← taps_array (find "taps" fields)
    guard (not (is_empty entries)) taps_empty
    guard (not (ltb max_taps (length entries))) taps_too_many
    check_faded fields (check_taps 0 entries)

-- The warm-up span of a swap, `ceil(dl_size / count)`; 0 where the check is skipped. The hints are
-- `int`s of which the code only uses positive values.
unfoldable pub prospective_span : {F G : Type 0} → Env → BrokerLinkControl F G → ℕ
prospective_span env ctl =
    if ltb 0 env.warmup_cap_slots && ltb 0 ctl.dl_size_samples_hint && ltb 0 ctl.slot_count_hint
    then (ctl.dl_size_samples_hint + ctl.slot_count_hint - 1) / ctl.slot_count_hint
    else 0

module _ {F G : Type 0} (fl : Floats F G) (env : Env) (s : ControlServer F G) where
  unfoldable pub resolve_optional_batch : Fields F → Result Reason (Option String)
  unfolding batch_named
  resolve_optional_batch fields = batch_named s (find "batch_id" fields)

  -- The tests of `handle_scalar_update` after its fields have been found.
  unfoldable pub check_scalar_fields :
      Fields F → String × String × F → Result Reason (ScalarRequest F)
  unfolding slot_field
  check_scalar_fields fields (link_id, param, value) = do
    control ← require (find_control env link_id) (unknown_link link_id)
    spec ← require (find_param_spec fl param) (unknown_param param)
    guard (in_range fl spec value) (out_of_range param)
    guard (not spec.is_int || fl.is_whole value) (wants_integer param)
    slot ← slot_field fl fields
    batch ← resolve_optional_batch fields
    ok (record {
      link_id = link_id;
      control = control;
      param = param;
      spec = spec;
      value = value;
      slot = slot;
      batch = batch;
    })

  unfoldable pub check_scalar : Fields F → Result Reason (ScalarRequest F)
  unfolding scalar_fields
  check_scalar fields =
      scalar_fields (find "link_id" fields) (find "param" fields) (find "value" fields)
      >>= check_scalar_fields fields

  -- The fields that are tested after the profile.
  check_swap_tail :
      Fields F → String → ℕ → Result Reason (ProfileShadow F G) → Result Reason (SwapRequest F G)
  unfolding slot_field
  check_swap_tail fields link_id control (err reason) = err reason
  check_swap_tail fields link_id control (ok profile) = do
    slot ← slot_field fl fields
    force ← caught bad_field (get_bool fields "force" false)
    batch ← resolve_optional_batch fields
    ok (record {
      link_id = link_id;
      control = control;
      profile = record profile { force = force };
      slot = slot;
      batch = batch;
    })

  check_swap_link : Fields F → String → Option ℕ → Result Reason (SwapRequest F G)
  unfolding check_swap_tail check_profile
  check_swap_link fields link_id none = err (unknown_link link_id)
  check_swap_link fields link_id (some control) =
      if ltb env.warmup_cap_slots (prospective_span env (s.controls control))
      then err (warmup_span (prospective_span env (s.controls control)))
      else check_swap_tail fields link_id control (check_profile fl fields)

  unfoldable pub check_swap : Fields F → Result Reason (SwapRequest F G)
  unfolding link_field check_swap_link
  check_swap fields = link_field (find "link_id" fields) >>= λ link_id.
      check_swap_link fields link_id (find_control env link_id)

module _ {F : Type 0} where
  -- The `id` of the batch messages.
  unfoldable pub batch_id : Option (JsonValue F) → Result Reason String
  batch_id (some (string bid)) = ok bid
  batch_id _ = err id_field
