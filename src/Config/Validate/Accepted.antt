-- ===== src/Config/Validate/Accepted.antt =====
-- What a topology has that `validate_config` of src/config.cpp finds no error in.
use ocudu_channel.Common.{
  ℕ, ◌*◌, ◌%◌, ◌≤◌, ◌<◌, ◌≡◌, refl, subst, Bool, true, false, not, ◌&&◌, ◌||◌, Option, none, some,
  List, [], ◌∷◌, ◌++◌, String, str_eq, if◌then◌else◌, ltb, ◌==◌, length, is_empty, Floats, All,
  All-map, arith, word_mod, Bool-cases, inl, inr, ◌⊎◌,
}
use ocudu_channel.Config.{
  ModelStep, DeviceConfig, LinkConfig, TopologyConfig, resolve_batch_samples, find_device,
  find_model,
}
use ocudu_channel.Config.Validate.{
  ConfigError, taps_on_other, report, is_none, all_of, each, holds_any, is_tdl, validate_runtime,
  validate_device, validate_devices, rates_differ, validate_link, validate_role, validate_tdl,
  validate_step, validate_model, validate_config,
}

append-nil_both : (xs ys : List ConfigError) → xs ++ ys ≡ [] → (xs ≡ []) × (ys ≡ [])
append-nil_both [] ys e = (refl, e)
append-nil_both (x ∷ xs) ys e = cc

all_of-nil : (tests : List (List ConfigError)) → all_of tests ≡ [] → All (λ es. es ≡ []) tests
unfolding all_of
all_of-nil [] e = tt
all_of-nil (es ∷ tests) e =
    let (here, there) = append-nil_both es (all_of tests) e in (here, all_of-nil tests there)

each-nil {ℓ} :
    {A : Type ℓ} (f : A → List ConfigError) (xs : List A) → each f xs ≡ [] → All (λ x. f x ≡ []) xs
unfolding each
each-nil f [] e = tt
each-nil f (x ∷ xs) e =
    let (here, there) = append-nil_both (f x) (each f xs) e in (here, each-nil f xs there)

report-nil : (test : Bool) (error : ConfigError) → report test error ≡ [] → test ≡ false
report-nil true error e = cc
report-nil false error e = refl

is_none-false {ℓ} : {A : Type ℓ} (o : Option A) → is_none o ≡ false → (a : A) × (o ≡ some a)
unfolding is_none
is_none-false none e = cc
is_none-false (some a) e = (a, refl)

has_queue : (n : ℕ) → (n == 0) ≡ false → 0 < n
has_queue n e = ground arith

module _ {F G : Type 0} (fl : Floats F G) (config : TopologyConfig F) where
  -- The device has a rate, its ring holds two batches, and its id is new.
  abbrev DeviceOk : List String → DeviceConfig F → Type 0
  DeviceOk seen d =
      (holds_any (λ id. str_eq id d.id) seen ≡ false)
      × (0 < d.sample_rate_hz)
      × (2 * resolve_batch_samples config.runtime d.sample_rate_hz ≤ config.runtime.queue_samples)

  -- Two batches of the device are below 2 ^ 64, so that the code's product does not wrap.
  abbrev pub BatchSmall : DeviceConfig F → Type 0
  BatchSmall d = 2 * resolve_batch_samples config.runtime d.sample_rate_hz < word_mod

  -- Each device is fine, and its id is not one of those before it.
  abbrev pub DevicesOk : List String → List (DeviceConfig F) → Type 0
  DevicesOk seen [] = Unit
  DevicesOk seen (d ∷ ds) = DeviceOk seen d × DevicesOk (d.id ∷ seen) ds

  room_test :
      (rate queue batch : ℕ)
      → (not (rate == 0) && not (queue == 0) && ltb queue ((2 * batch) % word_mod)) ≡ false
      → (rate == 0) ≡ false
      → 2 * batch < word_mod
      → 0 < queue
      → 2 * batch ≤ queue
  room_test rate queue batch e r small some_room = ground arith

  devices_ok :
      (seen : List String) (ds : List (DeviceConfig F))
      → 0 < config.runtime.queue_samples
      → All BatchSmall ds
      → validate_devices fl config seen ds ≡ []
      → DevicesOk seen ds
  unfolding validate_devices validate_device
  devices_ok seen [] queued small e = tt
  devices_ok seen (d ∷ ds) queued small e =
      let (here, there) = append-nil_both (validate_device fl config seen d) _ e in
      let tests = all_of-nil _ here in
      let r = report-nil (d.sample_rate_hz == 0) _ tests.1.1.0 in
      (
        (
          report-nil _ _ tests.1.0,
          ground (arith, r),
          room_test d.sample_rate_hz config.runtime.queue_samples
              (resolve_batch_samples config.runtime d.sample_rate_hz) (report-nil _ _ tests.1.1.1.0)
              r small.0 queued,
        ),
        devices_ok (d.id ∷ seen) ds queued small.1 there,
      )

  -- Both ends of the link exist and have one rate, and so does its model.
  abbrev pub LinkOk : LinkConfig F → Type 0
  LinkOk l =
      ((a : DeviceConfig F) × (b : DeviceConfig F) × (find_device config l.from ≡ some a)
        × (find_device config l.to ≡ some b)
        × (a.sample_rate_hz ≡ b.sample_rate_hz))
      × ((chain : List (ModelStep F)) × (find_model config l.model ≡ some chain))

  same_rate :
      (a b : DeviceConfig F)
      → rates_differ fl config (some a) (some b) ≡ false
      → a.sample_rate_hz ≡ b.sample_rate_hz
  unfolding rates_differ
  same_rate a b e = ground arith

  link_ok : (l : LinkConfig F) → validate_link fl config l ≡ [] → LinkOk l
  unfolding validate_link
  link_ok l e =
      let tests = all_of-nil _ e in
      let (a, is_a) = is_none-false (find_device config l.from) (report-nil _ _ tests.0) in
      let (b, is_b) = is_none-false (find_device config l.to) (report-nil _ _ tests.1.0) in
      let differ = report-nil _ _ tests.1.1.1.0 in
      (
        (
          a,
          b,
          is_a,
          is_b,
          same_rate a b (
              subst (λ o. rates_differ fl config o (some b) ≡ false) is_a
                (subst (λ o. rates_differ fl config (find_device config l.from) o ≡ false) is_b
                  differ)),
        ),
        is_none-false (find_model config l.model) (report-nil _ _ tests.1.1.0),
      )

  -- The device is the source of a link, and the destination of one.
  abbrev pub RoleOk : DeviceConfig F → Type 0
  RoleOk d =
      (holds_any (λ (l : LinkConfig F). str_eq l.from d.id) config.links ≡ true)
      × (holds_any (λ (l : LinkConfig F). str_eq l.to d.id) config.links ≡ true)

  not-false : (b : Bool) → not b ≡ false → b ≡ true
  not-false true e = refl
  not-false false e = cc

  role_ok : (d : DeviceConfig F) → validate_role fl config d ≡ [] → RoleOk d
  unfolding validate_role
  role_ok d e =
      let tests = all_of-nil _ e in
      (not-false _ (report-nil _ _ tests.0), not-false _ (report-nil _ _ tests.1.0))

  -- A tdl step has 1 to 64 taps.
  abbrev pub StepOk : ModelStep F → Type 0
  StepOk step = (is_tdl step.type ≡ false) ⊎ ((0 < length step.taps) × (length step.taps ≤ 64))

  taps_counted :
      {A : Type 0} (taps : List A)
      → is_empty taps ≡ false
      → ltb 64 (length taps) ≡ false
      → (0 < length taps) × (length taps ≤ 64)
  taps_counted [] e k = cc
  taps_counted (t ∷ ts) e k = (omega arith, ground arith)

  step_ok : (id : String) (step : ModelStep F) → validate_step fl config id step ≡ [] → StepOk step
  unfolding validate_step validate_tdl
  step_ok id step e =
      let tests = all_of-nil _ e in
      elim (Bool-cases (is_tdl step.type)) [
        | inr other ↦ inl other
        | inl is ↦
            let chosen =
              subst
                (λ b.
                  (if b
                    then validate_tdl fl config id step
                    else report (not (is_empty step.taps) || step.taps_declared) (taps_on_other id))
                  ≡ [])
                is tests.1.1.1.0 in
            let tdl_tests = all_of-nil _ chosen in
            inr (taps_counted step.taps (report-nil _ _ tdl_tests.0) (report-nil _ _ tdl_tests.1.0))
      ]

  -- A topology without errors.
  pub record Accepted : Type 0 where
    pub queue : 0 < config.runtime.queue_samples
    pub devices : DevicesOk [] config.devices
    pub links : All LinkOk config.links
    pub roles : All RoleOk config.devices
    pub steps : All (λ (m : String × List (ModelStep F)). All StepOk (m.1)) config.models

  model_ok : (m : String × List (ModelStep F)) → validate_model fl config m ≡ [] → All StepOk (m.1)
  unfolding validate_model
  model_ok (id, chain) e = All-map (step_ok id) chain (
      each-nil (validate_step fl config id) chain
        (append-nil_both (report (is_empty chain) _) (each (validate_step fl config id) chain) e).1)

  -- A topology in which `validate_config` finds no error, and in which two batches of each device are
  -- below 2 ^ 64 samples, has: a queue; on each device a rate, an id that no device before it has and
  -- room for two batches in its ring; on each link two known ends of one rate and a known model; for
  -- each device a link from it and a link to it; and in each tdl step 1 to 64 taps.
  pub validate_config-Accepted :
      All BatchSmall config.devices → validate_config fl config ≡ [] → Accepted
  unfolding validate_config validate_runtime
  validate_config-Accepted small e =
      let tests = all_of-nil _ e in
      let runtime = all_of-nil _ tests.0 in
      let some_queue : 0 < config.runtime.queue_samples =
        has_queue config.runtime.queue_samples
          (report-nil (config.runtime.queue_samples == 0) _ runtime.0) in
      record {
        queue = some_queue;
        devices = devices_ok [] config.devices some_queue small tests.1.1.0;
        links =
            All-map link_ok config.links
              (each-nil (validate_link fl config) config.links tests.1.1.1.0);
        roles =
            All-map role_ok config.devices
              (each-nil (validate_role fl config) config.devices tests.1.1.1.1.0);
        steps =
            All-map model_ok config.models
              (each-nil (validate_model fl config) config.models tests.1.1.1.1.1.0);
      }
