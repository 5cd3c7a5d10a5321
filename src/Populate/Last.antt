-- ===== src/Populate/Last.antt =====
-- Where the initial path loss and CFO of src/mutable_params.cpp come from.
use ocudu_channel.Common.{
  ◌≡◌, refl, Bool, true, false, Option, none, some, List, [], ◌∷◌, String, if◌then◌else◌, if_both,
  Floats, ◌∙◌,
}
use ocudu_channel.Runtime.{MutableParams, TapSpec, zero_double}
use ocudu_channel.Populate.{
  ModelStepType, path_loss, awgn, phase, cfo, tdl, ModelStep, param_or, has_param, default_params,
  scan_step, scan_chain, take_tap, lead_tap, lead_chain, populate_mutable_params_from_yaml,
}

-- The last step of a chain that a test picks.
module _ {F : Type 0} where
  later_or : Option (ModelStep F) → Option (ModelStep F) → Option (ModelStep F)
  later_or (some step) here = some step
  later_or none here = here

  unfoldable pub last_step : (ModelStep F → Bool) → List (ModelStep F) → Option (ModelStep F)
  unfolding later_or
  last_step picks [] = none
  last_step picks (step ∷ steps) =
      later_or (last_step picks steps) (if picks step then some step else none)

abbrev pub tunes_cfo : ModelStepType → Bool
tunes_cfo cfo = true
tunes_cfo phase = true
tunes_cfo _ = false

abbrev pub is_path_loss : ModelStepType → Bool
is_path_loss path_loss = true
is_path_loss _ = false

module _ {F G : Type 0} (fl : Floats F G) where
  -- A parameter of the picked step, or what the scan started with.
  unfoldable pub taken : G → String → F → Option (ModelStep F) → G
  taken start name fallback none = start
  taken start name fallback (some step) = fl.to_float (param_or step name fallback)

  taken_later :
      (start : G) (name : String) (fallback : F) (later : Option (ModelStep F)) (step : ModelStep F)
      → taken (taken start name fallback (some step)) name fallback later
        ≡ taken start name fallback (later_or later (some step))
  unfolding taken later_or
  taken_later start name fallback none step = refl
  taken_later start name fallback (some s) step = refl

  taken_same :
      (start : G) (name : String) (fallback : F) (later : Option (ModelStep F))
      → taken start name fallback later ≡ taken start name fallback (later_or later none)
  unfolding taken later_or
  taken_same start name fallback none = refl
  taken_same start name fallback (some s) = refl

  loss_step :
      (t : ModelStepType) (step : ModelStep F) (out : MutableParams G)
      (later : Option (ModelStep F))
      → taken (scan_step fl t step out).path_loss_db "path_loss_db" (zero_double fl) later
        ≡ taken out.path_loss_db "path_loss_db"
            (zero_double fl)
            (later_or later (if is_path_loss t then some step else none))
  unfolding scan_step taken
  loss_step path_loss step out later =
      taken_later out.path_loss_db "path_loss_db" (zero_double fl) later step
  loss_step awgn step out later =
      if_both
        (λ (o : MutableParams G).
          taken o.path_loss_db "path_loss_db" (zero_double fl) later
          ≡ taken out.path_loss_db "path_loss_db" (zero_double fl) (later_or later none))
        (has_param step "noise_power")
        (taken_same out.path_loss_db "path_loss_db" (zero_double fl) later)
        (taken_same out.path_loss_db "path_loss_db" (zero_double fl) later)
  loss_step _ step out later = taken_same out.path_loss_db "path_loss_db" (zero_double fl) later

  cfo_step :
      (t : ModelStepType) (step : ModelStep F) (out : MutableParams G)
      (later : Option (ModelStep F))
      → taken (scan_step fl t step out).cfo_hz "cfo_hz" (zero_double fl) later
        ≡ taken out.cfo_hz "cfo_hz"
            (zero_double fl)
            (later_or later (if tunes_cfo t then some step else none))
  unfolding scan_step taken
  cfo_step cfo step out later = taken_later out.cfo_hz "cfo_hz" (zero_double fl) later step
  cfo_step phase step out later = taken_later out.cfo_hz "cfo_hz" (zero_double fl) later step
  cfo_step awgn step out later =
      if_both
        (λ (o : MutableParams G).
          taken o.cfo_hz "cfo_hz" (zero_double fl) later
          ≡ taken out.cfo_hz "cfo_hz" (zero_double fl) (later_or later none))
        (has_param step "noise_power") (taken_same out.cfo_hz "cfo_hz" (zero_double fl) later)
        (taken_same out.cfo_hz "cfo_hz" (zero_double fl) later)
  cfo_step _ step out later = taken_same out.cfo_hz "cfo_hz" (zero_double fl) later

  scan-loss :
      (chain : List (ModelStep F)) (out : MutableParams G)
      → (scan_chain fl chain out).path_loss_db
        ≡ taken out.path_loss_db "path_loss_db"
            (zero_double fl)
            (last_step (λ s. is_path_loss s.type) chain)
  unfolding scan_chain last_step taken
  scan-loss [] out = refl
  scan-loss (step ∷ steps) out =
      scan-loss steps (scan_step fl step.type step out)
      ∙ loss_step step.type step out (last_step (λ s. is_path_loss s.type) steps)

  scan-cfo :
      (chain : List (ModelStep F)) (out : MutableParams G)
      → (scan_chain fl chain out).cfo_hz
        ≡ taken out.cfo_hz "cfo_hz" (zero_double fl) (last_step (λ s. tunes_cfo s.type) chain)
  unfolding scan_chain last_step taken
  scan-cfo [] out = refl
  scan-cfo (step ∷ steps) out =
      scan-cfo steps (scan_step fl step.type step out)
      ∙ cfo_step step.type step out (last_step (λ s. tunes_cfo s.type) steps)

  lead_keeps :
      (t : ModelStepType) (step : ModelStep F) (taps : List (TapSpec F)) (out : MutableParams G)
      → ((lead_tap fl t (record step { taps = taps }) out).path_loss_db ≡ out.path_loss_db)
        × ((lead_tap fl t (record step { taps = taps }) out).cfo_hz ≡ out.cfo_hz)
  unfolding lead_tap take_tap
  lead_keeps tdl step [] out = (refl, refl)
  lead_keeps tdl step (tap ∷ taps) out = (refl, refl)
  lead_keeps path_loss step taps out = (refl, refl)
  lead_keeps awgn step taps out = (refl, refl)
  lead_keeps phase step taps out = (refl, refl)
  lead_keeps cfo step taps out = (refl, refl)

  lead_chain_keeps :
      (chain : List (ModelStep F)) (out : MutableParams G)
      → ((lead_chain fl chain out).path_loss_db ≡ out.path_loss_db)
        × ((lead_chain fl chain out).cfo_hz ≡ out.cfo_hz)
  unfolding lead_chain
  lead_chain_keeps [] out = (refl, refl)
  lead_chain_keeps (step ∷ steps) out = lead_keeps step.type step step.taps out

  -- The initial path loss is that of the last path-loss step of the chain, and the initial CFO that of
  -- the last step that is a CFO or a phase step; without such a step, and for one that does not give
  -- the value, it is 0.
  pub populate-last :
      (chain : List (ModelStep F))
      → ((populate_mutable_params_from_yaml fl chain).path_loss_db
          ≡ taken
              (fl.to_float (zero_double fl))
              "path_loss_db"
              (zero_double fl)
              (last_step (λ s. is_path_loss s.type) chain))
        × ((populate_mutable_params_from_yaml fl chain).cfo_hz
            ≡ taken
                (fl.to_float (zero_double fl))
                "cfo_hz"
                (zero_double fl)
                (last_step (λ s. tunes_cfo s.type) chain))
  unfolding populate_mutable_params_from_yaml
  populate-last chain =
      let kept = lead_chain_keeps chain (scan_chain fl chain (default_params fl)) in
      (kept.0 ∙ scan-loss chain (default_params fl), kept.1 ∙ scan-cfo chain (default_params fl))
