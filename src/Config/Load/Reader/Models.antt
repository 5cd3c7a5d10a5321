-- ===== src/Config/Load/Reader/Models.antt =====
-- The lines of the `models:` section in `load_config_file` of src/config.cpp, and its pointers.
use ocudu_channel.Common.{
  ◌≡◌, arith, ℕ, true, not, ◌&&◌, Option, String, str_eq, ◌==◌, if_split, Floats, ok,
}
use ocudu_channel.Config.{ModelStep}
use ocudu_channel.Config.Text.{init}
use ocudu_channel.Config.Load.{malformed, is_item, ends_colon, apply_step, apply_fading_key}
use ocudu_channel.Config.Load.Reader.{Reader, is_some, fading_line, old_step, model_line}
use ocudu_channel.Config.Load.Reader.Pointers.{Pointed}
use ocudu_channel.Config.Load.Reader.Steps.{
  on_step-Pointed, new_step-Pointed, new_tap-Pointed, old_tap-Pointed, open_taps-Pointed,
  open_fading-Pointed,
}
use ocudu_channel.Config.Load.Reader.Lines.{
  Goal, ok-Pointed, err-Pointed, outside-Pointed, open_model-Pointed, no_step-Outer,
}

module _ {F : Type 0} (stod : String → Option (F × String)) where
  apply_step-taps :
      (key value : String) (s s' : ModelStep F)
      → apply_step stod key value s ≡ ok s'
      → s'.taps ≡ s.taps
  unfolding apply_step
  apply_step-taps key value s s' e = ground arith

  apply_fading_key-taps :
      (key value : String) (s s' : ModelStep F)
      → apply_fading_key stod key value s ≡ ok s'
      → s'.taps ≡ s.taps
  unfolding apply_fading_key
  apply_fading_key-taps key value s s' e = ground arith

module _ {F G : Type 0} (fl : Floats F G) (stod : String → Option (F × String)) where
  fading_line-Pointed :
      (line : String) (st : Reader F) {st' : Reader F}
      → Pointed st
      → st.has_step ≡ true
      → fading_line fl stod line st ≡ ok st'
      → Pointed st'
  unfolding fading_line
  fading_line-Pointed line st p on e = on_step-Pointed _ st p on (apply_fading_key-taps stod _ _) e

  old_step-Pointed :
      (line : String) (st : Reader F) {st' : Reader F}
      → Pointed st
      → st.has_step ≡ true
      → old_step fl stod line st ≡ ok st'
      → Pointed st'
  unfolding old_step
  old_step-Pointed line st p on e = on_step-Pointed _ st p on (apply_step-taps stod _ _) e

  pub model_line-Pointed :
      (n indent : ℕ) (line : String) (st : Reader F) {st' : Reader F}
      → Pointed st
      → model_line fl stod n indent line st ≡ ok st'
      → Pointed st'
  unfolding model_line
  model_line-Pointed n indent line st {st'} p e =
      if_split (Goal st') (indent == 2 && ends_colon line)
        (λ _. ok-Pointed (open_model-Pointed (init line) st p))
        (λ _.
          if_split (Goal st') (is_some st.current_model && str_eq line "chain:")
            (λ _. ok-Pointed (outside-Pointed st (no_step-Outer st p.outer)))
            (λ _.
              if_split (Goal st') (is_some st.current_model && indent == 6 && is_item line)
                (λ h. new_step-Pointed fl stod line st p.outer (ground arith))
                (λ _.
                  if_split (Goal st') (st.has_step && indent == 8 && str_eq line "taps:")
                    (λ h. open_taps-Pointed fl stod st p (ground arith))
                    (λ _.
                      if_split (Goal st') (st.has_step && indent == 8 && str_eq line "fading:")
                        (λ h. open_fading-Pointed fl stod st p (ground arith))
                        (λ _.
                          if_split (Goal st')
                            (st.has_step && st.in_taps && indent == 10 && is_item line)
                            (λ h. new_tap-Pointed fl stod line st p (ground arith) (ground arith))
                            (λ _.
                              if_split (Goal st') (st.has_tap && st.in_taps && indent == 12)
                                (λ h. old_tap-Pointed fl stod line st p (ground arith))
                                (λ _.
                                  if_split (Goal st') (st.has_step && st.in_fading && indent == 10)
                                    (λ h. fading_line-Pointed line st p (ground arith))
                                    (λ _.
                                      if_split (Goal st')
                                        (st.has_step
                                          && indent == 8
                                          && not st.in_taps
                                          && not st.in_fading)
                                        (λ h. old_step-Pointed line st p (ground arith))
                                        (λ _. err-Pointed (malformed n))))))))))
        e
