-- ===== src/Config/Load/Loop/Pointers.antt =====
-- The pointers of `load_config_file` of src/config.cpp, over the whole file.
use ocudu_channel.Common.{
  ◌≡◌, refl, ℕ, suc, Option, List, [], ◌∷◌, String, ◌==◌, if_split, Floats, ok, >>=-ok,
}
use ocudu_channel.Config.Text.{trim, empty_text, strip_comment, indent_of}
use ocudu_channel.Config.Load.{
  tab_indent, flow_style, leading_tab, is_flow, Section, no_section, in_runtime, in_devices,
  in_links, in_models,
}
use ocudu_channel.Config.Load.Reader.{Reader, is_some}
use ocudu_channel.Config.Load.Reader.Pointers.{Pointed}
use ocudu_channel.Config.Load.Reader.Lines.{
  Goal, ok-Pointed, err-Pointed, section_line-Pointed, runtime_line-Pointed, device_line-Pointed,
  link_line-Pointed,
}
use ocudu_channel.Config.Load.Reader.Models.{model_line-Pointed}
use ocudu_channel.Config.Load.Loop.{in_section, step_line, read_lines, start}

module _ {F G : Type 0} (fl : Floats F G) (stod : String → Option (F × String)) where
  in_section-Pointed :
      (to : Section) (n indent : ℕ) (line : String) (st : Reader F) {st' : Reader F}
      → Pointed st
      → Goal st' (in_section fl stod to n indent line st)
  unfolding in_section
  in_section-Pointed no_section n indent line st p = ok-Pointed p
  in_section-Pointed in_runtime n indent line st p = runtime_line-Pointed line st p
  in_section-Pointed in_devices n indent line st p = device_line-Pointed fl stod n line st p
  in_section-Pointed in_links n indent line st p = link_line-Pointed fl stod n line st p
  in_section-Pointed in_models n indent line st p = model_line-Pointed fl stod n indent line st p

  step_line-Pointed :
      (n : ℕ) (raw_line : String) (st : Reader F) {st' : Reader F}
      → Pointed st
      → Goal st' (step_line fl stod n raw_line st)
  unfolding step_line
  step_line-Pointed n raw_line st {st'} p =
      let without_comment = strip_comment raw_line in
      let line = trim without_comment in
      if_split (Goal st') (empty_text line) (λ _. ok-Pointed p)
        (λ _.
          if_split (Goal st') (leading_tab without_comment) (λ _. err-Pointed (tab_indent n))
            (λ _.
              if_split (Goal st') (is_flow line) (λ _. err-Pointed (flow_style n))
                (λ _.
                  if_split (Goal st') (indent_of without_comment == 0)
                    (λ _. section_line-Pointed n line st)
                    (λ _. in_section-Pointed st.section n (indent_of without_comment) line st p))))

  -- Reading any lines from a state in which the pointers that are set point to something (the
  -- current device, link and model, the last step of that model's chain and the last tap of that
  -- step), a tap pointer is set only with a step's, inside its taps, and the reader is not in the
  -- taps and in the fading block at once, leads to such a state again, unless it fails.
  pub read_lines-Pointed :
      (n : ℕ) (lines : List String) (st : Reader F) {st' : Reader F}
      → Pointed st
      → read_lines fl stod n lines st ≡ ok st'
      → Pointed st'
  unfolding read_lines
  read_lines-Pointed n [] st p e = ok-Pointed p e
  read_lines-Pointed n (raw_line ∷ lines) st p e =
      let (st1, stepped, rest) = >>=-ok (step_line fl stod n raw_line st) _ e in
      read_lines-Pointed (suc n) lines st1 (step_line-Pointed n raw_line st p stepped) rest

pub start-Pointed : {F : Type 0} → Pointed (start {F = F})
unfolding is_some
start-Pointed = record {
  outer = record {
    device = λ h. cc;
    link = λ h. cc;
    model = λ h. cc;
    tap_in = λ h. cc;
    apart = refl;
  };
  inner = record { step = λ h. cc; tap = λ h. cc };
}
