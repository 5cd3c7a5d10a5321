-- ===== src/Config/Load/Reader/Lines.antt =====
-- The lines of each section in `load_config_file` of src/config.cpp, and its pointers.
use ocudu_channel.Common.{
  ◌≡◌, refl, inl, inr, subst, ℕ, false, Option, none, some, List, [], ◌∷◌, ◌++◌, String, str_eq,
  lookup, if_split, Floats, Result, ok, err, >>=-ok, Option-cases, lookup-emplace_new,
  lookup-emplace_old,
}
use ocudu_channel.Config.{DeviceConfig, LinkConfig}
use ocudu_channel.Config.Text.{split_key_value}
use ocudu_channel.Config.Load.{
  LoadError, Section, in_runtime, in_devices, in_links, in_models, malformed, unknown_top,
  update_last, of_value, is_item, item_text, apply_device, apply_link, default_device, default_link,
}
use ocudu_channel.Config.Load.Reader.{
  Reader, is_some, no_step, open_model, section_line, runtime_line, change_devices, change_links,
  device_line, link_line,
}
use ocudu_channel.Config.Load.Reader.Pointers.{
  last, last-append, update_last-last, Outer, Pointed, of_value-ok,
}

module _ {F : Type 0} where
  -- A state without a step.
  pub outside-Pointed : (st : Reader F) → Outer (no_step st) → Pointed (no_step st)
  outside-Pointed st o = record { outer = o; inner = record { step = λ h. cc; tap = λ h. cc } }

  pub open_model-Pointed : (id : String) (st : Reader F) → Pointed st → Pointed (open_model id st)
  unfolding open_model
  open_model-Pointed id st p =
      let o = p.outer in
      outside-Pointed (open_model id st) (record {
        device = o.device;
        link = o.link;
        model = λ h. elim (Option-cases (lookup id st.config.models)) [
          | inl new ↦ ([], lookup-emplace_new id [] st.config.models new)
          | inr (c, old) ↦ (c, lookup-emplace_old id [] id st.config.models c old)
        ];
        tap_in = λ h. cc;
        apart = refl;
      })

  pub no_step-Outer : (st : Reader F) → Outer st → Outer (no_step st)
  no_step-Outer st o = record {
    device = o.device;
    link = o.link;
    model = o.model;
    tap_in = λ h. cc;
    apart = refl;
  }

  -- If the line gives a state, the pointers are right.
  abbrev pub Goal : Reader F → Result LoadError (Reader F) → Type 0
  Goal st' r = r ≡ ok st' → Pointed st'

  pub ok-Pointed : {st st' : Reader F} → Pointed st → Goal st' (ok st)
  ok-Pointed {st} {st'} p e = let same : st ≡ st' = cc in subst Pointed same p

  pub err-Pointed : (x : LoadError) {st' : Reader F} → Goal st' (err x)
  err-Pointed x e = cc

  cleared-Pointed :
      (st : Reader F) (to : Section)
      → Pointed
          (record (no_step
            (record st { has_device = false; has_link = false; current_model = none })) {
              section = to;
            })
  unfolding is_some
  cleared-Pointed st to =
      outside-Pointed
        (record st { section = to; has_device = false; has_link = false; current_model = none })
        (record {
          device = λ h. cc;
          link = λ h. cc;
          model = λ h. cc;
          tap_in = λ h. cc;
          apart = refl;
        })

  pub section_line-Pointed :
      (n : ℕ) (line : String) (st : Reader F) {st' : Reader F}
      → section_line n line st ≡ ok st'
      → Pointed st'
  unfolding section_line
  section_line-Pointed n line st {st'} e =
      if_split (Goal st') (str_eq line "runtime:") (λ _. ok-Pointed (cleared-Pointed st in_runtime))
        (λ _.
          if_split (Goal st') (str_eq line "devices:")
            (λ _. ok-Pointed (cleared-Pointed st in_devices))
            (λ _.
              if_split (Goal st') (str_eq line "links:")
                (λ _. ok-Pointed (cleared-Pointed st in_links))
                (λ _.
                  if_split (Goal st') (str_eq line "models:")
                    (λ _. ok-Pointed (cleared-Pointed st in_models))
                    (λ _. err-Pointed (unknown_top n line)))))
        e

  pub runtime_line-Pointed :
      (line : String) (st : Reader F) {st' : Reader F}
      → Pointed st
      → runtime_line line st ≡ ok st'
      → Pointed st'
  unfolding runtime_line
  runtime_line-Pointed line st p e =
      let (r, got, rest) = >>=-ok (of_value _) _ e in
      let o = p.outer in
      ok-Pointed
        (record {
          outer = record {
            device = o.device;
            link = o.link;
            model = o.model;
            tap_in = o.tap_in;
            apart = o.apart;
          };
          inner = p.inner;
        })
        rest

module _ {F G : Type 0} (fl : Floats F G) (stod : String → Option (F × String)) where
  change_devices-Pointed :
      (entry : String × String) (ds : List (DeviceConfig F)) (st : Reader F) {st' : Reader F}
      {d : DeviceConfig F}
      → Pointed st
      → last ds ≡ some d
      → change_devices fl stod entry ds st ≡ ok st'
      → Pointed st'
  unfolding change_devices
  change_devices-Pointed (key, value) ds st {d} p there e =
      let (ds', got, rest) = >>=-ok (of_value (update_last (apply_device stod key value) ds)) _ e in
      let (d', changed, at_end) =
        update_last-last (apply_device stod key value) ds (of_value-ok _ got) there in
      let o = p.outer in
      ok-Pointed
        (record {
          outer = record {
            device = λ _. (d', at_end);
            link = o.link;
            model = o.model;
            tap_in = o.tap_in;
            apart = o.apart;
          };
          inner = p.inner;
        })
        rest

  pub device_line-Pointed :
      (n : ℕ) (line : String) (st : Reader F) {st' : Reader F}
      → Pointed st
      → device_line fl stod n line st ≡ ok st'
      → Pointed st'
  unfolding device_line
  device_line-Pointed n line st {st'} p e =
      if_split (Goal st') (is_item line)
        (λ _.
          change_devices-Pointed (split_key_value (item_text line))
            (st.config.devices ++ default_device fl ∷ []) st p (last-append st.config.devices _))
        (λ _.
          if_split (Goal st') st.has_device
            (λ on.
              change_devices-Pointed (split_key_value line) st.config.devices st p
                (p.outer.device on).1)
            (λ _. err-Pointed (malformed n)))
        e

  change_links-Pointed :
      (entry : String × String) (ds : List (LinkConfig F)) (st : Reader F) {st' : Reader F}
      {d : LinkConfig F}
      → Pointed st
      → last ds ≡ some d
      → change_links fl stod entry ds st ≡ ok st'
      → Pointed st'
  unfolding change_links
  change_links-Pointed (key, value) ds st {d} p there e =
      let (ds', got, rest) = >>=-ok (of_value (update_last (apply_link stod key value) ds)) _ e in
      let (d', changed, at_end) =
        update_last-last (apply_link stod key value) ds (of_value-ok _ got) there in
      let o = p.outer in
      ok-Pointed
        (record {
          outer = record {
            device = o.device;
            link = λ _. (d', at_end);
            model = o.model;
            tap_in = o.tap_in;
            apart = o.apart;
          };
          inner = p.inner;
        })
        rest

  pub link_line-Pointed :
      (n : ℕ) (line : String) (st : Reader F) {st' : Reader F}
      → Pointed st
      → link_line fl stod n line st ≡ ok st'
      → Pointed st'
  unfolding link_line
  link_line-Pointed n line st {st'} p e =
      if_split (Goal st') (is_item line)
        (λ _.
          change_links-Pointed (split_key_value (item_text line))
            (st.config.links ++ default_link fl ∷ []) st p (last-append st.config.links _))
        (λ _.
          if_split (Goal st') st.has_link
            (λ on.
              change_links-Pointed (split_key_value line) st.config.links st p (p.outer.link on).1)
            (λ _. err-Pointed (malformed n)))
        e
