-- ===== src/Config/Load/Reader/Steps.antt =====
-- The steps and taps of the `models:` section in `load_config_file` of src/config.cpp, and its pointers.
use ocudu_channel.Common.{
  ◌≡◌, refl, subst, sym, arith, true, false, Option, some, List, [], ◌∷◌, ◌++◌, String, Floats,
  Result, ok, >>=-ok,
}
use ocudu_channel.Runtime.{TapSpec, default_tap}
use ocudu_channel.Config.{ModelStep}
use ocudu_channel.Config.Text.{ValueError}
use ocudu_channel.Config.Load.{update_last, default_step}
use ocudu_channel.Config.Load.Reader.{
  Reader, is_some, on_chain, on_taps, no_step, new_step, new_tap, old_tap, open_taps, open_fading,
}
use ocudu_channel.Config.Load.Reader.Pointers.{
  bind, last, last-append, update_last-last, Inner, Outer, Pointed, current_chain, on_chain-Pointed,
  update_last-Inner, Pointed-model,
}

module _ {F : Type 0} where
  -- A change to the current step that keeps its taps.
  pub on_step-Pointed :
      (g : ModelStep F → Result ValueError (ModelStep F)) (st : Reader F) {st' : Reader F}
      → Pointed st
      → st.has_step ≡ true
      → ((s s' : ModelStep F) → g s ≡ ok s' → s'.taps ≡ s.taps)
      → on_chain (update_last g) st ≡ ok st'
      → Pointed st'
  on_step-Pointed g st p on keep e =
      on_chain-Pointed (update_last g) st p.outer (Pointed-model st p on)
        (λ c c' here changed.
          let i = subst (Inner st.has_step st.has_tap) here p.inner in
          let (s, at_end) = i.step on in
          update_last-Inner g st.has_step st.has_tap c at_end changed (λ s' gs tapped.
            let (tap, there) = i.tap tapped in
            let before = subst (λ o. bind o (λ x. last x.taps) ≡ some tap) at_end there in
            (tap, subst (λ ts. last ts ≡ some tap) (sym (keep s s' gs)) before)))
        e

  on_taps-Pointed :
      (f : List (TapSpec F) → Result ValueError (List (TapSpec F))) (st : Reader F) {st' : Reader F}
      {s : ModelStep F}
      → Outer st
      → is_some st.current_model ≡ true
      → bind (current_chain st) last ≡ some s
      → ((ts : List (TapSpec F)) → f s.taps ≡ ok ts → (tap : TapSpec F) × (last ts ≡ some tap))
      → on_taps f st ≡ ok st'
      → Pointed st'
  unfolding on_taps
  on_taps-Pointed f st {s} o has there ends e =
      on_chain-Pointed _ st o has
        (λ c c' here changed.
          update_last-Inner _ st.has_step st.has_tap c
            (subst (λ x. bind x last ≡ some s) here there) changed
            (λ s' gs tapped.
              let (ts, got, rest) = >>=-ok (f s.taps) _ gs in
              let (tap, at_end) = ends ts got in
              let same : ts ≡ s'.taps = cc in (tap, subst (λ x. last x ≡ some tap) same at_end)))
        e

module _ {F G : Type 0} (fl : Floats F G) (stod : String → Option (F × String)) where
  pub new_step-Pointed :
      (line : String) (st : Reader F) {st' : Reader F}
      → Outer st
      → is_some st.current_model ≡ true
      → new_step fl stod line st ≡ ok st'
      → Pointed st'
  unfolding new_step
  new_step-Pointed line st o has e =
      on_chain-Pointed _ (record (no_step st) { has_step = true })
        (record {
          device = o.device;
          link = o.link;
          model = o.model;
          tap_in = λ h. cc;
          apart = refl;
        })
        has
        (λ c c' here changed.
          update_last-Inner _ true false (c ++ default_step fl ∷ [])
            (last-append c (default_step fl)) changed (λ s' gs tapped. cc))
        e

  pub new_tap-Pointed :
      (line : String) (st : Reader F) {st' : Reader F}
      → Pointed st
      → st.has_step ≡ true
      → st.in_taps ≡ true
      → new_tap fl stod line st ≡ ok st'
      → Pointed st'
  unfolding new_tap
  new_tap-Pointed line st p on inside e =
      let (s, there) = p.inner.step on in
      let o = p.outer in
      on_taps-Pointed _ (record st { has_tap = true })
        (record {
          device = o.device;
          link = o.link;
          model = o.model;
          tap_in = λ h. ground arith;
          apart = o.apart;
        })
        (Pointed-model st p on) there
        (λ ts got.
          let (tap, changed, at_end) =
            update_last-last _ (s.taps ++ default_tap fl ∷ []) got (last-append s.taps _) in
          (tap, at_end))
        e

  pub old_tap-Pointed :
      (line : String) (st : Reader F) {st' : Reader F}
      → Pointed st
      → st.has_tap ≡ true
      → old_tap fl stod line st ≡ ok st'
      → Pointed st'
  unfolding old_tap
  old_tap-Pointed line st p on e =
      let step_on : st.has_step ≡ true = ground (arith, p.outer.tap_in on) in
      let (s, there) = p.inner.step step_on in
      let (tap, at_end) = p.inner.tap on in
      on_taps-Pointed _ st p.outer (Pointed-model st p step_on) there
        (λ ts got.
          let (tap', changed, at_end') =
            update_last-last _ s.taps got
              (subst (λ o. bind o (λ x. last x.taps) ≡ some tap) there at_end) in
          (tap', at_end'))
        e

  pub open_taps-Pointed :
      (st : Reader F) {st' : Reader F}
      → Pointed st
      → st.has_step ≡ true
      → open_taps fl stod st ≡ ok st'
      → Pointed st'
  unfolding open_taps
  open_taps-Pointed st p on e =
      let o = p.outer in
      on_step-Pointed _ (record st { in_taps = true; has_tap = false; in_fading = false })
        (record {
          outer = record {
            device = o.device;
            link = o.link;
            model = o.model;
            tap_in = λ h. cc;
            apart = refl;
          };
          inner = record { step = p.inner.step; tap = λ h. cc };
        })
        on (λ s s' gs. ground arith) e

  pub open_fading-Pointed :
      (st : Reader F) {st' : Reader F}
      → Pointed st
      → st.has_step ≡ true
      → open_fading fl stod st ≡ ok st'
      → Pointed st'
  unfolding open_fading
  open_fading-Pointed st p on e =
      let o = p.outer in
      on_step-Pointed _ (record st { in_taps = false; has_tap = false; in_fading = true })
        (record {
          outer = record {
            device = o.device;
            link = o.link;
            model = o.model;
            tap_in = λ h. cc;
            apart = refl;
          };
          inner = record { step = p.inner.step; tap = λ h. cc };
        })
        on (λ s s' gs. ground arith) e
