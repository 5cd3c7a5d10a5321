-- ===== src/Delay/Fading/Refused.antt =====
-- The spectra that `apply_tdl_step_fading` of include/ocudu_gpu_channel/delay.h refuses.
use ocudu_channel.Common.{◌≡◌, ◌≢◌, refl, ℕ, true, false, List, Signal, err}
use ocudu_channel.Runtime.{TapSpec}
use ocudu_channel.Config.{FadingSpectrum, jakes, gaussian, flat}
use ocudu_channel.Iq.{IqSample}
use ocudu_channel.Delay.Fading.{
  TdlFadingState, spectrum_unsupported, is_jakes, apply_tdl_step_fading,
}

module _ {F G : Type 0} (sg : Signal F G) where
  is_jakes-other : (spectrum : FadingSpectrum) → spectrum ≢ jakes → is_jakes sg spectrum ≡ false
  unfolding is_jakes
  is_jakes-other jakes other = absurd (other refl)
  is_jakes-other gaussian other = refl
  is_jakes-other flat other = refl

  pub fading-refused :
      (input : List (IqSample G)) (taps : List (TapSpec F)) (polyphase : List (List G))
      (line : List (IqSample G)) (fading : TdlFadingState F G) (rate : ℕ)
      → fading.enabled ≡ true
      → fading.spectrum ≢ jakes
      → apply_tdl_step_fading sg input taps polyphase line fading rate ≡ err spectrum_unsupported
  unfolding apply_tdl_step_fading
  fading-refused input taps polyphase line fading rate enabled other =
      rw (enabled, is_jakes-other fading.spectrum other) refl
