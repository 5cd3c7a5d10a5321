-- ===== src/Populate/Examples.antt =====
-- A chain with two path losses, a CFO and a phase step, in whole numbers.
use ocudu_channel.Common.{ℕ, ◌≡◌, [], ◌∷◌, List, whole, lookup, false}
use ocudu_channel.Config.{jakes, ModelStep, path_loss, phase, cfo}
use ocudu_channel.Populate.{populate_mutable_params_from_yaml, param_or}
use ocudu_channel.Populate.Last.{populate-last, last_step, taken}

abbrev chain : List (ModelStep ℕ)
chain =
    (record {
      type = path_loss;
      params = ("path_loss_db", 3) ∷ [];
      taps = [];
      taps_declared = false;
      fading_enabled = false;
      fading_f_d_max_hz = 0;
      fading_spectrum = jakes;
      fading_grid_us = 100;
    })
    ∷ (record {
      type = cfo;
      params = ("cfo_hz", 250) ∷ [];
      taps = [];
      taps_declared = false;
      fading_enabled = false;
      fading_f_d_max_hz = 0;
      fading_spectrum = jakes;
      fading_grid_us = 100;
    })
    ∷ (record {
      type = path_loss;
      params = ("path_loss_db", 8) ∷ [];
      taps = [];
      taps_declared = false;
      fading_enabled = false;
      fading_f_d_max_hz = 0;
      fading_spectrum = jakes;
      fading_grid_us = 100;
    })
    ∷ (record {
      type = phase;
      params = ("phase_rad", 1) ∷ [];
      taps = [];
      taps_declared = false;
      fading_enabled = false;
      fading_f_d_max_hz = 0;
      fading_spectrum = jakes;
      fading_grid_us = 100;
    })
    ∷ []

-- The second path loss counts, and the phase step puts the CFO back to 0.
populate-last_example :
    ((populate_mutable_params_from_yaml whole chain).path_loss_db ≡ 8)
    × ((populate_mutable_params_from_yaml whole chain).cfo_hz ≡ 0)
unfolding last_step taken param_or lookup
populate-last_example = populate-last whole chain
