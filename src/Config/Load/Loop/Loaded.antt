-- ===== src/Config/Load/Loop/Loaded.antt =====
-- What a file that `load_config_file` of src/config.cpp accepts gives.
use ocudu_channel.Common.{
  ◌≡◌, refl, subst, Option, none, some, List, [], ◌∷◌, String, All, Signal, ok, >>=-ok,
}
use ocudu_channel.Config.{TopologyConfig}
use ocudu_channel.Config.Validate.{ConfigError, validate_config}
use ocudu_channel.Config.Fold.{fold_link_leading_delays}
use ocudu_channel.Config.Validate.Accepted.{BatchSmall, Accepted, validate_config-Accepted}
use ocudu_channel.Config.Load.Loop.{read_lines, start, get_lines, checked, load_config_file}

checked-ok :
    {F : Type 0} (config : TopologyConfig F) (errors : List ConfigError) {c : TopologyConfig F}
    → checked config errors ≡ ok c
    → (errors ≡ []) × (config ≡ c)
unfolding checked
checked-ok config [] e = (refl, cc)
checked-ok config (x ∷ errors) e = cc

module _ {F G : Type 0} (sg : Signal F G) (print : F → String) where
  module _ (stod : String → Option (F × String)) where
    -- A file that loads, with less than 2 ^ 64 samples in two batches of each device, gives a
    -- topology with: a queue; on each device a rate, an id that no device before it has and room
    -- for two batches in its ring; on each link two known ends of one rate and a known model; for
    -- each device a link from it and a link to it; and in each tdl step 1 to 64 taps.
    pub load_config_file-Accepted :
        (file : Option String) (config : TopologyConfig F)
        → load_config_file sg print stod file ≡ ok config
        → All (BatchSmall sg.floats config) config.devices
        → Accepted sg.floats config
    unfolding load_config_file
    load_config_file-Accepted none config e small = cc
    load_config_file-Accepted (some file) config e small =
        let (st, read, rest) = >>=-ok (read_lines sg.floats stod 1 (get_lines file) start) _ e in
        let folded = fold_link_leading_delays sg print st.config in
        let (no_errors, same) = checked-ok folded (validate_config sg.floats folded) rest in
        validate_config-Accepted sg.floats config small
          (subst (λ c. validate_config sg.floats c ≡ []) same no_errors)
