-- ===== src/Support/Folded.antt =====
-- The CUDA check of src/processing.cpp after `fold_link_leading_delays` of src/config.cpp, which
-- load_config_file calls before it.
use ocudu_channel.Common.{
  ◌≡◌, inl, inr, subst, sym, false, some, List, [], ◌∷◌, String, str_eq, Map, lookup, Signal, All,
  All-map, All-zip,
}
use ocudu_channel.Config.{ModelStep, DeviceConfig, LinkConfig, TopologyConfig, find_model}
use ocudu_channel.Config.Fold.{fold_link_leading_delays}
use ocudu_channel.Config.Fold.Models.{Plain, Named, Delayed}
use ocudu_channel.Config.Fold.Models.Links.{Paired, fold-Paired}
use ocudu_channel.Support.{validate_cuda_support}
use ocudu_channel.Support.Chains.{
  NoTdl, TdlFirst, OfModel, ReceiverOk, validate_cuda_support-TdlFirst, delayed_chain-TdlFirst,
}

module _ {F G : Type 0} (sg : Signal F G) (print : F → String) (config : TopologyConfig F) where
  -- The receiver model that a device names is there.
  abbrev pub ReceiverThere : DeviceConfig F → Type 0
  ReceiverThere d =
      str_eq d.rx_model "" ≡ false
      → (c : List (ModelStep F)) × (lookup d.rx_model config.models ≡ some c)

  link-TdlFirst :
      (models : Map (List (ModelStep F))) (l k : LinkConfig F) (c : List (ModelStep F))
      → lookup l.model config.models ≡ some c
      → TdlFirst c
      → Delayed sg print config models l k
      → OfModel TdlFirst (lookup k.model models)
  link-TdlFirst models l k c there fine (from, to, model) = elim (model c there) [
    | inl (zero_delay, same) ↦ subst (OfModel TdlFirst) (sym same) fine
    | inr (d, near, clone) ↦
        subst (OfModel TdlFirst) (sym clone) (delayed_chain-TdlFirst sg d c fine)
  ]

  links-TdlFirst :
      (models : Map (List (ModelStep F))) (ls ks : List (LinkConfig F))
      → All (Plain sg print config) ls
      → All (λ (l : LinkConfig F). OfModel TdlFirst (lookup l.model config.models)) ls
      → Paired sg print config models ls ks
      → All (λ (k : LinkConfig F). OfModel TdlFirst (lookup k.model models)) ks
  links-TdlFirst models [] [] plain fine paired = tt
  links-TdlFirst models [] (k ∷ ks) plain fine paired = absurd paired
  links-TdlFirst models (l ∷ ls) [] plain fine paired = absurd paired
  links-TdlFirst models (l ∷ ls) (k ∷ ks) plain fine paired =
      let (c, there) = (plain.0).0 in
      (
        link-TdlFirst models l k c there (subst (OfModel TdlFirst) there (fine.0)) (paired.0),
        links-TdlFirst models ls ks (plain.1) (fine.1) (paired.1),
      )

  -- Where the models that links and devices name are there, no model is called like a clone, and
  -- clones of the same name have the same delay and base: a topology that the CUDA check takes is
  -- still taken after the delays are folded into the models.
  pub fold_supported :
      All (Plain sg print config) config.links
      → Named sg print config config.links
      → All ReceiverThere config.devices
      → validate_cuda_support config ≡ []
      → validate_cuda_support (fold_link_leading_delays sg print config) ≡ []
  unfolding find_model fold_link_leading_delays
  fold_supported plain named receivers e =
      let (paired, grows) = fold-Paired sg print config plain named in
      let (links, devices) = (validate_cuda_support-TdlFirst config).0 e in
      (validate_cuda_support-TdlFirst (fold_link_leading_delays sg print config)).1 (
        links-TdlFirst (fold_link_leading_delays sg print config).models config.links
            (fold_link_leading_delays sg print config).links plain links paired,
        All-map {Q = ReceiverOk (fold_link_leading_delays sg print config)}
            (λ d (h : ReceiverThere d × ReceiverOk config d) some_model.
              let (c, there) = h.0 some_model in
              subst (OfModel NoTdl) (sym (grows d.rx_model c there))
                (subst (OfModel NoTdl) there (h.1 some_model)))
            config.devices
            (All-zip ReceiverThere (ReceiverOk config) config.devices receivers devices),
      )
