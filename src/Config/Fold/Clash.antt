-- ===== src/Config/Fold/Clash.antt =====
-- Links whose delays print alike in `fold_link_leading_delays` of src/config.cpp.
use ocudu_channel.Common.{
  ◌≡◌, refl, ap, ◌∙◌, false, Option, none, some, List, [], ◌∷◌, String, lookup, emplace,
  lookup-emplace_new, lookup-emplace_old, Bool-cases, inl, inr, Signal,
}
use ocudu_channel.Config.{ModelStep, LinkConfig, TopologyConfig}
use ocudu_channel.Config.Fold.{
  Folding, is_zero, same_delay, find_synthesized, delayed_chain, timing_offset, total_delay,
  effective_id, fold_new, fold_known, fold_link, fold_links, fold_link_leading_delays,
}

module _ {F G : Type 0} (sg : Signal F G) (print : F → String) (config : TopologyConfig F) where
  -- Models that are there stay.
  abbrev Grows : Folding F → Folding F → Type 0
  Grows f g =
      (k : String) (c : List (ModelStep F))
      → lookup k f.models ≡ some c
      → lookup k g.models ≡ some c

  fold_new-Grows :
      (l : LinkConfig F) (o : Option (List (ModelStep F))) (f : Folding F)
      → Grows f (fold_new sg print config l o f).1
  unfolding fold_new
  fold_new-Grows l none f k c h = h
  fold_new-Grows l (some chain) f k c h = lookup-emplace_old _ _ k f.models c h

  fold_known-Grows :
      (l : LinkConfig F) (o : Option String) (f : Folding F)
      → Grows f (fold_known sg print config l o f).1
  unfolding fold_known
  fold_known-Grows l none f k c h = fold_new-Grows l (lookup l.model f.models) f k c h
  fold_known-Grows l (some id) f k c h = h

  fold_link-Grows : (l : LinkConfig F) (f : Folding F) → Grows f (fold_link sg print config l f).1
  unfolding fold_link
  fold_link-Grows l f k c h = elim (Bool-cases (is_zero sg (total_delay sg config l))) [
    | inl zero_delay ↦ rw zero_delay h
    | inr some_delay ↦ rw some_delay (fold_known-Grows l _ f k c h)
  ]

  fold_links-Grows :
      (ls : List (LinkConfig F)) (f : Folding F) → Grows f (fold_links sg print config ls f).1
  unfolding fold_links
  fold_links-Grows [] f k c h = h
  fold_links-Grows (l ∷ ls) f k c h =
      fold_links-Grows ls (fold_link sg print config l f).1 k c (fold_link-Grows l f k c h)

  abbrev pub clone_id : LinkConfig F → String
  clone_id l = effective_id sg print l.model (timing_offset sg config l) l.propagation_delay_samples

  -- Two links from one device on one model, whose delays print alike.
  pub record PrintAlike (a b : LinkConfig F) : Type 0 where
    pub from : b.from ≡ a.from
    pub model : b.model ≡ a.model
    pub printed : print b.propagation_delay_samples ≡ print a.propagation_delay_samples
    pub zeros : is_zero sg b.propagation_delay_samples ≡ is_zero sg a.propagation_delay_samples

  same_name : (a b : LinkConfig F) → PrintAlike a b → clone_id b ≡ clone_id a
  unfolding timing_offset effective_id
  same_name a b h = rw (h.from, h.model, h.printed, h.zeros) refl

  -- A link with a delay that was not met gets a clone, unless there is one of its name.
  fold_link-new :
      (l : LinkConfig F) (f : Folding F) (c : List (ModelStep F))
      → is_zero sg (total_delay sg config l) ≡ false
      → find_synthesized sg (total_delay sg config l) l.model f.synthesized ≡ none
      → lookup l.model f.models ≡ some c
      → fold_link sg print config l f ≡ (
        record l { model = clone_id l },
        record {
          models = emplace (clone_id l) (delayed_chain sg (total_delay sg config l) c) f.models;
          synthesized =
              record { delay = total_delay sg config l; base = l.model; id = clone_id l }
              ∷ f.synthesized;
        },
      )
  unfolding fold_link fold_known fold_new
  fold_link-new l f c some_delay unmet there = rw (some_delay, unmet, there) refl

  -- If the first two links come from one device and name one model that is there, if their total
  -- delays are not zero and differ, but their own delays print alike, and if no model has the name of
  -- the first one's clone, then after the fold both links name that clone, and it has the first link's
  -- delay.
  pub fold-PrintAlike :
      (a b : LinkConfig F) (rest : List (LinkConfig F)) (c : List (ModelStep F))
      → config.links ≡ a ∷ b ∷ rest
      → PrintAlike a b
      → is_zero sg (total_delay sg config a) ≡ false
      → is_zero sg (total_delay sg config b) ≡ false
      → same_delay sg (total_delay sg config a) (total_delay sg config b) ≡ false
      → lookup a.model config.models ≡ some c
      → lookup (clone_id a) config.models ≡ none
      → (ls : List (LinkConfig F)) × ((fold_link_leading_delays sg print config).links
          ≡ record a { model = clone_id a } ∷ record b { model = clone_id a } ∷ ls)
        × (lookup (clone_id a) (fold_link_leading_delays sg print config).models
            ≡ some (delayed_chain sg (total_delay sg config a) c))
  unfolding fold_link_leading_delays fold_links find_synthesized
  fold-PrintAlike a b rest c links alike delay_a delay_b differ known free = (
    folded.0,
    ap (λ r. r.0) whole
        ∙ ap (λ i. record a { model = clone_id a } ∷ record b { model = i } ∷ folded.0)
            (same_name a b alike),
    ap (λ r. lookup (clone_id a) (r.1).models) whole
        ∙ fold_links-Grows rest after_b (clone_id a) own
            (lookup-emplace_old (clone_id b) _ (clone_id a) after_a.models own there),
  )
    where
      own : List (ModelStep F)
      own = delayed_chain sg (total_delay sg config a) c

      start : Folding F
      start = record { models = config.models; synthesized = [] }

      after_a : Folding F
      after_a = record {
        models = emplace (clone_id a) own config.models;
        synthesized =
            record { delay = total_delay sg config a; base = a.model; id = clone_id a } ∷ [];
      }

      after_b : Folding F
      after_b = record {
        models = emplace (clone_id b) (delayed_chain sg (total_delay sg config b) c) after_a.models;
        synthesized =
            record { delay = total_delay sg config b; base = b.model; id = clone_id b }
            ∷ after_a.synthesized;
      }

      folded : List (LinkConfig F) × Folding F
      folded = fold_links sg print config rest after_b

      there : lookup (clone_id a) after_a.models ≡ some own
      there = lookup-emplace_new (clone_id a) own config.models free

      one : fold_link sg print config a start ≡ (record a { model = clone_id a }, after_a)
      one = fold_link-new a start c delay_a refl known

      base : lookup b.model after_a.models ≡ some c
      base =
          ap (λ k. lookup k after_a.models) alike.model
          ∙ lookup-emplace_old (clone_id a) own a.model config.models c known

      two : fold_link sg print config b after_a ≡ (record b { model = clone_id b }, after_b)
      two = fold_link-new b after_a c delay_b (rw differ refl) base

      whole :
          fold_links sg print config config.links start
          ≡ (record a { model = clone_id a } ∷ record b { model = clone_id b } ∷ folded.0, folded.1)
      whole = ap (λ ls. fold_links sg print config ls start) links ∙ rw (one, two) refl
