-- ===== src/Config/Fold/Models/Links.antt =====
-- Lemmas on the loop of `fold_link_leading_delays` in src/config.cpp over the links.
use ocudu_channel.Common.{
  ◌≡◌, inl, inr, refl, sym, ap, ◌∙◌, subst, Option, none, some, List, [], ◌∷◌, String, Map, lookup,
  lookup-emplace_old, Bool-cases, Signal, All, All-map, All-zip,
}
use ocudu_channel.Config.{ModelStep, LinkConfig, TopologyConfig}
use ocudu_channel.Config.Fold.{
  is_zero, find_synthesized, delayed_chain, total_delay, Folding, fold_new, fold_known, fold_link,
  fold_links, fold_link_leading_delays,
}
use ocudu_channel.Config.Fold.Models.{
  id_of, total, Plain, Alike, Named, Cloned, Sound, Delayed, Folded, find_synthesized-Noted,
  same_chain, own_clone, other_clone,
}

module _ {F G : Type 0} (sg : Signal F G) (print : F → String) (config : TopologyConfig F) where
  fold_new-Folded :
      (l : LinkConfig F) (rest : List (LinkConfig F)) (f : Folding F) (c : List (ModelStep F))
      → lookup l.model config.models ≡ some c
      → All (Alike sg print config l) rest
      → Sound sg print config (l ∷ rest) f
      → Folded sg print config l rest f (fold_new sg print config l (some c) f)
  unfolding fold_new
  fold_new-Folded l rest f c known alike s =
      let own = s.cloned.0 c known in
      let put = own_clone sg print config l c known f.models own in
      record {
        sound = record {
          kept =
              λ k d e. lookup-emplace_old (id_of sg print config l) _ k f.models d (s.kept k d e);
          cloned =
              All-map (λ k h. other_clone sg print config l c known f.models k own (h.0) (h.1)) rest
                (All-zip (Alike sg print config l) (Cloned sg print config f.models) rest alike
                  (s.cloned.1));
          noted = (
            (λ d e.
                put
                ∙ ap (λ x. some (delayed_chain sg (total sg print config l) x))
                    (same_chain sg print config l c known f.models e)),
            All-map
                (λ n h d e. lookup-emplace_old (id_of sg print config l) _ n.id f.models _ (h d e))
                f.synthesized s.noted,
          );
        };
        grows = λ k d e. lookup-emplace_old (id_of sg print config l) _ k f.models d e;
        delayed = (
          refl,
          refl,
          λ d e. inr (
            total sg print config l,
            inl refl,
            put
                ∙ ap (λ x. some (delayed_chain sg (total sg print config l) x))
                    (same_chain sg print config l c known f.models e),
          ),
        );
      }

  fold_known-Folded :
      (l : LinkConfig F) (rest : List (LinkConfig F)) (f : Folding F) (o : Option String)
      (c : List (ModelStep F))
      → find_synthesized sg (total_delay sg config l) l.model f.synthesized ≡ o
      → lookup l.model config.models ≡ some c
      → All (Alike sg print config l) rest
      → Sound sg print config (l ∷ rest) f
      → Folded sg print config l rest f (fold_known sg print config l o f)
  unfolding fold_known
  fold_known-Folded l rest f none c found known alike s =
      subst (λ o. Folded sg print config l rest f (fold_new sg print config l o f))
        (sym (s.kept l.model c known)) (fold_new-Folded l rest f c known alike s)
  fold_known-Folded l rest f (some id) c found known alike s = record {
    sound = record { kept = s.kept; cloned = s.cloned.1; noted = s.noted };
    grows = λ k d e. e;
    delayed = (
      refl,
      refl,
      λ d e.
          let (near, same, there) =
            find_synthesized-Noted sg print config f.models (total_delay sg config l) l.model id
              f.synthesized s.noted found d e in
          inr (near, inr same, there),
    );
  }

  fold_link-Folded :
      (l : LinkConfig F) (rest : List (LinkConfig F)) (f : Folding F)
      → Plain sg print config l
      → All (Alike sg print config l) rest
      → Sound sg print config (l ∷ rest) f
      → Folded sg print config l rest f (fold_link sg print config l f)
  unfolding fold_link
  fold_link-Folded l rest f plain alike s =
      elim (Bool-cases (is_zero sg (total_delay sg config l))) [
        | inl zero_delay ↦ rw zero_delay (record {
          sound = record { kept = s.kept; cloned = s.cloned.1; noted = s.noted };
          grows = λ k d e. e;
          delayed = (refl, refl, λ d e. inl (zero_delay, s.kept l.model d e));
        })
        | inr some_delay ↦ rw some_delay (
            fold_known-Folded l rest f
              (find_synthesized sg (total_delay sg config l) l.model f.synthesized) ((plain.0).0)
              refl ((plain.0).1) alike s)
      ]

  Delayed-later :
      (m n : Map (List (ModelStep F))) (l l' : LinkConfig F)
      → ((k : String) (c : List (ModelStep F)) → lookup k m ≡ some c → lookup k n ≡ some c)
      → Delayed sg print config m l l'
      → Delayed sg print config n l l'
  Delayed-later m n l l' grows (from, to, model) = (
    from,
    to,
    λ c e. elim (model c e) [
      | inl (zero_delay, there) ↦ inl (zero_delay, grows l'.model c there)
      | inr (d, same, there) ↦ inr (d, same, grows l'.model (delayed_chain sg d c) there)
    ],
  )

  -- Each link has its delayed counterpart, in order.
  abbrev pub Paired : Map (List (ModelStep F)) → List (LinkConfig F) → List (LinkConfig F) → Type 0
  Paired models [] [] = Unit
  Paired models (l ∷ ls) (k ∷ ks) = Delayed sg print config models l k × Paired models ls ks
  Paired models _ _ = ⊥

  record Done (links : List (LinkConfig F)) (f : Folding F) (r : List (LinkConfig F) × Folding F)
      : Type 0 where
    grows :
        (k : String) (c : List (ModelStep F))
        → lookup k f.models ≡ some c
        → lookup k (r.1).models ≡ some c
    paired : Paired (r.1).models links (r.0)

  fold_links-Done :
      (links : List (LinkConfig F)) (f : Folding F)
      → All (Plain sg print config) links
      → Named sg print config links
      → Sound sg print config links f
      → Done links f (fold_links sg print config links f)
  unfolding fold_links
  fold_links-Done [] f plain named s = record { grows = λ k c e. e; paired = tt }
  fold_links-Done (l ∷ ls) f plain named s =
      let one = fold_link-Folded l ls f (plain.0) (named.0) s in
      let folded = fold_link sg print config l f in
      let rest = fold_links-Done ls (folded.1) (plain.1) (named.1) one.sound in
      record {
        grows = λ k c e. rest.grows k c (one.grows k c e);
        paired = (
          Delayed-later (folded.1).models (fold_links sg print config ls (folded.1)).1.models l
              (folded.0) rest.grows one.delayed,
          rest.paired,
        );
      }

  -- Where each link's model is there, no model is called like a clone, and clones of the same name
  -- have the same delay and base: after the fold every link, in order, still joins the same devices,
  -- and its model is its own where its total delay is zero, and otherwise that one with the delay in
  -- front, or one that compares as equal to it. Models that were there are unchanged.
  pub fold-Paired :
      All (Plain sg print config) config.links
      → Named sg print config config.links
      → Paired
          (fold_link_leading_delays sg print config).models
          config.links
          (fold_link_leading_delays sg print config).links
        × ((k : String) (c : List (ModelStep F))
            → lookup k config.models ≡ some c
            → lookup k (fold_link_leading_delays sg print config).models ≡ some c)
  unfolding fold_link_leading_delays
  fold-Paired plain named =
      let start : Folding F = record { models = config.models; synthesized = [] } in
      let done = fold_links-Done config.links start plain named (record {
        kept = λ k c e. e;
        cloned = All-map (λ l p c e. inl (p.1)) config.links plain;
        noted = tt;
      }) in
      (done.paired, done.grows)
