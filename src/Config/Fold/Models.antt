-- ===== src/Config/Fold/Models.antt =====
-- The models that `fold_link_leading_delays` of src/config.cpp gives to the links.
pub mod Links
mod Examples
use ocudu_channel.Common.{
  ◌≡◌, ◌≢◌, ◌⊎◌, inl, inr, refl, sym, ap, ◌∙◌, subst, Bool, true, false, not, ◌&&◌, Option, none,
  some, some-injective, List, [], ◌∷◌, String, str_eq, eq_iff, Map, lookup, emplace,
  lookup-emplace_new, lookup-emplace_old, lookup-emplace_ne, if◌then◌else◌, Bool-cases,
  Option-cases, if_split, Signal, All, All-map, All-zip, arith,
}
use ocudu_channel.Config.{ModelStep, DeviceConfig, LinkConfig, TopologyConfig}
use ocudu_channel.Config.Fold.{
  Synthesized, is_zero, same_delay, find_synthesized, effective_id, delayed_chain, timing_offset,
  total_delay, Folding, fold_new, fold_known, fold_link, fold_links, fold_link_leading_delays,
}

and_both : (a b : Bool) → (a && b) ≡ true → (a ≡ true) × (b ≡ true)
and_both a b e = ground arith

module _ {F G : Type 0} (sg : Signal F G) (print : F → String) (config : TopologyConfig F) where
  abbrev pub id_of : LinkConfig F → String
  id_of l = effective_id sg print l.model (timing_offset sg config l) l.propagation_delay_samples

  abbrev pub total : LinkConfig F → F
  total l = total_delay sg config l

  -- The link's model is there, and no model has the name of its clone.
  abbrev pub Plain : LinkConfig F → Type 0
  Plain l =
      ((c : List (ModelStep F)) × (lookup l.model config.models ≡ some c))
      × (lookup (id_of l) config.models ≡ none)

  abbrev pub Alike : LinkConfig F → LinkConfig F → Type 0
  Alike l k = id_of l ≡ id_of k → (total l ≡ total k) × (l.model ≡ k.model)

  -- Links whose clones have the same name have the same delay and the same model.
  abbrev pub Named : List (LinkConfig F) → Type 0
  Named [] = Unit
  Named (l ∷ ls) = All (Alike l) ls × Named ls

  -- The name is free, or has this chain.
  abbrev pub Reserved : Option (List (ModelStep F)) → List (ModelStep F) → Type 0
  Reserved o c = (o ≡ none) ⊎ (o ≡ some c)

  -- The clone of a link is right if it is there.
  abbrev pub Cloned : Map (List (ModelStep F)) → LinkConfig F → Type 0
  Cloned models l =
      (c : List (ModelStep F))
      → lookup l.model config.models ≡ some c
      → Reserved (lookup (id_of l) models) (delayed_chain sg (total l) c)

  -- A noted clone is there, and right.
  abbrev pub Noted : Map (List (ModelStep F)) → Synthesized F → Type 0
  Noted models s =
      (c : List (ModelStep F))
      → lookup s.base config.models ≡ some c
      → lookup s.id models ≡ some (delayed_chain sg s.delay c)

  pub record Sound (links : List (LinkConfig F)) (f : Folding F) : Type 0 where
    pub kept :
        (k : String) (c : List (ModelStep F))
        → lookup k config.models ≡ some c
        → lookup k f.models ≡ some c
    pub cloned : All (Cloned f.models) links
    pub noted : All (Noted f.models) f.synthesized

  -- What the folded link's model is: with no delay the link's own, and otherwise the clone for its
  -- delay, or for one that the code takes for the same.
  abbrev pub Delayed : Map (List (ModelStep F)) → LinkConfig F → LinkConfig F → Type 0
  Delayed models l l' =
      (l'.from ≡ l.from)
      × (l'.to ≡ l.to)
      × ((c : List (ModelStep F))
          → lookup l.model config.models ≡ some c
          → ((is_zero sg (total l) ≡ true) × (lookup l'.model models ≡ some c))
            ⊎ ((d : F) × ((d ≡ total l) ⊎ (same_delay sg d (total l) ≡ true))
                × (lookup l'.model models ≡ some (delayed_chain sg d c))))

  pub find_synthesized-Noted :
      (models : Map (List (ModelStep F))) (delay : F) (base id : String) (ss : List (Synthesized F))
      → All (Noted models) ss
      → find_synthesized sg delay base ss ≡ some id
      → (c : List (ModelStep F)) → lookup base config.models ≡ some c
      → (d : F) × (same_delay sg d delay ≡ true) × (lookup id models ≡ some (delayed_chain sg d c))
  unfolding find_synthesized
  find_synthesized-Noted models delay base id [] h e c known = cc
  find_synthesized-Noted models delay base id (s ∷ ss) h e c known =
      if_split
        (λ o.
          o ≡ some id
          → (d : F) × (same_delay sg d delay ≡ true)
            × (lookup id models ≡ some (delayed_chain sg d c)))
        (same_delay sg s.delay delay && str_eq s.base base)
        (λ hit found.
          let (near, same) = and_both (same_delay sg s.delay delay) (str_eq s.base base) hit in
          let base_is : s.base ≡ base = (eq_iff s.base base).0 same in
          (
            s.delay,
            near,
            subst (λ k. lookup k models ≡ some (delayed_chain sg s.delay c))
                (some-injective s.id id found)
                (h.0 c (ap (λ k. lookup k config.models) base_is ∙ known)),
          ))
        (λ miss found. find_synthesized-Noted models delay base id ss (h.1) found c known) e

  -- What the fold of one link leaves, with `rest` still to come.
  pub record Folded (l : LinkConfig F) (rest : List (LinkConfig F)) (f : Folding F)
      (r : LinkConfig F × Folding F) : Type 0 where
    pub sound : Sound rest (r.1)
    pub grows :
        (k : String) (c : List (ModelStep F))
        → lookup k f.models ≡ some c
        → lookup k (r.1).models ≡ some c
    pub delayed : Delayed (r.1).models l (r.0)

  -- A clone is put under the name of link `l`.
  module _ (l : LinkConfig F) (c : List (ModelStep F))
      (known : lookup l.model config.models ≡ some c) (models : Map (List (ModelStep F))) where
    pub same_chain : {d : List (ModelStep F)} → lookup l.model config.models ≡ some d → c ≡ d
    same_chain {d} e = some-injective c d (sym known ∙ e)

    pub own_clone :
        Reserved (lookup (id_of l) models) (delayed_chain sg (total l) c)
        → lookup (id_of l) (emplace (id_of l) (delayed_chain sg (total l) c) models)
          ≡ some (delayed_chain sg (total l) c)
    own_clone (inl free) = lookup-emplace_new (id_of l) _ models free
    own_clone (inr there) = lookup-emplace_old (id_of l) _ (id_of l) models _ there

    pub other_clone :
        (k : LinkConfig F)
        → Reserved (lookup (id_of l) models) (delayed_chain sg (total l) c)
        → Alike l k
        → Cloned models k
        → Cloned (emplace (id_of l) (delayed_chain sg (total l) c) models) k
    other_clone k own alike cloned d known_k = elim (Bool-cases (str_eq (id_of l) (id_of k))) [
      | inl same ↦
          let name : id_of l ≡ id_of k = (eq_iff (id_of l) (id_of k)).0 same in
          let (delays, bases) = alike name in
          let chains : c ≡ d = same_chain (ap (λ b. lookup b config.models) bases ∙ known_k) in
          inr (
            ap (λ i. lookup i (emplace (id_of l) (delayed_chain sg (total l) c) models)) (sym name)
            ∙ own_clone own
            ∙ ap (λ t. some (delayed_chain sg t c)) delays
            ∙ ap (λ e. some (delayed_chain sg (total k) e)) chains)
      | inr differ ↦
          subst (λ o. Reserved o (delayed_chain sg (total k) d))
            (sym (lookup-emplace_ne (id_of l) _ (id_of k) models (distinct differ)))
            (cloned d known_k)
    ]
      where
        distinct : str_eq (id_of l) (id_of k) ≡ false → id_of l ≢ id_of k
        distinct differ e =
            let same : str_eq (id_of l) (id_of k) ≡ true = (eq_iff (id_of l) (id_of k)).1 e in cc
