-- ===== src/Cpu/Apply/Isolated.antt =====
-- Lemmas on two calls of `process_superposition` of src/cpu_backend.cpp that use different links.
use ocudu_channel.Common.{
  ℕ, if_both, ◌≡◌, refl, sym, ap, ◌∙◌, subst, Bool, true, false, not, Option, none, some, List, [],
  ◌∷◌, String, str_eq, eq_iff, Map, lookup, assign, lookup-assign, if◌then◌else◌, ◌==◌, length,
  is_empty, replicate, Signal, Result, ok, err, ◌>>=◌, All, Bool-cases, inl, inr,
}
use ocudu_channel.Config.{ModelStep}
use ocudu_channel.Iq.{IqSample, silence}
use ocudu_channel.Delay.Fading.{ApplyError}
use ocudu_channel.Cpu.{Random, LinkState, ensured, rx_key}
use ocudu_channel.Cpu.Apply.{
  Edge, Superposed, serve_link, apply_chain_to_link, add_samples, add_edge, add_edges, receive_sum,
  process_superposition,
}

-- Two maps with the same entries at the keys of a set.
abbrev pub Agree : {V : Type 0} → (String → Bool) → Map V → Map V → Type 0
Agree p m n = (k : String) → p k ≡ true → lookup k m ≡ lookup k n

-- The same error, or the same value with maps that agree.
abbrev pub Alike :
    {A V : Type 0}
    → (String → Bool)
    → Result ApplyError (A × Map V)
    → Result ApplyError (A × Map V)
    → Type 0
Alike p (ok r) (ok s) = (r.0 ≡ s.0) × Agree p (r.1) (s.1)
Alike p (err d) (err e) = d ≡ e
Alike p _ _ = ⊥

-- No entry but those at the keys of a set is changed.
abbrev pub Keeps : {A V : Type 0} → (String → Bool) → Map V → Result ApplyError (A × Map V) → Type 0
Keeps p m (ok r) = (k : String) → p k ≡ false → lookup k (r.1) ≡ lookup k m
Keeps p m (err e) = Unit

module _ {V : Type 0} (p : String → Bool) where
  assign-Agree :
      (key : String) (v : V) (m n : Map V) → Agree p m n → Agree p (assign key v m) (assign key v n)
  assign-Agree key v m n h = λ k inside.
      lookup-assign key v k m
      ∙ ap (λ o. if str_eq key k then some v else o) (h k inside)
      ∙ sym (lookup-assign key v k n)

  lookup-assign_out :
      (key : String) (v : V) (m : Map V)
      → p key ≡ true
      → (k : String) → p k ≡ false
      → lookup k (assign key v m) ≡ lookup k m
  lookup-assign_out key v m inside k out = lookup-assign key v k m ∙ other
    where
      other : (if str_eq key k then some v else lookup k m) ≡ lookup k m
      other = elim (Bool-cases (str_eq key k)) [
        | inl same ↦ absurd (clash ((eq_iff key k).0 same))
        | inr differ ↦ rw differ refl
      ]
        where
          clash : key ≡ k → ⊥
          clash e = let both : p k ≡ true = subst (λ j. p j ≡ true) e inside in cc

module _ {A V : Type 0} (p : String → Bool) where
  Alike-bind :
      {B : Type 0} (r s : Result ApplyError (A × Map V))
      (f : A × Map V → Result ApplyError (B × Map V))
      → Alike p r s
      → ((a : A) (m n : Map V) → Agree p m n → Alike p (f (a, m)) (f (a, n)))
      → Alike p (r >>= f) (s >>= f)
  Alike-bind (ok (a, m)) (ok (b, n)) f h k =
      subst (λ c. Alike p (f (a, m)) (f (c, n))) (h.0) (k a m n (h.1))
  Alike-bind (ok r) (err e) f h k = absurd h
  Alike-bind (err d) (ok s) f h k = absurd h
  Alike-bind (err d) (err e) f h k = h

  Keeps-bind :
      {B : Type 0} (m : Map V) (r : Result ApplyError (A × Map V))
      (f : A × Map V → Result ApplyError (B × Map V))
      → Keeps p m r
      → ((a : A) (n : Map V) → Keeps p n (f (a, n)))
      → Keeps p m (r >>= f)
  Keeps-bind {B} m (ok (a, n)) f h k = Keeps-trans (f (a, n)) (k a n)
    where
      Keeps-trans : (s : Result ApplyError (B × Map V)) → Keeps p n s → Keeps p m s
      Keeps-trans (ok s) g = λ j out. g j out ∙ h j out
      Keeps-trans (err e) g = tt
  Keeps-bind m (err e) f h k = tt

  -- What `apply_chain_to_link` does with the outcome of a slot.
  stored-Alike :
      (key : String) (r : Result ApplyError (A × V)) (m n : Map V)
      → Agree p m n
      → Alike p
          (r >>= λ (x : A × V). ok (x.0, assign key (x.1) m))
          (r >>= λ (x : A × V). ok (x.0, assign key (x.1) n))
  stored-Alike key (ok (a, v)) m n h = (refl, assign-Agree p key v m n h)
  stored-Alike key (err e) m n h = refl

  stored-Keeps :
      (key : String) (r : Result ApplyError (A × V)) (m : Map V)
      → p key ≡ true
      → Keeps p m (r >>= λ (x : A × V). ok (x.0, assign key (x.1) m))
  stored-Keeps key (ok (a, v)) m inside = lookup-assign_out p key v m inside
  stored-Keeps key (err e) m inside = tt

  Alike-if :
      (b : Bool) (x y x' y' : Result ApplyError (A × Map V))
      → Alike p x x'
      → Alike p y y'
      → Alike p (if b then x else y) (if b then x' else y')
  Alike-if true x y x' y' h k = h
  Alike-if false x y x' y' h k = k

module _ {N U F G : Type 0} (sg : Signal F G) (rnd : Random N U F G) (p : String → Bool) where
  pub apply-Alike :
      (key : String) (chain : List (ModelStep F)) (input : List (IqSample G)) (size rate : ℕ)
      (m n : Map (LinkState N F G))
      → p key ≡ true
      → Agree p m n
      → Alike p
          (apply_chain_to_link sg rnd key chain input size rate m)
          (apply_chain_to_link sg rnd key chain input size rate n)
  unfolding apply_chain_to_link
  apply-Alike key chain input size rate m n inside h =
      Alike-if p (not (size == length input)) _ _ _ _ refl (
        Alike-if p (is_empty input) _ _ _ _ (refl, h)
          (subst
            (λ o.
              Alike p
                (serve_link sg rnd chain input rate (ensured sg rnd key chain (length input) o)
                  >>= λ (x : List (IqSample G) × LinkState N F G). ok (x.0, assign key (x.1) m))
                (apply_stored n))
            (sym (h key inside))
            (stored-Alike p key
              (serve_link sg rnd chain input rate
                (ensured sg rnd key chain (length input) (lookup key n)))
              m n h)))
    where
      apply_stored : Map (LinkState N F G) → Result ApplyError (Superposed sg rnd)
      apply_stored states =
          serve_link sg rnd chain input rate
            (ensured sg rnd key chain (length input) (lookup key states))
          >>= λ (x : List (IqSample G) × LinkState N F G). ok (x.0, assign key (x.1) states)

  pub apply-Keeps :
      (key : String) (chain : List (ModelStep F)) (input : List (IqSample G)) (size rate : ℕ)
      (m : Map (LinkState N F G))
      → p key ≡ true
      → Keeps p m (apply_chain_to_link sg rnd key chain input size rate m)
  unfolding apply_chain_to_link
  apply-Keeps key chain input size rate m inside =
      if_both (Keeps p m) (not (size == length input)) tt (
        if_both (Keeps p m) (is_empty input) (λ k out. refl)
          (stored-Keeps p key
            (serve_link sg rnd chain input rate
              (ensured sg rnd key chain (length input) (lookup key m)))
            m inside))

  add_edge-Alike :
      (model : Option (List (ModelStep F))) (edge : Edge F G) (rate : ℕ) (sum : List (IqSample G))
      (m n : Map (LinkState N F G))
      → p edge.key ≡ true
      → Agree p m n
      → Alike p (add_edge sg rnd model edge rate sum m) (add_edge sg rnd model edge rate sum n)
  unfolding add_edge
  add_edge-Alike none edge rate sum m n inside h = refl
  add_edge-Alike (some chain) edge rate sum m n inside h =
      Alike-if p (not (length edge.samples == length sum)) _ _ _ _ refl (
        Alike-bind p (apply_chain_to_link sg rnd edge.key chain edge.samples (length sum) rate m)
          (apply_chain_to_link sg rnd edge.key chain edge.samples (length sum) rate n)
          (λ r. ok (add_samples sg sum (r.0), r.1))
          (apply-Alike edge.key chain edge.samples (length sum) rate m n inside h)
          (λ a m' n' g. (refl, g)))

  add_edge-Keeps :
      (model : Option (List (ModelStep F))) (edge : Edge F G) (rate : ℕ) (sum : List (IqSample G))
      (m : Map (LinkState N F G))
      → p edge.key ≡ true
      → Keeps p m (add_edge sg rnd model edge rate sum m)
  unfolding add_edge
  add_edge-Keeps none edge rate sum m inside = tt
  add_edge-Keeps (some chain) edge rate sum m inside =
      if_both (Keeps p m) (not (length edge.samples == length sum)) tt (
        Keeps-bind p m (apply_chain_to_link sg rnd edge.key chain edge.samples (length sum) rate m)
          (λ r. ok (add_samples sg sum (r.0), r.1))
          (apply-Keeps edge.key chain edge.samples (length sum) rate m inside) (λ a n k out. refl))

  add_edges-Alike :
      (edges : List (Edge F G)) (rate : ℕ) (sum : List (IqSample G)) (m n : Map (LinkState N F G))
      → All (λ (e : Edge F G). p e.key ≡ true) edges
      → Agree p m n
      → Alike p (add_edges sg rnd edges rate sum m) (add_edges sg rnd edges rate sum n)
  unfolding add_edges
  add_edges-Alike [] rate sum m n inside h = (refl, h)
  add_edges-Alike (e ∷ es) rate sum m n inside h =
      Alike-bind p (add_edge sg rnd e.model e rate sum m) (add_edge sg rnd e.model e rate sum n)
        (λ r. add_edges sg rnd es rate (r.0) (r.1))
        (add_edge-Alike e.model e rate sum m n (inside.0) h)
        (λ a m' n' g. add_edges-Alike es rate a m' n' (inside.1) g)

  add_edges-Keeps :
      (edges : List (Edge F G)) (rate : ℕ) (sum : List (IqSample G)) (m : Map (LinkState N F G))
      → All (λ (e : Edge F G). p e.key ≡ true) edges
      → Keeps p m (add_edges sg rnd edges rate sum m)
  unfolding add_edges
  add_edges-Keeps [] rate sum m inside = λ k out. refl
  add_edges-Keeps (e ∷ es) rate sum m inside =
      Keeps-bind p m (add_edge sg rnd e.model e rate sum m)
        (λ r. add_edges sg rnd es rate (r.0) (r.1)) (add_edge-Keeps e.model e rate sum m (inside.0))
        (λ a n. add_edges-Keeps es rate a n (inside.1))

  pub receive_sum-Alike :
      (dst : String) (rx : Option (List (ModelStep F))) (rate : ℕ) (sum : List (IqSample G))
      (m n : Map (LinkState N F G))
      → p (rx_key dst) ≡ true
      → Agree p m n
      → Alike p (receive_sum sg rnd dst rx rate sum m) (receive_sum sg rnd dst rx rate sum n)
  unfolding receive_sum
  receive_sum-Alike dst none rate sum m n inside h = (refl, h)
  receive_sum-Alike dst (some chain) rate sum m n inside h =
      apply-Alike (rx_key dst) chain sum (length sum) rate m n inside h

  receive_sum-Keeps :
      (dst : String) (rx : Option (List (ModelStep F))) (rate : ℕ) (sum : List (IqSample G))
      (m : Map (LinkState N F G))
      → p (rx_key dst) ≡ true
      → Keeps p m (receive_sum sg rnd dst rx rate sum m)
  unfolding receive_sum
  receive_sum-Keeps dst none rate sum m inside = λ k out. refl
  receive_sum-Keeps dst (some chain) rate sum m inside =
      apply-Keeps (rx_key dst) chain sum (length sum) rate m inside

  pub process-Alike :
      (dst : String) (edges : List (Edge F G)) (rx : Option (List (ModelStep F))) (rate count : ℕ)
      (m n : Map (LinkState N F G))
      → p (rx_key dst) ≡ true
      → All (λ (e : Edge F G). p e.key ≡ true) edges
      → Agree p m n
      → Alike p
          (process_superposition sg rnd dst edges rx rate count m)
          (process_superposition sg rnd dst edges rx rate count n)
  unfolding process_superposition
  process-Alike dst edges rx rate count m n inside all h =
      Alike-bind p (add_edges sg rnd edges rate (replicate count (silence sg)) m)
        (add_edges sg rnd edges rate (replicate count (silence sg)) n)
        (λ r. receive_sum sg rnd dst rx rate (r.0) (r.1))
        (add_edges-Alike edges rate (replicate count (silence sg)) m n all h)
        (λ a m' n' g. receive_sum-Alike dst rx rate a m' n' inside g)

  pub process-Keeps :
      (dst : String) (edges : List (Edge F G)) (rx : Option (List (ModelStep F))) (rate count : ℕ)
      (m : Map (LinkState N F G))
      → p (rx_key dst) ≡ true
      → All (λ (e : Edge F G). p e.key ≡ true) edges
      → Keeps p m (process_superposition sg rnd dst edges rx rate count m)
  unfolding process_superposition
  process-Keeps dst edges rx rate count m inside all =
      Keeps-bind p m (add_edges sg rnd edges rate (replicate count (silence sg)) m)
        (λ r. receive_sum sg rnd dst rx rate (r.0) (r.1))
        (add_edges-Keeps edges rate (replicate count (silence sg)) m all)
        (λ a n. receive_sum-Keeps dst rx rate a n inside)
