-- ===== src/Cpu/Apply/Superposition.antt =====
-- `process_superposition` of src/cpu_backend.cpp as a sum of what each edge gives on its own.
use ocudu_channel.Common.{
  ℕ, ◌≡◌, refl, sym, ap, ◌∙◌, subst, arith, Bool, true, false, not, Option, none, some, List, [],
  ◌∷◌, String, str_eq, eq_iff, Map, if◌then◌else◌, ◌==◌, length, length-replicate, replicate,
  Signal, Result, ok, err, ◌>>=◌, Bool-cases, inl, inr,
}
use ocudu_channel.Config.{ModelStep}
use ocudu_channel.Config.Validate.{holds_any}
use ocudu_channel.Iq.{IqSample, silence}
use ocudu_channel.Delay.Fading.{ApplyError, input_malformed}
use ocudu_channel.Cpu.{Random, LinkState}
use ocudu_channel.Cpu.Apply.{
  Edge, Superposed, apply_chain_to_link, add_samples, add_edge, add_edges, receive_sum,
  process_superposition,
}
use ocudu_channel.Cpu.Apply.Isolated.{
  Agree, Alike, Keeps, apply-Alike, apply-Keeps, receive_sum-Alike,
}
use ocudu_channel.Cpu.Apply.Concurrent.{uses_key, uses_key-rx}

-- The output of a call, or its error.
abbrev pub outcome : {A V : Type 0} → Result ApplyError (A × V) → Result ApplyError A
outcome (ok r) = ok (r.0)
outcome (err e) = err e

Alike-outcome :
    {A V : Type 0} (p : String → Bool) (r s : Result ApplyError (A × Map V))
    → Alike p r s
    → outcome r ≡ outcome s
Alike-outcome p (ok r) (ok s) h = ap ok (h.0)
Alike-outcome p (ok r) (err e) h = absurd h
Alike-outcome p (err d) (ok s) h = absurd h
Alike-outcome p (err d) (err e) h = ap err h

bind_assoc :
    {A B C : Type 0} (r : Result ApplyError A) (f : A → Result ApplyError B)
    (g : B → Result ApplyError C)
    → (r >>= f >>= g) ≡ (r >>= λ a. f a >>= g)
bind_assoc (ok a) f g = refl
bind_assoc (err e) f g = refl

module _ {F G : Type 0} where
  -- No edge has the key of a later edge or of the receiver.
  abbrev pub Apart : String → List (Edge F G) → Type 0
  Apart dst [] = Unit
  Apart dst (e ∷ es) = (uses_key dst es e.key ≡ false) × Apart dst es

module _ {N U F G : Type 0} (sg : Signal F G) (rnd : Random N U F G) where
  -- What an edge gives on its own, from the states before the call.
  unfoldable pub shaped :
      Option (List (ModelStep F))
      → Edge F G
      → ℕ
      → ℕ
      → Map (LinkState N F G)
      → Result ApplyError (List (IqSample G))
  shaped none edge size rate states = err input_malformed
  shaped (some chain) edge size rate states =
      if not (length edge.samples == size)
      then err input_malformed
      else outcome (apply_chain_to_link sg rnd edge.key chain edge.samples size rate states)

  unfoldable pub contributions :
      List (Edge F G) → ℕ → ℕ → Map (LinkState N F G) → Result ApplyError (List (List (IqSample G)))
  contributions [] size rate states = ok []
  contributions (e ∷ es) size rate states = shaped e.model e size rate states >>= λ x.
      contributions es size rate states >>= λ xs. ok (x ∷ xs)

  unfoldable pub total : List (IqSample G) → List (List (IqSample G)) → List (IqSample G)
  total sum [] = sum
  total sum (x ∷ xs) = total (add_samples sg sum x) xs

  length-add_samples : (xs ys : List (IqSample G)) → length (add_samples sg xs ys) ≡ length xs
  unfolding add_samples
  length-add_samples [] ys = refl
  length-add_samples (x ∷ xs) [] = refl
  length-add_samples (x ∷ xs) (y ∷ ys) = rw (length-add_samples xs ys) refl

module _ {F G : Type 0} (dst : String) (e : Edge F G) (es : List (Edge F G)) where
  differs :
      (k : String)
      → uses_key dst es e.key ≡ false
      → uses_key dst es k ≡ true
      → str_eq e.key k ≡ false
  differs k out on = elim (Bool-cases (str_eq e.key k)) [
    | inl same ↦
        let equal : e.key ≡ k = (eq_iff e.key k).0 same in
        let moved : uses_key dst es k ≡ false = subst (λ j. uses_key dst es j ≡ false) equal out in
        absurd (both moved)
    | inr other ↦ other
  ]
    where
      both : uses_key dst es k ≡ false → ⊥
      both off = cc

  later : (k : String) → uses_key dst es k ≡ true → uses_key dst (e ∷ es) k ≡ true
  unfolding uses_key holds_any
  later k on = ground arith

  own : (k : String) → str_eq e.key k ≡ true → uses_key dst (e ∷ es) k ≡ true
  unfolding uses_key holds_any
  own k on = ground arith

  itself : str_eq e.key e.key ≡ true
  itself = (eq_iff e.key e.key).1 refl

module _ {N U F G : Type 0} (sg : Signal F G) (rnd : Random N U F G) (dst : String)
    (rx : Option (List (ModelStep F))) (rate : ℕ) (m : Map (LinkState N F G)) where
  -- The call from the edges on, and the sum of the contributions.
  abbrev from_edges :
      List (Edge F G)
      → List (IqSample G)
      → Map (LinkState N F G)
      → Result ApplyError (List (IqSample G))
  from_edges es sum n =
      outcome (add_edges sg rnd es rate sum n >>= λ r. receive_sum sg rnd dst rx rate (r.0) (r.1))

  abbrev summed :
      List (IqSample G)
      → Result ApplyError (List (List (IqSample G)))
      → Result ApplyError (List (IqSample G))
  summed sum r = outcome (r >>= λ xs. receive_sum sg rnd dst rx rate (total sg rnd sum xs) m)

  module _ (e : Edge F G) (es : List (Edge F G)) (sum : List (IqSample G))
      (out : uses_key dst es e.key ≡ false)
      (more : (a : List (IqSample G)) (n' : Map (LinkState N F G))
        → Agree (uses_key dst es) n' m
        → from_edges es (add_samples sg sum a) n'
          ≡ summed (add_samples sg sum a) (contributions sg rnd es (length sum) rate m)) where
    added : Superposed sg rnd → Result ApplyError (Superposed sg rnd)
    added x = ok (add_samples sg sum (x.0), x.1)

    served_edge :
        (n : Map (LinkState N F G))
        (r s : Result ApplyError (List (IqSample G) × Map (LinkState N F G)))
        → Agree (uses_key dst (e ∷ es)) n m
        → Alike (str_eq e.key) r s
        → Keeps (str_eq e.key) n r
        → outcome (
            r >>= added >>= λ (x : Superposed sg rnd). add_edges sg rnd es rate (x.0) (x.1) >>= λ y.
            receive_sum sg rnd dst rx rate (y.0) (y.1))
          ≡ summed sum
              (outcome s >>= λ x. contributions sg rnd es (length sum) rate m >>= λ xs. ok (x ∷ xs))
    unfolding total added
    served_edge n (ok (a, n')) (ok (b, m')) agree h k =
        let kept : Agree (uses_key dst es) n' m =
          λ j on. k j (differs dst e es j out on) ∙ agree j (later dst e es j on) in
        let parts = contributions sg rnd es (length sum) rate m in
        subst
          (λ c. from_edges es (add_samples sg sum a) n' ≡ summed sum (parts >>= λ xs. ok (c ∷ xs)))
          (h.0)
          (more a n' kept
            ∙ sym (
                ap outcome (
                  bind_assoc parts (λ xs. ok (a ∷ xs))
                    (λ xs. receive_sum sg rnd dst rx rate (total sg rnd sum xs) m))))
    served_edge n (ok r) (err x) agree h k = absurd h
    served_edge n (err x) (ok s) agree h k = absurd h
    served_edge n (err x) (err y) agree h k = ap err h

    edge_case :
        (o : Option (List (ModelStep F))) (n : Map (LinkState N F G))
        → Agree (uses_key dst (e ∷ es)) n m
        → outcome (
            add_edge sg rnd o e rate sum n >>= λ (x : Superposed sg rnd).
            add_edges sg rnd es rate (x.0) (x.1) >>= λ y.
            receive_sum sg rnd dst rx rate (y.0) (y.1))
          ≡ summed sum (
              shaped sg rnd o e (length sum) rate m >>= λ x.
              contributions sg rnd es (length sum) rate m >>= λ xs. ok (x ∷ xs))
    unfolding add_edge shaped added
    edge_case none n agree = refl
    edge_case (some chain) n agree = elim (Bool-cases (not (length e.samples == length sum))) [
      | inl bad ↦ rw bad refl
      | inr fine ↦ rw fine (
          served_edge n (apply_chain_to_link sg rnd e.key chain e.samples (length sum) rate n)
            (apply_chain_to_link sg rnd e.key chain e.samples (length sum) rate m) agree
            (apply-Alike sg rnd (str_eq e.key) e.key chain e.samples (length sum) rate n m
              (itself dst e es) (λ k on. agree k (own dst e es k on)))
            (apply-Keeps sg rnd (str_eq e.key) e.key chain e.samples (length sum) rate n
              (itself dst e es)))
    ]

  from_edges-summed :
      (es : List (Edge F G)) (sum : List (IqSample G)) (n : Map (LinkState N F G))
      → Apart dst es
      → Agree (uses_key dst es) n m
      → from_edges es sum n ≡ summed sum (contributions sg rnd es (length sum) rate m)
  unfolding add_edges contributions total
  from_edges-summed [] sum n apart agree =
      Alike-outcome (uses_key dst []) _ _
        (receive_sum-Alike sg rnd (uses_key dst []) dst rx rate sum n m (uses_key-rx dst []) agree)
  from_edges-summed (e ∷ es) sum n apart agree =
      ap outcome (bind_assoc (add_edge sg rnd e.model e rate sum n) _ _)
      ∙ edge_case e es sum apart.0
          (λ a n' kept.
            subst
              (λ size.
                from_edges es (add_samples sg sum a) n'
                ≡ summed (add_samples sg sum a) (contributions sg rnd es size rate m))
              (length-add_samples sg rnd sum a)
              (from_edges-summed es (add_samples sg sum a) n' apart.1 kept))
          e.model n agree

  -- Where no edge of a call has the key of another edge or of the receiver, the output of the call is
  -- what the receiver's model, with its state before the call, makes of the sum, edge after edge and
  -- from silence on, of what each edge gives on its own, with the states before the call; and an
  -- error of the call is the first of theirs, or else the receiver's.
  pub process_superposition-sum :
      (es : List (Edge F G)) (count : ℕ)
      → Apart dst es
      → outcome (process_superposition sg rnd dst es rx rate count m)
        ≡ outcome (
            contributions sg rnd es count rate m >>= λ xs.
            receive_sum sg rnd dst rx rate (total sg rnd (replicate count (silence sg)) xs) m)
  unfolding process_superposition
  process_superposition-sum es count apart =
      subst
        (λ size.
          from_edges es (replicate count (silence sg)) m
          ≡ summed (replicate count (silence sg)) (contributions sg rnd es size rate m))
        (length-replicate count (silence sg))
        (from_edges-summed es (replicate count (silence sg)) m apart (λ k on. refl))
