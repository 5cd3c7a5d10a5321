-- ===== src/Cpu/Apply/Concurrent.antt =====
-- Calls of `process_superposition` of src/cpu_backend.cpp from different server threads, in either
-- order.
use ocudu_channel.Common.{
  ℕ, ◌≡◌, sym, ap, ◌∙◌, subst, Bool, true, false, ◌||◌, Option, List, [], ◌∷◌, String, str_eq,
  eq_iff, Map, lookup, Signal, Result, ok, err, All, All-map, Bool-cases, inl, inr, arith,
}
use ocudu_channel.Config.{ModelStep}
use ocudu_channel.Config.Validate.{holds_any}
use ocudu_channel.Iq.{IqSample}
use ocudu_channel.Delay.Fading.{ApplyError}
use ocudu_channel.Cpu.{Random, LinkState, rx_key}
use ocudu_channel.Cpu.Apply.{Edge, Superposed, process_superposition}
use ocudu_channel.Cpu.Apply.Isolated.{Agree, Alike, Keeps, process-Alike, process-Keeps}

-- A call for destination `dst` with these edges has this key's state.
unfoldable pub uses_key : {F G : Type 0} → String → List (Edge F G) → String → Bool
uses_key dst edges k = str_eq (rx_key dst) k || holds_any (λ (e : Edge _ _). str_eq e.key k) edges

module _ {F G : Type 0} where
  uses-edges :
      (b : String → Bool) (edges : List (Edge F G))
      → All
          (λ (e : Edge F G).
            (b e.key || holds_any (λ (f : Edge F G). str_eq f.key e.key) edges) ≡ true)
          edges
  unfolding holds_any
  uses-edges b [] = tt
  uses-edges b (e ∷ es) = (
    ground (arith, eq_iff e.key e.key),
    All-map (λ (f : Edge F G) h. ground arith) es (uses-edges (λ k. b k || str_eq e.key k) es),
  )

  uses_key-edges :
      (dst : String) (edges : List (Edge F G))
      → All (λ (e : Edge F G). uses_key dst edges e.key ≡ true) edges
  unfolding uses_key
  uses_key-edges dst edges = uses-edges (λ k. str_eq (rx_key dst) k) edges

  pub uses_key-rx :
      (dst : String) (edges : List (Edge F G)) → uses_key dst edges (rx_key dst) ≡ true
  unfolding uses_key
  uses_key-rx dst edges = ground (arith, eq_iff (rx_key dst) (rx_key dst))

module _ {A V : Type 0} (p : String → Bool) where
  -- The value and the entries at the keys that a call has, from a call on other maps.
  Alike-ok :
      (r s : Result ApplyError (A × Map V)) (a : A) (m : Map V)
      → r ≡ ok (a, m)
      → Alike p r s
      → (n : Map V) × (s ≡ ok (a, n)) × Agree p m n
  Alike-ok (ok (b, k)) (ok (c, n)) a m e h =
      let same : b ≡ a = cc in
      let maps : k ≡ m = cc in
      (n, ap (λ (v : A). ok (v, n)) (sym (h.0) ∙ same), subst (λ q. Agree p q n) maps (h.1))
  Alike-ok (ok r) (err d) a m e h = absurd h
  Alike-ok (err d) s a m e h = cc

  Keeps-ok :
      (m n : Map V) (a : A) {r : Result ApplyError (A × Map V)}
      → r ≡ ok (a, n)
      → Keeps p m r
      → (k : String) → p k ≡ false
      → lookup k n ≡ lookup k m
  Keeps-ok m n a e h = subst (Keeps p m) e h

-- A server thread's call.
pub record Call (F G : Type 0) : Type 0 where
  pub dst : String
  pub edges : List (Edge F G)
  pub rx : Option (List (ModelStep F))
  pub rate : ℕ
  pub count : ℕ

abbrev pub uses : {F G : Type 0} → Call F G → String → Bool
uses c = uses_key c.dst c.edges

module _ {N U F G : Type 0} (sg : Signal F G) (rnd : Random N U F G) where
  unfoldable pub serve : Call F G → Map (LinkState N F G) → Result ApplyError (Superposed sg rnd)
  serve c = process_superposition sg rnd c.dst c.edges c.rx c.rate c.count

  serve-local :
      (c : Call F G) (m n mc : Map (LinkState N F G)) (out : List (IqSample G))
      → serve c m ≡ ok (out, mc)
      → Agree (uses c) m n
      → (nc : Map (LinkState N F G)) × (serve c n ≡ ok (out, nc)) × Agree (uses c) mc nc
  unfolding serve
  serve-local c m n mc out e h = Alike-ok (uses c) (serve c m) (serve c n) out mc e (
      process-Alike sg rnd (uses c) c.dst c.edges c.rx c.rate c.count m n
        (uses_key-rx c.dst c.edges) (uses_key-edges c.dst c.edges) h)

  serve_frame :
      (c : Call F G) (m mc : Map (LinkState N F G)) (out : List (IqSample G))
      → serve c m ≡ ok (out, mc)
      → (k : String) → uses c k ≡ false
      → lookup k mc ≡ lookup k m
  unfolding serve
  serve_frame c m mc out e = Keeps-ok (uses c) m mc out e (
      process-Keeps sg rnd (uses c) c.dst c.edges c.rx c.rate c.count m (uses_key-rx c.dst c.edges)
        (uses_key-edges c.dst c.edges))

  -- Two calls with no key in common: if one after the other succeeds, then so they do in the other
  -- order, with the same outputs, and with the same state for every key.
  pub serve_comm :
      (c d : Call F G) (m mc md : Map (LinkState N F G)) (out out' : List (IqSample G))
      → ((k : String) → uses c k ≡ true → uses d k ≡ false)
      → serve c m ≡ ok (out, mc)
      → serve d mc ≡ ok (out', md)
      → (nd : Map (LinkState N F G)) × (nc : Map (LinkState N F G)) × (serve d m ≡ ok (out', nd))
        × (serve c nd ≡ ok (out, nc))
        × ((k : String) → lookup k nc ≡ lookup k md)
  serve_comm c d m mc md out out' apart first second =
      let (nd, early, same_d) = serve-local d mc m md out' second (λ k. before k) in
      let (nc, late, same_c) =
        serve-local c m nd mc out first
          (λ k on. sym (serve_frame d m nd out' early k (apart k on))) in
      (
        nd,
        nc,
        early,
        late,
        λ k. elim (Bool-cases (uses c k)) [
          | inl on ↦ sym (same_c k on) ∙ sym (serve_frame d mc md out' second k (apart k on))
          | inr off ↦ serve_frame c nd nc out late k off ∙ elim (Bool-cases (uses d k)) [
            | inl on' ↦ sym (same_d k on')
            | inr off' ↦
                serve_frame d m nd out' early k off'
                ∙ sym (serve_frame c m mc out first k off)
                ∙ sym (serve_frame d mc md out' second k off')
          ]
        ],
      )
    where
      before : (k : String) → uses d k ≡ true → lookup k mc ≡ lookup k m
      before k on = elim (Bool-cases (uses c k)) [
        | inl both ↦ absurd (clash (apart k both))
        | inr off ↦ serve_frame c m mc out first k off
      ]
        where
          clash : uses d k ≡ false → ⊥
          clash e = cc
