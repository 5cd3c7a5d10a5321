-- ===== src/Control/Checks/Swap.antt =====
-- Lemmas on the validation of a profile swap in src/control_server.cpp.
use ocudu_channel.Common.{
  ℕ, ◌+◌, ◌-◌, ◌≤◌, ◌<◌, ◌≡◌, refl, sym, ap, subst, not, Option, none, some, List, [], ◌∷◌, String,
  Floats, Result, ok, err, ◌>>=◌, ◌>>◌, guard, OnOk, length, take, take-append_le, take_all,
  Bool-cases, inl, inr, ◌∙◌, ap₂, replicate, All, arith, if_both, length-append, length-replicate,
  is_empty, ltb,
}
use ocudu_channel.Runtime.{TapSpec, ProfileShadow, max_taps, default_tap}
use ocudu_channel.Control.Json.{
  JsonError, JsonValue, string, number, boolean, object, array, Fields, find,
}
use ocudu_channel.Control.State.{
  Reason, taps_empty, taps_too_many, tap_bad_field, tap_delay_range, tap_gain_range, Env,
  ControlServer, find_control,
}
use ocudu_channel.Control.Checks.{
  SwapRequest, slot_field, check_swap, check_swap_tail, check_swap_link, check_profile, check_faded,
  staged_profile, resolve_optional_batch, delay_in_range, gain_in_range, prospective_span, caught,
  check_tap, tap_of, check_taps, check_fading, taps_array, link_field,
}
use ocudu_channel.Control.Checks.Good.{TapOk, GoodProfile, GoodSwap, resolve-Joins}

module _ {F G : Type 0} (fl : Floats F G) (env : Env) where
  guarded-TapOk :
      (k : ℕ) (m : Result JsonError (TapSpec F)) {t : TapSpec F}
      → (do
        tap ← caught (tap_bad_field k) m
        guard (delay_in_range fl tap) (tap_delay_range k)
        guard (gain_in_range fl tap) (tap_gain_range k)
        ok tap)
        ≡ ok t
      → TapOk fl env t
  guarded-TapOk k m e = ground arith

  check_tap-TapOk :
      (k : ℕ) (v : JsonValue F) {t : TapSpec F} → check_tap fl k v ≡ ok t → TapOk fl env t
  unfolding check_tap
  check_tap-TapOk k (object o) e = guarded-TapOk k (tap_of fl o) e
  check_tap-TapOk k (string x) e = cc
  check_tap-TapOk k (number x) e = cc
  check_tap-TapOk k (boolean x) e = cc
  check_tap-TapOk k (array x) e = cc

  -- The loop over the taps keeps their number, and lets no tap out of range pass.
  abbrev TapsOk : List (JsonValue F) → List (TapSpec F) → Type 0
  TapsOk vs taps = (length taps ≡ length vs) × All (TapOk fl env) taps

  cons-TapsOk :
      (k : ℕ) (v : JsonValue F) (vs : List (JsonValue F)) (m : Result Reason (TapSpec F))
      (ms : Result Reason (List (TapSpec F)))
      → OnOk (TapOk fl env) m
      → OnOk (TapsOk vs) ms
      → OnOk (TapsOk (v ∷ vs)) (m >>= λ tap. ms >>= λ taps. ok (tap ∷ taps))
  cons-TapsOk k v vs (err e) ms h hs = tt
  cons-TapsOk k v vs (ok t) (err e) h hs = tt
  cons-TapsOk k v vs (ok t) (ok ts) h hs = (omega (arith, hs.0), (h, hs.1))

  OnOk-from {ℓ κ} :
      {E : Type 0} {A : Type ℓ} (P : A → Type κ) (m : Result E A)
      → ((a : A) → m ≡ ok a → P a)
      → OnOk P m
  OnOk-from P (ok a) h = h a refl
  OnOk-from P (err e) h = tt

  check_taps-TapsOk : (k : ℕ) (vs : List (JsonValue F)) → OnOk (TapsOk vs) (check_taps fl k vs)
  unfolding check_taps
  check_taps-TapsOk k [] = (refl, tt)
  check_taps-TapsOk k (v ∷ vs) =
      cons-TapsOk k v vs (check_tap fl k v) (check_taps fl (k + 1) vs)
        (OnOk-from (TapOk fl env) (check_tap fl k v) (λ t e. check_tap-TapOk k v e))
        (check_taps-TapsOk (k + 1) vs)

  check_fading-keeps :
      (p : ProfileShadow F G) (o : Option (JsonValue F)) {q : ProfileShadow F G}
      → check_fading fl p o ≡ ok q
      → (q.n_taps ≡ p.n_taps) × (q.taps ≡ p.taps)
  unfolding check_fading
  check_fading-keeps p none e = ground arith
  check_fading-keeps p (some (object f)) e = ground arith
  check_fading-keeps p (some (string x)) e = cc
  check_fading-keeps p (some (number x)) e = cc
  check_fading-keeps p (some (boolean x)) e = cc
  check_fading-keeps p (some (array x)) e = cc

  staged_profile-Good :
      (taps : List (TapSpec F))
      → 0 < length taps
      → length taps ≤ max_taps
      → All (TapOk fl env) taps
      → GoodProfile fl env (staged_profile fl taps)
  staged_profile-Good taps some_tap most ranged = record {
    some_tap = some_tap;
    most_taps = most;
    whole_array = omega (
      arith,
      length-append taps (replicate (max_taps - length taps) (default_tap fl)),
      length-replicate (max_taps - length taps) (default_tap fl),
    );
    ranged =
        subst (All (TapOk fl env))
          (sym (
            take-append_le (length taps) taps (replicate (max_taps - length taps) (default_tap fl))
              (omega arith)
            ∙ take_all taps))
          ranged;
  }

  -- A profile that keeps the taps is as good.
  same_taps-Good :
      (p q : ProfileShadow F G)
      → q.n_taps ≡ p.n_taps
      → q.taps ≡ p.taps
      → GoodProfile fl env p
      → GoodProfile fl env q
  same_taps-Good p q n t g = record {
    some_tap = omega (arith, n, g.some_tap);
    most_taps = omega (arith, n, g.most_taps);
    whole_array = ap length t ∙ g.whole_array;
    ranged = subst (All (TapOk fl env)) (sym (ap₂ take n t)) g.ranged;
  }

  faded-Good :
      (fields : Fields F) (entries : List (JsonValue F)) (m : Result Reason (List (TapSpec F)))
      → 0 < length entries
      → length entries ≤ max_taps
      → OnOk (TapsOk entries) m
      → OnOk (GoodProfile fl env) (check_faded fl fields m)
  unfolding check_faded
  faded-Good fields entries (err e) some_tap most h = tt
  faded-Good fields entries (ok taps) some_tap most h =
      OnOk-from (GoodProfile fl env)
        (check_fading fl (staged_profile fl taps) (find "fading" fields))
        (λ q e.
          let (n, t) = check_fading-keeps (staged_profile fl taps) (find "fading" fields) e in
          same_taps-Good (staged_profile fl taps) q n t
            (staged_profile-Good taps (omega (arith, h.0)) (omega (arith, h.0)) h.1))

  sized-Good :
      (fields : Fields F) (entries : List (JsonValue F))
      → OnOk (GoodProfile fl env) (do
        guard (not (is_empty entries)) taps_empty
        guard (not (ltb max_taps (length entries))) taps_too_many
        check_faded fl fields (check_taps fl 0 entries))
  sized-Good fields [] = tt
  sized-Good fields (v ∷ vs) = elim (Bool-cases (ltb max_taps (length (v ∷ vs)))) [
    | inl many ↦ rw many tt
    | inr few ↦ rw few (
        faded-Good fields (v ∷ vs) (check_taps fl 0 (v ∷ vs)) (omega arith) (ground arith)
          (check_taps-TapsOk 0 (v ∷ vs)))
  ]

  arrayed-Good :
      (fields : Fields F) (m : Result Reason (List (JsonValue F)))
      → OnOk (GoodProfile fl env) (do
        entries ← m
        guard (not (is_empty entries)) taps_empty
        guard (not (ltb max_taps (length entries))) taps_too_many
        check_faded fl fields (check_taps fl 0 entries))
  arrayed-Good fields (ok entries) = sized-Good fields entries
  arrayed-Good fields (err e) = tt

  tail-keeps :
      (s : ControlServer F G) (fields : Fields F) (link_id : String) (c : ℕ) (p : ProfileShadow F G)
      {r : SwapRequest F G}
      → check_swap_tail fl env s fields link_id c (ok p) ≡ ok r
      → (r.link_id ≡ link_id)
        × (r.control ≡ c)
        × (r.profile.n_taps ≡ p.n_taps)
        × (r.profile.taps ≡ p.taps)
        × (resolve_optional_batch fl env s fields ≡ ok r.batch)
  unfolding check_swap_tail slot_field
  tail-keeps s fields link_id c p e = ground arith

  tail-Good :
      (s : ControlServer F G) (fields : Fields F) (link_id : String) (c : ℕ)
      (m : Result Reason (ProfileShadow F G))
      → find_control env link_id ≡ some c
      → OnOk (GoodProfile fl env) m
      → OnOk (GoodSwap fl env s) (check_swap_tail fl env s fields link_id c m)
  unfolding check_swap_tail
  tail-Good s fields link_id c (err e) linked h = tt
  tail-Good s fields link_id c (ok p) linked h = OnOk-from (GoodSwap fl env s) _ (λ r e.
      let (l, k, n, t, joined) = tail-keeps s fields link_id c p e in
      record {
        linked = ap (find_control env) l ∙ linked ∙ ap some (sym k);
        profile_ok = same_taps-Good p r.profile n t h;
        joins = resolve-Joins fl env s fields joined;
      })

  link-Good :
      (s : ControlServer F G) (fields : Fields F) (link_id : String) (o : Option ℕ)
      → find_control env link_id ≡ o
      → OnOk (GoodSwap fl env s) (check_swap_link fl env s fields link_id o)
  unfolding check_swap_link check_profile
  link-Good s fields link_id none e = tt
  link-Good s fields link_id (some c) e =
      if_both (OnOk (GoodSwap fl env s))
        (ltb env.warmup_cap_slots (prospective_span env (s.controls c))) tt
        (tail-Good s fields link_id c (check_profile fl fields) e
          (arrayed-Good fields (taps_array (find "taps" fields))))

  named-Good :
      (s : ControlServer F G) (fields : Fields F) (m : Result Reason String)
      → OnOk
          (GoodSwap fl env s)
          (m >>= λ link_id. check_swap_link fl env s fields link_id (find_control env link_id))
  named-Good s fields (ok link_id) = link-Good s fields link_id (find_control env link_id) refl
  named-Good s fields (err e) = tt

  pub check_swap-Good :
      (s : ControlServer F G) (fields : Fields F)
      → OnOk (GoodSwap fl env s) (check_swap fl env s fields)
  unfolding check_swap
  check_swap-Good s fields = named-Good s fields (link_field (find "link_id" fields))
