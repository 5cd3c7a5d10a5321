-- ===== src/Config/Load/Reader/Pointers.antt =====
-- The pointers of `load_config_file` of src/config.cpp to the current device, link, step and tap.
use ocudu_channel.Common.{
  ◌≡◌, refl, subst, sym, inl, inr, arith, Bool, true, false, ◌&&◌, Option, none, some, List, [],
  ◌∷◌, ◌++◌, String, str_eq, Map, lookup, Bool-cases, Option-cases, Result, ok, err, ◌>>=◌, >>=-ok,
}
use ocudu_channel.Runtime.{TapSpec}
use ocudu_channel.Config.{ModelStep, DeviceConfig, LinkConfig}
use ocudu_channel.Config.Text.{ValueError}
use ocudu_channel.Config.Load.{update_last, update_at, of_value}
use ocudu_channel.Config.Load.Reader.{Reader, is_some, on_chain}

pub last : {A : Type 0} → List A → Option A
last [] = none
last (x ∷ []) = some x
last (x ∷ y ∷ xs) = last (y ∷ xs)

abbrev pub bind : {A B : Type 0} → Option A → (A → Option B) → Option B
bind none f = none
bind (some a) f = f a

last-cons : {A : Type 0} (x : A) (ys : List A) {y : A} → last ys ≡ some y → last (x ∷ ys) ≡ some y
unfolding last
last-cons x [] h = cc
last-cons x (y ∷ ys) h = h

pub update_last-last :
    {A E : Type 0} (f : A → Result E A) (xs : List A) {ys : List A} {x : A}
    → update_last f xs ≡ ok ys
    → last xs ≡ some x
    → (y : A) × (f x ≡ ok y) × (last ys ≡ some y)
unfolding update_last last
update_last-last f [] e h = cc
update_last-last f (x ∷ []) e h = let (y, fy, rest) = >>=-ok (f x) _ e in (y, cc, ground arith)
update_last-last f (x ∷ z ∷ xs) e h =
    let (ys, changed, rest) = >>=-ok (update_last f (z ∷ xs)) _ e in
    let (y, fy, at_end) = update_last-last f (z ∷ xs) changed h in
    let longer = last-cons x ys at_end in (y, fy, ground arith)

pub last-append : {A : Type 0} (xs : List A) (x : A) → last (xs ++ x ∷ []) ≡ some x
unfolding last
last-append [] x = refl
last-append (y ∷ []) x = refl
last-append (y ∷ z ∷ xs) x = last-append (z ∷ xs) x

update_at-lookup :
    {A E : Type 0} (f : A → Result E A) (k : String) (m : Map A) {m' : Map A} {v : A}
    → update_at f k m ≡ ok m'
    → lookup k m ≡ some v
    → (w : A) × (f v ≡ ok w) × (lookup k m' ≡ some w)
unfolding update_at lookup
update_at-lookup f k [] e h = cc
update_at-lookup f k ((j, w) ∷ m) {m'} e h = elim (Bool-cases (str_eq j k)) [
  | inl same ↦
      let taken : (f w >>= λ v. ok ((j, v) ∷ m)) ≡ ok m' = ground arith in
      let (w', fw, rest) = >>=-ok (f w) _ taken in (w', ground arith, ground arith)
  | inr other ↦
      let taken : (update_at f k m >>= λ c. ok ((j, w) ∷ c)) ≡ ok m' = ground arith in
      let (m'', changed, rest) = >>=-ok (update_at f k m) _ taken in
      let (w', fw, there) = update_at-lookup f k m changed (ground arith) in (w', fw, ground arith)
]

some-none : {A : Type 0} {a : A} → none ≡ some a → ⊥
some-none e = cc

pub of_value-ok : {A : Type 0} (r : Result ValueError A) {a : A} → of_value r ≡ ok a → r ≡ ok a
unfolding of_value
of_value-ok (ok a) e = cc
of_value-ok (err x) e = cc

module _ {F : Type 0} where
  -- What the pointers to a step and to a tap point to in a chain, if they are set.
  pub record Inner (has_step has_tap : Bool) (chain : Option (List (ModelStep F))) : Type 0 where
    pub step : has_step ≡ true → (s : ModelStep F) × (bind chain last ≡ some s)
    pub tap :
        has_tap ≡ true → (t : TapSpec F) × (bind (bind chain last) (λ s. last s.taps) ≡ some t)

  abbrev pub current_chain : Reader F → Option (List (ModelStep F))
  current_chain st = bind st.current_model (λ id. lookup id st.config.models)

  -- The pointers to devices, links and models, and how the flags exclude each other.
  pub record Outer (st : Reader F) : Type 0 where
    pub device : st.has_device ≡ true → (d : DeviceConfig F) × (last st.config.devices ≡ some d)
    pub link : st.has_link ≡ true → (l : LinkConfig F) × (last st.config.links ≡ some l)
    pub model :
        is_some st.current_model ≡ true → (c : List (ModelStep F)) × (current_chain st ≡ some c)
    pub tap_in : st.has_tap ≡ true → st.has_step && st.in_taps ≡ true
    pub apart : st.in_taps && st.in_fading ≡ false

  -- Each pointer that is set points to something, a tap pointer is set only inside the taps of a
  -- step, and the two blocks of a step exclude each other.
  pub record Pointed (st : Reader F) : Type 0 where
    pub outer : Outer st
    pub inner : Inner st.has_step st.has_tap (current_chain st)

  abbrev with_models : Reader F → Map (List (ModelStep F)) → Reader F
  with_models st m = record st { config = record (st.config) { models = m } }

  -- A change to the current chain.
  on_chain-changed :
      (f : List (ModelStep F) → Result ValueError (List (ModelStep F))) (st : Reader F)
      {st' : Reader F} {c : List (ModelStep F)}
      → current_chain st ≡ some c
      → on_chain f st ≡ ok st'
      → (m : Map (List (ModelStep F))) × (c' : List (ModelStep F)) × (st' ≡ with_models st m)
        × (f c ≡ ok c')
        × (current_chain (with_models st m) ≡ some c')
  unfolding on_chain of_value
  on_chain-changed f st {st'} {c} h e = elim (Option-cases st.current_model) [
    | inl missing ↦
        absurd (some-none (subst (λ o. bind o (λ i. lookup i st.config.models) ≡ some c) missing h))
    | inr (id, found) ↦
        let there : lookup id st.config.models ≡ some c =
          subst (λ o. bind o (λ i. lookup i st.config.models) ≡ some c) found h in
        let ran : (of_value (update_at f id st.config.models) >>= λ m. ok (with_models st m))
            ≡ ok st' =
          ground arith in
        let (m, got, rest) = >>=-ok (of_value (update_at f id st.config.models)) _ ran in
        let (c', changed, now) = update_at-lookup f id st.config.models (of_value-ok _ got) there in
        (m, c', ground arith, changed, ground arith)
  ]

  pub on_chain-Pointed :
      (f : List (ModelStep F) → Result ValueError (List (ModelStep F))) (st : Reader F)
      {st' : Reader F}
      → Outer st
      → is_some st.current_model ≡ true
      → ((c c' : List (ModelStep F))
          → current_chain st ≡ some c
          → f c ≡ ok c'
          → Inner st.has_step st.has_tap (some c'))
      → on_chain f st ≡ ok st'
      → Pointed st'
  on_chain-Pointed f st o has keep e =
      let (c, here) = o.model has in
      let (m, c', same, changed, now) = on_chain-changed f st here e in
      subst Pointed (sym same) (record {
        outer = record {
          device = o.device;
          link = o.link;
          model = λ _. (c', now);
          tap_in = o.tap_in;
          apart = o.apart;
        };
        inner = subst (Inner st.has_step st.has_tap) (sym now) (keep c c' here changed);
      })

  pub update_last-Inner :
      (g : ModelStep F → Result ValueError (ModelStep F)) (h t : Bool) (c : List (ModelStep F))
      {c' : List (ModelStep F)} {s : ModelStep F}
      → last c ≡ some s
      → update_last g c ≡ ok c'
      → ((s' : ModelStep F)
          → g s ≡ ok s'
          → t ≡ true
          → (tap : TapSpec F) × (last s'.taps ≡ some tap))
      → Inner h t (some c')
  update_last-Inner g h t c at_end e tapped =
      let (s', gs, now) = update_last-last g c e at_end in
      record {
        step = λ _. (s', now);
        tap = λ on.
            let (tap, there) = tapped s' gs on in
            (tap, subst (λ o. bind o (λ s. last s.taps) ≡ some tap) (sym now) there);
      }

  pub Pointed-model :
      (st : Reader F) → Pointed st → st.has_step ≡ true → is_some st.current_model ≡ true
  unfolding is_some
  Pointed-model st p on =
      let (s, there) = p.inner.step on in
      elim (Option-cases st.current_model) [
        | inl missing ↦ absurd (
            some-none (
              subst (λ o. bind (bind o (λ i. lookup i st.config.models)) last ≡ some s) missing
                there))
        | inr (id, found) ↦ ground arith
      ]
