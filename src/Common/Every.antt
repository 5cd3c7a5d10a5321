-- ===== src/Common/Every.antt =====
-- A predicate on every element of a list, by recursion, so that it computes to tuples.
use Prim.Native.Nat.{ℕ, zero, suc, ◌+◌, ◌<◌, ◌≤◌}
use mathlib.Core.Path.{◌≡◌}
use mathlib.Core.Logic.{◌≢◌, inl, inr}
use mathlib.Core.Bool.{Bool, true}
use mathlib.Core.List.{List, [], ◌∷◌, ◌++◌}
use native.Mathlib.Omega.{arith}
use ocudu_channel.Common.Tests.{Bool-cases}
use ocudu_channel.Common.Lists.{indices, filter_by}

abbrev pub All {ℓ κ} : {A : Type ℓ} → (A → Type κ) → List A → Type κ
All P [] = Unit
All P (x ∷ xs) = P x × All P xs

pub All-map {ℓ κ μ} :
    {A : Type ℓ} {P : A → Type κ} {Q : A → Type μ} (f : (a : A) → P a → Q a) (xs : List A)
    → All P xs
    → All Q xs
All-map f [] h = tt
All-map f (x ∷ xs) h = (f x h.0, All-map f xs h.1)

pub All-append {ℓ κ} :
    {A : Type ℓ} (P : A → Type κ) (xs ys : List A) → All P xs → All P ys → All P (xs ++ ys)
All-append P [] ys hx hy = hy
All-append P (x ∷ xs) ys hx hy = (hx.0, All-append P xs ys hx.1 hy)

pub All-append_right {ℓ κ} :
    {A : Type ℓ} (P : A → Type κ) (xs ys : List A) → All P (xs ++ ys) → All P ys
All-append_right P [] ys h = h
All-append_right P (x ∷ xs) ys h = All-append_right P xs ys h.1

pub All-zip {ℓ κ μ} :
    {A : Type ℓ} (P : A → Type κ) (Q : A → Type μ) (xs : List A)
    → All P xs
    → All Q xs
    → All (λ a. P a × Q a) xs
All-zip P Q [] h k = tt
All-zip P Q (x ∷ xs) h k = ((h.0, k.0), All-zip P Q xs h.1 k.1)

-- No index twice.
abbrev pub Distinct : List ℕ → Type 0
Distinct [] = Unit
Distinct (i ∷ is) = All (λ j. j ≢ i) is × Distinct is

indices-above : (n from : ℕ) → All (λ j. (from ≤ j) × (j < from + n)) (indices from n)
indices-above zero from = tt
indices-above (suc n) from = (
  (omega arith, omega arith),
  All-map (λ j h. (omega arith, omega arith)) (indices (from + 1) n) (indices-above n (from + 1)),
)

All-filter_by {ℓ κ} :
    {A : Type ℓ} (P : A → Type κ) (p : A → Bool) (xs : List A)
    → All P xs
    → All (λ a. P a × (p a ≡ true)) (filter_by p xs)
All-filter_by P p [] h = tt
All-filter_by P p (x ∷ xs) h = elim (Bool-cases (p x)) [
  | inl keep ↦ rw keep ((h.0, keep), All-filter_by P p xs h.1)
  | inr skip ↦ rw skip (All-filter_by P p xs h.1)
]

filter_by-All {ℓ κ} :
    {A : Type ℓ} (P : A → Type κ) (p : A → Bool) (xs : List A) → All P xs → All P (filter_by p xs)
filter_by-All P p xs h = All-map (λ a k. k.0) (filter_by p xs) (All-filter_by P p xs h)

indices-Distinct : (n from : ℕ) (p : ℕ → Bool) → Distinct (filter_by p (indices from n))
indices-Distinct zero from p = tt
indices-Distinct (suc n) from p = elim (Bool-cases (p from)) [
  | inl keep ↦ rw keep (
    filter_by-All (λ j. j ≢ from) p (indices (from + 1) n)
        (All-map (λ j h. omega arith) (indices (from + 1) n) (indices-above n (from + 1))),
    indices-Distinct n (from + 1) p,
  )
  | inr skip ↦ rw skip (indices-Distinct n (from + 1) p)
]

-- The indices below `n` that pass a test, in order.
pub selected-All :
    (n : ℕ) (p : ℕ → Bool)
    → All (λ j. ((0 ≤ j) × (j < 0 + n)) × (p j ≡ true)) (filter_by p (indices 0 n))
selected-All n p = All-filter_by _ p (indices 0 n) (indices-above n 0)

pub selected-Distinct : (n : ℕ) (p : ℕ → Bool) → Distinct (filter_by p (indices 0 n))
selected-Distinct n p = indices-Distinct n 0 p
