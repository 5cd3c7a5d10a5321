-- ===== src/Latency/Order.antt =====
-- The summary of src/latency.cpp does not depend on the order of the samples, and reads in bounds.
use mathlib.Core.List.{Perm, Permᴰ, is_set}
use mathlib.Core.List.Perm
use mathlib.Core.Logic.{∥∥₁_elim}
use native.Mathlib.Nat.{ℕ_set}
use ocudu_channel.Common.{
  ◌≡◌, refl, sym, subst, ap, ◌∙◌, arith, ℕ, zero, suc, ◌^◌, ◌-◌, ◌≤◌, ◌<◌, true, false, List, [],
  ◌∷◌, length, if_split, Signal, ok,
}
use ocudu_channel.Latency.{
  LatencySummary, insert, sort, read_at, back, whole_number, clamp, index, rank, micros, percentile,
  empty_summary, summary_of, summarize,
}

insert_comm : (x y : ℕ) (l : List ℕ) → insert x (insert y l) ≡ insert y (insert x l)
unfolding insert
insert_comm x y [] = ground arith
insert_comm x y (z ∷ l) = ground (arith, insert_comm x y l)

sort_same : {xs ys : List ℕ} → Permᴰ xs ys → sort xs ≡ sort ys
unfolding sort
sort_same Permᴰ.nil = refl
sort_same (Permᴰ.cons e d) = rw (e, sort_same d) refl
sort_same (Permᴰ.swap {a} {b} {l = l} e f) = rw (e, f) (insert_comm _ _ (sort l))
sort_same (Permᴰ.trans d f) = sort_same d ∙ sort_same f

sort-Perm : {xs ys : List ℕ} → Perm xs ys → sort xs ≡ sort ys
sort-Perm {xs} {ys} p = ∥∥₁_elim p (is_set ℕ_set (sort xs) (sort ys)) (λ d. sort_same d)

length-insert : (x : ℕ) (l : List ℕ) → length (insert x l) ≡ suc (length l)
unfolding insert
length-insert x [] = refl
length-insert x (y ∷ l) = ground (arith, length-insert x l)

length-sort : (l : List ℕ) → length (sort l) ≡ length l
unfolding sort
length-sort [] = refl
length-sort (x ∷ l) = length-insert x (sort l) ∙ ap suc (length-sort l)

read_at-ok : (l : List ℕ) (i : ℕ) → i < length l → (v : ℕ) × (read_at l i ≡ ok v)
unfolding read_at
read_at-ok [] i h = absurd (ground arith)
read_at-ok (x ∷ l) zero h = (x, refl)
read_at-ok (x ∷ l) (suc i) h = read_at-ok l i (ground arith)

back-ok : (k : ℕ) (l : List ℕ) → length l ≡ suc k → (v : ℕ) × (back l ≡ ok v)
unfolding back
back-ok k [] e = absurd (ground arith)
back-ok k (x ∷ []) e = (x, refl)
back-ok k (x ∷ y ∷ l) e = back-ok (length l) (y ∷ l) refl

suc_le : {i k : ℕ} → i ≤ k → i < suc k
suc_le h = omega arith

cons-nil : (x : ℕ) (xs : List ℕ) → x ∷ xs ≡ [] → ⊥
cons-nil x xs e = cc

module _ {F G : Type 0} (sg : Signal F G) (ceil : F → F) where
  -- The summary is the same for the same samples in another order.
  pub summarize-Perm : (xs ys : List ℕ) → Perm xs ys → summarize sg ceil xs ≡ summarize sg ceil ys
  unfolding summarize
  summarize-Perm [] ys p = rw (sym (Perm.nil-eq p)) refl
  summarize-Perm (x ∷ xs) [] p = absurd (cons-nil x xs (Perm.eq-nil p))
  summarize-Perm (x ∷ xs) (y ∷ ys) p = ap (summary_of sg ceil) (sort-Perm p)

  -- What is used of `double`: numbers up to 2 ^ 53 are exact, and a cast to an integer cuts.
  pub record Exact : Type 0 where
    pub to_zero : sg.floats.to_u64 (whole_number sg ceil 0) ≡ 0
    pub to_nat : (n : ℕ) → n < 2 ^ 53 → sg.floats.to_u64 (sg.of_nat n) ≡ n
    pub cut :
        (v : F) (n : ℕ)
        → n < 2 ^ 53
        → sg.floats.is_finite v ≡ true
        → sg.floats.lt v (whole_number sg ceil 0) ≡ false
        → sg.floats.lt (sg.of_nat n) v ≡ false
        → sg.floats.to_u64 v ≤ n
    pub finite :
        (d k n : ℕ)
        → d < 1000
        → n ≤ 2 ^ 53
        → sg.floats.is_finite (index sg ceil n (sg.floats.literal false d k)) ≡ true

  rank_in :
      (k d e : ℕ)
      → Exact
      → k < 2 ^ 53
      → d < 1000
      → rank sg ceil (suc k) (sg.floats.literal false d e) ≤ k
  unfolding rank clamp
  rank_in k d e law small few =
      let v = index sg ceil (suc k) (sg.floats.literal false d e) in
      let low = sg.floats.lt v (whole_number sg ceil 0) in
      let high = sg.floats.lt (sg.of_nat k) v in
      let zero_in : sg.floats.to_u64 (whole_number sg ceil 0) ≤ k = ground (arith, law.to_zero) in
      let top_in : sg.floats.to_u64 (sg.of_nat k) ≤ k = ground (arith, law.to_nat k small) in
      let one_less : suc k - 1 ≡ k = omega arith in
      subst (λ j. sg.floats.to_u64 (clamp sg ceil v (whole_number sg ceil 0) (sg.of_nat j)) ≤ k)
        (sym one_less)
        (if_split (λ c. sg.floats.to_u64 c ≤ k) low (λ _. zero_in)
          (λ above.
            if_split (λ c. sg.floats.to_u64 c ≤ k) high (λ _. top_in)
              (λ below. law.cut v k small (law.finite d e (suc k) few (omega arith)) above below)))

  percentile_ok :
      (sorted : List ℕ) (k d e : ℕ)
      → Exact
      → length sorted ≡ suc k
      → k < 2 ^ 53
      → d < 1000
      → (v : F) × (percentile sg ceil sorted (sg.floats.literal false d e) ≡ ok v)
  unfolding percentile
  percentile_ok sorted k d e law size small few =
      let inside = rank_in k d e law small few in
      let (v, read) =
        read_at-ok sorted (rank sg ceil (length sorted) (sg.floats.literal false d e))
          (rw size (suc_le inside)) in
      (micros sg ceil v, rw read refl)

  -- Where `double` is as it is on numbers below 2 ^ 53, the summary of fewer samples than that reads
  -- inside the sorted samples only, and has their number.
  pub summarize_total :
      (samples : List ℕ)
      → Exact
      → length samples < 2 ^ 53
      → (s : LatencySummary F) × (summarize sg ceil samples ≡ ok s) × (s.count ≡ length samples)
  unfolding summarize summary_of empty_summary
  summarize_total [] law few = (_, refl, refl)
  summarize_total (x ∷ xs) law few =
      let sorted = sort (x ∷ xs) in
      let k = length xs in
      let size : length sorted ≡ suc k = length-sort (x ∷ xs) in
      let small : k < 2 ^ 53 = omega arith in
      let (p50, e50) = percentile_ok sorted k 50 0 law size small (omega arith) in
      let (p95, e95) = percentile_ok sorted k 95 0 law size small (omega arith) in
      let (p99, e99) = percentile_ok sorted k 99 0 law size small (omega arith) in
      let (p999, e999) = percentile_ok sorted k 999 1 law size small (omega arith) in
      let (last, at_end) = back-ok k sorted size in
      (
        record {
          count = length sorted;
          p50_us = p50;
          p95_us = p95;
          p99_us = p99;
          p999_us = p999;
          max_us = micros sg ceil last;
        },
        rw (e50, e95, e99, e999, at_end) refl,
        size,
      )
