-- ===== src/Latency.antt =====
-- src/latency.cpp: the summary of the measured latencies.
pub mod Order
mod Examples
use ocudu_channel.Common.{
  ℕ, zero, suc, ◌-◌, ◌/◌, ◌%◌, ◌^◌, Bool, true, false, not, ◌||◌, List, [], ◌∷◌, ◌++◌, String,
  if◌then◌else◌, ltb, leb, ◌==◌, length, Signal, Result, ok, err, ◌>>=◌,
}

-- A read past the end of the sorted samples, which is undefined in the code.
pub data ReadError : Type 0 where
  out_of_range : ReadError

pub record LatencySummary (F : Type 0) : Type 0 where
  pub count : ℕ
  pub p50_us : F
  pub p95_us : F
  pub p99_us : F
  pub p999_us : F
  pub max_us : F

-- Nanoseconds, as 64 bits without a sign.
unfoldable pub add : ℕ → List ℕ → List ℕ
add value samples_ns = samples_ns ++ (value % 2 ^ 64) ∷ []

-- std::sort, by insertion.
unfoldable pub insert : ℕ → List ℕ → List ℕ
insert x [] = x ∷ []
insert x (y ∷ ys) = let rest = insert x ys in if leb x y then x ∷ y ∷ ys else y ∷ rest

unfoldable pub sort : List ℕ → List ℕ
sort [] = []
sort (x ∷ xs) = insert x (sort xs)

unfoldable pub read_at : List ℕ → ℕ → Result ReadError ℕ
read_at [] i = err out_of_range
read_at (x ∷ xs) zero = ok x
read_at (x ∷ xs) (suc i) = read_at xs i

-- sorted.back()
unfoldable pub back : List ℕ → Result ReadError ℕ
back [] = err out_of_range
back (x ∷ []) = ok x
back (x ∷ y ∷ ys) = back (y ∷ ys)

-- `ceil` is std::ceil.
module _ {F G : Type 0} (sg : Signal F G) (ceil : F → F) where
  abbrev pub whole_number : ℕ → F
  whole_number n = sg.floats.literal false n 0

  unfoldable pub clamp : F → F → F → F
  clamp v low high = if sg.floats.lt v low then low else if sg.floats.lt high v then high else v

  -- idx
  abbrev pub index : ℕ → F → F
  index size p =
      sg.sub (ceil (sg.mul (sg.div p (whole_number 100)) (sg.of_nat size))) (whole_number 1)

  unfoldable pub rank : ℕ → F → ℕ
  rank size p = sg.floats.to_u64 (clamp (index size p) (whole_number 0) (sg.of_nat (size - 1)))

  micros : ℕ → F
  micros ns = sg.div (sg.of_nat ns) (whole_number 1000)

  unfoldable pub percentile : List ℕ → F → Result ReadError F
  unfolding micros
  percentile sorted p = read_at sorted (rank (length sorted) p) >>= λ v. ok (micros v)

  unfoldable pub summary_of : List ℕ → Result ReadError (LatencySummary F)
  unfolding micros
  summary_of sorted = percentile sorted (whole_number 50) >>= λ p50.
      percentile sorted (whole_number 95) >>= λ p95. percentile sorted (whole_number 99) >>= λ p99.
      percentile sorted (sg.floats.literal false 999 1) >>= λ p999. back sorted >>= λ last.
      ok (record {
        count = length sorted;
        p50_us = p50;
        p95_us = p95;
        p99_us = p99;
        p999_us = p999;
        max_us = micros last;
      })

  empty_summary : LatencySummary F
  empty_summary = record {
    count = 0;
    p50_us = whole_number 0;
    p95_us = whole_number 0;
    p99_us = whole_number 0;
    p999_us = whole_number 0;
    max_us = whole_number 0;
  }

  unfoldable pub summarize : List ℕ → Result ReadError (LatencySummary F)
  unfolding empty_summary
  summarize [] = ok empty_summary
  summarize (x ∷ xs) = summary_of (sort (x ∷ xs))

  unfoldable pub feasibility_color : F → F → Bool → String
  feasibility_color p99_added_us slot_duration_us stable =
      if not stable || sg.floats.lt slot_duration_us p99_added_us
      then "red"
      else if sg.floats.le p99_added_us (sg.mul slot_duration_us (sg.floats.literal false 25 2))
      then "green"
      else "yellow"

  unfoldable pub nr_slot_duration_us : ℕ → F
  nr_slot_duration_us scs_khz =
      if scs_khz == 0 || not (scs_khz % 15 == 0)
      then whole_number 1000
      else sg.div (whole_number 1000) (sg.of_nat (scs_khz / 15))
