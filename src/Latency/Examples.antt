-- ===== src/Latency/Examples.antt =====
-- Latencies in nanoseconds, in whole numbers.
use mathlib.Core.List.Perm
use ocudu_channel.Common.{ℕ, ◌≡◌, refl, arith, List, [], ◌∷◌, whole_signal, ok}
use ocudu_channel.Latency.{LatencySummary, summarize}
use ocudu_channel.Latency.Order.{Exact, summarize-Perm, summarize_total}

abbrev ceil : ℕ → ℕ
ceil v = v

abbrev measured : List ℕ
measured = 7000 ∷ 3000 ∷ 9000 ∷ []

summarize-Perm_example :
    summarize whole_signal ceil measured ≡ summarize whole_signal ceil (3000 ∷ 7000 ∷ 9000 ∷ [])
summarize-Perm_example =
    summarize-Perm whole_signal ceil measured (3000 ∷ 7000 ∷ 9000 ∷ []) (Perm.swap 3000 7000 _)

exact : Exact whole_signal ceil
exact = record {
  to_zero = refl;
  to_nat = λ n small. refl;
  cut = λ v n small fin above below. ground arith;
  finite = λ d k n few bounded. refl;
}

summarize_total_example :
    (s : LatencySummary ℕ) × (summarize whole_signal ceil measured ≡ ok s) × (s.count ≡ 3)
summarize_total_example = summarize_total whole_signal ceil measured exact (omega arith)
