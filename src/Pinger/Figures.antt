-- ===== src/Pinger/Figures.antt =====
-- The figures of internal/infra/pinger/statistics.go over a slice of durations: `CalculatePercentile`,
-- `CalculateMedian`, `CalculateAverage` and `calculateLatencyMetrics`.
pub mod Sorting
pub mod Ranks
pub mod Means
pub mod Average
use preoomkiller_controller.Common.{
  ℕ, ◌+◌, ◌-◌, ◌*◌, ◌/◌, ◌%◌, leb, ◌==◌, if◌then◌else◌, List, [], ◌∷◌, length, get_or,
}
use preoomkiller_controller.Common.Int.{ℤ, pos, negsuc, leb_ℤ, add64, quot_ℤ}

-- `slices.Sort`, and `sort.Slice` by `<`: the sorted slice of some integers is one, so the algorithm
-- does not matter.
abbrev pub insert_sorted : ℤ → List ℤ → List ℤ
insert_sorted a [] = a ∷ []
insert_sorted a (b ∷ bs) = if leb_ℤ a b then a ∷ b ∷ bs else b ∷ insert_sorted a bs

abbrev pub sort : List ℤ → List ℤ
sort [] = []
sort (a ∷ bs) = insert_sorted a (sort bs)

-- `sorted[i]` at an index that is in range.
abbrev pub at : List ℤ → ℕ → ℤ
at xs i = get_or xs i (pos 0)

-- The index that `CalculatePercentile` takes in a slice of `n` elements below the 100th percentile.
-- For a whole percentile p the float64 `float64(n-1) * p / 100` truncates to the quotient of the
-- integers, as its rounding is finer than a hundredth for any n of a slice.
abbrev pub percentile_index : ℕ → ℕ → ℕ
percentile_index n p =
    let index = if leb 99 p then n - 1 else (n - 1) * p / 100 in
    if leb n index then n - 1 else index

abbrev percentile_at : List ℤ → ℕ → ℤ
percentile_at latencies p =
    if leb 100 p
    then at latencies (length latencies - 1)
    else at latencies (percentile_index (length latencies) p)

-- `if percentile < 0 { percentile = 0 }`
abbrev pub not_negative : ℤ → ℕ
not_negative (pos p) = p
not_negative (negsuc p) = 0

-- `CalculatePercentile`, at a whole percentile.
unfoldable pub calculate_percentile : List ℤ → ℤ → ℤ
calculate_percentile [] percentile = pos 0
calculate_percentile (d ∷ ds) percentile = percentile_at (d ∷ ds) (not_negative percentile)

median_of_sorted : List ℤ → ℤ
median_of_sorted sorted =
    let mid = length sorted / 2 in
    if length sorted % 2 == 0
    then quot_ℤ (add64 (at sorted (mid - 1)) (at sorted mid)) 2
    else at sorted mid

unfoldable pub calculate_median : List ℤ → ℤ
unfolding median_of_sorted
calculate_median [] = pos 0
calculate_median (d ∷ ds) = median_of_sorted (sort (d ∷ ds))

-- `for _, d := range latencies { sum += d }`
abbrev pub sum_from : ℤ → List ℤ → ℤ
sum_from sum [] = sum
sum_from sum (d ∷ ds) = sum_from (add64 sum d) ds

unfoldable pub calculate_average : List ℤ → ℤ
calculate_average [] = pos 0
calculate_average (d ∷ ds) = quot_ℤ (sum_from (pos 0) (d ∷ ds)) (length (d ∷ ds))

pub record LatencyMetrics : Type 0 where
  pub count : ℕ
  pub median : ℤ
  pub average : ℤ
  pub p80 : ℤ
  pub p90 : ℤ
  pub p99 : ℤ

-- `LatencyMetrics{}`
abbrev pub zero_metrics : LatencyMetrics
zero_metrics = record {
  count = 0;
  median = pos 0;
  average = pos 0;
  p80 = pos 0;
  p90 = pos 0;
  p99 = pos 0;
}

pub metrics_of_sorted : List ℤ → LatencyMetrics
metrics_of_sorted sorted = record {
  count = length sorted;
  median = calculate_median sorted;
  average = calculate_average sorted;
  p80 = calculate_percentile sorted (pos 80);
  p90 = calculate_percentile sorted (pos 90);
  p99 = calculate_percentile sorted (pos 99);
}

unfoldable pub calculate_latency_metrics : List ℤ → LatencyMetrics
unfolding metrics_of_sorted
calculate_latency_metrics [] = zero_metrics
calculate_latency_metrics (d ∷ ds) = metrics_of_sorted (sort (d ∷ ds))
