-- ===== src/Pinger/Figures/Ranks.antt =====
-- The percentiles of statistics.go as ranks: how many of the durations lie at or below the figure,
-- and how many at or above it.
use preoomkiller_controller.Common.{
  ℕ, zero, suc, ◌+◌, ◌-◌, ◌*◌, ◌/◌, ◌≤◌, ◌<◌, ◌≡◌, refl, sym, ap, ◌∙◌, Bool, if◌then◌else◌, leb,
  List, [], ◌∷◌, length, arith,
}
use native.Mathlib.Nat.{div-le_of_le-mul, mul-le-mul_left}
use native.Mathlib.Decide.{dec_lt}
use mathlib.Core.Path.{subst}
use preoomkiller_controller.Common.Int.{ℤ, pos, leb_ℤ}
use preoomkiller_controller.Pinger.Figures.{
  sort, at, percentile_index, percentile_at, calculate_percentile, calculate_latency_metrics,
  metrics_of_sorted,
}
use preoomkiller_controller.Pinger.Figures.Sorting.{
  count, IsAbove, IsSorted, sort-IsSorted, count-sort, length-sort, at-le-at,
}

-- The elements at or below a value, and at or above it.
abbrev pub at_most : ℤ → List ℤ → ℕ
at_most v xs = count (λ x. leb_ℤ x v) xs

abbrev pub at_least : ℤ → List ℤ → ℕ
at_least v xs = count (λ x. leb_ℤ v x) xs

at_least_of_IsAbove : (a : ℤ) (xs : List ℤ) → IsAbove a xs → at_least a xs ≡ length xs
at_least_of_IsAbove a [] h = refl
at_least_of_IsAbove a (x ∷ xs) h = ground (arith, at_least_of_IsAbove a xs h.1, h.0)

pub at_most-at : (xs : List ℤ) (i : ℕ) → IsSorted xs → i < length xs → suc i ≤ at_most (at xs i) xs
at_most-at [] i h k = absurd (omega arith)
at_most-at (x ∷ xs) zero h k = ground arith
at_most-at (x ∷ xs) (suc i) h k =
    ground (arith, at_most-at xs i h.1 (omega arith), at-le-at (x ∷ xs) 0 (suc i) h (omega arith) k)

pub at_least-at :
    (xs : List ℤ) (i : ℕ) → IsSorted xs → i < length xs → length xs ≤ at_least (at xs i) xs + i
at_least-at [] i h k = absurd (omega arith)
at_least-at (x ∷ xs) zero h k = ground (arith, at_least_of_IsAbove x xs h.0)
at_least-at (x ∷ xs) (suc i) h k = ground (arith, at_least-at xs i h.1 (omega arith))

count-le-length : (p : ℤ → Bool) (xs : List ℤ) → count p xs ≤ length xs
count-le-length p [] = omega arith
count-le-length p (x ∷ xs) = ground (arith, count-le-length p xs)

-- The element of rank `k`, from 0, among the durations: more than `k` of them are at or below it,
-- and at most `k` of them are below it.
pub record HasRank (k : ℕ) (v : ℤ) (xs : List ℤ) : Type 0 where
  pub enough_below : k < at_most v xs
  pub enough_above : length xs ≤ at_least v xs + k

pub sorted-HasRank : (xs : List ℤ) (k : ℕ) → k < length xs → HasRank k (at (sort xs) k) xs
sorted-HasRank xs k h =
    let ys = sort xs in
    let v = at ys k in
    record {
      enough_below = omega (
        arith,
        at_most-at ys k (sort-IsSorted xs) (omega (arith, length-sort xs)),
        count-sort (λ x. leb_ℤ x v) xs,
      );
      enough_above = omega (
        arith,
        at_least-at ys k (sort-IsSorted xs) (omega (arith, length-sort xs)),
        count-sort (λ x. leb_ℤ v x) xs,
        length-sort xs,
      );
    }

-- The rank that `calculateLatencyMetrics` reports of `n` durations as their percentile `p`.
abbrev pub rank : ℕ → ℕ → ℕ
rank n p = if leb 99 p then n - 1 else (n - 1) * p / 100

rank-lt : (n p : ℕ) → 0 < n → rank n p < n
rank-lt n p h = elim (dec_lt p 99) [
  | yes below ↦
      let product : (n - 1) * p ≤ (n - 1) * 100 = mul-le-mul_left (n - 1) (omega arith) in
      let quotient : (n - 1) * p / 100 ≤ n - 1 = div-le_of_le-mul 100 (omega arith) in ground arith
  | no above ↦ ground arith
]

percentile_index-rank : (n p : ℕ) → 0 < n → percentile_index n p ≡ rank n p
percentile_index-rank n p h = ground (arith, rank-lt n p h)

percentile_at-rank :
    (xs : List ℤ) (p : ℕ) → 0 < length xs → percentile_at xs p ≡ at xs (rank (length xs) p)
percentile_at-rank xs p h = ground (arith, percentile_index-rank (length xs) p h)

-- `CalculatePercentile` of sorted durations, at least one, and a whole percentile that is not negative,
-- is the duration of rank (n - 1) * p / 100, rounded down; from the 99th on it is the greatest.
pub calculate_percentile-HasRank :
    (xs : List ℤ) (p : ℕ)
    → 0 < length xs
    → HasRank
        (if leb 99 p then length xs - 1 else (length xs - 1) * p / 100)
        (calculate_percentile (sort xs) (pos p))
        xs
unfolding calculate_percentile
calculate_percentile-HasRank xs p h = ranked (sort xs) refl
  where
    ranked :
        (ys : List ℤ)
        → sort xs ≡ ys
        → HasRank (rank (length xs) p) (calculate_percentile ys (pos p)) xs
    ranked [] e = absurd (omega (arith, ap length e, length-sort xs))
    ranked (y ∷ ys) e =
        let r = sorted-HasRank xs (rank (length xs) p) (rank-lt (length xs) p h) in
        let same : at (sort xs) (rank (length xs) p) ≡ percentile_at (y ∷ ys) p =
          ap (λ zs. at zs (rank (length xs) p)) e
          ∙ ap (λ n. at (y ∷ ys) (rank n p)) (sym (length-sort xs) ∙ ap length e)
          ∙ sym (percentile_at-rank (y ∷ ys) p (omega arith)) in
        subst (λ v. HasRank (rank (length xs) p) v xs) same r

pub metrics_of_sorting :
    (xs : List ℤ) → 0 < length xs → calculate_latency_metrics xs ≡ metrics_of_sorted (sort xs)
unfolding calculate_latency_metrics
metrics_of_sorting [] h = absurd (omega arith)
metrics_of_sorting (x ∷ xs) h = refl

-- The metrics of some durations, at least one: their count, and as the percentiles 80, 90 and 99
-- the durations of the ranks (n - 1) * 80 / 100 and (n - 1) * 90 / 100, rounded down, and n - 1, which
-- is the greatest duration.
pub calculate_latency_metrics-HasRank :
    (xs : List ℤ)
    → 0 < length xs
    → let m = calculate_latency_metrics xs in
      let n = length xs in
      (m.count ≡ n)
      × HasRank ((n - 1) * 80 / 100) m.p80 xs
      × HasRank ((n - 1) * 90 / 100) m.p90 xs
      × HasRank (n - 1) m.p99 xs
      × (at_most m.p99 xs ≡ n)
unfolding metrics_of_sorted
calculate_latency_metrics-HasRank xs h = rw (metrics_of_sorting xs h) (
    let top = calculate_percentile-HasRank xs 99 h in
    (
      length-sort xs,
      calculate_percentile-HasRank xs 80 h,
      calculate_percentile-HasRank xs 90 h,
      top,
      omega (arith, top.enough_below, count-le-length _ xs),
    ))
