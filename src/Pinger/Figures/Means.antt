-- ===== src/Pinger/Figures/Means.antt =====
-- `CalculateMedian` and `CalculateAverage` of statistics.go on durations that do not overflow.
use preoomkiller_controller.Common.{
  ℕ, zero, suc, ◌+◌, ◌-◌, ◌*◌, ◌/◌, ◌%◌, ◌≤◌, ◌<◌, ◌≡◌, refl, ap, ◌∙◌, true, false, ◌==◌, List, [],
  ◌∷◌, length, arith,
}
use native.Mathlib.Decide.{dec_lt}
use preoomkiller_controller.Common.Int.{
  ℤ, pos_part, neg_part, ◌≤ℤ◌, ◌+ℤ◌, +ℤ_parts, add64, quot_ℤ, IsInt64, wrap64_of_IsInt64,
}
use preoomkiller_controller.Pinger.Figures.{
  insert_sorted, sort, at, median_of_sorted, calculate_median, calculate_latency_metrics,
  metrics_of_sorted,
}
use preoomkiller_controller.Pinger.Figures.Sorting.{
  sort-IsSorted, length-sort, sort_of_IsSorted, at-le-at,
}
use preoomkiller_controller.Pinger.Figures.Ranks.{
  at_most, at_least, sorted-HasRank, metrics_of_sorting,
}

-- Durations between -2^62 and 2^62, about 146 years either way: two of them add up with no overflow.
abbrev pub IsModerate : List ℤ → Type 0
IsModerate [] = Unit {0}
IsModerate (x ∷ xs) =
    (pos_part x < 4_611_686_018_427_387_904)
    × (neg_part x < 4_611_686_018_427_387_904)
    × IsModerate xs

insert-IsModerate : (a : ℤ) (xs : List ℤ) → IsModerate (a ∷ xs) → IsModerate (insert_sorted a xs)
insert-IsModerate a [] h = h
insert-IsModerate a (x ∷ xs) (l, m, (lx, mx, h)) = ground (arith, insert-IsModerate a xs (l, m, h))

sort-IsModerate : (xs : List ℤ) → IsModerate xs → IsModerate (sort xs)
sort-IsModerate [] h = tt
sort-IsModerate (x ∷ xs) (l, m, h) = insert-IsModerate x (sort xs) (l, m, sort-IsModerate xs h)

at-bounds :
    (xs : List ℤ) (i : ℕ)
    → IsModerate xs
    → (pos_part (at xs i) < 4_611_686_018_427_387_904)
      × (neg_part (at xs i) < 4_611_686_018_427_387_904)
at-bounds [] i h = (omega arith, omega arith)
at-bounds (x ∷ xs) zero (l, m, h) = (l, m)
at-bounds (x ∷ xs) (suc i) (l, m, h) = at-bounds xs i h

half_of_sum :
    (a b s : ℤ)
    → a ≤ℤ b
    → pos_part s + neg_part a + neg_part b ≡ neg_part s + pos_part a + pos_part b
    → (a ≤ℤ quot_ℤ s 2) × (quot_ℤ s 2 ≤ℤ b)
unfolding quot_ℤ
half_of_sum a b s h e = ground arith

sum-IsInt64 :
    (a b : ℤ)
    → pos_part a < 4_611_686_018_427_387_904
    → neg_part a < 4_611_686_018_427_387_904
    → pos_part b < 4_611_686_018_427_387_904
    → neg_part b < 4_611_686_018_427_387_904
    → IsInt64 (a +ℤ b)
unfolding ◌+ℤ◌
sum-IsInt64 a b h i j k = ground arith

-- The half of the sum of two durations lies between them.
half_between :
    (a b : ℤ)
    → a ≤ℤ b
    → IsInt64 (a +ℤ b)
    → (a ≤ℤ quot_ℤ (add64 a b) 2) × (quot_ℤ (add64 a b) 2 ≤ℤ b)
unfolding add64
half_between a b h k = rw (wrap64_of_IsInt64 (a +ℤ b) k) (half_of_sum a b (a +ℤ b) h (+ℤ_parts a b))

at_most_mono : (a b : ℤ) (xs : List ℤ) → a ≤ℤ b → at_most a xs ≤ at_most b xs
at_most_mono a b [] h = omega arith
at_most_mono a b (x ∷ xs) h = ground (arith, at_most_mono a b xs h)

at_least_mono : (a b : ℤ) (xs : List ℤ) → a ≤ℤ b → at_least b xs ≤ at_least a xs
at_least_mono a b [] h = omega arith
at_least_mono a b (x ∷ xs) h = ground (arith, at_least_mono a b xs h)

-- At least half of the durations are at or below a value, and at least half at or above it.
pub record IsMiddle (v : ℤ) (xs : List ℤ) : Type 0 where
  pub half_below : length xs ≤ 2 * at_most v xs
  pub half_above : length xs ≤ 2 * at_least v xs

two_middles-IsMiddle :
    (xs : List ℤ) (v : ℤ)
    → 0 < length xs
    → length xs % 2 ≡ 0
    → at (sort xs) (length xs / 2 - 1) ≤ℤ v
    → v ≤ℤ at (sort xs) (length xs / 2)
    → IsMiddle v xs
two_middles-IsMiddle xs v h e l u =
    let lo = sorted-HasRank xs (length xs / 2 - 1) (omega arith) in
    let hi = sorted-HasRank xs (length xs / 2) (omega arith) in
    record {
      half_below = omega (arith, lo.enough_below, at_most_mono _ v xs l);
      half_above = omega (arith, hi.enough_above, at_least_mono v _ xs u);
    }

median-IsMiddle :
    (xs : List ℤ) → 0 < length xs → IsModerate xs → IsMiddle (median_of_sorted (sort xs)) xs
unfolding median_of_sorted
median-IsMiddle xs h k = elim (dec_lt 0 (length xs % 2)) [
  | yes odd ↦
      let r = sorted-HasRank xs (length xs / 2) (omega arith) in
      let e : (length (sort xs) % 2 == 0) ≡ false =
        ap (λ n. n % 2 == 0) (length-sort xs) ∙ ground (arith, odd) in
      rw (e, length-sort)
        (record {
          half_below = omega (arith, r.enough_below);
          half_above = omega (arith, r.enough_above);
        })
  | no even ↦
      let e : (length (sort xs) % 2 == 0) ≡ true =
        ap (λ n. n % 2 == 0) (length-sort xs) ∙ ground (arith, even) in
      let mid = length xs / 2 in
      let ys = sort xs in
      let order =
        at-le-at ys (mid - 1) mid (sort-IsSorted xs) (omega arith)
          (omega (arith, length-sort xs)) in
      let (l, m) = at-bounds ys (mid - 1) (sort-IsModerate xs k) in
      let (u, v) = at-bounds ys mid (sort-IsModerate xs k) in
      let small = sum-IsInt64 (at ys (mid - 1)) (at ys mid) l m u v in
      let b = half_between (at ys (mid - 1)) (at ys mid) order small in
      rw (e, length-sort) (two_middles-IsMiddle xs _ h (omega arith) b.0 b.1)
]

calculate_median-eq :
    (xs : List ℤ) → 0 < length xs → calculate_median xs ≡ median_of_sorted (sort xs)
unfolding calculate_median
calculate_median-eq [] h = absurd (omega arith)
calculate_median-eq (x ∷ xs) h = refl

-- The median that `calculateLatencyMetrics` reports of some durations, at least one and none
-- of 2^62 nanoseconds or more either way, is a middle of them: at least half of the durations are at
-- or below it, and at least half at or above it.
pub median_metric-IsMiddle :
    (xs : List ℤ)
    → 0 < length xs
    → IsModerate xs
    → let v = (calculate_latency_metrics xs).median in
      (length xs ≤ 2 * at_most v xs) × (length xs ≤ 2 * at_least v xs)
unfolding metrics_of_sorted
median_metric-IsMiddle xs h k =
    let same : calculate_median (sort xs) ≡ median_of_sorted (sort xs) =
      calculate_median-eq (sort xs) (omega (arith, length-sort xs))
      ∙ ap median_of_sorted (sort_of_IsSorted (sort xs) (sort-IsSorted xs)) in
    let m = median-IsMiddle xs h k in
    rw (metrics_of_sorting xs h, same) (m.half_below, m.half_above)
