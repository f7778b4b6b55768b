-- ===== src/Pinger/Figures/Average.antt =====
-- `CalculateAverage` of statistics.go on durations whose sum does not overflow.
use preoomkiller_controller.Common.{
  ℕ, ◌+◌, ◌/◌, ◌<◌, ◌≡◌, refl, ap, ◌∙◌, List, [], ◌∷◌, length, arith,
}
use preoomkiller_controller.Common.Int.{ℤ, pos, pos_part, neg_part, ◌+ℤ◌, add64, quot_ℤ, wrap64}
use preoomkiller_controller.Pinger.Figures.{
  insert_sorted, sort, sum_from, calculate_average, calculate_latency_metrics, metrics_of_sorted,
}
use preoomkiller_controller.Pinger.Figures.Sorting.{length-sort}
use preoomkiller_controller.Pinger.Figures.Ranks.{metrics_of_sorting}

-- No duration is negative.
abbrev pub IsNotNegative : List ℤ → Type 0
IsNotNegative [] = Unit {0}
IsNotNegative (x ∷ xs) = (neg_part x ≡ 0) × IsNotNegative xs

abbrev pub total : List ℤ → ℕ
total [] = 0
total (x ∷ xs) = pos_part x + total xs

add64-pos :
    (a : ℕ) (x : ℤ)
    → neg_part x ≡ 0
    → a + pos_part x < 9_223_372_036_854_775_808
    → add64 (pos a) x ≡ pos (a + pos_part x)
unfolding add64 wrap64 ◌+ℤ◌
add64-pos a x h k = ground arith

sum_from-total :
    (a : ℕ) (xs : List ℤ)
    → IsNotNegative xs
    → a + total xs < 9_223_372_036_854_775_808
    → sum_from (pos a) xs ≡ pos (a + total xs)
sum_from-total a [] h k = ap pos (omega arith)
sum_from-total a (x ∷ xs) h k =
    let e : a + pos_part x + total xs ≡ a + (pos_part x + total xs) = omega arith in
    ap (λ s. sum_from s xs) (add64-pos a x h.0 (omega arith))
    ∙ sum_from-total (a + pos_part x) xs h.1 (omega arith)
    ∙ ap pos e

insert-total : (a : ℤ) (xs : List ℤ) → total (insert_sorted a xs) ≡ pos_part a + total xs
insert-total a [] = refl
insert-total a (x ∷ xs) = ground (arith, insert-total a xs)

sort-total : (xs : List ℤ) → total (sort xs) ≡ total xs
sort-total [] = refl
sort-total (x ∷ xs) = insert-total x (sort xs) ∙ ap (λ n. pos_part x + n) (sort-total xs)

insert-IsNotNegative :
    (a : ℤ) (xs : List ℤ) → neg_part a ≡ 0 → IsNotNegative xs → IsNotNegative (insert_sorted a xs)
insert-IsNotNegative a [] h k = (h, tt)
insert-IsNotNegative a (x ∷ xs) h k = ground (arith, insert-IsNotNegative a xs h k.1)

sort-IsNotNegative : (xs : List ℤ) → IsNotNegative xs → IsNotNegative (sort xs)
sort-IsNotNegative [] h = tt
sort-IsNotNegative (x ∷ xs) h = insert-IsNotNegative x (sort xs) h.0 (sort-IsNotNegative xs h.1)

calculate_average-total :
    (xs : List ℤ)
    → 0 < length xs
    → IsNotNegative xs
    → total xs < 9_223_372_036_854_775_808
    → calculate_average xs ≡ pos (total xs / length xs)
unfolding calculate_average quot_ℤ
calculate_average-total [] h k l = absurd (omega arith)
calculate_average-total (x ∷ xs) h k l =
    let e : 0 + total (x ∷ xs) ≡ total (x ∷ xs) = omega arith in
    ap (λ s. quot_ℤ s (length (x ∷ xs))) (sum_from-total 0 (x ∷ xs) k (omega arith))
    ∙ ap (λ n. pos (n / length (x ∷ xs))) e

-- The average that `calculateLatencyMetrics` reports of some durations, at least one, none negative
-- and with a sum below 2^63, is their sum divided by their number, rounded down.
pub average_metric_lem :
    (xs : List ℤ)
    → 0 < length xs
    → IsNotNegative xs
    → total xs < 9_223_372_036_854_775_808
    → (calculate_latency_metrics xs).average ≡ pos (total xs / length xs)
unfolding metrics_of_sorted
average_metric_lem xs h k l = rw (metrics_of_sorting xs h) (
    calculate_average-total (sort xs) (omega (arith, length-sort xs)) (sort-IsNotNegative xs k)
      (omega (arith, sort-total xs))
    ∙ ap (λ n. pos (n / length (sort xs))) (sort-total xs)
    ∙ ap (λ n. pos (total xs / n)) (length-sort xs))
