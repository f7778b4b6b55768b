-- ===== src/Controller/Examples/Evictions.antt =====
-- The pod of the testbed over its threshold, young and old.
use preoomkiller_controller.Common.{◌≡◌, refl, true, false, ◌↔◌, none, some, [], ◌∷◌, arith}
use preoomkiller_controller.Common.Int.{ℤ, pos, sub_time, ◌-ℤ◌}
use preoomkiller_controller.Common.Text.{cut_suffix, trim_space}
use preoomkiller_controller.Common.Dict.{lookup}
use preoomkiller_controller.Common.Error.{ok}
use preoomkiller_controller.Controller.Platform.{Pod}
use preoomkiller_controller.Controller.State.{evict, ret}
use preoomkiller_controller.Controller.Threshold.{
  resolve_memory_threshold, resolve_memory_threshold_from_percent,
}
use preoomkiller_controller.Controller.Threshold.Percent.{
  IsPercentage, IsNan, IsAccepted, HasLimit, share, percentage_resolves_iff,
}
use preoomkiller_controller.Controller.Evict.{is_too_young, eviction_result, evict_pod_command}
use preoomkiller_controller.Controller.Evict.Guard.{young_pod_spared}
use preoomkiller_controller.Controller.Process.{
  process_pod, usage_of_metrics, get_pod_memory_usage_or_skip, evicted_or_error,
}
use preoomkiller_controller.Controller.Process.OverThreshold.{
  IsOver, SendsIfOver, process_pod-SendsIfOver, process_pod_over,
}
use preoomkiller_controller.Controller.Process.Percent.{nan_percentage_evicts}
use preoomkiller_controller.Controller.Examples.Testbed.{
  numbers, env, config, threshold_key, leaky, at_time,
}

-- A run of the code: the pod is over 80 percent, and is evicted.
leaky_evicted :
    process_pod env config leaky (at_time 500)
    ≡ (ret (ok true), record (at_time 501) { calls = evict "apps" "leaky" none ∷ [] })
unfolding process_pod resolve_memory_threshold resolve_memory_threshold_from_percent cut_suffix
    trim_space lookup usage_of_metrics get_pod_memory_usage_or_skip evict_pod_command sub_time ◌-ℤ◌
leaky_evicted = refl

young_pod_spared_example :
    let (r, t) = evict_pod_command env config "apps" "leaky" (some leaky) (at_time 50) in
    (r ≡ ret (ok false)) × (t.calls ≡ []) × (t.skipped ≡ ("apps", "leaky") ∷ [])
unfolding sub_time ◌-ℤ◌
young_pod_spared_example =
    young_pod_spared env config "apps" "leaky" leaky (at_time 50) (omega arith) (omega arith)

process_pod-SendsIfOver_example :
    SendsIfOver env config leaky (at_time 500) (process_pod env config leaky (at_time 500))
process_pod-SendsIfOver_example = process_pod-SendsIfOver env config leaky (at_time 500)

leaky-IsOver : IsOver env config leaky (at_time 500)
unfolding resolve_memory_threshold resolve_memory_threshold_from_percent cut_suffix trim_space
    lookup usage_of_metrics
leaky-IsOver = (pos 800, pos 900, refl, refl, refl, refl)

process_pod_over_example :
    let (r, t) = process_pod env config leaky (at_time 500) in
    (t.calls ≡ evict "apps" "leaky" none ∷ []) × (r ≡ ret (evicted_or_error (eviction_result none)))
unfolding is_too_young sub_time ◌-ℤ◌
process_pod_over_example = process_pod_over env config leaky (at_time 500) leaky-IsOver refl

-- The annotation "80 %".
leaky-IsPercentage : IsPercentage numbers leaky threshold_key (some 8000)
unfolding lookup cut_suffix trim_space
leaky-IsPercentage = record {
  value = "80 %";
  before = "80 ";
  annotated = refl;
  cut = refl;
  parsed = refl;
}

percentage_resolves_iff_example :
    (resolve_memory_threshold numbers leaky threshold_key ≡ ok (pos 800)) ↔ (
      IsAccepted numbers (some 8000)
      × ((l : ℤ) × HasLimit numbers leaky l × (pos 800 ≡ share numbers (some 8000) l)))
percentage_resolves_iff_example =
    percentage_resolves_iff numbers leaky threshold_key (some 8000) (pos 800) leaky-IsPercentage

-- The annotation "NaN%".
abbrev not_a_number : Pod ℤ
not_a_number = record leaky { annotations = (threshold_key, "NaN%") ∷ [] }

not_a_number-IsPercentage : IsPercentage numbers not_a_number threshold_key none
unfolding lookup cut_suffix trim_space
not_a_number-IsPercentage = record {
  value = "NaN%";
  before = "NaN";
  annotated = refl;
  cut = refl;
  parsed = refl;
}

none-IsNan : IsNan numbers none
none-IsNan none = (refl, refl)
none-IsNan (some a) = (refl, refl)

nan_percentage_evicts_example :
    (process_pod env config not_a_number (at_time 500)).1.calls ≡ evict "apps" "leaky" none ∷ []
unfolding usage_of_metrics is_too_young sub_time ◌-ℤ◌
nan_percentage_evicts_example =
    nan_percentage_evicts env config not_a_number none (pos 1000) (pos 900) (at_time 500)
      not_a_number-IsPercentage none-IsNan (refl, refl) refl refl refl refl refl
