-- ===== src/Adapter/Repository/Examples.antt =====
-- The testbed's controller over a cluster with a disruption budget that is used up.
use preoomkiller_controller.Common.{◌≡◌, refl, ℕ, none, some, [], ◌∷◌}
use preoomkiller_controller.Common.Int.{pos, sub_time, ◌-ℤ◌, ◌+ℤ◌}
use preoomkiller_controller.Common.Dict.{lookup}
use preoomkiller_controller.Common.Text.{cut_suffix, trim_space}
use preoomkiller_controller.Common.Error.{ok, foreign, is_not_found, is_too_many_requests}
use preoomkiller_controller.Controller.State.{evict}
use preoomkiller_controller.Controller.Evict.{is_too_young}
use preoomkiller_controller.Controller.Threshold.{
  resolve_memory_threshold, resolve_memory_threshold_from_percent,
}
use preoomkiller_controller.Controller.Process.{process_pod, usage_of_metrics}
use preoomkiller_controller.Controller.Process.OverThreshold.{IsOver}
use preoomkiller_controller.Controller.Examples.Testbed.{
  numbers, env as base, config, leaky, at_time,
}
use preoomkiller_controller.Adapter.{
  too_many, not_found, ApiError, granted, refused, evict_pod, get_pod_metrics,
  to_domain_pod_metrics,
}
use preoomkiller_controller.Adapter.Repository.{Cluster, with_repository}
use preoomkiller_controller.Adapter.Repository.Refusals.{IsRefusal, process_pod-refused}

abbrev budget : ApiError
budget = record { reason = too_many; error = foreign "disruption budget" }

abbrev gone : ApiError
gone = record { reason = not_found; error = foreign "no such pod" }

abbrev cluster : Cluster numbers ℕ
cluster = record {
  list = λ selector w. (granted [], w);
  get = λ namespace name w. (refused gone, w);
  metrics = λ namespace name w. (granted (some (pos 600) ∷ some (pos 300) ∷ []), w);
  evict = λ namespace name w. (refused budget, w);
  patch = record { marshal = λ patch. ok "{}"; patch_pod = λ namespace name bytes w. (none, w) };
}

leaky-IsOver : IsOver (with_repository base cluster) config leaky (at_time 500)
unfolding resolve_memory_threshold resolve_memory_threshold_from_percent cut_suffix trim_space
    lookup usage_of_metrics get_pod_metrics to_domain_pod_metrics ◌+ℤ◌
leaky-IsOver = (pos 800, pos 900, refl, refl, refl, refl)

process_pod-refused_example :
    let (answer, t) = process_pod (with_repository base cluster) config leaky (at_time 500) in
    (t.calls ≡ evict "apps" "leaky" (evict_pod (refused budget)) ∷ [])
    × IsRefusal base cluster config too_many answer
unfolding is_too_young sub_time ◌-ℤ◌ is_not_found is_too_many_requests
process_pod-refused_example =
    process_pod-refused base cluster config leaky (at_time 500) budget leaky-IsOver refl refl
      (refl, refl)
