-- ===== src/Controller/Process/Percent.antt =====
-- `processPod` of service.go on a threshold that is a percentage.
use preoomkiller_controller.Common.{◌≡◌, false, none, ◌∷◌}
use preoomkiller_controller.Common.Int.{pos, min_int64}
use preoomkiller_controller.Common.Error.{ok, errors_is}
use preoomkiller_controller.Controller.Platform.{Numbers, Env, Config, Pod}
use preoomkiller_controller.Controller.State.{State, evict, ret}
use preoomkiller_controller.Controller.Threshold.{usable_limit, resolve_memory_threshold}
use preoomkiller_controller.Controller.Threshold.Percent.{
  IsPercentage, IsNan, IsAccepted, HasLimit, percentage_without_limit, percentage_resolves_iff,
}
use preoomkiller_controller.Controller.Evict.{is_too_young}
use preoomkiller_controller.Controller.Process.{usage, usage_of_metrics, process_pod}
use preoomkiller_controller.Controller.Process.OverThreshold.{process_pod_over}

module _ {num : Numbers} (env : Env num) (cfg : Config) where
  open env use {World}
  open num use {Quantity, Float}

  -- A pod whose threshold is an accepted percentage, and that has no memory limit or a zero one, is
  -- left alone: `processPod` returns (false, nil) and changes nothing, whatever the pod's usage.
  pub no_limit_ignored :
      (pod : Pod Quantity) (percent : Float) (s : State World)
      → IsPercentage num pod cfg.annotation_memory_threshold_key percent
      → IsAccepted num percent
      → usable_limit num pod.memory_limit ≡ none
      → process_pod env cfg pod s ≡ (ret (ok false), s)
  unfolding process_pod errors_is
  no_limit_ignored pod percent s v a h =
      rw (percentage_without_limit num pod cfg.annotation_memory_threshold_key percent v a h)

  -- A percentage that is not a number passes the range test. Where the conversion to `int64` of the
  -- share that it makes of the pod's limit is the least `int64`, as it is on amd64, and quantities
  -- order that below the pod's usage, the pod is sent an eviction, unless it is too young.
  pub nan_percentage_evicts :
      (pod : Pod Quantity) (percent : Float) (limit q : Quantity) (s : State World)
      → IsPercentage num pod cfg.annotation_memory_threshold_key percent
      → IsNan num percent
      → HasLimit num pod limit
      → num.to_int64 (
          num.mul_float
            (num.as_approximate_float64 limit)
            (num.div_float percent (num.float_of 100)))
        ≡ min_int64
      → num.is_zero (num.new_quantity min_int64) ≡ false
      → num.cmp q (num.new_quantity min_int64) ≡ pos 1
      → usage_of_metrics num (env.get_pod_metrics_query pod.namespace pod.name s.world).0 ≡ usage q
      → let w = (env.get_pod_metrics_query pod.namespace pod.name s.world).1 in
        is_too_young env cfg (env.now w).0 pod.created_at ≡ false
        → let a = (env.evict_pod_command pod.namespace pod.name (env.now w).1).0 in
          (process_pod env cfg pod s).1.calls ≡ evict pod.namespace pod.name a ∷ s.calls
  nan_percentage_evicts pod percent limit q s v nan l e z c u old =
      (process_pod_over env cfg pod s (num.new_quantity min_int64, q, resolved, z, u, c) old).0
    where
      resolved :
          resolve_memory_threshold num pod cfg.annotation_memory_threshold_key
          ≡ ok (num.new_quantity min_int64)
      resolved =
          (percentage_resolves_iff num pod cfg.annotation_memory_threshold_key percent _ v).1
            (((nan (num.float_of 0)).0, (nan (num.float_of 100)).1), (limit, l, cc))
