-- ===== src/Controller/Process.antt =====
-- `processPod` and `getPodMemoryUsageOrSkip` of service.go: one pod against its memory threshold.
pub mod OverThreshold
pub mod Percent
use preoomkiller_controller.Common.{
  ℕ, ◌≡◌, String, Bool, true, false, Option, none, some, ◌==◌, if◌then◌else◌,
}
use preoomkiller_controller.Common.Int.{ℤ, pos, negsuc}
use preoomkiller_controller.Common.Error.{
  Error, Sentinel, Result, ok, err, sentinel, both, errors_is, is_not_found,
}
use preoomkiller_controller.Controller.Platform.{Numbers, Env, Config, Pod, PodMetrics}
use preoomkiller_controller.Controller.State.{State, Action, ◌>>=◌, ◌>>◌, pure, ask}
use preoomkiller_controller.Controller.Threshold.{resolve_memory_threshold}
use preoomkiller_controller.Controller.Evict.{evict_pod_command}

-- The three ways in which `getPodMemoryUsageOrSkip` returns.
pub data Usage (Quantity : Type 0) : Type 0 where
  usage : Quantity → Usage Quantity
  skip : Usage Quantity
  failed : Error → Usage Quantity

-- `x == 1` for the int that `Quantity.Cmp` returns.
abbrev pub is_one : ℤ → Bool
is_one (pos n) = n == 1
is_one (negsuc n) = false

-- What `processPod` makes of the two results of `evictPodCommand`.
abbrev pub evicted_or_error : Result Bool → Result Bool
evicted_or_error (ok evicted) = ok evicted
evicted_or_error (err e) = err (both (sentinel Sentinel.evict_pod) e)

module _ (num : Numbers) where
  open num use {Quantity}

  memory_usage_or_skip : Option Quantity → Usage Quantity
  memory_usage_or_skip none = skip
  memory_usage_or_skip (some q) = if num.is_zero q then skip else usage q

  unfoldable pub usage_of_metrics : Result (PodMetrics Quantity) → Usage Quantity
  unfolding memory_usage_or_skip
  usage_of_metrics (ok metrics) = memory_usage_or_skip metrics.memory_usage
  usage_of_metrics (err e) =
      if is_not_found e then skip else failed (both (sentinel Sentinel.get_pod_metrics) e)

module _ {num : Numbers} (env : Env num) (cfg : Config) where
  open env use {World}
  open num use {Quantity}

  unfoldable pub get_pod_memory_usage_or_skip : Pod Quantity → Action World (Usage Quantity)
  get_pod_memory_usage_or_skip pod = do
    answer ← ask (env.get_pod_metrics_query pod.namespace pod.name)
    pure (usage_of_metrics num answer)

  process_usage : Pod Quantity → Quantity → Usage Quantity → Action World (Result Bool)
  process_usage pod threshold skip = pure (ok false)
  process_usage pod threshold (failed e) = pure (err e)
  process_usage pod threshold (usage q) =
      if is_one (num.cmp q threshold)
      then (do
        evicted ← evict_pod_command env cfg pod.namespace pod.name (some pod)
        pure (evicted_or_error evicted))
      else pure (ok false)

  process_threshold : Pod Quantity → Result Quantity → Action World (Result Bool)
  unfolding process_usage
  process_threshold pod (err e) =
      pure (if errors_is Sentinel.memory_limit_not_defined e then ok false else err e)
  process_threshold pod (ok threshold) =
      if num.is_zero threshold
      then pure (ok false)
      else (get_pod_memory_usage_or_skip pod >>= process_usage pod threshold)

  unfoldable pub process_pod : Pod Quantity → Action World (Result Bool)
  unfolding process_threshold
  process_pod pod =
      process_threshold pod (resolve_memory_threshold num pod cfg.annotation_memory_threshold_key)
