-- ===== src/Adapter.antt =====
-- The adapters that fill the ports of the controller: internal/adapters/outbound/k8s (adapter.go,
-- convert.go, errors.go) over the Kubernetes clients, and internal/infra/cronparser/parser.go over the
-- cron library.
pub mod Answers
pub mod Limits
pub mod Zones
pub mod Patch
pub mod Repository
mod Examples
use preoomkiller_controller.Common.{
  ℕ, String, Bool, true, false, ◌&&◌, ◌||◌, not, ◌==◌, if◌then◌else◌, Option, none, some, List, [],
  ◌∷◌, map,
}
use Prim.Native.String.{◌++◌}
use Prim.Native.Char.{code}
use text.Mathlib.Text.{◌==◌ as str_eq}
use preoomkiller_controller.Common.Int.{ℤ, pos}
use preoomkiller_controller.Common.Dict.{Dict, lookup}
use preoomkiller_controller.Common.Error.{
  Error, Result, ok, err, pod_not_found, too_many_requests, wrap,
}
use preoomkiller_controller.Controller.Platform.{Numbers, Pod, PodMetrics}

-- How the API server refuses a call, by `apierrors.IsNotFound` and `apierrors.IsTooManyRequests`, with
-- the client's error.
pub data Reason : Type 0 where
  not_found too_many other : Reason

pub record ApiError : Type 0 where
  pub reason : Reason
  pub error : Error

pub data Answer (A : Type 0) : Type 0 where
  granted : A → Answer A
  refused : ApiError → Answer A

-- `GetPodQuery`: only "not found" is told apart.
abbrev get_pod_error : Reason → Error → Error
get_pod_error not_found e = wrap "get pod" pod_not_found
get_pod_error too_many e = wrap "get pod" e
get_pod_error other e = wrap "get pod" e

abbrev get_pod_metrics_error : Reason → Error → Error
get_pod_metrics_error not_found e = wrap "get pod metrics" pod_not_found
get_pod_metrics_error too_many e = wrap "get pod metrics" too_many_requests
get_pod_metrics_error other e = wrap "get pod metrics" e

abbrev evict_pod_error : Reason → Error → Error
evict_pod_error too_many e = wrap "evict pod" too_many_requests
evict_pod_error not_found e = wrap "evict pod" pod_not_found
evict_pod_error other e = wrap "evict pod" e

-- A container of a pod: its limits by resource name.
pub record Container (Quantity : Type 0) : Type 0 where
  pub limits : Dict Quantity

-- The fields of `corev1.Pod` that are read.
pub record ApiPod (Quantity : Type 0) : Type 0 where
  pub name : String
  pub namespace : String
  pub annotations : Dict String
  pub creation_timestamp : ℤ
  pub containers : List (Container Quantity)

module _ (num : Numbers) where
  open num use {Quantity}

  -- The loop of `toDomainPod`, with `totalLimit` and `hasLimit`.
  add_limit : Option Quantity → Quantity × Bool → Quantity × Bool
  add_limit none (total, has_limit) = (total, has_limit)
  add_limit (some limit) (total, has_limit) = (num.add total limit, true)

  sum_limits : List (Container Quantity) → Quantity × Bool → Quantity × Bool
  unfolding add_limit
  sum_limits [] acc = acc
  sum_limits (c ∷ cs) acc = sum_limits cs (add_limit (lookup "memory" c.limits) acc)

  limit_of : Quantity × Bool → Option Quantity
  limit_of (total, true) = some total
  limit_of (total, false) = none

  -- `toDomainPod`.
  unfoldable pub to_domain_pod : ApiPod Quantity → Pod Quantity
  unfolding sum_limits limit_of
  to_domain_pod pod = record {
    name = pod.name;
    namespace = pod.namespace;
    annotations = pod.annotations;
    memory_limit = limit_of (sum_limits pod.containers (num.new_quantity (pos 0), false));
    created_at = pod.creation_timestamp;
  }

  -- The loop of `toDomainPodMetrics`, over the memory of each container's usage; `none` is nil.
  sum_usage : List (Option Quantity) → Quantity → Quantity
  sum_usage [] total = total
  sum_usage (none ∷ us) total = sum_usage us total
  sum_usage (some u ∷ us) total = sum_usage us (num.add total u)

  -- `toDomainPodMetrics`: the usage is never nil.
  unfoldable pub to_domain_pod_metrics : List (Option Quantity) → PodMetrics Quantity
  unfolding sum_usage
  to_domain_pod_metrics us = record {
    memory_usage = some (sum_usage us (num.new_quantity (pos 0)));
  }

  unfoldable pub list_pods : Answer (List (ApiPod Quantity)) → Result (List (Pod Quantity))
  list_pods (granted pods) = ok (map to_domain_pod pods)
  list_pods (refused r) = err (wrap "list pods" r.error)

  unfoldable pub get_pod : Answer (ApiPod Quantity) → Result (Pod Quantity)
  get_pod (granted pod) = ok (to_domain_pod pod)
  get_pod (refused r) = err (get_pod_error r.reason r.error)

  unfoldable pub get_pod_metrics : Answer (List (Option Quantity)) → Result (PodMetrics Quantity)
  get_pod_metrics (granted us) = ok (to_domain_pod_metrics us)
  get_pod_metrics (refused r) = err (get_pod_metrics_error r.reason r.error)

-- `EvictPodCommand`, from the answer to the eviction that is posted.
unfoldable pub evict_pod : Answer (Unit {0}) → Option Error
evict_pod (granted u) = none
evict_pod (refused r) = some (evict_pod_error r.reason r.error)

-- `buildSpec`.
abbrev pub has_prefix : String → String → Bool
has_prefix String.[] s = true
has_prefix (String.◌∷◌ c p) String.[] = false
has_prefix (String.◌∷◌ c p) (String.◌∷◌ d s) = code c == code d && has_prefix p s

abbrev pub has_zone : String → Bool
has_zone spec = has_prefix "CRON_TZ=" spec || has_prefix "TZ=" spec

unfoldable pub build_spec : String → String → String
build_spec spec tz =
    if not (str_eq tz "") && not (has_zone spec)
    then "CRON_TZ=" ++ (tz ++ (" " ++ spec))
    else if not (has_zone spec)
    then "CRON_TZ=UTC " ++ spec
    else spec

-- `NextAfter`, over the parser of the cron library, which gives the schedule as its `Next`.
unfoldable pub next_after : (String → Result (ℤ → ℤ)) → String → String → ℤ → Result ℤ
next_after parse spec tz after = elim (parse (build_spec spec tz)) [
  | ok next ↦ ok (next after)
  | err e ↦ err (wrap "parse cron spec" e)
]
