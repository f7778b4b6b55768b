-- ===== src/Adapter/Answers.antt =====
-- The errors of adapter.go as service.go takes them: what the API server's refusals come to.
use preoomkiller_controller.Common.{◌≡◌, ◌≢◌, refl, ◌⊎◌, inr, true, false, arith}
use preoomkiller_controller.Common.Error.{
  Error, Sentinel, ok, err, errors_is, is_not_found, is_too_many_requests, both, sentinel, wrap,
  too_many_requests,
}
use preoomkiller_controller.Controller.Platform.{Numbers}
use preoomkiller_controller.Controller.Evict.{eviction_result}
use preoomkiller_controller.Controller.Process.{skip, failed, usage_of_metrics}
use preoomkiller_controller.Adapter.{
  Reason, not_found, too_many, other, ApiError, refused, evict_pod, get_pod_metrics,
}

-- An error of the client is not one of the adapter's own two types.
abbrev pub IsForeign : ApiError → Type 0
IsForeign r = (is_not_found r.error ≡ false) × (is_too_many_requests r.error ≡ false)

-- An eviction that the API server refuses counts as not done and as no error, if the pod is not found or
-- there are too many requests; refused for another reason it is an error that is `ErrEvictPod`.
pub refused_eviction :
    (r : ApiError)
    → IsForeign r
    → let result = eviction_result (evict_pod (refused r)) in
      ((r.reason ≢ other) × (result ≡ ok false))
      ⊎ ((r.reason ≡ other)
          × ((e : Error) × (result ≡ err e) × (errors_is Sentinel.evict_pod e ≡ true)))
unfolding evict_pod eviction_result errors_is is_not_found is_too_many_requests
refused_eviction r h = split r.reason refl
  where
    split :
        (reason : Reason)
        → r.reason ≡ reason
        → let result = eviction_result (evict_pod (refused r)) in
          ((r.reason ≢ other) × (result ≡ ok false))
          ⊎ ((r.reason ≡ other)
              × ((e : Error) × (result ≡ err e) × (errors_is Sentinel.evict_pod e ≡ true)))
    split not_found e = ground arith
    split too_many e = ground arith
    split other e = inr (
      e,
      (
        both (sentinel Sentinel.evict_pod) (wrap "evict pod" r.error),
        ground (arith, e, h.0, h.1),
        ground arith,
      ),
    )

-- Metrics that the API server refuses make the pod be skipped, if they are not found; refused for
-- another reason, too many requests included, they are an error that is `ErrGetPodMetrics`.
pub refused_metrics :
    (num : Numbers) (r : ApiError)
    → IsForeign r
    → let result = usage_of_metrics num (get_pod_metrics num (refused r)) in
      ((r.reason ≡ not_found) × (result ≡ skip))
      ⊎ ((r.reason ≢ not_found)
          × ((e : Error) × (result ≡ failed e) × (errors_is Sentinel.get_pod_metrics e ≡ true)))
unfolding get_pod_metrics usage_of_metrics errors_is is_not_found is_too_many_requests
refused_metrics num r h = split r.reason refl
  where
    split :
        (reason : Reason)
        → r.reason ≡ reason
        → let result = usage_of_metrics num (get_pod_metrics num (refused r)) in
          ((r.reason ≡ not_found) × (result ≡ skip))
          ⊎ ((r.reason ≢ not_found)
              × ((e : Error) × (result ≡ failed e) × (errors_is Sentinel.get_pod_metrics e ≡ true)))
    split not_found e = ground arith
    split too_many e = inr (
      ground arith,
      (
        both (sentinel Sentinel.get_pod_metrics) (wrap "get pod metrics" too_many_requests),
        ground (arith, e),
        ground arith,
      ),
    )
    split other e = inr (
      ground arith,
      (
        both (sentinel Sentinel.get_pod_metrics) (wrap "get pod metrics" r.error),
        ground (arith, e, h.0),
        ground arith,
      ),
    )
