-- ===== src/Adapter/Repository/Refusals.antt =====
-- What the controller does when the API server refuses, with the adapter between them.
use preoomkiller_controller.Common.{
  ◌≡◌, ◌≢◌, refl, ap, ◌∙◌, ◌⊎◌, inl, inr, String, Bool, true, false, none, ◌∷◌, arith,
}
use preoomkiller_controller.Common.Error.{
  Error, Sentinel, Result, ok, err, errors_is, both, sentinel, is_not_found,
}
use preoomkiller_controller.Controller.Platform.{Numbers, Env, Config, Pod}
use preoomkiller_controller.Controller.State.{State, Outcome, evict, ret}
use preoomkiller_controller.Controller.Evict.{eviction_result, is_too_young, evict_pod_command}
use preoomkiller_controller.Controller.Process.{evicted_or_error, process_pod}
use preoomkiller_controller.Controller.Process.OverThreshold.{IsOver, process_pod_over}
use preoomkiller_controller.Adapter.{
  Reason, not_found, other, ApiError, refused, evict_pod, get_pod,
}
use preoomkiller_controller.Adapter.Answers.{IsForeign, refused_eviction}
use preoomkiller_controller.Adapter.Repository.{Cluster, with_repository}

is_evict_pod :
    (e : Error) → errors_is Sentinel.evict_pod (both (sentinel Sentinel.evict_pod) e) ≡ true
unfolding errors_is
is_evict_pod e = refl

module _ {num : Numbers} (base : Env num) (cluster : Cluster num base.World) (cfg : Config) where
  abbrev pub env : Env num
  env = with_repository base cluster

  -- The answer of `processPod` for an eviction that was refused.
  abbrev pub IsRefusal : Reason → Outcome (Result Bool) → Type 0
  IsRefusal reason r =
      ((reason ≢ other) × (r ≡ ret (ok false)))
      ⊎ ((reason ≡ other)
          × ((e : Error) × (r ≡ ret (err e)) × (errors_is Sentinel.evict_pod e ≡ true)))

  -- For a pod over its threshold and not too young, whose eviction the API server refuses with an error
  -- of the client's: `processPod` sends one eviction. If there are too many requests (a disruption
  -- budget) or the pod is gone, it returns (false, nil); for any other reason an error that is
  -- `ErrEvictPod`.
  pub process_pod-refused :
      (pod : Pod num.Quantity) (s : State base.World) (r : ApiError)
      → IsOver env cfg pod s
      → is_too_young env cfg
          (env.now (env.get_pod_metrics_query pod.namespace pod.name s.world).1).0
          pod.created_at
        ≡ false
      → (cluster.evict pod.namespace pod.name
          (env.now (env.get_pod_metrics_query pod.namespace pod.name s.world).1).1).0
        ≡ refused r
      → IsForeign r
      → let (answer, t) = process_pod env cfg pod s in
        (t.calls ≡ evict pod.namespace pod.name (evict_pod (refused r)) ∷ s.calls)
        × IsRefusal r.reason answer
  process_pod-refused pod s r over old said foreign =
      let (calls, answer) = process_pod_over env cfg pod s over old in
      let sent = ap evict_pod said in
      (
        calls ∙ ap (λ a. evict pod.namespace pod.name a ∷ s.calls) sent,
        elim (refused_eviction r foreign) [
          | inl (few, result) ↦
              inl (
                few,
                answer ∙ ap (λ x. ret (evicted_or_error x)) (ap eviction_result sent ∙ result),
              )
          | inr (reason, (e, result, is)) ↦ inr (
            reason,
            (
              both (sentinel Sentinel.evict_pod) e,
              answer ∙ ap (λ x. ret (evicted_or_error x)) (ap eviction_result sent ∙ result),
              is_evict_pod e,
            ),
          )
        ],
      )

  -- A scheduled eviction of a pod that is gone by then sends nothing, and is no error.
  pub gone_pod_spared :
      (namespace name : String) (s : State base.World) (r : ApiError)
      → (cluster.get namespace name s.world).0 ≡ refused r
      → r.reason ≡ not_found
      → evict_pod_command env cfg namespace name none s
        ≡ (ret (ok false), record s { world = (cluster.get namespace name s.world).1 })
  unfolding evict_pod_command get_pod is_not_found
  gone_pod_spared namespace name s r said reason = ground arith
