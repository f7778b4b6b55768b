-- ===== src/Controller/Process/OverThreshold.antt =====
-- `processPod` of service.go: which pods it evicts.
use preoomkiller_controller.Common.{
  ◌≡◌, refl, Bool, false, ◌⊎◌, inl, inr, Option, some, ◌∷◌, Bool-cases, arith,
}
use preoomkiller_controller.Common.Int.{pos}
use preoomkiller_controller.Common.Error.{Error, Result, ok, err}
use preoomkiller_controller.Controller.Platform.{Numbers, Env, Config, Pod}
use preoomkiller_controller.Controller.State.{State, evict, Outcome, ret, panic}
use preoomkiller_controller.Controller.Threshold.{resolve_memory_threshold}
use preoomkiller_controller.Controller.Evict.{eviction_result, is_too_young, evict_pod_command}
use preoomkiller_controller.Controller.Evict.Guard.{
  Sends, SendsNothing, Keeps, evict_pod_command-Sends, evict_pod_command-Keeps,
}
use preoomkiller_controller.Controller.Process.{
  Usage, usage, skip, failed, is_one, evicted_or_error, usage_of_metrics,
  get_pod_memory_usage_or_skip, process_usage, process_threshold, process_pod,
}

module _ {num : Numbers} (env : Env num) (cfg : Config) where
  open env use {World}
  open num use {Quantity}

  -- The pod's measured usage is above its threshold.
  abbrev pub IsOver : Pod Quantity → State World → Type 0
  IsOver pod s =
      (threshold : Quantity) × (q : Quantity) × (resolve_memory_threshold num pod
          cfg.annotation_memory_threshold_key
        ≡ ok threshold)
      × (num.is_zero threshold ≡ false)
      × (usage_of_metrics num (env.get_pod_metrics_query pod.namespace pod.name s.world).0
          ≡ usage q)
      × (num.cmp q threshold ≡ pos 1)

  abbrev pub SendsIfOver : Pod Quantity → State World → Outcome (Result Bool) × State World → Type 0
  SendsIfOver pod s (r, t) =
      SendsNothing s (r, t)
      ⊎ (IsOver pod s
          × ((a : Option Error) × (t.calls ≡ evict pod.namespace pod.name a ∷ s.calls)
              × (r ≡ ret (evicted_or_error (eviction_result a)))))

  evict_if_one :
      (pod : Pod Quantity) (s t : State World) (threshold q : Quantity)
      → resolve_memory_threshold num pod cfg.annotation_memory_threshold_key ≡ ok threshold
      → num.is_zero threshold ≡ false
      → usage_of_metrics num (env.get_pod_metrics_query pod.namespace pod.name s.world).0 ≡ usage q
      → num.cmp q threshold ≡ pos 1
      → t.calls ≡ s.calls
      → (o : Outcome (Result Bool) × State World)
      → SendsNothing t o ⊎ Sends pod.namespace pod.name t o
      → SendsIfOver pod s
          (elim o.0 [ ret a ↦ (ret (evicted_or_error a), o.1) | panic ↦ (panic, o.1) ])
  evict_if_one pod s t threshold q h1 h2 h3 h4 h5 (r, u) (inl (e, f, g)) = inl (ground arith)
  evict_if_one pod s t threshold q h1 h2 h3 h4 h5 (r, u) (inr (a, e, f, g)) =
      inr ((threshold, q, h1, h2, h3, h4), (a, ground arith, ground arith))

  process_usage-Sends :
      (pod : Pod Quantity) (s : State World) (threshold : Quantity) (u : Usage Quantity)
      → resolve_memory_threshold num pod cfg.annotation_memory_threshold_key ≡ ok threshold
      → num.is_zero threshold ≡ false
      → usage_of_metrics num (env.get_pod_metrics_query pod.namespace pod.name s.world).0 ≡ u
      → let t = record s { world = (env.get_pod_metrics_query pod.namespace pod.name s.world).1 } in
        SendsIfOver pod s (process_usage env cfg pod threshold u t)
  unfolding process_usage
  process_usage-Sends pod s threshold skip h1 h2 h3 = inl (ground arith)
  process_usage-Sends pod s threshold (failed e) h1 h2 h3 = inl (ground arith)
  process_usage-Sends pod s threshold (usage q) h1 h2 h3 =
      elim (Bool-cases (is_one (num.cmp q threshold))) [
        | inl one ↦ rw one (
            evict_if_one pod s
              (record s { world = (env.get_pod_metrics_query pod.namespace pod.name s.world).1 })
              threshold q h1 h2 h3 (ground arith) refl _
              (evict_pod_command-Sends env cfg pod.namespace pod.name (some pod) (record s {
                world = (env.get_pod_metrics_query pod.namespace pod.name s.world).1;
              })))
        | inr other ↦ rw other (inl (ground arith))
      ]

  process_threshold-Sends :
      (pod : Pod Quantity) (s : State World) (threshold : Result Quantity)
      → resolve_memory_threshold num pod cfg.annotation_memory_threshold_key ≡ threshold
      → SendsIfOver pod s (process_threshold env cfg pod threshold s)
  unfolding process_threshold get_pod_memory_usage_or_skip
  process_threshold-Sends pod s (err e) h = inl (ground arith)
  process_threshold-Sends pod s (ok threshold) h = elim (Bool-cases (num.is_zero threshold)) [
    | inl zero_threshold ↦ rw zero_threshold (inl (ground arith))
    | inr some_threshold ↦
        rw some_threshold (process_usage-Sends pod s threshold _ h some_threshold refl)
  ]

  -- `processPod` never panics. Either it sends no command and does not return (true, nil), or the
  -- pod's threshold resolves to a non-zero quantity, the metrics answer gives a usage that
  -- `Cmp` puts above it, and one eviction of this very pod is sent, whose answer gives the result.
  pub process_pod-SendsIfOver :
      (pod : Pod Quantity) (s : State World) → SendsIfOver pod s (process_pod env cfg pod s)
  unfolding process_pod
  process_pod-SendsIfOver pod s =
      process_threshold-Sends pod s
        (resolve_memory_threshold num pod cfg.annotation_memory_threshold_key) refl

  -- A pod that is over its threshold, and not too young at the time of the call, is sent exactly
  -- one eviction by `processPod`.
  pub process_pod_over :
      (pod : Pod Quantity) (s : State World)
      → IsOver pod s
      → let w = (env.get_pod_metrics_query pod.namespace pod.name s.world).1 in
        is_too_young env cfg (env.now w).0 pod.created_at ≡ false
        → let (r, t) = process_pod env cfg pod s in
          let a = (env.evict_pod_command pod.namespace pod.name (env.now w).1).0 in
          (t.calls ≡ evict pod.namespace pod.name a ∷ s.calls)
          × (r ≡ ret (evicted_or_error (eviction_result a)))
  unfolding process_pod get_pod_memory_usage_or_skip evict_pod_command
  process_pod_over pod s (threshold, q, h1, h2, h3, h4) old = ground arith

  process_threshold-Keeps :
      (pod : Pod Quantity) (s : State World) (threshold : Result Quantity)
      → Keeps s (process_threshold env cfg pod threshold s).1
  unfolding process_threshold get_pod_memory_usage_or_skip
  process_threshold-Keeps pod s threshold = ground (
    arith,
    evict_pod_command-Keeps env cfg pod.namespace pod.name (some pod)
        (record s { world = (env.get_pod_metrics_query pod.namespace pod.name s.world).1 }),
  )

  pub process_pod-Keeps :
      (pod : Pod Quantity) (s : State World) → Keeps s (process_pod env cfg pod s).1
  unfolding process_pod
  process_pod-Keeps pod s = process_threshold-Keeps pod s _
