-- ===== src/Controller/Evict/Guard.antt =====
-- What an eviction sends to the cluster, and when: `evictPodCommand` of service.go.
use preoomkiller_controller.Common.{
  ◌≡◌, ◌≢◌, String, Bool, true, false, ◌⊎◌, inl, inr, Option, none, some, ◌∷◌, Bool-cases, arith,
}
use preoomkiller_controller.Common.Int.{pos, sub_time, ◌<ℤ◌}
use preoomkiller_controller.Common.Error.{Error, Result, ok, err}
use preoomkiller_controller.Controller.Platform.{Numbers, Env, Config, Pod}
use preoomkiller_controller.Controller.State.{State, evict, Outcome, ret, panic}
use preoomkiller_controller.Controller.Evict.{
  eviction_result, is_too_young, evict_fetched, evict_query, evict_pod_command,
}

module _ {World : Type 0} where
  -- The fields that an eviction does not touch.
  pub record Keeps (s t : State World) : Type 0 where
    pub same_shutdown : t.in_shutdown ≡ s.in_shutdown
    pub same_ready : t.ready ≡ s.ready
    pub same_done : t.done ≡ s.done
    pub same_end : t.last_reconcile_end_time ≡ s.last_reconcile_end_time
    pub same_timers : t.pending_timers ≡ s.pending_timers
    pub same_in_flight : t.in_flight ≡ s.in_flight

  -- One eviction was sent, and its answer decides the result.
  abbrev pub Sends : String → String → State World → Outcome (Result Bool) × State World → Type 0
  Sends namespace name s (r, t) =
      (a : Option Error) × (t.calls ≡ evict namespace name a ∷ s.calls)
      × (r ≡ ret (eviction_result a))
      × (t.skipped ≡ s.skipped)

  -- Nothing was sent, and the result does not claim an eviction.
  abbrev pub SendsNothing : State World → Outcome (Result Bool) × State World → Type 0
  SendsNothing s (r, t) = (t.calls ≡ s.calls) × (r ≢ ret (ok true)) × (r ≢ panic)

module _ {num : Numbers} (env : Env num) (cfg : Config) where
  open env use {World}

  pub evict_pod_command-Keeps :
      (namespace name : String) (pod : Option (Pod num.Quantity)) (s : State World)
      → Keeps s (evict_pod_command env cfg namespace name pod s).1
  unfolding evict_pod_command
  evict_pod_command-Keeps namespace name none s = ground arith
  evict_pod_command-Keeps namespace name (some pod) s = ground arith

  -- Where a minimum age is set and the pod is younger at the time of the call, `evictPodCommand`
  -- with the pod at hand returns (false, nil), sends no command, and counts one skipped eviction.
  pub young_pod_spared :
      (namespace name : String) (pod : Pod num.Quantity) (s : State World)
      → pos 0 <ℤ cfg.min_pod_age_before_eviction
      → sub_time (env.now s.world).0 pod.created_at <ℤ cfg.min_pod_age_before_eviction
      → let (r, t) = evict_pod_command env cfg namespace name (some pod) s in
        (r ≡ ret (ok false)) × (t.calls ≡ s.calls) × (t.skipped ≡ (namespace, name) ∷ s.skipped)
  unfolding evict_pod_command
  young_pod_spared namespace name pod s h k = ground arith

  evict_fetched-Sends :
      (namespace name : String) (pod : Pod num.Quantity) (s : State World)
      → SendsNothing s (evict_fetched env cfg namespace name pod s)
        ⊎ Sends namespace name s (evict_fetched env cfg namespace name pod s)
  unfolding evict_fetched
  evict_fetched-Sends namespace name pod s =
      elim (Bool-cases (is_too_young env cfg (env.now s.world).0 pod.created_at)) [
        | inl young ↦ inl (ground arith)
        | inr old ↦ inr (
          (env.evict_pod_command namespace name (env.now s.world).1).0,
          ground arith,
          ground arith,
          ground arith,
        )
      ]

  evict_query-Sends :
      (namespace name : String) (answer : Result (Pod num.Quantity)) (s : State World)
      → SendsNothing s (evict_query env cfg namespace name answer s)
        ⊎ Sends namespace name s (evict_query env cfg namespace name answer s)
  unfolding evict_query
  evict_query-Sends namespace name (ok pod) s = evict_fetched-Sends namespace name pod s
  evict_query-Sends namespace name (err e) s = inl (ground arith)

  -- `evictPodCommand`, with the pod at hand or fetched first, never panics, and does one of two
  -- things: it sends no command and does not return (true, nil); or it sends one eviction, of the
  -- pod of its arguments, and returns (true, nil) for a nil answer, (false, nil) for an answer that
  -- says "not found" or "too many requests", and any other error under `ErrEvictPod`.
  pub evict_pod_command-Sends :
      (namespace name : String) (pod : Option (Pod num.Quantity)) (s : State World)
      → SendsNothing s (evict_pod_command env cfg namespace name pod s)
        ⊎ Sends namespace name s (evict_pod_command env cfg namespace name pod s)
  unfolding evict_pod_command
  evict_pod_command-Sends namespace name none s =
      evict_query-Sends namespace name (env.get_pod_query namespace name s.world).0
        (record s { world = (env.get_pod_query namespace name s.world).1 })
  evict_pod_command-Sends namespace name (some pod) s = evict_fetched-Sends namespace name pod s
