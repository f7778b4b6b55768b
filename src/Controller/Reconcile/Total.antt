-- ===== src/Controller/Reconcile/Total.antt =====
-- The reconciliation of service.go ends without a panic, and goes through every pod.
use preoomkiller_controller.Common.{
  ℕ, ◌+◌, ◌≤◌, ◌≡◌, refl, String, Bool, false, inl, inr, Option, none, some, List, [], ◌∷◌, arith,
  length,
}
use preoomkiller_controller.Common.Dict.{lookup}
use preoomkiller_controller.Common.Error.{Result}
use preoomkiller_controller.Controller.Platform.{Numbers, Env, Config, Pod, DrawsBelow}
use preoomkiller_controller.Controller.State.{State, Outcome, ret, ret_of_ne_panic}
use preoomkiller_controller.Controller.Evict.{eviction_result}
use preoomkiller_controller.Controller.Process.{evicted_or_error, process_pod}
use preoomkiller_controller.Controller.Process.OverThreshold.{process_pod-SendsIfOver}
use preoomkiller_controller.Controller.Schedule.Arming.{IsJitter}
use preoomkiller_controller.Controller.Schedule.Total.{process_scheduled_restart_total}
use preoomkiller_controller.Controller.Reconcile.{
  restart_if_scheduled, process_if_threshold, count_evicted, visit_pod, reconcile_one_pod,
  reconcile_pods,
}

module _ {num : Numbers} (env : Env num) (cfg : Config) where
  open env use {World}
  open num use {Quantity}

  -- The visits of the pods of a list, in order, from a count and a state to a count and a state.
  -- Between two visits only the world moves on.
  pub data Visits : List (Pod Quantity) → ℕ → State World → ℕ → State World → Type 0 where
    finished : {n : ℕ} {s : State World} → Visits [] n s n s
    visit :
        {pod : Pod Quantity} {pods : List (Pod Quantity)} {n m k : ℕ} {s t u : State World}
        (before after : World)
        → visit_pod env cfg pod n (record s { world = before }) ≡ (ret m, t)
        → Visits pods m (record t { world = after }) k u
        → Visits (pod ∷ pods) n s k u

  -- The context is never done.
  pub record IsNeverDone : Type 0 where
    pub no_done : (w : World) → (env.ctx_done w).0 ≡ false
    pub no_done_before_second : (w : World) → (env.done_before_second w).0 ≡ false

  -- How the loop ends: with a count, after a visit of each pod.
  abbrev VisitsAll :
      List (Pod Quantity) → ℕ → State World → Outcome (Option ℕ) × State World → Type 0
  VisitsAll pods n s (r, t) =
      (k : ℕ) × (r ≡ ret (some k)) × (n ≤ k) × (k ≤ n + length pods) × Visits pods n s k t

module _ {num : Numbers} (env : Env num) (cfg : Config) (draws : DrawsBelow env)
    (jitter : IsJitter env cfg) where
  open env use {World}
  open num use {Quantity}

  process_total :
      (pod : Pod Quantity) (s : State World)
      → (r : Result Bool) × ((process_pod env cfg pod s).0 ≡ ret r)
  process_total pod s = elim (process_pod-SendsIfOver env cfg pod s) [
    | inl nothing ↦ ret_of_ne_panic _ nothing.2
    | inr (over, (a, e, r)) ↦ (evicted_or_error (eviction_result a), r)
  ]

  -- A visit of a pod ends, and counts at most one pod more.
  abbrev pub CountsOne : ℕ → Outcome ℕ × State World → Type 0
  CountsOne n (r, t) = (m : ℕ) × (r ≡ ret m) × (n ≤ m) × (m ≤ n + 1)

  process_if_total :
      (pod : Pod Quantity) (n : ℕ) (value : Option String) (s : State World)
      → CountsOne n (process_if_threshold env cfg pod n value s)
  unfolding process_if_threshold
  process_if_total pod n none s = (n, refl, omega arith, omega arith)
  process_if_total pod n (some v) s =
      let (r, e) = process_total pod s in
      (count_evicted r n, ground (arith, e), ground arith, ground arith)

  restart_if_total :
      (pod : Pod Quantity) (value : Option String) (s : State World)
      → (restart_if_scheduled env cfg pod value s).0 ≡ ret tt
  unfolding restart_if_scheduled
  restart_if_total pod none s = refl
  restart_if_total pod (some v) s = process_scheduled_restart_total env cfg draws jitter pod s

  pub visit_total :
      (pod : Pod Quantity) (n : ℕ) (s : State World) → CountsOne n (visit_pod env cfg pod n s)
  unfolding visit_pod
  visit_total pod n s =
      let r =
        restart_if_scheduled env cfg pod
          (lookup cfg.annotation_restart_schedule_key pod.annotations) s in
      let (m, e, low, high) =
        process_if_total pod n (lookup cfg.annotation_memory_threshold_key pod.annotations) r.1 in
      (
        m,
        ground (
          arith,
          e,
          restart_if_total pod (lookup cfg.annotation_restart_schedule_key pod.annotations) s,
        ),
        low,
        high,
      )

  reconcile_pods_step :
      (pod : Pod Quantity) (pods : List (Pod Quantity)) (n m : ℕ) (s t : State World)
      → IsNeverDone env cfg
      → visit_pod env cfg pod n (record s { world = (env.ctx_done s.world).1 }) ≡ (ret m, t)
      → reconcile_pods env cfg (pod ∷ pods) n s
        ≡ reconcile_pods env cfg pods m (record t { world = (env.done_before_second t.world).1 })
  unfolding reconcile_pods reconcile_one_pod
  reconcile_pods_step pod pods n m s t h e =
      ground (arith, h.no_done s.world, h.no_done_before_second t.world)

  pub reconcile_pods_visits :
      (pods : List (Pod Quantity)) (n : ℕ) (s : State World)
      → IsNeverDone env cfg
      → VisitsAll env cfg pods n s (reconcile_pods env cfg pods n s)
  unfolding reconcile_pods
  reconcile_pods_visits [] n s h = (n, refl, omega arith, omega arith, finished)
  reconcile_pods_visits (pod ∷ pods) n s h =
      let v = record s { world = (env.ctx_done s.world).1 } in
      let (m, e, low, high) = visit_total pod n v in
      let t = (visit_pod env cfg pod n v).1 in
      let w = (env.done_before_second t.world).1 in
      let (k, f, low', high', rest) = reconcile_pods_visits pods m (record t { world = w }) h in
      let whole : visit_pod env cfg pod n v ≡ (ret m, t) = cc e in
      rw (reconcile_pods_step pod pods n m s t h whole)
        (k, f, omega arith, omega arith, visit _ w whole rest)
