-- ===== src/Controller/Reconcile/Flags.antt =====
-- The methods of service.go that a reconciliation calls leave the channels `ready` and `doneCh` of
-- the service as they are.
use preoomkiller_controller.Common.{
  ℕ, suc, zero, ◌≡◌, refl, String, Option, none, some, List, [], ◌∷◌, arith,
}
use preoomkiller_controller.Common.Dict.{lookup}
use preoomkiller_controller.Common.Error.{Result, ok, err}
use preoomkiller_controller.Controller.Platform.{Numbers, Env, Config, Pod}
use preoomkiller_controller.Controller.State.{State, Action, pure}
use preoomkiller_controller.Controller.Process.{process_pod}
use preoomkiller_controller.Controller.Process.OverThreshold.{process_pod-Keeps}
use preoomkiller_controller.Controller.Schedule.Flags.{
  SameFlags, Same-refl, Same->>=, process_scheduled_restart-SameFlags,
}
use preoomkiller_controller.Controller.Reconcile.{
  count_evicted, restart_if_scheduled, process_if_threshold, visit_pod, reconcile_one_pod,
  after_pod, reconcile_pods, reconcile_listed, reconcile_command, set_last_reconcile_end_time,
  run_round, after_round, run_rounds, enter_loop,
}

module _ {num : Numbers} (env : Env num) (cfg : Config) where
  open env use {World}
  open num use {Quantity}

  visit-Same :
      (pod : Pod Quantity) (n : ℕ) (s : State World) → SameFlags s (visit_pod env cfg pod n s).1
  unfolding visit_pod restart_if_scheduled process_if_threshold
  visit-Same pod n s =
      Same->>=
        (restart_if_scheduled env cfg pod
          (lookup cfg.annotation_restart_schedule_key pod.annotations))
        (λ u.
          process_if_threshold env cfg pod n
            (lookup cfg.annotation_memory_threshold_key pod.annotations))
        s (scheduled (lookup cfg.annotation_restart_schedule_key pod.annotations))
        λ u t. threshold (lookup cfg.annotation_memory_threshold_key pod.annotations) t
    where
      scheduled : (spec : Option String) → SameFlags s (restart_if_scheduled env cfg pod spec s).1
      scheduled none = Same-refl s
      scheduled (some spec) = process_scheduled_restart-SameFlags env cfg pod s

      threshold :
          (value : Option String) (t : State World)
          → SameFlags t (process_if_threshold env cfg pod n value t).1
      threshold none t = Same-refl t
      threshold (some value) t =
          let k = process_pod-Keeps env cfg pod t in
          Same->>= (process_pod env cfg pod) (λ evicted. pure (count_evicted evicted n)) t
            (record { same_ready = k.same_ready; same_done = k.same_done }) λ r u. Same-refl u

  one-Same :
      (pod : Pod Quantity) (n : ℕ) (s : State World)
      → SameFlags s (reconcile_one_pod env cfg pod n s).1
  unfolding reconcile_one_pod
  one-Same pod n s =
      let v = visit-Same pod n (record s { world = (env.ctx_done s.world).1 }) in
      ground (arith, v.same_ready, v.same_done)

  after-Same :
      (rest : ℕ → Action World (Option ℕ))
      → ((n : ℕ) (t : State World) → SameFlags t (rest n t).1)
      → (o : Option ℕ) (t : State World) → SameFlags t (after_pod env cfg rest o t).1
  unfolding after_pod
  after-Same rest h none t = Same-refl t
  after-Same rest h (some m) t =
      let v = h m (record t { world = (env.done_before_second t.world).1 }) in
      ground (arith, v.same_ready, v.same_done)

  pods-Same :
      (pods : List (Pod Quantity)) (n : ℕ) (s : State World)
      → SameFlags s (reconcile_pods env cfg pods n s).1
  unfolding reconcile_pods after_pod
  pods-Same [] n s = Same-refl s
  pods-Same (pod ∷ pods) n s =
      Same->>= (reconcile_one_pod env cfg pod n) (after_pod env cfg (reconcile_pods env cfg pods)) s
        (one-Same pod n s) (after-Same (reconcile_pods env cfg pods) λ m t. pods-Same pods m t)

  round-Same : (s : State World) → SameFlags s (run_round env cfg s).1
  unfolding run_round reconcile_command reconcile_listed set_last_reconcile_end_time
  round-Same s =
      Same->>= (reconcile_command env cfg) (λ r. set_last_reconcile_end_time env cfg) s
        (listed (env.list_pods_query cfg.label_selector s.world).0)
        λ r t. record { same_ready = refl; same_done = refl }
    where
      w : State World
      w = record s { world = (env.list_pods_query cfg.label_selector s.world).1 }

      listed :
          (answer : Result (List (Pod Quantity)))
          → SameFlags s (reconcile_listed env cfg answer w).1
      listed (err e) = record { same_ready = refl; same_done = refl }
      listed (ok pods) =
          let k =
            Same->>= (reconcile_pods env cfg pods 0) (λ n. pure {A = Result (Option ℕ)} (ok n)) w
              (pods-Same pods 0 w) λ n t. Same-refl t in
          record { same_ready = k.same_ready; same_done = k.same_done }

  -- Any number of turns of the loop of `RunCommand` leaves the two channels as they are.
  pub run_rounds-SameFlags :
      (rounds : ℕ) (s : State World) → SameFlags s (run_rounds env cfg rounds s).1
  unfolding run_rounds after_round
  run_rounds-SameFlags zero s = Same-refl s
  run_rounds-SameFlags (suc rounds) s =
      Same->>= (run_round env cfg) (λ _. after_round env cfg (run_rounds env cfg rounds)) s
        (round-Same s)
        λ u t.
          let v =
            run_rounds-SameFlags rounds (record t { world = (env.done_before_tick t.world).1 }) in
          ground (arith, v.same_ready, v.same_done)

  -- What comes before the loop touches the clock and `ready` only.
  pub enter_loop_lem :
      (s : State World)
      → let t = (enter_loop env cfg s).1 in
        (t.pending_timers ≡ s.pending_timers)
        × (t.in_flight ≡ s.in_flight)
        × (t.done ≡ s.done)
        × (t.in_shutdown ≡ s.in_shutdown)
        × (t.calls ≡ s.calls)
  unfolding enter_loop set_last_reconcile_end_time
  enter_loop_lem s = ground arith
