-- ===== src/Controller/Reconcile/Calls.antt =====
-- Which pods a reconciliation of service.go acts on.
use preoomkiller_controller.Common.{
  ℕ, ◌+◌, ◌*◌, ◌≡◌, refl, String, Bool, true, false, ◌⊎◌, inl, inr, Option, none, some, List, [],
  ◌∷◌, if◌then◌else◌, arith, length,
}
use preoomkiller_controller.Common.Dict.{lookup}
use preoomkiller_controller.Common.Error.{Error, Result, ok, err, wrap}
use preoomkiller_controller.Controller.Platform.{Numbers, Env, Config, Pod}
use preoomkiller_controller.Controller.State.{State, Action, ret, ◌>>=◌, >>=-state, pure, ask}
use preoomkiller_controller.Controller.Process.{process_pod}
use preoomkiller_controller.Controller.Process.OverThreshold.{process_pod-SendsIfOver}
use preoomkiller_controller.Controller.Schedule.Restart.{process_scheduled_restart_calls}
use preoomkiller_controller.Controller.Reconcile.{
  count_evicted, visit_pod, restart_if_scheduled, process_if_threshold, reconcile_one_pod,
  reconcile_pods, reconcile_listed, reconcile_command, after_pod,
}
use preoomkiller_controller.Controller.Reconcile.Acts.{
  Acts, Acts-trans, Acts-none, Acts-one, Acts-more, Acts->>=, InTurn, InTurn-none, InTurn-first,
  InTurn-next, InTurn-world,
}

module _ {num : Numbers} (env : Env num) (cfg : Config) where
  open env use {World}
  open num use {Quantity}

  restart-Acts :
      (pod : Pod Quantity) (value : Option String) (s : State World)
      → Acts env cfg (pod ∷ []) 1 s (restart_if_scheduled env cfg pod value s).1
  unfolding restart_if_scheduled
  restart-Acts pod none s = Acts-none env cfg _ 1 s s refl
  restart-Acts pod (some v) s = elim (process_scheduled_restart_calls env cfg pod s) [
    | inl e ↦ Acts-none env cfg _ 1 s _ e
    | inr (inl (at, a, h, m, e)) ↦ Acts-one env cfg pod _ s _ (refl, refl) e
    | inr (inr (now, next, a, h, e)) ↦ Acts-one env cfg pod _ s _ (refl, refl, refl) e
  ]

  process-Acts :
      (pod : Pod Quantity) (s : State World)
      → Acts env cfg (pod ∷ []) 1 s (process_pod env cfg pod s).1
  process-Acts pod s = elim (process_pod-SendsIfOver env cfg pod s) [
    | inl (e, f, g) ↦ Acts-none env cfg _ 1 s _ e
    | inr (over, (a, e, r)) ↦ Acts-one env cfg pod _ s _ (refl, refl) e
  ]

  threshold-Acts :
      (pod : Pod Quantity) (n : ℕ) (value : Option String) (s : State World)
      → Acts env cfg (pod ∷ []) 1 s (process_if_threshold env cfg pod n value s).1
  unfolding process_if_threshold
  threshold-Acts pod n none s = Acts-none env cfg _ 1 s s refl
  threshold-Acts pod n (some v) s =
      >>=-state (Acts env cfg (pod ∷ []) 1 s) (process_pod env cfg pod)
        (λ evicted. pure (count_evicted evicted n)) s (process-Acts pod s) λ r. process-Acts pod s

  visit-Acts :
      (pod : Pod Quantity) (n : ℕ) (s : State World)
      → Acts env cfg (pod ∷ []) 2 s (visit_pod env cfg pod n s).1
  unfolding visit_pod
  visit-Acts pod n s =
      Acts->>= env cfg (pod ∷ []) 1 1 s
        (restart_if_scheduled env cfg pod
          (lookup cfg.annotation_restart_schedule_key pod.annotations))
        (λ _.
          process_if_threshold env cfg pod n
            (lookup cfg.annotation_memory_threshold_key pod.annotations))
        (restart-Acts pod _ s) (λ _. threshold-Acts pod n _ _)

  -- A question to the world sends no command.
  ask-Acts :
      {A B : Type 0} (pods : List (Pod Quantity)) (n : ℕ) (s : State World) (op : World → A × World)
      (rest : A → Action World B)
      → ((a : A) (t : State World) → Acts env cfg pods n t (rest a t).1)
      → Acts env cfg pods n s ((ask op >>= rest) s).1
  ask-Acts pods n s op rest k =
      let t = record s { world = (op s.world).1 } in
      Acts-more env cfg pods (n + 0) n s (rest (op s.world).0 t).1 (omega arith) (
        Acts-trans env cfg pods 0 n s t (rest (op s.world).0 t).1
          (Acts-none env cfg pods 0 s t refl) (k (op s.world).0 t))

  visited-Acts :
      (pod : Pod Quantity) (n : ℕ) (stop : Bool) (s : State World)
      → Acts env cfg
          (pod ∷ [])
          2
          s
          ((if stop then pure none else (visit_pod env cfg pod n >>= λ m. pure (some m))) s).1
  visited-Acts pod n true s = Acts-none env cfg _ 2 s s refl
  visited-Acts pod n false s =
      >>=-state (Acts env cfg (pod ∷ []) 2 s) (visit_pod env cfg pod n) (λ m. pure (some m)) s
        (visit-Acts pod n s) λ m. visit-Acts pod n s

  one-Acts :
      (pod : Pod Quantity) (n : ℕ) (s : State World)
      → Acts env cfg (pod ∷ []) 2 s (reconcile_one_pod env cfg pod n s).1
  unfolding reconcile_one_pod
  one-Acts pod n s =
      ask-Acts (pod ∷ []) 2 s env.ctx_done
        (λ stop. if stop then pure none else (visit_pod env cfg pod n >>= λ m. pure (some m)))
        (visited-Acts pod n)

  next-InTurn :
      (pods : List (Pod Quantity)) (rest : ℕ → Action World (Option ℕ))
      → ((m : ℕ) (t : State World) → InTurn env cfg pods t (rest m t).1)
      → (stop : Bool) (m : ℕ) (s : State World)
      → InTurn env cfg pods s ((if stop then pure none else rest m) s).1
  next-InTurn pods rest h true m s = InTurn-none env cfg pods s s refl
  next-InTurn pods rest h false m s = h m s

  after-InTurn :
      (pods : List (Pod Quantity)) (rest : ℕ → Action World (Option ℕ))
      → ((m : ℕ) (t : State World) → InTurn env cfg pods t (rest m t).1)
      → (o : Option ℕ) (s : State World) → InTurn env cfg pods s (after_pod env cfg rest o s).1
  unfolding after_pod
  after-InTurn pods rest h none s = InTurn-none env cfg pods s s refl
  after-InTurn pods rest h (some m) s =
      let (stop, w) = env.done_before_second s.world in
      InTurn-world env cfg pods w s _ (next-InTurn pods rest h stop m (record s { world = w }))

  pods-InTurn :
      (pods : List (Pod Quantity)) (n : ℕ) (s : State World)
      → InTurn env cfg pods s (reconcile_pods env cfg pods n s).1
  unfolding reconcile_pods
  pods-InTurn [] n s = InTurn-none env cfg [] s s refl
  pods-InTurn (pod ∷ pods) n s =
      let first = one-Acts pod n s in
      let t = (reconcile_one_pod env cfg pod n s).1 in
      >>=-state (InTurn env cfg (pod ∷ pods) s) (reconcile_one_pod env cfg pod n)
        (after_pod env cfg (reconcile_pods env cfg pods)) s
        (InTurn-first env cfg pod pods s t first)
        λ o.
          InTurn-next env cfg pod pods s t _ first
            (after-InTurn pods (reconcile_pods env cfg pods) (λ m u. pods-InTurn pods m u) o t)

  listed-InTurn :
      (s : State World) (answer : Result (List (Pod Quantity))) (w : World)
      → (env.list_pods_query cfg.label_selector s.world).0 ≡ answer
      → let (r, t) = reconcile_listed env cfg answer (record s { world = w }) in
        ((pods : List (Pod Quantity)) × ((env.list_pods_query cfg.label_selector s.world).0
            ≡ ok pods)
          × InTurn env cfg pods s t)
        ⊎ ((e : Error) × ((env.list_pods_query cfg.label_selector s.world).0 ≡ err e)
            × (r ≡ ret (err (wrap "list pods" e)))
            × (t.calls ≡ s.calls))
  unfolding reconcile_listed
  listed-InTurn s (err e) w h = inr (e, h, refl, refl)
  listed-InTurn s (ok pods) w h =
      let v = record s { world = w } in
      inl (
        pods,
        h,
        InTurn-world env cfg pods w s _ (
            >>=-state (InTurn env cfg pods v) (reconcile_pods env cfg pods 0) (λ n. pure (ok n)) v
              (pods-InTurn pods 0 v) λ n. pods-InTurn pods 0 v),
      )

  -- However `ReconcileCommand` ends, the commands that it has sent fall into portions, one for each pod
  -- that the cluster listed and in the order of the list: each is of two commands at most, all about
  -- its pod, and each command is an eviction or a write of the `restart-at` annotation. If the list
  -- cannot be had, it sends none, and returns the error under "list pods".
  pub reconcile_command-Acts :
      (s : State World)
      → let (r, t) = reconcile_command env cfg s in
        ((pods : List (Pod Quantity)) × ((env.list_pods_query cfg.label_selector s.world).0
            ≡ ok pods)
          × InTurn env cfg pods s t)
        ⊎ ((e : Error) × ((env.list_pods_query cfg.label_selector s.world).0 ≡ err e)
            × (r ≡ ret (err (wrap "list pods" e)))
            × (t.calls ≡ s.calls))
  unfolding reconcile_command
  reconcile_command-Acts s =
      listed-InTurn s (env.list_pods_query cfg.label_selector s.world).0
        (env.list_pods_query cfg.label_selector s.world).1 refl
