-- ===== src/Controller/Schedule/Flags.antt =====
-- The scheduled restarts of service.go leave the channels `ready` and `doneCh` of
-- the service as they are.
use preoomkiller_controller.Common.{
  ◌∙◌, ◌≡◌, refl, String, if◌then◌else◌, Option, none, some, ◌∷◌, arith,
}
use preoomkiller_controller.Common.Int.{ℤ}
use preoomkiller_controller.Common.Dict.{lookup}
use preoomkiller_controller.Common.Error.{Result, ok, err}
use preoomkiller_controller.Controller.Platform.{Numbers, Env, Config, Pod}
use preoomkiller_controller.Controller.State.{State, Action, ◌>>=◌, pure, annotate, >>=-state}
use preoomkiller_controller.Controller.Evict.Guard.{evict_pod_command-Keeps}
use preoomkiller_controller.Controller.Schedule.{
  schedule_locked, schedule_eviction, handle_existing_restart_at, send_annotation, reschedule,
  process_scheduled_restart, set_restart_at, schedule_if_set, handle_parsed_restart_at,
  restart_from,
}

module _ {World : Type 0} where
  pub record SameFlags (s t : State World) : Type 0 where
    pub same_ready : t.ready ≡ s.ready
    pub same_done : t.done ≡ s.done

  pub Same-refl : (s : State World) → SameFlags s s
  Same-refl s = record { same_ready = refl; same_done = refl }

  pub Same->>= :
      {A B : Type 0} (m : Action World A) (f : A → Action World B) (s : State World)
      → SameFlags s (m s).1
      → ((a : A) (t : State World) → SameFlags t (f a t).1)
      → SameFlags s ((m >>= f) s).1
  Same->>= m f s h k =
      >>=-state (λ u. SameFlags s u) m f s h
        λ a. record {
          same_ready = (k a (m s).1).same_ready ∙ h.same_ready;
          same_done = (k a (m s).1).same_done ∙ h.same_done;
        }

module _ {num : Numbers} (env : Env num) (cfg : Config) where
  open env use {World}
  open num use {Quantity}

  schedule-Same :
      (namespace name : String) (at : ℤ) (s : State World)
      → SameFlags s (schedule_eviction env cfg namespace name at s).1
  unfolding schedule_eviction schedule_locked
  schedule-Same namespace name at s = ground arith

  set_restart_at-Same :
      (pod : Pod Quantity) (next : Result ℤ) (s : State World)
      → SameFlags s (set_restart_at env cfg pod next s).1
  unfolding set_restart_at send_annotation schedule_if_set
  set_restart_at-Same pod (err e) s = Same-refl s
  set_restart_at-Same pod (ok next) s =
      let (answer, w) =
        env.set_annotation_command pod.namespace pod.name cfg.annotation_restart_at_key
          (env.format_rfc3339 next) s.world in
      ground (
        arith,
        schedule-Same pod.namespace pod.name next (record s {
          world = w;
          calls =
              annotate pod.namespace pod.name cfg.annotation_restart_at_key
                (env.format_rfc3339 next) answer
              ∷ s.calls;
        }),
      )

  reschedule-Same :
      (pod : Pod Quantity) (s : State World) → SameFlags s (reschedule env cfg pod s).1
  unfolding reschedule
  reschedule-Same pod s =
      let u = set_restart_at-Same pod _ (record s { world = (env.now s.world).1 }) in
      record { same_ready = u.same_ready; same_done = u.same_done }

  handle-Same :
      (pod : Pod Quantity) (parsed : Result ℤ) (s : State World)
      → SameFlags s (handle_parsed_restart_at env cfg pod parsed s).1
  unfolding handle_parsed_restart_at
  handle-Same pod (err e) s = Same-refl s
  handle-Same pod (ok at) s =
      let t = record s { world = (env.now s.world).1 } in
      let u = schedule-Same pod.namespace pod.name at t in
      let v = evict_pod_command-Keeps env cfg pod.namespace pod.name (some pod) t in
      ground (arith, u.same_ready, u.same_done, v.same_ready, v.same_done)

  restart-Same :
      (pod : Pod Quantity) (value : Option String) (s : State World)
      → SameFlags s (restart_from env cfg pod value s).1
  unfolding restart_from handle_existing_restart_at
  restart-Same pod none s = reschedule-Same pod s
  restart-Same pod (some text) s =
      Same->>= (handle_parsed_restart_at env cfg pod (env.parse_rfc3339 text))
        (λ handled. if handled then pure tt else reschedule env cfg pod) s
        (handle-Same pod (env.parse_rfc3339 text) s)
        λ handled t. ground (arith, reschedule-Same pod t)

  pub process_scheduled_restart-SameFlags :
      (pod : Pod Quantity) (s : State World)
      → SameFlags s (process_scheduled_restart env cfg pod s).1
  unfolding process_scheduled_restart
  process_scheduled_restart-SameFlags pod s =
      restart-Same pod (lookup cfg.annotation_restart_at_key pod.annotations) s
