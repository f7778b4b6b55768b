-- ===== src/Controller/Schedule/Annotating.antt =====
-- The first `restart-at` of a pod, as `processScheduledRestart` of service.go writes it.
use preoomkiller_controller.Common.{◌≡◌, Option, none, ◌∷◌, arith}
use preoomkiller_controller.Common.Int.{ℤ}
use preoomkiller_controller.Common.Dict.{lookup}
use preoomkiller_controller.Common.Error.{Error}
use preoomkiller_controller.Controller.Platform.{Numbers, Env, Config, Pod}
use preoomkiller_controller.Controller.State.{State, annotate}
use preoomkiller_controller.Controller.Schedule.{
  process_scheduled_restart, reschedule, set_restart_at,
}
use preoomkiller_controller.Controller.Schedule.Restart.{NextRun, schedule_eviction-calls}

module _ {num : Numbers} (env : Env num) (cfg : Config) where
  open env use {World}
  open num use {Quantity}

  -- A pod with no `restart-at` yet is annotated with its next run.
  pub new_restart_annotated :
      (pod : Pod Quantity) (next : ℤ) (s : State World)
      → lookup cfg.annotation_restart_at_key pod.annotations ≡ none
      → NextRun env cfg pod (env.now s.world).0 next
      → (process_scheduled_restart env cfg pod s).1.calls
        ≡ annotate pod.namespace pod.name cfg.annotation_restart_at_key
            (env.format_rfc3339 next)
            (env.set_annotation_command pod.namespace pod.name cfg.annotation_restart_at_key
              (env.format_rfc3339 next)
              (env.now s.world).1).0
          ∷ s.calls
  unfolding process_scheduled_restart reschedule set_restart_at
  new_restart_annotated pod next s h k = ground (
    arith,
    h,
    k,
    schedule_eviction-calls env cfg pod.namespace pod.name next (record s {
      world = answer.1;
      calls =
          annotate pod.namespace pod.name cfg.annotation_restart_at_key (env.format_rfc3339 next)
            answer.0
          ∷ s.calls;
    }),
  )
    where
      answer : Option Error × World
      answer =
          env.set_annotation_command pod.namespace pod.name cfg.annotation_restart_at_key
            (env.format_rfc3339 next) (env.now s.world).1
