-- ===== src/Adapter/Patch/RoundTrip.antt =====
-- What `SetAnnotationCommand` writes is what the controller reads of the pod later.
use preoomkiller_controller.Common.{◌≡◌, ◌≢◌, String, Option, none, some, ◌∷◌, arith}
use text.Mathlib.TextEquality.{eq_iff}
use preoomkiller_controller.Common.Int.{ℤ, ◌<ℤ◌}
use preoomkiller_controller.Common.Dict.{Dict, lookup}
use preoomkiller_controller.Common.Error.{Error, ok}
use preoomkiller_controller.Controller.Platform.{Numbers, Env, Config}
use preoomkiller_controller.Controller.State.{State, annotate}
use preoomkiller_controller.Controller.Schedule.{schedule_eviction, process_scheduled_restart}
use preoomkiller_controller.Controller.Schedule.Restart.{NextRun, coming_restart_scheduled}
use preoomkiller_controller.Controller.Schedule.Annotating.{new_restart_annotated}
use preoomkiller_controller.Adapter.{ApiPod, to_domain_pod}
use preoomkiller_controller.Adapter.Patch.{Json, string, entry, annotation_value, annotation_patch}

-- How the API server merges a patch of one annotation into the annotations of a pod, by RFC 7386: a
-- text is set, and the other annotations stay.
pub record MergesPatches (merge : Json → Dict String → Dict String) : Type 0 where
  pub sets :
      (key value : String) (m : Dict String)
      → lookup key (merge (entry "metadata" (entry "annotations" (entry key (string value)))) m)
        ≡ some value
  pub keeps :
      (key other : String) (value : Json) (m : Dict String)
      → key ≢ other
      → lookup other (merge (entry "metadata" (entry "annotations" (entry key value))) m)
        ≡ lookup other m

string_sent : (value : String) → value ≢ "" → annotation_value value ≡ string value
string_sent value h = ground (arith, eq_iff value "")

module _ {num : Numbers} (env : Env num) (cfg : Config) where
  open env use {World}
  open num use {Quantity}

  -- The pod after the annotation was written.
  abbrev pub annotated :
      (Json → Dict String → Dict String) → ApiPod Quantity → String → ApiPod Quantity
  annotated merge pod value = record pod {
    annotations = merge (annotation_patch cfg.annotation_restart_at_key value) pod.annotations;
  }

  abbrev pub set_answer : ApiPod Quantity → ℤ → State World → Option Error
  set_answer pod next s =
      (env.set_annotation_command pod.namespace pod.name cfg.annotation_restart_at_key
        (env.format_rfc3339 next) (env.now s.world).1).0

  -- The restart time goes through the cluster and back. A pod with a cron annotation and no `restart-at`
  -- is annotated with its next run; if the API server merges that patch as RFC 7386 says, and RFC 3339
  -- reads the time back that it was written from, then a round that sees the pod before that time
  -- hands it to `scheduleEviction` for the very time that the first round computed.
  pub restart_at_round_trip :
      (merge : Json → Dict String → Dict String) (pod : ApiPod Quantity) (next : ℤ)
      (s u : State World)
      → MergesPatches merge
      → lookup cfg.annotation_restart_at_key pod.annotations ≡ none
      → NextRun env cfg (to_domain_pod num pod) (env.now s.world).0 next
      → env.format_rfc3339 next ≢ ""
      → env.parse_rfc3339 (env.format_rfc3339 next) ≡ ok next
      → (env.now u.world).0 <ℤ next
      → ((process_scheduled_restart env cfg (to_domain_pod num pod) s).1.calls
          ≡ annotate pod.namespace pod.name cfg.annotation_restart_at_key
              (env.format_rfc3339 next)
              (set_answer pod next s)
            ∷ s.calls)
        × (process_scheduled_restart env cfg
              (to_domain_pod num (annotated merge pod (env.format_rfc3339 next)))
              u
            ≡ schedule_eviction env cfg pod.namespace pod.name next
                (record u { world = (env.now u.world).1 }))
  unfolding to_domain_pod
  restart_at_round_trip merge pod next s u m h k filled back early = (
    new_restart_annotated env cfg (to_domain_pod num pod) next s h k,
    coming_restart_scheduled env cfg
        (to_domain_pod num (annotated merge pod (env.format_rfc3339 next))) next u
        (env.format_rfc3339 next, kept, back) early,
  )
    where
      kept :
          lookup cfg.annotation_restart_at_key
            (annotated merge pod (env.format_rfc3339 next)).annotations
          ≡ some (env.format_rfc3339 next)
      kept =
          rw (string_sent (env.format_rfc3339 next) filled)
            (m.sets cfg.annotation_restart_at_key (env.format_rfc3339 next) pod.annotations)
