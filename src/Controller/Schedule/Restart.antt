-- ===== src/Controller/Schedule/Restart.antt =====
-- `processScheduledRestart` and `handleExistingRestartAt` of service.go: what a pod's annotations
-- lead to.
use preoomkiller_controller.Common.{
  ◌≡◌, refl, String, ◌⊎◌, inl, inr, Option, none, some, ◌∷◌, Bool-cases, arith,
}
use preoomkiller_controller.Common.Int.{ℤ, ◌<ℤ◌, ◌≤ℤ◌, ltb_ℤ}
use preoomkiller_controller.Common.Dict.{lookup}
use preoomkiller_controller.Common.Error.{Error, Result, ok, err}
use preoomkiller_controller.Controller.Platform.{Numbers, Env, Config, Pod}
use preoomkiller_controller.Controller.State.{State, evict, annotate, ret}
use preoomkiller_controller.Controller.Evict.{evict_pod_command}
use preoomkiller_controller.Controller.Evict.Guard.{evict_pod_command-Sends}
use preoomkiller_controller.Controller.Schedule.{
  value_of, schedule_eviction, schedule_locked, handle_existing_restart_at, reschedule,
  process_scheduled_restart, set_restart_at,
}

module _ {num : Numbers} (env : Env num) (cfg : Config) where
  open env use {World}
  open num use {Quantity}

  pub schedule_eviction-calls :
      (namespace name : String) (at : ℤ) (s : State World)
      → (schedule_eviction env cfg namespace name at s).1.calls ≡ s.calls
  unfolding schedule_eviction schedule_locked
  schedule_eviction-calls namespace name at s = ground arith

  -- The pod's `restart-at` annotation reads as this time.
  abbrev pub HasRestartAt : Pod Quantity → ℤ → Type 0
  HasRestartAt pod at =
      (text : String) × (lookup cfg.annotation_restart_at_key pod.annotations ≡ some text)
      × (env.parse_rfc3339 text ≡ ok at)

  -- The next run of the pod's cron expression after a time.
  abbrev pub NextRun : Pod Quantity → ℤ → ℤ → Type 0
  NextRun pod now next =
      env.next_after (value_of (lookup cfg.annotation_restart_schedule_key pod.annotations))
        (value_of (lookup cfg.annotation_tz_key pod.annotations)) now
      ≡ ok next

  -- A pod whose `restart-at` is still to come at the time of the call is only handed to
  -- `scheduleEviction` for that time: nothing is sent to the cluster, the annotation is not written
  -- again, and the cron expression is not read.
  pub coming_restart_scheduled :
      (pod : Pod Quantity) (at : ℤ) (s : State World)
      → HasRestartAt pod at
      → (env.now s.world).0 <ℤ at
      → let w = record s { world = (env.now s.world).1 } in
        process_scheduled_restart env cfg pod s
        ≡ schedule_eviction env cfg pod.namespace pod.name at w
  unfolding process_scheduled_restart handle_existing_restart_at
  coming_restart_scheduled pod at s (text, e, f) h = ground arith

  -- The restart was due while the service did not see it: the pod is older than it.
  abbrev pub IsMissed : Pod Quantity → ℤ → State World → Type 0
  IsMissed pod at s = (at ≤ℤ (env.now s.world).0) × (pod.created_at <ℤ at)

  -- A missed restart is an eviction at once, of the pod as it was listed, under the age guard of
  -- `evictPodCommand`: the state is as that call leaves it, and it ends with no panic.
  pub missed_restart_evicts :
      (pod : Pod Quantity) (at : ℤ) (s : State World)
      → HasRestartAt pod at
      → IsMissed pod at s
      → let w = record s { world = (env.now s.world).1 } in
        process_scheduled_restart env cfg pod s
        ≡ (ret tt, (evict_pod_command env cfg pod.namespace pod.name (some pod) w).1)
  unfolding process_scheduled_restart handle_existing_restart_at
  missed_restart_evicts pod at s (text, e, f) h =
      elim (evict_pod_command-Sends env cfg pod.namespace pod.name (some pod)
        (record s { world = (env.now s.world).1 })) [
          | inl nothing ↦ ground arith
          | inr (a, g, k, l) ↦ ground arith
        ]

  -- One command to write the pod's next run under the `restart-at` key.
  abbrev pub Annotates : Pod Quantity → State World → State World → Type 0
  Annotates pod s t =
      (now : ℤ) × (next : ℤ) × (a : Option Error) × NextRun pod now next
      × (t.calls
          ≡ annotate pod.namespace pod.name cfg.annotation_restart_at_key (env.format_rfc3339 next)
              a
            ∷ s.calls)

  set_restart_at-Annotates :
      (pod : Pod Quantity) (now : ℤ) (s t : State World) (next : Result ℤ)
      → env.next_after
          (value_of (lookup cfg.annotation_restart_schedule_key pod.annotations))
          (value_of (lookup cfg.annotation_tz_key pod.annotations))
          now
        ≡ next
      → t.calls ≡ s.calls
      → let u = (set_restart_at env cfg pod next t).1 in (u.calls ≡ s.calls) ⊎ Annotates pod s u
  unfolding set_restart_at
  set_restart_at-Annotates pod now s t (err e) h c = inl c
  set_restart_at-Annotates pod now s t (ok next) h c = inr (
    now,
    next,
    answer.0,
    h,
    ground (arith, schedule_eviction-calls pod.namespace pod.name next sent),
  )
    where
      answer : Option Error × World
      answer =
          env.set_annotation_command pod.namespace pod.name cfg.annotation_restart_at_key
            (env.format_rfc3339 next) t.world

      sent : State World
      sent = record t {
        world = answer.1;
        calls =
            annotate pod.namespace pod.name cfg.annotation_restart_at_key (env.format_rfc3339 next)
              answer.0
            ∷ t.calls;
      }

  reschedule-Annotates :
      (pod : Pod Quantity) (s t : State World)
      → t.calls ≡ s.calls
      → let u = (reschedule env cfg pod t).1 in (u.calls ≡ s.calls) ⊎ Annotates pod s u
  unfolding reschedule
  reschedule-Annotates pod s t c =
      set_restart_at-Annotates pod (env.now t.world).0 s (record t { world = (env.now t.world).1 })
        _ refl c

  -- One eviction sent for a restart that was missed.
  abbrev pub EvictsMissed : Pod Quantity → State World → State World → Type 0
  EvictsMissed pod s t =
      (at : ℤ) × (a : Option Error) × HasRestartAt pod at
      × IsMissed pod at s
      × (t.calls ≡ evict pod.namespace pod.name a ∷ s.calls)

  abbrev RestartCalls : Pod Quantity → State World → State World → Type 0
  RestartCalls pod s t = (t.calls ≡ s.calls) ⊎ (EvictsMissed pod s t ⊎ Annotates pod s t)

  rescheduled :
      (pod : Pod Quantity) (s t : State World)
      → t.calls ≡ s.calls
      → RestartCalls pod s (reschedule env cfg pod t).1
  rescheduled pod s t c = elim (reschedule-Annotates pod s t c) [
    | inl e ↦ inl e
    | inr e ↦ inr (inr e)
  ]

  missed_calls :
      (pod : Pod Quantity) (at : ℤ) (s : State World)
      → HasRestartAt pod at
      → IsMissed pod at s
      → RestartCalls pod s (process_scheduled_restart env cfg pod s).1
  missed_calls pod at s h m =
      rw (missed_restart_evicts pod at s h m)
        (elim (evict_pod_command-Sends env cfg pod.namespace pod.name (some pod)
          (record s { world = (env.now s.world).1 })) [
            | inl nothing ↦ inl nothing.0
            | inr (a, e, r, k) ↦ inr (inl (at, a, h, m, e))
          ])

  coming_calls :
      (pod : Pod Quantity) (at : ℤ) (s : State World)
      → HasRestartAt pod at
      → (env.now s.world).0 <ℤ at
      → RestartCalls pod s (process_scheduled_restart env cfg pod s).1
  coming_calls pod at s h k = rw (coming_restart_scheduled pod at s h k) (
      inl (
        schedule_eviction-calls pod.namespace pod.name at
          (record s { world = (env.now s.world).1 })))

  stale_calls :
      (pod : Pod Quantity) (at : ℤ) (s : State World)
      → HasRestartAt pod at
      → at ≤ℤ (env.now s.world).0
      → at ≤ℤ pod.created_at
      → RestartCalls pod s (process_scheduled_restart env cfg pod s).1
  unfolding process_scheduled_restart handle_existing_restart_at
  stale_calls pod at s (text, e, f) h k =
      ground (arith, rescheduled pod s (record s { world = (env.now s.world).1 }) refl)

  parsed_calls :
      (pod : Pod Quantity) (text : String) (s : State World) (parsed : Result ℤ)
      → lookup cfg.annotation_restart_at_key pod.annotations ≡ some text
      → env.parse_rfc3339 text ≡ parsed
      → RestartCalls pod s (process_scheduled_restart env cfg pod s).1
  unfolding process_scheduled_restart handle_existing_restart_at
  parsed_calls pod text s (err e) h k = ground (arith, rescheduled pod s s refl)
  parsed_calls pod text s (ok at) h k = elim (Bool-cases (ltb_ℤ (env.now s.world).0 at)) [
    | inl coming ↦ coming_calls pod at s (text, h, k) (ground arith)
    | inr due ↦ elim (Bool-cases (ltb_ℤ pod.created_at at)) [
      | inl older ↦ missed_calls pod at s (text, h, k) (ground arith)
      | inr newer ↦ stale_calls pod at s (text, h, k) (ground arith) (ground arith)
    ]
  ]

  RestartCalls-of :
      (pod : Pod Quantity) (s : State World) (value : Option String)
      → lookup cfg.annotation_restart_at_key pod.annotations ≡ value
      → RestartCalls pod s (process_scheduled_restart env cfg pod s).1
  unfolding process_scheduled_restart
  RestartCalls-of pod s none h = ground (arith, rescheduled pod s s refl)
  RestartCalls-of pod s (some text) h = parsed_calls pod text s _ h refl

  -- `processScheduledRestart` sends one command at most, and it is about this pod: an eviction, if
  -- its `restart-at` reads as a time that has come and that the pod is older than; or its next run,
  -- as the cron parser gives it, written under the `restart-at` key.
  pub process_scheduled_restart_calls :
      (pod : Pod Quantity) (s : State World)
      → let t = (process_scheduled_restart env cfg pod s).1 in
        (t.calls ≡ s.calls) ⊎ (EvictsMissed pod s t ⊎ Annotates pod s t)
  process_scheduled_restart_calls pod s = RestartCalls-of pod s _ refl
