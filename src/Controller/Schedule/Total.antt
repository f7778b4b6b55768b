-- ===== src/Controller/Schedule/Total.antt =====
-- The scheduled restarts of service.go end without a panic, if the jitter limit is one that
-- `rand.Int63n` takes.
use preoomkiller_controller.Common.{
  ◌≡◌, refl, String, Bool, false, inl, inr, Option, none, some, Bool-cases, Option-cases, arith,
}
use preoomkiller_controller.Common.Int.{ℤ}
use preoomkiller_controller.Common.Dict.{lookup}
use preoomkiller_controller.Common.Error.{Error, Result, ok, err}
use preoomkiller_controller.Controller.Platform.{Numbers, Env, Config, Pod, DrawsBelow}
use preoomkiller_controller.Controller.State.{State, ret, ret_of_ne_panic}
use preoomkiller_controller.Controller.Evict.{eviction_result, evict_pod_command}
use preoomkiller_controller.Controller.Evict.Guard.{evict_pod_command-Sends}
use preoomkiller_controller.Controller.Schedule.{
  timer_key, schedule_eviction, schedule_locked, handle_existing_restart_at, reschedule,
  process_scheduled_restart, schedule_if_set, set_restart_at, handle_parsed_restart_at,
  restart_from,
}
use preoomkiller_controller.Controller.Schedule.Arming.{IsJitter, schedule_locked-Arms}

module _ {num : Numbers} (env : Env num) (cfg : Config) (draws : DrawsBelow env)
    (jitter : IsJitter env cfg) where
  open env use {World}
  open num use {Quantity}

  schedule_locked_total :
      (namespace name : String) (at : ℤ) (s : State World)
      → (schedule_locked env cfg namespace name at s).0 ≡ ret tt
  schedule_locked_total namespace name at s =
      elim (Option-cases (lookup (timer_key namespace name) s.pending_timers)) [
        | inl absent ↦ (schedule_locked-Arms env cfg namespace name at s draws jitter absent).0
        | inr (timer, present) ↦ unfold schedule_locked in rw present
      ]

  schedule_eviction_total :
      (namespace name : String) (at : ℤ) (s : State World)
      → (schedule_eviction env cfg namespace name at s).0 ≡ ret tt
  unfolding schedule_eviction
  schedule_eviction_total namespace name at s = elim (Bool-cases s.in_shutdown) [
    | inl stopping ↦ simp stopping
    | inr going ↦ simp going (schedule_locked_total namespace name at s)
  ]

  evict_total :
      (pod : Pod Quantity) (s : State World)
      → (r : Result Bool) × ((evict_pod_command env cfg pod.namespace pod.name (some pod) s).0
          ≡ ret r)
  evict_total pod s = elim (evict_pod_command-Sends env cfg pod.namespace pod.name (some pod) s) [
    | inl nothing ↦ ret_of_ne_panic _ nothing.2
    | inr (a, e, r, k) ↦ (eviction_result a, r)
  ]

  schedule_if_set_total :
      (pod : Pod Quantity) (next : ℤ) (answer : Option Error) (s : State World)
      → (schedule_if_set env cfg pod next answer s).0 ≡ ret tt
  unfolding schedule_if_set
  schedule_if_set_total pod next none s = schedule_eviction_total pod.namespace pod.name next s
  schedule_if_set_total pod next (some e) s = refl

  set_restart_at_total :
      (pod : Pod Quantity) (next : Result ℤ) (s : State World)
      → (set_restart_at env cfg pod next s).0 ≡ ret tt
  unfolding set_restart_at
  set_restart_at_total pod (ok next) s = schedule_if_set_total pod next _ _
  set_restart_at_total pod (err e) s = refl

  reschedule_total : (pod : Pod Quantity) (s : State World) → (reschedule env cfg pod s).0 ≡ ret tt
  unfolding reschedule
  reschedule_total pod s = set_restart_at_total pod _ _

  parsed_total :
      (pod : Pod Quantity) (parsed : Result ℤ) (s : State World)
      → (handled : Bool) × ((handle_parsed_restart_at env cfg pod parsed s).0 ≡ ret handled)
  unfolding handle_parsed_restart_at
  parsed_total pod (err e) s = (false, refl)
  parsed_total pod (ok at) s =
      let w = record s { world = (env.now s.world).1 } in
      ret_of_ne_panic _
        (ground (arith, schedule_eviction_total pod.namespace pod.name at w, (evict_total pod w).1))

  restart_total :
      (pod : Pod Quantity) (value : Option String) (s : State World)
      → (restart_from env cfg pod value s).0 ≡ ret tt
  unfolding restart_from handle_existing_restart_at
  restart_total pod none s = reschedule_total pod s
  restart_total pod (some text) s = ground (
    arith,
    (parsed_total pod (env.parse_rfc3339 text) s).1,
    reschedule_total pod (handle_parsed_restart_at env cfg pod (env.parse_rfc3339 text) s).1,
  )

  pub process_scheduled_restart_total :
      (pod : Pod Quantity) (s : State World) → (process_scheduled_restart env cfg pod s).0 ≡ ret tt
  unfolding process_scheduled_restart
  process_scheduled_restart_total pod s = restart_total pod _ s
