-- ===== src/Controller/Schedule.antt =====
-- The scheduled restarts of service.go: `processScheduledRestart`, `handleExistingRestartAt`,
-- `scheduleEviction`, `runScheduledEviction` and `stopPendingTimers`.
pub mod Arming
pub mod Flags
pub mod Restart
pub mod Annotating
pub mod Total
pub mod Stopping
use preoomkiller_controller.Common.{
  ℕ, suc, zero, String, Bool, true, false, Option, none, some, List, [], ◌∷◌, if◌then◌else◌,
}
use preoomkiller_controller.Common.Int.{ℤ, pos, negsuc, ltb_ℤ, add64, sub_time}
use preoomkiller_controller.Common.Dict.{Dict, lookup, insert, delete}
use preoomkiller_controller.Common.Error.{Error, Result, ok, err}
use preoomkiller_controller.Controller.Platform.{Numbers, Env, Config, Pod}
use preoomkiller_controller.Controller.State.{
  State, Timer, Call, annotate, Action, ◌>>=◌, ◌>>◌, pure, fail, gets, modify, ask, wg_add, wg_done,
}
use preoomkiller_controller.Controller.Evict.{evict_pod_command}
use Prim.Native.String.{◌++◌}

-- `namespace + "/" + name`
abbrev pub timer_key : String → String → String
timer_key namespace name = namespace ++ "/" ++ name

-- A read of a map of strings: the zero value "" where the key is missing.
abbrev pub value_of : Option String → String
value_of none = ""
value_of (some v) = v

-- `max(d, 0)`
abbrev pub at_least_zero : ℤ → ℤ
at_least_zero (pos n) = pos n
at_least_zero (negsuc n) = pos 0

module _ {World : Type 0} where
  -- `delete(s.pendingTimers, key)` under the lock
  unfoldable pub forget_timer : String → Action World (Unit {0})
  forget_timer key = modify λ s. record s { pending_timers = delete key s.pending_timers }

  -- One turn of the loop of `stopPendingTimers`; `timer.Stop()` tells if it came before the fire.
  stop_timer : Bool → Action World (Unit {0})
  stop_timer true = wg_done
  stop_timer false = pure tt

  stop_timers : Dict Timer → Action World (Unit {0})
  unfolding stop_timer forget_timer
  stop_timers [] = pure tt
  stop_timers ((key, timer) ∷ timers) = do
    stop_timer timer.is_armed
    forget_timer key
    stop_timers timers

  -- The loop ranges over the map that it deletes from, each key once.
  unfoldable pub stop_pending_timers : Action World (Unit {0})
  unfolding stop_timers
  stop_pending_timers s = stop_timers s.pending_timers s

module _ {num : Numbers} (env : Env num) (cfg : Config) where
  open env use {World}
  open num use {Quantity}

  -- `rand.Int63n(n)`, which panics unless `n` is positive.
  draw_below : ℤ → Action World ℤ
  draw_below (pos zero) = fail
  draw_below (pos (suc n)) = ask (env.int63n (suc n)) >>= λ r. pure (pos r)
  draw_below (negsuc n) = fail

  arm_timer : String → String → ℤ → Action World (Unit {0})
  unfolding draw_below
  arm_timer namespace name at = do
    now ← ask env.now
    let delay = at_least_zero (sub_time at now)
    jitter ← draw_below (add64 cfg.jitter_max (pos 1))
    wg_add
    let timer : Timer = record {
      namespace = namespace;
      name = name;
      delay = add64 delay jitter;
      is_armed = true;
    }
    modify
        λ s. record s { pending_timers = insert (timer_key namespace name) timer s.pending_timers }

  arm_if_absent : String → String → ℤ → Option Timer → Action World (Unit {0})
  unfolding arm_timer
  arm_if_absent namespace name at (some timer) = pure tt
  arm_if_absent namespace name at none = arm_timer namespace name at

  -- The part of `scheduleEviction` that holds the lock.
  unfoldable pub schedule_locked : String → String → ℤ → Action World (Unit {0})
  unfolding arm_if_absent
  schedule_locked namespace name at =
      gets (λ s. lookup (timer_key namespace name) s.pending_timers)
      >>= arm_if_absent namespace name at

  unfoldable pub schedule_eviction : String → String → ℤ → Action World (Unit {0})
  schedule_eviction namespace name at = do
    stopping ← gets (λ s. s.in_shutdown)
    if stopping then pure tt else schedule_locked namespace name at

  -- The result of the eviction is logged, and goes nowhere else.
  unfoldable pub execute_eviction : String → String → Action World (Unit {0})
  execute_eviction namespace name = evict_pod_command env cfg namespace name none >> pure tt

  -- The callback of the timer; the deferred `Done` comes last.
  unfoldable pub run_scheduled_eviction : String → String → String → Action World (Unit {0})
  run_scheduled_eviction key namespace name = do
    stopping ← gets (λ s. s.in_shutdown)
    (if stopping then pure tt else execute_eviction namespace name)
    forget_timer key
    wg_done

  handle_parsed_restart_at : Pod Quantity → Result ℤ → Action World Bool
  handle_parsed_restart_at pod (err e) = pure false
  handle_parsed_restart_at pod (ok at) = do
    now ← ask env.now
    if ltb_ℤ now at
        then schedule_eviction pod.namespace pod.name at >> pure true
        else (if ltb_ℤ pod.created_at at
            then evict_pod_command env cfg pod.namespace pod.name (some pod) >> pure true
            else pure false)

  unfoldable pub handle_existing_restart_at : Pod Quantity → String → Action World Bool
  unfolding handle_parsed_restart_at
  handle_existing_restart_at pod text = handle_parsed_restart_at pod (env.parse_rfc3339 text)

  -- `repo.SetAnnotationCommand`, logged.
  unfoldable pub send_annotation : String → String → String → String → Action World (Option Error)
  send_annotation namespace name key value = do
    answer ← ask (env.set_annotation_command namespace name key value)
    modify λ s. record s { calls = annotate namespace name key value answer ∷ s.calls }
    pure answer

  schedule_if_set : Pod Quantity → ℤ → Option Error → Action World (Unit {0})
  schedule_if_set pod next (some e) = pure tt
  schedule_if_set pod next none = schedule_eviction pod.namespace pod.name next

  set_restart_at : Pod Quantity → Result ℤ → Action World (Unit {0})
  unfolding send_annotation schedule_if_set
  set_restart_at pod (err e) = pure tt
  set_restart_at pod (ok next) =
      send_annotation pod.namespace pod.name cfg.annotation_restart_at_key (env.format_rfc3339 next)
      >>= schedule_if_set pod next

  -- The part of `processScheduledRestart` that computes the next run from the cron expression.
  unfoldable pub reschedule : Pod Quantity → Action World (Unit {0})
  unfolding set_restart_at
  reschedule pod = do
    now ← ask env.now
    let spec = value_of (lookup cfg.annotation_restart_schedule_key pod.annotations)
    let tz = value_of (lookup cfg.annotation_tz_key pod.annotations)
    set_restart_at pod (env.next_after spec tz now)

  restart_from : Pod Quantity → Option String → Action World (Unit {0})
  restart_from pod none = reschedule pod
  restart_from pod (some text) = do
    handled ← handle_existing_restart_at pod text
    if handled then pure tt else reschedule pod

  unfoldable pub process_scheduled_restart : Pod Quantity → Action World (Unit {0})
  unfolding restart_from
  process_scheduled_restart pod =
      restart_from pod (lookup cfg.annotation_restart_at_key pod.annotations)
