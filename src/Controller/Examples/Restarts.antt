-- ===== src/Controller/Examples/Restarts.antt =====
-- Scheduled restarts on the testbed: still to come, missed, and not yet annotated.
use preoomkiller_controller.Common.{
  ℕ, ◌+◌, ◌≤◌, ◌≡◌, refl, true, false, ◌⊎◌, Option, some, [], ◌∷◌, arith,
}
use preoomkiller_controller.Common.Int.{ℤ, pos, max_int64, sub_time, ◌-ℤ◌, ◌+ℤ◌, add64, wrap64}
use preoomkiller_controller.Common.Dict.{lookup, insert}
use preoomkiller_controller.Common.Error.{Error}
use preoomkiller_controller.Controller.Platform.{Config}
use preoomkiller_controller.Controller.State.{State, Timer, evict, ret, panic}
use preoomkiller_controller.Controller.Schedule.{
  timer_key, schedule_eviction, process_scheduled_restart, run_scheduled_eviction, schedule_locked,
  handle_existing_restart_at,
}
use preoomkiller_controller.Controller.Schedule.Arming.{
  wait_until, IsTimely, schedule_eviction_arms, greatest_jitter_panics,
}
use preoomkiller_controller.Controller.Schedule.Stopping.{Finishes, run_scheduled_eviction_lem}
use preoomkiller_controller.Controller.Schedule.Restart.{
  EvictsMissed, Annotates, process_scheduled_restart_calls,
}
use preoomkiller_controller.Controller.Examples.Testbed.{env, config, nightly, at_time, draws}

abbrev nightly_timer : Timer
nightly_timer = record { namespace = "apps"; name = "nightly"; delay = pos 408; is_armed = true }

-- A run of the code: the restart at 500 is armed for 399 from 101 on, with a jitter of 9.
nightly_armed : process_scheduled_restart env config nightly (at_time 100) ≡ (
  ret tt,
  record (at_time 102) { pending_timers = ("apps/nightly", nightly_timer) ∷ []; in_flight = 1 },
)
unfolding process_scheduled_restart lookup handle_existing_restart_at schedule_eviction
    schedule_locked sub_time ◌-ℤ◌ ◌+ℤ◌ add64 wrap64 insert
nightly_armed = refl

schedule_eviction_arms_example :
    let (r, t) = schedule_eviction env config "apps" "nightly" (pos 500) (at_time 100) in
    (delay : ℤ) × (r ≡ ret tt)
    × (t.calls ≡ [])
    × (t.in_flight ≡ 1)
    × (lookup (timer_key "apps" "nightly") t.pending_timers
        ≡ some (record nightly_timer { delay = delay }))
    × ((9_223_372_036_854_775_808 ≤ wait_until env config (pos 500) (at_time 100) + 30)
        ⊎ IsTimely env config (pos 500) (at_time 100) delay)
unfolding lookup
schedule_eviction_arms_example =
    schedule_eviction_arms env config "apps" "nightly" (pos 500) (at_time 100) draws (omega arith)
      refl refl

abbrev greatest : Config
greatest = record config { jitter_max = max_int64 }

greatest_jitter_panics_example :
    (schedule_eviction env greatest "apps" "nightly" (pos 500) (at_time 100)).0 ≡ panic
unfolding lookup
greatest_jitter_panics_example =
    greatest_jitter_panics env greatest "apps" "nightly" (pos 500) (at_time 100) refl refl refl

process_scheduled_restart_calls_example :
    let t = (process_scheduled_restart env config nightly (at_time 600)).1 in
    (t.calls ≡ [])
    ⊎ (EvictsMissed env config nightly (at_time 600) t
        ⊎ Annotates env config nightly (at_time 600) t)
process_scheduled_restart_calls_example =
    process_scheduled_restart_calls env config nightly (at_time 600)

-- One timer armed, and one whose callback is running.
abbrev two_timers : State ℕ
two_timers = record (at_time 102) {
  pending_timers =
      ("apps/nightly", nightly_timer)
      ∷ ("apps/leaky", record nightly_timer { name = "leaky"; is_armed = false })
      ∷ [];
  in_flight = 2;
}

run_scheduled_eviction_lem_example :
    let (r, t) = run_scheduled_eviction env config "apps/leaky" "apps" "leaky" two_timers in
    (r ≡ ret tt)
    × Finishes env config "apps/leaky" two_timers t
    × ((t.calls ≡ [])
        ⊎ ((two_timers.in_shutdown ≡ false)
            × ((a : Option Error) × (t.calls ≡ evict "apps" "leaky" a ∷ []))))
run_scheduled_eviction_lem_example =
    run_scheduled_eviction_lem env config "apps/leaky" "apps" "leaky" two_timers (omega arith)
