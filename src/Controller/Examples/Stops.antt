-- ===== src/Controller/Examples/Stops.antt =====
-- Histories of the service of the testbed that end in a shutdown.
use preoomkiller_controller.Common.{ℕ, ◌+◌, ◌≡◌, ◌≢◌, ◌⊎◌, refl, true, some, [], arith, length}
use preoomkiller_controller.Common.Int.{pos, add64, wrap64, ◌+ℤ◌}
use preoomkiller_controller.Common.Dict.{lookup}
use preoomkiller_controller.Controller.State.{State, Timer, ret, new}
use preoomkiller_controller.Controller.Schedule.{timer_key, schedule_locked, stop_pending_timers}
use preoomkiller_controller.Controller.Schedule.Stopping.{armed}
use preoomkiller_controller.Controller.Shutdown.Counting.{IsCounted, wait_group_counts}
use preoomkiller_controller.Controller.Shutdown.Draining.{shutdown_drained}
use preoomkiller_controller.Controller.Shutdown.Race.{overtake, armed_after_stop}
use preoomkiller_controller.Controller.Shutdown.Race.Pending.{IsArmed, IsPending, FiresIn}
use preoomkiller_controller.Controller.Reconcile.{enter_loop, set_last_reconcile_end_time}
use preoomkiller_controller.Controller.Shutdown.{
  Request, looping, stopping, waiting, waiting_evictions, returned, System, initial, Step, Reach,
  here, next,
}
use preoomkiller_controller.Controller.Examples.Testbed.{env, config, draws}

abbrev restart : Request
restart = record { namespace = "apps"; name = "nightly"; at = pos 500 }

-- The loop has been entered.
abbrev entered_loop : System ℕ
entered_loop = record (initial 100) {
  state = (enter_loop env config (initial 100).state).1;
  loop = looping;
}

entering : Reach env config (initial 100) entered_loop
unfolding initial new enter_loop set_last_reconcile_end_time
entering = next (next here (Step.start refl refl)) (Step.enter refl refl)

abbrev asked : System ℕ
asked = record entered_loop { scheduler = some restart }

asking : Reach env config (initial 100) asked
unfolding initial new enter_loop set_last_reconcile_end_time
asking = next entering (Step.request restart refl refl refl refl)

wait_group_counts_example :
    (asked.state.in_flight
      ≡ armed asked.state.pending_timers + length asked.orphans + length asked.running)
    × ((stop_pending_timers asked.state).0 ≡ ret tt)
    × ((stop_pending_timers asked.state).1.pending_timers ≡ [])
wait_group_counts_example = wait_group_counts env config draws (omega arith) 100 {s = asked} asking

abbrev scheduled : State ℕ
scheduled = (schedule_locked env config "apps" "nightly" (pos 500) asked.state).1

asked-IsCounted : IsCounted asked
unfolding initial new enter_loop set_last_reconcile_end_time
asked-IsCounted = record { distinct = tt; counted = refl }

-- The loop goes on to its end, and `Shutdown` to its wait for the evictions.
abbrev loop_seen : System ℕ
loop_seen =
    let t = overtake env config restart asked in
    record t {
      state = record (t.state) { done = true };
      cancelled = true;
      stage = waiting_evictions;
    }

seeing : Reach env config (overtake env config restart asked) loop_seen
unfolding initial new enter_loop set_last_reconcile_end_time stop_pending_timers schedule_locked
    overtake lookup add64 wrap64 ◌+ℤ◌
seeing =
    next (next (next here Step.cancel) (Step.exit_loop refl refl refl refl))
      (Step.sees_loop refl refl)

armed_after_stop_example :
    Reach env config asked (overtake env config restart asked)
    × ((overtake env config restart asked).stage ≡ waiting)
    × ((overtake env config restart asked).state.in_shutdown ≡ true)
    × IsArmed "apps/nightly" (overtake env config restart asked).state.pending_timers
    × ((IsPending "apps/nightly" loop_seen × (loop_seen.stage ≢ returned))
        ⊎ FiresIn env config "apps/nightly" seeing)
unfolding initial new enter_loop set_last_reconcile_end_time
armed_after_stop_example =
    armed_after_stop env config draws (omega arith) asked restart {u = loop_seen} asked-IsCounted
      refl refl seeing

-- A shutdown with nothing to wait for but the loop.
abbrev begun : System ℕ
begun = record entered_loop {
  state = record (entered_loop.state) { done = true; in_shutdown = true };
  cancelled = true;
  stage = stopping;
}

abbrev ended : System ℕ
ended = record begun { state = (stop_pending_timers begun.state).1; stage = returned }

ending : Reach env config (initial 100) ended
unfolding initial new enter_loop set_last_reconcile_end_time stop_pending_timers
ending =
    next
      (next
        (next
          (next (next (next entering Step.cancel) (Step.exit_loop refl refl refl refl))
            (Step.begin refl))
          (Step.stop refl))
        (Step.sees_loop refl refl))
      (Step.finish refl refl)

shutdown_drained_example :
    (ended.state.done ≡ true)
    × (ended.running ≡ [])
    × (ended.orphans ≡ [])
    × (armed ended.state.pending_timers ≡ 0)
    × (ended.state.calls ≡ ended.state.calls)
shutdown_drained_example =
    shutdown_drained env config draws (omega arith) 100 {s = ended} {t = ended} ending refl here

-- A shutdown that overtakes a call of `scheduleEviction`, with the context of the loop done.
abbrev overtaken : System ℕ
overtaken = record asked {
  state = (stop_pending_timers (record (asked.state) { in_shutdown = true })).1;
  cancelled = true;
  stage = waiting;
}
