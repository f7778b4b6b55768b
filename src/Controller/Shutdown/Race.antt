-- ===== src/Controller/Shutdown/Race.antt =====
-- The window in `scheduleEviction` of service.go between its test of `inShutdown` and its lock.
pub mod Pending
use preoomkiller_controller.Common.{
  ◌∙◌, ◌≡◌, ◌≢◌, refl, String, true, false, ◌⊎◌, inl, inr, none, some,
}
use text.Mathlib.TextPositions.{eq_refl as str_eq_refl}
use preoomkiller_controller.Common.Dict.{lookup, lookup-insert}
use preoomkiller_controller.Controller.Platform.{Numbers, Env, Config, DrawsBelow}
use preoomkiller_controller.Controller.Schedule.{timer_key, schedule_locked, stop_pending_timers}
use preoomkiller_controller.Controller.Schedule.Arming.{
  IsJitter, Arms, schedule_locked-Arms, schedule_locked_flags,
}
use preoomkiller_controller.Controller.Shutdown.Counting.{IsCounted, stop_lem, Reach-IsCounted}
use preoomkiller_controller.Controller.Shutdown.{
  Request, stopping, waiting, returned, System, Step, Reach, here, next,
}
use preoomkiller_controller.Controller.Shutdown.Race.Pending.{
  IsArmed, IsArmed-insert, IsPending, FiresIn, Waits, Reach-Waits,
}

module _ {World : Type 0} where
  begun : System World → System World
  begun s = record s { state = record (s.state) { in_shutdown = true }; stage = stopping }

  stopped : System World → System World
  unfolding begun
  stopped s = record (begun s) { state = (stop_pending_timers (begun s).state).1; stage = waiting }

module _ {World : Type 0} where
  begun-IsCounted : (s : System World) → IsCounted s → IsCounted (begun s)
  unfolding begun
  begun-IsCounted s v = record { distinct = v.distinct; counted = v.counted }

module _ {num : Numbers} (env : Env num) (cfg : Config) where
  open env use {World}

  -- After the flag and the stop of the timers, the call of `scheduleEviction` that was overtaken has gone on.
  unfoldable pub overtake : Request → System World → System World
  unfolding stopped
  overtake r s = record (stopped s) {
    state = (schedule_locked env cfg r.namespace r.name r.at (stopped s).state).1;
    scheduler = none;
  }

module _ {num : Numbers} (env : Env num) (cfg : Config) (draws : DrawsBelow env)
    (jitter : IsJitter env cfg) where
  open env use {World}

  stopped-Arms :
      (s : System World) (r : Request)
      → IsCounted s
      → Arms env cfg r.namespace r.name r.at (stopped s).state (overtake env cfg r s).state
  unfolding stopped overtake
  stopped-Arms s r v =
      (schedule_locked-Arms env cfg r.namespace r.name r.at (stopped s).state draws jitter
        (rw (stop_lem (begun s) (begun-IsCounted s v)) (unfold lookup in refl))).1

  overtake-Reach :
      (s : System World) (r : Request)
      → s.scheduler ≡ some r
      → s.state.in_shutdown ≡ false
      → Reach env cfg s (overtake env cfg r s)
  unfolding begun stopped overtake
  overtake-Reach s r e f = next (next (next here (Step.begin f)) (Step.stop refl)) (Step.arm r e)

  overtake-IsCounted :
      (s : System World) (r : Request)
      → IsCounted s
      → s.scheduler ≡ some r
      → s.state.in_shutdown ≡ false
      → IsCounted (overtake env cfg r s)
  overtake-IsCounted s r v e f = Reach-IsCounted env cfg draws jitter v (overtake-Reach s r e f)

  overtake-IsArmed :
      (s : System World) (r : Request)
      → IsCounted s
      → IsArmed (timer_key r.namespace r.name) (overtake env cfg r s).state.pending_timers
  overtake-IsArmed s r v =
      rw (stopped-Arms s r v).armed (IsArmed-insert _ _ (stopped s).state.pending_timers refl)

  overtake-Waits :
      (s : System World) (r : Request)
      → IsCounted s
      → Waits (timer_key r.namespace r.name) (overtake env cfg r s)
  unfolding begun stopped overtake
  overtake-Waits s r v = record {
    shut =
        (schedule_locked_flags env cfg r.namespace r.name r.at (stopped s).state).1
        ∙ rw (stop_lem (begun s) (begun-IsCounted s v)) refl;
    not_stopping = λ h. absurd (cc);
    not_returned = λ h. absurd (cc);
    pending = inl (overtake-IsArmed s r v);
  }

  -- If the loop has passed the test of `inShutdown` for a pod and not yet taken the lock, `Shutdown`
  -- can set its flag and stop the timers in between, and the loop then arms a timer for the pod, while
  -- `Shutdown` waits with the flag set. Nothing stops that timer: whatever steps follow, until a timer
  -- of the pod has fired, one stays armed, and `Shutdown` does not return nil.
  pub armed_after_stop :
      (s : System World) (r : Request) {u : System World}
      → IsCounted s
      → s.scheduler ≡ some r
      → s.state.in_shutdown ≡ false
      → (path : Reach env cfg (overtake env cfg r s) u)
      → let key = timer_key r.namespace r.name in
        let t = overtake env cfg r s in
        Reach env cfg s t
        × (t.stage ≡ waiting)
        × (t.state.in_shutdown ≡ true)
        × IsArmed key t.state.pending_timers
        × ((IsPending key u × (u.stage ≢ returned)) ⊎ FiresIn env cfg key path)
  armed_after_stop s r {u} v e f path =
      let w = overtake-Waits s r v in
      (
        overtake-Reach s r e f,
        unfold overtake stopped in refl,
        w.shut,
        overtake-IsArmed s r v,
        elim (Reach-Waits env cfg draws jitter key path (overtake-IsCounted s r v e f) w).1 [
          | inl k ↦ inl (k.pending, k.not_returned)
          | inr fired ↦ inr fired
        ],
      )
    where
      key : String
      key = timer_key r.namespace r.name
