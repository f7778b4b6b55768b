-- ===== src/Controller/Shutdown/Draining.antt =====
-- What a `Shutdown` of service.go that returns nil has waited for.
use preoomkiller_controller.Common.{
  ◌∙◌, ap, ◌≡◌, ◌≢◌, refl, true, none, some, List, [], arith, length, length-zero,
}
use preoomkiller_controller.Controller.Platform.{Numbers, Env, Config, DrawsBelow}
use preoomkiller_controller.Controller.State.{State}
use preoomkiller_controller.Controller.Evict.Guard.{evict_pod_command-Keeps}
use preoomkiller_controller.Controller.Process.OverThreshold.{process_pod-Keeps}
use preoomkiller_controller.Controller.Schedule.{send_annotation, forget_timer}
use preoomkiller_controller.Controller.Schedule.Arming.{IsJitter, schedule_locked_flags}
use preoomkiller_controller.Controller.Schedule.Stopping.{armed, execute_eviction-Sends}
use preoomkiller_controller.Controller.Reconcile.Flags.{enter_loop_lem}
use preoomkiller_controller.Controller.Shutdown.Counting.{
  IsCounted, length-remove, leave_lem, stop_lem, Step-IsCounted, initial-IsCounted,
}
use preoomkiller_controller.Controller.Shutdown.{
  Callback, idle, waiting_evictions, returned, gave_up, System, initial, Step, Reach, here, next,
}

-- The order of the ends: the loop calls nothing once it is done, and `Shutdown` has set its flag,
-- and returns after the loop's end with an empty wait group.
pub record IsOrdered {World : Type 0} (s : System World) : Type 0 where
  pub loop_ended : s.state.done ≡ true → s.scheduler ≡ none
  pub flagged : s.stage ≢ idle → s.state.in_shutdown ≡ true
  pub seen_done : s.stage ≡ waiting_evictions → s.state.done ≡ true
  pub returned_done : s.stage ≡ returned → s.state.done ≡ true
  pub returned_empty : s.stage ≡ returned → s.state.in_flight ≡ 0

module _ {World : Type 0} where
  keep-IsOrdered :
      (s : System World) (t : State World) (running orphans : List Callback)
      → t.done ≡ s.state.done
      → t.in_shutdown ≡ s.state.in_shutdown
      → t.in_flight ≡ s.state.in_flight
      → IsOrdered s
      → IsOrdered (record s { state = t; running = running; orphans = orphans })
  keep-IsOrdered s t running orphans d i f v = record {
    loop_ended = λ h. v.loop_ended (cc d);
    flagged = λ h. i ∙ v.flagged h;
    seen_done = λ h. d ∙ v.seen_done h;
    returned_done = λ h. d ∙ v.returned_done h;
    returned_empty = λ h. f ∙ v.returned_empty h;
  }

  gave_up-IsOrdered :
      (s : System World) → s.stage ≢ idle → IsOrdered s → IsOrdered (record s { stage = gave_up })
  gave_up-IsOrdered s h v = record {
    loop_ended = v.loop_ended;
    flagged = λ k. v.flagged h;
    seen_done = λ k. absurd (cc);
    returned_done = λ k. absurd (cc);
    returned_empty = λ k. absurd (cc);
  }

module _ {num : Numbers} (env : Env num) (cfg : Config) (draws : DrawsBelow env)
    (jitter : IsJitter env cfg) where
  open env use {World}

  Step-IsOrdered : {s t : System World} → Step env cfg s t → IsCounted s → IsOrdered s → IsOrdered t
  unfolding send_annotation forget_timer
  Step-IsOrdered {s} (Step.start e f) c v = record {
    loop_ended = v.loop_ended;
    flagged = v.flagged;
    seen_done = v.seen_done;
    returned_done = v.returned_done;
    returned_empty = v.returned_empty;
  }
  Step-IsOrdered {s} (Step.enter e f) c v =
      let (_, count, done, stopping, _) = enter_loop_lem env cfg s.state in
      record {
        loop_ended = λ h. v.loop_ended (cc done);
        flagged = λ h. stopping ∙ v.flagged h;
        seen_done = λ h. done ∙ v.seen_done h;
        returned_done = λ h. done ∙ v.returned_done h;
        returned_empty = λ h. count ∙ v.returned_empty h;
      }
  Step-IsOrdered {s} Step.cancel c v = record {
    loop_ended = v.loop_ended;
    flagged = v.flagged;
    seen_done = v.seen_done;
    returned_done = v.returned_done;
    returned_empty = v.returned_empty;
  }
  Step-IsOrdered {s} (Step.request r e f l g) c v = record {
    loop_ended = λ h. absurd (cc);
    flagged = v.flagged;
    seen_done = v.seen_done;
    returned_done = v.returned_done;
    returned_empty = v.returned_empty;
  }
  Step-IsOrdered {s} (Step.arm r e) c v =
      let k = schedule_locked_flags env cfg r.namespace r.name r.at s.state in
      record {
        loop_ended = λ h. refl;
        flagged = λ h. k.1 ∙ v.flagged h;
        seen_done = λ h. k.0 ∙ v.seen_done h;
        returned_done = λ h. k.0 ∙ v.returned_done h;
        returned_empty = λ h. absurd (cc (v.loop_ended (v.returned_done h)));
      }
  Step-IsOrdered {s} (Step.process pod e l f) c v =
      let k = process_pod-Keeps env cfg pod s.state in
      keep-IsOrdered s _ s.running s.orphans k.same_done k.same_shutdown k.same_in_flight v
  Step-IsOrdered {s} (Step.evict_missed pod e l f) c v =
      let k = evict_pod_command-Keeps env cfg pod.namespace pod.name (some pod) s.state in
      keep-IsOrdered s _ s.running s.orphans k.same_done k.same_shutdown k.same_in_flight v
  Step-IsOrdered {s} (Step.annotate_next namespace name key value e l f) c v =
      keep-IsOrdered s _ s.running s.orphans refl refl refl v
  Step-IsOrdered {s} (Step.exit_loop e l d f) c v = record {
    loop_ended = λ h. e;
    flagged = v.flagged;
    seen_done = λ h. refl;
    returned_done = λ h. refl;
    returned_empty = v.returned_empty;
  }
  Step-IsOrdered {s} (Step.fire key t found on) c v =
      keep-IsOrdered s _ _ s.orphans refl refl refl v
  Step-IsOrdered {s} (Step.fire_orphan before d after e) c v =
      keep-IsOrdered s s.state _ _ refl refl refl v
  Step-IsOrdered {s} (Step.test before d after e f) c v =
      keep-IsOrdered s s.state _ s.orphans refl refl refl v
  Step-IsOrdered {s} (Step.execute before d after e f) c v =
      let k = (execute_eviction-Sends env cfg d.namespace d.name s.state).2 in
      keep-IsOrdered s _ _ s.orphans k.same_done k.same_shutdown k.same_in_flight v
  Step-IsOrdered {s} (Step.clean before d after e f) c v = keep-IsOrdered s _ _ _ refl refl refl v
  Step-IsOrdered {s} (Step.leave before d after e f) c v =
      rw (leave_lem s before d after e c) (record {
        loop_ended = v.loop_ended;
        flagged = v.flagged;
        seen_done = v.seen_done;
        returned_done = v.returned_done;
        returned_empty = λ h.
            omega (arith, v.returned_empty h, c.counted, length-remove before d after, ap length e);
      })
  Step-IsOrdered {s} (Step.begin e) c v = record {
    loop_ended = v.loop_ended;
    flagged = λ h. refl;
    seen_done = λ h. cc;
    returned_done = λ h. cc;
    returned_empty = λ h. cc;
  }
  Step-IsOrdered {s} (Step.stop e) c v = rw (stop_lem s c) (record {
    loop_ended = v.loop_ended;
    flagged = λ h. v.flagged (λ i. cc);
    seen_done = λ h. cc;
    returned_done = λ h. cc;
    returned_empty = λ h. cc;
  })
  Step-IsOrdered {s} (Step.sees_loop e f) c v = record {
    loop_ended = v.loop_ended;
    flagged = λ h. v.flagged (λ i. cc);
    seen_done = λ h. f;
    returned_done = λ h. f;
    returned_empty = λ h. absurd (cc);
  }
  Step-IsOrdered {s} (Step.finish e f) c v = record {
    loop_ended = v.loop_ended;
    flagged = λ h. v.flagged (λ i. cc);
    seen_done = λ h. v.seen_done e;
    returned_done = λ h. v.seen_done e;
    returned_empty = λ h. f;
  }
  Step-IsOrdered {s} (Step.gives_up e) c v = gave_up-IsOrdered s (λ i. cc) v
  Step-IsOrdered {s} (Step.gives_up_evictions e) c v = gave_up-IsOrdered s (λ i. cc) v

  abbrev IsSound : System World → Type 0
  IsSound s = IsCounted s × IsOrdered s

  Reach-IsSound : (w : World) {s : System World} → Reach env cfg (initial w) s → IsSound s
  unfolding initial
  Reach-IsSound w here = (
    initial-IsCounted env cfg draws jitter w,
    record {
      loop_ended = λ h. refl;
      flagged = λ h. absurd (h refl);
      seen_done = λ h. cc;
      returned_done = λ h. cc;
      returned_empty = λ h. cc;
    },
  )
  Reach-IsSound w (next r st) =
      let (c, v) = Reach-IsSound w r in
      (Step-IsCounted env cfg draws jitter st c, Step-IsOrdered st c v)

  -- After the return there is nothing to run, and no step is left that calls the cluster.
  Step-quiet :
      {s t : System World}
      → Step env cfg s t
      → IsSound s
      → s.stage ≡ returned
      → (t.stage ≡ returned) × (t.state.calls ≡ s.state.calls)
  unfolding forget_timer
  Step-quiet {s} (Step.start e f) (c, v) h = (h, refl)
  Step-quiet {s} (Step.enter e f) (c, v) h = (h, (enter_loop_lem env cfg s.state).4)
  Step-quiet {s} Step.cancel (c, v) h = (h, refl)
  Step-quiet {s} (Step.request r e f l g) (c, v) h = (h, refl)
  Step-quiet {s} (Step.arm r e) (c, v) h = absurd (cc (v.loop_ended (v.returned_done h)))
  Step-quiet {s} (Step.process pod e l f) (c, v) h = absurd (cc (v.returned_done h))
  Step-quiet {s} (Step.evict_missed pod e l f) (c, v) h = absurd (cc (v.returned_done h))
  Step-quiet {s} (Step.annotate_next n m k x e l f) (c, v) h = absurd (cc (v.returned_done h))
  Step-quiet {s} (Step.exit_loop e l d f) (c, v) h = (h, refl)
  Step-quiet {s} (Step.fire key t found on) (c, v) h = (h, refl)
  Step-quiet {s} (Step.fire_orphan before d after e) (c, v) h = (h, refl)
  Step-quiet {s} (Step.test before d after e f) (c, v) h = (h, refl)
  Step-quiet {s} (Step.execute before d after e f) (c, v) h =
      absurd
        (omega (arith, v.returned_empty h, c.counted, length-remove before d after, ap length e))
  Step-quiet {s} (Step.clean before d after e f) (c, v) h = (h, refl)
  Step-quiet {s} (Step.leave before d after e f) (c, v) h =
      rw (leave_lem s before d after e c) (h, refl)
  Step-quiet {s} (Step.begin e) (c, v) h = absurd (cc (v.flagged (λ i. cc)))
  Step-quiet {s} (Step.stop e) (c, v) h = absurd (cc)
  Step-quiet {s} (Step.sees_loop e f) (c, v) h = absurd (cc)
  Step-quiet {s} (Step.finish e f) (c, v) h = (refl, refl)
  Step-quiet {s} (Step.gives_up e) (c, v) h = absurd (cc)
  Step-quiet {s} (Step.gives_up_evictions e) (c, v) h = absurd (cc)

  Reach-quiet :
      {s t : System World}
      → IsSound s
      → s.stage ≡ returned
      → Reach env cfg s t
      → IsSound t × (t.stage ≡ returned) × (t.state.calls ≡ s.state.calls)
  Reach-quiet v h here = (v, h, refl)
  Reach-quiet v h (next r st) =
      let (u, k, e) = Reach-quiet v h r in
      let (k', e') = Step-quiet st u k in
      ((Step-IsCounted env cfg draws jitter st u.0, Step-IsOrdered st u.0 u.1), k', e' ∙ e)

  -- With a jitter limit that `rand.Int63n` takes, in every interleaving: when `Shutdown` has
  -- returned nil, the loop has ended, no callback is running, and no timer is left that may fire,
  -- in the map or out of it; and whatever happens after, no command is sent to the cluster.
  pub shutdown_drained :
      (w : World) {s t : System World}
      → Reach env cfg (initial w) s
      → s.stage ≡ returned
      → Reach env cfg s t
      → (s.state.done ≡ true)
        × (s.running ≡ [])
        × (s.orphans ≡ [])
        × (armed s.state.pending_timers ≡ 0)
        × (t.state.calls ≡ s.state.calls)
  shutdown_drained w {s} r h r' =
      let (c, v) = Reach-IsSound w r in
      (
        v.returned_done h,
        length-zero s.running (omega (arith, c.counted, v.returned_empty h)),
        length-zero s.orphans (omega (arith, c.counted, v.returned_empty h)),
        omega (arith, c.counted, v.returned_empty h),
        (Reach-quiet (c, v) h r').2,
      )
