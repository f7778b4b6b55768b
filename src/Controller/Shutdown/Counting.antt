-- ===== src/Controller/Shutdown/Counting.antt =====
-- What the wait group of service.go counts, in every interleaving.
use preoomkiller_controller.Common.{
  ap, suc, ◌+◌, ◌-◌, ◌≡◌, refl, String, true, inl, inr, Option, none, some, List, [], ◌∷◌, ◌++◌,
  Option-cases, arith, length, length-append,
}
use preoomkiller_controller.Common.Dict.{
  lookup, HasDistinctKeys, insert-HasDistinctKeys, delete-HasDistinctKeys,
}
use preoomkiller_controller.Controller.Platform.{Numbers, Env, Config, DrawsBelow}
use preoomkiller_controller.Controller.State.{State, Timer, ret, wg_done, wg_done_of_suc}
use preoomkiller_controller.Controller.Evict.Guard.{Keeps, evict_pod_command-Keeps}
use preoomkiller_controller.Controller.Process.OverThreshold.{process_pod-Keeps}
use preoomkiller_controller.Controller.Schedule.{
  timer_key, send_annotation, schedule_locked, forget_timer, stop_pending_timers,
}
use preoomkiller_controller.Controller.Schedule.Arming.{
  IsJitter, schedule_locked-Arms, schedule_locked_idle,
}
use preoomkiller_controller.Controller.Schedule.Stopping.{
  armed, stop_pending_timers_lem, execute_eviction-Sends,
}
use preoomkiller_controller.Controller.Reconcile.Flags.{enter_loop_lem}
use preoomkiller_controller.Controller.Shutdown.Timers.{
  armed-insert, armed-disarm, armed_at, armed-delete, disarm-HasDistinctKeys,
}
use preoomkiller_controller.Controller.Shutdown.{
  cleaning, leaving, Callback, Request, System, initial, disarm, callback_of, orphaned, after_test,
  Step, Reach, here, next,
}

-- One timer to a key; and the wait group counts each timer that may still fire, in the map or out
-- of it, and each callback that has begun and not ended.
pub record IsCounted {World : Type 0} (s : System World) : Type 0 where
  pub distinct : HasDistinctKeys s.state.pending_timers
  pub counted :
      s.state.in_flight ≡ armed s.state.pending_timers + length s.orphans + length s.running

pub length-orphaned : (k : String) (o : Option Timer) → length (orphaned k o) ≡ armed_at o
length-orphaned k none = refl
length-orphaned k (some t) = ground arith

length-swap :
    (before : List Callback) (c d : Callback) (after : List Callback)
    → length (before ++ (c ∷ after)) ≡ length (before ++ (d ∷ after))
length-swap [] c d after = refl
length-swap (b ∷ before) c d after = omega (arith, length-swap before c d after)

pub length-remove :
    (before : List Callback) (c : Callback) (after : List Callback)
    → length (before ++ (c ∷ after)) ≡ suc (length (before ++ after))
length-remove [] c after = refl
length-remove (b ∷ before) c after = omega (arith, length-remove before c after)

module _ {World : Type 0} where
  keep-IsCounted :
      (s : System World) (t : State World)
      → Keeps s.state t
      → IsCounted s
      → IsCounted (record s { state = t })
  keep-IsCounted s t k v = ground (arith, k.same_timers, k.same_in_flight, v.distinct, v.counted)

module _ {World : Type 0} where
  pub leave_lem :
      (s : System World) (before : List Callback) (c : Callback) (after : List Callback)
      → s.running ≡ before ++ (c ∷ after)
      → IsCounted s
      → wg_done s.state ≡ (
        ret tt,
        record (s.state) {
          in_flight = armed s.state.pending_timers + length s.orphans + length (before ++ after);
        },
      )
  leave_lem s before c after e v =
      wg_done_of_suc s.state (omega (arith, length-remove before c after, ap length e, v.counted))

  pub stop_lem :
      (s : System World)
      → IsCounted s
      → stop_pending_timers s.state ≡ (
        ret tt,
        record (s.state) {
          pending_timers = [];
          in_flight = s.state.in_flight - armed s.state.pending_timers;
        },
      )
  stop_lem s v = stop_pending_timers_lem s.state v.distinct (omega (arith, v.counted))

module _ {num : Numbers} (env : Env num) (cfg : Config) (draws : DrawsBelow env)
    (jitter : IsJitter env cfg) where
  open env use {World}

  arm-IsCounted :
      (s : System World) (r : Request)
      → IsCounted s
      → IsCounted (record s {
        state = (schedule_locked env cfg r.namespace r.name r.at s.state).1;
        scheduler = none;
      })
  arm-IsCounted s r v =
      elim (Option-cases (lookup (timer_key r.namespace r.name) s.state.pending_timers)) [
        | inr (t, present) ↦
            rw (schedule_locked_idle env cfg r.namespace r.name r.at s.state t present)
              (record { distinct = v.distinct; counted = v.counted })
        | inl absent ↦
            let a =
              (schedule_locked-Arms env cfg r.namespace r.name r.at s.state draws jitter
                absent).1 in
            record {
              distinct = rw a.armed (insert-HasDistinctKeys _ _ _ v.distinct);
              counted =
                  rw (a.armed, a.counted, armed-insert _ _ _ absent) (omega (arith, v.counted));
            }
      ]

  fire-IsCounted :
      (s : System World) (key : String) (t : Timer)
      → lookup key s.state.pending_timers ≡ some t
      → t.is_armed ≡ true
      → IsCounted s
      → IsCounted (record s {
        state = record (s.state) { pending_timers = disarm key s.state.pending_timers };
        running = callback_of key t ∷ s.running;
      })
  fire-IsCounted s key t found on v = record {
    distinct = disarm-HasDistinctKeys key _ v.distinct;
    counted = omega (arith, armed-disarm key t _ found on, v.counted);
  }

  -- Every step keeps the count.
  pub Step-IsCounted : {s t : System World} → Step env cfg s t → IsCounted s → IsCounted t
  unfolding send_annotation forget_timer
  Step-IsCounted {s} (Step.start e f) v = record { distinct = v.distinct; counted = v.counted }
  Step-IsCounted {s} (Step.enter e f) v =
      let (timers, count, _, _, _) = enter_loop_lem env cfg s.state in
      ground (arith, timers, count, v.distinct, v.counted)
  Step-IsCounted {s} Step.cancel v = record { distinct = v.distinct; counted = v.counted }
  Step-IsCounted {s} (Step.request r e f l g) v = record {
    distinct = v.distinct;
    counted = v.counted;
  }
  Step-IsCounted {s} (Step.arm r e) v = arm-IsCounted s r v
  Step-IsCounted {s} (Step.process pod e l f) v =
      keep-IsCounted s _ (process_pod-Keeps env cfg pod s.state) v
  Step-IsCounted {s} (Step.evict_missed pod e l f) v =
      keep-IsCounted s _ (evict_pod_command-Keeps env cfg pod.namespace pod.name (some pod) s.state)
        v
  Step-IsCounted {s} (Step.annotate_next namespace name key value e l f) v = record {
    distinct = v.distinct;
    counted = v.counted;
  }
  Step-IsCounted {s} (Step.exit_loop e l c f) v = record {
    distinct = v.distinct;
    counted = v.counted;
  }
  Step-IsCounted {s} (Step.fire key t found on) v = fire-IsCounted s key t found on v
  Step-IsCounted {s} (Step.fire_orphan before c after e) v = record {
    distinct = v.distinct;
    counted = omega (arith, length-remove before c after, ap length e, v.counted);
  }
  Step-IsCounted {s} (Step.test before c after e f) v = record {
    distinct = v.distinct;
    counted = omega (
      arith,
      length-swap before c (record c { phase = after_test s.state.in_shutdown }) after,
      ap length e,
      v.counted,
    );
  }
  Step-IsCounted {s} (Step.execute before c after e f) v =
      let k = (execute_eviction-Sends env cfg c.namespace c.name s.state).2 in
      record {
        distinct = rw k.same_timers v.distinct;
        counted =
            rw (k.same_timers, k.same_in_flight)
              (omega (
                arith,
                length-swap before c (record c { phase = cleaning }) after,
                ap length e,
                v.counted,
              ));
      }
  Step-IsCounted {s} (Step.clean before c after e f) v = record {
    distinct = delete-HasDistinctKeys c.key _ v.distinct;
    counted = omega (
      arith,
      length-swap before c (record c { phase = leaving }) after,
      length-append (orphaned c.key (lookup c.key s.state.pending_timers)) s.orphans,
      length-orphaned c.key (lookup c.key s.state.pending_timers),
      armed-delete c.key s.state.pending_timers v.distinct,
      ap length e,
      v.counted,
    );
  }
  Step-IsCounted {s} (Step.leave before c after e f) v =
      rw (leave_lem s before c after e v) (record { distinct = v.distinct; counted = refl })
  Step-IsCounted {s} (Step.begin e) v = record { distinct = v.distinct; counted = v.counted }
  Step-IsCounted {s} (Step.stop e) v =
      rw (stop_lem s v) (record { distinct = tt; counted = omega (arith, v.counted) })
  Step-IsCounted {s} (Step.sees_loop e f) v = record { distinct = v.distinct; counted = v.counted }
  Step-IsCounted {s} (Step.finish e f) v = record { distinct = v.distinct; counted = v.counted }
  Step-IsCounted {s} (Step.gives_up e) v = record { distinct = v.distinct; counted = v.counted }
  Step-IsCounted {s} (Step.gives_up_evictions e) v = record {
    distinct = v.distinct;
    counted = v.counted;
  }

  pub Reach-IsCounted : {s t : System World} → IsCounted s → Reach env cfg s t → IsCounted t
  Reach-IsCounted v here = v
  Reach-IsCounted v (next r st) = Step-IsCounted st (Reach-IsCounted v r)

  pub initial-IsCounted : (w : World) → IsCounted (initial w)
  unfolding initial
  initial-IsCounted w = record { distinct = tt; counted = refl }

  -- With a jitter limit that `rand.Int63n` takes, in every interleaving from the new service on: the
  -- wait group counts exactly the timers that may still fire and the callbacks that have begun and
  -- not ended; so no call of `Done` in `stopPendingTimers` panics, which leaves no timer in the map.
  pub wait_group_counts :
      (w : World) {s : System World}
      → Reach env cfg (initial w) s
      → (s.state.in_flight ≡ armed s.state.pending_timers + length s.orphans + length s.running)
        × ((stop_pending_timers s.state).0 ≡ ret tt)
        × ((stop_pending_timers s.state).1.pending_timers ≡ [])
  wait_group_counts w {s} r =
      let v = Reach-IsCounted (initial-IsCounted w) r in
      (v.counted, rw (stop_lem s v), rw (stop_lem s v))

  -- With such a jitter limit, in every interleaving, the deferred `Done` of a callback that is
  -- running does not panic, and takes one off the wait group.
  pub callback_done_returns :
      (w : World) {s : System World} (before : List Callback) (c : Callback) (after : List Callback)
      → Reach env cfg (initial w) s
      → s.running ≡ before ++ (c ∷ after)
      → let (r, t) = wg_done s.state in (r ≡ ret tt) × (suc t.in_flight ≡ s.state.in_flight)
  callback_done_returns w {s} before c after r e =
      let v = Reach-IsCounted (initial-IsCounted w) r in
      rw (leave_lem s before c after e v)
        (refl, omega (arith, v.counted, length-remove before c after, ap length e))
