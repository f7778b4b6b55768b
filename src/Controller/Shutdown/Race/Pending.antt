-- ===== src/Controller/Shutdown/Race/Pending.antt =====
-- A timer of service.go that is armed while `Shutdown` waits: what the steps do to it.
use preoomkiller_controller.Common.{
  ◌∙◌, ap, ◌≡◌, ◌≢◌, refl, suc, ◌≤◌, String, Bool, true, false, ◌⊎◌, inl, inr, Option, none, some,
  List, [], ◌∷◌, ◌++◌, Bool-cases, Option-cases, arith, length,
}
use preoomkiller_controller.Common.Dict.{Dict, lookup, insert, delete, lookup-insert, lookup-delete}
use preoomkiller_controller.Controller.Platform.{Numbers, Env, Config, DrawsBelow}
use preoomkiller_controller.Controller.State.{State, Timer}
use preoomkiller_controller.Controller.Evict.Guard.{evict_pod_command-Keeps}
use preoomkiller_controller.Controller.Process.OverThreshold.{process_pod-Keeps}
use preoomkiller_controller.Controller.Schedule.{
  timer_key, send_annotation, schedule_locked, forget_timer,
}
use preoomkiller_controller.Controller.Schedule.Arming.{
  IsJitter, schedule_locked-Arms, schedule_locked_idle, schedule_locked_flags,
}
use preoomkiller_controller.Controller.Schedule.Stopping.{armed, execute_eviction-Sends}
use preoomkiller_controller.Controller.Reconcile.Flags.{enter_loop_lem}
use preoomkiller_controller.Controller.Shutdown.Timers.{armed-disarm}
use preoomkiller_controller.Controller.Shutdown.Counting.{IsCounted, leave_lem, Step-IsCounted}
use preoomkiller_controller.Controller.Shutdown.{
  Callback, Request, stopping, returned, System, disarm, orphaned, Step, Reach, here, next,
}
use text.Mathlib.Text.{◌==◌ as str_eq}
use text.Mathlib.TextPositions.{eq_refl as str_eq_refl}
use text.Mathlib.TextEquality.{eq_iff}

-- The timer under the key may still fire.
abbrev pub IsArmed : String → Dict Timer → Type 0
IsArmed key m = (t : Timer) × (lookup key m ≡ some t) × (t.is_armed ≡ true)

abbrev pub HasKey : String → List Callback → Type 0
HasKey key [] = ⊥
HasKey key (c ∷ cs) = (c.key ≡ key) ⊎ HasKey key cs

-- A timer of the key is armed, in the map or out of it.
abbrev pub IsPending : {World : Type 0} → String → System World → Type 0
IsPending key s = IsArmed key s.state.pending_timers ⊎ HasKey key s.orphans

-- `Shutdown` has stopped the timers and has not returned nil, and a timer of the key is armed.
pub record Waits {World : Type 0} (key : String) (s : System World) : Type 0 where
  pub shut : s.state.in_shutdown ≡ true
  pub not_stopping : s.stage ≢ stopping
  pub not_returned : s.stage ≢ returned
  pub pending : IsPending key s

HasKey-append : (key : String) (cs ds : List Callback) → HasKey key ds → HasKey key (cs ++ ds)
HasKey-append key [] ds h = h
HasKey-append key (c ∷ cs) ds h = inr (HasKey-append key cs ds h)

-- Taking out one entry takes out its key only.
HasKey-remove :
    (key : String) (before : List Callback) (c : Callback) (after : List Callback)
    → HasKey key (before ++ (c ∷ after))
    → HasKey key (before ++ after) ⊎ (c.key ≡ key)
HasKey-remove key [] c after (inl h) = inr h
HasKey-remove key [] c after (inr h) = inl h
HasKey-remove key (b ∷ before) c after (inl h) = inl (inl h)
HasKey-remove key (b ∷ before) c after (inr h) = elim (HasKey-remove key before c after h) [
  | inl k ↦ inl (inr k)
  | inr k ↦ inr k
]

HasKey-length : (key : String) (cs : List Callback) → HasKey key cs → 1 ≤ length cs
HasKey-length key [] h = absurd h
HasKey-length key (c ∷ cs) h = omega arith

lookup-disarm :
    (k j : String) (m : Dict Timer) → str_eq k j ≡ false → lookup j (disarm k m) ≡ lookup j m
unfolding lookup disarm
lookup-disarm k j [] h = refl
lookup-disarm k j ((i, t) ∷ m) h =
    ground (arith, eq_iff k j, eq_iff i k, eq_iff i j, lookup-disarm k j m h)

disarm-IsArmed :
    (k key : String) (m : Dict Timer) → IsArmed key m → IsArmed key (disarm k m) ⊎ (k ≡ key)
disarm-IsArmed k key m (t, found, on) = elim (Bool-cases (str_eq k key)) [
  | inl same ↦ inr (ground (arith, eq_iff k key))
  | inr other ↦ inl (t, lookup-disarm k key m other ∙ found, on)
]

insert-IsArmed :
    (k key : String) (new : Timer) (m : Dict Timer)
    → lookup k m ≡ none
    → IsArmed key m
    → IsArmed key (insert k new m)
insert-IsArmed k key new m absent (t, found, on) =
    (t, ground (arith, lookup-insert k key new m, eq_iff k key, absent, found), on)

pub IsArmed-insert :
    (k : String) (new : Timer) (m : Dict Timer) → new.is_armed ≡ true → IsArmed k (insert k new m)
IsArmed-insert k new m on = (new, rw (lookup-insert, str_eq_refl) refl, on)

-- Deleting a key leaves an armed timer of it as an orphan.
delete_pending :
    (key k : String) (m : Dict Timer) (orphans : List Callback)
    → IsArmed key m ⊎ HasKey key orphans
    → IsArmed key (delete k m) ⊎ HasKey key (orphaned k (lookup k m) ++ orphans)
delete_pending key k m orphans (inr h) = inr (HasKey-append key (orphaned k (lookup k m)) _ h)
delete_pending key k m orphans (inl (timer, found, on)) = elim (Bool-cases (str_eq k key)) [
  | inl same ↦ let e : k ≡ key = ground (arith, eq_iff k key) in inr (rw (e, found, on) (inl refl))
  | inr other ↦ inl (timer, lookup-delete k key m ∙ (rw other found), on)
]

module _ {World : Type 0} where
  same-Waits :
      (key : String) (s t : System World)
      → t.state.in_shutdown ≡ s.state.in_shutdown
      → t.state.pending_timers ≡ s.state.pending_timers
      → t.orphans ≡ s.orphans
      → t.stage ≡ s.stage
      → Waits key s
      → Waits key t
  same-Waits key s t d m o g v = record {
    shut = d ∙ v.shut;
    not_stopping = λ h. v.not_stopping (cc g);
    not_returned = λ h. v.not_returned (cc g);
    pending = rw (m, o) v.pending;
  }

  -- An armed timer is in the wait group.
  pending_counts :
      (key : String) (s : System World) → IsCounted s → IsPending key s → 1 ≤ s.state.in_flight
  pending_counts key s c (inl (t, found, on)) =
      omega (arith, armed-disarm key t _ found on, c.counted)
  pending_counts key s c (inr h) = omega (arith, HasKey-length key s.orphans h, c.counted)

module _ {num : Numbers} (env : Env num) (cfg : Config) where
  open env use {World}

  -- A step at which a timer of the key fires.
  abbrev pub IsFiring : String → {s t : System World} → Step env cfg s t → Type 0
  IsFiring key (Step.fire k t found on) = k ≡ key
  IsFiring key (Step.fire_orphan before c after e) = c.key ≡ key
  IsFiring key st = ⊥

  -- A timer of the key fires on the way.
  abbrev pub FiresIn : String → {s t : System World} → Reach env cfg s t → Type 0
  FiresIn key here = ⊥
  FiresIn key (next r st) = FiresIn key r ⊎ IsFiring key st

module _ {num : Numbers} (env : Env num) (cfg : Config) (draws : DrawsBelow env)
    (jitter : IsJitter env cfg) where
  open env use {World}

  locked-IsArmed :
      (key : String) (r : Request) (s : State World)
      → IsArmed key s.pending_timers
      → IsArmed key (schedule_locked env cfg r.namespace r.name r.at s).1.pending_timers
  locked-IsArmed key r s (t, found, on) =
      elim (Option-cases (lookup (timer_key r.namespace r.name) s.pending_timers)) [
        | inr (u, present) ↦
            rw (schedule_locked_idle env cfg r.namespace r.name r.at s u present) (t, found, on)
        | inl absent ↦
            let a =
              (schedule_locked-Arms env cfg r.namespace r.name r.at s draws jitter absent).1 in
            rw a.armed (insert-IsArmed _ key _ s.pending_timers absent (t, found, on))
      ]

  arm-Waits :
      (key : String) (s : System World) (r : Request)
      → Waits key s
      → Waits key (record s {
        state = (schedule_locked env cfg r.namespace r.name r.at s.state).1;
        scheduler = none;
      })
  arm-Waits key s r v = record {
    shut = (schedule_locked_flags env cfg r.namespace r.name r.at s.state).1 ∙ v.shut;
    not_stopping = v.not_stopping;
    not_returned = v.not_returned;
    pending = elim v.pending [ inl h ↦ inl (locked-IsArmed key r s.state h) | inr h ↦ inr h ];
  }

  -- No step takes an armed timer away but its firing, once `Shutdown` has stopped the timers.
  Step-Waits :
      (key : String) {s t : System World} (st : Step env cfg s t)
      → IsCounted s
      → Waits key s
      → Waits key t ⊎ IsFiring env cfg key st
  unfolding send_annotation forget_timer
  Step-Waits key {s} (Step.start e f) c v = inl (same-Waits key s _ refl refl refl refl v)
  Step-Waits key {s} (Step.enter e f) c v =
      let (timers, _, _, shut, _) = enter_loop_lem env cfg s.state in
      inl (same-Waits key s _ shut timers refl refl v)
  Step-Waits key {s} Step.cancel c v = inl (same-Waits key s _ refl refl refl refl v)
  Step-Waits key {s} (Step.request r e f l g) c v = inl (same-Waits key s _ refl refl refl refl v)
  Step-Waits key {s} (Step.arm r e) c v = inl (arm-Waits key s r v)
  Step-Waits key {s} (Step.process pod e l f) c v =
      let k = process_pod-Keeps env cfg pod s.state in
      inl (same-Waits key s _ k.same_shutdown k.same_timers refl refl v)
  Step-Waits key {s} (Step.evict_missed pod e l f) c v =
      let k = evict_pod_command-Keeps env cfg pod.namespace pod.name (some pod) s.state in
      inl (same-Waits key s _ k.same_shutdown k.same_timers refl refl v)
  Step-Waits key {s} (Step.annotate_next n m j x e l f) c v =
      inl (same-Waits key s _ refl refl refl refl v)
  Step-Waits key {s} (Step.exit_loop e l d f) c v = inl (same-Waits key s _ refl refl refl refl v)
  Step-Waits key {s} (Step.fire k t found on) c v = elim v.pending [
    | inl h ↦ elim (disarm-IsArmed k key s.state.pending_timers h) [
      | inl kept ↦ inl (record {
        shut = v.shut;
        not_stopping = v.not_stopping;
        not_returned = v.not_returned;
        pending = inl kept;
      })
      | inr same ↦ inr same
    ]
    | inr h ↦ inl (record {
      shut = v.shut;
      not_stopping = v.not_stopping;
      not_returned = v.not_returned;
      pending = inr h;
    })
  ]
  Step-Waits key {s} (Step.fire_orphan before d after e) c v = elim v.pending [
    | inl h ↦ inl (record {
      shut = v.shut;
      not_stopping = v.not_stopping;
      not_returned = v.not_returned;
      pending = inl h;
    })
    | inr h ↦ elim (HasKey-remove key before d after (rw e at h)) [
      | inl kept ↦ inl (record {
        shut = v.shut;
        not_stopping = v.not_stopping;
        not_returned = v.not_returned;
        pending = inr kept;
      })
      | inr same ↦ inr same
    ]
  ]
  Step-Waits key {s} (Step.test before d after e f) c v =
      inl (same-Waits key s _ refl refl refl refl v)
  Step-Waits key {s} (Step.execute before d after e f) c v =
      let k = (execute_eviction-Sends env cfg d.namespace d.name s.state).2 in
      inl (same-Waits key s _ k.same_shutdown k.same_timers refl refl v)
  Step-Waits key {s} (Step.clean before d after e f) c v = inl (record {
    shut = v.shut;
    not_stopping = v.not_stopping;
    not_returned = v.not_returned;
    pending = delete_pending key d.key s.state.pending_timers s.orphans v.pending;
  })
  Step-Waits key {s} (Step.leave before d after e f) c v =
      rw (leave_lem s before d after e c) (inl (same-Waits key s _ refl refl refl refl v))
  Step-Waits key {s} (Step.begin e) c v = absurd (cc (v.shut))
  Step-Waits key {s} (Step.stop e) c v = absurd (v.not_stopping e)
  Step-Waits key {s} (Step.sees_loop e f) c v = inl (record {
    shut = v.shut;
    not_stopping = λ h. absurd (cc);
    not_returned = λ h. absurd (cc);
    pending = v.pending;
  })
  Step-Waits key {s} (Step.finish e f) c v =
      absurd (omega (arith, pending_counts key s c v.pending, f))
  Step-Waits key {s} (Step.gives_up e) c v = inl (record {
    shut = v.shut;
    not_stopping = λ h. absurd (cc);
    not_returned = λ h. absurd (cc);
    pending = v.pending;
  })
  Step-Waits key {s} (Step.gives_up_evictions e) c v = inl (record {
    shut = v.shut;
    not_stopping = λ h. absurd (cc);
    not_returned = λ h. absurd (cc);
    pending = v.pending;
  })

  pub Reach-Waits :
      (key : String) {s t : System World} (path : Reach env cfg s t)
      → IsCounted s
      → Waits key s
      → IsCounted t × (Waits key t ⊎ FiresIn env cfg key path)
  Reach-Waits key here c v = (c, inl v)
  Reach-Waits key (next path st) c v =
      let (d, u) = Reach-Waits key path c v in
      (
        Step-IsCounted env cfg draws jitter st d,
        elim u [
          | inl w ↦ elim (Step-Waits key st d w) [ inl x ↦ inl x | inr x ↦ inr (inr x) ]
          | inr fired ↦ inr (inl fired)
        ],
      )
