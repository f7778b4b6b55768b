-- ===== src/Controller/Shutdown.antt =====
-- `Shutdown` of service.go against the goroutines that it waits for, as interleaved steps: the loop
-- of `RunCommand`, the timers of `scheduleEviction` with their callbacks, and `Shutdown` itself. A
-- step is what one goroutine does between two points where another can come in: a section under
-- `timerMu`, a test of `inShutdown`, a call of the port, a `Done`.
pub mod Timers
pub mod Counting
pub mod Draining
pub mod Race
pub mod Returning
use preoomkiller_controller.Common.{
  ℕ, ◌≡◌, String, Bool, true, false, Option, none, some, List, [], ◌∷◌, ◌++◌, if◌then◌else◌,
}
use preoomkiller_controller.Common.Int.{ℤ}
use preoomkiller_controller.Common.Dict.{Dict, lookup}
use preoomkiller_controller.Controller.Platform.{Numbers, Env, Config, Pod}
use preoomkiller_controller.Controller.State.{State, Timer, ret, wg_done, new}
use preoomkiller_controller.Controller.Evict.{evict_pod_command}
use preoomkiller_controller.Controller.Process.{process_pod}
use preoomkiller_controller.Controller.Schedule.{
  send_annotation, schedule_locked, execute_eviction, forget_timer, stop_pending_timers,
}
use preoomkiller_controller.Controller.Reconcile.{enter_loop}
use text.Mathlib.Text.{◌==◌ as str_eq}

-- How far a callback of a timer has come in `runScheduledEviction`: before its test of
-- `inShutdown`, before its eviction, before it forgets its key, before its deferred `Done`.
pub data Phase : Type 0 where
  entered evicting cleaning leaving : Phase

pub record Callback : Type 0 where
  pub key : String
  pub namespace : String
  pub name : String
  pub phase : Phase

-- A call of `scheduleEviction` that has passed its test of `inShutdown`.
pub record Request : Type 0 where
  pub namespace : String
  pub name : String
  pub at : ℤ

-- How far `Shutdown` has come: not called, `inShutdown` set, timers stopped, the loop's end seen,
-- returned nil, and returned an error because its context was done first.
pub data Stage : Type 0 where
  idle stopping waiting waiting_evictions returned gave_up : Stage

-- How far the goroutine of the loop has come: not started; let by the test of `inShutdown` in `Start`;
-- in the loop of `RunCommand`, or past it, which `done` tells.
pub data Loop : Type 0 where
  unstarted admitted looping : Loop

-- `cancelled` says whether the context of `RunCommand` is done. `running` are the callbacks that have begun, and `orphans` the timers that are armed and no longer
-- in the map.
pub record System (World : Type 0) : Type 0 where
  pub state : State World
  pub loop : Loop
  pub cancelled : Bool
  pub running : List Callback
  pub orphans : List Callback
  pub scheduler : Option Request
  pub stage : Stage

unfoldable pub initial : {World : Type 0} → World → System World
unfolding new
initial w = record {
  state = new w;
  loop = unstarted;
  cancelled = false;
  running = [];
  orphans = [];
  scheduler = none;
  stage = idle;
}

-- The timer under the key has fired.
unfoldable pub disarm : String → Dict Timer → Dict Timer
disarm k [] = []
disarm k ((j, t) ∷ m) =
    if str_eq j k then (j, record t { is_armed = false }) ∷ m else (j, t) ∷ disarm k m

abbrev pub callback_of : String → Timer → Callback
callback_of key t = record { key = key; namespace = t.namespace; name = t.name; phase = entered }

-- The armed timer that goes out of the map with its key, if there is one.
abbrev pub orphaned : String → Option Timer → List Callback
orphaned key none = []
orphaned key (some t) = if t.is_armed then callback_of key t ∷ [] else []

abbrev pub after_test : Bool → Phase
after_test true = cleaning
after_test false = evicting

module _ {num : Numbers} (env : Env num) (cfg : Config) where
  open env use {World}

  pub data Step (s : System World) : System World → Type 0 where
    -- `Start`, and the way of `RunCommand` into its loop, where it does not panic
    start : s.loop ≡ unstarted → s.state.in_shutdown ≡ false → Step s (record s { loop = admitted })
    enter :
        s.loop ≡ admitted
        → (enter_loop env cfg s.state).0 ≡ ret tt
        → Step s (record s { state = (enter_loop env cfg s.state).1; loop = looping })
    -- the application: the context of `RunCommand` is done
    cancel : Step s (record s { cancelled = true })
    -- the loop: a call of `scheduleEviction` up to the lock, and under it
    request :
        (r : Request)
        → s.scheduler ≡ none
        → s.state.in_shutdown ≡ false
        → s.loop ≡ looping
        → s.state.done ≡ false
        → Step s (record s { scheduler = some r })
    arm :
        (r : Request)
        → s.scheduler ≡ some r
        → Step s (record s {
          state = (schedule_locked env cfg r.namespace r.name r.at s.state).1;
          scheduler = none;
        })
    -- the loop: a pod against its threshold, the eviction of a missed restart, the write of a
    -- `restart-at` annotation, and the end of the loop, at a done context only
    process :
        (pod : Pod num.Quantity)
        → s.scheduler ≡ none
        → s.loop ≡ looping
        → s.state.done ≡ false
        → Step s (record s { state = (process_pod env cfg pod s.state).1 })
    evict_missed :
        (pod : Pod num.Quantity)
        → s.scheduler ≡ none
        → s.loop ≡ looping
        → s.state.done ≡ false
        → Step s (record s {
          state = (evict_pod_command env cfg pod.namespace pod.name (some pod) s.state).1;
        })
    annotate_next :
        (namespace name key value : String)
        → s.scheduler ≡ none
        → s.loop ≡ looping
        → s.state.done ≡ false
        → Step s (record s { state = (send_annotation env cfg namespace name key value s.state).1 })
    exit_loop :
        s.scheduler ≡ none
        → s.loop ≡ looping
        → s.cancelled ≡ true
        → s.state.done ≡ false
        → Step s (record s { state = record (s.state) { done = true } })
    -- the runtime: a timer fires
    fire :
        (key : String) (t : Timer)
        → lookup key s.state.pending_timers ≡ some t
        → t.is_armed ≡ true
        → Step s (record s {
          state = record (s.state) { pending_timers = disarm key s.state.pending_timers };
          running = callback_of key t ∷ s.running;
        })
    fire_orphan :
        (before : List Callback) (c : Callback) (after : List Callback)
        → s.orphans ≡ before ++ (c ∷ after)
        → Step s (record s { running = c ∷ s.running; orphans = before ++ after })
    -- a callback: its four parts
    test :
        (before : List Callback) (c : Callback) (after : List Callback)
        → s.running ≡ before ++ (c ∷ after)
        → c.phase ≡ entered
        → Step s (record s {
          running = before ++ (record c { phase = after_test s.state.in_shutdown } ∷ after);
        })
    execute :
        (before : List Callback) (c : Callback) (after : List Callback)
        → s.running ≡ before ++ (c ∷ after)
        → c.phase ≡ evicting
        → Step s (record s {
          state = (execute_eviction env cfg c.namespace c.name s.state).1;
          running = before ++ (record c { phase = cleaning } ∷ after);
        })
    clean :
        (before : List Callback) (c : Callback) (after : List Callback)
        → s.running ≡ before ++ (c ∷ after)
        → c.phase ≡ cleaning
        → Step s (record s {
          state = (forget_timer c.key s.state).1;
          running = before ++ (record c { phase = leaving } ∷ after);
          orphans = orphaned c.key (lookup c.key s.state.pending_timers) ++ s.orphans;
        })
    leave :
        (before : List Callback) (c : Callback) (after : List Callback)
        → s.running ≡ before ++ (c ∷ after)
        → c.phase ≡ leaving
        → Step s (record s { state = (wg_done s.state).1; running = before ++ after })
    -- `Shutdown`: the flag, the timers, the end of the loop, and that of the evictions; each of the two
    -- waits may end with the context instead
    begin :
        s.state.in_shutdown ≡ false
        → Step s (record s { state = record (s.state) { in_shutdown = true }; stage = stopping })
    stop :
        s.stage ≡ stopping
        → Step s (record s { state = (stop_pending_timers s.state).1; stage = waiting })
    sees_loop :
        s.stage ≡ waiting → s.state.done ≡ true → Step s (record s { stage = waiting_evictions })
    finish :
        s.stage ≡ waiting_evictions → s.state.in_flight ≡ 0 → Step s (record s { stage = returned })
    gives_up : s.stage ≡ waiting → Step s (record s { stage = gave_up })
    gives_up_evictions : s.stage ≡ waiting_evictions → Step s (record s { stage = gave_up })

  pub data Reach (s : System World) : System World → Type 0 where
    here : Reach s s
    next : {t u : System World} → Reach s t → Step t u → Reach s u
