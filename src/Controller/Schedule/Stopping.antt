-- ===== src/Controller/Schedule/Stopping.antt =====
-- `stopPendingTimers` and `runScheduledEviction` of service.go: how a timer leaves the map, and what
-- it takes off the wait group.
use preoomkiller_controller.Common.{
  ℕ, suc, ◌+◌, ◌-◌, ◌≤◌, ◌<◌, ◌≡◌, refl, String, Bool, true, false, ◌⊎◌, inl, inr, Option, none, [],
  ◌∷◌, Bool-cases, arith,
}
use text.Mathlib.TextEquality.{eq_iff}
use preoomkiller_controller.Common.Dict.{Dict, delete, delete_of_absent, HasDistinctKeys}
use preoomkiller_controller.Common.Error.{Error}
use preoomkiller_controller.Controller.Platform.{Numbers, Env, Config}
use preoomkiller_controller.Controller.State.{State, Timer, evict, ret}
use preoomkiller_controller.Controller.Evict.Guard.{
  Keeps, evict_pod_command-Keeps, evict_pod_command-Sends,
}
use preoomkiller_controller.Controller.Schedule.{
  forget_timer, stop_timers, stop_pending_timers, execute_eviction, run_scheduled_eviction,
}

abbrev pub armed_bit : Bool → ℕ
armed_bit true = 1
armed_bit false = 0

-- The number of timers that may still fire.
abbrev pub armed : Dict Timer → ℕ
armed [] = 0
armed ((k, t) ∷ m) = armed_bit t.is_armed + armed m

module _ {World : Type 0} where
  stop_timers_lem :
      (m : Dict Timer) (s : State World)
      → s.pending_timers ≡ m
      → HasDistinctKeys m
      → armed m ≤ s.in_flight
      → stop_timers m s
        ≡ (ret tt, record s { pending_timers = []; in_flight = s.in_flight - armed m })
  unfolding stop_timers delete
  stop_timers_lem [] s e d h = ground arith
  stop_timers_lem ((k, t) ∷ m) s e d h = ground (
    arith,
    stop_timers_lem m (record s {
      pending_timers = delete k s.pending_timers;
      in_flight = s.in_flight - armed_bit t.is_armed;
    }),
    delete_of_absent k m d.0,
    eq_iff k k,
  )

  -- With one timer to a key, and no more armed timers than the wait group counts,
  -- `stopPendingTimers` does not panic: it empties the map, takes exactly the timers that had not
  -- fired off the wait group, and changes nothing else.
  pub stop_pending_timers_lem :
      (s : State World)
      → HasDistinctKeys s.pending_timers
      → armed s.pending_timers ≤ s.in_flight
      → stop_pending_timers s ≡ (
        ret tt,
        record s { pending_timers = []; in_flight = s.in_flight - armed s.pending_timers },
      )
  unfolding stop_pending_timers
  stop_pending_timers_lem s d h = stop_timers_lem s.pending_timers s refl d h

module _ {num : Numbers} (env : Env num) (cfg : Config) where
  open env use {World}

  -- The eviction of a timer's callback sends one eviction or none.
  abbrev pub SendsAtMost : String → String → State World → State World → Type 0
  SendsAtMost namespace name s t =
      (t.calls ≡ s.calls) ⊎ ((a : Option Error) × (t.calls ≡ evict namespace name a ∷ s.calls))

  pub execute_eviction-Sends :
      (namespace name : String) (s : State World)
      → let (r, t) = execute_eviction env cfg namespace name s in
        (r ≡ ret tt) × SendsAtMost namespace name s t × Keeps s t
  unfolding execute_eviction
  execute_eviction-Sends namespace name s =
      elim (evict_pod_command-Sends env cfg namespace name none s) [
        | inl nothing ↦ (
          ground arith,
          inl (ground arith),
          ground (arith, evict_pod_command-Keeps env cfg namespace name none s),
        )
        | inr (a, e, f, g) ↦ (
          ground arith,
          inr (a, ground arith),
          ground (arith, evict_pod_command-Keeps env cfg namespace name none s),
        )
      ]

  -- What the callback of a timer leaves behind, apart from the calls.
  pub record Finishes (key : String) (s t : State World) : Type 0 where
    pub forgotten : t.pending_timers ≡ delete key s.pending_timers
    pub counted_off : suc t.in_flight ≡ s.in_flight
    pub still : t.in_shutdown ≡ s.in_shutdown

  -- The callback of a timer, run while the wait group counts it, does not panic, takes its key out
  -- of the map, and takes itself off the wait group. It sends no command if the service is
  -- shutting down, and otherwise no more than one eviction, of its own pod.
  pub run_scheduled_eviction_lem :
      (key namespace name : String) (s : State World)
      → 0 < s.in_flight
      → let (r, t) = run_scheduled_eviction env cfg key namespace name s in
        (r ≡ ret tt)
        × Finishes key s t
        × ((t.calls ≡ s.calls)
            ⊎ ((s.in_shutdown ≡ false)
                × ((a : Option Error) × (t.calls ≡ evict namespace name a ∷ s.calls))))
  unfolding run_scheduled_eviction forget_timer
  run_scheduled_eviction_lem key namespace name s h = elim (Bool-cases s.in_shutdown) [
    | inl stopping ↦ (ground arith, ground arith, inl (ground arith))
    | inr going ↦
        let (r, c, k) = execute_eviction-Sends namespace name s in
        (
          ground arith,
          ground arith,
          elim c [ inl e ↦ inl (ground arith) | inr (a, e) ↦ inr (going, (a, ground arith)) ],
        )
  ]
