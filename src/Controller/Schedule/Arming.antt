-- ===== src/Controller/Schedule/Arming.antt =====
-- How `scheduleEviction` of service.go arms a timer, and how the timers are given up.
use preoomkiller_controller.Common.{
  ℕ, suc, ◌+◌, ◌≤◌, ◌<◌, ◌≡◌, refl, String, true, false, ◌⊎◌, inl, inr, lt-cases, none, some, arith,
}
use preoomkiller_controller.Common.Int.{
  ℤ, pos, negsuc, pos_part, ◌+ℤ◌, ◌≤ℤ◌, ◌<ℤ◌, max_int64, add64, sub_time, wrap64,
}
use preoomkiller_controller.Common.Dict.{lookup, insert, lookup-insert}
use text.Mathlib.TextPositions.{eq_refl as str_eq_refl}
use preoomkiller_controller.Controller.Platform.{Numbers, Env, Config, DrawsBelow}
use preoomkiller_controller.Controller.State.{State, Timer, ret, panic}
use preoomkiller_controller.Controller.Schedule.{
  timer_key, at_least_zero, schedule_locked, schedule_eviction,
}

module _ {num : Numbers} (env : Env num) (cfg : Config) where
  open env use {World}

  -- A jitter that `rand.Int63n(jitterMax + 1)` takes.
  abbrev pub IsJitter : Type 0
  IsJitter = (pos 0 ≤ℤ cfg.jitter_max) × (cfg.jitter_max <ℤ max_int64)

  add64_jitter : (j : ℤ) → pos 0 ≤ℤ j → j <ℤ max_int64 → add64 j (pos 1) ≡ pos (suc (pos_part j))
  unfolding add64 wrap64 ◌+ℤ◌
  add64_jitter (pos n) h k = ground arith
  add64_jitter (negsuc n) h k = absurd (omega arith)

  -- No timer is armed while the service is shutting down, nor a second one under the same key.
  pub schedule_eviction_idle :
      (namespace name : String) (at : ℤ) (s : State World) (timer : Timer)
      → (s.in_shutdown ≡ true) ⊎ (lookup (timer_key namespace name) s.pending_timers ≡ some timer)
      → schedule_eviction env cfg namespace name at s ≡ (ret tt, s)
  unfolding schedule_eviction schedule_locked
  schedule_eviction_idle namespace name at s timer h = ground arith

  pub schedule_locked_idle :
      (namespace name : String) (at : ℤ) (s : State World) (timer : Timer)
      → lookup (timer_key namespace name) s.pending_timers ≡ some timer
      → schedule_locked env cfg namespace name at s ≡ (ret tt, s)
  unfolding schedule_locked
  schedule_locked_idle namespace name at s timer h = ground arith

  pub schedule_locked_flags :
      (namespace name : String) (at : ℤ) (s : State World)
      → let t = (schedule_locked env cfg namespace name at s).1 in
        (t.done ≡ s.done) × (t.in_shutdown ≡ s.in_shutdown) × (t.calls ≡ s.calls)
  unfolding schedule_locked
  schedule_locked_flags namespace name at s = ground arith

  -- What `scheduleEviction` has armed, when it was called at `s` and left `t`.
  pub record Arms (namespace name : String) (at : ℤ) (s t : State World) : Type 0 where
    pub jitter : ℕ
    pub drawn : jitter ≤ pos_part cfg.jitter_max
    pub counted : t.in_flight ≡ suc s.in_flight
    pub armed :
        t.pending_timers
        ≡ insert
            (timer_key namespace name)
            (record {
              namespace = namespace;
              name = name;
              delay = add64 (at_least_zero (sub_time at (env.now s.world).0)) (pos jitter);
              is_armed = true;
            })
            s.pending_timers
    pub silent : t.calls ≡ s.calls

  pub schedule_locked-Arms :
      (namespace name : String) (at : ℤ) (s : State World)
      → DrawsBelow env
      → IsJitter
      → lookup (timer_key namespace name) s.pending_timers ≡ none
      → let (r, t) = schedule_locked env cfg namespace name at s in
        (r ≡ ret tt) × Arms namespace name at s t
  unfolding schedule_locked
  schedule_locked-Arms namespace name at s draws (h, k) absent =
      rw (absent, add64_jitter cfg.jitter_max h k)
        (
          refl,
          record {
            jitter = draw.0;
            drawn =
                omega
                  (arith, draws (suc (pos_part cfg.jitter_max)) (env.now s.world).1 (omega arith));
            counted = refl;
            armed = refl;
            silent = refl;
          },
        )
    where
      draw : ℕ × World
      draw = env.int63n (suc (pos_part cfg.jitter_max)) (env.now s.world).1

  schedule_eviction-Arms :
      (namespace name : String) (at : ℤ) (s : State World)
      → DrawsBelow env
      → IsJitter
      → s.in_shutdown ≡ false
      → lookup (timer_key namespace name) s.pending_timers ≡ none
      → let (r, t) = schedule_eviction env cfg namespace name at s in
        (r ≡ ret tt) × Arms namespace name at s t
  unfolding schedule_eviction
  schedule_eviction-Arms namespace name at s draws j going absent =
      simp going (schedule_locked-Arms namespace name at s draws j absent)

  -- The wait until `at`, none if it is past.
  abbrev pub wait_until : ℤ → State World → ℕ
  wait_until at s = pos_part (sub_time at (env.now s.world).0)

  delay-pos :
      (d : ℤ) (j m : ℕ)
      → j ≤ m
      → pos_part d + m < 9_223_372_036_854_775_808
      → add64 (at_least_zero d) (pos j) ≡ pos (pos_part d + j)
  unfolding add64 wrap64 ◌+ℤ◌
  delay-pos (pos n) j m h k = ground arith
  delay-pos (negsuc n) j m h k = ground arith

  -- The timer fires no earlier than `at` (at once, if `at` is past), and later by at most the jitter limit.
  abbrev pub IsTimely : ℤ → State World → ℤ → Type 0
  IsTimely at s delay =
      (d : ℕ) × (delay ≡ pos d)
      × (wait_until at s ≤ d)
      × (d ≤ wait_until at s + pos_part cfg.jitter_max)

  arms-IsTimely :
      (at : ℤ) (s : State World) (jitter : ℕ)
      → jitter ≤ pos_part cfg.jitter_max
      → let delay = add64 (at_least_zero (sub_time at (env.now s.world).0)) (pos jitter) in
        (9_223_372_036_854_775_808 ≤ wait_until at s + pos_part cfg.jitter_max)
        ⊎ IsTimely at s delay
  arms-IsTimely at s jitter drawn =
      elim (lt-cases (wait_until at s + pos_part cfg.jitter_max) 9_223_372_036_854_775_808) [
        | inl fits ↦ inr (
          wait_until at s + jitter,
          delay-pos (sub_time at (env.now s.world).0) jitter _ drawn fits,
          omega arith,
          omega (arith, drawn),
        )
        | inr over ↦ inl over
      ]

  -- With a jitter limit from 0 up to, and not including, the greatest `int64`, outside a shutdown,
  -- and for a pod with no pending timer, `scheduleEviction` does not panic, sends nothing, adds
  -- one to the wait group, and keeps an armed timer for the pod under its key. Unless the wait until
  -- `at` and the limit overflow an `int64` together, the timer fires no earlier than `at` (at once,
  -- if `at` is past), and later than that by at most the jitter limit.
  pub schedule_eviction_arms :
      (namespace name : String) (at : ℤ) (s : State World)
      → DrawsBelow env
      → IsJitter
      → s.in_shutdown ≡ false
      → lookup (timer_key namespace name) s.pending_timers ≡ none
      → let (r, t) = schedule_eviction env cfg namespace name at s in
        (delay : ℤ) × (r ≡ ret tt)
        × (t.calls ≡ s.calls)
        × (t.in_flight ≡ suc s.in_flight)
        × (lookup (timer_key namespace name) t.pending_timers
            ≡ some (record { namespace = namespace; name = name; delay = delay; is_armed = true }))
        × ((9_223_372_036_854_775_808 ≤ wait_until at s + pos_part cfg.jitter_max)
            ⊎ IsTimely at s delay)
  schedule_eviction_arms namespace name at s draws j going absent =
      let (r, a) = schedule_eviction-Arms namespace name at s draws j going absent in
      (
        add64 (at_least_zero (sub_time at (env.now s.world).0)) (pos a.jitter),
        r,
        a.silent,
        a.counted,
        rw (a.armed, lookup-insert, str_eq_refl) refl,
        arms-IsTimely at s a.jitter a.drawn,
      )

  -- At the greatest jitter limit, `jitterMax + 1` wraps round, and `scheduleEviction` panics in
  -- `rand.Int63n` at the first pod that it would arm a timer for.
  pub greatest_jitter_panics :
      (namespace name : String) (at : ℤ) (s : State World)
      → cfg.jitter_max ≡ max_int64
      → s.in_shutdown ≡ false
      → lookup (timer_key namespace name) s.pending_timers ≡ none
      → (schedule_eviction env cfg namespace name at s).0 ≡ panic
  unfolding schedule_eviction schedule_locked add64 wrap64 ◌+ℤ◌
  greatest_jitter_panics namespace name at s top going absent = rw (going, absent, top)
