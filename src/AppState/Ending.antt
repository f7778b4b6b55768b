-- ===== src/AppState/Ending.antt =====
-- `Shutdown` and `SetRunning` of appstate.go, from call to return.
use preoomkiller_controller.Common.{
  ◌≡◌, ◌≢◌, refl, ◌⊎◌, inl, inr, true, false, ◌++◌, [], ◌∷◌, Option, none, some, Bool-cases, ◌↔◌,
  arith,
}
use preoomkiller_controller.Common.Int.{ℤ}
use preoomkiller_controller.Common.Error.{Error, Sentinel, sentinel, wrap, errors_is}
use preoomkiller_controller.Shutdown.{graceful_shutdown}
use preoomkiller_controller.AppState.{
  starting, terminating, terminated, AppState, Host, set_state, set_terminating, set_running_locked,
  set_running, shutdown, after_shutdown, is_terminated, is_ready,
}

module _ {World : Type 0} (host : Host World) where
  marked :
      (s : AppState World) (now : ℤ)
      → s.phase ≢ terminated
      → set_terminating now s ≡ (none, record s { terminating_at = some now; phase = terminating })
  unfolding set_terminating set_state
  marked s now h = ground arith

  living : (s : AppState World) → s.phase ≢ terminated → is_terminated s.phase ≡ false
  living s h = ground arith

  -- `Shutdown` of an application that is not terminated shuts its components down once, in the world
  -- after its look at the clock. If all of them succeed it returns nil, and the phase is terminated;
  -- if not, it returns their errors under "shutdown", and the phase stays terminating.
  pub shutdown_lem :
      (s : AppState World) (w : World)
      → s.phase ≢ terminated
      → let (answer, (t, w')) = shutdown host s w in
        let (errors, w'') = graceful_shutdown s.shutdowners (host.now w).1 in
        (w' ≡ w'')
        × (((errors ≡ none) × (answer ≡ none) × (t.phase ≡ terminated))
            ⊎ ((e : Error) × (errors ≡ some e)
                × (answer ≡ some (wrap "shutdown" e))
                × (t.phase ≡ terminating)))
  unfolding shutdown
  shutdown_lem s w h =
      rw (living s h, marked s (host.now w).0 h)
        (done (record s { terminating_at = some (host.now w).0; phase = terminating })
          (graceful_shutdown s.shutdowners (host.now w).1) refl)
    where
      done :
          (t : AppState World) (r : Option Error × World)
          → t.phase ≡ terminating
          → let (answer, (u, w')) = after_shutdown t r in
            (w' ≡ r.1)
            × (((r.0 ≡ none) × (answer ≡ none) × (u.phase ≡ terminated))
                ⊎ ((e : Error) × (r.0 ≡ some e)
                    × (answer ≡ some (wrap "shutdown" e))
                    × (u.phase ≡ terminating)))
      done t (none, w') k = (refl, inl (refl, refl, refl))
      done t (some e, w') k = (refl, inr (e, refl, refl, k))

  -- A second `Shutdown`, of an application that is terminated, calls no component, changes nothing, and
  -- returns an error that is `ErrAlreadyTerminated`.
  pub shutdown_again :
      (s : AppState World) (w : World)
      → s.phase ≡ terminated
      → (e : Error) × (shutdown host s w ≡ (some e, (s, w)))
        × (errors_is Sentinel.already_terminated e ≡ true)
  unfolding shutdown set_terminating errors_is
  shutdown_again s w h = (
    wrap "set terminating application state"
        (wrap "set terminating" (sentinel Sentinel.already_terminated)),
    rw h,
    refl,
  )

  -- `SetRunning` returns nil exactly if the pinger service starts, is ready before the context is done,
  -- and the phase is starting at the end.
  pub set_running_iff :
      (s : AppState World) (w : World)
      → ((set_running host s w).0 ≡ none) ↔ (
          ((host.start_pinger w).0 ≡ none)
          × ((host.wait_ready (host.start_pinger w).1).0 ≡ false)
          × (s.phase ≡ starting))
  unfolding set_running set_running_locked set_state
  set_running_iff s w = (
    (λ h. elim (Bool-cases (host.wait_ready (host.start_pinger w).1).0) [
      | inl late ↦ ground (arith, h, late)
      | inr ready ↦ ground (arith, h, ready)
    ]),
    (λ (a, b, c). ground arith),
  )

  -- After a `SetRunning` that returns nil the application is ready, and its pinger service is the last of
  -- the components to shut down, so the first that `Shutdown` calls.
  pub set_running_ready :
      (s : AppState World) (w : World)
      → (set_running host s w).0 ≡ none
      → let t = (set_running host s w).1.0 in
        (is_ready t ≡ true) × (t.shutdowners ≡ s.shutdowners ++ (host.pinger ∷ []))
  unfolding set_running set_running_locked set_state
  set_running_ready s w h =
      let (a, b, c) = (set_running_iff s w).0 h in (ground arith, ground arith)
