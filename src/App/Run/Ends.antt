-- ===== src/App/Run/Ends.antt =====
-- How a `Run` of internal/app/app.go ends, on each of its branches.
use preoomkiller_controller.Common.{
  ◌≡◌, ◌≢◌, refl, ap, ◌∙◌, ◌⊎◌, inl, inr, Bool, true, false, Option, none, some, List, [], ◌∷◌,
  ◌++◌, arith,
}
use mathlib.Core.Path.{subst}
use preoomkiller_controller.Common.Int.{ℤ}
use preoomkiller_controller.Common.Error.{Error, Sentinel}
use preoomkiller_controller.Shutdown.{Shutdowner}
use preoomkiller_controller.Shutdown.Order.{backwards, in_turn, graceful_shutdown-in_turn}
use preoomkiller_controller.AppState.{
  init, starting, running, terminating, terminated, AppState, new, set_running, shutdown, is_ready,
}
use preoomkiller_controller.AppState.Ending.{shutdown_lem, set_running_ready}
use preoomkiller_controller.Pinger.Service.{Service}
use preoomkiller_controller.App.{App, AppSystem, start_services}
use preoomkiller_controller.App.Startup.{start_services-shutdowners}
use preoomkiller_controller.App.Run.{
  Program, initialize, made_running, all_ready, wait_for_ready, shutdown_app, run_until_shutdown,
  run_ready, run_started, run_initialized, run,
}
use preoomkiller_controller.App.Run.Starting.{
  IsStarting, fresh, start_services-IsStarting, set_running-IsStarting,
}

module _ {World : Type 0} (program : Program World) where
  open program use {host}

  -- Every one of these components has been shut down once, in turn, and the answer and the phase tell
  -- whether one of them failed.
  pub record HasShutDown (cs : List (Shutdowner World)) (w : World) (answer : Option Error)
      (state : AppState World) (after : World) : Type 0 where
    pub all_called : after ≡ (in_turn cs w).1
    pub ending :
        (((in_turn cs w).0 ≡ []) × (answer ≡ none) × (state.phase ≡ terminated))
        ⊎ (((in_turn cs w).0 ≢ []) × (answer ≢ none) × (state.phase ≡ terminating))

  shutdown-HasShutDown :
      (s : AppState World) (w : World)
      → s.phase ≢ terminated
      → HasShutDown
          (backwards s.shutdowners)
          (host.now w).1
          (shutdown host s w).0
          (shutdown host s w).1.0
          (shutdown host s w).1.1
  shutdown-HasShutDown s w h =
      let (called, ends) = shutdown_lem host s w h in
      let (turn, fine, is) =
        graceful_shutdown-in_turn s.shutdowners (host.now w).1 Sentinel.already_terminated in
      record {
        all_called = called ∙ turn;
        ending = elim ends [
          | inl (none_failed, answer, phase) ↦ inl (fine.0 none_failed, answer, phase)
          | inr (e, failed, answer, phase) ↦ inr ((λ k. cc (failed, fine.1 k)), cc (answer), phase)
        ];
      }

  -- `waitForReady` of an application that is starting.
  abbrev Readied : AppSystem World → Option Error × AppSystem World → Type 0
  Readied s (answer, t) =
      ((answer ≢ none) × IsStarting t.state)
      ⊎ ((answer ≡ none)
          × (t.state.phase ≡ running)
          × (t.state.shutdowners ≡ s.state.shutdowners ++ (host.pinger ∷ [])))

  set_running-Readied :
      (s : AppSystem World) (w : World)
      → IsStarting s.state
      → Readied s (made_running program s (set_running host s.state w))
  unfolding made_running
  set_running-Readied s w v =
      split (set_running host s.state w) (λ e h. set_running-IsStarting host s.state w e h v)
        (set_running_ready host s.state w)
    where
      split :
          (r : Option Error × (AppState World × World))
          → ((e : Error) → r.0 ≡ some e → IsStarting r.1.0)
          → (r.0 ≡ none
              → (is_ready r.1.0 ≡ true)
                × (r.1.0.shutdowners ≡ s.state.shutdowners ++ (host.pinger ∷ [])))
          → Readied s (made_running program s r)
      split (some e, (state, w')) bad good = inl ((λ k. cc), bad e refl)
      split (none, (state, w')) bad good = inr (refl, ground (arith, (good refl).0), (good refl).1)

  wait_for_ready-Readied :
      (s : AppSystem World) → IsStarting s.state → Readied s (wait_for_ready program s)
  unfolding wait_for_ready all_ready
  wait_for_ready-Readied s v = split (program.wait_all_ready s.world)
    where
      split : (r : Bool × World) → Readied s (all_ready program s r)
      split (true, w) = inl ((λ k. cc), v)
      split (false, w) = set_running-Readied s w v

  -- The run ends before it is running: with an error, and with no component shut down.
  abbrev pub GivesUp : Option Error × AppSystem World → Type 0
  GivesUp (answer, t) =
      (answer ≢ none)
      × (t.state.terminating_at ≡ none)
      × ((t.state.phase ≡ init) ⊎ (t.state.phase ≡ starting))

  -- The run ends with a shutdown of all the components.
  abbrev pub ShutsDown : App World → Option Error × AppSystem World → Type 0
  ShutsDown app (answer, t) =
      (w : World) × (after : World) × (t.world ≡ program.cancel after)
      × HasShutDown
          (host.pinger ∷ app.controller.shutdowner ∷ app.metrics_server.shutdowner
            ∷ app.http_server.shutdowner ∷ [])
          w answer t.state after

  shutdown-ShutsDown :
      (app : App World) (s : AppSystem World)
      → s.state.phase ≡ running
      → s.state.shutdowners
        ≡ app.http_server.shutdowner ∷ app.metrics_server.shutdowner ∷ app.controller.shutdowner
          ∷ host.pinger ∷ []
      → let (answer, t) = run_until_shutdown program s in
        ShutsDown app (answer, record t { world = program.cancel t.world })
  unfolding run_until_shutdown shutdown_app
  shutdown-ShutsDown app s h k = (
    _,
    _,
    refl,
    subst
        (λ cs.
          HasShutDown cs (host.now (program.wait_done s.world)).1
            (shutdown host s.state (program.wait_done s.world)).0
            (shutdown host s.state (program.wait_done s.world)).1.0
            (shutdown host s.state (program.wait_done s.world)).1.1)
        (ap backwards k)
        (shutdown-HasShutDown s.state (program.wait_done s.world) (λ e. cc (e, h))),
  )

  Ended : App World → Option Error × AppSystem World → Type 0
  Ended app (answer, t) =
      GivesUp (answer, record t { world = program.cancel t.world })
      ⊎ ShutsDown app (answer, record t { world = program.cancel t.world })

  run_ready-Ended :
      (app : App World) (s : AppSystem World) (r : Option Error × AppSystem World)
      → s.state.shutdowners
        ≡ app.http_server.shutdowner ∷ app.metrics_server.shutdowner ∷ app.controller.shutdowner
          ∷ []
      → Readied s r
      → Ended app (run_ready program r)
  unfolding run_ready Ended
  run_ready-Ended app s (some e, t) k (inl (bad, v)) =
      inl ((λ h. cc), v.not_terminating, inr v.phase_starting)
  run_ready-Ended app s (some e, t) k (inr (good, phase, ds)) = absurd cc
  run_ready-Ended app s (none, t) k (inl (bad, v)) = absurd (bad refl)
  run_ready-Ended app s (none, t) k (inr (good, phase, ds)) =
      inr (shutdown-ShutsDown app t phase (ds ∙ ap (λ cs. cs ++ (host.pinger ∷ [])) k))

  run_started-Ended :
      (app : App World) (r : Option Error × AppSystem World)
      → IsStarting r.1.state
      → (r.0 ≡ none
          → r.1.state.shutdowners
            ≡ app.http_server.shutdowner ∷ app.metrics_server.shutdowner ∷ app.controller.shutdowner
              ∷ [])
      → Ended app (run_started program r)
  unfolding run_started Ended
  run_started-Ended app (some e, t) v k = inl ((λ h. cc), v.not_terminating, inr v.phase_starting)
  run_started-Ended app (none, t) v k =
      run_ready-Ended app t (wait_for_ready program t) (k refl) (wait_for_ready-Readied t v)

  -- A run of a new application ends in one of two ways. Either it returns an error out of its startup,
  -- with the phase init or starting and no time of termination, so `SetTerminating` was not called. Or
  -- it has shut down the pinger service, the controller, the metrics server and the HTTP server, each
  -- once and in this order, and then cancelled its context: it returns nil with the phase terminated if
  -- none of them failed, and else an error with the phase terminating.
  pub run_ends :
      (app : App World) (start : ℤ) (registry : Service) (w : World)
      → let r = run program app (fresh start registry w) in GivesUp r ⊎ ShutsDown app r
  unfolding run run_initialized Ended new
  run_ends app start registry w = split (initialize program w)
    where
      split :
          (i : Option Error × World)
          → let r = run_initialized program app (fresh start registry w) i in
            GivesUp r ⊎ ShutsDown app r
      split (some e, w') = inl ((λ h. cc), refl, inl refl)
      split (none, w') =
          run_started-Ended app (start_services app (fresh start registry w'))
            (start_services-IsStarting app start registry w')
            (start_services-shutdowners app (fresh start registry w') refl)
