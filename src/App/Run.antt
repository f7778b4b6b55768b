-- ===== src/App/Run.antt =====
-- `Run` of internal/app/app.go with what it calls: `initialize`, `waitForReady`, `runUntilShutdown` and
-- `Shutdown`; and `HandleSignals` of internal/infra/shutdown/shutdown.go, which cancels its context.
pub mod Starting
pub mod Ends
use preoomkiller_controller.Common.{Bool, true, false, Option, none, some}
use preoomkiller_controller.Common.Error.{Error, message, wrap}
use preoomkiller_controller.Shutdown.{check_termination}
use preoomkiller_controller.AppState.{AppState, Host, set_running, shutdown}
use preoomkiller_controller.App.{App, AppSystem, start_services}

-- The system as `Run` meets it. `ctx_done` is a `select` on the context with a default. `wait_all_ready`
-- is the `select` of `waitForReady`, and answers true if it takes the done context. `wait_done` is the
-- wait of `runUntilShutdown`; the other goroutines run meanwhile, so `HandleSignals` cancels the
-- context in one of these two. `cancel` is the deferred call.
pub record Program (World : Type 0) : Type 0 where
  pub host : Host World
  pub ctx_done : World → Bool × World
  pub wait_all_ready : World → Bool × World
  pub wait_done : World → World
  pub cancel : World → World

-- `HandleSignals`, from the case that its `select` takes: true for the done context.
abbrev pub handle_signals : {World : Type 0} → (World → World) → Bool → World → World
handle_signals cancel true w = w
handle_signals cancel false w = cancel w

module _ {World : Type 0} (program : Program World) where
  open program use {host}

  -- `CheckTermination` looks for the file only if the context is not done.
  checked : Bool × World → Option Error × World
  checked (true, w) = (check_termination true none, w)
  checked (false, w) = let (answer, w') = host.stat w in (check_termination false answer, w')

  initialized : Option Error × World → Option Error × World
  initialized (some e, w) = (some (wrap "check termination" e), w)
  initialized (none, w) = (none, w)

  unfoldable pub initialize : World → Option Error × World
  unfolding checked initialized
  initialize w = initialized (checked (program.ctx_done w))

  made_running :
      AppSystem World → Option Error × (AppState World × World) → Option Error × AppSystem World
  made_running s (some e, (state, w)) =
      (some (wrap "set running application state" e), record s { state = state; world = w })
  made_running s (none, (state, w)) = (none, record s { state = state; world = w })

  all_ready : AppSystem World → Bool × World → Option Error × AppSystem World
  unfolding made_running
  all_ready s (true, w) = (some (message "context done"), record s { world = w })
  all_ready s (false, w) = made_running s (set_running host s.state w)

  unfoldable pub wait_for_ready : AppSystem World → Option Error × AppSystem World
  unfolding all_ready
  wait_for_ready s = all_ready s (program.wait_all_ready s.world)

  -- `Shutdown` of the application.
  unfoldable pub shutdown_app : AppSystem World → Option Error × AppSystem World
  shutdown_app s =
      let (answer, (state, w)) = shutdown host s.state s.world in
      (answer, record s { state = state; world = w })

  unfoldable pub run_until_shutdown : AppSystem World → Option Error × AppSystem World
  unfolding shutdown_app
  run_until_shutdown s = shutdown_app (record s { world = program.wait_done s.world })

  run_ready : Option Error × AppSystem World → Option Error × AppSystem World
  run_ready (some e, s) = (some e, s)
  run_ready (none, s) = run_until_shutdown s

  run_started : Option Error × AppSystem World → Option Error × AppSystem World
  unfolding run_ready
  run_started (some e, s) = (some e, s)
  run_started (none, s) = run_ready (wait_for_ready s)

  run_initialized :
      App World → AppSystem World → Option Error × World → Option Error × AppSystem World
  unfolding run_started
  run_initialized app s (some e, w) = (some e, record s { world = w })
  run_initialized app s (none, w) =
      let (answer, t) = run_started (start_services app (record s { world = w })) in
      (answer, record t { world = program.cancel t.world })

  -- `Run`.
  unfoldable pub run : App World → AppSystem World → Option Error × AppSystem World
  unfolding run_initialized
  run app s = run_initialized app s (initialize s.world)
