-- ===== src/App.antt =====
-- The startup of internal/app/app.go: `startServices` and the end of `waitForReady`, over the application
-- state and the registry of pingers.
pub mod Startup
pub mod Channels
pub mod Run
pub mod Entry
pub mod Servers
mod Examples
use preoomkiller_controller.Common.{String, Option, none, some, List, [], ◌∷◌}
use preoomkiller_controller.Common.Error.{Error, wrap}
use preoomkiller_controller.Shutdown.{Shutdowner}
use preoomkiller_controller.AppState.{
  AppState, Host, register_shutdowner, set_starting, set_running,
}
use preoomkiller_controller.Pinger.Service.{Pinger, Service, register}

-- `appServer`: a component that is started, pinged and shut down.
pub record AppServer (World : Type 0) : Type 0 where
  pub start : World → Option Error × World
  pub shutdowner : Shutdowner World
  pub pinger : Pinger

pub record App (World : Type 0) : Type 0 where
  pub http_server : AppServer World
  pub metrics_server : AppServer World
  pub controller : AppServer World

pub record AppSystem (World : Type 0) : Type 0 where
  pub state : AppState World
  pub registry : Service
  pub world : World

module _ {World : Type 0} where
  registered : Option Error × Service → AppSystem World → Option Error × AppSystem World
  registered (some e, registry) s =
      (some (wrap "register pinger" e), record s { registry = registry })
  registered (none, registry) s = (none, record s { registry = registry })

  started :
      AppServer World → Option Error × World → AppSystem World → Option Error × AppSystem World
  unfolding registered
  started server (some e, w) s = (some (wrap "start" e), record s { world = w })
  started server (none, w) s =
      registered (register (some server.pinger) s.registry)
        (record s { state = register_shutdowner server.shutdowner s.state; world = w })

  -- `startHTTPServer`, `startMetricsServer` and `startController`, which differ in their texts alone.
  -- `RegisterShutdowner` never fails.
  unfoldable pub start_server : AppServer World → AppSystem World → Option Error × AppSystem World
  unfolding started
  start_server server s = started server (server.start s.world) s

  start_all : List (AppServer World) → AppSystem World → Option Error × AppSystem World
  start_all [] s = (none, s)
  start_all (server ∷ servers) s =
      let (answer, t) = start_server server s in
      elim answer [ none ↦ start_all servers t | some e ↦ (some (wrap "start server" e), t) ]

  marked :
      Option Error × AppState World → App World → AppSystem World → Option Error × AppSystem World
  unfolding start_all
  marked (some e, state) app s =
      (some (wrap "set starting application state" e), record s { state = state })
  marked (none, state) app s =
      start_all (app.http_server ∷ app.metrics_server ∷ app.controller ∷ [])
        (record s { state = state })

  -- `startServices`; the goroutine of `HandleSignals` only cancels the context.
  unfoldable pub start_services : App World → AppSystem World → Option Error × AppSystem World
  unfolding marked
  start_services app s = marked (set_starting s.state) app s
