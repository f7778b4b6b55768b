-- ===== src/App/Servers/Startup.antt =====
-- When the startup of internal/app/app.go succeeds with the servers of internal/httpserver.
use preoomkiller_controller.Common.{◌≡◌, ◌↔◌, String, Option, none, arith}
use Prim.Native.String.{◌++◌}
use preoomkiller_controller.Common.Int.{ℤ}
use preoomkiller_controller.Common.Dict.{lookup, insert}
use preoomkiller_controller.Common.Error.{Error}
use preoomkiller_controller.Shutdown.{Shutdowner}
use preoomkiller_controller.AppState.{new, set_starting, set_state}
use preoomkiller_controller.Pinger.Service.{new_service, register}
use preoomkiller_controller.HttpServer.{
  Network, new_http_server, new_metrics_server, start_http_server, start_metrics_server,
}
use preoomkiller_controller.App.{AppSystem, start_server, start_services}
use preoomkiller_controller.App.Servers.{Site, app_of}

module _ {World : Type 0} (network : Network World) where
  -- A new application with servers on these ports.
  abbrev pub new_system : ℤ → String → String → World → AppSystem (Site World)
  new_system start http_port metrics_port w = record {
    state = new start;
    registry = new_service;
    world = record {
      http = new_http_server http_port;
      metrics = new_metrics_server metrics_port;
      rest = w;
    };
  }

  abbrev pub http_listen : String → World → Option Error × World
  http_listen port w = network.listen (":" ++ (new_http_server port).port) w

  abbrev pub metrics_listen : String → World → Option Error × World
  metrics_listen port w = network.listen (":" ++ (new_metrics_server port).port) w

  -- `startServices` of a new application succeeds exactly if the HTTP server can listen, then the
  -- metrics server can, and then the controller starts: no registration of a component fails, since the
  -- names of the three differ and no server is in its shutdown yet.
  pub start_services_iff :
      (start : ℤ) (http_port metrics_port : String) (w : World)
      (controller : World → Option Error × World) (shutdowner : Shutdowner World)
      → ((start_services
            (app_of network controller shutdowner)
            (new_system start http_port metrics_port w)).0
          ≡ none)
        ↔ (((http_listen http_port w).0 ≡ none)
            × ((metrics_listen metrics_port (http_listen http_port w).1).0 ≡ none)
            × ((controller (metrics_listen metrics_port (http_listen http_port w).1).1).0 ≡ none))
  unfolding start_services start_server set_starting set_state new start_http_server
      start_metrics_server register lookup insert
  start_services_iff start http_port metrics_port w controller shutdowner = ground arith
