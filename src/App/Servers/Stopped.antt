-- ===== src/App/Servers/Stopped.antt =====
-- What a run of internal/app/app.go that ends well leaves of the servers of internal/httpserver.
use preoomkiller_controller.Common.{◌≡◌, true, Option, none, arith}
use preoomkiller_controller.Common.Int.{ℤ}
use preoomkiller_controller.Common.Error.{Error}
use preoomkiller_controller.Shutdown.{Shutdowner}
use preoomkiller_controller.HttpServer.{
  Server, Network, shutdown_http_server, shutdown_metrics_server,
}
use preoomkiller_controller.App.Run.{Program, run}
use preoomkiller_controller.App.Run.Starting.{fresh}
use preoomkiller_controller.Pinger.Service.{new_service}
use preoomkiller_controller.App.Entry.Exit.{run-EndsWell}
use preoomkiller_controller.App.Servers.{Site, app_of, program_of}

module _ {World : Type 0} (network : Network World) where
  shutdown_http_flag :
      (s : Server) (w : World) → (shutdown_http_server network s w).1.0.in_shutdown ≡ true
  unfolding shutdown_http_server
  shutdown_http_flag s w = ground arith

  shutdown_metrics_flag :
      (s : Server) (w : World) → (shutdown_metrics_server network s w).1.0.in_shutdown ≡ true
  unfolding shutdown_metrics_server
  shutdown_metrics_flag s w = ground arith

  -- A run that returns nil has told both servers to shut down: neither would start again.
  pub run_stops_servers :
      (program : Program World) (start_controller : World → Option Error × World)
      (controller : Shutdowner World) (start : ℤ) (site : Site World)
      → (run
          (program_of program)
          (app_of network start_controller controller)
          (fresh start new_service site)).0
        ≡ none
      → let t =
          (run
            (program_of program)
            (app_of network start_controller controller)
            (fresh start new_service site)).1.world in
        (t.http.in_shutdown ≡ true) × (t.metrics.in_shutdown ≡ true)
  run_stops_servers program start_controller controller start site h =
      let v =
        run-EndsWell (app_of network start_controller controller) (program_of program) start site
          h in
      rw v.after (shutdown_http_flag _ _, shutdown_metrics_flag _ _)
