-- ===== src/App/Entry/Examples.antt =====
-- The program in an environment where nothing is set, with clients that know no trouble.
use preoomkiller_controller.Common.{ℕ, ◌≡◌, refl, false, String, List, []}
use preoomkiller_controller.Common.Int.{pos}
use preoomkiller_controller.Common.Dict.{lookup, insert}
use preoomkiller_controller.Common.Error.{ok}
use preoomkiller_controller.Config.{load, parse_duration_env}
use preoomkiller_controller.Config.Examples.{bare, loaded}
use preoomkiller_controller.Controller.State.{State}
use preoomkiller_controller.Controller.Examples.Testbed.{at_time}
use preoomkiller_controller.HttpServer.{new_http_server, new_metrics_server}
use preoomkiller_controller.Shutdown.{graceful_shutdown}
use preoomkiller_controller.AppState.{
  new, set_starting, set_state, set_running, set_running_locked, set_terminating, shutdown,
}
use preoomkiller_controller.Pinger.Service.{register}
use preoomkiller_controller.App.{start_services, start_server}
use preoomkiller_controller.App.Examples.{app, host, program}
use preoomkiller_controller.App.Run.{
  initialize, wait_for_ready, shutdown_app, run_until_shutdown, run,
}
use preoomkiller_controller.App.Entry.{
  Clients, Wiring, Assembly, controller_config, new_app, run_main, answer_of, exit_code,
}
use preoomkiller_controller.App.Entry.Exit.{RunsWell, exit_zero}

abbrev clients : Clients
clients = record {
  KubeConfig = String;
  Clientset = String;
  MetricsClientset = String;
  build_config_from_flags = λ master path. ok path;
  new_clientset = λ kube. ok kube;
  new_metrics_clientset = λ kube. ok kube;
}

abbrev wiring : Wiring clients
wiring = record {
  clientset = "";
  metrics_clientset = "";
  controller = controller_config loaded;
  http_server = new_http_server "9000";
  metrics_server = new_metrics_server "9090";
}

-- The service of the testbed before its loop has begun.
abbrev fresh : State ℕ
fresh = record (at_time 600) { ready = false }

abbrev assembly : Assembly clients (List String)
assembly = record { app = λ wiring. app; program = λ wiring interval. program }

exit_zero_example : RunsWell clients assembly bare (run_main clients assembly bare (pos 1) [])
unfolding load parse_duration_env new_app run_main run initialize start_services wait_for_ready
    run_until_shutdown shutdown_app new start_server set_starting set_state set_running
    set_running_locked set_terminating shutdown graceful_shutdown register lookup insert
exit_zero_example = exit_zero clients assembly bare (pos 1) [] refl

-- A termination file from the start: the exit code is 1.
abbrev refused : Assembly clients (List String)
refused = record {
  app = λ wiring. app;
  program = λ wiring interval. record program { host = host };
}

refused_exit : exit_code (answer_of clients (run_main clients refused bare (pos 1) [])) ≡ 1
unfolding load parse_duration_env new_app run_main run initialize
refused_exit = refl
