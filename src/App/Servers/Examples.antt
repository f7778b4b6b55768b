-- ===== src/App/Servers/Examples.antt =====
-- The program with its servers, over a network that lists what it is asked.
use preoomkiller_controller.Common.{◌≡◌, ◌↔◌, String, Option, none, List, [], ◌∷◌}
use preoomkiller_controller.Common.Int.{pos}
use preoomkiller_controller.Common.Error.{Error}
use preoomkiller_controller.Shutdown.{Shutdowner}
use preoomkiller_controller.HttpServer.{Network}
use preoomkiller_controller.App.{start_services}
use preoomkiller_controller.App.Servers.{app_of}
use preoomkiller_controller.App.Servers.Startup.{
  new_system, http_listen, metrics_listen, start_services_iff,
}

abbrev network : Network (List String)
network = record {
  listen = λ addr w. (none, addr ∷ w);
  shutdown = λ s w. (none, "closed" ∷ s.addr ∷ w);
}

abbrev start_controller : List String → Option Error × List String
start_controller w = (none, "controller" ∷ w)

abbrev controller : Shutdowner (List String)
controller = record { name = "preoomkiller-controller"; shutdown = λ w. (none, "stopped" ∷ w) }

start_services_iff_example :
    ((start_services
        (app_of network start_controller controller)
        (new_system network (pos 1) "" "9100" [])).0
      ≡ none)
    ↔ (((http_listen network "" []).0 ≡ none)
        × ((metrics_listen network "9100" (":8080" ∷ [])).0 ≡ none)
        × ((start_controller (":9100" ∷ ":8080" ∷ [])).0 ≡ none))
start_services_iff_example =
    start_services_iff network (pos 1) "" "9100" [] start_controller controller
