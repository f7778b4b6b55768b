-- ===== src/HttpServer/Examples.antt =====
-- Runs of the two servers, over a network that lists what it is asked.
use preoomkiller_controller.Common.{◌≡◌, ◌≢◌, refl, String, true, false, none, some, List, [], ◌∷◌}
use preoomkiller_controller.Common.Error.{foreign, message, wrap}
use preoomkiller_controller.HttpServer.{
  http_texts, metrics_texts, Server, Network, settings, new_http_server, new_metrics_server,
  ping_metrics_server, start_http_server, shutdown_http_server, start_metrics_server,
  shutdown_metrics_server,
}
use preoomkiller_controller.HttpServer.Life.{
  absent, idle, started, returned, serving, System, initial, Step, Reach, here, next,
}
use preoomkiller_controller.HttpServer.Life.Listening.{pinged_listens, shutdown_closes}

abbrev network : Network (List String)
network = record {
  listen = λ addr w. (none, addr ∷ w);
  shutdown = λ s w. (some (foreign "deadline"), s.addr ∷ w);
}

abbrev busy_network : Network (List String)
busy_network = record {
  listen = λ addr w. (some (foreign "in use"), addr ∷ w);
  shutdown = λ s w. (none, s.addr ∷ w);
}

abbrev up : Server
up = record (new_http_server "") { server = some (settings http_texts "8080") }

starts : start_http_server network (new_http_server "") [] ≡ (none, (up, ":8080" ∷ []))
unfolding start_http_server
starts = refl

metrics_refused :
    (start_metrics_server busy_network (new_metrics_server "9100") []).0
    ≡ some (wrap "listen metrics tcp" (foreign "in use"))
unfolding start_metrics_server
metrics_refused = refl

shuts : shutdown_http_server network up [] ≡ (
  some (wrap "http server shutdown" (foreign "deadline")),
  (record up { in_shutdown = true }, ":8080" ∷ []),
)
unfolding shutdown_http_server
shuts = refl

shuts_once :
    shutdown_metrics_server network (record up { in_shutdown = true }) []
    ≡ (none, (record up { in_shutdown = true }, []))
unfolding shutdown_metrics_server
shuts_once = refl

not_ready :
    ping_metrics_server false false (new_metrics_server "")
    ≡ some (message "metrics server is not ready")
not_ready = refl

abbrev run_up : System
run_up = record {
  server = record (new_metrics_server "9100") {
    server = some (settings metrics_texts "9100");
    ready = true;
  };
  closed = false;
  starting = started none;
  serving = serving;
  stopping = idle;
}

run_up-Reach : Reach metrics_texts (initial metrics_texts "9100") run_up
run_up-Reach =
    next
      (next
        (next (next (next here (Step.tests refl refl)) (Step.configures refl)) (Step.listens refl))
        (Step.opens refl))
      (Step.serves refl refl)

pinged_listens_example : (run_up.starting ≡ started none) × (run_up.serving ≢ absent)
pinged_listens_example = pinged_listens "9100" {s = run_up} false false run_up-Reach refl

abbrev run_down : System
run_down = record run_up {
  server = record (run_up.server) { in_shutdown = true };
  closed = true;
  stopping = returned (some (wrap "metrics server shutdown" (foreign "deadline")));
}

run_down-Reach : Reach metrics_texts run_up run_down
run_down-Reach =
    next (next here (Step.begins refl))
      (Step.closes (settings metrics_texts "9100") (some (foreign "deadline")) refl refl)

shutdown_closes_example :
    (run_down.closed ≡ true) × (run_down.serving ≡ serving → run_down.serving ≡ serving)
shutdown_closes_example =
    shutdown_closes "9100" {s = run_up} {t = run_down} {u = run_down} run_up-Reach (λ e. cc) refl
      run_down-Reach (some (wrap "metrics server shutdown" (foreign "deadline"))) refl here
