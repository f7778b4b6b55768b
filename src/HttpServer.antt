-- ===== src/HttpServer.antt =====
-- The two servers of internal/httpserver: `Server` of server.go, which answers the probes, and
-- `MetricsServer` of metrics_server.go. They differ in their texts, their default port and their
-- routes alone. `http.Server`, the listener and the routers are not fixed here.
pub mod Life
mod Examples
use preoomkiller_controller.Common.{
  ℕ, ◌≡◌, String, Bool, true, false, if◌then◌else◌, Option, none, some, List, [], ◌∷◌,
}
use Prim.Native.String.{◌++◌}
use text.Mathlib.Text.{◌==◌ as str_eq}
use preoomkiller_controller.Common.Int.{ℤ, pos}
use preoomkiller_controller.Common.Error.{Error, canceled, message, wrap}

-- What tells the servers apart.
pub record Texts : Type 0 where
  pub name : String
  pub default_port : String
  pub routes : List String
  pub not_ready : String
  pub listen : String
  pub shutdown : String

abbrev pub http_texts : Texts
http_texts = record {
  name = "http-server";
  default_port = "8080";
  routes = "/-/healthz" ∷ "/-/readyz" ∷ "/-/status" ∷ [];
  not_ready = "http server is not ready";
  listen = "listen tcp";
  shutdown = "http server shutdown";
}

abbrev pub metrics_texts : Texts
metrics_texts = record {
  name = "metrics-server";
  default_port = "9090";
  routes = "/metrics" ∷ [];
  not_ready = "metrics server is not ready";
  listen = "listen metrics tcp";
  shutdown = "metrics server shutdown";
}

-- The fields of the `http.Server` that `Start` makes, with the routes of its handler.
pub record Settings : Type 0 where
  pub addr : String
  pub routes : List String
  pub read_timeout : ℤ
  pub read_header_timeout : ℤ
  pub write_timeout : ℤ
  pub idle_timeout : ℤ
  pub max_header_bytes : ℕ

abbrev pub settings : Texts → String → Settings
settings texts port = record {
  addr = ":" ++ port;
  routes = texts.routes;
  read_timeout = pos 3_000_000_000;
  read_header_timeout = pos 3_000_000_000;
  write_timeout = pos 5_000_000_000;
  idle_timeout = pos 60_000_000_000;
  max_header_bytes = 4096;
}

-- `ready` says whether the channel of that name is closed.
pub record Server : Type 0 where
  pub port : String
  pub server : Option Settings
  pub ready : Bool
  pub in_shutdown : Bool

-- `Listen` of the address, and `Shutdown` of the `http.Server`, each with its error.
pub record Network (World : Type 0) : Type 0 where
  pub listen : String → World → Option Error × World
  pub shutdown : Settings → World → Option Error × World

abbrev pub new_as : Texts → String → Server
new_as texts port = record {
  port = if str_eq port "" then texts.default_port else port;
  server = none;
  ready = false;
  in_shutdown = false;
}

-- `select` of `Ping`, from whether the context is done and, for two ready cases, whether it takes the
-- first of them.
abbrev pub ping_as : Texts → Bool → Bool → Server → Option Error
ping_as texts done first s =
    if done
    then (if s.ready then (if first then some canceled else none) else some canceled)
    else (if s.ready then none else some (message texts.not_ready))

-- The write of `s.server` in `Start`.
abbrev pub configure : Texts → Server → Server
configure texts s = record s { server = some (settings texts s.port) }

-- The answer of `Start`, from that of `Listen`.
abbrev pub start_answer : Texts → Option Error → Option Error
start_answer texts none = none
start_answer texts (some e) = some (wrap texts.listen e)

-- The answer of `Shutdown`, from that of the `http.Server`.
abbrev pub shutdown_answer : Texts → Option Error → Option Error
shutdown_answer texts none = none
shutdown_answer texts (some e) = some (wrap texts.shutdown e)

module _ {World : Type 0} (network : Network World) where
  -- The goroutine that `Start` leaves behind if it listens is one of the steps of `Life`.
  start_as : Texts → Server → World → Option Error × (Server × World)
  start_as texts s w =
      if s.in_shutdown
      then (none, (s, w))
      else (let (answer, w') = network.listen (":" ++ s.port) w in
          (start_answer texts answer, (configure texts s, w')))

  shut_server : Texts → Option Settings → Server → World → Option Error × (Server × World)
  shut_server texts none s w = (none, (s, w))
  shut_server texts (some server) s w =
      let (answer, w') = network.shutdown server w in (shutdown_answer texts answer, (s, w'))

  -- A second call changes nothing.
  shutdown_as : Texts → Server → World → Option Error × (Server × World)
  unfolding shut_server
  shutdown_as texts s w =
      if s.in_shutdown
      then (none, (s, w))
      else shut_server texts s.server (record s { in_shutdown = true }) w

  -- `Start` and `Shutdown` of the HTTP server, and of the metrics server.
  unfoldable pub start_http_server : Server → World → Option Error × (Server × World)
  unfolding start_as
  start_http_server s w = start_as http_texts s w

  unfoldable pub shutdown_http_server : Server → World → Option Error × (Server × World)
  unfolding shutdown_as
  shutdown_http_server s w = shutdown_as http_texts s w

  unfoldable pub start_metrics_server : Server → World → Option Error × (Server × World)
  unfolding start_as
  start_metrics_server s w = start_as metrics_texts s w

  unfoldable pub shutdown_metrics_server : Server → World → Option Error × (Server × World)
  unfolding shutdown_as
  shutdown_metrics_server s w = shutdown_as metrics_texts s w

abbrev pub new_http_server : String → Server
new_http_server port = new_as http_texts port

abbrev pub new_metrics_server : String → Server
new_metrics_server port = new_as metrics_texts port

abbrev pub ping_http_server : Bool → Bool → Server → Option Error
ping_http_server done first s = ping_as http_texts done first s

abbrev pub ping_metrics_server : Bool → Bool → Server → Option Error
ping_metrics_server done first s = ping_as metrics_texts done first s
