-- ===== src/App/Servers.antt =====
-- The two servers of internal/httpserver as components of internal/app/app.go: what `New` hands to the
-- application, over a world that holds the servers themselves.
pub mod Startup
pub mod Stopped
mod Examples
use preoomkiller_controller.Common.{String, Bool, Option, none, some}
use preoomkiller_controller.Common.Error.{Error}
use preoomkiller_controller.Shutdown.{Shutdowner}
use preoomkiller_controller.Common.Int.{ℤ}
use preoomkiller_controller.AppState.{Host}
use preoomkiller_controller.App.Run.{Program}
use preoomkiller_controller.Pinger.Service.{Pinger}
use preoomkiller_controller.App.{AppServer, App}
use preoomkiller_controller.HttpServer.{
  Server, Network, http_texts, metrics_texts, start_http_server, shutdown_http_server,
  start_metrics_server, shutdown_metrics_server,
}

-- The servers, and the rest of the world.
pub record Site (World : Type 0) : Type 0 where
  pub http : Server
  pub metrics : Server
  pub rest : World

-- The optional interfaces of a `Pinger` are not implemented by the servers, nor by the controller.
abbrev pub plain_pinger : String → Pinger
plain_pinger name = record {
  name = name;
  pinger_ready_critical = none;
  pinger_critical = none;
  pinger_timeout = none;
}

module _ {World : Type 0} where
  abbrev pub put_http : Site World → Option Error × (Server × World) → Option Error × Site World
  put_http site (answer, (server, w)) = (answer, record site { http = server; rest = w })

  abbrev pub put_metrics : Site World → Option Error × (Server × World) → Option Error × Site World
  put_metrics site (answer, (server, w)) = (answer, record site { metrics = server; rest = w })

  -- A component that leaves the servers alone.
  abbrev pub put_rest : Site World → Option Error × World → Option Error × Site World
  put_rest site (answer, w) = (answer, record site { rest = w })

  abbrev pub elsewhere : Shutdowner World → Shutdowner (Site World)
  elsewhere c = record { name = c.name; shutdown = λ site. put_rest site (c.shutdown site.rest) }

module _ {World : Type 0} (network : Network World) where
  abbrev pub http_component : AppServer (Site World)
  http_component = record {
    start = λ site. put_http site (start_http_server network site.http site.rest);
    shutdowner = record {
      name = http_texts.name;
      shutdown = λ site. put_http site (shutdown_http_server network site.http site.rest);
    };
    pinger = plain_pinger http_texts.name;
  }

  abbrev pub metrics_component : AppServer (Site World)
  metrics_component = record {
    start = λ site. put_metrics site (start_metrics_server network site.metrics site.rest);
    shutdowner = record {
      name = metrics_texts.name;
      shutdown = λ site. put_metrics site (shutdown_metrics_server network site.metrics site.rest);
    };
    pinger = plain_pinger metrics_texts.name;
  }

  -- The controller by its `Start` and its `Shutdown`.
  abbrev pub controller_component :
      (World → Option Error × World) → Shutdowner World → AppServer (Site World)
  controller_component start shutdowner = record {
    start = λ site. put_rest site (start site.rest);
    shutdowner = elsewhere shutdowner;
    pinger = plain_pinger "preoomkiller-controller";
  }

  abbrev pub app_of : (World → Option Error × World) → Shutdowner World → App (Site World)
  app_of start shutdowner = record {
    http_server = http_component;
    metrics_server = metrics_component;
    controller = controller_component start shutdowner;
  }

-- A program around the servers: its clock, its signals and its pinger service leave them alone.
module _ {World : Type 0} where
  abbrev pub beside : {A : Type 0} → (World → A × World) → Site World → A × Site World
  beside f site = let (a, w) = f site.rest in (a, record site { rest = w })

  abbrev pub host_of : Host World → Host (Site World)
  host_of host = record {
    now = beside host.now;
    pinger = elsewhere host.pinger;
    start_pinger = beside host.start_pinger;
    wait_ready = beside host.wait_ready;
    stat = beside host.stat;
    kill = λ site. record site { rest = host.kill site.rest };
  }

  abbrev pub program_of : Program World → Program (Site World)
  program_of program = record {
    host = host_of program.host;
    ctx_done = beside program.ctx_done;
    wait_all_ready = beside program.wait_all_ready;
    wait_done = λ site. record site { rest = program.wait_done site.rest };
    cancel = λ site. record site { rest = program.cancel site.rest };
  }
