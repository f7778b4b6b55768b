-- ===== src/HttpServer/Life.antt =====
-- The life of a server of internal/httpserver as interleaved steps: `Start` with the goroutine that it
-- leaves behind, and `Shutdown`, of either server.
pub mod Listening
use preoomkiller_controller.Common.{◌≡◌, String, Bool, true, false, Option, none, some}
use preoomkiller_controller.Common.Error.{Error}
use preoomkiller_controller.HttpServer.{
  Texts, Settings, Server, new_as, configure, start_answer, shutdown_answer,
}

-- How far `Start` has come: not called, `inShutdown` read as false, `s.server` written, and returned.
pub data Starting : Type 0 where
  not_called tested configured : Starting
  started : Option Error → Starting

-- The goroutine of `Start`: not there, before `close(s.ready)`, before `Serve`, in it, and after it.
pub data Serving : Type 0 where
  absent spawned opened serving ended : Serving

-- How far `Shutdown` has come: not called, `inShutdown` set, and returned.
pub data Stopping : Type 0 where
  idle flagged : Stopping
  returned : Option Error → Stopping

-- `closed` says whether `Shutdown` of the `http.Server` has been called: a `Serve` then returns, and a
-- later one returns at once.
pub record System : Type 0 where
  pub server : Server
  pub closed : Bool
  pub starting : Starting
  pub serving : Serving
  pub stopping : Stopping

abbrev pub initial : Texts → String → System
initial texts port = record {
  server = new_as texts port;
  closed = false;
  starting = not_called;
  serving = absent;
  stopping = idle;
}

-- One call of `Start`, and of `Shutdown` as many as there are: all but the first change nothing.
pub data Step (texts : Texts) (s : System) : System → Type 0 where
  skips :
      s.starting ≡ not_called
      → s.server.in_shutdown ≡ true
      → Step texts s (record s { starting = started none })
  tests :
      s.starting ≡ not_called
      → s.server.in_shutdown ≡ false
      → Step texts s (record s { starting = tested })
  configures :
      s.starting ≡ tested
      → Step texts s (record s { server = configure texts s.server; starting = configured })
  listens :
      s.starting ≡ configured
      → Step texts s (record s { starting = started (start_answer texts none); serving = spawned })
  fails_to_listen :
      (e : Error)
      → s.starting ≡ configured
      → Step texts s (record s { starting = started (start_answer texts (some e)) })
  opens :
      s.serving ≡ spawned
      → Step texts s (record s { server = record (s.server) { ready = true }; serving = opened })
  serves : s.serving ≡ opened → s.closed ≡ false → Step texts s (record s { serving = serving })
  does_not_serve :
      s.serving ≡ opened → s.closed ≡ true → Step texts s (record s { serving = ended })
  -- `Serve` fails, or the server is closed
  stops_serving : s.serving ≡ serving → Step texts s (record s { serving = ended })
  begins :
      s.server.in_shutdown ≡ false
      → Step texts s
          (record s { server = record (s.server) { in_shutdown = true }; stopping = flagged })
  finds_no_server :
      s.stopping ≡ flagged
      → s.server.server ≡ none
      → Step texts s (record s { stopping = returned none })
  closes :
      (server : Settings) (answer : Option Error)
      → s.stopping ≡ flagged
      → s.server.server ≡ some server
      → Step texts s
          (record s { closed = true; stopping = returned (shutdown_answer texts answer) })

pub data Reach (texts : Texts) (s : System) : System → Type 0 where
  here : Reach texts s s
  next : {t u : System} → Reach texts s t → Step texts t u → Reach texts s u
