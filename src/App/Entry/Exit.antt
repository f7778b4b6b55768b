-- ===== src/App/Entry/Exit.antt =====
-- What the exit code of cmd/preoomkiller-controller tells.
use preoomkiller_controller.Common.{◌≡◌, refl, ap, ◌∙◌, inl, inr, Option, none, some, List, [], ◌∷◌}
use preoomkiller_controller.Common.Int.{ℤ}
use preoomkiller_controller.Common.Error.{Error, Result, ok, err}
use preoomkiller_controller.Config.{Environment, Config, load}
use preoomkiller_controller.Shutdown.{Shutdowner}
use preoomkiller_controller.Shutdown.Order.{in_turn}
use preoomkiller_controller.AppState.{terminated}
use preoomkiller_controller.Pinger.Service.{new_service}
use preoomkiller_controller.App.{App, AppSystem}
use preoomkiller_controller.App.Run.{Program, run}
use preoomkiller_controller.App.Run.Starting.{fresh}
use preoomkiller_controller.App.Run.Ends.{run_ends}
use preoomkiller_controller.App.Entry.{
  Clients, Wiring, Assembly, Ending, ran, new_app, built, loaded, run_main, answer_of, exit_code,
}

module _ {World : Type 0} where
  -- The order in which the components of a program end.
  abbrev pub components : App World → Program World → List (Shutdowner World)
  components app program =
      program.host.pinger ∷ app.controller.shutdowner ∷ app.metrics_server.shutdowner
      ∷ app.http_server.shutdowner ∷ []

  -- The run ended well: every component was shut down in turn, none of them failed, and then the context
  -- was cancelled.
  pub record EndsWell (app : App World) (program : Program World) (s : AppSystem World)
      : Type 0 where
    pub before : World
    pub none_failed : (in_turn (components app program) before).0 ≡ []
    pub after : s.world ≡ program.cancel (in_turn (components app program) before).1
    pub phase_terminated : s.state.phase ≡ terminated

  pub run-EndsWell :
      (app : App World) (program : Program World) (start : ℤ) (w : World)
      → let (answer, s) = run program app (fresh start new_service w) in
        answer ≡ none → EndsWell app program s
  run-EndsWell app program start w h = elim (run_ends program app start new_service w) [
    | inl (bad, kept, phase) ↦ absurd (bad h)
    | inr (before, after, e, v) ↦ elim v.ending [
      | inl (none_failed, answer, phase) ↦ record {
        before = before;
        none_failed = none_failed;
        after = e ∙ ap program.cancel v.all_called;
        phase_terminated = phase;
      }
      | inr (failed, answer, phase) ↦ absurd (answer h)
    ]
  ]

module _ (clients : Clients) {World : Type 0} (assembly : Assembly clients World) where
  -- The program was built from what its environment says.
  abbrev pub IsBuilt : Environment → Config → Wiring clients → Type 0
  IsBuilt env cfg wiring = (load env ≡ ok cfg) × (new_app clients cfg ≡ ok wiring)

  abbrev pub RunsWell : Environment → Ending clients World → Type 0
  RunsWell env r =
      (cfg : Config) × (wiring : Wiring clients) × (s : AppSystem World) × (r
        ≡ ran wiring cfg none s)
      × IsBuilt env cfg wiring
      × EndsWell (assembly.app wiring) (assembly.program wiring cfg.pinger_interval) s

  built-RunsWell :
      (env : Environment) (start : ℤ) (w : World) (cfg : Config) (q : Result (Wiring clients))
      → load env ≡ ok cfg
      → new_app clients cfg ≡ q
      → exit_code (answer_of clients (built clients assembly env start w cfg q)) ≡ 0
      → RunsWell env (built clients assembly env start w cfg q)
  unfolding built
  built-RunsWell env start w cfg (err e) l q h = absurd cc
  built-RunsWell env start w cfg (ok wiring) l q h =
      go _
        (run-EndsWell (assembly.app wiring) (assembly.program wiring cfg.pinger_interval) start w) h
    where
      go :
          (r : Option Error × AppSystem World)
          → (r.0 ≡ none
              → EndsWell (assembly.app wiring) (assembly.program wiring cfg.pinger_interval) r.1)
          → exit_code r.0 ≡ 0
          → RunsWell env (ran wiring cfg r.0 r.1)
      go (none, s) well k = (cfg, wiring, s, refl, (l, q), well refl)
      go (some e, s) well k = absurd cc

  -- The program exits with 0 only if its settings were read and its parts built from them, and at the
  -- end the pinger service, the controller, the metrics server and the HTTP server were shut down in
  -- this order, none of them with an error, with the phase terminated.
  pub exit_zero :
      (env : Environment) (start : ℤ) (w : World)
      → exit_code (answer_of clients (run_main clients assembly env start w)) ≡ 0
      → RunsWell env (run_main clients assembly env start w)
  unfolding run_main
  exit_zero env start w h = go (load env) refl h
    where
      go :
          (q : Result Config)
          → load env ≡ q
          → exit_code (answer_of clients (loaded clients assembly env start w q)) ≡ 0
          → RunsWell env (loaded clients assembly env start w q)
      go (err e) l k = absurd cc
      go (ok cfg) l k = built-RunsWell env start w cfg (new_app clients cfg) l refl k
