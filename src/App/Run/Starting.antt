-- ===== src/App/Run/Starting.antt =====
-- What the startup of internal/app/app.go keeps as long as it has not succeeded.
use preoomkiller_controller.Common.{◌≡◌, refl, Option, none, some, List, [], ◌∷◌, arith}
use preoomkiller_controller.Common.Int.{ℤ}
use preoomkiller_controller.Common.Error.{Error, wrap}
use preoomkiller_controller.AppState.{
  starting, AppState, Host, new, set_starting, set_state, set_running, set_running_locked,
  register_shutdowner,
}
use preoomkiller_controller.Pinger.Service.{Service, register}
use preoomkiller_controller.App.{
  AppServer, App, AppSystem, registered, started, start_server, start_all, marked, start_services,
}

module _ {World : Type 0} where
  -- `SetTerminating` has not been called, and the application has not come further than starting.
  pub record IsStarting (s : AppState World) : Type 0 where
    pub phase_starting : s.phase ≡ starting
    pub not_terminating : s.terminating_at ≡ none

  started-IsStarting :
      (server : AppServer World) (r : Option Error × World) (s : AppSystem World)
      → IsStarting s.state
      → IsStarting (started server r s).1.state
  unfolding started registered
  started-IsStarting server (some e, w) s v = v
  started-IsStarting server (none, w) s v = split (register (some server.pinger) s.registry)
    where
      kept : IsStarting (register_shutdowner server.shutdowner s.state)
      kept = record { phase_starting = v.phase_starting; not_terminating = v.not_terminating }

      split :
          (q : Option Error × Service)
          → IsStarting
              (registered q (record s {
                state = register_shutdowner server.shutdowner s.state;
                world = w;
              })).1.state
      split (none, q) = kept
      split (some e, q) = kept

  start_all-IsStarting :
      (servers : List (AppServer World)) (s : AppSystem World)
      → IsStarting s.state
      → IsStarting (start_all servers s).1.state
  unfolding start_all start_server
  start_all-IsStarting [] s v = v
  start_all-IsStarting (c ∷ cs) s v =
      go (start_server c s).0 (start_all-IsStarting cs (start_server c s).1 first)
    where
      first : IsStarting (start_server c s).1.state
      first = started-IsStarting c (c.start s.world) s v

      go :
          (answer : Option Error)
          → IsStarting (start_all cs (start_server c s).1).1.state
          → IsStarting
              (elim answer as (λ _. Option Error × AppSystem World) [
                | none ↦ start_all cs (start_server c s).1
                | some e ↦ (some (wrap "start server" e), (start_server c s).1)
              ]).1.state
      go none rest = rest
      go (some e) rest = first

  -- A new application, with no pinger registered.
  abbrev pub fresh : ℤ → Service → World → AppSystem World
  fresh start registry w = record { state = new start; registry = registry; world = w }

  pub start_services-IsStarting :
      (app : App World) (start : ℤ) (registry : Service) (w : World)
      → IsStarting (start_services app (fresh start registry w)).1.state
  unfolding start_services marked new set_starting set_state
  start_services-IsStarting app start registry w =
      start_all-IsStarting (app.http_server ∷ app.metrics_server ∷ app.controller ∷ []) _
        (record { phase_starting = refl; not_terminating = refl })

  pub set_running-IsStarting :
      (host : Host World) (s : AppState World) (w : World) (e : Error)
      → (set_running host s w).0 ≡ some e
      → IsStarting s
      → IsStarting (set_running host s w).1.0
  unfolding set_running set_running_locked set_state
  set_running-IsStarting host s w e h v =
      let a = v.phase_starting in
      let b = v.not_terminating in
      record { phase_starting = ground arith; not_terminating = ground arith }
