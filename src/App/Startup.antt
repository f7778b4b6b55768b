-- ===== src/App/Startup.antt =====
-- What a startup of internal/app/app.go leaves registered, and so in which order the components end.
use preoomkiller_controller.Common.{
  ◌≡◌, refl, sym, ap, ◌∙◌, Option, none, some, List, [], ◌∷◌, ◌++◌, append_assoc, append-nil,
  Option-cases, inl, inr, arith,
}
use preoomkiller_controller.Common.Error.{Error, wrap}
use preoomkiller_controller.Shutdown.{Shutdowner}
use preoomkiller_controller.Shutdown.Order.{backwards}
use preoomkiller_controller.AppState.{
  AppState, Host, set_starting, set_state, set_running, register_shutdowner,
}
use preoomkiller_controller.AppState.Ending.{set_running_ready}
use preoomkiller_controller.Pinger.Service.{register}
use preoomkiller_controller.App.{
  AppServer, App, AppSystem, registered, started, start_server, start_all, marked, start_services,
}

module _ {World : Type 0} where
  started-shutdowners :
      (server : AppServer World) (r : Option Error × World) (s : AppSystem World)
      → (started server r s).0 ≡ none
      → (started server r s).1.state.shutdowners ≡ s.state.shutdowners ++ (server.shutdowner ∷ [])
  unfolding started registered
  started-shutdowners server (some e, w) s h = absurd cc
  started-shutdowners server (none, w) s h = split (register (some server.pinger) s.registry)
    where
      split :
          (q : Option Error × _)
          → (registered q (record s {
            state = register_shutdowner server.shutdowner s.state;
            world = w;
          })).1.state.shutdowners
            ≡ s.state.shutdowners ++ (server.shutdowner ∷ [])
      split (none, q) = refl
      split (some e, q) = refl

  abbrev pub shutdowners_of : List (AppServer World) → List (Shutdowner World)
  shutdowners_of [] = []
  shutdowners_of (c ∷ cs) = c.shutdowner ∷ shutdowners_of cs

  start_all-shutdowners :
      (servers : List (AppServer World)) (s : AppSystem World)
      → (start_all servers s).0 ≡ none
      → (start_all servers s).1.state.shutdowners ≡ s.state.shutdowners ++ shutdowners_of servers
  unfolding start_all start_server
  start_all-shutdowners [] s h = sym (append-nil s.state.shutdowners)
  start_all-shutdowners (c ∷ cs) s h = elim (Option-cases (start_server c s).0) [
    | inl good ↦
        let rest : (start_all cs (start_server c s).1).0 ≡ none = ground (arith, h, good) in
        let e = start_all-shutdowners cs (start_server c s).1 rest in
        let f = started-shutdowners c (c.start s.world) s good in
        ap
          (λ o.
            (elim o as (λ _. Option Error × AppSystem World) [
              | none ↦ start_all cs (start_server c s).1
              | some x ↦ (some (wrap "start server" x), (start_server c s).1)
            ]).1.state.shutdowners)
          good
        ∙ e
        ∙ ap (λ ds. ds ++ shutdowners_of cs) f
        ∙ append_assoc s.state.shutdowners (c.shutdowner ∷ []) (shutdowners_of cs)
    | inr (x, bad) ↦ absurd (ground (arith, h, bad))
  ]

  marked-shutdowners :
      (r : Option Error × AppState World) (app : App World) (s : AppSystem World)
      → r.1.shutdowners ≡ s.state.shutdowners
      → (marked r app s).0 ≡ none
      → (marked r app s).1.state.shutdowners
        ≡ s.state.shutdowners
          ++ (app.http_server.shutdowner ∷ app.metrics_server.shutdowner ∷ app.controller.shutdowner
              ∷ [])
  unfolding marked
  marked-shutdowners (some e, state) app s k h = absurd cc
  marked-shutdowners (none, state) app s k h =
      start_all-shutdowners (app.http_server ∷ app.metrics_server ∷ app.controller ∷ []) _ h
      ∙ ap
          (λ ds.
            ds
            ++ (app.http_server.shutdowner ∷ app.metrics_server.shutdowner
                ∷ app.controller.shutdowner ∷ []))
          k

  set_starting-shutdowners : (s : AppState World) → (set_starting s).1.shutdowners ≡ s.shutdowners
  unfolding set_starting set_state
  set_starting-shutdowners s = ground arith

  pub start_services-shutdowners :
      (app : App World) (s : AppSystem World)
      → s.state.shutdowners ≡ []
      → (start_services app s).0 ≡ none
      → (start_services app s).1.state.shutdowners
        ≡ app.http_server.shutdowner ∷ app.metrics_server.shutdowner ∷ app.controller.shutdowner
          ∷ []
  unfolding start_services
  start_services-shutdowners app s none_yet h =
      marked-shutdowners (set_starting s.state) app s (set_starting-shutdowners s.state) h
      ∙ ap
          (λ ds.
            ds
            ++ (app.http_server.shutdowner ∷ app.metrics_server.shutdowner
                ∷ app.controller.shutdowner ∷ []))
          none_yet

  -- After a startup of a new application in which every service starts and the application gets to run,
  -- the components are shut down in this order: the pinger service, the controller, the metrics server,
  -- and last the HTTP server, which answers the probes.
  pub shutdown_order :
      (app : App World) (s : AppSystem World) (host : Host World)
      → s.state.shutdowners ≡ []
      → (start_services app s).0 ≡ none
      → let t = (start_services app s).1 in
        (set_running host t.state t.world).0 ≡ none
        → backwards (set_running host t.state t.world).1.0.shutdowners
          ≡ host.pinger ∷ app.controller.shutdowner ∷ app.metrics_server.shutdowner
            ∷ app.http_server.shutdowner ∷ []
  shutdown_order app s host none_yet h k =
      let t = (start_services app s).1 in
      ap backwards (
        (set_running_ready host t.state t.world k).1
        ∙ ap (λ ds. ds ++ (host.pinger ∷ [])) (start_services-shutdowners app s none_yet h))
