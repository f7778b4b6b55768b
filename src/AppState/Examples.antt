-- ===== src/AppState/Examples.antt =====
-- Runs of an application with two components, in a world that lists what has been shut down.
use preoomkiller_controller.Common.{
  ◌≤◌, ◌≡◌, ◌≢◌, refl, ◌⊎◌, ◌↔◌, false, String, none, some, List, [], ◌∷◌,
}
use preoomkiller_controller.Common.Int.{ℤ, pos}
use preoomkiller_controller.Common.Error.{Sentinel, foreign, wrap}
use preoomkiller_controller.Shutdown.{Shutdowner, graceful_shutdown}
use preoomkiller_controller.Shutdown.Order.{
  backwards, in_turn, any_is, is_error, graceful_shutdown-in_turn,
}
use preoomkiller_controller.AppState.{
  AppState, Host, new, set_starting, set_running_locked, handle_healthz, handle_readyz,
}
use preoomkiller_controller.AppState.Status.{Durations, handle_status, answers_agree}
use preoomkiller_controller.AppState.Phases.{Step, Reach, here, next, order, phase_monotone}

abbrev World : Type 0
World = List String

abbrev pinger : Shutdowner World
pinger = record { name = "pinger-service"; shutdown = λ w. (none, "pinger" ∷ w) }

abbrev http : Shutdowner World
http = record { name = "http-server"; shutdown = λ w. (some (foreign "busy"), "http" ∷ w) }

abbrev host : Host World
host = record {
  now = λ w. (pos 7, w);
  pinger = pinger;
  start_pinger = λ w. (none, w);
  wait_ready = λ w. (false, w);
  stat = λ w. (some (foreign "not exist"), w);
  kill = λ w. "killed" ∷ w;
}

-- The last registered is the first in the list.
shut_in_order :
    graceful_shutdown (http ∷ pinger ∷ []) []
    ≡ (some (wrap "" (foreign "busy")), "http" ∷ "pinger" ∷ [])
unfolding graceful_shutdown
shut_in_order = refl

graceful_shutdown-in_turn_example :
    let (answer, w') = graceful_shutdown (http ∷ pinger ∷ []) [] in
    let (es, w'') = in_turn (backwards (http ∷ pinger ∷ [])) [] in
    (w' ≡ w'')
    × ((answer ≡ none) ↔ (es ≡ []))
    × (is_error Sentinel.already_terminated answer ≡ any_is Sentinel.already_terminated es)
graceful_shutdown-in_turn_example =
    graceful_shutdown-in_turn (http ∷ pinger ∷ []) [] Sentinel.already_terminated

abbrev fresh : AppState World
fresh = new (pos 1)

abbrev started : AppState World
started = (set_starting fresh).1

abbrev up : AppState World
up = (set_running_locked (pos 7) started).1

run_up : Reach fresh up
run_up = next (next here Step.starts) (Step.runs (pos 7))

phase_monotone_example : order started.phase ≤ order up.phase
phase_monotone_example = phase_monotone {s = started} {t = up} (next here (Step.runs (pos 7)))

-- Durations as they are.
abbrev durations : Durations
durations = record { Float = ℤ; to_string = λ d. "6ns"; seconds = λ d. d }

answers_agree_example :
    ((handle_status durations (pos 7) up up).code ≡ 200)
    × (((handle_healthz up ≡ 200)
          × (handle_readyz up ≡ 200)
          × ((handle_status durations (pos 7) up up).body.state ≡ "running"))
        ⊎ ((handle_healthz up ≡ 503)
            × (handle_readyz up ≡ 503)
            × ((handle_status durations (pos 7) up up).body.state ≢ "running")))
answers_agree_example = answers_agree durations (pos 1) (pos 7) {s = up} up run_up
