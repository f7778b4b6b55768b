-- ===== src/App/Examples.antt =====
-- A startup in a world that lists what has been started.
use preoomkiller_controller.Common.{
  suc, ◌≤◌, ◌≡◌, ◌≢◌, ◌⊎◌, refl, String, true, false, Option, none, some, List, [], ◌∷◌,
}
use preoomkiller_controller.Common.Error.{Error, foreign}
use preoomkiller_controller.Common.Int.{pos}
use preoomkiller_controller.Common.Dict.{lookup, insert}
use preoomkiller_controller.Shutdown.{Shutdowner, graceful_shutdown}
use preoomkiller_controller.AppState.{
  Host, new, set_starting, set_state, set_running, set_running_locked, set_terminating, shutdown,
}
use preoomkiller_controller.Pinger.Service.{new_service, register}
use preoomkiller_controller.App.{AppServer, App, AppSystem, start_server, start_services}
use preoomkiller_controller.App.Channels.{
  Gate, waiting, counted, watch, all_channels_close, Step, Reach, here, next,
}
use preoomkiller_controller.App.Channels.Closing.{total, is_open, work, out_closed_once}
use preoomkiller_controller.App.Channels.Progress.{out_closes}
use preoomkiller_controller.App.Run.{
  Program, initialize, wait_for_ready, shutdown_app, run_until_shutdown, run,
}
use preoomkiller_controller.App.Run.Starting.{fresh as fresh_system}
use preoomkiller_controller.App.Run.Ends.{GivesUp, ShutsDown, run_ends}

abbrev server : String → AppServer (List String)
server name = record {
  start = λ w. (none, name ∷ w);
  shutdowner = record { name = name; shutdown = λ w. (none, w) };
  pinger = record {
    name = name;
    pinger_ready_critical = none;
    pinger_critical = none;
    pinger_timeout = none;
  };
}

abbrev pub app : App (List String)
app = record {
  http_server = server "http";
  metrics_server = server "metrics";
  controller = server "controller";
}

abbrev fresh : AppSystem (List String)
fresh = record { state = new (pos 1); registry = new_service; world = [] }

abbrev pinger : Shutdowner (List String)
pinger = record { name = "pinger"; shutdown = λ w. (none, w) }

abbrev pub host : Host (List String)
host = record {
  now = λ w. (pos 7, w);
  pinger = pinger;
  start_pinger = λ w. (none, w);
  wait_ready = λ w. (false, w);
  stat = λ w. (none, w);
  kill = λ w. "killed" ∷ w;
}

-- A program with no termination file and no trouble, whose context ends once it is running.
abbrev pub program : Program (List String)
program = record {
  host = record host { stat = λ w. (some (foreign "not exist"), w) };
  ctx_done = λ w. (false, w);
  wait_all_ready = λ w. (false, "ready" ∷ w);
  wait_done = λ w. "signal" ∷ w;
  cancel = λ w. "cancelled" ∷ w;
}

abbrev whole_run : Option Error × AppSystem (List String)
whole_run = run program app (fresh_system (pos 1) new_service [])

-- The same with a termination file.
abbrev refused_run : Option Error × AppSystem (List String)
refused_run = run (record program { host = host }) app (fresh_system (pos 1) new_service [])

whole_run_answer : whole_run.0 ≡ none
unfolding run initialize start_services wait_for_ready run_until_shutdown shutdown_app new
    start_server set_starting set_state set_running set_running_locked set_terminating shutdown
    graceful_shutdown register lookup insert
whole_run_answer = refl

whole_run_world :
    whole_run.1.world ≡ "cancelled" ∷ "signal" ∷ "ready" ∷ "controller" ∷ "metrics" ∷ "http" ∷ []
unfolding run initialize start_services wait_for_ready run_until_shutdown shutdown_app new
    start_server set_starting set_state set_running set_running_locked set_terminating shutdown
    graceful_shutdown register lookup insert
whole_run_world = refl

refused_run_world : refused_run.1.world ≡ []
unfolding run initialize
refused_run_world = refl

run_ends_example : GivesUp program whole_run ⊎ ShutsDown program app whole_run
run_ends_example = run_ends program app (pos 1) new_service []

-- Two components, of which one is ready from the start.
abbrev gate : Gate
gate = all_channels_close (true ∷ false ∷ [])

abbrev both_ready : Gate
both_ready = record {
  watches =
      record { is_closed = true; waiter = counted 1 }
      ∷ record { is_closed = true; waiter = waiting }
      ∷ [];
  target_count = 2;
  ready_count = 1;
  closes = 0;
}

both_ready-Reach : Reach gate both_ready
unfolding all_channels_close
both_ready-Reach =
    next (next here (Step.counts [] (watch true) (watch false ∷ []) refl refl refl)) (
      Step.signals (record { is_closed = true; waiter = counted 1 } ∷ []) (watch false) [] refl
        refl)

out_closed_once_example :
    (both_ready.closes ≤ 1) × (both_ready.closes ≡ 1 → total is_open both_ready.watches ≡ 0)
out_closed_once_example = out_closed_once (true ∷ false ∷ []) {s = both_ready} both_ready-Reach

out_closes_example :
    ((t : Gate) → Step both_ready t → suc (total work t.watches) ≡ total work both_ready.watches)
    × (total work both_ready.watches ≢ 0 → (t : Gate) × Step both_ready t)
    × (total work both_ready.watches ≡ 0 → both_ready.closes ≡ 1)
out_closes_example = out_closes (true ∷ false ∷ []) {s = both_ready} both_ready-Reach refl
