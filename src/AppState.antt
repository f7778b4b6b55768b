-- ===== src/AppState.antt =====
-- `AppState` of internal/infra/appstate/appstate.go, and the handlers of handlers.go that answer for
-- it. Every method holds the lock `mu` while it reads or writes, so each such section is one step.
pub mod Phases
pub mod Ending
pub mod Status
mod Examples
use preoomkiller_controller.Common.{
  ℕ, Bool, true, false, not, ◌&&◌, if◌then◌else◌, Option, none, some, List, [], ◌∷◌, ◌++◌,
}
use preoomkiller_controller.Common.Int.{ℤ, pos}
use preoomkiller_controller.Common.Error.{Error, Sentinel, sentinel, message, wrap}
use preoomkiller_controller.Shutdown.{Shutdowner, check_termination_file, graceful_shutdown}

-- `State`.
pub data Phase : Type 0 where
  init starting running terminating terminated : Phase

pub record AppState (World : Type 0) : Type 0 where
  pub started_at : ℤ
  pub ready_at : Option ℤ
  pub terminating_at : Option ℤ
  pub phase : Phase
  pub shutdowners : List (Shutdowner World)

-- `New`.
unfoldable pub new : {World : Type 0} → ℤ → AppState World
new start = record {
  started_at = start;
  ready_at = none;
  terminating_at = none;
  phase = init;
  shutdowners = [];
}

-- The pinger service and the system, as `SetRunning` meets them: `wait_ready` answers true if the
-- context was done first, `stat` is `os.Stat` of the termination file, and `kill` sends SIGTERM to
-- the process itself.
pub record Host (World : Type 0) : Type 0 where
  pub now : World → ℤ × World
  pub pinger : Shutdowner World
  pub start_pinger : World → Option Error × World
  pub wait_ready : World → Bool × World
  pub stat : World → Option Error × World
  pub kill : World → World

abbrev pub is_starting : Phase → Bool
is_starting starting = true
is_starting _ = false

abbrev pub is_running : Phase → Bool
is_running running = true
is_running _ = false

abbrev pub is_terminated : Phase → Bool
is_terminated terminated = true
is_terminated _ = false

abbrev pub is_set : Option ℤ → Bool
is_set none = false
is_set (some t) = true

module _ {World : Type 0} where
  -- `RegisterShutdowner`.
  abbrev pub register_shutdowner : Shutdowner World → AppState World → AppState World
  register_shutdowner c s = record s { shutdowners = s.shutdowners ++ (c ∷ []) }

  -- `setState`.
  set_state_from : Phase → Phase → AppState World → Option Error × AppState World
  set_state_from terminated next s =
      (some (wrap "set state" (sentinel Sentinel.already_terminated)), s)
  set_state_from _ next s = (none, record s { phase = next })

  unfoldable pub set_state : Phase → AppState World → Option Error × AppState World
  unfolding set_state_from
  set_state next s = set_state_from s.phase next s

  set_starting_from : Phase → AppState World → Option Error × AppState World
  set_starting_from init s = set_state starting s
  set_starting_from _ s =
      (some (wrap "set starting" (sentinel Sentinel.invalid_state_transition)), s)

  unfoldable pub set_starting : AppState World → Option Error × AppState World
  unfolding set_starting_from
  set_starting s = set_starting_from s.phase s

  set_running_from : Phase → ℤ → AppState World → Option Error × AppState World
  set_running_from starting now s = set_state running (record s { ready_at = some now })
  set_running_from _ now s =
      (some (wrap "set running" (sentinel Sentinel.invalid_state_transition)), s)

  -- The part of `SetRunning` that holds the lock, at the time `now`.
  unfoldable pub set_running_locked : ℤ → AppState World → Option Error × AppState World
  unfolding set_running_from
  set_running_locked now s = set_running_from s.phase now s

  set_terminating_from : Phase → ℤ → AppState World → Option Error × AppState World
  set_terminating_from terminated now s =
      (some (wrap "set terminating" (sentinel Sentinel.already_terminated)), s)
  set_terminating_from _ now s = set_state terminating (record s { terminating_at = some now })

  -- `SetTerminating`, at the time `now`.
  unfoldable pub set_terminating : ℤ → AppState World → Option Error × AppState World
  unfolding set_terminating_from
  set_terminating now s = set_terminating_from s.phase now s

  -- The last section of `Shutdown`.
  abbrev pub finish : AppState World → AppState World
  finish s = record s { phase = terminated }

  -- `IsHealthy` and `IsReady`.
  abbrev pub is_healthy : AppState World → Bool
  is_healthy s = is_running s.phase

  abbrev pub is_ready : AppState World → Bool
  is_ready s = is_running s.phase && is_set s.ready_at

  -- The status codes of `HandleHealthz` and `HandleReadyz`.
  abbrev pub handle_healthz : AppState World → ℕ
  handle_healthz s = if is_healthy s then 200 else 503

  abbrev pub handle_readyz : AppState World → ℕ
  handle_readyz s = if is_ready s then 200 else 503

  -- The deferred check of `SetRunning` for a termination file.
  signal_if : Bool → Host World → World → World
  signal_if true host w = host.kill w
  signal_if false host w = w

  check_file : Host World → World → World
  unfolding signal_if
  check_file host w =
      let (answer, w') = host.stat w in signal_if (check_termination_file answer) host w'

  -- The clock, if it is looked at.
  clock_if : Bool → Host World → World → ℤ × World
  clock_if true host w = host.now w
  clock_if false host w = (pos 0, w)

  after_ready : Host World → AppState World → Bool × World → Option Error × (AppState World × World)
  unfolding check_file clock_if
  after_ready host s (true, w) = (some (message "context done"), (s, w))
  after_ready host s (false, w) =
      let (now, w') = clock_if (is_starting s.phase) host w in
      let (answer, t) = set_running_locked now s in (answer, (t, check_file host w'))

  after_start :
      Host World → AppState World → Option Error × World → Option Error × (AppState World × World)
  unfolding after_ready
  after_start host s (some e, w) = (some (wrap "start pinger service" e), (s, w))
  after_start host s (none, w) =
      after_ready host (register_shutdowner host.pinger s) (host.wait_ready w)

  -- `SetRunning`.
  unfoldable pub set_running :
      Host World → AppState World → World → Option Error × (AppState World × World)
  unfolding after_start
  set_running host s w = after_start host s (host.start_pinger w)

  after_shutdown : AppState World → Option Error × World → Option Error × (AppState World × World)
  after_shutdown s (some e, w) = (some (wrap "shutdown" e), (s, w))
  after_shutdown s (none, w) = (none, (finish s, w))

  shutdown_marked : Option Error × AppState World → World → Option Error × (AppState World × World)
  unfolding after_shutdown
  shutdown_marked (some e, s) w = (some (wrap "set terminating application state" e), (s, w))
  shutdown_marked (none, s) w = after_shutdown s (graceful_shutdown s.shutdowners w)

  -- `Shutdown`, with no other call between its sections.
  unfoldable pub shutdown :
      Host World → AppState World → World → Option Error × (AppState World × World)
  unfolding shutdown_marked clock_if
  shutdown host s w =
      let (now, w') = clock_if (not (is_terminated s.phase)) host w in
      shutdown_marked (set_terminating now s) w'
