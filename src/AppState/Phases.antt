-- ===== src/AppState/Phases.antt =====
-- The phases of appstate.go, in any interleaving of the sections of its methods.
use preoomkiller_controller.Common.{ℕ, ◌≤◌, ◌≡◌, refl, ◌⊎◌, false, arith}
use preoomkiller_controller.Common.Int.{ℤ}
use preoomkiller_controller.Shutdown.{Shutdowner}
use preoomkiller_controller.AppState.{
  Phase, init, starting, running, terminating, terminated, AppState, new, register_shutdowner,
  set_state, set_starting, set_running_locked, set_terminating, finish, is_healthy, is_ready,
  handle_healthz, handle_readyz,
}

-- One section of a method, in any order: those of concurrent calls interleave.
pub data Step {World : Type 0} (s : AppState World) : AppState World → Type 0 where
  registering : (c : Shutdowner World) → Step s (register_shutdowner c s)
  starts : Step s (set_starting s).1
  runs : (now : ℤ) → Step s (set_running_locked now s).1
  terminates : (now : ℤ) → Step s (set_terminating now s).1
  finishes : Step s (finish s)

pub data Reach {World : Type 0} (s : AppState World) : AppState World → Type 0 where
  here : Reach s s
  next : {t u : AppState World} → Reach s t → Step t u → Reach s u

-- The order in which the phases are passed.
abbrev pub order : Phase → ℕ
order init = 0
order starting = 1
order running = 2
order terminating = 3
order terminated = 4

record Advances {World : Type 0} (s t : AppState World) : Type 0 where
  later : order s.phase ≤ order t.phase
  ready_kept : (is_ready s ≡ is_healthy s) → (is_ready t ≡ is_healthy t)

module _ {World : Type 0} where
  starts-Advances : (s : AppState World) → Advances s (set_starting s).1
  unfolding set_starting set_state
  starts-Advances s = record { later = ground arith; ready_kept = λ h. ground arith }

  runs-Advances : (s : AppState World) (now : ℤ) → Advances s (set_running_locked now s).1
  unfolding set_running_locked set_state
  runs-Advances s now = record { later = ground arith; ready_kept = λ h. ground arith }

  terminates-Advances : (s : AppState World) (now : ℤ) → Advances s (set_terminating now s).1
  unfolding set_terminating set_state
  terminates-Advances s now = record { later = ground arith; ready_kept = λ h. ground arith }

  Step-Advances : {s t : AppState World} → Step s t → Advances s t
  Step-Advances {s} (Step.registering c) = record { later = omega arith; ready_kept = λ h. h }
  Step-Advances {s} Step.starts = starts-Advances s
  Step-Advances {s} (Step.runs now) = runs-Advances s now
  Step-Advances {s} (Step.terminates now) = terminates-Advances s now
  Step-Advances {s} Step.finishes = record { later = ground arith; ready_kept = λ h. refl }

  -- In any interleaving the phase never goes back: from init over starting, running and terminating
  -- to terminated. So a terminated application stays so, and one that terminates never runs again.
  pub phase_monotone : {s t : AppState World} → Reach s t → order s.phase ≤ order t.phase
  phase_monotone here = omega arith
  phase_monotone (next r st) = omega (arith, phase_monotone r, (Step-Advances st).later)

  ready_lem :
      {s t : AppState World} → Reach s t → (is_ready s ≡ is_healthy s) → (is_ready t ≡ is_healthy t)
  ready_lem here h = h
  ready_lem (next r st) h = (Step-Advances st).ready_kept (ready_lem r h)

  -- In every state that a new application reaches, the health and the readiness handler answer alike:
  -- 200 if its phase is running, and else 503.
  pub handlers_agree :
      (start : ℤ) {s : AppState World}
      → Reach (new start) s
      → ((s.phase ≡ running) × (handle_healthz s ≡ 200) × (handle_readyz s ≡ 200))
        ⊎ ((is_healthy s ≡ false) × (handle_healthz s ≡ 503) × (handle_readyz s ≡ 503))
  unfolding new
  handlers_agree start {s} r = ground (arith, ready_lem r refl)
