-- ===== src/MemoryLeaker/Examples.antt =====
-- Runs of the memory leaker for a few ticks.
use preoomkiller_controller.Common.{◌≡◌, refl, true, some, List, [], ◌∷◌}
use preoomkiller_controller.Common.Int.{pos, add64, wrap64, ◌+ℤ◌}
use preoomkiller_controller.MemoryLeaker.{Event, done, tick, log_tick, fill, run_leak_loop, no_leak}

abbrev two_ticks : List Event
two_ticks = tick ∷ log_tick ∷ tick ∷ done ∷ tick ∷ []

-- A run of the code: two chunks of three bytes, and the loop has returned.
leaked :
    run_leak_loop two_ticks (pos 3) no_leak
    ≡ some (
      true,
      record { total_allocated = pos 6; memory = (0 ∷ 1 ∷ 2 ∷ []) ∷ (0 ∷ 1 ∷ 2 ∷ []) ∷ [] },
    )
unfolding run_leak_loop fill add64 wrap64 ◌+ℤ◌
leaked = refl
