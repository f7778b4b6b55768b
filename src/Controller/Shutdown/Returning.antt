-- ===== src/Controller/Shutdown/Returning.antt =====
-- That a `Shutdown` of service.go can always still return.
use preoomkiller_controller.Common.{ℕ, ◌+◌, ◌*◌, ◌<◌, ◌≡◌, List, [], ◌∷◌, length}
use preoomkiller_controller.Common.Dict.{Dict}
use preoomkiller_controller.Controller.Platform.{Numbers, Env, Config, DrawsBelow}
use preoomkiller_controller.Controller.Schedule.Arming.{IsJitter}
use preoomkiller_controller.Controller.Schedule.Stopping.{armed}
use preoomkiller_controller.Controller.Shutdown.{
  Phase, entered, evicting, cleaning, leaving, Callback, System, Step, Reach,
}

-- The steps that a callback has left.
abbrev phase_work : Phase → ℕ
phase_work entered = 4
phase_work evicting = 3
phase_work cleaning = 2
phase_work leaving = 1

abbrev callback_work : List Callback → ℕ
callback_work [] = 0
callback_work (c ∷ cs) = phase_work c.phase + callback_work cs

-- The steps until no timer and no callback is left.
abbrev work : {World : Type 0} → System World → ℕ
work s = 5 * (armed s.state.pending_timers + length s.orphans) + callback_work s.running

module _ {num : Numbers} (env : Env num) (cfg : Config) (draws : DrawsBelow env)
    (jitter : IsJitter env cfg) where
  open env use {World}

  -- A step that takes from the work, and leaves `Shutdown` where it is.
  record NextStep (s : System World) : Type 0 where
    after : System World
    step : Step env cfg s after
    less : work after < work s
    same_stage : after.stage ≡ s.stage

  -- Down to an empty wait group.
  record WaitOver (s : System World) : Type 0 where
    after : System World
    reach : Reach env cfg s after
    empty : after.state.in_flight ≡ 0
    same_stage : after.stage ≡ s.stage
