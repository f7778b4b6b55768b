-- ===== src/AppState/Status.antt =====
-- The getters of `AppState` in internal/infra/appstate/appstate.go, the two calls that it passes on to
-- the pinger service, and the handler `HandleStatus` of handlers.go.
use preoomkiller_controller.Common.{
  ℕ, ◌≡◌, ◌≢◌, ◌↔◌, ◌⊎◌, inl, inr, String, Option, some, refl, arith,
}
use preoomkiller_controller.Common.Int.{ℤ, sub_time}
use preoomkiller_controller.Common.Dict.{Dict}
use preoomkiller_controller.Common.Error.{Error}
use preoomkiller_controller.Pinger.Service.{Pinger, Service, register, get_all_stats}
use preoomkiller_controller.Pinger.Stats.{Statistics}
use preoomkiller_controller.AppState.{
  Phase, init, starting, running, terminating, terminated, AppState, new, handle_healthz,
  handle_readyz,
}
use preoomkiller_controller.AppState.Phases.{Reach, handlers_agree}

-- The texts of the constants of type `State`.
abbrev pub state_text : Phase → String
state_text init = "init"
state_text starting = "starting"
state_text running = "running"
state_text terminating = "terminating"
state_text terminated = "terminated"

-- `String` and `Seconds` of `time.Duration`.
pub record Durations : Type 1 where
  pub Float : Type 0
  pub to_string : ℤ → String
  pub seconds : ℤ → Float

-- `statusResponse`.
pub record StatusResponse (Float : Type 0) : Type 0 where
  pub state : String
  pub uptime : String
  pub start_time : ℤ
  pub uptime_sec : Float

-- What a request gets: its status code, its content type, and the value whose JSON is the body. The
-- code is written before the body is encoded, so it is the same if that fails.
pub record Response (Float : Type 0) : Type 0 where
  pub code : ℕ
  pub content_type : String
  pub body : StatusResponse Float

abbrev pub register_pinger : Pinger → Service → Option Error × Service
register_pinger pinger service = register (some pinger) service

abbrev pub get_all_statistics : Service → Dict Statistics
get_all_statistics service = get_all_stats service

module _ {World : Type 0} where
  abbrev pub get_state : AppState World → Phase
  get_state s = s.phase

  abbrev pub get_start_time : AppState World → ℤ
  get_start_time s = s.started_at

  abbrev pub get_uptime : ℤ → AppState World → ℤ
  get_uptime now s = sub_time now s.started_at

  -- `HandleStatus`. Each getter takes the lock for itself, so the phase and the times may be those of
  -- two states.
  abbrev pub handle_status :
      (durations : Durations) → ℤ → AppState World → AppState World → Response durations.Float
  handle_status durations now s later = record {
    code = 200;
    content_type = "application/json";
    body = record {
      state = state_text (get_state s);
      uptime = durations.to_string (get_uptime now later);
      start_time = get_start_time later;
      uptime_sec = durations.seconds (get_uptime now later);
    };
  }

  -- The status page and the probe agree: the text of the state is "running" exactly if the health
  -- handler answers 200 in the same state.
  pub handle_status-healthz :
      (durations : Durations) (now : ℤ) (s later : AppState World)
      → ((handle_status durations now s later).body.state ≡ "running") ↔ (handle_healthz s ≡ 200)
  handle_status-healthz durations now s later = go s.phase refl
    where
      go : (p : Phase) → s.phase ≡ p → (state_text s.phase ≡ "running") ↔ (handle_healthz s ≡ 200)
      go init e = rw e ((λ h. absurd cc), (λ h. absurd (omega arith)))
      go starting e = rw e ((λ h. absurd cc), (λ h. absurd (omega arith)))
      go running e = rw e ((λ h. refl), (λ h. refl))
      go terminating e = rw e ((λ h. absurd cc), (λ h. absurd (omega arith)))
      go terminated e = rw e ((λ h. absurd cc), (λ h. absurd (omega arith)))

  -- In every state that a new application reaches, the three handlers tell the same: the probes answer
  -- 200 and the status page says "running", or the probes answer 503 and the status page, with the
  -- phase of that state, says something else. The page itself is always a 200.
  pub answers_agree :
      (durations : Durations) (start now : ℤ) {s : AppState World} (later : AppState World)
      → Reach (new start) s
      → ((handle_status durations now s later).code ≡ 200)
        × (((handle_healthz s ≡ 200)
              × (handle_readyz s ≡ 200)
              × ((handle_status durations now s later).body.state ≡ "running"))
            ⊎ ((handle_healthz s ≡ 503)
                × (handle_readyz s ≡ 503)
                × ((handle_status durations now s later).body.state ≢ "running")))
  answers_agree durations start now {s} later r = (
    refl,
    elim (handlers_agree start {s = s} r) [
      | inl (up, healthy, ready) ↦
          inl (healthy, ready, (handle_status-healthz durations now s later).1 healthy)
      | inr (down, healthy, ready) ↦ inr (
        healthy,
        ready,
        λ says.
            absurd (omega (arith, (handle_status-healthz durations now s later).0 says, healthy)),
      )
    ],
  )
