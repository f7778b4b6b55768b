-- ===== src/Controller/Reconcile/Health.antt =====
-- When `Ping` of service.go answers that the controller is well.
use preoomkiller_controller.Common.{◌+◌, ◌<◌, ◌≡◌, ◌↔◌, ◌⊎◌, Bool, true, false, none, arith}
use preoomkiller_controller.Common.Int.{
  ℤ, pos, negsuc, pos_part, ◌+ℤ◌, ◌≤ℤ◌, add64, sub_time, wrap64,
}
use preoomkiller_controller.Controller.Platform.{Numbers, Env, Config}
use preoomkiller_controller.Controller.State.{State, ret}
use preoomkiller_controller.Controller.Reconcile.{ping}

module _ {num : Numbers} (env : Env num) (cfg : Config) where
  open env use {World}

  -- What `Ping` finds, in the order in which it asks the world.
  abbrev pub cancelled : State World → Bool
  cancelled s = (env.ctx_done s.world).0

  abbrev pub takes_context : State World → Bool
  takes_context s = (env.choose (env.ctx_done s.world).1).0

  abbrev pub last_reconcile_age : State World → ℤ
  last_reconcile_age s =
      sub_time (env.now (env.choose (env.ctx_done s.world).1).1).0 s.last_reconcile_end_time

  twice_interval :
      (i : ℤ)
      → pos 0 ≤ℤ i
      → pos_part i + pos_part i < 9_223_372_036_854_775_808
      → add64 i i ≡ pos (pos_part i + pos_part i)
  unfolding add64 wrap64 ◌+ℤ◌
  twice_interval (pos n) h k = ground arith
  twice_interval (negsuc n) h k = absurd (omega arith)

  -- For an interval whose double is an `int64`: `Ping` returns nil exactly when the loop has
  -- started, the `select` does not take a done context, and no more than two intervals have passed
  -- since the last reconciliation ended.
  pub ping_healthy_iff :
      (s : State World)
      → pos 0 ≤ℤ cfg.interval
      → pos_part cfg.interval + pos_part cfg.interval < 9_223_372_036_854_775_808
      → ((ping env cfg s).0 ≡ ret none) ↔ (
          (s.ready ≡ true)
          × ((cancelled s ≡ false) ⊎ (takes_context s ≡ false))
          × (last_reconcile_age s ≤ℤ pos (pos_part cfg.interval + pos_part cfg.interval)))
  unfolding ping
  ping_healthy_iff s h k = (
    (λ e. ground (arith, twice_interval cfg.interval h k)),
    (λ e. ground (arith, twice_interval cfg.interval h k)),
  )
