-- ===== src/Config/Bounds.antt =====
-- What the settings of `Load` of internal/config/config.go keep to.
use preoomkiller_controller.Common.{◌≡◌, refl, arith}
use preoomkiller_controller.Common.Int.{pos, ◌≤ℤ◌}
use preoomkiller_controller.Common.Error.{Error, Result, ok, err}
use preoomkiller_controller.Config.{
  Environment, Config, env_min_interval, env_min_pinger_interval,
  env_min_restart_schedule_jitter_max, env_min_min_pod_age_before_eviction, env_key_interval,
  env_key_pinger_interval, env_key_restart_schedule_jitter_max, env_key_min_pod_age_before_eviction,
  get_env_or_default, parse_duration_env, load,
}

module _ (env : Environment) where
  -- The settings that `Load` returns: an interval of 30 seconds or more, a pinger interval and a jitter
  -- limit of a second or more, and a least age of pods of a minute or more.
  pub load_bounds :
      (cfg : Config)
      → load env ≡ ok cfg
      → (env_min_interval ≤ℤ cfg.interval)
        × (env_min_pinger_interval ≤ℤ cfg.pinger_interval)
        × (env_min_restart_schedule_jitter_max ≤ℤ cfg.restart_schedule_jitter_max)
        × (env_min_min_pod_age_before_eviction ≤ℤ cfg.min_pod_age_before_eviction)
  unfolding load parse_duration_env
  load_bounds cfg h = ground arith

  -- The durations that `Load` returns are what `time.ParseDuration` reads of their variables, or of the
  -- defaults 300s, 10s, 30s and 30m where those are empty.
  pub load_reads :
      (cfg : Config)
      → load env ≡ ok cfg
      → (env.parse_duration (get_env_or_default env env_key_interval "300s") ≡ ok cfg.interval)
        × (env.parse_duration (get_env_or_default env env_key_pinger_interval "10s")
            ≡ ok cfg.pinger_interval)
        × (env.parse_duration (get_env_or_default env env_key_restart_schedule_jitter_max "30s")
            ≡ ok cfg.restart_schedule_jitter_max)
        × (env.parse_duration (get_env_or_default env env_key_min_pod_age_before_eviction "30m")
            ≡ ok cfg.min_pod_age_before_eviction)
  unfolding load parse_duration_env
  load_reads cfg h = ground arith

  -- The least age of pods cannot be switched off: with the value "0" in its variable, which
  -- `time.ParseDuration` reads as no time at all, `Load` returns an error whatever the rest says.
  pub zero_age_rejected :
      env.getenv env_key_min_pod_age_before_eviction ≡ "0"
      → env.parse_duration "0" ≡ ok (pos 0)
      → (e : Error) × (load env ≡ err e)
  unfolding load parse_duration_env
  zero_age_rejected h k = refused (load env) refl
    where
      impossible : (cfg : Config) → load env ≡ ok cfg → ⊥
      impossible cfg l =
          let (a, b, c, d) = load_reads cfg l in
          let (a', b', c', d') = load_bounds cfg l in
          let read : get_env_or_default env env_key_min_pod_age_before_eviction "30m" ≡ "0" =
            cc (h) in
          ground (arith, d, d', read, k)

      refused : (r : Result Config) → load env ≡ r → (e : Error) × (load env ≡ err e)
      refused (err e) l = (e, l)
      refused (ok cfg) l = absurd (impossible cfg l)
