-- ===== src/Config.antt =====
-- `Load` of internal/config/config.go, over the environment and `time.ParseDuration`.
pub mod Bounds
pub mod Examples
use preoomkiller_controller.Common.{String, Bool, if◌then◌else◌}
use preoomkiller_controller.Common.Int.{ℤ, pos, ltb_ℤ}
use preoomkiller_controller.Common.Error.{Error, Result, ok, err, message, wrap}
use text.Mathlib.Text.{◌==◌ as str_eq}

-- What the program is started in: `os.Getenv`, which answers "" for a variable that is not set, and
-- `time.ParseDuration`.
pub record Environment : Type 0 where
  pub getenv : String → String
  pub parse_duration : String → Result ℤ

pub record Config : Type 0 where
  pub kube_config : String
  pub kube_master : String
  pub interval : ℤ
  pub pinger_interval : ℤ
  pub log_level : String
  pub log_format : String
  pub http_port : String
  pub metrics_port : String
  pub pod_label_selector : String
  pub annotation_memory_threshold_key : String
  pub annotation_restart_schedule_key : String
  pub annotation_tz_key : String
  pub restart_schedule_jitter_max : ℤ
  pub min_pod_age_before_eviction : ℤ

-- A second, and the least values of env.go, in nanoseconds.
abbrev pub second : ℤ
second = pos 1_000_000_000

abbrev pub env_min_interval : ℤ
env_min_interval = pos 30_000_000_000

abbrev pub env_min_pinger_interval : ℤ
env_min_pinger_interval = second

abbrev pub env_min_restart_schedule_jitter_max : ℤ
env_min_restart_schedule_jitter_max = second

abbrev pub env_min_min_pod_age_before_eviction : ℤ
env_min_min_pod_age_before_eviction = pos 60_000_000_000

abbrev pub env_key_interval : String
env_key_interval = "PREOOMKILLER_INTERVAL"

abbrev pub env_key_pinger_interval : String
env_key_pinger_interval = "PREOOMKILLER_PINGER_INTERVAL"

abbrev pub env_key_restart_schedule_jitter_max : String
env_key_restart_schedule_jitter_max = "PREOOMKILLER_RESTART_SCHEDULE_JITTER_MAX"

abbrev pub env_key_min_pod_age_before_eviction : String
env_key_min_pod_age_before_eviction = "PREOOMKILLER_MIN_POD_AGE_BEFORE_EVICTION"

module _ (env : Environment) where
  open env use {getenv}

  abbrev pub get_env_or_default : String → String → String
  get_env_or_default key default_value =
      if str_eq (getenv key) "" then default_value else getenv key

  abbrev pub get_env_with_fallback : String → String → String
  get_env_with_fallback primary_key fallback_key =
      if str_eq (getenv primary_key) "" then getenv fallback_key else getenv primary_key

  at_least : ℤ → Result ℤ → Result ℤ
  at_least min_duration (err e) = err (wrap "parse duration" e)
  at_least min_duration (ok d) =
      if ltb_ℤ d min_duration then err (message "value must be at least the minimum") else ok d

  unfoldable pub parse_duration_env : String → String → ℤ → Result ℤ
  unfolding at_least
  parse_duration_env key default_val min_duration =
      at_least min_duration (env.parse_duration (get_env_or_default key default_val))

  infixl 5 ◌>>=◌
  ◌>>=◌ : {A B : Type 0} → Result A → (A → Result B) → Result B
  ok a >>= f = f a
  err e >>= f = err e

  -- The error of a duration, under the name of its variable.
  named : String → Result ℤ → Result ℤ
  named key (ok d) = ok d
  named key (err e) = err (wrap key e)

  -- The text settings, with the durations given.
  assemble : ℤ → ℤ → ℤ → ℤ → Config
  assemble pinger_interval interval jitter age = record {
    kube_config = get_env_with_fallback "PREOOMKILLER_KUBECONFIG" "KUBECONFIG";
    kube_master = get_env_with_fallback "PREOOMKILLER_KUBE_MASTER" "KUBERNETES_MASTER";
    interval = interval;
    pinger_interval = pinger_interval;
    log_level = get_env_or_default "PREOOMKILLER_LOG_LEVEL" "info";
    log_format = get_env_or_default "PREOOMKILLER_LOG_FORMAT" "json";
    http_port = get_env_or_default "PREOOMKILLER_HTTP_PORT" "8080";
    metrics_port = get_env_or_default "PREOOMKILLER_METRICS_PORT" "9090";
    pod_label_selector =
        get_env_or_default "PREOOMKILLER_POD_LABEL_SELECTOR"
          "preoomkiller.beta.k8s.skillcoder.com/enabled=true";
    annotation_memory_threshold_key =
        get_env_or_default "PREOOMKILLER_ANNOTATION_MEMORY_THRESHOLD"
          "preoomkiller.beta.k8s.skillcoder.com/memory-threshold";
    annotation_restart_schedule_key =
        get_env_or_default "PREOOMKILLER_ANNOTATION_RESTART_SCHEDULE"
          "preoomkiller.beta.k8s.skillcoder.com/restart-schedule";
    annotation_tz_key =
        get_env_or_default "PREOOMKILLER_ANNOTATION_TZ" "preoomkiller.beta.k8s.skillcoder.com/tz";
    restart_schedule_jitter_max = jitter;
    min_pod_age_before_eviction = age;
  }

  -- `Load`.
  unfoldable pub load : Result Config
  unfolding ◌>>=◌ named assemble
  load =
      named env_key_pinger_interval
        (parse_duration_env env_key_pinger_interval "10s" env_min_pinger_interval)
      >>= λ pinger_interval.
          named env_key_interval (parse_duration_env env_key_interval "300s" env_min_interval)
          >>= λ interval.
              named env_key_restart_schedule_jitter_max (
                parse_duration_env env_key_restart_schedule_jitter_max "30s"
                  env_min_restart_schedule_jitter_max)
              >>= λ jitter.
                  named env_key_min_pod_age_before_eviction (
                    parse_duration_env env_key_min_pod_age_before_eviction "30m"
                      env_min_min_pod_age_before_eviction)
                  >>= λ age. ok (assemble pinger_interval interval jitter age)
