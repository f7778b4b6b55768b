-- ===== src/Config/Examples.antt =====
-- Settings from concrete environments.
use preoomkiller_controller.Common.{◌≡◌, refl, String, if◌then◌else◌}
use text.Mathlib.Text.{◌==◌ as str_eq}
use preoomkiller_controller.Common.Int.{ℤ, pos}
use preoomkiller_controller.Common.Error.{Error, Result, ok, err, foreign}
use preoomkiller_controller.Config.{
  Environment, Config, env_key_min_pod_age_before_eviction, load, parse_duration_env,
}
use preoomkiller_controller.Config.Bounds.{zero_age_rejected}

abbrev parse : String → Result ℤ
parse s =
    if str_eq s "10s"
    then ok (pos 10_000_000_000)
    else if str_eq s "300s"
    then ok (pos 300_000_000_000)
    else if str_eq s "30s"
    then ok (pos 30_000_000_000)
    else if str_eq s "30m"
    then ok (pos 1_800_000_000_000)
    else if str_eq s "0"
    then ok (pos 0)
    else err (foreign "duration")

-- Nothing set, and a port alone.
abbrev pub bare : Environment
bare = record {
  getenv = λ key. if str_eq key "PREOOMKILLER_HTTP_PORT" then "9000" else "";
  parse_duration = parse;
}

abbrev pub loaded : Config
loaded = record {
  kube_config = "";
  kube_master = "";
  interval = pos 300_000_000_000;
  pinger_interval = pos 10_000_000_000;
  log_level = "info";
  log_format = "json";
  http_port = "9000";
  metrics_port = "9090";
  pod_label_selector = "preoomkiller.beta.k8s.skillcoder.com/enabled=true";
  annotation_memory_threshold_key = "preoomkiller.beta.k8s.skillcoder.com/memory-threshold";
  annotation_restart_schedule_key = "preoomkiller.beta.k8s.skillcoder.com/restart-schedule";
  annotation_tz_key = "preoomkiller.beta.k8s.skillcoder.com/tz";
  restart_schedule_jitter_max = pos 30_000_000_000;
  min_pod_age_before_eviction = pos 1_800_000_000_000;
}

pub load-bare : load bare ≡ ok loaded
unfolding load parse_duration_env
load-bare = refl

abbrev no_age : Environment
no_age = record {
  getenv = λ key. if str_eq key env_key_min_pod_age_before_eviction then "0" else "";
  parse_duration = parse;
}

zero_age_rejected_example : (e : Error) × (load no_age ≡ err e)
zero_age_rejected_example = zero_age_rejected no_age refl refl
