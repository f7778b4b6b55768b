-- ===== src/Pinger/Stats.antt =====
-- `Stats` and `GetStatistics` of internal/infra/pinger/statistics.go, and the update of a `Stats` by
-- `updateStats` of pinger.go.
pub mod History
use preoomkiller_controller.Common.{
  ℕ, String, Bool, true, false, not, ◌||◌, Option, none, some, length,
}
use preoomkiller_controller.Common.Int.{ℤ}
use preoomkiller_controller.Common.Error.{Error}
use preoomkiller_controller.Pinger.Buffer.{LatencyBuffer, new_latency_buffer, add, get_all}
use preoomkiller_controller.Pinger.Figures.{LatencyMetrics, calculate_latency_metrics}

pub record ErrorSnapshot : Type 0 where
  pub timestamp : ℤ
  pub latency : ℤ
  pub error : Error

-- `last_run` is `none` for the zero `time.Time`, before the first run.
pub record Stats : Type 0 where
  pub name : String
  pub last_run : Option ℤ
  pub last_error : Option Error
  pub last_error_snapshot : Option ErrorSnapshot
  pub success_latencies : LatencyBuffer
  pub error_latencies : LatencyBuffer

abbrev pub success_latency_buffer_size : ℕ
success_latency_buffer_size = 100

abbrev pub error_latency_buffer_size : ℕ
error_latency_buffer_size = 10

unfoldable pub new_pinger_stats : String → Stats
new_pinger_stats name = record {
  name = name;
  last_run = none;
  last_error = none;
  last_error_snapshot = none;
  success_latencies = new_latency_buffer success_latency_buffer_size;
  error_latencies = new_latency_buffer error_latency_buffer_size;
}

-- The part of `updateStats` that holds the lock of the pinger's `Stats`; `none` is a panic of `Add`.
record_error : ℤ → ℤ → Error → Stats → Option Stats
record_error now latency e st = elim (add latency st.error_latencies) [
  | none ↦ none
  | some b ↦ some (record st {
    last_run = some now;
    last_error = some e;
    last_error_snapshot = some (record { timestamp = now; latency = latency; error = e });
    error_latencies = b;
  })
]

record_success : ℤ → ℤ → Stats → Option Stats
record_success now latency st = elim (add latency st.success_latencies) [
  | none ↦ none
  | some b ↦ some (record st { last_run = some now; last_error = none; success_latencies = b })
]

unfoldable pub record_ping : ℤ → ℤ → Option Error → Stats → Option Stats
unfolding record_error record_success
record_ping now latency (some e) st = record_error now latency e st
record_ping now latency none st = record_success now latency st

pub record Statistics : Type 0 where
  pub is_ready : Bool
  pub is_healthy : Bool
  pub last_run : Option ℤ
  pub last_error : Option Error
  pub last_error_snapshot : Option ErrorSnapshot
  pub success_count : ℕ
  pub error_count : ℕ
  pub success_latencies : LatencyMetrics
  pub error_latencies : LatencyMetrics

-- `err == nil`
abbrev pub is_nil : {A : Type 0} → Option A → Bool
is_nil none = true
is_nil (some a) = false

-- `GetStatistics`; the flags are those of the pinger's `pingerInfo`.
unfoldable pub get_statistics : Stats → Bool → Bool → Statistics
get_statistics st ready_critical health_critical =
    let successes = get_all st.success_latencies in
    let errors = get_all st.error_latencies in
    record {
      is_ready = not ready_critical || is_nil st.last_error;
      is_healthy = not health_critical || is_nil st.last_error;
      last_run = st.last_run;
      last_error = st.last_error;
      last_error_snapshot = st.last_error_snapshot;
      success_count = length successes;
      error_count = length errors;
      success_latencies = calculate_latency_metrics successes;
      error_latencies = calculate_latency_metrics errors;
    }
