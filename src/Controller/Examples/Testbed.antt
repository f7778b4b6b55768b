-- ===== src/Controller/Examples/Testbed.antt =====
-- Quantities are integers, floats are hundredths or not a number, and the world is the clock, which
-- moves on by one at each look.
use preoomkiller_controller.Common.{
  ℕ, suc, ◌*◌, ◌/◌, ◌%◌, String, Bool, true, false, Option, none, some, [], ◌∷◌, ltb, leb,
  if◌then◌else◌, arith,
}
use text.Mathlib.Text.{◌==◌ as str_eq}
use preoomkiller_controller.Common.Int.{ℤ, pos, negsuc, ltb_ℤ, min_int64, ◌+ℤ◌}
use preoomkiller_controller.Common.Error.{pod_not_found, foreign, ok, err}
use preoomkiller_controller.Controller.Platform.{Numbers, Env, Config, Pod, DrawsBelow}
use preoomkiller_controller.Controller.State.{State}

abbrev cmp_ℤ : ℤ → ℤ → ℤ
cmp_ℤ a b = if ltb_ℤ a b then negsuc 0 else if ltb_ℤ b a then pos 1 else pos 0

abbrev is_zero_ℤ : ℤ → Bool
is_zero_ℤ (pos n) = leb n 0
is_zero_ℤ (negsuc n) = false

-- In hundredths.
abbrev Hundredths : Type 0
Hundredths = Option ℕ

abbrev compare_with : (ℕ → ℕ → Bool) → Hundredths → Hundredths → Bool
compare_with test (some a) (some b) = test a b
compare_with test (some a) none = false
compare_with test none (some b) = false
compare_with test none none = false

abbrev combine : (ℕ → ℕ → ℕ) → Hundredths → Hundredths → Hundredths
combine op (some a) (some b) = some (op a b)
combine op (some a) none = none
combine op none (some b) = none
combine op none none = none

abbrev to_hundredths : ℤ → Hundredths
to_hundredths (pos n) = some (n * 100)
to_hundredths (negsuc n) = none

abbrev from_hundredths : Hundredths → ℤ
from_hundredths (some a) = pos (a / 100)
from_hundredths none = min_int64

abbrev pub numbers : Numbers
numbers = record {
  Quantity = ℤ;
  Float = Hundredths;
  parse_quantity = λ s. if str_eq s "800" then ok (pos 800) else err (foreign "quantity");
  is_zero = is_zero_ℤ;
  cmp = cmp_ℤ;
  add = λ a b. a +ℤ b;
  new_quantity = λ a. a;
  as_approximate_float64 = to_hundredths;
  parse_float = λ s.
      if str_eq s "80"
      then ok (some 8000)
      else if str_eq s "NaN"
      then ok none
      else if str_eq s "180"
      then ok (some 18000)
      else err (foreign "float");
  float_of = λ n. some (n * 100);
  lt_float = compare_with ltb;
  le_float = compare_with leb;
  mul_float = combine (λ a b. a * b / 100);
  div_float = combine (λ a b. a * 100 / b);
  to_int64 = from_hundredths;
}

abbrev pub threshold_key : String
threshold_key = "memory-threshold"

abbrev pub config : Config
config = record {
  interval = pos 300;
  label_selector = "enabled=true";
  annotation_memory_threshold_key = threshold_key;
  annotation_restart_schedule_key = "restart-schedule";
  annotation_tz_key = "tz";
  annotation_restart_at_key = "restart-at";
  jitter_max = pos 30;
  min_pod_age_before_eviction = pos 100;
}

-- A pod of 1000 bytes whose threshold is 80 percent, created at time 10.
abbrev pub leaky : Pod ℤ
leaky = record {
  name = "leaky";
  namespace = "apps";
  annotations = (threshold_key, "80 %") ∷ [];
  memory_limit = some (pos 1000);
  created_at = pos 10;
}

-- A pod that restarts by its schedule.
abbrev pub nightly : Pod ℤ
nightly = record {
  name = "nightly";
  namespace = "apps";
  annotations = ("restart-schedule", "40 7 * * *") ∷ ("restart-at", "T500") ∷ [];
  memory_limit = none;
  created_at = pos 20;
}

abbrev usage_of : String → Option ℤ
usage_of name = if str_eq name "leaky" then some (pos 900) else none

abbrev pub env : Env numbers
env = record {
  World = ℕ;
  now = λ w. (pos w, suc w);
  ctx_done = λ w. (false, w);
  done_before_second = λ w. (false, w);
  done_before_tick = λ w. (true, w);
  choose = λ w. (false, w);
  int63n = λ n w. (w % n, w);
  next_after = λ spec tz now. ok (now +ℤ pos 60);
  format_rfc3339 = λ t. "T560";
  parse_rfc3339 = λ s. if str_eq s "T500" then ok (pos 500) else err (foreign "time");
  list_pods_query = λ selector w. (ok (leaky ∷ nightly ∷ []), w);
  get_pod_query =
      λ namespace name w. (if str_eq name "leaky" then ok leaky else err pod_not_found, w);
  get_pod_metrics_query = λ namespace name w. (ok (record { memory_usage = usage_of name }), w);
  evict_pod_command = λ namespace name w. (none, w);
  set_annotation_command = λ namespace name key value w. (none, w);
}

pub draws : DrawsBelow env
draws n w h = omega arith

-- The service at a time of the clock.
abbrev pub at_time : ℕ → State ℕ
at_time w = record {
  world = w;
  in_shutdown = false;
  ready = true;
  done = false;
  last_reconcile_end_time = pos 0;
  pending_timers = [];
  in_flight = 0;
  skipped = [];
  calls = [];
}
