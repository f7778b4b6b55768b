-- ===== src/Controller/Platform.antt =====
-- internal/logic/controller/{dto,interfaces,constants}.go: the domain types, the ports, and the
-- settings of the service. What the ports do is not fixed here: the service takes any `Env`.
use preoomkiller_controller.Common.{ℕ, ◌<◌, String, Option, List, Bool}
use preoomkiller_controller.Common.Int.{ℤ}
use preoomkiller_controller.Common.Dict.{Dict}
use preoomkiller_controller.Common.Error.{Error, Result}

-- `resource.Quantity` of apimachinery and `float64`, with the operations that the service applies.
-- `lt_float` and `le_float` are the comparisons of IEEE 754, both false at a NaN.
pub record Numbers : Type 1 where
  pub Quantity : Type 0
  pub Float : Type 0
  pub parse_quantity : String → Result Quantity
  pub is_zero : Quantity → Bool
  pub cmp : Quantity → Quantity → ℤ
  pub add : Quantity → Quantity → Quantity
  pub new_quantity : ℤ → Quantity
  pub as_approximate_float64 : Quantity → Float
  pub parse_float : String → Result Float
  pub float_of : ℕ → Float
  pub lt_float : Float → Float → Bool
  pub le_float : Float → Float → Bool
  pub mul_float : Float → Float → Float
  pub div_float : Float → Float → Float
  pub to_int64 : Float → ℤ

-- A time is a number of nanoseconds from the Unix epoch.
pub record Pod (Quantity : Type 0) : Type 0 where
  pub name : String
  pub namespace : String
  pub annotations : Dict String
  pub memory_limit : Option Quantity
  pub created_at : ℤ

pub record PodMetrics (Quantity : Type 0) : Type 0 where
  pub memory_usage : Option Quantity

-- The fields of `Service` that `New` sets and no method changes.
pub record Config : Type 0 where
  pub interval : ℤ
  pub label_selector : String
  pub annotation_memory_threshold_key : String
  pub annotation_restart_schedule_key : String
  pub annotation_tz_key : String
  pub annotation_restart_at_key : String
  pub jitter_max : ℤ
  pub min_pod_age_before_eviction : ℤ

-- The world outside the service: the `Repository` port, the `scheduleParser` port, the clock, the
-- context, and `math/rand`. An operation gives its answer and the world after it, so no two calls
-- need agree. A command answers `none` for a nil error.
pub record Env (num : Numbers) : Type 1 where
  pub World : Type 0
  pub now : World → ℤ × World
  -- `select` on `ctx.Done()` with a default
  pub ctx_done : World → Bool × World
  -- `select` on `ctx.Done()` and a timer or a ticker: true if the context is what ended the wait
  pub done_before_second : World → Bool × World
  pub done_before_tick : World → Bool × World
  -- the case that a `select` with two ready cases takes: true for the first
  pub choose : World → Bool × World
  -- `rand.Int63n` of a positive bound
  pub int63n : ℕ → World → ℕ × World
  pub next_after : String → String → ℤ → Result ℤ
  pub format_rfc3339 : ℤ → String
  pub parse_rfc3339 : String → Result ℤ
  pub list_pods_query : String → World → Result (List (Pod num.Quantity)) × World
  pub get_pod_query : String → String → World → Result (Pod num.Quantity) × World
  pub get_pod_metrics_query : String → String → World → Result (PodMetrics num.Quantity) × World
  pub evict_pod_command : String → String → World → Option Error × World
  pub set_annotation_command : String → String → String → String → World → Option Error × World

-- What `math/rand` documents of `Int63n`: the draw is below the bound.
abbrev pub DrawsBelow : {num : Numbers} → Env num → Type 0
DrawsBelow env = (n : ℕ) (w : env.World) → 0 < n → (env.int63n n w).0 < n
