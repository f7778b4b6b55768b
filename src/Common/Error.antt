-- ===== src/Common/Error.antt =====
-- Go's error values: the sentinels and error types of the program, and the ways in which
-- `fmt.Errorf` and `errors.Join` build one error on others. `errors.Is` and `errors.As` walk the
-- tree that those make.
use Prim.Native.String.{String}
use mathlib.Core.Bool.{Bool, true, false, ◌||◌}

-- The variables that `errors.New` initialises.
pub data Sentinel : Type 0 where
  memory_threshold_parse memory_limit_not_defined get_pod_metrics evict_pod : Sentinel
  pinger_not_found pinger_already_registered : Sentinel
  invalid_state_transition already_terminated : Sentinel

-- `canceled` is `ctx.Err()`; `foreign` is an error of a library, known by its text; `message` is an
-- `fmt.Errorf` with no `%w`, `wrap` one with one `%w`, `both` one with two, or `errors.Join`.
pub data Error : Type 0 where
  pod_not_found too_many_requests canceled : Error
  sentinel : Sentinel → Error
  foreign : String → Error
  message : String → Error
  wrap : String → Error → Error
  both : Error → Error → Error

pub data Result {ℓ} (A : Type ℓ) : Type ℓ where
  ok : A → Result A
  err : Error → Result A

abbrev is_sentinel : Sentinel → Sentinel → Bool
is_sentinel Sentinel.memory_threshold_parse Sentinel.memory_threshold_parse = true
is_sentinel Sentinel.memory_limit_not_defined Sentinel.memory_limit_not_defined = true
is_sentinel Sentinel.get_pod_metrics Sentinel.get_pod_metrics = true
is_sentinel Sentinel.evict_pod Sentinel.evict_pod = true
is_sentinel Sentinel.pinger_not_found Sentinel.pinger_not_found = true
is_sentinel Sentinel.pinger_already_registered Sentinel.pinger_already_registered = true
is_sentinel Sentinel.invalid_state_transition Sentinel.invalid_state_transition = true
is_sentinel Sentinel.already_terminated Sentinel.already_terminated = true
is_sentinel _ _ = false

-- `errors.Is(err, target)` for a sentinel.
unfoldable pub errors_is : Sentinel → Error → Bool
errors_is t (sentinel s) = is_sentinel s t
errors_is t (wrap text e) = errors_is t e
errors_is t (both e f) = errors_is t e || errors_is t f
errors_is t _ = false

-- `errors.As` at the interface `notFound`, which `PodNotFoundError` alone implements.
unfoldable pub is_not_found : Error → Bool
is_not_found pod_not_found = true
is_not_found (wrap text e) = is_not_found e
is_not_found (both e f) = is_not_found e || is_not_found f
is_not_found _ = false

-- `errors.As` at the interface `tooManyRequests`, which `TooManyRequestsError` alone implements.
unfoldable pub is_too_many_requests : Error → Bool
is_too_many_requests too_many_requests = true
is_too_many_requests (wrap text e) = is_too_many_requests e
is_too_many_requests (both e f) = is_too_many_requests e || is_too_many_requests f
is_too_many_requests _ = false
