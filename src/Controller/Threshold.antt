-- ===== src/Controller/Threshold.antt =====
-- `resolveMemoryThreshold` and `resolveMemoryThresholdFromPercent` of service.go.
pub mod Percent
use preoomkiller_controller.Common.{ℕ, ◌≡◌, String, Bool, ◌||◌, Option, none, some, if◌then◌else◌}
use preoomkiller_controller.Common.Dict.{lookup}
use preoomkiller_controller.Common.Text.{cut_suffix, trim_space}
use preoomkiller_controller.Common.Error.{
  Error, Sentinel, Result, ok, err, sentinel, message, wrap, both,
}
use preoomkiller_controller.Controller.Platform.{Numbers, Pod}

abbrev parse_error : Error → Error
parse_error e = both (sentinel Sentinel.memory_threshold_parse) e

abbrev pub percent_scale : ℕ
percent_scale = 100

module _ (num : Numbers) where
  open num use {Quantity, Float, float_of, lt_float, le_float, mul_float, div_float}

  -- `memoryLimit == nil || memoryLimit.IsZero()`, and the limit where it is neither.
  unfoldable pub usable_limit : Option Quantity → Option Quantity
  usable_limit none = none
  usable_limit (some limit) = if num.is_zero limit then none else some limit

  pub percent_of_limit : Float → Option Quantity → Result Quantity
  percent_of_limit percent none = err (sentinel Sentinel.memory_limit_not_defined)
  percent_of_limit percent (some limit) = ok (
      num.new_quantity (
        num.to_int64 (
          mul_float (num.as_approximate_float64 limit)
            (div_float percent (float_of percent_scale)))))

  -- `percent <= 0 || percent > 100`
  unfoldable pub is_out_of_range : Float → Bool
  is_out_of_range percent = le_float percent (float_of 0) || lt_float (float_of 100) percent

  pub resolve_parsed_percent : Result Float → Option Quantity → Result Quantity
  unfolding usable_limit percent_of_limit is_out_of_range
  resolve_parsed_percent (err e) limit = err (parse_error (wrap "invalid percentage" e))
  resolve_parsed_percent (ok percent) limit =
      if is_out_of_range percent
      then err (wrap "percentage must be in (0, 100]" (sentinel Sentinel.memory_threshold_parse))
      else percent_of_limit percent (usable_limit limit)

  unfoldable pub resolve_memory_threshold_from_percent : String → Option Quantity → Result Quantity
  unfolding resolve_parsed_percent
  resolve_memory_threshold_from_percent text limit =
      resolve_parsed_percent (num.parse_float text) limit

  resolve_absolute : Result Quantity → Result Quantity
  resolve_absolute (ok threshold) = ok threshold
  resolve_absolute (err e) = err (parse_error e)

  resolve_value : String → Option Quantity → Option String → Result Quantity
  unfolding resolve_absolute
  resolve_value value limit (some before) =
      resolve_memory_threshold_from_percent (trim_space before) limit
  resolve_value value limit none = resolve_absolute (num.parse_quantity value)

  resolve_annotation : Option Quantity → Option String → Result Quantity
  unfolding resolve_value
  resolve_annotation limit none =
      err (wrap "annotation not found" (sentinel Sentinel.memory_threshold_parse))
  resolve_annotation limit (some value) = resolve_value value limit (cut_suffix value "%")

  unfoldable pub resolve_memory_threshold : Pod Quantity → String → Result Quantity
  unfolding resolve_annotation
  resolve_memory_threshold pod key =
      resolve_annotation pod.memory_limit (lookup key pod.annotations)
