-- ===== src/Controller/Threshold/Percent.antt =====
-- What `resolveMemoryThreshold` of service.go makes of an annotation that ends in `%`.
use preoomkiller_controller.Common.{
  ◌≡◌, refl, sym, ◌∙◌, ◌↔◌, String, true, false, Option, none, some, arith,
}
use preoomkiller_controller.Common.Dict.{lookup}
use preoomkiller_controller.Common.Text.{cut_suffix, trim_space}
use preoomkiller_controller.Common.Error.{Error, Sentinel, ok, err, sentinel, wrap, errors_is}
use preoomkiller_controller.Controller.Platform.{Numbers, Pod}
use preoomkiller_controller.Controller.Threshold.{
  percent_scale, usable_limit, is_out_of_range, resolve_parsed_percent,
  resolve_memory_threshold_from_percent, resolve_memory_threshold, resolve_value,
  resolve_annotation,
}

module _ (num : Numbers) where
  open num use {Quantity, Float}

  -- `int64(limit * (percent / 100))` bytes.
  abbrev pub share : Float → Quantity → Quantity
  share percent limit = num.new_quantity (
      num.to_int64 (
        num.mul_float (num.as_approximate_float64 limit)
          (num.div_float percent (num.float_of percent_scale))))

  -- A number that every comparison of IEEE 754 fails for.
  abbrev pub IsNan : Float → Type 0
  IsNan f = (g : Float) → (num.le_float f g ≡ false) × (num.lt_float g f ≡ false)

  -- The annotation under the key is a text, a `%`, and nothing behind it; the text trims to what
  -- `ParseFloat` reads as the percentage.
  pub record IsPercentage (pod : Pod Quantity) (key : String) (percent : Float) : Type 0 where
    pub value : String
    pub before : String
    pub annotated : lookup key pod.annotations ≡ some value
    pub cut : cut_suffix value "%" ≡ some before
    pub parsed : num.parse_float (trim_space before) ≡ ok percent

  resolve_percentage :
      (pod : Pod Quantity) (key : String) (percent : Float)
      → IsPercentage pod key percent
      → resolve_memory_threshold num pod key
        ≡ resolve_parsed_percent num (ok percent) pod.memory_limit
  unfolding resolve_memory_threshold resolve_memory_threshold_from_percent
  resolve_percentage pod key percent v =
      rw (v.annotated, resolve_annotation, v.cut, resolve_value) (rw v.parsed refl)

  -- The limit that a percentage is taken of: set on the pod, and not zero.
  abbrev pub HasLimit : Pod Quantity → Quantity → Type 0
  HasLimit pod limit = (pod.memory_limit ≡ some limit) × (num.is_zero limit ≡ false)

  -- The number that `ParseFloat` gave passes the test `percent <= 0 || percent > 100` as failed.
  abbrev pub IsAccepted : Float → Type 0
  IsAccepted percent =
      (num.le_float percent (num.float_of 0) ≡ false)
      × (num.lt_float (num.float_of 100) percent ≡ false)

  resolve_parsed_ok :
      (percent : Float) (limit : Option Quantity) (t : Quantity)
      → resolve_parsed_percent num (ok percent) limit ≡ ok t
      → IsAccepted percent
        × ((l : Quantity) × (limit ≡ some l) × (num.is_zero l ≡ false) × (t ≡ share percent l))
  unfolding resolve_parsed_percent
  resolve_parsed_ok percent none t h = absurd (ground arith)
  resolve_parsed_ok percent (some l) t h = (ground arith, (l, refl, ground arith, ground arith))

  resolve_parsed_share :
      (percent : Float) (limit : Option Quantity) (l : Quantity)
      → IsAccepted percent
      → limit ≡ some l
      → num.is_zero l ≡ false
      → resolve_parsed_percent num (ok percent) limit ≡ ok (share percent l)
  unfolding resolve_parsed_percent
  resolve_parsed_share percent limit l a e z = ground arith

  -- A percentage annotation resolves to a threshold exactly when its number is accepted and the pod
  -- has a limit, and then to the share of the limit, `int64(limit * (percent / 100))` bytes.
  pub percentage_resolves_iff :
      (pod : Pod Quantity) (key : String) (percent : Float) (t : Quantity)
      → IsPercentage pod key percent
      → (resolve_memory_threshold num pod key ≡ ok t)
        ↔ (IsAccepted percent × ((l : Quantity) × HasLimit pod l × (t ≡ share percent l)))
  percentage_resolves_iff pod key percent t v = (to, from)
    where
      to :
          resolve_memory_threshold num pod key ≡ ok t
          → IsAccepted percent × ((l : Quantity) × HasLimit pod l × (t ≡ share percent l))
      to h =
          let (a, (l, e, z, s)) =
            resolve_parsed_ok percent pod.memory_limit t
              (sym (resolve_percentage pod key percent v) ∙ h) in
          (a, (l, (e, z), s))

      from :
          IsAccepted percent × ((l : Quantity) × HasLimit pod l × (t ≡ share percent l))
          → resolve_memory_threshold num pod key ≡ ok t
      from (a, (l, (e, z), s)) =
          resolve_percentage pod key percent v
          ∙ resolve_parsed_share percent pod.memory_limit l a e z
          ∙ cc

  -- A percentage annotation with an accepted number, on a pod with no limit or a zero one, fails with
  -- `ErrMemoryLimitNotDefined` itself.
  pub percentage_without_limit :
      (pod : Pod Quantity) (key : String) (percent : Float)
      → IsPercentage pod key percent
      → IsAccepted percent
      → usable_limit num pod.memory_limit ≡ none
      → resolve_memory_threshold num pod key ≡ err (sentinel Sentinel.memory_limit_not_defined)
  unfolding resolve_parsed_percent
  percentage_without_limit pod key percent v a h =
      resolve_percentage pod key percent v ∙ ground arith

  -- A percentage annotation with a number that is not accepted fails, whatever the pod's limit, with
  -- an error that is an `ErrMemoryThresholdParse` and not an `ErrMemoryLimitNotDefined`.
  pub percentage_out_of_range :
      (pod : Pod Quantity) (key : String) (percent : Float)
      → IsPercentage pod key percent
      → is_out_of_range num percent ≡ true
      → (e : Error) × (resolve_memory_threshold num pod key ≡ err e)
        × (errors_is Sentinel.memory_threshold_parse e ≡ true)
        × (errors_is Sentinel.memory_limit_not_defined e ≡ false)
  unfolding resolve_parsed_percent errors_is
  percentage_out_of_range pod key percent v h = (
    wrap "percentage must be in (0, 100]" (sentinel Sentinel.memory_threshold_parse),
    resolve_percentage pod key percent v ∙ ground arith,
    refl,
    refl,
  )
