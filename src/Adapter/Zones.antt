-- ===== src/Adapter/Zones.antt =====
-- The time zone of a cron expression in `buildSpec` of internal/infra/cronparser/parser.go.
use preoomkiller_controller.Common.{
  ◌≡◌, ◌≢◌, refl, ap, ◌∙◌, ◌⊎◌, inl, inr, Bool-cases, String, Bool, true, false, ◌&&◌, ◌||◌, not,
  if◌then◌else◌, arith,
}
use Prim.Native.String.{◌++◌}
use Prim.Native.String.append.{cons}
use text.Mathlib.Text.{◌==◌ as str_eq}
use text.Mathlib.TextEquality.{eq_iff}
use preoomkiller_controller.Adapter.{has_prefix, has_zone, build_spec}

has_prefix-append : (p q s : String) → has_prefix p q ≡ true → has_prefix p (q ++ s) ≡ true
has_prefix-append String.[] q s h = refl
has_prefix-append (String.◌∷◌ c p) String.[] s h = absurd cc
has_prefix-append (String.◌∷◌ c p) (String.◌∷◌ d q) s h =
    rw (cons d q s) (ground (arith, h, has_prefix-append p q s))

build_spec_of_zone : (spec tz : String) → has_zone spec ≡ true → build_spec spec tz ≡ spec
unfolding build_spec
build_spec_of_zone spec tz h =
    ap
      (λ b.
        if not (str_eq tz "") && not b
        then "CRON_TZ=" ++ (tz ++ (" " ++ spec))
        else if not b
        then "CRON_TZ=UTC " ++ spec
        else spec)
      h
    ∙ ground arith

given_zone : (spec tz : String) → has_zone ("CRON_TZ=" ++ (tz ++ (" " ++ spec))) ≡ true
given_zone spec tz =
    ap (λ b. b || has_prefix "TZ=" ("CRON_TZ=" ++ (tz ++ (" " ++ spec))))
      (has_prefix-append "CRON_TZ=" "CRON_TZ=" (tz ++ (" " ++ spec)) refl)

utc_zone : (spec : String) → has_zone ("CRON_TZ=UTC " ++ spec) ≡ true
utc_zone spec =
    ap (λ b. b || has_prefix "TZ=" ("CRON_TZ=UTC " ++ spec))
      (has_prefix-append "CRON_TZ=" "CRON_TZ=UTC " spec refl)

pick-has_zone :
    (a b : Bool) (spec tz : String)
    → has_zone spec ≡ b
    → has_zone (
        if not a && not b
        then "CRON_TZ=" ++ (tz ++ (" " ++ spec))
        else if not b
        then "CRON_TZ=UTC " ++ spec
        else spec)
      ≡ true
pick-has_zone true true spec tz h = h
pick-has_zone false true spec tz h = h
pick-has_zone true false spec tz h = utc_zone spec
pick-has_zone false false spec tz h = given_zone spec tz

-- The zone that `buildSpec` gives: the one that the expression names; or else that of the annotation;
-- or else UTC.
abbrev pub Zoned : String → String → String → Type 0
Zoned spec tz built =
    ((has_zone spec ≡ true) × (built ≡ spec))
    ⊎ (((has_zone spec ≡ false) × (tz ≢ "") × (built ≡ "CRON_TZ=" ++ (tz ++ (" " ++ spec))))
        ⊎ ((has_zone spec ≡ false) × (tz ≡ "") × (built ≡ "CRON_TZ=UTC " ++ spec)))

build_spec-Zoned : (spec tz : String) → Zoned spec tz (build_spec spec tz)
unfolding build_spec
build_spec-Zoned spec tz = elim (Bool-cases (has_zone spec)) [
  | inl h ↦ inl (h, build_spec_of_zone spec tz h)
  | inr h ↦ elim (Bool-cases (str_eq tz "")) [
    | inl e ↦ inr (inr (h, ground (arith, eq_iff tz ""), rw (h, e) refl))
    | inr e ↦ inr (inl (h, ground (arith, eq_iff tz ""), rw (h, e) refl))
  ]
]

-- The expression that is parsed always names its zone, and building it again changes nothing, whatever
-- zone is given then. An expression that names its zone is left as it is; or else the zone of the
-- annotation is set before it, if that is not empty; or else UTC.
pub build_spec-has_zone :
    (spec tz tz' : String)
    → Zoned spec tz (build_spec spec tz)
      × (has_zone (build_spec spec tz) ≡ true)
      × (build_spec (build_spec spec tz) tz' ≡ build_spec spec tz)
unfolding build_spec
build_spec-has_zone spec tz tz' =
    let zone = pick-has_zone (str_eq tz "") (has_zone spec) spec tz refl in
    (build_spec-Zoned spec tz, zone, build_spec_of_zone (build_spec spec tz) tz' zone)
