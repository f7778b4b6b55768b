-- ===== src/Adapter/Examples.antt =====
-- Cron expressions on concrete values.
use preoomkiller_controller.Common.{◌≡◌, true}
use preoomkiller_controller.Adapter.{has_zone, build_spec}
use preoomkiller_controller.Adapter.Zones.{Zoned, build_spec-has_zone}

build_spec-has_zone_example :
    Zoned "40 7 * * *" "Europe/Paris" (build_spec "40 7 * * *" "Europe/Paris")
    × (has_zone (build_spec "40 7 * * *" "Europe/Paris") ≡ true)
    × (build_spec (build_spec "40 7 * * *" "Europe/Paris") "UTC"
        ≡ build_spec "40 7 * * *" "Europe/Paris")
build_spec-has_zone_example = build_spec-has_zone "40 7 * * *" "Europe/Paris" "UTC"
