-- ===== src/Adapter/Patch/Examples.antt =====
-- A merge of patches by RFC 7386 as far as an annotation goes, and a restart that goes through it.
use preoomkiller_controller.Common.{◌≡◌, ◌≢◌, refl, String, none, some, [], ◌∷◌, arith}
use text.Mathlib.TextEquality.{eq_iff}
use preoomkiller_controller.Common.Int.{ℤ, pos, ◌+ℤ◌}
use preoomkiller_controller.Common.Dict.{Dict, lookup, insert, delete, lookup-insert, lookup-delete}
use preoomkiller_controller.Common.Error.{ok, foreign, wrap}
use preoomkiller_controller.Controller.Platform.{Env}
use preoomkiller_controller.Controller.State.{annotate}
use preoomkiller_controller.Controller.Schedule.{schedule_eviction, process_scheduled_restart}
use preoomkiller_controller.Controller.Examples.Testbed.{numbers, env, config, at_time}
use preoomkiller_controller.Adapter.{ApiPod, to_domain_pod}
use preoomkiller_controller.Adapter.Patch.{Json, null, string, entry, PatchClient, set_annotation}
use preoomkiller_controller.Adapter.Patch.RoundTrip.{
  MergesPatches, annotated, restart_at_round_trip,
}

abbrev put : String → Json → Dict String → Dict String
put key null m = delete key m
put key (string value) m = insert key value m
put key (entry inner value) m = m

abbrev put_annotation : Json → Dict String → Dict String
put_annotation null m = m
put_annotation (string value) m = m
put_annotation (entry key value) m = put key value m

abbrev put_metadata : Json → Dict String → Dict String
put_metadata null m = m
put_metadata (string value) m = m
put_metadata (entry annotations value) m = put_annotation value m

abbrev merge : Json → Dict String → Dict String
merge null m = m
merge (string value) m = m
merge (entry metadata value) m = put_metadata value m

keeps_others :
    (key other : String) (value : Json) (m : Dict String)
    → key ≢ other
    → lookup other (put key value m) ≡ lookup other m
keeps_others key other null m h = ground (arith, lookup-delete key other m, eq_iff key other)
keeps_others key other (string value) m h =
    ground (arith, lookup-insert key other value m, eq_iff key other)
keeps_others key other (entry inner value) m h = refl

merge-MergesPatches : MergesPatches merge
merge-MergesPatches = record {
  sets = λ key value m. ground (arith, lookup-insert key key value m, eq_iff key key);
  keeps = keeps_others;
}

-- A client that refuses to patch in one namespace.
abbrev client : PatchClient (Dict String)
client = record {
  marshal = λ patch. ok "{}";
  patch_pod = λ namespace name bytes w. (some (foreign "conflict"), w);
}

refused_patch :
    (set_annotation client "apps" "nightly" "restart-at" "T500" []).0
    ≡ some (wrap "patch pod annotation" (foreign "conflict"))
unfolding set_annotation
refused_patch = refl

abbrev timed : Env numbers
timed = record env { format_rfc3339 = λ t. "T500" }

abbrev new_pod : ApiPod ℤ
new_pod = record {
  name = "nightly";
  namespace = "apps";
  annotations = ("restart-schedule", "40 7 * * *") ∷ [];
  creation_timestamp = pos 20;
  containers = [];
}

restart_at_round_trip_example :
    ((process_scheduled_restart timed config (to_domain_pod numbers new_pod) (at_time 440)).1.calls
      ≡ annotate "apps" "nightly" "restart-at" "T500" none ∷ [])
    × (process_scheduled_restart timed config
          (to_domain_pod numbers (annotated timed config merge new_pod "T500"))
          (at_time 450)
        ≡ schedule_eviction timed config "apps" "nightly" (pos 500) (at_time 451))
unfolding lookup to_domain_pod ◌+ℤ◌
restart_at_round_trip_example =
    restart_at_round_trip timed config merge new_pod (pos 500) (at_time 440) (at_time 450)
      merge-MergesPatches refl refl (λ e. cc) refl (omega arith)
