-- ===== src/Adapter/Patch.antt =====
-- `SetAnnotationCommand` of internal/adapters/outbound/k8s/adapter.go: the merge patch of an annotation.
pub mod RoundTrip
mod Examples
use preoomkiller_controller.Common.{String, if◌then◌else◌, Option, none, some}
use text.Mathlib.Text.{◌==◌ as str_eq}
use preoomkiller_controller.Common.Error.{Error, Result, ok, err, wrap}

-- The values that are marshalled: nil, a text, and a map of one entry.
pub data Json : Type 0 where
  null : Json
  string : String → Json
  entry : String → Json → Json

-- An empty value is sent as null.
abbrev pub annotation_value : String → Json
annotation_value value = if str_eq value "" then null else string value

abbrev pub annotation_patch : String → String → Json
annotation_patch key value =
    entry "metadata" (entry "annotations" (entry key (annotation_value value)))

-- `json.Marshal`, and the `Patch` of a pod by namespace and name.
pub record PatchClient (World : Type 0) : Type 0 where
  pub marshal : Json → Result String
  pub patch_pod : String → String → String → World → Option Error × World

module _ {World : Type 0} (client : PatchClient World) where
  patched : Option Error × World → Option Error × World
  patched (none, w) = (none, w)
  patched (some e, w) = (some (wrap "patch pod annotation" e), w)

  send_patch : String → String → Result String → World → Option Error × World
  unfolding patched
  send_patch namespace name (err e) w = (some (wrap "marshal annotation patch" e), w)
  send_patch namespace name (ok bytes) w = patched (client.patch_pod namespace name bytes w)

  -- `SetAnnotationCommand`.
  unfoldable pub set_annotation : String → String → String → String → World → Option Error × World
  unfolding send_patch
  set_annotation namespace name key value w =
      send_patch namespace name (client.marshal (annotation_patch key value)) w
