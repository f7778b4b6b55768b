-- ===== src/Adapter/Repository.antt =====
-- The adapter of internal/adapters/outbound/k8s as the `Repository` port of the controller: `New` of
-- adapter.go, over what the Kubernetes clients do.
pub mod Refusals
mod Examples
use preoomkiller_controller.Common.{String, Option, List}
use preoomkiller_controller.Common.Error.{Error, Result}
use preoomkiller_controller.Controller.Platform.{Numbers, Env, Pod, PodMetrics}
use preoomkiller_controller.Adapter.{Answer, ApiPod, list_pods, get_pod, get_pod_metrics, evict_pod}
use preoomkiller_controller.Adapter.Patch.{PatchClient, set_annotation}

-- The calls of the two client sets, by namespace and name.
pub record Cluster (num : Numbers) (World : Type 0) : Type 0 where
  pub list : String → World → Answer (List (ApiPod num.Quantity)) × World
  pub get : String → String → World → Answer (ApiPod num.Quantity) × World
  pub metrics : String → String → World → Answer (List (Option num.Quantity)) × World
  pub evict : String → String → World → Answer (Unit {0}) × World
  pub patch : PatchClient World

module _ {num : Numbers} (env : Env num) (cluster : Cluster num env.World) where
  open env use {World}

  -- An answer of the clients as one of the port.
  abbrev pub answered : {A B : Type 0} → (A → B) → A × World → B × World
  answered f (a, w) = (f a, w)

  -- The world of the controller, with the adapter as its repository.
  abbrev pub with_repository : Env num
  with_repository = record env {
    list_pods_query = λ selector w. answered (list_pods num) (cluster.list selector w);
    get_pod_query = λ namespace name w. answered (get_pod num) (cluster.get namespace name w);
    get_pod_metrics_query =
        λ namespace name w. answered (get_pod_metrics num) (cluster.metrics namespace name w);
    evict_pod_command = λ namespace name w. answered evict_pod (cluster.evict namespace name w);
    set_annotation_command = set_annotation cluster.patch;
  }
