-- ===== src/App/Entry.antt =====
-- `New` of internal/app/app.go, which builds the parts from the settings, and `run` and `main` of
-- cmd/preoomkiller-controller/main.go.
pub mod Exit
pub mod Settled
mod Examples
use preoomkiller_controller.Common.{ℕ, String, Option, none, some}
use preoomkiller_controller.Common.Int.{ℤ}
use preoomkiller_controller.Common.Error.{Error, Result, ok, err, wrap}
use preoomkiller_controller.Config.{Environment, Config, load}
use preoomkiller_controller.Controller.Platform.{Config as ControllerConfig}
use preoomkiller_controller.HttpServer.{Server, new_http_server, new_metrics_server}
use preoomkiller_controller.AppState.{AppState, new}
use preoomkiller_controller.Pinger.Service.{new_service}
use preoomkiller_controller.App.{App, AppSystem}
use preoomkiller_controller.App.Run.{Program, run}

-- The Kubernetes libraries: `BuildConfigFromFlags`, and `NewForConfig` of the two client sets.
pub record Clients : Type 1 where
  pub KubeConfig : Type 0
  pub Clientset : Type 0
  pub MetricsClientset : Type 0
  pub build_config_from_flags : String → String → Result KubeConfig
  pub new_clientset : KubeConfig → Result Clientset
  pub new_metrics_clientset : KubeConfig → Result MetricsClientset

abbrev pub preoomkiller_annotation_restart_at_key : String
preoomkiller_annotation_restart_at_key = "preoomkiller.beta.k8s.skillcoder.com/restart-at"

-- The arguments of `controller.New`.
abbrev pub controller_config : Config → ControllerConfig
controller_config cfg = record {
  interval = cfg.interval;
  label_selector = cfg.pod_label_selector;
  annotation_memory_threshold_key = cfg.annotation_memory_threshold_key;
  annotation_restart_schedule_key = cfg.annotation_restart_schedule_key;
  annotation_tz_key = cfg.annotation_tz_key;
  annotation_restart_at_key = preoomkiller_annotation_restart_at_key;
  jitter_max = cfg.restart_schedule_jitter_max;
  min_pod_age_before_eviction = cfg.min_pod_age_before_eviction;
}

module _ (clients : Clients) where
  open clients use {KubeConfig, Clientset, MetricsClientset}

  -- What `New` puts together: the clients of the adapter, the settings of the controller, and the
  -- servers.
  pub record Wiring : Type 0 where
    pub clientset : Clientset
    pub metrics_clientset : MetricsClientset
    pub controller : ControllerConfig
    pub http_server : Server
    pub metrics_server : Server

  with_clients : Config → Clientset → Result MetricsClientset → Result Wiring
  with_clients cfg clientset (err e) = err (wrap "create metrics clientset" e)
  with_clients cfg clientset (ok metrics_clientset) = ok (record {
    clientset = clientset;
    metrics_clientset = metrics_clientset;
    controller = controller_config cfg;
    http_server = new_http_server cfg.http_port;
    metrics_server = new_metrics_server cfg.metrics_port;
  })

  with_clientset : Config → KubeConfig → Result Clientset → Result Wiring
  unfolding with_clients
  with_clientset cfg kube_config (err e) = err (wrap "create clientset" e)
  with_clientset cfg kube_config (ok clientset) =
      with_clients cfg clientset (clients.new_metrics_clientset kube_config)

  with_kube_config : Config → Result KubeConfig → Result Wiring
  unfolding with_clientset
  with_kube_config cfg (err e) = err (wrap "build k8s config" e)
  with_kube_config cfg (ok kube_config) =
      with_clientset cfg kube_config (clients.new_clientset kube_config)

  -- `New`.
  unfoldable pub new_app : Config → Result Wiring
  unfolding with_kube_config
  new_app cfg =
      with_kube_config cfg (clients.build_config_from_flags cfg.kube_master cfg.kube_config)

  -- What becomes of the wiring and of the interval of the pingers: the components and the system that
  -- `Run` meets.
  pub record Assembly (World : Type 0) : Type 0 where
    pub app : Wiring → App World
    pub program : Wiring → ℤ → Program World

  -- How `run` ends: before the application runs, or as its `Run` leaves it.
  pub data Ending (World : Type 0) : Type 0 where
    not_built : Error → Ending World
    ran : Wiring → Config → Option Error → AppSystem World → Ending World

  module _ {World : Type 0} (assembly : Assembly World) (env : Environment) where
    built : ℤ → World → Config → Result Wiring → Ending World
    built start w cfg (err e) = not_built (wrap "new application" e)
    built start w cfg (ok wiring) =
        let (answer, s) =
          run (assembly.program wiring cfg.pinger_interval) (assembly.app wiring)
            (record { state = new start; registry = new_service; world = w }) in
        ran wiring cfg answer s

    loaded : ℤ → World → Result Config → Ending World
    unfolding built
    loaded start w (err e) = not_built (wrap "load config" e)
    loaded start w (ok cfg) = built start w cfg (new_app cfg)

    -- `run`, in a program that started at that time.
    unfoldable pub run_main : ℤ → World → Ending World
    unfolding loaded
    run_main start w = loaded start w (load env)

  abbrev pub answer_of : {World : Type 0} → Ending World → Option Error
  answer_of (not_built e) = some e
  answer_of (ran wiring cfg answer s) = answer

-- The exit code of `main`, from the answer of `run`.
abbrev pub exit_code : Option Error → ℕ
exit_code none = 0
exit_code (some e) = 1
