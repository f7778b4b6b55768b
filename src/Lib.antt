-- ===== src/Lib.antt =====
-- The preoomkiller controller, which evicts pods before the kernel kills them for their memory: a
-- pod is evicted over the API server when its usage passes the threshold of its annotation, or at
-- the times of its cron annotation.
--
-- The program's parts. `Service` of internal/logic/controller/service.go runs the loop `RunCommand`:
-- each round lists the labelled pods through the port `Repository`, hands a pod with a schedule to
-- `processScheduledRestart`, which arms timers, and a pod with a threshold to `processPod`.
-- Both evict through `evictPodCommand`. A timer's callback `runScheduledEviction` runs in its own
-- goroutine; `Shutdown` stops the timers and waits for the loop and for the callbacks. The pinger
-- service of internal/infra/pinger pings the components at intervals and keeps their statistics.
-- `AppState` of internal/infra/appstate holds the phase of the application, answers the probes, and
-- shuts the components down in the reverse order of their registration. `Run` of
-- internal/app/app.go starts the two servers of internal/httpserver and the controller, registers
-- each, waits until all are ready and then until its context is done, and shuts down; `main` builds
-- the parts from the settings of internal/config and runs them.
--
-- Files and code:
--   * Common: numbers, `int64` and `time` arithmetic (Common/Int), maps (Common/Dict), Go's strings
--     (Common/Text), and error values with `errors.Is` and `errors.As` (Common/Error).
--   * Controller/Platform: dto.go, interfaces.go and constants.go of internal/logic/controller, the
--     settings of `Service`, and the outside world as the record `Env`. Controller/State: the
--     mutable fields of `Service` as the record `State`, and a method as an `Action` on it, which
--     returns or panics. The commands sent to the cluster are logged in `State.calls`.
--   * Controller/Threshold: `resolveMemoryThreshold`, `resolveMemoryThresholdFromPercent`.
--   * Controller/Evict: `evictPodCommand`. Controller/Process: `processPod` and
--     `getPodMemoryUsageOrSkip`.
--   * Controller/Schedule: `scheduleEviction`, `runScheduledEviction`, `stopPendingTimers`,
--     `processScheduledRestart` and `handleExistingRestartAt`.
--   * Controller/Reconcile: `ReconcileCommand`, `reconcileOnePod`, `RunCommand`, `Start`, `Ping`.
--   * Controller/Shutdown: `Shutdown`, interleaved with the loop, the timers and the callbacks as a
--     step relation.
--   * Pinger/Buffer: `LatencyBuffer`. Pinger/Figures: the percentiles, the median and the average.
--     Pinger/Stats: `Stats`, `GetStatistics`, and the update of one pinger. All of these are in
--     internal/infra/pinger/statistics.go. Pinger/Service: the registry of
--     internal/infra/pinger/pinger.go. Pinger/Rounds: its loop, pings and `Shutdown` as a step relation.
--   * Config: internal/config. Adapter: the Kubernetes adapter of internal/adapters/outbound/k8s and
--     the cron parser of internal/infra/cronparser. Adapter/Patch: the patch of an annotation.
--     Adapter/Repository: the adapter as the port of Controller/Platform.
--   * Shutdown: internal/infra/shutdown/shutdown.go. AppState: internal/infra/appstate/appstate.go, with
--     the handlers of handlers.go (AppState/Status for the status page); its `Shutdown` calls
--     `GracefulShutdown` on the components.
--   * HttpServer: the two servers of internal/httpserver. HttpServer/Life: `Start`, the goroutine that it
--     leaves behind and `Shutdown` as a step relation.
--   * App: `startServices` of internal/app/app.go, over the application state and the registry of
--     pingers. App/Channels: `allChannelsClose` and its goroutines as a step relation. App/Run: `Run`,
--     which goes through `initialize`, `startServices`, `waitForReady` and `runUntilShutdown`.
--     App/Servers: the servers as the components of the application. App/Entry: `New`, and `run` and
--     `main` of cmd/preoomkiller-controller/main.go.
--   * Logging: internal/infra/logging. MemoryLeaker: examples/memory-leaker/main.go.
--   * The modules named Examples: concrete runs.
--
-- Bounds and fuel. `run_command` watches the endless loop of `RunCommand` for a number of rounds that
-- its theorems leave open. Every other loop is over a list, and the goroutines of the step
-- relations take any number of steps. A `time.Duration` is an `int64`: sums wrap, and differences of
-- times saturate, as package time documents. The `int32` count of `allChannelsClose` wraps as well.
--
-- Not modelled: log messages, the timeout of the context of a scheduled eviction (the port may answer
-- with any error), the metric's registration, the Kubernetes and cron libraries (parameters), the
-- middleware and the routers of the servers, generated mocks and tests.
pub mod Common
pub mod Controller
pub mod Pinger
pub mod Shutdown
pub mod AppState
pub mod Config
pub mod Adapter
pub mod HttpServer
pub mod Logging
pub mod MemoryLeaker
pub mod App
