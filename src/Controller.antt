-- ===== src/Controller.antt =====
-- internal/logic/controller: the eviction controller. `Platform` has what the service is given
-- (the repository port, the cron parser, the clock, quantities and floats), `State` its mutable
-- fields and the monad of its methods; the other children follow the methods of service.go.
pub mod Platform
pub mod State
pub mod Threshold
pub mod Evict
pub mod Process
pub mod Schedule
pub mod Reconcile
pub mod Shutdown
pub mod Examples
