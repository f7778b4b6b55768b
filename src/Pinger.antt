-- ===== src/Pinger.antt =====
-- internal/infra/pinger: the health checks that run at intervals, and their statistics.
pub mod Buffer
pub mod Figures
pub mod Stats
pub mod Service
pub mod Rounds
mod Examples
