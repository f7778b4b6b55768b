-- ===== src/Controller/Examples.antt =====
-- A cluster of two pods under a small clock, on which the theorems about service.go are applied.
pub mod Testbed
mod Evictions
mod Restarts
mod Loop
mod Stops
