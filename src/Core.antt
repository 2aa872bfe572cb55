-- ===== src/Core.antt =====
-- The package `core`: the exchange arithmetic, the metrics and the episode engine.
pub mod Models
pub mod Math
pub mod Metrics
pub mod Config
pub mod Pack
pub mod Observation
pub mod Engine
pub mod Action
