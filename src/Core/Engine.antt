-- ===== src/Core/Engine.antt =====
-- core/engine.py: the episode engine as explicit state passing.
pub mod State
pub mod Valuation
pub mod Position
pub mod Gates
pub mod Order
pub mod Close
pub mod Harness
pub mod Decision
pub mod Turn
pub mod Episode
pub mod Ledger
