-- ===== src/Spec.antt =====
-- The package `spec`: canonical JSON and hash chains.
pub mod Canonical
pub mod Chain
