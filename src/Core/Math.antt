-- ===== src/Core/Math.antt =====
-- core/math.py, function by function: exact exchange arithmetic on integers.
pub mod Rounding
pub mod Sizing
pub mod Fill
pub mod Pnl
pub mod Margin
