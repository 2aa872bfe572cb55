-- ===== src/Core/Math/Sizing.antt =====
-- core/math.py, how large an order is: leverage targets, and the share of a bar's volume that one
-- order may take.
pub mod Bounds
use wagmi_bench.Prelude.{
  Bool, ◌||◌, not, ◌&&◌, if◌then◌else◌, Result, ok, raise_if, value_error, ◌>>=◌, ◌>>◌,
}
use wagmi_bench.Prelude.Int.{ℤ, pos, ◌-ℤ◌, ◌*ℤ◌, ◌//◌, neg, abs, min_ℤ, leb_ℤ, ltb_ℤ}
use wagmi_bench.Core.Models.{FillQuantity, check_quantity}
use wagmi_bench.Core.Math.Rounding.{fraction, floor_fraction, floor_to_step}

unfoldable pub raw_target_quantity_base_1e8 : ℤ → ℤ → ℤ → ℤ → ℤ → ℤ → Result ℤ
unfolding ◌>>=◌
raw_target_quantity_base_1e8 target_lev_1e4 equity_micro ref_px_ticks tick_size_micro leverage_scale
      qty_scale =
    do
      raise_if (ltb_ℤ equity_micro (pos 0)) value_error
      raise_if (leb_ℤ ref_px_ticks (pos 0) || leb_ℤ tick_size_micro (pos 0)) value_error
      raise_if (leb_ℤ leverage_scale (pos 0) || leb_ℤ qty_scale (pos 0)) value_error
      let raw_abs = floor_fraction (
          fraction (abs target_lev_1e4 *ℤ equity_micro *ℤ qty_scale)
            (leverage_scale *ℤ ref_px_ticks *ℤ tick_size_micro))
      ok (if leb_ℤ (pos 0) target_lev_1e4 then raw_abs else neg raw_abs)

unfoldable pub target_quantity_base_1e8 : ℤ → ℤ → ℤ → ℤ → ℤ → ℤ → ℤ → Result ℤ
unfolding ◌>>=◌
target_quantity_base_1e8 target_lev_1e4 equity_micro ref_px_ticks tick_size_micro qty_step_base_1e8
      leverage_scale qty_scale =
    do
      raw ←
          raw_target_quantity_base_1e8 target_lev_1e4 equity_micro ref_px_ticks tick_size_micro
            leverage_scale qty_scale
      floor_to_step raw qty_step_base_1e8

unfoldable pub participation_capacity_base_1e8 : ℤ → ℤ → ℤ → ℤ → Result ℤ
unfolding ◌>>=◌
participation_capacity_base_1e8 bar_volume_base_1e8 participation_cap_1e8 qty_step_base_1e8
      rate_scale =
    do
      raise_if (ltb_ℤ bar_volume_base_1e8 (pos 0)) value_error
      raise_if (not (leb_ℤ (pos 0) participation_cap_1e8 && leb_ℤ participation_cap_1e8 rate_scale))
          value_error
      let raw_capacity =
          floor_fraction (fraction (bar_volume_base_1e8 *ℤ participation_cap_1e8) rate_scale)
      floor_to_step raw_capacity qty_step_base_1e8

unfoldable pub participation_fill : ℤ → ℤ → ℤ → ℤ → ℤ → Result FillQuantity
unfolding ◌>>=◌
participation_fill requested_qty_base_1e8 bar_volume_base_1e8 participation_cap_1e8
      qty_step_base_1e8 rate_scale =
    do
      raise_if (ltb_ℤ requested_qty_base_1e8 (pos 0)) value_error
      capacity ←
          participation_capacity_base_1e8 bar_volume_base_1e8 participation_cap_1e8
            qty_step_base_1e8 rate_scale
      filled ← floor_to_step (min_ℤ requested_qty_base_1e8 capacity) qty_step_base_1e8
      check_quantity (record {
        requested_qty_base_1e8 = requested_qty_base_1e8;
        capacity_qty_base_1e8 = capacity;
        filled_qty_base_1e8 = filled;
        cancelled_qty_base_1e8 = requested_qty_base_1e8 -ℤ filled;
      })
