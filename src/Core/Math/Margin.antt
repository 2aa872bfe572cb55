-- ===== src/Core/Math/Margin.antt =====
-- core/math.py, margins and liquidation.
pub mod Liquidation
use wagmi_bench.Prelude.{
  Bool, true, false, ◌||◌, ◌&&◌, not, if◌then◌else◌, Result, ok, raise_if, value_error, ◌>>=◌, ◌>>◌,
}
use wagmi_bench.Prelude.Int.{ℤ, pos, negsuc, ◌+ℤ◌, ◌-ℤ◌, ◌*ℤ◌, ◌//◌, abs, leb_ℤ, ltb_ℤ, eqb_ℤ}
use wagmi_bench.Core.Math.Rounding.{
  Fraction, fraction, fraction_mul, fraction_div, floor_fraction, ceil_fraction,
}
use wagmi_bench.Core.Math.Fill.{notional_micro, fee_micro}
use wagmi_bench.Core.Math.Pnl.{is_sign}

unfoldable pub margin_used_micro : ℤ → ℤ → ℤ → ℤ → ℤ → ℤ → Result ℤ
unfolding ◌>>=◌
margin_used_micro position_qty_base_1e8 entry_px_ticks tick_size_micro target_leverage_1e4 qty_scale
      leverage_scale =
    if eqb_ℤ position_qty_base_1e8 (pos 0) then ok (pos 0) else do
      raise_if (leb_ℤ entry_px_ticks (pos 0) || leb_ℤ tick_size_micro (pos 0)) value_error
      raise_if (leb_ℤ target_leverage_1e4 (pos 0)) value_error
      ok (
          floor_fraction (
            fraction
              (abs position_qty_base_1e8 *ℤ entry_px_ticks *ℤ tick_size_micro *ℤ leverage_scale)
              (qty_scale *ℤ target_leverage_1e4)))

unfoldable pub maintenance_margin_micro : ℤ → ℤ → ℤ → ℤ → ℤ → ℤ → Result ℤ
unfolding ◌>>=◌
maintenance_margin_micro position_qty_base_1e8 mark_px_ticks tick_size_micro maintenance_rate_1e8
      qty_scale rate_scale =
    if eqb_ℤ position_qty_base_1e8 (pos 0) then ok (pos 0) else do
      raise_if (leb_ℤ mark_px_ticks (pos 0) || leb_ℤ tick_size_micro (pos 0)) value_error
      raise_if (ltb_ℤ maintenance_rate_1e8 (pos 0)) value_error
      ok (
          ceil_fraction (
            fraction
              (abs position_qty_base_1e8
                *ℤ mark_px_ticks
                *ℤ tick_size_micro
                *ℤ maintenance_rate_1e8)
              (qty_scale *ℤ rate_scale)))

-- The branch of `liquidation_price_ticks` for a long position.
unfoldable pub long_liquidation : ℤ → ℤ → ℤ → ℤ → ℤ → ℤ
long_liquidation entry_px_ticks target_leverage_1e4 maintenance_rate_1e8 leverage_scale rate_scale =
    let numerator =
      fraction_mul (fraction entry_px_ticks (pos 1))
        (fraction (target_leverage_1e4 -ℤ leverage_scale) target_leverage_1e4) in
    if leb_ℤ numerator.numerator (pos 0)
    then pos 0
    else ceil_fraction
        (fraction_div numerator (fraction (rate_scale -ℤ maintenance_rate_1e8) rate_scale))

-- The branch of `liquidation_price_ticks` for a short position.
unfoldable pub short_liquidation : ℤ → ℤ → ℤ → ℤ → ℤ → ℤ
short_liquidation entry_px_ticks target_leverage_1e4 maintenance_rate_1e8 leverage_scale
      rate_scale =
    let numerator =
      fraction_mul (fraction entry_px_ticks (pos 1))
        (fraction (target_leverage_1e4 +ℤ leverage_scale) target_leverage_1e4) in
    floor_fraction
      (fraction_div numerator (fraction (rate_scale +ℤ maintenance_rate_1e8) rate_scale))

unfoldable pub liquidation_price_ticks : ℤ → ℤ → ℤ → ℤ → ℤ → ℤ → Result ℤ
unfolding ◌>>=◌
liquidation_price_ticks entry_px_ticks position_sign target_leverage_1e4 maintenance_rate_1e8
      leverage_scale rate_scale =
    do
      raise_if (leb_ℤ entry_px_ticks (pos 0)) value_error
      raise_if (not (is_sign position_sign)) value_error
      raise_if (leb_ℤ target_leverage_1e4 (pos 0)) value_error
      raise_if (not (leb_ℤ (pos 0) maintenance_rate_1e8 && ltb_ℤ maintenance_rate_1e8 rate_scale))
          value_error
      ok (
          if ltb_ℤ (pos 0) position_sign
          then long_liquidation entry_px_ticks target_leverage_1e4 maintenance_rate_1e8
              leverage_scale rate_scale
          else short_liquidation entry_px_ticks target_leverage_1e4 maintenance_rate_1e8
              leverage_scale rate_scale)

-- The part of `distance_to_liquidation_1e8` that depends on the side: the numerator, or an answer.
unfoldable pub distance_for_side : Bool → ℤ → ℤ → ℤ → Result ℤ
unfolding ◌>>=◌
distance_for_side true current_px_ticks liquidation_px_ticks rate_scale = ok (
    if leb_ℤ liquidation_px_ticks (pos 0)
    then rate_scale
    else floor_fraction
        (fraction ((current_px_ticks -ℤ liquidation_px_ticks) *ℤ rate_scale) current_px_ticks))
distance_for_side false current_px_ticks liquidation_px_ticks rate_scale = do
  raise_if (leb_ℤ liquidation_px_ticks (pos 0)) value_error
  ok (
      floor_fraction
        (fraction ((liquidation_px_ticks -ℤ current_px_ticks) *ℤ rate_scale) current_px_ticks))

unfoldable pub distance_to_liquidation_1e8 : ℤ → ℤ → ℤ → ℤ → Result ℤ
unfolding ◌>>=◌
distance_to_liquidation_1e8 current_px_ticks liquidation_px_ticks position_sign rate_scale = do
  raise_if (leb_ℤ current_px_ticks (pos 0)) value_error
  raise_if (not (is_sign position_sign)) value_error
  distance_for_side (ltb_ℤ (pos 0) position_sign) current_px_ticks liquidation_px_ticks rate_scale

unfoldable pub liquidation_crossed : ℤ → ℤ → ℤ → ℤ → Result Bool
unfolding ◌>>=◌
liquidation_crossed position_qty_base_1e8 liquidation_px_ticks mark_high_ticks mark_low_ticks = do
  raise_if (leb_ℤ mark_high_ticks (pos 0) || leb_ℤ mark_low_ticks (pos 0)) value_error
  raise_if (ltb_ℤ mark_high_ticks mark_low_ticks) value_error
  ok (
      if ltb_ℤ (pos 0) position_qty_base_1e8
      then ltb_ℤ (pos 0) liquidation_px_ticks && leb_ℤ mark_low_ticks liquidation_px_ticks
      else if ltb_ℤ position_qty_base_1e8 (pos 0)
      then leb_ℤ liquidation_px_ticks mark_high_ticks
      else false)

unfoldable pub conservative_liquidation_close_price_ticks : ℤ → ℤ → ℤ → Result ℤ
unfolding ◌>>=◌
conservative_liquidation_close_price_ticks position_sign mark_high_ticks mark_low_ticks = do
  raise_if (not (is_sign position_sign)) value_error
  raise_if (leb_ℤ mark_low_ticks (pos 0) || ltb_ℤ mark_high_ticks mark_low_ticks) value_error
  ok (if ltb_ℤ (pos 0) position_sign then mark_low_ticks else mark_high_ticks)

unfoldable pub liquidation_penalty_micro : ℤ → ℤ → ℤ → ℤ → ℤ → ℤ → Result ℤ
unfolding ◌>>=◌
liquidation_penalty_micro position_qty_base_1e8 close_px_ticks tick_size_micro penalty_rate_1e8
      qty_scale rate_scale =
    do
      close_notional ← notional_micro position_qty_base_1e8 close_px_ticks tick_size_micro qty_scale
      fee_micro close_notional penalty_rate_1e8 rate_scale
