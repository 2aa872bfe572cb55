-- ===== src/Core/Math/Fill.antt =====
-- core/math.py, what an order costs: spread, impact, fill price, notional, fee and slippage, and
-- `calculate_fill`, which composes them.
pub mod Costs
pub mod Adverse
use wagmi_bench.Prelude.{Bool, ◌||◌, if◌then◌else◌, Result, ok, raise_if, value_error, ◌>>=◌, ◌>>◌}
use wagmi_bench.Prelude.Int.{ℤ, pos, ◌+ℤ◌, ◌-ℤ◌, ◌*ℤ◌, ◌//◌, abs, leb_ℤ, ltb_ℤ, eqb_ℤ}
use wagmi_bench.Core.Models.{
  Side, buy, sell, ImpactModel, linear, sqrt, FillQuantity, FillCalculation,
}
use wagmi_bench.Core.Math.Rounding.{
  fraction, floor_fraction, ceil_fraction, ceil_sqrt_fraction, apply_cost_multiplier, qty_scale,
  cost_multiplier_scale,
}
use wagmi_bench.Core.Math.Sizing.{participation_fill}

unfoldable pub half_spread_ticks : ℤ → ℤ → ℤ → Result ℤ
unfolding ◌>>=◌
half_spread_ticks ref_px_ticks half_spread_1e8 rate_scale = do
  raise_if (leb_ℤ ref_px_ticks (pos 0)) value_error
  raise_if (ltb_ℤ half_spread_1e8 (pos 0)) value_error
  ok (ceil_fraction (fraction (ref_px_ticks *ℤ half_spread_1e8) rate_scale))

-- The two impact models. The last line of the source, for an unknown model, is out of reach here.
unfoldable pub modeled_impact : ImpactModel → ℤ → ℤ → ℤ → ℤ → ℤ → Result ℤ
modeled_impact linear ref_px_ticks filled volume coeff rate_scale =
    ok (ceil_fraction (fraction (ref_px_ticks *ℤ coeff *ℤ filled) (rate_scale *ℤ volume)))
modeled_impact sqrt ref_px_ticks filled volume coeff rate_scale = ceil_sqrt_fraction (
    fraction (ref_px_ticks *ℤ ref_px_ticks *ℤ coeff *ℤ coeff *ℤ filled)
      (rate_scale *ℤ rate_scale *ℤ volume))

unfoldable pub impact_ticks : ℤ → ℤ → ℤ → ℤ → ImpactModel → ℤ → Result ℤ
unfolding ◌>>=◌
impact_ticks ref_px_ticks filled_qty_base_1e8 bar_volume_base_1e8 impact_coeff_1e8 impact_model
      rate_scale =
    do
      raise_if (leb_ℤ ref_px_ticks (pos 0)) value_error
      raise_if (ltb_ℤ filled_qty_base_1e8 (pos 0) || ltb_ℤ impact_coeff_1e8 (pos 0)) value_error
      if eqb_ℤ filled_qty_base_1e8 (pos 0) || eqb_ℤ impact_coeff_1e8 (pos 0) then ok (pos 0) else do
        raise_if (leb_ℤ bar_volume_base_1e8 (pos 0)) value_error
        raise_if (ltb_ℤ bar_volume_base_1e8 filled_qty_base_1e8) value_error
        modeled_impact impact_model ref_px_ticks filled_qty_base_1e8 bar_volume_base_1e8
            impact_coeff_1e8 rate_scale

-- `ref + adjustment if side == "buy" else ref - adjustment`
unfoldable pub adjusted_price : Side → ℤ → ℤ → ℤ
adjusted_price buy ref_px_ticks adjustment = ref_px_ticks +ℤ adjustment
adjusted_price sell ref_px_ticks adjustment = ref_px_ticks -ℤ adjustment

unfoldable pub fill_price_ticks : Side → ℤ → ℤ → ℤ → Result ℤ
unfolding ◌>>=◌
fill_price_ticks side ref_px_ticks spread_ticks modeled_impact_ticks = do
  raise_if (leb_ℤ ref_px_ticks (pos 0)) value_error
  raise_if (ltb_ℤ spread_ticks (pos 0) || ltb_ℤ modeled_impact_ticks (pos 0)) value_error
  let price = adjusted_price side ref_px_ticks (spread_ticks +ℤ modeled_impact_ticks)
  raise_if (leb_ℤ price (pos 0)) value_error
  ok price

unfoldable pub notional_micro : ℤ → ℤ → ℤ → ℤ → Result ℤ
unfolding ◌>>=◌
notional_micro qty_base_1e8 px_ticks tick_size_micro scale = do
  raise_if (leb_ℤ px_ticks (pos 0) || leb_ℤ tick_size_micro (pos 0) || leb_ℤ scale (pos 0))
      value_error
  ok (abs qty_base_1e8 *ℤ px_ticks *ℤ tick_size_micro // scale)

unfoldable pub fee_micro : ℤ → ℤ → ℤ → Result ℤ
unfolding ◌>>=◌
fee_micro fill_notional_micro fee_rate_1e8 rate_scale = do
  raise_if (ltb_ℤ fill_notional_micro (pos 0) || ltb_ℤ fee_rate_1e8 (pos 0)) value_error
  ok (ceil_fraction (fraction (fill_notional_micro *ℤ fee_rate_1e8) rate_scale))

unfoldable pub slippage_1e8 : ℤ → ℤ → ℤ → Result ℤ
unfolding ◌>>=◌
slippage_1e8 fill_px_ticks ref_px_ticks rate_scale = do
  raise_if (leb_ℤ fill_px_ticks (pos 0) || leb_ℤ ref_px_ticks (pos 0)) value_error
  ok (floor_fraction (fraction ((fill_px_ticks -ℤ ref_px_ticks) *ℤ rate_scale) ref_px_ticks))

-- The keyword arguments of `calculate_fill`.
pub record FillRequest : Type 0 where
  pub side : Side
  pub requested_qty_base_1e8 : ℤ
  pub bar_volume_base_1e8 : ℤ
  pub participation_cap_1e8 : ℤ
  pub qty_step_base_1e8 : ℤ
  pub ref_px_ticks : ℤ
  pub tick_size_micro : ℤ
  pub half_spread_1e8 : ℤ
  pub impact_coeff_1e8 : ℤ
  pub impact_model : ImpactModel
  pub taker_fee_rate_1e8 : ℤ
  pub cost_multiplier_1e4 : ℤ
  pub rate_scale : ℤ

unfoldable pub calculate_fill : FillRequest → Result FillCalculation
unfolding ◌>>=◌
calculate_fill r = do
  quantities ←
      participation_fill r.requested_qty_base_1e8 r.bar_volume_base_1e8 r.participation_cap_1e8
        r.qty_step_base_1e8 r.rate_scale
  scaled_spread ←
      apply_cost_multiplier r.half_spread_1e8 r.cost_multiplier_1e4 cost_multiplier_scale
  scaled_impact ←
      apply_cost_multiplier r.impact_coeff_1e8 r.cost_multiplier_1e4 cost_multiplier_scale
  scaled_fee ←
      apply_cost_multiplier r.taker_fee_rate_1e8 r.cost_multiplier_1e4 cost_multiplier_scale
  spread ← half_spread_ticks r.ref_px_ticks scaled_spread r.rate_scale
  impact ←
      impact_ticks r.ref_px_ticks quantities.filled_qty_base_1e8 r.bar_volume_base_1e8 scaled_impact
        r.impact_model r.rate_scale
  fill_px ← fill_price_ticks r.side r.ref_px_ticks spread impact
  fill_notional ← notional_micro quantities.filled_qty_base_1e8 fill_px r.tick_size_micro qty_scale
  reference_notional ←
      notional_micro quantities.filled_qty_base_1e8 r.ref_px_ticks r.tick_size_micro qty_scale
  fee ← fee_micro fill_notional scaled_fee r.rate_scale
  slippage ← slippage_1e8 fill_px r.ref_px_ticks r.rate_scale
  ok (record {
    side = r.side;
    quantities = quantities;
    ref_open_px_ticks = r.ref_px_ticks;
    half_spread_ticks = spread;
    impact_ticks = impact;
    fill_px_ticks = fill_px;
    notional_micro = fill_notional;
    reference_notional_micro = reference_notional;
    fee_micro = fee;
    slippage_1e8 = slippage;
  })
