-- ===== src/Tests/Arithmetic.antt =====
-- The arithmetic of core/math.py at concrete numbers.
use wagmi_bench.Prelude.{ℕ, ◌≡◌, ◌↔◌, arith, ok, Returns}
use wagmi_bench.Prelude.Int.{pos, negsuc, neg, ◌*ℤ◌, ◌≤ℤ◌}
use wagmi_bench.Core.Models.{sell, linear}
use wagmi_bench.Core.Math.Rounding.{fraction, ceil_sqrt_fraction, apply_cost_multiplier}
use wagmi_bench.Core.Math.Rounding.Bounds.{IsCeil, IsFloor, apply_cost_multiplier-IsCeil}
use wagmi_bench.Core.Math.Rounding.Roots.{IsCeilSqrt, ceil_sqrt_fraction-IsCeilSqrt}
use wagmi_bench.Core.Math.Sizing.{participation_fill}
use wagmi_bench.Core.Math.Sizing.Bounds.{IsCappedFill, participation_fill-IsCappedFill}
use wagmi_bench.Core.Math.Fill.{FillRequest, calculate_fill}
use wagmi_bench.Core.Math.Fill.Adverse.{IsGoodRequest, IsPriced, calculate_fill-IsPriced}
use wagmi_bench.Core.Math.Pnl.{clamp_funding_rate_1e8, funding_cash_flow_micro}
use wagmi_bench.Core.Math.Pnl.Laws.{
  venue_amount, clamp_funding_rate-InBand, funding_cash_flow-rounds_down,
}
use wagmi_bench.Core.Math.Margin.{liquidation_price_ticks}
use wagmi_bench.Core.Math.Margin.Liquidation.{
  LongCovered, ShortCovered, liquidation_price-threshold,
}

apply_cost_multiplier_example :
    Returns
      (IsCeil (pos 333 *ℤ pos 15000) (pos 10000))
      (apply_cost_multiplier (pos 333) (pos 15000) (pos 10000))
apply_cost_multiplier_example =
    apply_cost_multiplier-IsCeil (pos 333) (pos 15000) (pos 10000) (omega arith) (omega arith)
      (omega arith)

ceil_sqrt_fraction_example :
    (k : ℕ) × (ceil_sqrt_fraction (fraction (pos 10) (pos 3)) ≡ ok (pos k)) × IsCeilSqrt 10 3 k
ceil_sqrt_fraction_example = ceil_sqrt_fraction-IsCeilSqrt 10 3 (omega arith)

participation_fill_example :
    Returns
      (IsCappedFill (pos 100000) (pos 10000000) (pos 1000) (pos 100000000) (pos 25500))
      (participation_fill (pos 25500) (pos 100000) (pos 10000000) (pos 1000) (pos 100000000))
participation_fill_example =
    participation_fill-IsCappedFill (pos 100000) (pos 10000000) (pos 1000) (pos 100000000)
      (omega arith) (omega arith) (omega arith) (omega arith) (omega arith) (pos 25500)
      (omega arith)

-- A sale of a quarter of a unit at 50000.
abbrev sale : FillRequest
sale = record {
  side = sell;
  requested_qty_base_1e8 = pos 25000000;
  bar_volume_base_1e8 = pos 200000000;
  participation_cap_1e8 = pos 10000000;
  qty_step_base_1e8 = pos 1000;
  ref_px_ticks = pos 50000;
  tick_size_micro = pos 1000000;
  half_spread_1e8 = pos 10000;
  impact_coeff_1e8 = pos 1000000;
  impact_model = linear;
  taker_fee_rate_1e8 = pos 50000;
  cost_multiplier_1e4 = pos 20000;
  rate_scale = pos 100000000;
}

sale-IsGoodRequest : IsGoodRequest sale
sale-IsGoodRequest = record {
  requested_nonneg = omega arith;
  volume_nonneg = omega arith;
  cap_nonneg = omega arith;
  cap-le-scale = omega arith;
  step_pos = omega arith;
  ref_pos = omega arith;
  tick_pos = omega arith;
  spread_nonneg = omega arith;
  coeff_nonneg = omega arith;
  fee_nonneg = omega arith;
  multiplier_pos = omega arith;
  scale_pos = omega arith;
}

calculate_fill_example : IsPriced sale (calculate_fill sale)
calculate_fill_example = calculate_fill-IsPriced sale sale-IsGoodRequest

clamp_funding_rate_example :
    Returns
      (λ r.
        (negsuc 74999 ≤ℤ r)
        × (r ≤ℤ pos 75000)
        × (negsuc 74999 ≤ℤ pos 90000 → pos 90000 ≤ℤ pos 75000 → r ≡ pos 90000))
      (clamp_funding_rate_1e8 (pos 90000) (negsuc 74999) (pos 75000))
clamp_funding_rate_example =
    clamp_funding_rate-InBand (pos 90000) (negsuc 74999) (pos 75000) (omega arith)

funding_cash_flow_example :
    Returns
      (IsFloor
        (neg (venue_amount (negsuc 12344) (pos 50000) (pos 1000000) (pos 10001)))
        (pos 100000000 *ℤ pos 100000000))
      (funding_cash_flow_micro
        (negsuc 12344)
        (pos 50000)
        (pos 1000000)
        (pos 10001)
        (pos 100000000)
        (pos 100000000))
funding_cash_flow_example =
    funding_cash_flow-rounds_down (negsuc 12344) (pos 50000) (pos 1000000) (pos 10001)
      (pos 100000000) (pos 100000000) (omega arith) (omega arith) (omega arith) (omega arith)

liquidation_price_example :
    Returns
      (λ p. (x : ℕ) → (p ≤ℤ pos x) ↔ LongCovered 50000 50000 500000 10000 100000000 x)
      (liquidation_price_ticks
        (pos 50000)
        (pos 1)
        (pos 50000)
        (pos 500000)
        (pos 10000)
        (pos 100000000))
    × Returns
        (λ p. (x : ℕ) → (pos x ≤ℤ p) ↔ ShortCovered 50000 50000 500000 10000 100000000 x)
        (liquidation_price_ticks
          (pos 50000)
          (negsuc 0)
          (pos 50000)
          (pos 500000)
          (pos 10000)
          (pos 100000000))
liquidation_price_example =
    liquidation_price-threshold 50000 50000 500000 10000 100000000 (omega arith) (omega arith)
      (omega arith)
