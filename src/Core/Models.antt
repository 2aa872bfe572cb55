-- ===== src/Core/Models.antt =====
-- core/models.py: the value objects of the exchange arithmetic, with the checks that their
-- constructors make.
use wagmi_bench.Prelude.{
  Bool, ◌||◌, not, Option, Result, ok, raise_if, value_error, arithmetic_error, ◌>>=◌, ◌>>◌,
}
use wagmi_bench.Prelude.Int.{ℤ, pos, ◌+ℤ◌, ◌-ℤ◌, abs, ltb_ℤ, eqb_ℤ}

pub data Side : Type 0 where
  buy sell : Side

pub data ImpactModel : Type 0 where
  linear sqrt : ImpactModel

pub record FillQuantity : Type 0 where
  pub requested_qty_base_1e8 : ℤ
  pub capacity_qty_base_1e8 : ℤ
  pub filled_qty_base_1e8 : ℤ
  pub cancelled_qty_base_1e8 : ℤ

-- `FillQuantity.__post_init__`
unfoldable pub check_quantity : FillQuantity → Result FillQuantity
unfolding ◌>>=◌
check_quantity q = do
  raise_if
      (ltb_ℤ q.requested_qty_base_1e8 (pos 0)
        || ltb_ℤ q.capacity_qty_base_1e8 (pos 0)
        || ltb_ℤ q.filled_qty_base_1e8 (pos 0)
        || ltb_ℤ q.cancelled_qty_base_1e8 (pos 0))
      value_error
  raise_if (ltb_ℤ q.capacity_qty_base_1e8 q.filled_qty_base_1e8) value_error
  raise_if
      (not (eqb_ℤ (q.filled_qty_base_1e8 +ℤ q.cancelled_qty_base_1e8) q.requested_qty_base_1e8))
      value_error
  ok q

pub record FillCalculation : Type 0 where
  pub side : Side
  pub quantities : FillQuantity
  pub ref_open_px_ticks : ℤ
  pub half_spread_ticks : ℤ
  pub impact_ticks : ℤ
  pub fill_px_ticks : ℤ
  pub notional_micro : ℤ
  pub reference_notional_micro : ℤ
  pub fee_micro : ℤ
  pub slippage_1e8 : ℤ

unfoldable pub fill_cost_micro : FillCalculation → ℤ
fill_cost_micro f = abs (f.notional_micro -ℤ f.reference_notional_micro)

pub record LedgerDelta : Type 0 where
  pub d_nav_micro : ℤ
  pub d_price_pnl_micro : ℤ
  pub d_funding_micro : ℤ
  pub d_fees_micro : ℤ
  pub d_liq_penalty_micro : ℤ

unfoldable pub attributed_nav_micro : LedgerDelta → ℤ
attributed_nav_micro d =
    d.d_price_pnl_micro +ℤ d.d_funding_micro +ℤ d.d_fees_micro +ℤ d.d_liq_penalty_micro

unfoldable pub is_balanced : LedgerDelta → Bool
unfolding attributed_nav_micro
is_balanced d = eqb_ℤ d.d_nav_micro (attributed_nav_micro d)

unfoldable pub require_balanced : LedgerDelta → Result (Unit {0})
unfolding is_balanced
require_balanced d = raise_if (not (is_balanced d)) arithmetic_error

pub record DistanceStatistics : Type 0 where
  pub min_intrabar_1e8 : Option ℤ
  pub p05_close_1e8 : Option ℤ
  pub p25_close_1e8 : Option ℤ
  pub median_close_1e8 : Option ℤ
