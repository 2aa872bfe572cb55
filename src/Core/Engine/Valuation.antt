-- ===== src/Core/Engine/Valuation.antt =====
-- core/engine.py, what an account is worth at a bar: unrealised profit, margins, the snapshot of a
-- bar, the drawdown of a run.
use wagmi_bench.Prelude.{
  ℕ, Option, none, some, List, [], ◌∷◌, get_elem?, if◌then◌else◌, Result, ok, err, raise_if,
  or_raise, index_error, engine_error, ◌>>=◌, ◌>>◌,
}
use wagmi_bench.Prelude.Int.{ℤ, pos, ◌+ℤ◌, ◌-ℤ◌, ◌*ℤ◌, max_ℤ, leb_ℤ, ltb_ℤ, eqb_ℤ}
use wagmi_bench.Core.Pack.{BarRow, MarginTier, MarketSpec, MarketData}
use wagmi_bench.Core.Math.Rounding.{fraction, floor_fraction, rate_scale, qty_scale, leverage_scale}
use wagmi_bench.Core.Math.Fill.{notional_micro}
use wagmi_bench.Core.Math.Pnl.{unrealized_pnl_micro}
use wagmi_bench.Core.Math.Margin.{
  margin_used_micro, maintenance_margin_micro, liquidation_price_ticks, distance_to_liquidation_1e8,
}
use wagmi_bench.Core.Engine.State.{Account, Snapshot, sign}

-- The loop of `_maintenance_rate` over the tiers; `last` is the tier before.
tier_rate : ℤ → MarginTier → List MarginTier → ℤ
tier_rate notional last [] = last.maintenance_rate_1e8
tier_rate notional last (tier ∷ tiers) =
    let later = tier_rate notional tier tiers in
    if leb_ℤ notional tier.notional_cap_micro then tier.maintenance_rate_1e8 else later

-- `_maintenance_rate`; with no tier the source's `margin_tiers[-1]` raises.
unfoldable pub maintenance_rate : MarketSpec → ℤ → Result ℤ
unfolding tier_rate
maintenance_rate spec notional = elim spec.margin_tiers [
  | [] ↦ err index_error
  | tier ∷ tiers ↦ ok (tier_rate notional tier (tier ∷ tiers))
]

-- `_upnl`
unfoldable pub upnl : Account → ℤ → MarketSpec → Result ℤ
upnl account mark_ticks spec =
    if eqb_ℤ account.position_qty_base_1e8 (pos 0)
    then ok (pos 0)
    else unrealized_pnl_micro account.position_qty_base_1e8 account.entry_px_ticks mark_ticks
        spec.tick_size_micro qty_scale

-- The five margin fields of a snapshot.
pub record MarginView : Type 0 where
  pub entry : Option ℤ
  pub liquidation : Option ℤ
  pub distance : Option ℤ
  pub min_distance : Option ℤ
  pub margin : ℤ
  pub maintenance : ℤ

abbrev flat_view : MarginView
flat_view = record {
  entry = none;
  liquidation = none;
  distance = none;
  min_distance = none;
  margin = pos 0;
  maintenance = pos 0;
}

-- The body of `_snapshot` under `if account.position_qty_base_1e8 != 0`.
open_view : Account → MarketSpec → BarRow → Result MarginView
unfolding ◌>>=◌
open_view account spec mark = do
  let position_sign = sign account.position_qty_base_1e8
  mark_notional ← notional_micro account.position_qty_base_1e8 mark.c spec.tick_size_micro qty_scale
  rate ← maintenance_rate spec mark_notional
  liquidation ←
      liquidation_price_ticks account.entry_px_ticks position_sign account.target_leverage_1e4 rate
        leverage_scale rate_scale
  distance ← distance_to_liquidation_1e8 mark.c liquidation position_sign rate_scale
  min_distance ←
      distance_to_liquidation_1e8 (if ltb_ℤ (pos 0) position_sign then mark.l else mark.h)
        liquidation position_sign rate_scale
  margin ←
      margin_used_micro account.position_qty_base_1e8 account.entry_px_ticks spec.tick_size_micro
        account.target_leverage_1e4 qty_scale leverage_scale
  maintenance ←
      maintenance_margin_micro account.position_qty_base_1e8 mark.c spec.tick_size_micro rate
        qty_scale rate_scale
  ok (record {
    entry = some account.entry_px_ticks;
    liquidation = some liquidation;
    distance = some distance;
    min_distance = some min_distance;
    margin = margin;
    maintenance = maintenance;
  })

unfoldable pub margin_view : Account → MarketSpec → BarRow → Result MarginView
unfolding open_view
margin_view account spec mark =
    if eqb_ℤ account.position_qty_base_1e8 (pos 0)
    then ok flat_view
    else open_view account spec mark

abbrev pub snapshot_of : Account → ℕ → ℕ → ℤ → ℤ → ℤ → MarginView → Snapshot
snapshot_of account relative absolute close_ts mark_close u view = record {
  bar_index = relative;
  absolute_bar_index = absolute;
  close_ts = close_ts;
  position_qty_base_1e8 = account.position_qty_base_1e8;
  entry_px_ticks = view.entry;
  mark_close_ticks = mark_close;
  upnl_micro = u;
  cash_micro = account.cash_micro;
  nav_micro = account.cash_micro +ℤ u;
  fees_cum_micro = account.fees_cum_micro;
  funding_cum_micro = account.funding_cum_micro;
  realized_price_cum_micro = account.realized_price_cum_micro;
  liquidation_penalty_cum_micro = account.liquidation_penalty_cum_micro;
  margin_micro = view.margin;
  maintenance_margin_micro = view.maintenance;
  liquidation_px_ticks = view.liquidation;
  distance_to_liquidation_1e8 = view.distance;
  min_intrabar_distance_1e8 = view.min_distance;
}

-- `_snapshot`, with the close time that every caller but `_margin_payload` passes.
unfoldable pub snapshot : Account → MarketData → ℕ → ℕ → ℤ → Result Snapshot
unfolding upnl margin_view ◌>>=◌
snapshot account market absolute relative close_ts = do
  mark ← or_raise (get_elem? market.mark absolute) index_error
  u ← upnl account mark.c market.spec
  view ← margin_view account market.spec mark
  ok (snapshot_of account relative absolute close_ts mark.c u view)

-- `max(row.nav_micro for row in run.snapshots)`
unfoldable pub peak_nav : ℤ → List Snapshot → ℤ
peak_nav peak [] = peak
peak_nav peak (row ∷ rows) = peak_nav (max_ℤ peak row.nav_micro) rows

-- `_drawdown_1e8`
unfoldable pub drawdown_1e8 : Snapshot → List Snapshot → Result ℤ
unfolding peak_nav ◌>>=◌
drawdown_1e8 latest earlier = do
  let peak = peak_nav latest.nav_micro earlier
  raise_if (leb_ℤ peak (pos 0)) engine_error
  ok (floor_fraction (fraction ((peak -ℤ latest.nav_micro) *ℤ rate_scale) peak))
