-- ===== src/Core/Engine/Close.antt =====
-- core/engine.py, what happens while a bar is held and at its close: funding settlements, the
-- liquidation check, the snapshot, the drawdown kill switch.
use wagmi_bench.Prelude.{
  ℕ, ◌+◌, Bool, true, ◌&&◌, not, Option, none, some, List, [], ◌∷◌, length, get_elem?,
  if◌then◌else◌, Result, ok, or_raise, index_error, ◌>>=◌,
}
use wagmi_bench.Prelude.Int.{ℤ, pos, ◌+ℤ◌, ◌-ℤ◌, abs, leb_ℤ, ltb_ℤ, eqb_ℤ}
use wagmi_bench.Core.Models.{buy, sell}
use wagmi_bench.Core.Pack.{BarRow, FundingRow}
use wagmi_bench.Core.Math.Rounding.{rate_scale, qty_scale, leverage_scale}
use wagmi_bench.Core.Math.Fill.{notional_micro}
use wagmi_bench.Core.Math.Margin.{
  liquidation_price_ticks, liquidation_crossed, distance_to_liquidation_1e8,
}
use wagmi_bench.Core.Engine.State.{
  Account, funding_applied, order_filled, margin_update, liquidation_triggered, near_liquidation,
  kill_switch_triggered, Run, emit, sign,
}
use wagmi_bench.Core.Engine.Valuation.{maintenance_rate, snapshot, peak_nav, drawdown_1e8}
use wagmi_bench.Core.Engine.Position.{applied_funding, liquidate, kill_close, KillClose}
use wagmi_bench.Core.Engine.Order.{Context}

-- `NEAR_LIQ_THRESHOLD_1E8`
abbrev pub near_liq_threshold_1e8 : ℤ
near_liq_threshold_1e8 = pos 5_000_000

-- `holding_close_ts`
abbrev pub holding_close_ts : Context → ℤ
holding_close_ts c = c.decision_ts +ℤ c.pack.decision_bar_ms

-- One settlement, with its event.
unfoldable pub settle_funding : Context → ℤ → FundingRow → Run → Result Run
settle_funding c ts row run = do
  s ← applied_funding run.account c.market row
  ok (
      emit (funding_applied row.ts s.rate s.index_px s.account.position_qty_base_1e8 s.cash_flow) ts
        c.turn (c.turn + 1) (record run { account = s.account }))

-- `next((row for row in market.funding if row.ts == decision_ts), None)`
unfoldable pub funding_at : ℤ → List FundingRow → Option FundingRow
funding_at ts [] = none
funding_at ts (row ∷ rows) = if eqb_ℤ row.ts ts then some row else funding_at ts rows

-- A settlement at the decision instant, on the position carried into it.
unfoldable pub coincident_funding : Context → Run → Result Run
unfolding funding_at
coincident_funding c run = elim (funding_at c.decision_ts c.market.funding) [
  | none ↦ ok run
  | some row ↦ settle_funding c c.decision_ts row run
]

-- `decision_ts < inside_funding.ts < holding_close_ts`
unfoldable pub is_inside : Context → FundingRow → Bool
is_inside c row = ltb_ℤ c.decision_ts row.ts && ltb_ℤ row.ts (holding_close_ts c)

unfoldable pub maybe_settle : Context → FundingRow → Run → Result Run
maybe_settle c row run = if is_inside c row then settle_funding c row.ts row run else ok run

-- The settlements strictly inside the holding bar.
unfoldable pub holding_funding : Context → List FundingRow → Run → Result Run
holding_funding c [] run = ok run
holding_funding c (row ∷ rows) run = do next ← maybe_settle c row run; holding_funding c rows next

-- The `MarginUpdate` event at the close, from `_margin_payload`.
unfoldable pub emit_margin : Context → Run → Result Run
emit_margin c run = do
  s ← snapshot run.account c.market (c.decision_abs + 1) 0 (holding_close_ts c)
  ok (emit (margin_update s) (holding_close_ts c) c.turn (c.turn + 1) run)

unfoldable pub margin_event : Context → Run → Result Run
margin_event c run = if run.collect then emit_margin c run else ok run

-- The same, `if collect_evidence and position_before_liquidation != 0`.
unfoldable pub open_margin_event : Context → Run → Result Run
open_margin_event c run =
    if eqb_ℤ run.account.position_qty_base_1e8 (pos 0) then ok run else margin_event c run

-- `if liquidation_crossed(...)`: the position is closed and the run ends.
unfoldable pub trigger_liquidation : Context → BarRow → ℤ → Run → Result Run
trigger_liquidation c mark liq_px run = do
  l ← liquidate run.account c.market.spec mark
  ok (
      emit
        (liquidation_triggered l.close_px liq_px run.account.position_qty_base_1e8 l.penalty
          (l.realized -ℤ l.penalty))
        (holding_close_ts c) c.turn (c.turn + 1)
        (record run {
          account = l.account;
          counters = record run.counters { liquidations = run.counters.liquidations + 1 };
          terminal = true;
        }))

-- `mark.l if account.position_qty_base_1e8 > 0 else mark.h`
abbrev pub adverse_extreme : Account → BarRow → ℤ
adverse_extreme account mark =
    if ltb_ℤ (pos 0) account.position_qty_base_1e8 then mark.l else mark.h

-- The `else` of the crossing: the near miss is an event.
unfoldable pub near_miss : Context → BarRow → ℤ → Run → Result Run
near_miss c mark liq_px run = do
  minimum ←
      distance_to_liquidation_1e8 (adverse_extreme run.account mark) liq_px
        (sign run.account.position_qty_base_1e8) rate_scale
  ok (
      if ltb_ℤ minimum near_liq_threshold_1e8
      then emit (near_liquidation (adverse_extreme run.account mark) liq_px minimum)
          (holding_close_ts c) c.turn (c.turn + 1) run
      else run)

-- The check of an open position against its liquidation price.
unfoldable pub check_liquidation : Context → BarRow → Run → Result Run
check_liquidation c mark run = do
  mark_notional ←
      notional_micro run.account.position_qty_base_1e8 mark.c c.market.spec.tick_size_micro
        qty_scale
  rate ← maintenance_rate c.market.spec mark_notional
  liq_px ←
      liquidation_price_ticks run.account.entry_px_ticks (sign run.account.position_qty_base_1e8)
        run.account.target_leverage_1e4 rate leverage_scale rate_scale
  crossed ← liquidation_crossed run.account.position_qty_base_1e8 liq_px mark.h mark.l
  if crossed then trigger_liquidation c mark liq_px run else near_miss c mark liq_px run

unfoldable pub find_liquidation : Context → Run → Result Run
find_liquidation c run = do
  mark ← or_raise (get_elem? c.market.mark (c.decision_abs + 1)) index_error
  check_liquidation c mark run

-- `if account.position_qty_base_1e8 != 0: ...`, whole.
unfoldable pub liquidation_step : Context → Run → Result Run
liquidation_step c run =
    if eqb_ℤ run.account.position_qty_base_1e8 (pos 0) then ok run else find_liquidation c run

-- `run.snapshots.append(_snapshot(...))`
unfoldable pub append_snapshot : Context → Run → Result Run
append_snapshot c run = do
  s ← snapshot run.account c.market (c.decision_abs + 1) (c.turn + 1) (holding_close_ts c)
  ok (record run { latest = s; earlier = run.latest ∷ run.earlier })

-- The event of the flattening close, and the account after it.
unfoldable pub emit_close : Context → BarRow → KillClose → Run → Run
emit_close c mark k run =
    let old = run.account.position_qty_base_1e8 in
    emit
      (order_filled (if ltb_ℤ (pos 0) old then sell else buy) (abs old) (abs old) mark.c (pos 0)
        (pos 0) mark.c k.close_notional k.close_fee (pos 0))
      (holding_close_ts c) c.turn (c.turn + 1) (record run { account = k.account })

-- The replaced snapshot, and the margin event after it.
unfoldable pub replace_snapshot : Context → Run → Result Run
replace_snapshot c run = do
  s ← snapshot run.account c.market (c.decision_abs + 1) (c.turn + 1) (holding_close_ts c)
  margin_event c (record run { latest = s })

unfoldable pub flatten_open : Context → Run → Result Run
flatten_open c run = do
  mark ← or_raise (get_elem? c.market.mark (c.decision_abs + 1)) index_error
  k ← kill_close run.account c.market.spec c.multiplier mark.c
  replace_snapshot c (emit_close c mark k run)

-- `flatten_order_seqs`: the number of the closing fill's event, if there is one.
unfoldable pub flatten_seqs : Run → List ℕ
flatten_seqs run =
    if eqb_ℤ run.account.position_qty_base_1e8 (pos 0)
    then []
    else if run.collect
    then length run.events ∷ []
    else []

unfoldable pub flatten_if_open : Context → Run → Result Run
flatten_if_open c run =
    if eqb_ℤ run.account.position_qty_base_1e8 (pos 0) then ok run else flatten_open c run

unfoldable pub fire_kill_switch : Context → ℤ → Run → Result Run
unfolding flatten_seqs
fire_kill_switch c drawdown run = do
  closed ← flatten_if_open c run
  ok (
      emit
        (kill_switch_triggered drawdown c.config.drawdown_kill_switch_1e8
          (peak_nav run.latest.nav_micro run.earlier) run.latest.nav_micro (flatten_seqs run))
        (holding_close_ts c) c.turn (c.turn + 1)
        (record closed {
          account = record closed.account { kill_switch_active = true };
          counters = record closed.counters { kill_switch_fired = true };
        }))

-- A liquidation is terminal and preempts the drawdown kill switch.
unfoldable pub kill_switch_due : Context → Run → ℤ → Bool
kill_switch_due c run trigger_drawdown =
    not run.terminal
    && not run.account.kill_switch_active
    && leb_ℤ c.config.drawdown_kill_switch_1e8 trigger_drawdown

unfoldable pub maybe_fire : Context → ℤ → Run → Result Run
maybe_fire c trigger_drawdown run =
    if kill_switch_due c run trigger_drawdown
    then fire_kill_switch c trigger_drawdown run
    else ok run

unfoldable pub kill_switch_step : Context → Run → Result Run
kill_switch_step c run = do
  trigger_drawdown ← drawdown_1e8 run.latest run.earlier
  maybe_fire c trigger_drawdown run

-- `if terminal and collect_evidence`
unfoldable pub terminal_margin_event : Context → Run → Result Run
terminal_margin_event c run = if run.terminal then margin_event c run else ok run
