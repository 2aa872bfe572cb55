-- ===== src/Core/Engine/Order.antt =====
-- core/engine.py, the order part of a turn of `_run_profile`: sizing, gates, fill or cancellation.
pub mod Effects
pub mod Evidence
use wagmi_bench.Prelude.{
  Text, ℕ, ◌+◌, Bool, true, false, ◌||◌, ◌&&◌, not, Option, none, some, List, [], ◌∷◌, get_elem?,
  if◌then◌else◌, Result, ok, err, raise_if, or_raise, index_error, ◌>>=◌, ◌>>◌,
}
use wagmi_bench.Prelude.Int.{ℤ, pos, ◌+ℤ◌, ◌-ℤ◌, ◌*ℤ◌, neg, abs, leb_ℤ, ltb_ℤ, eqb_ℤ}
use wagmi_bench.Core.Models.{Side, buy, sell, FillCalculation}
use wagmi_bench.Core.Config.{EpisodeConfig}
use wagmi_bench.Core.Pack.{BarRow, Mapping, get, MarketSpec, MarketData, PackData}
use wagmi_bench.Core.Math.Rounding.{rate_scale, qty_scale, leverage_scale}
use wagmi_bench.Core.Math.Sizing.{target_quantity_base_1e8, raw_target_quantity_base_1e8}
use wagmi_bench.Core.Math.Fill.{notional_micro, FillRequest, calculate_fill}
use wagmi_bench.Core.Metrics.{turnover_1e8}
use wagmi_bench.Core.Engine.State.{
  Account, ParsedAction, RiskCheck, CancelReason, participation_cap, min_notional,
  max_slippage_exceeded, qty_rounding, post_kill_switch_attempt, order_cancelled, order_filled, Run,
  emit,
}
use wagmi_bench.Core.Engine.Valuation.{upnl}
use wagmi_bench.Core.Engine.Position.{PositionFill, apply_position_fill}
use wagmi_bench.Core.Engine.Gates.{gross_target, risk_checks, is_blocked, apply_checks}

-- What one turn of `_run_profile` reads: the episode's inputs and the bar's own values. The fill bar
-- stands one after the decision bar.
pub record Context : Type 0 where
  pub pack : PackData
  pub config : EpisodeConfig
  pub alias : Text
  pub market : MarketData
  pub multiplier : ℤ
  pub turn : ℕ
  pub decision_abs : ℕ
  pub decision_ts : ℤ

-- `parsed.target_lev_1e4.get(alias, 0)`
unfoldable pub target_for : Text → Mapping ℤ → ℤ
target_for alias targets = elim (get alias targets) [ none ↦ pos 0 | some value ↦ value ]

-- What an order asks for, before the gates.
pub record Sizing : Type 0 where
  pub bar : BarRow
  pub target_lev : ℤ
  pub requested_delta : ℤ
  pub raw_requested_delta : ℤ
  pub projected_turnover : ℤ

unfoldable pub size_order : Context → ParsedAction → Account → Result Sizing
unfolding target_for
size_order c parsed account = do
  let spec = c.market.spec
  let target_lev = target_for c.alias parsed.target_lev_1e4
  mark ← or_raise (get_elem? c.market.mark c.decision_abs) index_error
  unrealised ← upnl account mark.c spec
  let nav_at_decision = account.cash_micro +ℤ unrealised
  bar ← or_raise (get_elem? c.market.trade (c.decision_abs + 1)) index_error
  requested_target ←
      target_quantity_base_1e8 target_lev nav_at_decision bar.o spec.tick_size_micro
        spec.qty_step_base_1e8 leverage_scale qty_scale
  raw_target ←
      raw_target_quantity_base_1e8 target_lev nav_at_decision bar.o spec.tick_size_micro
        leverage_scale qty_scale
  let requested_delta = requested_target -ℤ account.position_qty_base_1e8
  projected_notional ← notional_micro requested_delta bar.o spec.tick_size_micro qty_scale
  projected_turnover ←
      turnover_1e8 (account.turnover_notional_micro +ℤ projected_notional)
        c.config.starting_nav_micro rate_scale
  ok (record {
    bar = bar;
    target_lev = target_lev;
    requested_delta = requested_delta;
    raw_requested_delta = raw_target -ℤ account.position_qty_base_1e8;
    projected_turnover = projected_turnover;
  })

unfoldable pub fill_request : Context → Sizing → FillRequest
fill_request c s =
    let spec = c.market.spec in
    record {
      side = if ltb_ℤ (pos 0) s.requested_delta then buy else sell;
      requested_qty_base_1e8 = abs s.requested_delta;
      bar_volume_base_1e8 = s.bar.v_base_1e8;
      participation_cap_1e8 = spec.participation_cap_1e8;
      qty_step_base_1e8 = spec.qty_step_base_1e8;
      ref_px_ticks = s.bar.o;
      tick_size_micro = spec.tick_size_micro;
      half_spread_1e8 = spec.half_spread_1e8;
      impact_coeff_1e8 = spec.impact_coeff_1e8;
      impact_model = spec.impact_model;
      taker_fee_rate_1e8 = spec.taker_fee_rate_1e8;
      cost_multiplier_1e4 = c.multiplier;
      rate_scale = rate_scale;
    }

unfoldable pub slips : Option ℤ → ℤ → Bool
slips none slippage = false
slips (some bps) slippage = ltb_ℤ (bps *ℤ pos 10_000) (abs slippage)

-- `cancel_reason`
unfoldable pub cancel_reason : MarketSpec → ParsedAction → FillCalculation → Option CancelReason
unfolding slips
cancel_reason spec parsed fill =
    if eqb_ℤ fill.quantities.filled_qty_base_1e8 (pos 0)
    then some participation_cap
    else if ltb_ℤ fill.notional_micro spec.min_notional_micro
    then some min_notional
    else if slips parsed.max_slippage_bps fill.slippage_1e8
    then some max_slippage_exceeded
    else none

abbrev pub signed_qty : Side → ℤ → ℤ
signed_qty buy qty = qty
signed_qty sell qty = neg qty

unfoldable pub position_fill : Sizing → FillCalculation → PositionFill
position_fill s fill = record {
  signed_fill_qty = signed_qty fill.side fill.quantities.filled_qty_base_1e8;
  fill_px_ticks = fill.fill_px_ticks;
  requested_target_leverage_1e4 = s.target_lev;
  fee = fill.fee_micro;
  fill_notional = fill.notional_micro;
  reference_notional = fill.reference_notional_micro;
  request_fully_filled = eqb_ℤ fill.quantities.cancelled_qty_base_1e8 (pos 0);
}

-- The `OrderCancelled` event of a part that the participation cap leaves unfilled.
unfoldable pub emit_remainder : Context → Sizing → FillCalculation → Run → Run
emit_remainder c s fill run =
    if eqb_ℤ fill.quantities.cancelled_qty_base_1e8 (pos 0)
    then run
    else emit
        (order_cancelled participation_cap (abs s.requested_delta)
          fill.quantities.cancelled_qty_base_1e8)
        c.decision_ts c.turn (c.turn + 1) run

unfoldable pub emit_fill : Context → Sizing → FillCalculation → Run → Run
emit_fill c s fill run =
    emit
      (order_filled fill.side (abs s.requested_delta) fill.quantities.filled_qty_base_1e8
        fill.ref_open_px_ticks fill.half_spread_ticks fill.impact_ticks fill.fill_px_ticks
        fill.notional_micro fill.fee_micro fill.slippage_1e8)
      c.decision_ts c.turn (c.turn + 1) run

-- `if cancel_reason is not None: ... else: ...`
unfoldable pub settle_fill :
    Context → Sizing → FillCalculation → Run → Option CancelReason → Result Run
settle_fill c s fill run (some reason) = ok (
    emit (order_cancelled reason (abs s.requested_delta) (abs s.requested_delta)) c.decision_ts
      c.turn (c.turn + 1) run)
settle_fill c s fill run none = do
  account ← apply_position_fill run.account (position_fill s fill) c.market.spec
  ok (emit_remainder c s fill (emit_fill c s fill (record run { account = account })))

-- `if not blocked and requested_delta != 0`
unfoldable pub execute_order : Context → ParsedAction → Sizing → Run → Result Run
execute_order c parsed s run = do
  fill ← calculate_fill (fill_request c s)
  settle_fill c s fill run (cancel_reason c.market.spec parsed fill)

-- `elif not blocked and requested_delta == 0`. The test of the source is
-- `if raw_requested_delta != 0 and collect_evidence: ... elif account.position_qty_base_1e8: ...`.
unfoldable pub keep_position : Context → Sizing → Run → Run
keep_position c s run =
    if not (eqb_ℤ s.raw_requested_delta (pos 0)) && run.collect
    then emit (order_cancelled qty_rounding (abs s.raw_requested_delta) (abs s.raw_requested_delta))
        c.decision_ts c.turn (c.turn + 1) run
    else if eqb_ℤ run.account.position_qty_base_1e8 (pos 0)
    then run
    else record run { account = record run.account { target_leverage_1e4 = abs s.target_lev } }

-- `if blocked and account.kill_switch_active and target_lev != 0`
unfoldable pub post_kill_attempt : Context → ParsedAction → ℤ → Run → Run
post_kill_attempt c parsed target_lev run =
    if run.account.kill_switch_active && not (eqb_ℤ target_lev (pos 0))
    then emit (post_kill_switch_attempt parsed.target_lev_1e4) c.decision_ts c.turn c.turn
        (record run {
          counters = record run.counters {
            post_kill_switch_attempts = run.counters.post_kill_switch_attempts + 1;
          };
        })
    else run

-- After the gates: refused, executed, or kept.
unfoldable pub route_order : Context → ParsedAction → Sizing → Bool → Run → Result Run
route_order c parsed s true run = ok (post_kill_attempt c parsed s.target_lev run)
route_order c parsed s false run =
    if eqb_ℤ s.requested_delta (pos 0)
    then ok (keep_position c s run)
    else execute_order c parsed s run

-- `checks` of an order.
abbrev pub checks_of : Context → ℤ → ParsedAction → Sizing → Account → List RiskCheck
checks_of c drawdown_used parsed s account =
    risk_checks account c.market.spec c.config s.target_lev (gross_target parsed.target_lev_1e4)
      s.projected_turnover drawdown_used

-- `if parsed is not None: ...`, whole.
unfoldable pub order_step : Context → ℤ → ParsedAction → Run → Result Run
order_step c drawdown_used parsed run = do
  s ← size_order c parsed run.account
  route_order c parsed s (is_blocked (checks_of c drawdown_used parsed s run.account))
      (apply_checks (checks_of c drawdown_used parsed s run.account) c.decision_ts c.turn run)
