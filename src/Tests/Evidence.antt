-- ===== src/Tests/Evidence.antt =====
-- core/engine.py, a position kept with and without the evidence flag.
use wagmi_bench.Prelude.{
  codes, ◌≡◌, refl, true, false, Option, none, some, [], ◌∷◌, Result, ok, err, ◌>>=◌,
}
use wagmi_bench.Prelude.Int.{ℤ, pos, ◌+ℤ◌, ◌-ℤ◌, ◌*ℤ◌, ◌//◌, neg}
use wagmi_bench.Core.Math.Sizing.{
  target_quantity_base_1e8, raw_target_quantity_base_1e8, participation_fill,
  participation_capacity_base_1e8,
}
use wagmi_bench.Core.Math.Rounding.{
  floor_to_step, floor_fraction, ceil_fraction, apply_cost_multiplier, ceil_sqrt_fraction,
  fraction_div, fraction_mul, isqrt,
}
use wagmi_bench.Core.Math.Fill.{
  notional_micro, half_spread_ticks, adjusted_price, fee_micro, fill_price_ticks, impact_ticks,
  modeled_impact, slippage_1e8,
}
use wagmi_bench.Core.Pack.{get, shortest_trade}
use wagmi_bench.Core.Models.{check_quantity}
use wagmi_bench.Core.Engine.Gates.{kill_pass, turnover_check}
use wagmi_bench.Core.Engine.Position.{
  applied_funding, average_entry, closes, flatten, index_open, kill_close, liquidate,
}
use wagmi_bench.Core.Engine.Turn.{count_rejection}
use wagmi_bench.Core.Engine.Valuation.{maintenance_rate, margin_view, peak_nav, upnl}
use wagmi_bench.Core.Math.Margin.{
  distance_for_side, distance_to_liquidation_1e8, liquidation_crossed, liquidation_penalty_micro,
  liquidation_price_ticks, long_liquidation, maintenance_margin_micro, margin_used_micro,
  short_liquidation,
}
use wagmi_bench.Core.Math.Pnl.{
  clamp_funding_rate_1e8, funding_cash_flow_micro, realized_pnl_micro, unrealized_pnl_micro,
}
use wagmi_bench.Core.Pack.{bars_total, clock_real_ts}
use wagmi_bench.Core.Engine.State.{ParsedAction, Run, sign, emit, new_account, Snapshot}
use wagmi_bench.Core.Engine.Valuation.{snapshot, drawdown_1e8}
use wagmi_bench.Core.Metrics.{turnover_1e8}
use wagmi_bench.Core.Engine.Gates.{risk_checks, is_blocked, apply_checks, count_block, gross_target}
use wagmi_bench.Core.Engine.Position.{realized_by, move_position, book_fill, apply_position_fill}
use wagmi_bench.Core.Math.Fill.{calculate_fill}
use wagmi_bench.Core.Engine.Order.{
  target_for, size_order, fill_request, slips, cancel_reason, position_fill, emit_remainder,
  emit_fill, settle_fill, execute_order, keep_position, post_kill_attempt, route_order, order_step,
}
use wagmi_bench.Core.Engine.Turn.{turn_step, act, count_decision}
use wagmi_bench.Core.Engine.Close.{
  settle_funding, funding_at, coincident_funding, is_inside, maybe_settle, holding_funding,
  emit_margin, margin_event, open_margin_event, trigger_liquidation, near_miss, check_liquidation,
  find_liquidation, liquidation_step, append_snapshot, emit_close, replace_snapshot, flatten_open,
  flatten_seqs, flatten_if_open, fire_kill_switch, kill_switch_due, maybe_fire, kill_switch_step,
  terminal_margin_event,
}
use wagmi_bench.Core.Engine.Episode.{first_run, keep_decision, play_turn, play}
use wagmi_bench.Prelude.{◌≢◌, arith}
use wagmi_bench.Core.Math.Rounding.{floor_fraction}
use wagmi_bench.Core.Engine.State.{Account}
use wagmi_bench.Core.Engine.Order.{Context, Sizing, checks_of}
use wagmi_bench.Core.Engine.Order.Evidence.{retargeted, order_step-collect}
use wagmi_bench.Core.Engine.Episode.{context}
use wagmi_bench.Tests.{bar, profile, flat_snapshot, outcome}

abbrev first_context : Context
first_context = context profile 0 (pos 120)

-- Long three times the cash, but for the rounding, under an older target of two.
abbrev over : Account
over = record (new_account (pos 10000100000)) {
  position_qty_base_1e8 = pos 60000000;
  entry_px_ticks = pos 50000;
  target_leverage_1e4 = pos 20000;
}

abbrev holding_run : Run
holding_run = record (first_run profile true flat_snapshot) { account = over }

abbrev thrice_long : ParsedAction
thrice_long = record {
  target_lev_1e4 = (codes "M1", pos 30000) ∷ [];
  max_slippage_bps = none;
  from_attempt = 1;
}

abbrev no_sizing : Sizing
no_sizing = record {
  bar = bar 0 0 0 0 0;
  target_lev = pos 0;
  requested_delta = pos 0;
  raw_requested_delta = pos 0;
  projected_turnover = pos 0;
}

-- A target that rounds to nothing while the exact target does not.
abbrev rounded : Sizing
rounded = outcome no_sizing (size_order first_context thrice_long over)

size_order-rounded : size_order first_context thrice_long over ≡ ok rounded
unfolding size_order ◌>>=◌ ◌+ℤ◌ ◌*ℤ◌ upnl target_quantity_base_1e8 raw_target_quantity_base_1e8
    floor_to_step notional_micro turnover_1e8 ◌//◌ ◌-ℤ◌ get floor_fraction unrealized_pnl_micro
size_order-rounded = refl

rounded-passes : is_blocked (checks_of first_context (pos 0) thrice_long rounded over) ≡ false
unfolding is_blocked risk_checks kill_pass size_order ◌>>=◌ ◌+ℤ◌ ◌*ℤ◌ upnl target_quantity_base_1e8
    raw_target_quantity_base_1e8 floor_to_step notional_micro turnover_1e8 ◌//◌ ◌-ℤ◌ get
    floor_fraction gross_target unrealized_pnl_micro
rounded-passes = refl

rounded-nothing : rounded.requested_delta ≡ pos 0
unfolding size_order ◌>>=◌ ◌+ℤ◌ ◌*ℤ◌ upnl target_quantity_base_1e8 raw_target_quantity_base_1e8
    floor_to_step notional_micro turnover_1e8 ◌//◌ ◌-ℤ◌ get floor_fraction unrealized_pnl_micro
rounded-nothing = refl

rounded-raw : rounded.raw_requested_delta ≡ pos 600
unfolding size_order ◌>>=◌ ◌+ℤ◌ ◌*ℤ◌ upnl target_quantity_base_1e8 raw_target_quantity_base_1e8
    floor_to_step notional_micro turnover_1e8 ◌//◌ ◌-ℤ◌ get floor_fraction unrealized_pnl_micro
rounded-raw = refl

rounded-target : rounded.target_lev ≡ pos 30000
unfolding size_order ◌>>=◌ ◌+ℤ◌ ◌*ℤ◌ upnl target_quantity_base_1e8 raw_target_quantity_base_1e8
    floor_to_step notional_micro turnover_1e8 ◌//◌ ◌-ℤ◌ get floor_fraction unrealized_pnl_micro
rounded-target = refl

order_step-collect_example :
    (kept : Run) × (moved : Run) × (order_step first_context
        (pos 0)
        thrice_long
        (record holding_run { collect = true })
      ≡ ok kept)
    × (order_step first_context (pos 0) thrice_long (record holding_run { collect = false })
        ≡ ok moved)
    × (kept.account ≡ over)
    × (moved.account ≡ retargeted over rounded.target_lev)
    × (kept.account ≢ moved.account)
order_step-collect_example =
    order_step-collect first_context (pos 0) thrice_long rounded holding_run size_order-rounded
      rounded-passes rounded-nothing (λ e. (let raw = rounded-raw in absurd (ground arith)))
      (λ e. ground arith) (λ e. (let target = rounded-target in absurd (ground arith)))

-- The two accounts have different margins and different liquidation prices.
abbrev margin_and_liquidation : Result Snapshot → Result (ℤ × Option ℤ)
margin_and_liquidation (ok s) = ok (s.margin_micro, s.liquidation_px_ticks)
margin_and_liquidation (err raised) = err raised

kept-margin :
    margin_and_liquidation (snapshot over profile.market 2 1 (pos 180))
    ≡ ok (pos 15000000000, some (pos 25126))
unfolding play play_turn turn_step act count_decision keep_decision bars_total clock_real_ts
    snapshot drawdown_1e8 turnover_1e8 sign emit risk_checks is_blocked apply_checks count_block
    gross_target realized_by move_position book_fill apply_position_fill calculate_fill target_for
    size_order fill_request slips cancel_reason position_fill emit_remainder emit_fill settle_fill
    execute_order keep_position post_kill_attempt route_order order_step settle_funding funding_at
    coincident_funding is_inside maybe_settle holding_funding emit_margin margin_event
    open_margin_event trigger_liquidation near_miss check_liquidation find_liquidation
    liquidation_step append_snapshot emit_close replace_snapshot flatten_open flatten_seqs
    flatten_if_open fire_kill_switch kill_switch_due maybe_fire kill_switch_step
    terminal_margin_event target_quantity_base_1e8 raw_target_quantity_base_1e8 participation_fill
    participation_capacity_base_1e8 floor_to_step floor_fraction ceil_fraction apply_cost_multiplier
    ceil_sqrt_fraction fraction_div fraction_mul isqrt notional_micro half_spread_ticks
    adjusted_price fee_micro fill_price_ticks impact_ticks modeled_impact slippage_1e8 get
    shortest_trade check_quantity kill_pass turnover_check applied_funding average_entry closes
    flatten index_open kill_close liquidate count_rejection maintenance_rate margin_view peak_nav
    upnl distance_for_side distance_to_liquidation_1e8 liquidation_crossed liquidation_penalty_micro
    liquidation_price_ticks long_liquidation maintenance_margin_micro margin_used_micro
    short_liquidation clamp_funding_rate_1e8 funding_cash_flow_micro realized_pnl_micro
    unrealized_pnl_micro ◌+ℤ◌ ◌-ℤ◌ ◌*ℤ◌ ◌//◌ neg ◌>>=◌
kept-margin = refl

moved-margin :
    margin_and_liquidation (snapshot (retargeted over (pos 30000)) profile.market 2 1 (pos 180))
    ≡ ok (pos 10000000000, some (pos 33501))
unfolding play play_turn turn_step act count_decision keep_decision bars_total clock_real_ts
    snapshot drawdown_1e8 turnover_1e8 sign emit risk_checks is_blocked apply_checks count_block
    gross_target realized_by move_position book_fill apply_position_fill calculate_fill target_for
    size_order fill_request slips cancel_reason position_fill emit_remainder emit_fill settle_fill
    execute_order keep_position post_kill_attempt route_order order_step settle_funding funding_at
    coincident_funding is_inside maybe_settle holding_funding emit_margin margin_event
    open_margin_event trigger_liquidation near_miss check_liquidation find_liquidation
    liquidation_step append_snapshot emit_close replace_snapshot flatten_open flatten_seqs
    flatten_if_open fire_kill_switch kill_switch_due maybe_fire kill_switch_step
    terminal_margin_event target_quantity_base_1e8 raw_target_quantity_base_1e8 participation_fill
    participation_capacity_base_1e8 floor_to_step floor_fraction ceil_fraction apply_cost_multiplier
    ceil_sqrt_fraction fraction_div fraction_mul isqrt notional_micro half_spread_ticks
    adjusted_price fee_micro fill_price_ticks impact_ticks modeled_impact slippage_1e8 get
    shortest_trade check_quantity kill_pass turnover_check applied_funding average_entry closes
    flatten index_open kill_close liquidate count_rejection maintenance_rate margin_view peak_nav
    upnl distance_for_side distance_to_liquidation_1e8 liquidation_crossed liquidation_penalty_micro
    liquidation_price_ticks long_liquidation maintenance_margin_micro margin_used_micro
    short_liquidation clamp_funding_rate_1e8 funding_cash_flow_micro realized_pnl_micro
    unrealized_pnl_micro ◌+ℤ◌ ◌-ℤ◌ ◌*ℤ◌ ◌//◌ neg ◌>>=◌
moved-margin = refl
