-- ===== src/Tests/Episodes.antt =====
-- Episodes of core/engine.py on two bars, where the first bar crashes.
use wagmi_bench.Prelude.{
  codes, ℕ, ◌≡◌, refl, Bool, true, Option, none, some, List, [], ◌∷◌, Result, ok, err, ◌>>=◌,
}
use wagmi_bench.Prelude.Int.{ℤ, pos, ◌+ℤ◌, ◌-ℤ◌, ◌*ℤ◌, ◌//◌, neg}
use wagmi_bench.Core.Math.Sizing.{
  target_quantity_base_1e8, raw_target_quantity_base_1e8, participation_fill,
  participation_capacity_base_1e8,
}
use wagmi_bench.Core.Math.Rounding.{
  floor_to_step, floor_fraction, ceil_fraction, apply_cost_multiplier, ceil_sqrt_fraction,
  fraction_div, fraction_mul, isqrt,
}
use wagmi_bench.Core.Math.Fill.{
  notional_micro, half_spread_ticks, adjusted_price, fee_micro, fill_price_ticks, impact_ticks,
  modeled_impact, slippage_1e8,
}
use wagmi_bench.Core.Pack.{get, shortest_trade}
use wagmi_bench.Core.Models.{check_quantity}
use wagmi_bench.Core.Engine.Gates.{kill_pass, turnover_check}
use wagmi_bench.Core.Engine.Position.{
  applied_funding, average_entry, closes, flatten, index_open, kill_close, liquidate,
}
use wagmi_bench.Core.Engine.Turn.{count_rejection}
use wagmi_bench.Core.Engine.Valuation.{maintenance_rate, margin_view, peak_nav, upnl}
use wagmi_bench.Core.Math.Margin.{
  distance_for_side, distance_to_liquidation_1e8, liquidation_crossed, liquidation_penalty_micro,
  liquidation_price_ticks, long_liquidation, maintenance_margin_micro, margin_used_micro,
  short_liquidation,
}
use wagmi_bench.Core.Math.Pnl.{
  clamp_funding_rate_1e8, funding_cash_flow_micro, realized_pnl_micro, unrealized_pnl_micro,
}
use wagmi_bench.Core.Pack.{BarRow, PackData, bars_total, clock_real_ts}
use wagmi_bench.Core.Engine.State.{TurnDecision, parsed, Run, sign, emit}
use wagmi_bench.Core.Engine.Valuation.{snapshot, drawdown_1e8}
use wagmi_bench.Core.Metrics.{turnover_1e8}
use wagmi_bench.Core.Engine.Gates.{risk_checks, is_blocked, apply_checks, count_block, gross_target}
use wagmi_bench.Core.Engine.Position.{realized_by, move_position, book_fill, apply_position_fill}
use wagmi_bench.Core.Math.Fill.{calculate_fill}
use wagmi_bench.Core.Engine.Order.{
  target_for, size_order, fill_request, slips, cancel_reason, position_fill, emit_remainder,
  emit_fill, settle_fill, execute_order, keep_position, post_kill_attempt, route_order, order_step,
}
use wagmi_bench.Core.Engine.Turn.{turn_step, act, count_decision}
use wagmi_bench.Core.Engine.Close.{
  settle_funding, funding_at, coincident_funding, is_inside, maybe_settle, holding_funding,
  emit_margin, margin_event, open_margin_event, trigger_liquidation, near_miss, check_liquidation,
  find_liquidation, liquidation_step, append_snapshot, emit_close, replace_snapshot, flatten_open,
  flatten_seqs, flatten_if_open, fire_kill_switch, kill_switch_due, maybe_fire, kill_switch_step,
  terminal_margin_event,
}
use wagmi_bench.Core.Engine.Episode.{keep_decision, start_run, play_turn, play, run_turns}
use wagmi_bench.Core.Engine.Episode.{run_profile, replay, run_episode}
use wagmi_bench.Core.Engine.Episode.Replay.{run_episode-terminal}
use wagmi_bench.Prelude.{◌<◌, ◌⊎◌, length, text_eqb, engine_error, Keeps}
use wagmi_bench.Tests.{bar, spec, market, pack, config}

-- The mark falls to a tenth while the first position is held.
abbrev crash_marks : List BarRow
crash_marks =
    bar 0 50000 50000 50000 50000
    ∷ bar 60 50000 50100 49900 50000
    ∷ bar 120 50000 50100 5000 50000
    ∷ bar 180 50000 50100 49900 50000
    ∷ []

-- The half-spread is 1.5 basis points.
abbrev crash_pack : PackData
crash_pack = record pack {
  markets =
      (
        codes "M1",
        record market { spec = record spec { half_spread_1e8 = pos 15000 }; mark = crash_marks },
      )
      ∷ [];
}

-- Five times long on every turn, with a bound on the slippage.
abbrev long_within : Option ℤ → ℕ → TurnDecision
long_within slippage turn = parsed (record {
  target_lev_1e4 = (codes "M1", pos 50000) ∷ [];
  max_slippage_bps = slippage;
  from_attempt = 1;
})

crash_total : bars_total crash_pack ≡ ok 2
unfolding bars_total shortest_trade ◌>>=◌
crash_total = refl

run_episode-terminal_example :
    Keeps
      (λ (primary, stress).
        (length primary.decisions ≡ 2)
        ⊎ ((length primary.decisions < 2) × (primary.terminal ≡ true) × (stress.terminal ≡ true)))
      (run_episode crash_pack config (long_within none))
run_episode-terminal_example =
    run_episode-terminal crash_pack config (long_within none) 2 crash_total

-- How an episode ends: the length of its trace, and which of its runs are terminal.
abbrev ending : Result (Run × Run) → Result (ℕ × Bool × Bool)
ending (err raised) = err raised
ending (ok (primary, stress)) = ok (length primary.decisions, primary.terminal, stress.terminal)

-- Without a bound both runs are liquidated on the first turn.
both_liquidated : ending (run_episode crash_pack config (long_within none)) ≡ ok (1, true, true)
unfolding run_episode run_profile replay text_eqb run_turns start_run play play_turn turn_step act
    count_decision keep_decision bars_total clock_real_ts snapshot drawdown_1e8 turnover_1e8 sign
    emit risk_checks is_blocked apply_checks count_block gross_target realized_by move_position
    book_fill apply_position_fill calculate_fill target_for size_order fill_request slips
    cancel_reason position_fill emit_remainder emit_fill settle_fill execute_order keep_position
    post_kill_attempt route_order order_step settle_funding funding_at coincident_funding is_inside
    maybe_settle holding_funding emit_margin margin_event open_margin_event trigger_liquidation
    near_miss check_liquidation find_liquidation liquidation_step append_snapshot emit_close
    replace_snapshot flatten_open flatten_seqs flatten_if_open fire_kill_switch kill_switch_due
    maybe_fire kill_switch_step terminal_margin_event target_quantity_base_1e8
    raw_target_quantity_base_1e8 participation_fill participation_capacity_base_1e8 floor_to_step
    floor_fraction ceil_fraction apply_cost_multiplier ceil_sqrt_fraction fraction_div fraction_mul
    isqrt notional_micro half_spread_ticks adjusted_price fee_micro fill_price_ticks impact_ticks
    modeled_impact slippage_1e8 get shortest_trade check_quantity kill_pass turnover_check
    applied_funding average_entry closes flatten index_open kill_close liquidate count_rejection
    maintenance_rate margin_view peak_nav upnl distance_for_side distance_to_liquidation_1e8
    liquidation_crossed liquidation_penalty_micro liquidation_price_ticks long_liquidation
    maintenance_margin_micro margin_used_micro short_liquidation clamp_funding_rate_1e8
    funding_cash_flow_micro realized_pnl_micro unrealized_pnl_micro ◌+ℤ◌ ◌-ℤ◌ ◌*ℤ◌ ◌//◌ neg ◌>>=◌
both_liquidated = refl

-- Within two basis points the primary run fills its order and is liquidated. The doubled costs
-- exceed the bound, so the stress run has no position, and its replay has no second decision.
short_replay-raises :
    ending (run_episode crash_pack config (long_within (some (pos 2)))) ≡ err engine_error
unfolding run_episode run_profile replay text_eqb run_turns start_run play play_turn turn_step act
    count_decision keep_decision bars_total clock_real_ts snapshot drawdown_1e8 turnover_1e8 sign
    emit risk_checks is_blocked apply_checks count_block gross_target realized_by move_position
    book_fill apply_position_fill calculate_fill target_for size_order fill_request slips
    cancel_reason position_fill emit_remainder emit_fill settle_fill execute_order keep_position
    post_kill_attempt route_order order_step settle_funding funding_at coincident_funding is_inside
    maybe_settle holding_funding emit_margin margin_event open_margin_event trigger_liquidation
    near_miss check_liquidation find_liquidation liquidation_step append_snapshot emit_close
    replace_snapshot flatten_open flatten_seqs flatten_if_open fire_kill_switch kill_switch_due
    maybe_fire kill_switch_step terminal_margin_event target_quantity_base_1e8
    raw_target_quantity_base_1e8 participation_fill participation_capacity_base_1e8 floor_to_step
    floor_fraction ceil_fraction apply_cost_multiplier ceil_sqrt_fraction fraction_div fraction_mul
    isqrt notional_micro half_spread_ticks adjusted_price fee_micro fill_price_ticks impact_ticks
    modeled_impact slippage_1e8 get shortest_trade check_quantity kill_pass turnover_check
    applied_funding average_entry closes flatten index_open kill_close liquidate count_rejection
    maintenance_rate margin_view peak_nav upnl distance_for_side distance_to_liquidation_1e8
    liquidation_crossed liquidation_penalty_micro liquidation_price_ticks long_liquidation
    maintenance_margin_micro margin_used_micro short_liquidation clamp_funding_rate_1e8
    funding_cash_flow_micro realized_pnl_micro unrealized_pnl_micro ◌+ℤ◌ ◌-ℤ◌ ◌*ℤ◌ ◌//◌ neg ◌>>=◌
short_replay-raises = refl
