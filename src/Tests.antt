-- ===== src/Tests.antt =====
-- A pack of one market played by hand, and each property at a concrete input.
pub mod Arithmetic
pub mod Runs
pub mod Episodes
pub mod Evidence
pub mod Documents
pub mod Chains
pub mod Observations
pub mod Reports
pub mod Records
pub mod Bundles
use wagmi_bench.Prelude.{
  codes, ℕ, zero, suc, ◌+◌, ◌≡◌, refl, Bool, true, false, Option, none, some, List, [], ◌∷◌, Result,
  ok, err, ◌>>=◌,
}
use wagmi_bench.Prelude.Int.{ℤ, pos, negsuc, ltb_ℤ, ◌+ℤ◌, ◌-ℤ◌, ◌*ℤ◌, ◌//◌, neg}
use wagmi_bench.Core.Math.Sizing.{
  target_quantity_base_1e8, raw_target_quantity_base_1e8, participation_fill,
  participation_capacity_base_1e8,
}
use wagmi_bench.Core.Math.Rounding.{
  floor_to_step, floor_fraction, ceil_fraction, apply_cost_multiplier, ceil_sqrt_fraction,
  fraction_div, fraction_mul, isqrt,
}
use wagmi_bench.Core.Math.Fill.{
  notional_micro, half_spread_ticks, adjusted_price, fee_micro, fill_price_ticks, impact_ticks,
  modeled_impact, slippage_1e8,
}
use wagmi_bench.Core.Config.{EpisodeConfig}
use wagmi_bench.Core.Pack.{get, shortest_trade}
use wagmi_bench.Core.Models.{check_quantity}
use wagmi_bench.Core.Engine.Gates.{kill_pass, turnover_check}
use wagmi_bench.Core.Engine.Position.{
  applied_funding, average_entry, closes, flatten, index_open, kill_close, liquidate,
}
use wagmi_bench.Core.Engine.Turn.{count_rejection}
use wagmi_bench.Core.Engine.Valuation.{maintenance_rate, margin_view, peak_nav, upnl}
use wagmi_bench.Core.Math.Margin.{
  distance_for_side, distance_to_liquidation_1e8, liquidation_crossed, liquidation_penalty_micro,
  liquidation_price_ticks, long_liquidation, maintenance_margin_micro, margin_used_micro,
  short_liquidation,
}
use wagmi_bench.Core.Math.Pnl.{
  clamp_funding_rate_1e8, funding_cash_flow_micro, realized_pnl_micro, unrealized_pnl_micro,
}
use wagmi_bench.Core.Models.{linear}
use wagmi_bench.Core.Pack.{
  BarRow, FundingRow, MarketSpec, MarketData, PackData, bars_total, clock_real_ts,
}
use wagmi_bench.Core.Engine.State.{
  ParsedAction, TurnDecision, parsed, Run, sign, emit, new_account, Snapshot,
}
use wagmi_bench.Core.Engine.Valuation.{snapshot, snapshot_of, drawdown_1e8}
use wagmi_bench.Core.Metrics.{turnover_1e8}
use wagmi_bench.Core.Engine.Gates.{risk_checks, is_blocked, apply_checks, count_block, gross_target}
use wagmi_bench.Core.Engine.Position.{realized_by, move_position, book_fill, apply_position_fill}
use wagmi_bench.Core.Math.Fill.{calculate_fill}
use wagmi_bench.Core.Engine.Order.{
  target_for, size_order, fill_request, slips, cancel_reason, position_fill, emit_remainder,
  emit_fill, settle_fill, execute_order, keep_position, post_kill_attempt, route_order, order_step,
}
use wagmi_bench.Core.Engine.Turn.{turn_step, act, count_decision}
use wagmi_bench.Core.Engine.Close.{
  settle_funding, funding_at, coincident_funding, is_inside, maybe_settle, holding_funding,
  emit_margin, margin_event, open_margin_event, trigger_liquidation, near_miss, check_liquidation,
  find_liquidation, liquidation_step, append_snapshot, emit_close, replace_snapshot, flatten_open,
  flatten_seqs, flatten_if_open, fire_kill_switch, kill_switch_due, maybe_fire, kill_switch_step,
  terminal_margin_event,
}
use wagmi_bench.Core.Engine.Episode.{
  first_run, keep_decision, Profile, start_run, play_turn, play, run_turns,
}

abbrev pub bar : ℕ → ℕ → ℕ → ℕ → ℕ → BarRow
bar ts o h l c = record {
  ts = pos ts;
  available_at = pos (ts + 60);
  o = pos o;
  h = pos h;
  l = pos l;
  c = pos c;
  v_base_1e8 = pos 1000000000000;
}

abbrev pub bars : List BarRow
bars =
    bar 0 50000 50000 50000 50000
    ∷ bar 60 50000 50100 49900 50000
    ∷ bar 120 50000 51000 49500 50500
    ∷ bar 180 50500 51500 50400 51000
    ∷ []

abbrev pub spec : MarketSpec
spec = record {
  tick_size_micro = pos 1000000;
  qty_step_base_1e8 = pos 1000;
  min_notional_micro = pos 5000000;
  taker_fee_rate_1e8 = pos 50000;
  leverage_cap_lev_1e4 = pos 100000;
  margin_tiers =
      record {
        notional_cap_micro = pos 1000000000000;
        initial_rate_1e8 = pos 10000000;
        maintenance_rate_1e8 = pos 500000;
      }
      ∷ [];
  liquidation_penalty_1e8 = pos 500000;
  funding = record {
    interval_ms = pos 28800000;
    settlement_offsets_ms = pos 0 ∷ pos 28800000 ∷ pos 57600000 ∷ [];
    cap_1e8 = pos 75000;
    floor_1e8 = negsuc 74999;
  };
  half_spread_1e8 = pos 10000;
  impact_model = linear;
  impact_coeff_1e8 = pos 1000000;
  participation_cap_1e8 = pos 10000000;
  cost_profile_multipliers_1e4 = (codes "primary", pos 10000) ∷ (codes "stress_2x", pos 20000) ∷ [];
}

abbrev pub market : MarketData
market = record { spec = spec; trade = bars; mark = bars; index = bars; funding = [] }

abbrev pub pack : PackData
pack = record {
  window_start_ts = pos 0;
  window_end_ts = pos 240;
  decision_bar_ms = pos 60;
  warmup_bars = 1;
  default_lookback = record { bars = 2; funding_prints = 1 };
  markets = (codes "M1", market) ∷ [];
}

abbrev pub config : EpisodeConfig
config = record {
  starting_nav_micro = pos 10000000000;
  leverage_cap_gross_lev_1e4 = pos 100000;
  drawdown_kill_switch_1e8 = pos 50000000;
  lookback_bars = none;
  funding_prints = none;
  response_deadline_ms = 120000;
  seed = 0;
  cost_profiles = codes "primary" ∷ codes "stress_2x" ∷ [];
  turnover_cap_1e8 = none;
  parse_failure_retries = 1;
}

-- Twice long, then flat.
abbrev pub two_turns : ℕ → TurnDecision
two_turns zero = parsed (record {
  target_lev_1e4 = (codes "M1", pos 20000) ∷ [];
  max_slippage_bps = none;
  from_attempt = 1;
})
two_turns (suc turn) = parsed (record {
  target_lev_1e4 = (codes "M1", pos 0) ∷ [];
  max_slippage_bps = none;
  from_attempt = 1;
})

abbrev pub profile : Profile
profile = record {
  pack = pack;
  config = config;
  alias = codes "M1";
  market = market;
  multiplier = pos 10000;
  decide = λ turn. ok (two_turns turn);
  replays = false;
}

-- The result of a call, or `fallback`.
abbrev pub outcome : {A : Type 0} → A → Result A → A
outcome fallback (ok a) = a
outcome fallback (err e) = fallback

abbrev pub flat_snapshot : Snapshot
flat_snapshot =
    snapshot_of (new_account (pos 10000000000)) 0 1 (pos 120) (pos 50000) (pos 0) (record {
      entry = none;
      liquidation = none;
      distance = none;
      min_distance = none;
      margin = pos 0;
      maintenance = pos 0;
    })

abbrev pub played : Run
played = outcome (first_run profile true flat_snapshot) (run_turns profile true)

-- Two turns are played, an order to open and one to close.
pub run_turns-played : run_turns profile true ≡ ok played
unfolding run_turns start_run play play_turn turn_step act count_decision keep_decision bars_total
    clock_real_ts snapshot drawdown_1e8 turnover_1e8 sign emit risk_checks is_blocked apply_checks
    count_block gross_target realized_by move_position book_fill apply_position_fill calculate_fill
    target_for size_order fill_request slips cancel_reason position_fill emit_remainder emit_fill
    settle_fill execute_order keep_position post_kill_attempt route_order order_step settle_funding
    funding_at coincident_funding is_inside maybe_settle holding_funding emit_margin margin_event
    open_margin_event trigger_liquidation near_miss check_liquidation find_liquidation
    liquidation_step append_snapshot emit_close replace_snapshot flatten_open flatten_seqs
    flatten_if_open fire_kill_switch kill_switch_due maybe_fire kill_switch_step
    terminal_margin_event target_quantity_base_1e8 raw_target_quantity_base_1e8 participation_fill
    participation_capacity_base_1e8 floor_to_step floor_fraction ceil_fraction apply_cost_multiplier
    ceil_sqrt_fraction fraction_div fraction_mul isqrt notional_micro half_spread_ticks
    adjusted_price fee_micro fill_price_ticks impact_ticks modeled_impact slippage_1e8 get
    shortest_trade check_quantity kill_pass turnover_check applied_funding average_entry closes
    flatten index_open kill_close liquidate count_rejection maintenance_rate margin_view peak_nav
    upnl distance_for_side distance_to_liquidation_1e8 liquidation_crossed liquidation_penalty_micro
    liquidation_price_ticks long_liquidation maintenance_margin_micro margin_used_micro
    short_liquidation clamp_funding_rate_1e8 funding_cash_flow_micro realized_pnl_micro
    unrealized_pnl_micro ◌+ℤ◌ ◌-ℤ◌ ◌*ℤ◌ ◌//◌ neg ◌>>=◌
run_turns-played = refl

-- The first turn buys, the second sells at a profit before fees.
played-trades :
    (played.counters.turns ≡ 2)
    × (played.account.position_qty_base_1e8 ≡ pos 0)
    × (ltb_ℤ (pos 0) played.account.fees_cum_micro ≡ true)
    × (ltb_ℤ (pos 0) played.account.realized_price_cum_micro ≡ true)
unfolding run_turns start_run play play_turn turn_step act count_decision keep_decision bars_total
    clock_real_ts snapshot drawdown_1e8 turnover_1e8 sign emit risk_checks is_blocked apply_checks
    count_block gross_target realized_by move_position book_fill apply_position_fill calculate_fill
    target_for size_order fill_request slips cancel_reason position_fill emit_remainder emit_fill
    settle_fill execute_order keep_position post_kill_attempt route_order order_step settle_funding
    funding_at coincident_funding is_inside maybe_settle holding_funding emit_margin margin_event
    open_margin_event trigger_liquidation near_miss check_liquidation find_liquidation
    liquidation_step append_snapshot emit_close replace_snapshot flatten_open flatten_seqs
    flatten_if_open fire_kill_switch kill_switch_due maybe_fire kill_switch_step
    terminal_margin_event target_quantity_base_1e8 raw_target_quantity_base_1e8 participation_fill
    participation_capacity_base_1e8 floor_to_step floor_fraction ceil_fraction apply_cost_multiplier
    ceil_sqrt_fraction fraction_div fraction_mul isqrt notional_micro half_spread_ticks
    adjusted_price fee_micro fill_price_ticks impact_ticks modeled_impact slippage_1e8 get
    shortest_trade check_quantity kill_pass turnover_check applied_funding average_entry closes
    flatten index_open kill_close liquidate count_rejection maintenance_rate margin_view peak_nav
    upnl distance_for_side distance_to_liquidation_1e8 liquidation_crossed liquidation_penalty_micro
    liquidation_price_ticks long_liquidation maintenance_margin_micro margin_used_micro
    short_liquidation clamp_funding_rate_1e8 funding_cash_flow_micro realized_pnl_micro
    unrealized_pnl_micro ◌+ℤ◌ ◌-ℤ◌ ◌*ℤ◌ ◌//◌ neg ◌>>=◌
played-trades = (refl, refl, refl, refl)
