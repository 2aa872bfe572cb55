-- ===== src/Core/Engine/Position.antt =====
-- core/engine.py, what changes an account: a funding settlement, a fill, a liquidation, a flattening
-- close.
pub mod Accounting
use wagmi_bench.Prelude.{
  ℕ, Bool, true, false, ◌||◌, ◌&&◌, not, Option, none, some, List, [], ◌∷◌, if◌then◌else◌, Result,
  ok, err, raise_if, or_raise, engine_error, ◌>>=◌, ◌>>◌,
}
use wagmi_bench.Prelude.Int.{ℤ, pos, ◌+ℤ◌, ◌-ℤ◌, ◌*ℤ◌, ◌//◌, abs, min_ℤ, leb_ℤ, ltb_ℤ, eqb_ℤ}
use wagmi_bench.Core.Pack.{BarRow, FundingRow, MarketSpec, MarketData}
use wagmi_bench.Core.Math.Rounding.{
  rate_scale, qty_scale, cost_multiplier_scale, apply_cost_multiplier,
}
use wagmi_bench.Core.Math.Fill.{notional_micro, fee_micro}
use wagmi_bench.Core.Math.Pnl.{realized_pnl_micro, clamp_funding_rate_1e8, funding_cash_flow_micro}
use wagmi_bench.Core.Math.Margin.{liquidation_penalty_micro}
use wagmi_bench.Core.Engine.State.{Account, sign}

-- `next((row.o for row in market.index if row.ts == ts), None)`
unfoldable pub index_open : ℤ → List BarRow → Option ℤ
index_open ts [] = none
index_open ts (row ∷ rows) = if eqb_ℤ row.ts ts then some row.o else index_open ts rows

-- What `_applied_funding` returns, with the account that it changes.
pub record Settlement : Type 0 where
  pub account : Account
  pub rate : ℤ
  pub index_px : ℤ
  pub cash_flow : ℤ

-- `_applied_funding`
unfoldable pub applied_funding : Account → MarketData → FundingRow → Result Settlement
unfolding index_open ◌>>=◌
applied_funding account market row = do
  let spec = market.spec
  applied_rate ← clamp_funding_rate_1e8 row.rate_1e8 spec.funding.floor_1e8 spec.funding.cap_1e8
  index_px ← or_raise (index_open row.ts market.index) engine_error
  cash_flow ←
      funding_cash_flow_micro account.position_qty_base_1e8 index_px spec.tick_size_micro
        applied_rate qty_scale rate_scale
  ok (record {
    account = record account {
      cash_micro = account.cash_micro +ℤ cash_flow;
      funding_cum_micro = account.funding_cum_micro -ℤ cash_flow;
    };
    rate = applied_rate;
    index_px = index_px;
    cash_flow = cash_flow;
  })

-- The arguments of `_apply_position_fill` beside the account and the market.
pub record PositionFill : Type 0 where
  pub signed_fill_qty : ℤ
  pub fill_px_ticks : ℤ
  pub requested_target_leverage_1e4 : ℤ
  pub fee : ℤ
  pub fill_notional : ℤ
  pub reference_notional : ℤ
  pub request_fully_filled : Bool

-- The test on which a fill realises profit: it closes some of the old position.
unfoldable pub closes : ℤ → ℤ → Bool
closes old new =
    not (eqb_ℤ old (pos 0))
    && (eqb_ℤ new (pos 0) || not (eqb_ℤ (sign new) (sign old)) || ltb_ℤ (abs new) (abs old))

unfoldable pub realized_by : Account → PositionFill → MarketSpec → Result ℤ
unfolding closes
realized_by account fill spec =
    if closes account.position_qty_base_1e8 (account.position_qty_base_1e8 +ℤ fill.signed_fill_qty)
    then realized_pnl_micro (sign account.position_qty_base_1e8)
        (min_ℤ (abs account.position_qty_base_1e8) (abs fill.signed_fill_qty))
        account.entry_px_ticks fill.fill_px_ticks spec.tick_size_micro qty_scale
    else ok (pos 0)

-- The cash lines, in the order of the source.
unfoldable pub book_fill : Account → ℤ → PositionFill → Account
book_fill account realized fill = record account {
  cash_micro = account.cash_micro +ℤ (realized -ℤ fill.fee);
  fees_cum_micro = account.fees_cum_micro +ℤ fill.fee;
  realized_price_cum_micro = account.realized_price_cum_micro +ℤ realized;
  turnover_notional_micro = account.turnover_notional_micro +ℤ fill.fill_notional;
  fill_cost_cum_micro =
      account.fill_cost_cum_micro +ℤ abs (fill.fill_notional -ℤ fill.reference_notional);
}

-- `position = 0; entry = 0; target = 0`
unfoldable pub flatten : Account → Account
flatten account = record account {
  position_qty_base_1e8 = pos 0;
  entry_px_ticks = pos 0;
  target_leverage_1e4 = pos 0;
}

-- The entry price after a fill on the same side.
unfoldable pub average_entry : Account → ℤ → PositionFill → ℤ
average_entry account new fill =
    let old = account.position_qty_base_1e8 in
    if ltb_ℤ (abs old) (abs new)
    then (account.entry_px_ticks *ℤ abs old +ℤ fill.fill_px_ticks *ℤ abs fill.signed_fill_qty)
      // abs new
    else account.entry_px_ticks

-- The position lines: closed, opened or turned, or moved on its side.
unfoldable pub move_position : Account → PositionFill → Account
unfolding flatten average_entry
move_position account fill =
    let old = account.position_qty_base_1e8 in
    let new = old +ℤ fill.signed_fill_qty in
    if eqb_ℤ new (pos 0)
    then flatten account
    else if eqb_ℤ old (pos 0) || not (eqb_ℤ (sign new) (sign old))
    then record account {
      position_qty_base_1e8 = new;
      entry_px_ticks = fill.fill_px_ticks;
      target_leverage_1e4 = abs fill.requested_target_leverage_1e4;
    }
    else record account {
      position_qty_base_1e8 = new;
      entry_px_ticks = average_entry account new fill;
      target_leverage_1e4 =
          if ltb_ℤ (abs old) (abs new) || fill.request_fully_filled
          then abs fill.requested_target_leverage_1e4
          else account.target_leverage_1e4;
    }

-- `_apply_position_fill`
unfoldable pub apply_position_fill : Account → PositionFill → MarketSpec → Result Account
unfolding realized_by ◌>>=◌
apply_position_fill account fill spec = do
  realized ← realized_by account fill spec
  ok (move_position (book_fill account realized fill) fill)

-- What a liquidation reports.
pub record Liquidation : Type 0 where
  pub account : Account
  pub close_px : ℤ
  pub penalty : ℤ
  pub realized : ℤ

-- The block of `_run_profile` that closes a position at the adverse mark extreme.
unfoldable pub liquidate : Account → MarketSpec → BarRow → Result Liquidation
unfolding flatten ◌>>=◌
liquidate account spec mark = do
  let old = account.position_qty_base_1e8
  let close_px = if ltb_ℤ (pos 0) old then mark.l else mark.h
  realized ←
      realized_pnl_micro (sign old) (abs old) account.entry_px_ticks close_px spec.tick_size_micro
        qty_scale
  penalty ←
      liquidation_penalty_micro old close_px spec.tick_size_micro spec.liquidation_penalty_1e8
        qty_scale rate_scale
  close_notional ← notional_micro old close_px spec.tick_size_micro qty_scale
  ok (record {
    account = flatten (record account {
      cash_micro = account.cash_micro +ℤ (realized -ℤ penalty);
      realized_price_cum_micro = account.realized_price_cum_micro +ℤ realized;
      liquidation_penalty_cum_micro = account.liquidation_penalty_cum_micro +ℤ penalty;
      turnover_notional_micro = account.turnover_notional_micro +ℤ close_notional;
    });
    close_px = close_px;
    penalty = penalty;
    realized = realized;
  })

-- What the flattening close of the kill switch reports.
pub record KillClose : Type 0 where
  pub account : Account
  pub close_notional : ℤ
  pub close_fee : ℤ

-- The block of `_run_profile` that flattens an open position when the kill switch fires.
unfoldable pub kill_close : Account → MarketSpec → ℤ → ℤ → Result KillClose
unfolding flatten ◌>>=◌
kill_close account spec multiplier close_px = do
  let old = account.position_qty_base_1e8
  close_notional ← notional_micro old close_px spec.tick_size_micro qty_scale
  rate ← apply_cost_multiplier spec.taker_fee_rate_1e8 multiplier cost_multiplier_scale
  close_fee ← fee_micro close_notional rate rate_scale
  realized ←
      realized_pnl_micro (sign old) (abs old) account.entry_px_ticks close_px spec.tick_size_micro
        qty_scale
  ok (record {
    account = flatten (record account {
      cash_micro = account.cash_micro +ℤ (realized -ℤ close_fee);
      realized_price_cum_micro = account.realized_price_cum_micro +ℤ realized;
      fees_cum_micro = account.fees_cum_micro +ℤ close_fee;
      turnover_notional_micro = account.turnover_notional_micro +ℤ close_notional;
    });
    close_notional = close_notional;
    close_fee = close_fee;
  })
