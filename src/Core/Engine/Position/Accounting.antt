-- ===== src/Core/Engine/Position/Accounting.antt =====
-- Every operation on an account conserves cash: what the cash has gained is realised profit less
-- fees, funding and penalties, whatever the prices.
use wagmi_bench.Prelude.{◌+◌, ◌≡◌, arith, Ensures, Result-cases, inl, inr}
use wagmi_bench.Prelude.Int.{ℤ, pos_part, neg_part, ◌+ℤ◌, ◌-ℤ◌, int_laws}
use wagmi_bench.Prelude.Int.Laws.{parts_of_eq}
use wagmi_bench.Core.Pack.{BarRow, FundingRow, MarketSpec, MarketData}
use wagmi_bench.Core.Engine.State.{Account, new_account, realized_pnl}
use wagmi_bench.Core.Engine.Position.{
  Settlement, applied_funding, PositionFill, realized_by, book_fill, move_position,
  apply_position_fill, Liquidation, liquidate, KillClose, kill_close,
}

-- `cash_micro - starting_cash == realized_pnl`
abbrev pub Conserves : ℤ → Account → Type 0
Conserves start a = a.cash_micro -ℤ start ≡ realized_pnl a

pub new_account-Conserves : (start : ℤ) → Conserves start (new_account start)
unfolding realized_pnl
new_account-Conserves start = omega int_laws

-- The position does not enter the cash account.
move_position-Conserves :
    (start : ℤ) (a : Account) (fill : PositionFill)
    → Conserves start a
    → Conserves start (move_position a fill)
unfolding move_position realized_pnl
move_position-Conserves start a fill h = ground arith

module _ (start : ℤ) (a : Account) (h : Conserves start a) where
  parts :
      pos_part (a.cash_micro -ℤ start) + neg_part (realized_pnl a)
      ≡ pos_part (realized_pnl a) + neg_part (a.cash_micro -ℤ start)
  parts = parts_of_eq _ _ h

  settle-Conserves :
      (flow : ℤ)
      → Conserves start (record a {
        cash_micro = a.cash_micro +ℤ flow;
        funding_cum_micro = a.funding_cum_micro -ℤ flow;
      })
  unfolding realized_pnl
  settle-Conserves flow = omega (int_laws, parts)

  -- A funding settlement that returns keeps the conservation of cash.
  pub applied_funding-Conserves :
      (market : MarketData) (row : FundingRow)
      → Ensures (λ (s : Settlement). Conserves start s.account) (applied_funding a market row)
  unfolding applied_funding
  applied_funding-Conserves market row = grind (arith, settle-Conserves)

  book_fill-Conserves :
      (realized : ℤ) (fill : PositionFill) → Conserves start (book_fill a realized fill)
  unfolding book_fill realized_pnl
  book_fill-Conserves realized fill = omega (int_laws, parts)

  -- A fill that is applied keeps the conservation of cash: if the cash minus the starting cash was
  -- the realised profit less all charges, it is so after the fill, on every branch of the position.
  pub apply_position_fill-Conserves :
      (fill : PositionFill) (spec : MarketSpec)
      → Ensures (Conserves start) (apply_position_fill a fill spec)
  unfolding apply_position_fill
  apply_position_fill-Conserves fill spec = elim (Result-cases (realized_by a fill spec)) [
    | inl (x, e) ↦
        rw e (move_position-Conserves start (book_fill a x fill) fill (book_fill-Conserves x fill))
    | inr (x, e) ↦ rw e tt
  ]

  liquidated-Conserves :
      (realized penalty notional : ℤ)
      → Conserves start (record a {
        cash_micro = a.cash_micro +ℤ (realized -ℤ penalty);
        realized_price_cum_micro = a.realized_price_cum_micro +ℤ realized;
        liquidation_penalty_cum_micro = a.liquidation_penalty_cum_micro +ℤ penalty;
        turnover_notional_micro = a.turnover_notional_micro +ℤ notional;
      })
  unfolding realized_pnl
  liquidated-Conserves realized penalty notional = omega (int_laws, parts)

  killed-Conserves :
      (realized fee notional : ℤ)
      → Conserves start (record a {
        cash_micro = a.cash_micro +ℤ (realized -ℤ fee);
        realized_price_cum_micro = a.realized_price_cum_micro +ℤ realized;
        fees_cum_micro = a.fees_cum_micro +ℤ fee;
        turnover_notional_micro = a.turnover_notional_micro +ℤ notional;
      })
  unfolding realized_pnl
  killed-Conserves realized fee notional = omega (int_laws, parts)

  -- A liquidation that returns keeps the conservation of cash.
  pub liquidate-Conserves :
      (spec : MarketSpec) (mark : BarRow)
      → Ensures (λ (l : Liquidation). Conserves start l.account) (liquidate a spec mark)
  unfolding liquidate realized_pnl
  liquidate-Conserves spec mark = grind (arith, liquidated-Conserves)

  -- The flattening close of the kill switch keeps the conservation of cash, if it returns.
  pub kill_close-Conserves :
      (spec : MarketSpec) (multiplier px : ℤ)
      → Ensures (λ (k : KillClose). Conserves start k.account) (kill_close a spec multiplier px)
  unfolding kill_close realized_pnl
  kill_close-Conserves spec multiplier px = grind (arith, killed-Conserves)
