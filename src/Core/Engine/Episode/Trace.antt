-- ===== src/Core/Engine/Episode/Trace.antt =====
-- core/engine.py, `run.decisions`: a turn keeps one decision, and none if it replays.
use wagmi_bench.Prelude.{
  ℕ, ◌+◌, ◌≡◌, arith, Bool, true, false, Option, none, some, List, [], ◌∷◌, ok, Keeps, Keeps-ok,
  Keeps-if, Keeps-bind, Keeps-any,
}
use wagmi_bench.Prelude.Int.{ℤ, pos, eqb_ℤ}
use wagmi_bench.Core.Models.{FillCalculation}
use wagmi_bench.Core.Pack.{BarRow, FundingRow}
use wagmi_bench.Core.Engine.State.{
  ParsedAction, RiskCheck, CancelReason, TurnDecision, parsed, rejected, Payload, Run, emit,
}
use wagmi_bench.Core.Engine.Gates.{apply_checks, count_block}
use wagmi_bench.Core.Engine.Order.{
  Context, Sizing, emit_fill, emit_remainder, settle_fill, execute_order, keep_position,
  post_kill_attempt, route_order, order_step,
}
use wagmi_bench.Core.Engine.Close.{
  settle_funding, funding_at, coincident_funding, maybe_settle, is_inside, holding_funding,
  emit_margin, margin_event, open_margin_event, trigger_liquidation, near_miss, check_liquidation,
  find_liquidation, liquidation_step, append_snapshot, emit_close, replace_snapshot, flatten_open,
  flatten_if_open, fire_kill_switch, maybe_fire, kill_switch_due, kill_switch_step,
  terminal_margin_event,
}
use wagmi_bench.Core.Engine.Turn.{count_decision, act, turn_step}

module _ (trace : List TurnDecision) where
  abbrev Logs : Run → Type 0
  Logs run = run.decisions ≡ trace

  emit-Logs :
      (payload : Payload) (ts : ℤ) (turn bar : ℕ) (run : Run)
      → Logs run
      → Logs (emit payload ts turn bar run)
  unfolding emit
  emit-Logs payload ts turn bar run h = ground arith

  settle_funding-Logs :
      (c : Context) (ts : ℤ) (row : FundingRow) (run : Run)
      → Logs run
      → Keeps Logs (settle_funding c ts row run)
  unfolding settle_funding
  settle_funding-Logs c ts row run h =
      Keeps-any λ s _. Keeps-ok (emit-Logs _ ts c.turn (c.turn + 1) _ h)

  coincident_funding-Logs :
      (c : Context) (run : Run) → Logs run → Keeps Logs (coincident_funding c run)
  unfolding coincident_funding
  coincident_funding-Logs c run h = settled (funding_at c.decision_ts c.market.funding)
    where
      settled :
          (row : Option FundingRow)
          → Keeps Logs (elim row [ none ↦ ok run | some r ↦ settle_funding c c.decision_ts r run ])
      settled none = Keeps-ok h
      settled (some r) = settle_funding-Logs c c.decision_ts r run h

  holding_funding-Logs :
      (c : Context) (rows : List FundingRow) (run : Run)
      → Logs run
      → Keeps Logs (holding_funding c rows run)
  unfolding holding_funding maybe_settle
  holding_funding-Logs c [] run h = Keeps-ok h
  holding_funding-Logs c (row ∷ rows) run h =
      Keeps-bind Logs
        (Keeps-if (is_inside c row) (settle_funding c row.ts row run) (ok run)
          (λ _. settle_funding-Logs c row.ts row run h) (λ _. Keeps-ok h))
        λ next k. holding_funding-Logs c rows next k

  apply_checks-Logs :
      (checks : List RiskCheck) (ts : ℤ) (turn : ℕ) (run : Run)
      → Logs run
      → Logs (apply_checks checks ts turn run)
  unfolding apply_checks count_block
  apply_checks-Logs [] ts turn run h = h
  apply_checks-Logs (check ∷ checks) ts turn run h =
      let counted : Logs (count_block check run) = ground arith in
      apply_checks-Logs checks ts turn _ (emit-Logs _ ts turn turn _ counted)

  settle_fill-Logs :
      (c : Context) (s : Sizing) (fill : FillCalculation) (run : Run) (reason : Option CancelReason)
      → Logs run
      → Keeps Logs (settle_fill c s fill run reason)
  unfolding settle_fill emit_fill emit_remainder emit
  settle_fill-Logs c s fill run (some reason) h = Keeps-ok (ground arith)
  settle_fill-Logs c s fill run none h = Keeps-any λ account _. Keeps-ok (ground arith)

  route_order-Logs :
      (c : Context) (action : ParsedAction) (s : Sizing) (blocked : Bool) (run : Run)
      → Logs run
      → Keeps Logs (route_order c action s blocked run)
  unfolding route_order post_kill_attempt keep_position execute_order emit
  route_order-Logs c action s true run h = Keeps-ok (ground arith)
  route_order-Logs c action s false run h =
      Keeps-if (eqb_ℤ s.requested_delta (pos 0)) (ok (keep_position c s run))
        (execute_order c action s run) (λ _. Keeps-ok (ground arith))
        (λ _. Keeps-any λ fill _. settle_fill-Logs c s fill run _ h)

  act-Logs :
      (c : Context) (drawdown : ℤ) (decision : TurnDecision) (run : Run)
      → Logs run
      → Keeps Logs (act c drawdown decision run)
  unfolding act order_step
  act-Logs c drawdown (rejected rejection) run h = Keeps-ok h
  act-Logs c drawdown (parsed action) run h =
      Keeps-any
        λ s _. route_order-Logs c action s _ _ (apply_checks-Logs _ c.decision_ts c.turn run h)

  count_decision-Logs :
      (c : Context) (decision : TurnDecision) (run : Run)
      → Logs run
      → Logs (count_decision c decision run)
  unfolding count_decision
  count_decision-Logs c (parsed action) run h = emit-Logs _ _ c.turn c.turn _ h
  count_decision-Logs c (rejected rejection) run h = emit-Logs _ _ c.turn c.turn _ h

  margin_event-Logs : (c : Context) (run : Run) → Logs run → Keeps Logs (margin_event c run)
  unfolding margin_event emit_margin
  margin_event-Logs c run h =
      Keeps-if run.collect (emit_margin c run) (ok run)
        (λ _. Keeps-any λ s _. Keeps-ok (emit-Logs _ _ c.turn (c.turn + 1) run h)) (λ _. Keeps-ok h)

  open_margin_event-Logs :
      (c : Context) (run : Run) → Logs run → Keeps Logs (open_margin_event c run)
  unfolding open_margin_event
  open_margin_event-Logs c run h =
      Keeps-if (eqb_ℤ run.account.position_qty_base_1e8 (pos 0)) (ok run) (margin_event c run)
        (λ _. Keeps-ok h) (λ _. margin_event-Logs c run h)

  check_liquidation-Logs :
      (c : Context) (mark : BarRow) (run : Run)
      → Logs run
      → Keeps Logs (check_liquidation c mark run)
  unfolding check_liquidation trigger_liquidation near_miss emit
  check_liquidation-Logs c mark run h = Keeps-any λ notional _. Keeps-any λ rate _.
      Keeps-any λ liquidation _. Keeps-any λ crossed _.
        Keeps-if crossed (trigger_liquidation c mark liquidation run)
          (near_miss c mark liquidation run)
          (λ _. Keeps-any λ l _. Keeps-ok (emit-Logs _ _ c.turn (c.turn + 1) _ h))
          (λ _. Keeps-any λ minimum _. Keeps-ok (ground arith))

  liquidation_step-Logs : (c : Context) (run : Run) → Logs run → Keeps Logs (liquidation_step c run)
  unfolding liquidation_step find_liquidation
  liquidation_step-Logs c run h =
      Keeps-if (eqb_ℤ run.account.position_qty_base_1e8 (pos 0)) (ok run) (find_liquidation c run)
        (λ _. Keeps-ok h) (λ _. Keeps-any λ mark _. check_liquidation-Logs c mark run h)

  append_snapshot-Logs : (c : Context) (run : Run) → Logs run → Keeps Logs (append_snapshot c run)
  unfolding append_snapshot
  append_snapshot-Logs c run h = Keeps-any λ s _. Keeps-ok h

  flatten_if_open-Logs : (c : Context) (run : Run) → Logs run → Keeps Logs (flatten_if_open c run)
  unfolding flatten_if_open flatten_open replace_snapshot emit_close
  flatten_if_open-Logs c run h =
      Keeps-if (eqb_ℤ run.account.position_qty_base_1e8 (pos 0)) (ok run) (flatten_open c run)
        (λ _. Keeps-ok h)
        (λ _. Keeps-any λ mark _.
          Keeps-any
            λ k _. Keeps-any λ s _. margin_event-Logs c _ (emit-Logs _ _ c.turn (c.turn + 1) _ h))

  kill_switch_step-Logs : (c : Context) (run : Run) → Logs run → Keeps Logs (kill_switch_step c run)
  unfolding kill_switch_step maybe_fire fire_kill_switch
  kill_switch_step-Logs c run h = Keeps-any λ drawdown _.
      Keeps-if (kill_switch_due c run drawdown) (fire_kill_switch c drawdown run) (ok run)
        (λ _.
          Keeps-bind Logs (flatten_if_open-Logs c run h)
            λ closed k. Keeps-ok (emit-Logs _ _ c.turn (c.turn + 1) _ k))
        (λ _. Keeps-ok h)

  terminal_margin_event-Logs :
      (c : Context) (run : Run) → Logs run → Keeps Logs (terminal_margin_event c run)
  unfolding terminal_margin_event
  terminal_margin_event-Logs c run h =
      Keeps-if run.terminal (margin_event c run) (ok run) (λ _. margin_event-Logs c run h)
        (λ _. Keeps-ok h)

  pub turn_step-Logs :
      (c : Context) (decision : TurnDecision) (run : Run)
      → Logs run
      → Keeps Logs (turn_step c decision run)
  unfolding turn_step
  turn_step-Logs c decision run h = Keeps-any λ drawdown _. Keeps-any λ turnover _.
      Keeps-bind Logs
        (coincident_funding-Logs c (count_decision c decision run)
          (count_decision-Logs c decision run h))
        λ funded g. Keeps-bind Logs (act-Logs c drawdown decision funded g) λ acted g.
          Keeps-bind Logs
            (holding_funding-Logs c c.market.funding (record acted { last_turn = pos c.turn }) g)
            λ held g. Keeps-bind Logs (open_margin_event-Logs c held g) λ marked g.
              Keeps-bind Logs (liquidation_step-Logs c marked g) λ checked g.
                Keeps-bind Logs (append_snapshot-Logs c checked g) λ closed g.
                  Keeps-bind Logs (kill_switch_step-Logs c closed g)
                    λ switched g. terminal_margin_event-Logs c switched g
