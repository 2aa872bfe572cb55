-- ===== src/Core/Engine/Ledger/Conservation.antt =====
-- Cash is conserved along a whole run, under every agent: the order of a turn, the turn, the loop.
use wagmi_bench.Prelude.{
  ℕ, zero, suc, ◌+◌, arith, Bool, true, false, Bool-cases, inl, inr, Option, none, some, List, [],
  ◌∷◌, ok, Keeps, Keeps-bind, Keeps-any, Keeps-if, Keeps-ok,
}
use wagmi_bench.Prelude.Int.{ℤ, pos, eqb_ℤ}
use wagmi_bench.Core.Models.{FillCalculation}
use wagmi_bench.Core.Engine.State.{
  new_account, ParsedAction, RiskCheck, CancelReason, TurnDecision, parsed, rejected, Run, emit,
  realized_pnl,
}
use wagmi_bench.Core.Engine.Position.Accounting.{
  Conserves, apply_position_fill-Conserves, new_account-Conserves,
}
use wagmi_bench.Core.Engine.Gates.{apply_checks, count_block}
use wagmi_bench.Core.Engine.Order.{
  Context, Sizing, emit_fill, emit_remainder, settle_fill, position_fill, cancel_reason,
  execute_order, keep_position, post_kill_attempt, route_order, order_step,
}
use wagmi_bench.Core.Engine.Turn.{count_decision, act, turn_step}
use wagmi_bench.Core.Engine.Episode.{
  Profile, context, keep_decision, play_turn, play, start_run, run_turns,
}
use wagmi_bench.Core.Engine.Ledger.Balance.{
  IsBooked, Balanced, snapshot-IsBooked, emit-Balanced, swap, coincident_funding-Balanced,
  holding_funding-Balanced, open_margin_event-Balanced, liquidation_step-Balanced,
  append_snapshot-Balanced, kill_switch_step-Balanced, terminal_margin_event-Balanced,
}

module _ (start : ℤ) where
  count_block-Balanced :
      (check : RiskCheck) (run : Run) → Balanced start run → Balanced start (count_block check run)
  unfolding count_block
  count_block-Balanced check run h = ground arith

  apply_checks-Balanced :
      (checks : List RiskCheck) (ts : ℤ) (turn : ℕ) (run : Run)
      → Balanced start run
      → Balanced start (apply_checks checks ts turn run)
  unfolding apply_checks
  apply_checks-Balanced [] ts turn run h = h
  apply_checks-Balanced (check ∷ checks) ts turn run h =
      apply_checks-Balanced checks ts turn _
        (emit-Balanced start _ ts turn turn _ (count_block-Balanced check run h))

  emit_fill-Balanced :
      (c : Context) (s : Sizing) (fill : FillCalculation) (run : Run)
      → Balanced start run
      → Balanced start (emit_remainder c s fill (emit_fill c s fill run))
  unfolding emit_remainder emit_fill emit
  emit_fill-Balanced c s fill run h = ground arith

  settle_fill-Balanced :
      (c : Context) (s : Sizing) (fill : FillCalculation) (run : Run) (reason : Option CancelReason)
      → Balanced start run
      → Keeps (Balanced start) (settle_fill c s fill run reason)
  unfolding settle_fill
  settle_fill-Balanced c s fill run (some reason) h =
      Keeps-ok (emit-Balanced start _ _ c.turn (c.turn + 1) run h)
  settle_fill-Balanced c s fill run none h =
      Keeps-bind (Conserves start)
        (record {
          holds =
              apply_position_fill-Conserves start run.account h.account (position_fill s fill)
                c.market.spec;
        })
        λ account k. Keeps-ok (emit_fill-Balanced c s fill _ (swap start k h))

  keep_position-Balanced :
      (c : Context) (s : Sizing) (run : Run)
      → Balanced start run
      → Balanced start (keep_position c s run)
  unfolding keep_position realized_pnl emit
  keep_position-Balanced c s run h = ground arith

  execute_order-Balanced :
      (c : Context) (action : ParsedAction) (s : Sizing) (run : Run)
      → Balanced start run
      → Keeps (Balanced start) (execute_order c action s run)
  unfolding execute_order
  execute_order-Balanced c action s run h =
      Keeps-any
        λ fill _. settle_fill-Balanced c s fill run (cancel_reason c.market.spec action fill) h

  post_kill_attempt-Balanced :
      (c : Context) (action : ParsedAction) (lev : ℤ) (run : Run)
      → Balanced start run
      → Balanced start (post_kill_attempt c action lev run)
  unfolding post_kill_attempt emit
  post_kill_attempt-Balanced c action lev run h = ground arith

  route_order-Balanced :
      (c : Context) (action : ParsedAction) (s : Sizing) (blocked : Bool) (run : Run)
      → Balanced start run
      → Keeps (Balanced start) (route_order c action s blocked run)
  unfolding route_order
  route_order-Balanced c action s true run h =
      Keeps-ok (post_kill_attempt-Balanced c action s.target_lev run h)
  route_order-Balanced c action s false run h =
      Keeps-if (eqb_ℤ s.requested_delta (pos 0)) (ok (keep_position c s run))
        (execute_order c action s run) (λ _. Keeps-ok (keep_position-Balanced c s run h))
        (λ _. execute_order-Balanced c action s run h)

  act-Balanced :
      (c : Context) (drawdown : ℤ) (decision : TurnDecision) (run : Run)
      → Balanced start run
      → Keeps (Balanced start) (act c drawdown decision run)
  unfolding act order_step
  act-Balanced c drawdown (rejected rejection) run h = Keeps-ok h
  act-Balanced c drawdown (parsed action) run h = Keeps-any λ s _.
      route_order-Balanced c action s _ _ (apply_checks-Balanced _ c.decision_ts c.turn run h)

  count_decision-Balanced :
      (c : Context) (decision : TurnDecision) (run : Run)
      → Balanced start run
      → Balanced start (count_decision c decision run)
  unfolding count_decision
  count_decision-Balanced c (parsed action) run h =
      emit-Balanced start _ _ c.turn c.turn _
        (record { account = h.account; latest = h.latest; earlier = h.earlier })
  count_decision-Balanced c (rejected rejection) run h =
      emit-Balanced start _ _ c.turn c.turn _
        (record { account = h.account; latest = h.latest; earlier = h.earlier })

  turn_step-Balanced :
      (c : Context) (decision : TurnDecision) (run : Run)
      → Balanced start run
      → Keeps (Balanced start) (turn_step c decision run)
  unfolding turn_step
  turn_step-Balanced c decision run h = Keeps-any λ drawdown _. Keeps-any λ turnover _.
      Keeps-bind (Balanced start)
        (coincident_funding-Balanced start c _ (count_decision-Balanced c decision run h))
        λ funded g.
          Keeps-bind (Balanced start) (act-Balanced c drawdown decision funded g) λ acted g.
            Keeps-bind (Balanced start)
              (holding_funding-Balanced start c c.market.funding _
                (record { account = g.account; latest = g.latest; earlier = g.earlier }))
              λ held g.
                Keeps-bind (Balanced start) (open_margin_event-Balanced start c held g) λ marked g.
                  Keeps-bind (Balanced start) (liquidation_step-Balanced start c marked g)
                    λ checked g.
                      Keeps-bind (Balanced start) (append_snapshot-Balanced start c checked g)
                        λ closed g.
                          Keeps-bind (Balanced start) (kill_switch_step-Balanced start c closed g)
                            λ switched g. terminal_margin_event-Balanced start c switched g

keep_decision-Balanced :
    {start : ℤ} (replays : Bool) (decision : TurnDecision) (run : Run)
    → Balanced start run
    → Balanced start (keep_decision replays decision run)
unfolding keep_decision
keep_decision-Balanced true decision run h = h
keep_decision-Balanced false decision run h = record {
  account = h.account;
  latest = h.latest;
  earlier = h.earlier;
}

module _ (p : Profile) where
  abbrev start : ℤ
  start = p.config.starting_nav_micro

  play_turn-Balanced :
      (turn : ℕ) (run : Run) → Balanced start run → Keeps (Balanced start) (play_turn p turn run)
  unfolding play_turn
  play_turn-Balanced turn run h = Keeps-any λ ts _. Keeps-any λ decision _.
      turn_step-Balanced start (context p turn ts) decision _
        (keep_decision-Balanced p.replays decision run h)

  play-Balanced :
      (left turn : ℕ) (run : Run)
      → Balanced start run
      → Keeps (Balanced start) (play p left turn run)
  unfolding play
  play-Balanced zero turn run h = Keeps-ok h
  play-Balanced (suc left) turn run h = elim (Bool-cases run.terminal) [
    | inl over ↦ rw (over, play) (Keeps-ok h)
    | inr on ↦
        rw (on, play)
          (Keeps-bind (Balanced start) (play_turn-Balanced turn run h)
            λ next g. play-Balanced left (turn + 1) next g)
  ]

  -- In every run that returns, the cash of the account minus the starting cash is the realised
  -- profit less fees, funding and penalties; the same holds of every snapshot, and the NAV of every
  -- snapshot is its cash plus its unrealised profit.
  pub run_turns-Balanced :
      (collect : Bool) → Keeps (Balanced p.config.starting_nav_micro) (run_turns p collect)
  unfolding run_turns start_run
  run_turns-Balanced collect =
      Keeps-bind (Balanced start)
        (Keeps-any λ ts _.
          Keeps-bind (IsBooked start)
            (snapshot-IsBooked start (new_account start) p.market p.pack.warmup_bars 0 ts
              (new_account-Conserves start))
            λ first k.
              Keeps-ok (record { account = new_account-Conserves start; latest = k; earlier = tt }))
        λ run g. Keeps-any λ total _. play-Balanced total 0 run g
