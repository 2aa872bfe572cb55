-- ===== src/Core/Engine/Turn.antt =====
-- core/engine.py, one turn of the loop in `_run_profile`. Observations are not modelled: what the
-- agent answers is any function of the turn and the attempt.
use wagmi_bench.Prelude.{◌+◌, Result, ok, ◌>>=◌}
use wagmi_bench.Prelude.Int.{ℤ, pos}
use wagmi_bench.Core.Math.Rounding.{rate_scale}
use wagmi_bench.Core.Metrics.{turnover_1e8}
use wagmi_bench.Core.Engine.State.{
  Reason, timeout, agent_error, TurnDecision, parsed, rejected, Counters, action_parsed,
  action_rejected, Run, emit,
}
use wagmi_bench.Core.Engine.Valuation.{drawdown_1e8}
use wagmi_bench.Core.Engine.Order.{Context, order_step}
use wagmi_bench.Core.Engine.Close.{
  coincident_funding, holding_funding, open_margin_event, liquidation_step, append_snapshot,
  kill_switch_step, terminal_margin_event,
}

-- `if reason in {"timeout", "agent_error"}: missed_decisions += 1 else: invalid_actions += 1`
unfoldable pub count_rejection : Reason → Counters → Counters
count_rejection timeout k = record k { missed_decisions = k.missed_decisions + 1 }
count_rejection agent_error k = record k { missed_decisions = k.missed_decisions + 1 }
count_rejection _ k = record k { invalid_actions = k.invalid_actions + 1 }

abbrev pub count_turn : Counters → Counters
count_turn k = record k { turns = k.turns + 1 }

-- The decision is counted, and is an event.
unfoldable pub count_decision : Context → TurnDecision → Run → Run
unfolding count_rejection
count_decision c (parsed action) run =
    emit (action_parsed action) c.decision_ts c.turn c.turn
      (record run { counters = count_turn run.counters })
count_decision c (rejected rejection) run =
    emit (action_rejected rejection) c.decision_ts c.turn c.turn
      (record run { counters = count_rejection rejection.reason (count_turn run.counters) })

-- `if parsed is not None: ...`
unfoldable pub act : Context → ℤ → TurnDecision → Run → Result Run
act c drawdown_used (parsed action) run = order_step c drawdown_used action run
act c drawdown_used (rejected rejection) run = ok run

-- From the decision to the end of the turn.
unfoldable pub turn_step : Context → TurnDecision → Run → Result Run
turn_step c decision run = do
  drawdown_used ← drawdown_1e8 run.latest run.earlier
  turnover_used ←
      turnover_1e8 run.account.turnover_notional_micro c.config.starting_nav_micro rate_scale
  funded ← coincident_funding c (count_decision c decision run)
  acted ← act c drawdown_used decision funded
  held ← holding_funding c c.market.funding (record acted { last_turn = pos c.turn })
  marked ← open_margin_event c held
  checked ← liquidation_step c marked
  closed ← append_snapshot c checked
  switched ← kill_switch_step c closed
  terminal_margin_event c switched
