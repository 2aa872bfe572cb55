-- ===== src/Tests/Runs.antt =====
-- The engine of core/engine.py on the pack of one market.
use wagmi_bench.Prelude.{
  codes, ℕ, zero, suc, ◌+◌, ◌≡◌, refl, true, none, some, List, [], ◌∷◌, ok, Keeps, ◌>>=◌,
}
use wagmi_bench.Prelude.Int.{pos, negsuc, ◌-ℤ◌, ◌//◌, ◌+ℤ◌, ◌*ℤ◌}
use wagmi_bench.Core.Pack.{get}
use wagmi_bench.Core.Math.Rounding.{floor_to_step, floor_fraction}
use wagmi_bench.Core.Math.Sizing.{target_quantity_base_1e8, raw_target_quantity_base_1e8}
use wagmi_bench.Core.Math.Fill.{notional_micro}
use wagmi_bench.Core.Metrics.{turnover_1e8}
use wagmi_bench.Core.Engine.Valuation.{upnl}
use wagmi_bench.Core.Engine.State.{
  new_account, Account, ParsedAction, schema_invalid, Run, realized_pnl,
}
use wagmi_bench.Core.Engine.Gates.{is_blocked, risk_checks, kill_pass, gross_target}
use wagmi_bench.Core.Engine.Position.{PositionFill}
use wagmi_bench.Core.Engine.Position.Accounting.{Conserves}
use wagmi_bench.Core.Engine.Order.{Context, Sizing, size_order, checks_of, order_step}
use wagmi_bench.Core.Engine.Order.Effects.{failures, Frozen, order_step-Frozen, order_step-blocked}
use wagmi_bench.Core.Engine.Decision.{
  ActionParseResult, refused, AgentOutcome, replied, timed_out, request_decision,
}
use wagmi_bench.Core.Engine.Decision.Attempts.{IsDecided, request_decision-IsDecided}
use wagmi_bench.Core.Engine.Episode.{context, first_run, play, run_turns, snapshots}
use wagmi_bench.Core.Engine.Episode.KillSwitch.{play-Frozen}
use wagmi_bench.Core.Engine.Episode.Quiet.{IsQuiet}
use wagmi_bench.Core.Engine.Ledger.{LedgerRow, ledger_rows}
use wagmi_bench.Core.Engine.Ledger.Balance.{Balanced}
use wagmi_bench.Core.Engine.Ledger.Conservation.{run_turns-Balanced}
use wagmi_bench.Core.Engine.Ledger.Rows.{Explains, run_turns-ledger}
use wagmi_bench.Tests.{bar, profile, played, run_turns-played, flat_snapshot, outcome}

run_turns-ledger_example :
    (rows : List LedgerRow) × (ledger_rows none (snapshots played) ≡ ok rows)
    × Explains (snapshots played) rows
run_turns-ledger_example = run_turns-ledger profile true played run_turns-played

run_turns-Balanced_example : Keeps (Balanced (pos 10000000000)) (run_turns profile true)
run_turns-Balanced_example = run_turns-Balanced profile true

-- An account that holds half a unit from 50000 on.
abbrev holder : Account
holder = record (new_account (pos 10000000000)) {
  position_qty_base_1e8 = pos 50000000;
  entry_px_ticks = pos 50000;
  target_leverage_1e4 = pos 25000;
}

holder-Conserves : Conserves (pos 10000000000) holder
unfolding realized_pnl ◌-ℤ◌
holder-Conserves = refl

-- A sale that flips the position.
abbrev flip : PositionFill
flip = record {
  signed_fill_qty = negsuc 69999999;
  fill_px_ticks = pos 50500;
  requested_target_leverage_1e4 = pos 10000;
  fee = pos 17675000;
  fill_notional = pos 35350000000;
  reference_notional = pos 35350000000;
  request_fully_filled = true;
}

-- A run whose kill switch has fired, and an action that asks for more.
abbrev killed : Account
killed = record (new_account (pos 9000000000)) { kill_switch_active = true }

abbrev killed_run : Run
killed_run = record (first_run profile true flat_snapshot) { account = killed }

abbrev first_context : Context
first_context = context profile 0 (pos 120)

abbrev twice_long : ParsedAction
twice_long = record {
  target_lev_1e4 = (codes "M1", pos 20000) ∷ [];
  max_slippage_bps = none;
  from_attempt = 1;
}

play-Frozen_example :
    Keeps
      (λ (next : Run). Frozen (pos 9000000000) next.account × IsQuiet killed_run next)
      (play profile 2 0 killed_run)
play-Frozen_example =
    play-Frozen (pos 9000000000) profile 2 0 killed_run
      (record { killed = refl; flat = refl; held = refl })

order_step-Frozen_example :
    Keeps
      (λ (next : Run). Frozen (pos 9000000000) next.account)
      (order_step first_context (pos 60000000) twice_long killed_run)
order_step-Frozen_example =
    order_step-Frozen (pos 9000000000) first_context (pos 60000000) twice_long killed_run
      (record { killed = refl; flat = refl; held = refl })

-- Any sizing.
abbrev small : Sizing
small = record {
  bar = bar 120 50000 51000 49500 50500;
  target_lev = pos 30000;
  requested_delta = pos 0;
  raw_requested_delta = pos 400;
  projected_turnover = pos 0;
}

-- What the action asks for.
abbrev asked : Sizing
asked = outcome small (size_order first_context twice_long killed)

size_order-asked : size_order first_context twice_long killed ≡ ok asked
unfolding size_order ◌>>=◌ ◌+ℤ◌ ◌*ℤ◌ upnl target_quantity_base_1e8 raw_target_quantity_base_1e8
    floor_to_step notional_micro turnover_1e8 ◌//◌ ◌-ℤ◌ get floor_fraction
size_order-asked = refl

asked-blocked : is_blocked (checks_of first_context (pos 60000000) twice_long asked killed) ≡ true
unfolding is_blocked risk_checks kill_pass size_order ◌>>=◌ ◌+ℤ◌ ◌*ℤ◌ upnl target_quantity_base_1e8
    raw_target_quantity_base_1e8 floor_to_step notional_micro turnover_1e8 ◌//◌ ◌-ℤ◌ get
    floor_fraction gross_target
asked-blocked = refl

order_step-blocked_example :
    (next : Run) × (order_step first_context (pos 60000000) twice_long killed_run ≡ ok next)
    × (next.account ≡ killed)
    × (next.counters.gate_blocks
        ≡ 0 + failures (checks_of first_context (pos 60000000) twice_long asked killed))
order_step-blocked_example =
    order_step-blocked first_context (pos 60000000) twice_long asked killed_run size_order-asked
      asked-blocked

-- An agent whose first reply is refused by its status, and whose second call times out.
abbrev never : ℕ → ℕ → ActionParseResult
never body attempt = refused schema_invalid

abbrev twice : ℕ → AgentOutcome ℕ
twice (suc zero) = replied (record { body = 7; http_status = some 404 })
twice _ = timed_out

request_decision_example : IsDecided never 1 (twice 1) (twice 2) (request_decision never 1 twice)
request_decision_example = request_decision-IsDecided never 1 twice
