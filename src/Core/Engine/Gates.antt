-- ===== src/Core/Engine/Gates.antt =====
-- core/engine.py, the risk gates of `_run_profile`: the checks of one order and their verdicts.
use wagmi_bench.Prelude.{
  ℕ, ◌+◌, Bool, false, ◌||◌, not, Option, none, some, List, [], ◌∷◌, ◌++◌, if◌then◌else◌,
}
use wagmi_bench.Prelude.Int.{ℤ, pos, ◌+ℤ◌, abs, leb_ℤ, eqb_ℤ}
use wagmi_bench.Core.Config.{EpisodeConfig}
use wagmi_bench.Core.Pack.{Mapping, MarketSpec}
use wagmi_bench.Core.Engine.State.{
  Account, RiskCheck, leverage_cap_market, leverage_cap_gross, turnover_cap, drawdown_kill_switch,
  risk_check, Run, emit,
}

-- `sum(abs(value) for value in target_lev_1e4.values())`
unfoldable pub gross_target : Mapping ℤ → ℤ
gross_target [] = pos 0
gross_target ((alias, value) ∷ rest) = abs value +ℤ gross_target rest

unfoldable pub turnover_check : Option ℤ → ℤ → List RiskCheck
turnover_check none projected = []
turnover_check (some cap) projected =
    record {
      constraint = turnover_cap;
      observed = projected;
      limit = cap;
      passed = leb_ℤ projected cap;
    }
    ∷ []

-- `not account.kill_switch_active or target_lev == 0`
unfoldable pub kill_pass : Account → ℤ → Bool
kill_pass account target_lev = not account.kill_switch_active || eqb_ℤ target_lev (pos 0)

-- The list `checks`, in the order of the source.
unfoldable pub risk_checks : Account → MarketSpec → EpisodeConfig → ℤ → ℤ → ℤ → ℤ → List RiskCheck
unfolding turnover_check kill_pass
risk_checks account spec config target_lev gross projected drawdown =
    record {
      constraint = leverage_cap_market;
      observed = abs target_lev;
      limit = spec.leverage_cap_lev_1e4;
      passed = leb_ℤ (abs target_lev) spec.leverage_cap_lev_1e4;
    }
    ∷ record {
      constraint = leverage_cap_gross;
      observed = gross;
      limit = config.leverage_cap_gross_lev_1e4;
      passed = leb_ℤ gross config.leverage_cap_gross_lev_1e4;
    }
    ∷ (turnover_check config.turnover_cap_1e8 projected
        ++ record {
          constraint = drawdown_kill_switch;
          observed = drawdown;
          limit = config.drawdown_kill_switch_1e8;
          passed = kill_pass account target_lev;
        }
          ∷ [])

-- `blocked` after the loop over the checks.
unfoldable pub is_blocked : List RiskCheck → Bool
is_blocked [] = false
is_blocked (check ∷ checks) = not check.passed || is_blocked checks

unfoldable pub count_block : RiskCheck → Run → Run
count_block check run = if check.passed then run else record run {
  counters = record run.counters { gate_blocks = run.counters.gate_blocks + 1 };
}

-- The loop over the checks: a block is counted, and each verdict is an event.
unfoldable pub apply_checks : List RiskCheck → ℤ → ℕ → Run → Run
apply_checks [] ts turn run = run
apply_checks (check ∷ checks) ts turn run =
    apply_checks checks ts turn (emit (risk_check check) ts turn turn (count_block check run))
