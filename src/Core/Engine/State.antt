-- ===== src/Core/Engine/State.antt =====
-- core/engine.py, the state of a run: account, snapshots, counters, decisions and events.
use wagmi_bench.Prelude.{ℕ, Bool, false, Option, List, [], ◌∷◌, ◌++◌, length, if◌then◌else◌}
use wagmi_bench.Prelude.Int.{ℤ, pos, negsuc, ◌-ℤ◌, ltb_ℤ}
use wagmi_bench.Core.Pack.{Mapping}
use wagmi_bench.Core.Models.{Side}

pub record Account : Type 0 where
  pub position_qty_base_1e8 : ℤ
  pub entry_px_ticks : ℤ
  pub target_leverage_1e4 : ℤ
  pub cash_micro : ℤ
  pub fees_cum_micro : ℤ
  pub funding_cum_micro : ℤ
  pub realized_price_cum_micro : ℤ
  pub liquidation_penalty_cum_micro : ℤ
  pub turnover_notional_micro : ℤ
  pub fill_cost_cum_micro : ℤ
  pub kill_switch_active : Bool

-- `_Account(cash_micro=...)`
abbrev pub new_account : ℤ → Account
new_account cash = record {
  position_qty_base_1e8 = pos 0;
  entry_px_ticks = pos 0;
  target_leverage_1e4 = pos 0;
  cash_micro = cash;
  fees_cum_micro = pos 0;
  funding_cum_micro = pos 0;
  realized_price_cum_micro = pos 0;
  liquidation_penalty_cum_micro = pos 0;
  turnover_notional_micro = pos 0;
  fill_cost_cum_micro = pos 0;
  kill_switch_active = false;
}

pub record Snapshot : Type 0 where
  pub bar_index : ℕ
  pub absolute_bar_index : ℕ
  pub close_ts : ℤ
  pub position_qty_base_1e8 : ℤ
  pub entry_px_ticks : Option ℤ
  pub mark_close_ticks : ℤ
  pub upnl_micro : ℤ
  pub cash_micro : ℤ
  pub nav_micro : ℤ
  pub fees_cum_micro : ℤ
  pub funding_cum_micro : ℤ
  pub realized_price_cum_micro : ℤ
  pub liquidation_penalty_cum_micro : ℤ
  pub margin_micro : ℤ
  pub maintenance_margin_micro : ℤ
  pub liquidation_px_ticks : Option ℤ
  pub distance_to_liquidation_1e8 : Option ℤ
  pub min_intrabar_distance_1e8 : Option ℤ

pub record Counters : Type 0 where
  pub turns : ℕ
  pub invalid_actions : ℕ
  pub missed_decisions : ℕ
  pub gate_blocks : ℕ
  pub post_kill_switch_attempts : ℕ
  pub liquidations : ℕ
  pub kill_switch_fired : Bool

abbrev pub new_counters : Counters
new_counters = record {
  turns = 0;
  invalid_actions = 0;
  missed_decisions = 0;
  gate_blocks = 0;
  post_kill_switch_attempts = 0;
  liquidations = 0;
  kill_switch_fired = false;
}

-- `ParsedAction`; `intent_kind` has one value.
pub record ParsedAction : Type 0 where
  pub target_lev_1e4 : Mapping ℤ
  pub max_slippage_bps : Option ℤ
  pub from_attempt : ℕ

-- `ActionReason` of core/action.py, and the two reasons that the engine adds.
pub data Reason : Type 0 where
  oversize invalid_json unknown_schema schema_invalid unknown_field unknown_market : Reason
  invalid_target_format float_target target_out_of_range invalid_slippage : Reason
  timeout agent_error : Reason

pub record Rejection : Type 0 where
  pub reason : Reason
  pub validator_error : Option Reason
  pub attempts : ℕ

-- `_TurnDecision`: a parsed action, or a rejection. The source's pair of options has no other case
-- that `_request_decision` returns.
pub data TurnDecision : Type 0 where
  parsed : ParsedAction → TurnDecision
  rejected : Rejection → TurnDecision

pub data Constraint : Type 0 where
  leverage_cap_market leverage_cap_gross turnover_cap drawdown_kill_switch : Constraint

pub record RiskCheck : Type 0 where
  pub constraint : Constraint
  pub observed : ℤ
  pub limit : ℤ
  pub passed : Bool

pub data CancelReason : Type 0 where
  participation_cap min_notional max_slippage_exceeded qty_rounding : CancelReason

-- The payloads of the events that `_run_profile` emits, without their prose.
pub data Payload : Type 0 where
  action_parsed : ParsedAction → Payload
  action_rejected : Rejection → Payload
  funding_applied : ℤ → ℤ → ℤ → ℤ → ℤ → Payload
  risk_check : RiskCheck → Payload
  post_kill_switch_attempt : Mapping ℤ → Payload
  order_cancelled : CancelReason → ℤ → ℤ → Payload
  order_filled : Side → ℤ → ℤ → ℤ → ℤ → ℤ → ℤ → ℤ → ℤ → ℤ → Payload
  margin_update : Snapshot → Payload
  liquidation_triggered : ℤ → ℤ → ℤ → ℤ → ℤ → Payload
  near_liquidation : ℤ → ℤ → ℤ → Payload
  kill_switch_triggered : ℤ → ℤ → ℤ → ℤ → List ℕ → Payload

pub record Event : Type 0 where
  pub seq : ℕ
  pub ts : ℤ
  pub turn : ℕ
  pub bar_index : ℕ
  pub payload : Payload

-- `_ProfileRun` and the locals of `_run_profile`. `snapshots[-1]` is `latest`; the others stand in
-- `earlier`, newest first. `collect` is `collect_evidence`.
pub record Run : Type 0 where
  pub account : Account
  pub latest : Snapshot
  pub earlier : List Snapshot
  pub events : List Event
  pub decisions : List TurnDecision
  pub counters : Counters
  pub terminal : Bool
  pub last_turn : ℤ
  pub collect : Bool

-- `if collect_evidence: _emit(...)`
unfoldable pub emit : Payload → ℤ → ℕ → ℕ → Run → Run
emit payload ts turn bar_index run =
    if run.collect
    then record run {
      events =
          run.events
          ++ record {
            seq = length run.events;
            ts = ts;
            turn = turn;
            bar_index = bar_index;
            payload = payload;
          }
            ∷ [];
    }
    else run

-- `_sign`
unfoldable pub sign : ℤ → ℤ
sign value = if ltb_ℤ (pos 0) value then pos 1 else if ltb_ℤ value (pos 0) then negsuc 0 else pos 0

-- `_realized_pnl`
unfoldable pub realized_pnl : Account → ℤ
realized_pnl a =
    a.realized_price_cum_micro -ℤ a.fees_cum_micro -ℤ a.funding_cum_micro
    -ℤ a.liquidation_penalty_cum_micro
