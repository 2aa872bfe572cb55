-- ===== src/Tests/Documents.antt =====
-- An agent's reply, a run configuration, the clock, block facts and metrics, at concrete inputs.
use mathlib.Core.List.{Permᴰ}
use wagmi_bench.Prelude.{
  ℕ, ◌+◌, ◌*◌, ◌≤◌, ◌<◌, ◌≡◌, refl, false, if◌then◌else◌, Option, none, some, List, [], ◌∷◌, ◌++◌,
  length, Text, codes, All, AllPairs, IsSorted, ok, Returns, ◌>>=◌, arith,
}
use wagmi_bench.Prelude.Int.{pos, negsuc, neg}
use wagmi_bench.Prelude.Objects.{Value, int, str, object, dict}
use wagmi_bench.Core.Engine.State.{ParsedAction}
use wagmi_bench.Core.Engine.Decision.{AgentOutcome, replied, request_decision}
use wagmi_bench.Core.Action.{Body, raw, parse_document, parse_body, parse_action}
use wagmi_bench.Core.Action.Grammar.{
  is_negative, unsigned, split_dot, digits_value, parse_decimal_target,
}
use wagmi_bench.Core.Action.Grammar.Units.{ten_to, fraction_text, parse_decimal_target-IsExact}
use wagmi_bench.Core.Action.Targets.{IsValidAction}
use wagmi_bench.Core.Action.Bounds.{parse_action-IsValidAction, request_decision-IsValidAction}
use wagmi_bench.Core.Action.KeyOrder.{parse_document-perm}
use wagmi_bench.Core.Config.{
  required_int, optional_int, none_empty, all_differ, from_mapping, to_run_config,
}
use wagmi_bench.Core.Config.Roundtrip.{from_mapping-to_run_config}
use wagmi_bench.Core.Config.Accepted.{IsAccepted, from_mapping-IsAccepted}
use wagmi_bench.Core.Config.Clock.{
  week_ms, max_rebased_timestamp, VirtualClock, for_window, rebased_ts, advance_all,
}
use wagmi_bench.Core.Config.Clock.Laws.{advance_all-rebased_ts}
use wagmi_bench.Core.Engine.Harness.{
  BlockKey, Blocked, same_key, block_leb, coalesce_harness_events,
}
use wagmi_bench.Core.Engine.Harness.Totals.{total, IsSafe, coalesce_harness_events-totals}
use wagmi_bench.Core.Metrics.{nearest_rank, floor_ratio_over_sqrt}
use wagmi_bench.Core.Metrics.Ranks.{IsPercentile, nearest_rank-IsPercentile}
use wagmi_bench.Core.Metrics.Ratio.{square_num, square_den, floor_ratio_over_sqrt-IsExact}
use wagmi_bench.Core.Math.Rounding.Roots.{IsCeilSqrt}
use wagmi_bench.Core.Math.Rounding.{fraction}
use wagmi_bench.Tests.{config}

parse_decimal_target-IsExact_example :
    (m : ℕ) × (negsuc 124999 ≡ (if is_negative (codes "-12.5") then neg (pos m) else pos m))
    × (m * ten_to (length (fraction_text (split_dot (unsigned (codes "-12.5"))).1))
        ≡ 10_000
          * digits_value 0 (
              (split_dot (unsigned (codes "-12.5"))).0
              ++ fraction_text (split_dot (unsigned (codes "-12.5"))).1))
    × (m ≤ 9_999_999)
unfolding parse_decimal_target
parse_decimal_target-IsExact_example =
    parse_decimal_target-IsExact (codes "-12.5") (negsuc 124999) refl

-- Half short on one market, as a document.
abbrev reply_document : Value
reply_document = object (
    dict (
      (codes "schema", str (codes "action/v1"))
      ∷ (codes "target", object (dict ((codes "M1", str (codes "-0.5")) ∷ [])))
      ∷ (codes "max_slippage_bps", int (pos 25))
      ∷ []))

-- A decoder that knows one document.
abbrev loads : Text → Option Value
loads [] = none
loads (c ∷ rest) = some reply_document

abbrev half_short : ParsedAction
half_short = record {
  target_lev_1e4 = (codes "M1", negsuc 4999) ∷ [];
  max_slippage_bps = some (pos 25);
  from_attempt = 1;
}

parse_action-IsValidAction_example : IsValidAction (codes "M1" ∷ []) half_short
unfolding parse_action
parse_action-IsValidAction_example =
    parse_action-IsValidAction loads (codes "M1" ∷ []) (raw (123 ∷ 125 ∷ [])) 1 half_short refl

abbrev agent : ℕ → AgentOutcome Body
agent attempt = replied (record { body = raw (123 ∷ 125 ∷ []); http_status = some 200 })

request_decision-IsValidAction_example : IsValidAction (codes "M1" ∷ []) half_short
unfolding parse_body request_decision
request_decision-IsValidAction_example =
    request_decision-IsValidAction loads (codes "M1" ∷ []) 1 agent half_short refl

abbrev two_targets : List (Text × Value)
two_targets = (codes "M2", int (pos 1)) ∷ (codes "M1", str (codes "0.5")) ∷ []

abbrev sorted_targets : List (Text × Value)
sorted_targets = (codes "M1", str (codes "0.5")) ∷ (codes "M2", int (pos 1)) ∷ []

abbrev version : Text × Value
version = (codes "schema", str (codes "action/v1"))

parse_document-perm_example :
    parse_document
      (codes "M1" ∷ codes "M2" ∷ [])
      1
      (object (dict ((codes "target", object (dict two_targets)) ∷ version ∷ [])))
    ≡ parse_document
        (codes "M1" ∷ codes "M2" ∷ [])
        1
        (object (dict (version ∷ (codes "target", object (dict sorted_targets)) ∷ [])))
parse_document-perm_example =
    parse_document-perm (codes "M1" ∷ codes "M2" ∷ []) 1 two_targets sorted_targets (version ∷ [])
      (version ∷ (codes "target", object (dict sorted_targets)) ∷ []) (Permᴰ.swap refl refl)
      (((λ e. ground arith), tt), (tt, tt)) (Permᴰ.swap refl refl)
      (((λ e. ground arith), tt), (tt, tt))

from_mapping-IsAccepted_example : IsAccepted (record config { seed = 7 })
unfolding from_mapping ◌>>=◌ required_int optional_int
from_mapping-IsAccepted_example =
    from_mapping-IsAccepted
      (dict (
        (codes "seed", int (pos 7))
        ∷ (codes "leverage_cap_gross_lev_1e4", int (pos 100000))
        ∷ (codes "drawdown_kill_switch_1e8", int (pos 50000000))
        ∷ []))
      (record config { seed = 7 }) refl

from_mapping-to_run_config_example :
    from_mapping (to_run_config config) ≡ ok (record config { parse_failure_retries = 1 })
unfolding none_empty all_differ
from_mapping-to_run_config_example =
    from_mapping-to_run_config config
      (omega arith, omega arith, omega arith, refl, omega arith, refl, refl)

abbrev at : ℕ → VirtualClock
at ts = record { real_ts = ts; rebase_offset_ms = 604_800_000 }

advance_all-rebased_ts_example :
    (before : ℕ) × (after : ℕ) × (weeks : ℕ) × (rebased_ts (at 604_800_060) ≡ ok before)
    × (rebased_ts (at 604_800_180) ≡ ok after)
    × (before ≤ after)
    × (after ≤ max_rebased_timestamp)
    × (604_800_180 ≡ after + weeks * week_ms)
    × (604_800_060 ≡ before + weeks * week_ms)
unfolding for_window advance_all
advance_all-rebased_ts_example =
    advance_all-rebased_ts (pos 604_800_001) (pos 604_800_060)
      (pos 604_800_120 ∷ pos 604_800_180 ∷ []) (at 604_800_060) (at 604_800_180) refl refl

abbrev dns : BlockKey
dns = record { destination = codes "a.example"; port = some 53; protocol = codes "dns" }

abbrev https : BlockKey
https = record { destination = codes "a.example"; port = none; protocol = codes "https" }

abbrev blocked : BlockKey → ℕ → Blocked
blocked key count = record { key = key; count = count }

coalesce_harness_events-totals_example :
    ((key : BlockKey)
      → total key (blocked https 1 ∷ blocked dns 5 ∷ [])
        ≡ total key (blocked dns 2 ∷ blocked https 1 ∷ blocked dns 3 ∷ []))
    × AllPairs
        (λ (a b : Blocked). same_key a.key b.key ≡ false)
        (blocked https 1 ∷ blocked dns 5 ∷ [])
    × All IsSafe (blocked https 1 ∷ blocked dns 5 ∷ [])
    × IsSorted block_leb (blocked https 1 ∷ blocked dns 5 ∷ [])
unfolding coalesce_harness_events
coalesce_harness_events-totals_example =
    coalesce_harness_events-totals (blocked dns 2 ∷ blocked https 1 ∷ blocked dns 3 ∷ [])
      (blocked https 1 ∷ blocked dns 5 ∷ []) refl

nearest_rank-IsPercentile_example :
    Returns
      (IsPercentile (pos 30 ∷ pos 10 ∷ pos 20 ∷ []) 1 2)
      (nearest_rank (pos 30 ∷ pos 10 ∷ pos 20 ∷ []) (pos 1) (pos 2))
nearest_rank-IsPercentile_example =
    nearest_rank-IsPercentile (pos 30) (pos 10 ∷ pos 20 ∷ []) 1 2 (omega arith) (omega arith)

floor_ratio_over_sqrt-IsExact_example :
    ((q : ℕ) × (floor_ratio_over_sqrt (fraction (pos 5) (pos 2)) (fraction (pos 3) (pos 4))
        ≡ ok (pos q))
      × (q * q * square_den 2 3 ≤ square_num 5 4)
      × (square_num 5 4 < (q + 1) * (q + 1) * square_den 2 3))
    × ((q : ℕ) × (floor_ratio_over_sqrt (fraction (negsuc 5) (pos 2)) (fraction (pos 3) (pos 4))
          ≡ ok (neg (pos q)))
        × IsCeilSqrt (square_num 6 4) (square_den 2 3) q)
floor_ratio_over_sqrt-IsExact_example =
    floor_ratio_over_sqrt-IsExact 2 3 4 (omega arith) (omega arith) 5
