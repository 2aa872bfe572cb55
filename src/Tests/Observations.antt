-- ===== src/Tests/Observations.antt =====
-- Observations of the small pack.
use wagmi_bench.Prelude.{
  Bool, false, err, text_eqb, ◌>>=◌, ◌≡◌, refl, true, some, [], ◌∷◌, ◌++◌, codes, Result, ok,
  Ensures,
}
use wagmi_bench.Prelude.Int.{pos, negsuc, ◌+ℤ◌, ◌-ℤ◌, ◌*ℤ◌, ◌//◌}
use wagmi_bench.Core.Config.Clock.{VirtualClock, for_window, rebased_ts, rebase_timestamp}
use wagmi_bench.Core.Config.{effective_lookback, all_available, contains}
use wagmi_bench.Core.Pack.{bars_total, clock_real_ts, get, BarRow, FundingRow, Mapping}
use wagmi_bench.Core.Observation.{
  PositionState, AccountState, RiskState, market_document, position_document, last_available_bar,
  next_settlement_real_ts, map_result, bar_mapping, funding_mapping,
}
use wagmi_bench.Core.Observation.Blind.{market_document-blind}
use wagmi_bench.Core.Observation.Build.{
  view_markets, view_market, check_views, assert_no_future_sources, assert_single_mark_invariant,
  risk_constraints, all_past, profiles_known, Observation, views_are_past, margin_and_upnl,
  assemble, build_observation,
}
use wagmi_bench.Core.Observation.Proof.{build_observation-assemble}
use wagmi_bench.Tests.{pack, config, market}

abbrev noon : VirtualClock
noon = record { real_ts = 120; rebase_offset_ms = 0 }

abbrev late_bar : BarRow
late_bar = record {
  ts = pos 240;
  available_at = pos 300;
  o = pos 1;
  h = pos 1;
  l = pos 1;
  c = pos 1;
  v_base_1e8 = pos 1;
}

abbrev late_print : FundingRow
late_print = record { ts = pos 240; available_at = pos 300; rate_1e8 = pos 1 }

market_document-blind_example :
    market_document
      (record market {
        trade = market.trade ++ late_bar ∷ [];
        mark = market.mark ++ late_bar ∷ [];
        index = market.index ++ [];
        funding = market.funding ++ late_print ∷ [];
      })
      noon
      2
      1
    ≡ market_document market noon 2 1
market_document-blind_example =
    market_document-blind market noon 2 1 (late_bar ∷ []) (late_bar ∷ []) [] (late_print ∷ [])
      (refl, tt) (refl, tt) tt (refl, tt)

abbrev short : Mapping PositionState
short =
    (
      codes "M1",
      record {
        qty_base_1e8 = negsuc 99999999;
        entry_px_ticks = some (pos 100000);
        margin_micro = pos 500000;
        liq_px_ticks = some (pos 150000);
      },
    )
    ∷ []

abbrev cash : AccountState
cash = record { cash_micro = pos 10000000000; realized_pnl_micro = pos 0 }

abbrev quiet : RiskState
quiet = record { drawdown_used_1e8 = pos 0; turnover_used_1e8 = pos 0; kill_switch_active = true }

build_observation-assemble_example :
    (build_observation pack config 0 cash short quiet ≡ assemble pack config 0 cash short quiet)
    × Ensures
        (λ (o : Observation).
          (views_are_past (pos o.real_clock_ts) o.views ≡ true)
          × (o.nav_micro ≡ o.cash_micro +ℤ margin_and_upnl o.views))
        (build_observation pack config 0 cash short quiet)
build_observation-assemble_example = build_observation-assemble pack config 0 cash short quiet

abbrev returns {ℓ} : {A : Type ℓ} → Result A → Bool
returns (ok a) = true
returns (err e) = false

build_observation-returns : returns (build_observation pack config 0 cash short quiet) ≡ true
unfolding build_observation assemble view_markets view_market market_document position_document
    check_views assert_no_future_sources assert_single_mark_invariant views_are_past bars_total
    clock_real_ts effective_lookback for_window rebased_ts risk_constraints ◌>>=◌ last_available_bar
    next_settlement_real_ts rebase_timestamp map_result bar_mapping funding_mapping all_past
    profiles_known all_available contains get text_eqb ◌+ℤ◌ ◌-ℤ◌ ◌*ℤ◌ ◌//◌
build_observation-returns = refl
