-- ===== src/Core/Observation/Build.antt =====
-- core/observation.py, `build_observation` with the two tests that it ends with.
use wagmi_bench.Prelude.{
  ℕ, ◌-◌, Bool, true, false, not, ◌&&◌, leb, if◌then◌else◌, Option, none, some, List, [], ◌∷◌, ◌++◌,
  map, Text, text_leb, by_key, sort_by, Result, ok, raise_if, or_raise, ◌>>=◌, ◌>>◌,
  observation_error, config_error,
}
use wagmi_bench.Prelude.Int.{ℤ, pos, ◌+ℤ◌, ◌-ℤ◌, ◌*ℤ◌, ◌//◌, abs, leb_ℤ, eqb_ℤ}
use wagmi_bench.Core.Config.{EpisodeConfig, effective_lookback, all_available}
use wagmi_bench.Core.Config.Clock.{VirtualClock, for_window, rebased_ts}
use wagmi_bench.Core.Pack.{
  BarRow, FundingRow, MarketData, PackData, Mapping, get, bars_total, clock_real_ts,
}
use wagmi_bench.Core.Observation.{
  rate_scale_1e8, lev_scale, PositionState, no_position, AccountState, RiskState,
  position_notional_micro, PositionDocument, position_document, MarketDocument, MarketRows,
  market_document,
}

-- What the loop over the markets keeps of one of them.
pub record MarketView : Type 0 where
  pub alias : Text
  pub market : MarketDocument
  pub position : PositionDocument
  pub rows : MarketRows
  pub notional : ℤ

-- `position_states.get(alias, PositionState())`
abbrev pub position_of : Option PositionState → PositionState
position_of none = no_position
position_of (some p) = p

-- One pass of the loop.
unfoldable pub view_market :
    Mapping PositionState → VirtualClock → ℕ → ℕ → Text × MarketData → Result MarketView
unfolding get position_notional_micro
view_market positions clock bars prints (alias, market) = do
  (document, rows) ← market_document market clock bars prints
  let position = position_of (get alias positions)
  view ← position_document position rows.mark_row.c market.spec.tick_size_micro
  ok (record {
    alias = alias;
    market = document;
    position = view;
    rows = rows;
    notional = position_notional_micro position rows.mark_row.c market.spec.tick_size_micro;
  })

unfoldable pub view_markets :
    Mapping PositionState → VirtualClock → ℕ → ℕ → Mapping MarketData → Result (List MarketView)
view_markets positions clock bars prints [] = ok []
view_markets positions clock bars prints (m ∷ markets) = do
  view ← view_market positions clock bars prints m
  views ← view_markets positions clock bars prints markets
  ok (view ∷ views)

-- `margin_and_upnl`
unfoldable pub margin_and_upnl : List MarketView → ℤ
margin_and_upnl [] = pos 0
margin_and_upnl (v ∷ views) =
    v.position.margin_micro +ℤ v.position.upnl_micro +ℤ margin_and_upnl views

-- A row of `_risk_constraints`, with its type and its scope.
pub data ConstraintKind : Type 0 where
  gross turnover drawdown : ConstraintKind
  of_market : Text → ConstraintKind

pub record ConstraintView : Type 0 where
  pub kind : ConstraintKind
  pub limit : ℤ
  pub used : ℤ

abbrev sum_notionals : List MarketView → ℤ
sum_notionals [] = pos 0
sum_notionals (v ∷ views) = v.notional +ℤ sum_notionals views

abbrev market_constraints : ℤ → List MarketView → List ConstraintView
market_constraints nav [] = []
market_constraints nav (v ∷ views) =
    record {
      kind = of_market v.alias;
      limit = v.market.spec.leverage_cap_lev_1e4;
      used = v.notional *ℤ lev_scale // nav;
    }
    ∷ market_constraints nav views

abbrev turnover_constraint : Option ℤ → RiskState → List ConstraintView
turnover_constraint none risk = []
turnover_constraint (some cap) risk =
    record { kind = turnover; limit = cap; used = risk.turnover_used_1e8 } ∷ []

-- `_risk_constraints`
unfoldable pub risk_constraints :
    EpisodeConfig → List MarketView → ℤ → RiskState → Result (List ConstraintView)
unfolding ◌>>=◌
risk_constraints config views nav risk = do
  raise_if (leb_ℤ nav (pos 0)) observation_error
  ok (
      record {
        kind = gross;
        limit = config.leverage_cap_gross_lev_1e4;
        used = sum_notionals views *ℤ lev_scale // nav;
      }
      ∷ (market_constraints nav views
          ++ (turnover_constraint config.turnover_cap_1e8 risk
              ++ record {
                kind = drawdown;
                limit = config.drawdown_kill_switch_1e8;
                used = risk.drawdown_used_1e8;
              }
                ∷ [])))

-- `ObservationBuild`, with the parts of its document that are computed.
pub record Observation : Type 0 where
  pub turn : ℕ
  pub bars_total : ℕ
  pub bars_remaining : ℕ
  pub clock_ts : ℕ
  pub views : List MarketView
  pub nav_micro : ℤ
  pub cash_micro : ℤ
  pub realized_pnl_micro : ℤ
  pub constraints : List ConstraintView
  pub kill_switch_active : Bool
  pub real_clock_ts : ℕ
  pub rebase_offset_ms : ℕ

abbrev aliases_of : {V : Type 0} → Mapping V → List Text
aliases_of = map (λ m. m.0)

unfoldable pub profiles_known : EpisodeConfig → Mapping MarketData → Bool
unfolding all_available
profiles_known config [] = true
profiles_known config ((alias, m) ∷ markets) =
    all_available (aliases_of m.spec.cost_profile_multipliers_1e4) config.cost_profiles
    && profiles_known config markets

-- `build_observation` up to its tests. The identity of the episode and the response deadline are
-- copied through by the source and left out.
unfoldable pub assemble :
    PackData
    → EpisodeConfig
    → ℕ
    → AccountState
    → Mapping PositionState
    → RiskState
    → Result Observation
unfolding margin_and_upnl sort_by text_leb profiles_known
assemble pack config turn account positions risk = do
  total ← bars_total pack
  raise_if (leb total turn) observation_error
  let markets = sort_by (by_key (λ (m : Text × MarketData). m.0)) pack.markets
  raise_if (not (all_available (aliases_of markets) (aliases_of positions))) observation_error
  effective ←
      effective_lookback config pack.default_lookback.bars pack.default_lookback.funding_prints
  raise_if (not (profiles_known config markets)) config_error
  real_ts ← clock_real_ts pack turn
  clock ← for_window pack.window_start_ts real_ts
  views ← view_markets positions clock effective.bars effective.funding_prints markets
  let nav = account.cash_micro +ℤ margin_and_upnl views
  now ← rebased_ts clock
  constraints ← risk_constraints config views nav risk
  ok (record {
    turn = turn;
    bars_total = total;
    bars_remaining = total - turn - 1;
    clock_ts = now;
    views = views;
    nav_micro = nav;
    cash_micro = account.cash_micro;
    realized_pnl_micro = account.realized_pnl_micro;
    constraints = constraints;
    kill_switch_active = risk.kill_switch_active;
    real_clock_ts = clock.real_ts;
    rebase_offset_ms = clock.rebase_offset_ms;
  })

unfoldable pub all_past {ℓ} : {A : Type ℓ} → (A → ℤ) → ℤ → List A → Bool
all_past at clock [] = true
all_past at clock (row ∷ rows) = leb_ℤ (at row) clock && all_past at clock rows

abbrev pub rows_are_past : ℤ → MarketRows → Bool
rows_are_past clock rows =
    all_past (λ (r : BarRow). r.available_at) clock
      (rows.trade_rows ++ rows.mark_row ∷ rows.index_row ∷ [])
    && all_past (λ (r : FundingRow). r.available_at) clock rows.funding_rows

unfoldable pub views_are_past : ℤ → List MarketView → Bool
unfolding all_past
views_are_past clock [] = true
views_are_past clock (v ∷ views) = rows_are_past clock v.rows && views_are_past clock views

-- `assert_no_future_sources`
unfoldable pub assert_no_future_sources : Observation → Result (Unit {0})
unfolding views_are_past
assert_no_future_sources o =
    raise_if (not (views_are_past (pos o.real_clock_ts) o.views)) observation_error

abbrev same_option : Option ℤ → Option ℤ → Bool
same_option none none = true
same_option (some a) (some b) = eqb_ℤ a b
same_option a b = false

-- One market of `assert_single_mark_invariant`: its share of the NAV.
unfoldable pub check_parts : PositionDocument → ℤ → ℤ → Result ℤ
unfolding ◌>>=◌
check_parts p mark tick_size =
    if eqb_ℤ p.qty_base_1e8 (pos 0)
    then raise_if (not (eqb_ℤ p.upnl_micro (pos 0))) observation_error
      >> (raise_if (not (same_option p.dist_to_liq_1e8 none)) observation_error
          >> ok (p.margin_micro +ℤ pos 0))
    else or_raise p.entry_px_ticks observation_error >>= λ entry.
        let upnl = p.qty_base_1e8 *ℤ (mark -ℤ entry) *ℤ tick_size // rate_scale_1e8 in
        or_raise p.liq_px_ticks observation_error >>= λ liquidation.
        raise_if (leb_ℤ mark (pos 0)) observation_error
        >> (raise_if (not (eqb_ℤ p.upnl_micro upnl)) observation_error
            >> (raise_if
                  (not (
                    same_option p.dist_to_liq_1e8
                      (some (abs (mark -ℤ liquidation) *ℤ rate_scale_1e8 // mark))))
                  observation_error
                >> ok (p.margin_micro +ℤ upnl)))

unfoldable pub check_view : MarketView → Result ℤ
unfolding check_parts
check_view v = check_parts v.position v.market.last_mark_px_ticks v.market.spec.tick_size_micro

unfoldable pub check_views : List MarketView → Result ℤ
unfolding ◌>>=◌ check_view
check_views [] = ok (pos 0)
check_views (v ∷ views) = do part ← check_view v; rest ← check_views views; ok (part +ℤ rest)

-- `assert_single_mark_invariant`
unfoldable pub assert_single_mark_invariant : Observation → Result (Unit {0})
assert_single_mark_invariant o = do
  parts ← check_views o.views
  raise_if (not (eqb_ℤ o.nav_micro (o.cash_micro +ℤ parts))) observation_error

unfoldable pub build_observation :
    PackData
    → EpisodeConfig
    → ℕ
    → AccountState
    → Mapping PositionState
    → RiskState
    → Result Observation
build_observation pack config turn account positions risk = do
  o ← assemble pack config turn account positions risk
  assert_no_future_sources o
  assert_single_mark_invariant o
  ok o
