-- ===== src/Core/Observation/Proof.antt =====
-- The tests that `build_observation` ends with, on what it has put together.
use wagmi_bench.Prelude.{
  ℕ, ◌≡◌, refl, ◌∙◌, sym, subst, true, Bool-cases, Option-cases, inl, inr, none, some, List, [],
  ◌∷◌, Text, ok, ok-injective, Result-cases, ◌>>=◌, Keeps, Keeps-ok, Keeps-any, Keeps-bind, Ensures,
  Ensures-eq-ok, arith,
}
use wagmi_bench.Prelude.Int.{ℤ, pos, ◌+ℤ◌, ◌-ℤ◌, ◌*ℤ◌, ◌//◌, abs, leb_ℤ, eqb_ℤ}
use wagmi_bench.Core.Config.{EpisodeConfig}
use wagmi_bench.Core.Config.Clock.{VirtualClock}
use wagmi_bench.Core.Pack.{MarketData, PackData, Mapping, get}
use wagmi_bench.Core.Observation.{
  position_notional_micro, rate_scale_1e8, PositionState, AccountState, RiskState, PositionDocument,
  position_document,
}
use wagmi_bench.Core.Observation.Sources.{IsSourced, market_document-IsSourced}
use wagmi_bench.Core.Observation.Build.{
  MarketView, position_of, view_market, view_markets, margin_and_upnl, Observation, rows_are_past,
  views_are_past, check_parts, check_view, check_views, assert_no_future_sources,
  assert_single_mark_invariant, assemble, build_observation,
}

eqb_ℤ_refl : (z : ℤ) → eqb_ℤ z z ≡ true
eqb_ℤ_refl z = ground arith

position_document-checked :
    (p : PositionState) (mark tick : ℤ) (d : PositionDocument)
    → position_document p mark tick ≡ ok d
    → check_parts d mark tick ≡ ok (d.margin_micro +ℤ d.upnl_micro)
unfolding position_document check_parts ◌>>=◌
position_document-checked p mark tick d e = elim (Bool-cases (eqb_ℤ p.qty_base_1e8 (pos 0))) [
  | inl q ↦
      (let built : PositionDocument = record {
        qty_base_1e8 = p.qty_base_1e8;
        entry_px_ticks = p.entry_px_ticks;
        upnl_micro = pos 0;
        margin_micro = p.margin_micro;
        liq_px_ticks = p.liq_px_ticks;
        dist_to_liq_1e8 = none;
      } in
        let made : position_document p mark tick ≡ ok built = rw q refl in
        let same : built ≡ d = ok-injective (sym made ∙ e) in
        subst (λ d. check_parts d mark tick ≡ ok (d.margin_micro +ℤ d.upnl_micro)) same (rw q refl))
  | inr q ↦ elim (Option-cases p.entry_px_ticks) [
    | inl n ↦ absurd (ground arith)
    | inr (entry, n) ↦ elim (Bool-cases (leb_ℤ mark (pos 0))) [
      | inl m ↦ absurd (ground arith)
      | inr m ↦ elim (Option-cases p.liq_px_ticks) [
        | inl l ↦ absurd (ground arith)
        | inr (liquidation, l) ↦
            (let upnl = p.qty_base_1e8 *ℤ (mark -ℤ entry) *ℤ tick // rate_scale_1e8 in
              let distance = abs (mark -ℤ liquidation) *ℤ rate_scale_1e8 // mark in
              let built : PositionDocument = record {
                qty_base_1e8 = p.qty_base_1e8;
                entry_px_ticks = p.entry_px_ticks;
                upnl_micro = upnl;
                margin_micro = p.margin_micro;
                liq_px_ticks = p.liq_px_ticks;
                dist_to_liq_1e8 = some distance;
              } in
              let made : position_document p mark tick ≡ ok built = rw (q, n, m, l) refl in
              let same : built ≡ d = ok-injective (sym made ∙ e) in
              subst (λ d. check_parts d mark tick ≡ ok (d.margin_micro +ℤ d.upnl_micro)) same
                (rw (q, n, l, m, eqb_ℤ_refl upnl, eqb_ℤ_refl distance) refl))
      ]
    ]
  ]
]

-- What the loop keeps of a market: its rows are past, and the test of the mark passes.
abbrev IsChecked : ℤ → MarketView → Type 0
IsChecked now v =
    (rows_are_past now v.rows ≡ true)
    × (check_view v ≡ ok (v.position.margin_micro +ℤ v.position.upnl_micro))

view_market-IsChecked :
    (positions : Mapping PositionState) (clock : VirtualClock) (b f : ℕ) (alias : Text)
    (market : MarketData)
    → Keeps (IsChecked (pos clock.real_ts)) (view_market positions clock b f (alias, market))
unfolding view_market check_view
view_market-IsChecked positions clock b f alias market =
    Keeps-bind (IsSourced market (pos clock.real_ts)) (market_document-IsSourced market clock b f)
      (λ built sourced. Keeps-any (λ view e.
        let position = position_of (get alias positions) in
        let mark = built.1.mark_row.c in
        let tick = market.spec.tick_size_micro in
        let made : MarketView = record {
          alias = alias;
          market = built.0;
          position = view;
          rows = built.1;
          notional = position_notional_micro position mark tick;
        } in
        let checked : check_view made ≡ ok (view.margin_micro +ℤ view.upnl_micro) =
          rw (sourced.1, sourced.2) (position_document-checked position mark tick view e) in
        Keeps-ok {a = made} (sourced.0, checked)))

abbrev AllChecked : ℤ → List MarketView → Type 0
AllChecked now views =
    (views_are_past now views ≡ true) × (check_views views ≡ ok (margin_and_upnl views))

view_markets-AllChecked :
    (positions : Mapping PositionState) (clock : VirtualClock) (b f : ℕ)
    (markets : Mapping MarketData)
    → Keeps (AllChecked (pos clock.real_ts)) (view_markets positions clock b f markets)
unfolding view_markets views_are_past check_views margin_and_upnl ◌>>=◌
view_markets-AllChecked positions clock b f [] = Keeps-ok (refl, refl)
view_markets-AllChecked positions clock b f ((alias, market) ∷ markets) =
    Keeps-bind (IsChecked (pos clock.real_ts))
      (view_market-IsChecked positions clock b f alias market)
      (λ view v.
        Keeps-bind (AllChecked (pos clock.real_ts))
          (view_markets-AllChecked positions clock b f markets)
          (λ views vs. Keeps-ok (ground arith, rw (v.1, vs.1))))

abbrev IsProven : Observation → Type 0
IsProven o =
    AllChecked (pos o.real_clock_ts) o.views
    × (o.nav_micro ≡ o.cash_micro +ℤ margin_and_upnl o.views)

assemble-IsProven :
    (pack : PackData) (config : EpisodeConfig) (turn : ℕ) (account : AccountState)
    (positions : Mapping PositionState) (risk : RiskState)
    → Keeps IsProven (assemble pack config turn account positions risk)
unfolding assemble
assemble-IsProven pack config turn account positions risk = Keeps-any (λ total e. Keeps-any (λ a e.
    Keeps-any (λ a e. Keeps-any (λ effective e. Keeps-any (λ a e. Keeps-any (λ real e.
      Keeps-any (λ clock e.
        Keeps-bind (AllChecked (pos clock.real_ts))
          (view_markets-AllChecked positions clock effective.bars effective.funding_prints _)
          (λ views vs. Keeps-any (λ now e. Keeps-any (λ constraints e. Keeps-ok (vs, refl)))))))))))

-- The two tests that `build_observation` ends with never fail: it returns, or raises, what the
-- construction before them does. In what it returns, every source row was available at the clock,
-- and the NAV is the cash plus the margin and the profit of each market at its mark.
pub build_observation-assemble :
    (pack : PackData) (config : EpisodeConfig) (turn : ℕ) (account : AccountState)
    (positions : Mapping PositionState) (risk : RiskState)
    → (build_observation pack config turn account positions risk
        ≡ assemble pack config turn account positions risk)
      × Ensures
          (λ (o : Observation).
            (views_are_past (pos o.real_clock_ts) o.views ≡ true)
            × (o.nav_micro ≡ o.cash_micro +ℤ margin_and_upnl o.views))
          (build_observation pack config turn account positions risk)
unfolding build_observation assert_no_future_sources assert_single_mark_invariant ◌>>=◌
build_observation-assemble pack config turn account positions risk =
    let proven = assemble-IsProven pack config turn account positions risk in
    elim (Result-cases (assemble pack config turn account positions risk)) [
      | inl (o, m) ↦
          let ((past, checked), nav) =
            Ensures-eq-ok IsProven (assemble pack config turn account positions risk) proven.holds
              m in
          let same : eqb_ℤ o.nav_micro (o.cash_micro +ℤ margin_and_upnl o.views) ≡ true =
            rw nav (eqb_ℤ_refl (o.cash_micro +ℤ margin_and_upnl o.views)) in
          let built : build_observation pack config turn account positions risk ≡ ok o =
            rw (m, past, checked, same) refl in
          (built ∙ sym m, rw (built, Ensures) (past, nav))
      | inr (raised, m) ↦ rw (m, Ensures) (refl, tt)
    ]
