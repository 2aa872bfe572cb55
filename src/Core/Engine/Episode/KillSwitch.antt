-- ===== src/Core/Engine/Episode/KillSwitch.antt =====
-- The account after the kill switch, over the rest of a run.
use wagmi_bench.Prelude.{
  ℕ, zero, suc, ◌+◌, ◌≡◌, refl, arith, Bool, true, false, Bool-cases, inl, inr, Option, none, some,
  List, [], ◌∷◌, ok, Ensures, Ensures-eq-ok, Keeps, Keeps-ok, Keeps-if, Keeps-bind, Keeps-any,
  Keeps-both,
}
use wagmi_bench.Prelude.Int.{ℤ, pos, ◌+ℤ◌, ◌*ℤ◌, neg, int_laws}
use wagmi_bench.Prelude.Int.Laws.{parts_of_eq, zero_mul, zero-//}
use wagmi_bench.Core.Pack.{FundingRow, MarketData}
use wagmi_bench.Core.Math.Rounding.{fraction, ceil_fraction}
use wagmi_bench.Core.Math.Pnl.{funding_cash_flow_micro}
use wagmi_bench.Core.Engine.State.{Account, TurnDecision, parsed, rejected, Run, Payload, emit}
use wagmi_bench.Core.Engine.Position.{Settlement, applied_funding}
use wagmi_bench.Core.Engine.Order.{Context}
use wagmi_bench.Core.Engine.Order.Effects.{Frozen, order_step-Frozen}
use wagmi_bench.Core.Engine.Close.{
  settle_funding, funding_at, coincident_funding, maybe_settle, is_inside, holding_funding,
  emit_margin, margin_event, open_margin_event, liquidation_step, append_snapshot, maybe_fire,
  kill_switch_due, kill_switch_step, terminal_margin_event,
}
use wagmi_bench.Core.Engine.Episode.Quiet.{
  changes_position, IsQuiet, quiet, move-IsQuiet, emit-IsQuiet, count_rejection-IsQuiet,
  order_step-IsQuiet,
}
use wagmi_bench.Core.Engine.Turn.{count_turn, count_decision, act, turn_step}
use wagmi_bench.Core.Engine.Episode.{Profile, context, keep_decision, play_turn, play}

no_amount :
    (index tick rate d : ℤ)
    → neg (ceil_fraction (fraction (pos 0 *ℤ index *ℤ tick *ℤ rate) d)) ≡ pos 0
unfolding ceil_fraction neg
no_amount index tick rate d = rw (zero_mul index, zero_mul tick, zero_mul rate, zero-// d) refl

flat_flow :
    (qty index tick rate qs rs x : ℤ)
    → qty ≡ pos 0
    → funding_cash_flow_micro qty index tick rate qs rs ≡ ok x
    → x ≡ pos 0
unfolding funding_cash_flow_micro
flat_flow qty index tick rate qs rs x e h =
    Ensures-eq-ok (λ flow. flow ≡ pos 0) (funding_cash_flow_micro qty index tick rate qs rs)
      (rw e (ground (arith, no_amount index tick rate (qs *ℤ rs)))) h

module _ (cash : ℤ) (base : Run) where
  -- The account stays as it is, and nothing happens to it.
  abbrev Stays : Run → Type 0
  Stays run = Frozen cash run.account × IsQuiet base run

  settled-Frozen :
      (a : Account) (flow funding : ℤ)
      → Frozen cash a
      → flow ≡ pos 0
      → Frozen cash (record a { cash_micro = a.cash_micro +ℤ flow; funding_cum_micro = funding })
  settled-Frozen a flow funding h e = record {
    killed = h.killed;
    flat = h.flat;
    held = omega (int_laws, parts_of_eq _ _ e, parts_of_eq _ _ h.held);
  }

  applied_funding-Frozen :
      (a : Account) (market : MarketData) (row : FundingRow)
      → Frozen cash a
      → Ensures (λ (s : Settlement). Frozen cash s.account) (applied_funding a market row)
  unfolding applied_funding
  applied_funding-Frozen a market row h = grind (arith, settled-Frozen, flat_flow, h.flat)

  emit-Frozen :
      (payload : Payload) (ts : ℤ) (turn bar : ℕ) (run : Run)
      → changes_position payload ≡ false
      → Stays run
      → Stays (emit payload ts turn bar run)
  unfolding emit
  emit-Frozen payload ts turn bar run e h =
      let frozen = h.0 in (ground arith, emit-IsQuiet base payload ts turn bar run e h.1)

  settle_funding-Frozen :
      (c : Context) (ts : ℤ) (row : FundingRow) (run : Run)
      → Stays run
      → Keeps Stays (settle_funding c ts row run)
  unfolding settle_funding changes_position
  settle_funding-Frozen c ts row run h =
      Keeps-bind (λ (s : Settlement). Frozen cash s.account)
        (record { holds = applied_funding-Frozen run.account c.market row h.0 })
        λ s k. Keeps-ok (
          emit-Frozen _ ts c.turn (c.turn + 1) (record run { account = s.account }) refl
            (k, move-IsQuiet h.1 refl refl refl refl))

  coincident_funding-Frozen :
      (c : Context) (run : Run) → Stays run → Keeps Stays (coincident_funding c run)
  unfolding coincident_funding
  coincident_funding-Frozen c run h = settled (funding_at c.decision_ts c.market.funding)
    where
      settled :
          (row : Option FundingRow)
          → Keeps Stays (elim row [ none ↦ ok run | some r ↦ settle_funding c c.decision_ts r run ])
      settled none = Keeps-ok h
      settled (some r) = settle_funding-Frozen c c.decision_ts r run h

  holding_funding-Frozen :
      (c : Context) (rows : List FundingRow) (run : Run)
      → Stays run
      → Keeps Stays (holding_funding c rows run)
  unfolding holding_funding maybe_settle
  holding_funding-Frozen c [] run h = Keeps-ok h
  holding_funding-Frozen c (row ∷ rows) run h =
      Keeps-bind Stays
        (Keeps-if (is_inside c row) (settle_funding c row.ts row run) (ok run)
          (λ _. settle_funding-Frozen c row.ts row run h) (λ _. Keeps-ok h))
        λ next k. holding_funding-Frozen c rows next k

  act-Frozen :
      (c : Context) (drawdown : ℤ) (decision : TurnDecision) (run : Run)
      → Stays run
      → Keeps Stays (act c drawdown decision run)
  unfolding act
  act-Frozen c drawdown (parsed action) run h =
      Keeps-both (order_step-Frozen cash c drawdown action run h.0)
        (order_step-IsQuiet base cash c drawdown action run h.0 h.1)
  act-Frozen c drawdown (rejected rejection) run h = Keeps-ok h

  count_decision-Frozen :
      (c : Context) (decision : TurnDecision) (run : Run)
      → Stays run
      → Stays (count_decision c decision run)
  unfolding count_decision changes_position
  count_decision-Frozen c (parsed action) run h =
      emit-Frozen _ _ c.turn c.turn _ refl (h.0, move-IsQuiet h.1 refl refl refl refl)
  count_decision-Frozen c (rejected rejection) run h =
      let (liquidations, fired) =
        count_rejection-IsQuiet rejection.reason (count_turn run.counters) in
      emit-Frozen _ _ c.turn c.turn _ refl (h.0, move-IsQuiet h.1 liquidations fired refl refl)

  margin_event-Frozen : (c : Context) (run : Run) → Stays run → Keeps Stays (margin_event c run)
  unfolding margin_event emit_margin changes_position
  margin_event-Frozen c run h =
      Keeps-if run.collect (emit_margin c run) (ok run)
        (λ _. Keeps-any λ s _. Keeps-ok (emit-Frozen _ _ c.turn (c.turn + 1) run refl h))
        (λ _. Keeps-ok h)

  -- A flat account is neither marked nor liquidated.
  open_margin_event-flat : (c : Context) (run : Run) → Stays run → open_margin_event c run ≡ ok run
  unfolding open_margin_event
  open_margin_event-flat c run h = let flat = h.0.flat in ground (arith, flat)

  liquidation_step-flat : (c : Context) (run : Run) → Stays run → liquidation_step c run ≡ ok run
  unfolding liquidation_step
  liquidation_step-flat c run h = let flat = h.0.flat in ground (arith, flat)

  opened-Frozen : (c : Context) (run : Run) → Stays run → Keeps Stays (open_margin_event c run)
  opened-Frozen c run h = rw (open_margin_event-flat c run h) (Keeps-ok h)

  checked-Frozen : (c : Context) (run : Run) → Stays run → Keeps Stays (liquidation_step c run)
  checked-Frozen c run h = rw (liquidation_step-flat c run h) (Keeps-ok h)

  -- The kill switch does not fire twice.
  maybe_fire-killed :
      (c : Context) (drawdown : ℤ) (run : Run) → Stays run → maybe_fire c drawdown run ≡ ok run
  unfolding maybe_fire kill_switch_due
  maybe_fire-killed c drawdown run h = let killed = h.0.killed in ground (arith, killed)

  switched-Frozen : (c : Context) (run : Run) → Stays run → Keeps Stays (kill_switch_step c run)
  unfolding kill_switch_step
  switched-Frozen c run h =
      Keeps-any λ drawdown _. rw (maybe_fire-killed c drawdown run h) (Keeps-ok h)

  terminal_margin_event-Frozen :
      (c : Context) (run : Run) → Stays run → Keeps Stays (terminal_margin_event c run)
  unfolding terminal_margin_event
  terminal_margin_event-Frozen c run h =
      Keeps-if run.terminal (margin_event c run) (ok run) (λ _. margin_event-Frozen c run h)
        (λ _. Keeps-ok h)

  append_snapshot-Frozen :
      (c : Context) (run : Run) → Stays run → Keeps Stays (append_snapshot c run)
  unfolding append_snapshot
  append_snapshot-Frozen c run h =
      Keeps-any λ s _. Keeps-ok (h.0, move-IsQuiet h.1 refl refl refl refl)

  turned : (turn : ℤ) (run : Run) → Stays run → Stays (record run { last_turn = turn })
  turned turn run h = (h.0, move-IsQuiet h.1 refl refl refl refl)

  turn_step-Frozen :
      (c : Context) (decision : TurnDecision) (run : Run)
      → Stays run
      → Keeps Stays (turn_step c decision run)
  unfolding turn_step
  turn_step-Frozen c decision run h = Keeps-any λ drawdown _. Keeps-any λ turnover _.
      Keeps-bind Stays
        (coincident_funding-Frozen c (count_decision c decision run)
          (count_decision-Frozen c decision run h))
        λ funded g. Keeps-bind Stays (act-Frozen c drawdown decision funded g) λ acted g.
          Keeps-bind Stays
            (holding_funding-Frozen c c.market.funding (record acted { last_turn = pos c.turn })
              (turned (pos c.turn) acted g))
            λ held g. Keeps-bind Stays (opened-Frozen c held g) λ marked g.
              Keeps-bind Stays (checked-Frozen c marked g) λ checked g.
                Keeps-bind Stays (append_snapshot-Frozen c checked g) λ closed g.
                  Keeps-bind Stays (switched-Frozen c closed g)
                    λ switched g. terminal_margin_event-Frozen c switched g

  keep_decision-Frozen :
      (replays : Bool) (decision : TurnDecision) (run : Run)
      → Stays run
      → Stays (keep_decision replays decision run)
  unfolding keep_decision
  keep_decision-Frozen true decision run h = h
  keep_decision-Frozen false decision run h = (h.0, move-IsQuiet h.1 refl refl refl refl)

  play_turn-Frozen :
      (p : Profile) (turn : ℕ) (run : Run) → Stays run → Keeps Stays (play_turn p turn run)
  unfolding play_turn
  play_turn-Frozen p turn run h = Keeps-any λ ts _. Keeps-any λ decision _.
      turn_step-Frozen (context p turn ts) decision _
        (keep_decision-Frozen p.replays decision run h)

  play-Stays :
      (p : Profile) (left turn : ℕ) (run : Run) → Stays run → Keeps Stays (play p left turn run)
  unfolding play
  play-Stays p zero turn run h = Keeps-ok h
  play-Stays p (suc left) turn run h = elim (Bool-cases run.terminal) [
    | inl over ↦ rw (over, play) (Keeps-ok h)
    | inr on ↦
        rw (on, play)
          (Keeps-bind Stays (play_turn-Frozen p turn run h)
            λ next g. play-Stays p left (turn + 1) next g)
  ]

-- If the kill switch of an account has fired and the account is flat, then in a run that returns
-- after any later turns the switch is still on, the account is flat and its cash is as it was. The
-- number of liquidations and the mark that the kill switch has fired are as they were, the events
-- hold as many fills, liquidations and kill switches as before, and the run is terminal only if it
-- was before.
pub play-Frozen :
    (cash : ℤ) (p : Profile) (left turn : ℕ) (run : Run)
    → Frozen cash run.account
    → Keeps (λ (next : Run). Frozen cash next.account × IsQuiet run next) (play p left turn run)
play-Frozen cash p left turn run h = play-Stays cash run p left turn run (h, quiet run)
