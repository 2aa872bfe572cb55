-- ===== src/Core/Engine/Ledger/Balance.antt =====
-- The books of a run: the account and every snapshot conserve cash. The steps from the funding of a
-- bar to its close keep them.
use wagmi_bench.Prelude.{
  ℕ, ◌+◌, ◌≡◌, arith, Bool, true, false, Option-cases, List, [], ◌∷◌, All, if◌then◌else◌, ok, Keeps,
  Keeps-bind, Keeps-any, Keeps-if, Keeps-ok, inl, inr,
}
use wagmi_bench.Prelude.Int.{ℤ, pos, ◌+ℤ◌, ◌-ℤ◌, eqb_ℤ, ltb_ℤ}
use wagmi_bench.Core.Pack.{BarRow, FundingRow, MarketData}
use wagmi_bench.Core.Engine.State.{
  Account, Snapshot, Payload, near_liquidation, Run, emit, realized_pnl,
}
use wagmi_bench.Core.Engine.Valuation.{snapshot}
use wagmi_bench.Core.Engine.Position.{Settlement, Liquidation, KillClose}
use wagmi_bench.Core.Engine.Position.Accounting.{
  Conserves, applied_funding-Conserves, liquidate-Conserves, kill_close-Conserves,
}
use wagmi_bench.Core.Engine.Order.{Context}
use wagmi_bench.Core.Engine.Close.{
  settle_funding, funding_at, is_inside, maybe_settle, adverse_extreme, near_liq_threshold_1e8,
  holding_close_ts, coincident_funding, holding_funding, margin_event, open_margin_event,
  trigger_liquidation, near_miss, check_liquidation, liquidation_step, append_snapshot,
  flatten_open, fire_kill_switch, kill_switch_step, terminal_margin_event, emit_margin,
  find_liquidation, emit_close, replace_snapshot, flatten_if_open, kill_switch_due, maybe_fire,
}

-- What `nav_identity_holds` and `cash_conservation_holds` test, of a snapshot.
pub record IsBooked (start : ℤ) (s : Snapshot) : Type 0 where
  pub nav : s.nav_micro ≡ s.cash_micro +ℤ s.upnl_micro
  pub cash :
      s.cash_micro -ℤ start
      ≡ s.realized_price_cum_micro -ℤ s.fees_cum_micro -ℤ s.funding_cum_micro
        -ℤ s.liquidation_penalty_cum_micro

pub record Balanced (start : ℤ) (run : Run) : Type 0 where
  pub account : Conserves start run.account
  pub latest : IsBooked start run.latest
  pub earlier : All (IsBooked start) run.earlier

abbrev is_flat : Run → Bool
is_flat run = eqb_ℤ run.account.position_qty_base_1e8 (pos 0)

module _ (start : ℤ) where
  pub snapshot-IsBooked :
      (a : Account) (market : MarketData) (absolute relative : ℕ) (ts : ℤ)
      → Conserves start a
      → Keeps (IsBooked start) (snapshot a market absolute relative ts)
  unfolding snapshot realized_pnl
  snapshot-IsBooked a market absolute relative ts h = record { holds = ground arith }

  pub emit-Balanced :
      (payload : Payload) (ts : ℤ) (turn bar : ℕ) (run : Run)
      → Balanced start run
      → Balanced start (emit payload ts turn bar run)
  unfolding emit
  emit-Balanced payload ts turn bar run h = ground arith

  either :
      {r s : Run} (b : Bool)
      → Balanced start r
      → Balanced start s
      → Balanced start (if b then r else s)
  either true h k = h
  either false h k = k

  pub swap :
      {a : Account} {run : Run}
      → Conserves start a
      → Balanced start run
      → Balanced start (record run { account = a })
  swap k h = record { account = k; latest = h.latest; earlier = h.earlier }

  settle_funding-Balanced :
      (c : Context) (ts : ℤ) (row : FundingRow) (run : Run)
      → Balanced start run
      → Keeps (Balanced start) (settle_funding c ts row run)
  unfolding settle_funding
  settle_funding-Balanced c ts row run h =
      Keeps-bind (λ (s : Settlement). Conserves start s.account)
        (record { holds = applied_funding-Conserves start run.account h.account c.market row })
        λ s k.
          Keeps-ok
            (emit-Balanced _ ts c.turn (c.turn + 1) (record run { account = s.account }) (swap k h))

  pub coincident_funding-Balanced :
      (c : Context) (run : Run)
      → Balanced start run
      → Keeps (Balanced start) (coincident_funding c run)
  unfolding coincident_funding
  coincident_funding-Balanced c run h =
      elim (Option-cases (funding_at c.decision_ts c.market.funding)) [
        | inl e ↦ rw (e, coincident_funding) (Keeps-ok h)
        | inr (row, e) ↦
            rw (e, coincident_funding) (settle_funding-Balanced c c.decision_ts row run h)
      ]

  maybe_settle-Balanced :
      (c : Context) (row : FundingRow) (run : Run)
      → Balanced start run
      → Keeps (Balanced start) (maybe_settle c row run)
  unfolding maybe_settle
  maybe_settle-Balanced c row run h =
      Keeps-if (is_inside c row) (settle_funding c row.ts row run) (ok run)
        (λ _. settle_funding-Balanced c row.ts row run h) (λ _. Keeps-ok h)

  pub holding_funding-Balanced :
      (c : Context) (rows : List FundingRow) (run : Run)
      → Balanced start run
      → Keeps (Balanced start) (holding_funding c rows run)
  unfolding holding_funding
  holding_funding-Balanced c [] run h = Keeps-ok h
  holding_funding-Balanced c (row ∷ rows) run h =
      Keeps-bind (Balanced start) (maybe_settle-Balanced c row run h)
        λ next k. holding_funding-Balanced c rows next k

  emit_margin-Balanced :
      (c : Context) (run : Run) → Balanced start run → Keeps (Balanced start) (emit_margin c run)
  unfolding emit_margin
  emit_margin-Balanced c run h =
      Keeps-any λ s _. Keeps-ok (emit-Balanced _ _ c.turn (c.turn + 1) run h)

  margin_event-Balanced :
      (c : Context) (run : Run) → Balanced start run → Keeps (Balanced start) (margin_event c run)
  unfolding margin_event
  margin_event-Balanced c run h =
      Keeps-if run.collect (emit_margin c run) (ok run) (λ _. emit_margin-Balanced c run h)
        (λ _. Keeps-ok h)

  pub open_margin_event-Balanced :
      (c : Context) (run : Run)
      → Balanced start run
      → Keeps (Balanced start) (open_margin_event c run)
  unfolding open_margin_event
  open_margin_event-Balanced c run h =
      Keeps-if (is_flat run) (ok run) (margin_event c run) (λ _. Keeps-ok h)
        (λ _. margin_event-Balanced c run h)

  trigger_liquidation-Balanced :
      (c : Context) (mark : BarRow) (liq_px : ℤ) (run : Run)
      → Balanced start run
      → Keeps (Balanced start) (trigger_liquidation c mark liq_px run)
  unfolding trigger_liquidation
  trigger_liquidation-Balanced c mark liq_px run h =
      Keeps-bind (λ (l : Liquidation). Conserves start l.account)
        (record { holds = liquidate-Conserves start run.account h.account c.market.spec mark })
        λ l k. Keeps-ok (
          emit-Balanced _ _ c.turn (c.turn + 1) _
            (record { account = k; latest = h.latest; earlier = h.earlier }))

  near_miss-Balanced :
      (c : Context) (mark : BarRow) (liq_px : ℤ) (run : Run)
      → Balanced start run
      → Keeps (Balanced start) (near_miss c mark liq_px run)
  unfolding near_miss
  near_miss-Balanced c mark liq_px run h = Keeps-any λ minimum _. Keeps-ok (
      either (ltb_ℤ minimum near_liq_threshold_1e8)
        (emit-Balanced (near_liquidation (adverse_extreme run.account mark) liq_px minimum)
          (holding_close_ts c) c.turn (c.turn + 1) run h)
        h)

  check_liquidation-Balanced :
      (c : Context) (mark : BarRow) (run : Run)
      → Balanced start run
      → Keeps (Balanced start) (check_liquidation c mark run)
  unfolding check_liquidation
  check_liquidation-Balanced c mark run h = Keeps-any λ notional _. Keeps-any λ rate _.
      Keeps-any λ liq_px _. Keeps-any λ crossed _.
        Keeps-if crossed (trigger_liquidation c mark liq_px run) (near_miss c mark liq_px run)
          (λ _. trigger_liquidation-Balanced c mark liq_px run h)
          (λ _. near_miss-Balanced c mark liq_px run h)

  find_liquidation-Balanced :
      (c : Context) (run : Run)
      → Balanced start run
      → Keeps (Balanced start) (find_liquidation c run)
  unfolding find_liquidation
  find_liquidation-Balanced c run h = Keeps-any λ mark _. check_liquidation-Balanced c mark run h

  pub liquidation_step-Balanced :
      (c : Context) (run : Run)
      → Balanced start run
      → Keeps (Balanced start) (liquidation_step c run)
  unfolding liquidation_step
  liquidation_step-Balanced c run h =
      Keeps-if (is_flat run) (ok run) (find_liquidation c run) (λ _. Keeps-ok h)
        (λ _. find_liquidation-Balanced c run h)

  pub append_snapshot-Balanced :
      (c : Context) (run : Run)
      → Balanced start run
      → Keeps (Balanced start) (append_snapshot c run)
  unfolding append_snapshot
  append_snapshot-Balanced c run h =
      Keeps-bind (IsBooked start)
        (snapshot-IsBooked run.account c.market (c.decision_abs + 1) (c.turn + 1)
          (holding_close_ts c) h.account)
        λ s k.
          Keeps-ok (record { account = h.account; latest = k; earlier = (h.latest, h.earlier) })

  replace_snapshot-Balanced :
      (c : Context) (run : Run)
      → Balanced start run
      → Keeps (Balanced start) (replace_snapshot c run)
  unfolding replace_snapshot
  replace_snapshot-Balanced c run h =
      Keeps-bind (IsBooked start)
        (snapshot-IsBooked run.account c.market (c.decision_abs + 1) (c.turn + 1)
          (holding_close_ts c) h.account)
        λ s k.
          margin_event-Balanced c (record run { latest = s })
            (record { account = h.account; latest = k; earlier = h.earlier })

  flatten_open-Balanced :
      (c : Context) (run : Run) → Balanced start run → Keeps (Balanced start) (flatten_open c run)
  unfolding flatten_open emit_close
  flatten_open-Balanced c run h = Keeps-any λ mark _.
      Keeps-bind (λ (k : KillClose). Conserves start k.account)
        (record {
          holds =
              kill_close-Conserves start run.account h.account c.market.spec c.multiplier mark.c;
        })
        λ k g. replace_snapshot-Balanced c _ (emit-Balanced _ _ c.turn (c.turn + 1) _ (swap g h))

  fire_kill_switch-Balanced :
      (c : Context) (drawdown : ℤ) (run : Run)
      → Balanced start run
      → Keeps (Balanced start) (fire_kill_switch c drawdown run)
  unfolding fire_kill_switch flatten_if_open realized_pnl
  fire_kill_switch-Balanced c drawdown run h =
      Keeps-bind (Balanced start)
        (Keeps-if (is_flat run) (ok run) (flatten_open c run) (λ _. Keeps-ok h)
          (λ _. flatten_open-Balanced c run h))
        λ closed k. Keeps-ok (
          emit-Balanced _ _ c.turn (c.turn + 1) _
            (record { account = k.account; latest = k.latest; earlier = k.earlier }))

  pub kill_switch_step-Balanced :
      (c : Context) (run : Run)
      → Balanced start run
      → Keeps (Balanced start) (kill_switch_step c run)
  unfolding kill_switch_step maybe_fire
  kill_switch_step-Balanced c run h = Keeps-any λ drawdown _.
      Keeps-if (kill_switch_due c run drawdown) (fire_kill_switch c drawdown run) (ok run)
        (λ _. fire_kill_switch-Balanced c drawdown run h) (λ _. Keeps-ok h)

  pub terminal_margin_event-Balanced :
      (c : Context) (run : Run)
      → Balanced start run
      → Keeps (Balanced start) (terminal_margin_event c run)
  unfolding terminal_margin_event
  terminal_margin_event-Balanced c run h =
      Keeps-if run.terminal (margin_event c run) (ok run) (λ _. margin_event-Balanced c run h)
        (λ _. Keeps-ok h)
