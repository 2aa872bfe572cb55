-- ===== src/Core/Engine/Order/Evidence.antt =====
-- core/engine.py, an order step that asks for nothing, with and without the evidence flag.
use wagmi_bench.Prelude.{
  ℕ, ◌≡◌, ◌≢◌, refl, ◌∙◌, sym, ap, arith, true, false, List, [], ◌∷◌, if◌then◌else◌, ok, ◌>>=◌,
}
use wagmi_bench.Prelude.Int.{ℤ, pos, abs, eqb_ℤ}
use wagmi_bench.Core.Engine.State.{Account, ParsedAction, RiskCheck, risk_check, Run, emit}
use wagmi_bench.Core.Engine.Gates.{is_blocked, apply_checks, count_block}
use wagmi_bench.Core.Engine.Order.{
  Context, Sizing, size_order, keep_position, route_order, checks_of, order_step,
}
use wagmi_bench.Core.Engine.Order.Effects.{apply_checks_effect}

-- The account of a run that keeps its position under a new target leverage.
abbrev pub retargeted : Account → ℤ → Account
retargeted account target_lev = record account { target_leverage_1e4 = abs target_lev }

keep_position-collects :
    (c : Context) (s : Sizing) (run : Run)
    → run.collect ≡ true
    → s.raw_requested_delta ≢ pos 0
    → (keep_position c s run).account ≡ run.account
unfolding keep_position emit
keep_position-collects c s run on raw = ground arith

keep_position-retargets :
    (c : Context) (s : Sizing) (run : Run)
    → run.collect ≡ false
    → run.account.position_qty_base_1e8 ≢ pos 0
    → (keep_position c s run).account ≡ retargeted run.account s.target_lev
unfolding keep_position
keep_position-retargets c s run off open_position = ground arith

counted-collect :
    (check : RiskCheck) (ts : ℤ) (turn : ℕ) (run : Run)
    → (emit (risk_check check) ts turn turn (count_block check run)).collect ≡ run.collect
unfolding emit count_block
counted-collect check ts turn run = ground arith

apply_checks-collect :
    (checks : List RiskCheck) (ts : ℤ) (turn : ℕ) (run : Run)
    → (apply_checks checks ts turn run).collect ≡ run.collect
unfolding apply_checks
apply_checks-collect [] ts turn run = refl
apply_checks-collect (check ∷ checks) ts turn run =
    apply_checks-collect checks ts turn _ ∙ counted-collect check ts turn run

if-zero {ℓ} : {A : Type ℓ} (z : ℤ) (x y : A) → z ≡ pos 0 → (if eqb_ℤ z (pos 0) then x else y) ≡ x
if-zero z x y e = rw e refl

order_step-idle :
    (c : Context) (drawdown : ℤ) (action : ParsedAction) (s : Sizing) (run : Run)
    → size_order c action run.account ≡ ok s
    → is_blocked (checks_of c drawdown action s run.account) ≡ false
    → s.requested_delta ≡ pos 0
    → order_step c drawdown action run
      ≡ ok (
          keep_position c s
            (apply_checks (checks_of c drawdown action s run.account) c.decision_ts c.turn run))
unfolding order_step route_order ◌>>=◌
order_step-idle c drawdown action s run sized passes nothing =
    rw (sized, passes) (if-zero s.requested_delta _ _ nothing)

-- If an order is sized to nothing while its exact size is not zero, no check fails, a position is
-- open, and the target leverage is a new one, then the order step returns with and without the
-- evidence flag. With it the account stays as it is, without it the account takes the new target
-- leverage and nothing else, and the two accounts differ.
pub order_step-collect :
    (c : Context) (drawdown : ℤ) (action : ParsedAction) (s : Sizing) (run : Run)
    → size_order c action run.account ≡ ok s
    → is_blocked (checks_of c drawdown action s run.account) ≡ false
    → s.requested_delta ≡ pos 0
    → s.raw_requested_delta ≢ pos 0
    → run.account.position_qty_base_1e8 ≢ pos 0
    → abs s.target_lev ≢ run.account.target_leverage_1e4
    → (kept : Run) × (moved : Run) × (order_step c drawdown action (record run { collect = true })
        ≡ ok kept)
      × (order_step c drawdown action (record run { collect = false }) ≡ ok moved)
      × (kept.account ≡ run.account)
      × (moved.account ≡ retargeted run.account s.target_lev)
      × (kept.account ≢ moved.account)
order_step-collect c drawdown action s run sized passes nothing raw open_position differ =
    let checks = checks_of c drawdown action s run.account in
    let on = apply_checks checks c.decision_ts c.turn (record run { collect = true }) in
    let off = apply_checks checks c.decision_ts c.turn (record run { collect = false }) in
    let same_on : on.account ≡ run.account =
      (apply_checks_effect checks c.decision_ts c.turn (record run { collect = true })).0 in
    let same_off : off.account ≡ run.account =
      (apply_checks_effect checks c.decision_ts c.turn (record run { collect = false })).0 in
    let kept : (keep_position c s on).account ≡ run.account =
      keep_position-collects c s on (apply_checks-collect checks c.decision_ts c.turn _) raw
      ∙ same_on in
    let moved : (keep_position c s off).account ≡ retargeted run.account s.target_lev =
      keep_position-retargets c s off (apply_checks-collect checks c.decision_ts c.turn _)
        (λ e. open_position (ap (λ (a : Account). a.position_qty_base_1e8) (sym same_off) ∙ e))
      ∙ ap (λ (a : Account). retargeted a s.target_lev) same_off in
    (
      keep_position c s on,
      keep_position c s off,
      order_step-idle c drawdown action s (record run { collect = true }) sized passes nothing,
      order_step-idle c drawdown action s (record run { collect = false }) sized passes nothing,
      kept,
      moved,
      λ e. differ (ap (λ (a : Account). a.target_leverage_1e4) (sym moved ∙ sym e ∙ kept)),
    )
