-- ===== src/Core/Engine/Order/Effects.antt =====
-- core/engine.py, what an order may change in the account.
use wagmi_bench.Prelude.{
  ℕ, zero, suc, ◌+◌, ◌≡◌, refl, ◌∙◌, sym, subst, arith, Bool, true, false, List, [], ◌∷◌,
  if◌then◌else◌, ok, Ensures, Keeps, Keeps-bind, Keeps-any, Keeps-if, Keeps-ok, Keeps-all,
  Keeps-map, ◌>>=◌,
}
use wagmi_bench.Prelude.Int.{ℤ, pos, negsuc, ◌*ℤ◌, eqb_ℤ, int_laws}
use wagmi_bench.Prelude.Int.Laws.{parts_of_eq, zero_mul, zero-//}
use wagmi_bench.Core.Config.{EpisodeConfig}
use wagmi_bench.Core.Pack.{MarketSpec}
use wagmi_bench.Core.Math.Rounding.{leverage_scale, qty_scale, floor_fraction, floor_to_step}
use wagmi_bench.Core.Math.Sizing.{target_quantity_base_1e8, raw_target_quantity_base_1e8}
use wagmi_bench.Core.Engine.State.{Account, ParsedAction, RiskCheck, risk_check, Run, emit}
use wagmi_bench.Core.Engine.Gates.{
  gross_target, apply_checks, count_block, is_blocked, risk_checks, kill_pass,
}
use wagmi_bench.Core.Engine.Order.{
  Context, Sizing, size_order, target_for, execute_order, keep_position, post_kill_attempt,
  route_order, checks_of, order_step,
}

-- The number of checks that do not pass.
unfoldable pub failures : List RiskCheck → ℕ
failures [] = 0
failures (check ∷ checks) = (if check.passed then 0 else 1) + failures checks

counted_account :
    (check : RiskCheck) (ts : ℤ) (turn : ℕ) (run : Run)
    → (emit (risk_check check) ts turn turn (count_block check run)).account ≡ run.account
unfolding emit count_block
counted_account check ts turn run = ground arith

counted_blocks :
    (check : RiskCheck) (ts : ℤ) (turn : ℕ) (run : Run)
    → (emit (risk_check check) ts turn turn (count_block check run)).counters.gate_blocks
      ≡ run.counters.gate_blocks + (if check.passed then 0 else 1)
unfolding emit count_block
counted_blocks check ts turn run = ground arith

-- The loop over the checks counts the failures and touches nothing else of the economics.
pub apply_checks_effect :
    (checks : List RiskCheck) (ts : ℤ) (turn : ℕ) (run : Run)
    → let next = apply_checks checks ts turn run in
      (next.account ≡ run.account)
      × (next.counters.gate_blocks ≡ run.counters.gate_blocks + failures checks)
unfolding apply_checks failures
apply_checks_effect [] ts turn run = (refl, omega arith)
apply_checks_effect (check ∷ checks) ts turn run =
    let counted = emit (risk_check check) ts turn turn (count_block check run) in
    let (same, more) = apply_checks_effect checks ts turn counted in
    (
      same ∙ counted_account check ts turn run,
      omega (arith, more, counted_blocks check ts turn run),
    )

raw_target_flat :
    (equity px tick ls qs : ℤ)
    → Ensures (λ q. q ≡ pos 0) (raw_target_quantity_base_1e8 (pos 0) equity px tick ls qs)
unfolding raw_target_quantity_base_1e8 floor_fraction
raw_target_flat equity px tick ls qs =
    ground (arith, zero_mul equity, zero_mul qs, zero-// (ls *ℤ px *ℤ tick))

floor_to_step_zero : (step : ℤ) → Ensures (λ q. q ≡ pos 0) (floor_to_step (pos 0) step)
unfolding floor_to_step
floor_to_step_zero step = ground (arith, zero-// step, zero_mul step)

target_flat :
    (equity px tick step ls qs : ℤ)
    → Keeps (λ q. q ≡ pos 0) (target_quantity_base_1e8 (pos 0) equity px tick step ls qs)
unfolding target_quantity_base_1e8
target_flat equity px tick step ls qs =
    Keeps-bind (λ q. q ≡ pos 0) (record { holds = raw_target_flat equity px tick ls qs })
      λ raw e. rw e (record { holds = floor_to_step_zero step })

zero_target :
    (c : Context) (lev equity px : ℤ)
    → Keeps
        (λ q. lev ≡ pos 0 → q ≡ pos 0)
        (target_quantity_base_1e8 lev equity px c.market.spec.tick_size_micro
          c.market.spec.qty_step_base_1e8 leverage_scale qty_scale)
zero_target c (pos zero) equity px =
    Keeps-map (λ q. q ≡ pos 0) _ _ (λ q e _. e) (target_flat equity px _ _ leverage_scale qty_scale)
zero_target c (pos (suc n)) equity px = Keeps-all _ λ q e. cc
zero_target c (negsuc n) equity px = Keeps-all _ λ q e. cc

-- A flat account with a zero target asks for nothing.
abbrev AsksNothing : ℤ → Sizing → Type 0
AsksNothing lev s = (s.target_lev ≡ lev) × (lev ≡ pos 0 → s.requested_delta ≡ pos 0)

size_order-AsksNothing :
    (c : Context) (action : ParsedAction) (account : Account)
    → account.position_qty_base_1e8 ≡ pos 0
    → Keeps (AsksNothing (target_for c.alias action.target_lev_1e4)) (size_order c action account)
unfolding size_order
size_order-AsksNothing c action account flat = Keeps-any λ mark _. Keeps-any λ unrealised _.
    Keeps-any λ bar _.
      Keeps-bind (λ q. target_for c.alias action.target_lev_1e4 ≡ pos 0 → q ≡ pos 0)
        (zero_target c (target_for c.alias action.target_lev_1e4) _ _)
        λ requested z. Keeps-any λ raw _. Keeps-any λ notional _. Keeps-any λ turnover _.
          Keeps-ok (refl, λ e. omega (int_laws, parts_of_eq _ _ (z e), parts_of_eq _ _ flat))

-- An account whose kill switch has fired: flat, with its cash as it was.
pub record Frozen (cash : ℤ) (a : Account) : Type 0 where
  pub killed : a.kill_switch_active ≡ true
  pub flat : a.position_qty_base_1e8 ≡ pos 0
  pub held : a.cash_micro ≡ cash

-- The last check is the kill switch's.
open-kill_pass :
    (account : Account) (spec : MarketSpec) (config : EpisodeConfig)
    (lev gross turnover drawdown : ℤ)
    → is_blocked (risk_checks account spec config lev gross turnover drawdown) ≡ false
    → kill_pass account lev ≡ true
unfolding is_blocked risk_checks
open-kill_pass account spec config lev gross turnover drawdown h = ground arith

killed_target :
    (account : Account) (lev : ℤ)
    → account.kill_switch_active ≡ true
    → kill_pass account lev ≡ true
    → lev ≡ pos 0
unfolding kill_pass
killed_target account lev k h = ground arith

keep_position-flat :
    (c : Context) (s : Sizing) (run : Run)
    → run.account.position_qty_base_1e8 ≡ pos 0
    → (keep_position c s run).account ≡ run.account
unfolding keep_position emit
keep_position-flat c s run flat = ground arith

post_kill_attempt-account :
    (c : Context) (action : ParsedAction) (lev : ℤ) (run : Run)
    → (post_kill_attempt c action lev run).account ≡ run.account
unfolding post_kill_attempt emit
post_kill_attempt-account c action lev run = ground arith

move : {cash : ℤ} {a b : Account} → b ≡ a → Frozen cash a → Frozen cash b
move {cash} e h = subst (Frozen cash) (sym e) h

route_order-Frozen :
    (cash : ℤ) (c : Context) (action : ParsedAction) (s : Sizing) (blocked : Bool) (run : Run)
    → Frozen cash run.account
    → (blocked ≡ false → s.requested_delta ≡ pos 0)
    → Keeps (λ (next : Run). Frozen cash next.account) (route_order c action s blocked run)
unfolding route_order
route_order-Frozen cash c action s true run h z =
    Keeps-ok (move (post_kill_attempt-account c action s.target_lev run) h)
route_order-Frozen cash c action s false run h z =
    Keeps-if (eqb_ℤ s.requested_delta (pos 0)) (ok (keep_position c s run))
      (execute_order c action s run) (λ _. Keeps-ok (move (keep_position-flat c s run h.flat) h))
      (λ asks. let nothing = z refl in (absurd (ground arith)))

post_kill_attempt-blocks :
    (c : Context) (action : ParsedAction) (lev : ℤ) (run : Run)
    → (post_kill_attempt c action lev run).counters.gate_blocks ≡ run.counters.gate_blocks
unfolding post_kill_attempt emit
post_kill_attempt-blocks c action lev run = ground arith

-- A sized order that passes the checks asks for nothing.
abbrev pub IsIdle : Context → ℤ → ParsedAction → Account → Sizing → Type 0
IsIdle c drawdown action account s =
    is_blocked (checks_of c drawdown action s account) ≡ false → s.requested_delta ≡ pos 0

pub size_order-IsIdle :
    (cash : ℤ) (c : Context) (drawdown : ℤ) (action : ParsedAction) (account : Account)
    → Frozen cash account
    → Keeps (IsIdle c drawdown action account) (size_order c action account)
size_order-IsIdle cash c drawdown action account h =
    Keeps-map (AsksNothing (target_for c.alias action.target_lev_1e4)) _
      (size_order c action account)
      (λ s asks e. asks.1 (
        sym asks.0
        ∙ killed_target account s.target_lev h.killed (
            open-kill_pass account c.market.spec c.config s.target_lev
              (gross_target action.target_lev_1e4) s.projected_turnover drawdown e)))
      (size_order-AsksNothing c action account h.flat)

-- If the kill switch of an account has fired and the account is flat, then an order step that
-- returns leaves it so, with its cash as it was, whatever the action asks for.
pub order_step-Frozen :
    (cash : ℤ) (c : Context) (drawdown : ℤ) (action : ParsedAction) (run : Run)
    → Frozen cash run.account
    → Keeps (λ (next : Run). Frozen cash next.account) (order_step c drawdown action run)
unfolding order_step
order_step-Frozen cash c drawdown action run h =
    Keeps-bind (IsIdle c drawdown action run.account)
      (size_order-IsIdle cash c drawdown action run.account h)
      λ s idle.
        let checks = checks_of c drawdown action s run.account in
        route_order-Frozen cash c action s (is_blocked checks) _
          (move (apply_checks_effect checks c.decision_ts c.turn run).0 h) idle

-- If an order is sized and at least one risk check fails, the order step returns, leaves the
-- account alone and counts each check that fails as one gate block.
pub order_step-blocked :
    (c : Context) (drawdown : ℤ) (action : ParsedAction) (s : Sizing) (run : Run)
    → size_order c action run.account ≡ ok s
    → is_blocked (checks_of c drawdown action s run.account) ≡ true
    → (next : Run) × (order_step c drawdown action run ≡ ok next)
      × (next.account ≡ run.account)
      × (next.counters.gate_blocks
          ≡ run.counters.gate_blocks + failures (checks_of c drawdown action s run.account))
unfolding order_step route_order ◌>>=◌
order_step-blocked c drawdown action s run e blocked =
    let checks = checks_of c drawdown action s run.account in
    let counted = apply_checks checks c.decision_ts c.turn run in
    let (same, more) = apply_checks_effect checks c.decision_ts c.turn run in
    (
      post_kill_attempt c action s.target_lev counted,
      rw (e, blocked),
      post_kill_attempt-account c action s.target_lev counted ∙ same,
      post_kill_attempt-blocks c action s.target_lev counted ∙ more,
    )
