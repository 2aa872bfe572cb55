-- ===== src/Core/Engine/Episode/Quiet.antt =====
-- core/engine.py, what an order step and the events leave alone: no fill, no liquidation, no kill
-- switch.
use wagmi_bench.Prelude.{
  ℕ, ◌+◌, ◌≡◌, refl, ◌∙◌, arith, Bool, true, false, List, [], ◌∷◌, ◌++◌, not, ◌&&◌, if◌then◌else◌,
  ok, Keeps, Keeps-ok, Keeps-if, Keeps-bind,
}
use wagmi_bench.Prelude.Int.{ℤ, pos, eqb_ℤ}
use wagmi_bench.Core.Engine.State.{
  ParsedAction, Reason, timeout, agent_error, oversize, invalid_json, unknown_schema,
  schema_invalid, unknown_field, unknown_market, invalid_target_format, float_target,
  target_out_of_range, invalid_slippage, Counters, RiskCheck, Payload, order_filled,
  liquidation_triggered, kill_switch_triggered, risk_check, post_kill_switch_attempt,
  order_cancelled, qty_rounding, Event, Run, emit,
}
use wagmi_bench.Core.Engine.Gates.{apply_checks, count_block, is_blocked}
use wagmi_bench.Core.Engine.Order.{
  Context, Sizing, keep_position, post_kill_attempt, route_order, execute_order, checks_of,
  order_step,
}
use wagmi_bench.Core.Engine.Order.Effects.{Frozen, IsIdle, size_order-IsIdle}
use wagmi_bench.Core.Engine.Turn.{count_rejection}

-- A fill, a liquidation or the kill switch.
unfoldable pub changes_position : Payload → Bool
changes_position (order_filled side a b c d e f g h i) = true
changes_position (liquidation_triggered a b c d e) = true
changes_position (kill_switch_triggered a b c d e) = true
changes_position _ = false

unfoldable pub changes : List Event → ℕ
changes [] = 0
changes (event ∷ events) = (if changes_position event.payload then 1 else 0) + changes events

-- Since `base`, no liquidation and no kill switch has been counted, neither these nor a fill is an
-- event, and the run has not ended.
pub record IsQuiet (base run : Run) : Type 0 where
  pub liquidations : run.counters.liquidations ≡ base.counters.liquidations
  pub fired : run.counters.kill_switch_fired ≡ base.counters.kill_switch_fired
  pub ended : run.terminal ≡ base.terminal
  pub events : changes run.events ≡ changes base.events

abbrev pub quiet : (run : Run) → IsQuiet run run
quiet run = record { liquidations = refl; fired = refl; ended = refl; events = refl }

-- The account and the other counters are not looked at.
pub move-IsQuiet :
    {base run next : Run}
    → IsQuiet base run
    → next.counters.liquidations ≡ run.counters.liquidations
    → next.counters.kill_switch_fired ≡ run.counters.kill_switch_fired
    → next.terminal ≡ run.terminal
    → changes next.events ≡ changes run.events
    → IsQuiet base next
move-IsQuiet h l f t e = record {
  liquidations = l ∙ h.liquidations;
  fired = f ∙ h.fired;
  ended = t ∙ h.ended;
  events = e ∙ h.events;
}

changes-append :
    (events : List Event) (event : Event)
    → changes_position event.payload ≡ false
    → changes (events ++ event ∷ []) ≡ changes events
unfolding changes
changes-append [] event h = rw h
changes-append (first ∷ events) event h = rw (changes-append events event h)

pub count_rejection-IsQuiet :
    (reason : Reason) (k : Counters)
    → ((count_rejection reason k).liquidations ≡ k.liquidations)
      × ((count_rejection reason k).kill_switch_fired ≡ k.kill_switch_fired)
unfolding count_rejection
count_rejection-IsQuiet timeout k = (refl, refl)
count_rejection-IsQuiet agent_error k = (refl, refl)
count_rejection-IsQuiet oversize k = (refl, refl)
count_rejection-IsQuiet invalid_json k = (refl, refl)
count_rejection-IsQuiet unknown_schema k = (refl, refl)
count_rejection-IsQuiet schema_invalid k = (refl, refl)
count_rejection-IsQuiet unknown_field k = (refl, refl)
count_rejection-IsQuiet unknown_market k = (refl, refl)
count_rejection-IsQuiet invalid_target_format k = (refl, refl)
count_rejection-IsQuiet float_target k = (refl, refl)
count_rejection-IsQuiet target_out_of_range k = (refl, refl)
count_rejection-IsQuiet invalid_slippage k = (refl, refl)

module _ (base : Run) where
  if-IsQuiet :
      (b : Bool) (x y : Run)
      → (b ≡ true → IsQuiet base x)
      → (b ≡ false → IsQuiet base y)
      → IsQuiet base (if b then x else y)
  if-IsQuiet true x y h k = h refl
  if-IsQuiet false x y h k = k refl

  pub emit-IsQuiet :
      (payload : Payload) (ts : ℤ) (turn bar : ℕ) (run : Run)
      → changes_position payload ≡ false
      → IsQuiet base run
      → IsQuiet base (emit payload ts turn bar run)
  unfolding emit
  emit-IsQuiet payload ts turn bar run e h =
      if-IsQuiet run.collect _ run
        (λ _. move-IsQuiet h refl refl refl (changes-append run.events _ e)) (λ _. h)

  counted-IsQuiet :
      (check : RiskCheck) (run : Run) → IsQuiet base run → IsQuiet base (count_block check run)
  unfolding count_block
  counted-IsQuiet check run h =
      if-IsQuiet check.passed run _ (λ _. h) (λ _. move-IsQuiet h refl refl refl refl)

  apply_checks-IsQuiet :
      (checks : List RiskCheck) (ts : ℤ) (turn : ℕ) (run : Run)
      → IsQuiet base run
      → IsQuiet base (apply_checks checks ts turn run)
  unfolding apply_checks changes_position
  apply_checks-IsQuiet [] ts turn run h = h
  apply_checks-IsQuiet (check ∷ checks) ts turn run h = apply_checks-IsQuiet checks ts turn _ (
      emit-IsQuiet (risk_check check) ts turn turn (count_block check run) refl
        (counted-IsQuiet check run h))

  post_kill_attempt-IsQuiet :
      (c : Context) (action : ParsedAction) (lev : ℤ) (run : Run)
      → IsQuiet base run
      → IsQuiet base (post_kill_attempt c action lev run)
  unfolding post_kill_attempt changes_position
  post_kill_attempt-IsQuiet c action lev run h =
      if-IsQuiet (run.account.kill_switch_active && not (eqb_ℤ lev (pos 0))) _ run
        (λ _.
          emit-IsQuiet (post_kill_switch_attempt action.target_lev_1e4) c.decision_ts c.turn c.turn
            _ refl (move-IsQuiet h refl refl refl refl))
        (λ _. h)

  keep_position-IsQuiet :
      (c : Context) (s : Sizing) (run : Run)
      → IsQuiet base run
      → IsQuiet base (keep_position c s run)
  unfolding keep_position changes_position
  keep_position-IsQuiet c s run h =
      if-IsQuiet (not (eqb_ℤ s.raw_requested_delta (pos 0)) && run.collect) _ _
        (λ _. emit-IsQuiet (order_cancelled qty_rounding _ _) c.decision_ts c.turn _ run refl h)
        (λ _.
          if-IsQuiet (eqb_ℤ run.account.position_qty_base_1e8 (pos 0)) run _ (λ _. h)
            (λ _. move-IsQuiet h refl refl refl refl))

  route_order-IsQuiet :
      (c : Context) (action : ParsedAction) (s : Sizing) (blocked : Bool) (run : Run)
      → (blocked ≡ false → s.requested_delta ≡ pos 0)
      → IsQuiet base run
      → Keeps (IsQuiet base) (route_order c action s blocked run)
  unfolding route_order
  route_order-IsQuiet c action s true run z h =
      Keeps-ok (post_kill_attempt-IsQuiet c action s.target_lev run h)
  route_order-IsQuiet c action s false run z h =
      Keeps-if (eqb_ℤ s.requested_delta (pos 0)) (ok (keep_position c s run))
        (execute_order c action s run) (λ _. Keeps-ok (keep_position-IsQuiet c s run h))
        (λ asks. let nothing = z refl in (absurd (ground arith)))

  -- An order step on a flat account whose kill switch has fired fills nothing.
  pub order_step-IsQuiet :
      (cash : ℤ) (c : Context) (drawdown : ℤ) (action : ParsedAction) (run : Run)
      → Frozen cash run.account
      → IsQuiet base run
      → Keeps (IsQuiet base) (order_step c drawdown action run)
  unfolding order_step
  order_step-IsQuiet cash c drawdown action run frozen h =
      Keeps-bind (IsIdle c drawdown action run.account)
        (size_order-IsIdle cash c drawdown action run.account frozen)
        λ s idle.
          let checks = checks_of c drawdown action s run.account in
          route_order-IsQuiet c action s (is_blocked checks) _ idle
            (apply_checks-IsQuiet checks c.decision_ts c.turn run h)
