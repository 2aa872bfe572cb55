-- ===== src/Core/Action/Bounds.antt =====
-- What an accepted action has, whatever the agent sent.
use wagmi_bench.Prelude.{
  ℕ, ◌≡◌, refl, ◌∙◌, sym, ap, subst, Bool, true, false, Option-cases, inl, inr, ◌⊎◌, not,
  if◌then◌else◌, Option, List, Text, codes, by_key, sort_by, ok, arith,
}
use wagmi_bench.Prelude.Objects.{
  Value, object, int, float, null, bool, str, array, members_list, find_member,
}
use wagmi_bench.Core.Engine.State.{ParsedAction, Reason, parsed}
use wagmi_bench.Core.Engine.Decision.{
  ActionParseResult, accepted, refused, AgentOutcome, replied, timed_out, failed, request_decision,
}
use wagmi_bench.Core.Engine.Decision.Attempts.{Accepts, IsDecided, request_decision-IsDecided}
use wagmi_bench.Core.Engine.State.{unknown_market, unknown_schema, unknown_field, schema_invalid}
use wagmi_bench.Core.Action.Targets.{
  name, IsValidAction, target-shape, v4_shape-target, valid_of_target,
}
use wagmi_bench.Core.Action.Utf8.{utf8_decode}
use wagmi_bench.Core.Action.{
  Body, is_known_field, schema_is_known, all_keys, all_declared, target_is_valid, v4_shape_is_valid,
  sorted_target, parse_values, wire_bytes, parse_document, parse_text, parse_body, parse_action,
}

not-false : (b : Bool) → not b ≡ false → b ≡ true
not-false true h = refl
not-false false h = cc

ActionParseResult-cases :
    (r : ActionParseResult)
    → ((a : ParsedAction) × (r ≡ accepted a)) ⊎ ((reason : Reason) × (r ≡ refused reason))
ActionParseResult-cases (accepted a) = inl (a, refl)
ActionParseResult-cases (refused reason) = inr (reason, refl)

-- A test that refuses, in an accepted reply.
past_refusal :
    (b : Bool) (reason : Reason) (r : ActionParseResult) (action : ParsedAction)
    → (if b then refused reason else r) ≡ accepted action
    → (b ≡ false) × (r ≡ accepted action)
past_refusal true reason r action e = absurd cc
past_refusal false reason r action e = (refl, e)

module _ (declared : List Text) (n : ℕ) (action : ParsedAction) where
  parse_document-valid :
      (decoded : Value)
      → parse_document declared n decoded ≡ accepted action
      → IsValidAction declared action
  unfolding parse_document sorted_target
  parse_document-valid (object document) e =
      let slip = find_member (codes "max_slippage_bps") document in
      let stages : List (Text × Value) → ActionParseResult = (λ l.
        if not (all_declared declared l) then refused unknown_market else parse_values slip n l) in
      let found = find_member (codes "target") document in
      let v4 : ActionParseResult =
        if not (v4_shape_is_valid document)
        then refused schema_invalid
        else stages (sorted_target found) in
      let (schema, e) =
        past_refusal (not (schema_is_known (find_member (codes "schema") document))) unknown_schema
          (if not (all_keys is_known_field document) then refused unknown_field else v4) action e in
      let (fields, e) =
        past_refusal (not (all_keys is_known_field document)) unknown_field v4 action e in
      let (shape, e) =
        past_refusal (not (v4_shape_is_valid document)) schema_invalid
          (stages (sorted_target found)) action e in
      let valid = v4_shape-target document (not-false (v4_shape_is_valid document) shape) in
      let (target, f) = target-shape (find_member (codes "target") document) valid in
      let sorted = sort_by (by_key name) (members_list target) in
      let e : stages sorted ≡ accepted action =
        ap (λ found. stages (sorted_target found)) (sym f) ∙ e in
      let (known, e) =
        past_refusal (not (all_declared declared sorted)) unknown_market
          (parse_values slip n sorted) action e in
      valid_of_target declared slip target action n (subst (λ x. target_is_valid x ≡ true) f valid)
        (not-false (all_declared declared sorted) known) e
  parse_document-valid null e = cc
  parse_document-valid (bool b) e = cc
  parse_document-valid (int m) e = cc
  parse_document-valid (float l) e = cc
  parse_document-valid (str s) e = cc
  parse_document-valid (array vs) e = cc

module _ (loads : Text → Option Value) (declared : List Text) where
  parse_body-valid :
      (body : Body) (n : ℕ) (action : ParsedAction)
      → parse_body loads declared body n ≡ accepted action
      → IsValidAction declared action
  unfolding parse_body parse_text
  parse_body-valid body n action e = elim (Option-cases (wire_bytes body)) [
    | inl w ↦ absurd (ground arith)
    | inr (bytes, w) ↦ elim (Option-cases (utf8_decode bytes)) [
      | inl u ↦ absurd (ground arith)
      | inr (decoded, u) ↦ elim (Option-cases (loads decoded)) [
        | inl l ↦ absurd (ground arith)
        | inr (document, l) ↦ parse_document-valid declared n action document (ground arith)
      ]
    ]
  ]

  -- Whatever an agent sends and whatever the JSON decoder makes of it, an accepted action has one
  -- to sixteen targets of declared markets in the order of their names, each of at most 9,999,999
  -- units, and no slippage or one between 0 and 10,000.
  pub parse_action-IsValidAction :
      (body : Body) (from_attempt : ℕ) (action : ParsedAction)
      → parse_action loads declared body from_attempt ≡ ok (accepted action)
      → IsValidAction declared action
  unfolding parse_action
  parse_action-IsValidAction body n action e =
      parse_body-valid body n action
        (elim (ActionParseResult-cases (parse_body loads declared body n)) [
          | inl (a, p) ↦ ground arith
          | inr (reason, p) ↦ absurd (ground arith)
        ])

  accepted-valid :
      (outcome : AgentOutcome Body) (n : ℕ) (action : ParsedAction)
      → Accepts (parse_body loads declared) outcome n action
      → IsValidAction declared action
  accepted-valid timed_out n action a = absurd a
  accepted-valid failed n action a = absurd a
  accepted-valid (replied reply) n action a = parse_body-valid reply.body n action a.1

  -- Whatever the outcomes of the attempts are, a decision of the engine that carries an action,
  -- made with the action parser, carries one with one to sixteen targets of declared markets in the
  -- order of their names, each within the bound, and a slippage within its bound.
  pub request_decision-IsValidAction :
      (retries : ℕ) (decide : ℕ → AgentOutcome Body) (action : ParsedAction)
      → request_decision (parse_body loads declared) retries decide ≡ parsed action
      → IsValidAction declared action
  request_decision-IsValidAction retries decide action e =
      elim (subst (IsDecided (parse_body loads declared) retries (decide 1) (decide 2)) e
        (request_decision-IsDecided (parse_body loads declared) retries decide)) [
          | inl a ↦ accepted-valid (decide 1) 1 action a
          | inr (reason, r, a) ↦ accepted-valid (decide 2) 2 action a
        ]
