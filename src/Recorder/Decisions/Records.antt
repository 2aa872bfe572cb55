-- ===== src/Recorder/Decisions/Records.antt =====
-- recorder/decisions.py, `generate_decision_records`: the record of a turn, and all of them.
use wagmi_bench.Prelude.{
  ℕ, not, ◌&&◌, leb, Option, none, some, List, [], ◌∷◌, sort_by, Text, codes, Result, ok, err,
  raise_if, or_raise, projection_error, ◌>>=◌, ◌>>◌,
}
use wagmi_bench.Prelude.Int.{pos}
use wagmi_bench.Prelude.Objects.{
  Value, null, int, str, array, object, Values, nil, item, Members, dict, find_member,
}
use wagmi_bench.Recorder.Decisions.{
  natural, is_type, typed_payloads, one, zero_or_one, account_after, is_run_id, ByTurn, at_turn,
  events_by_turn, is_range, rows_by_turn, turns_of, covers_turns,
}

-- A list of objects, and an object or `None`, as values.
unfoldable pub object_array : List Members → Values
object_array [] = nil
object_array (members ∷ rest) = item (object members) (object_array rest)

abbrev pub object_or_null : Option Members → Value
object_or_null none = null
object_or_null (some members) = object members

-- The last of a list, if any.
unfoldable pub last_of {ℓ} : {A : Type ℓ} → List A → Option A
last_of [] = none
last_of (x ∷ []) = some x
last_of (x ∷ y ∷ rest) = last_of (y ∷ rest)

-- `ActionParsed` XOR `ActionRejected`
unfoldable pub meant_of : List Members → List Members → Result Value
meant_of (action ∷ []) [] = ok (
    object (
      dict (
        (codes "status", str (codes "parsed"))
        ∷ (codes "action", object action)
        ∷ (codes "rejected", null)
        ∷ [])))
meant_of [] (rejection ∷ []) = ok (
    object (
      dict (
        (codes "status", str (codes "rejected"))
        ∷ (codes "action", null)
        ∷ (codes "rejected", object rejection)
        ∷ [])))
meant_of parsed rejected = err projection_error

-- `attempt_numbers`
unfoldable pub field_numbers : Text → List Members → Result (List ℕ)
field_numbers field [] = ok []
field_numbers field (members ∷ rest) = do
  n ← natural (find_member field members)
  others ← field_numbers field rest
  ok (n ∷ others)

-- What the events of a turn say, before it is laid out.
pub record TurnView : Type 0 where
  pub bar_index : ℕ
  pub ts : ℕ
  pub saw : Members
  pub attempts : List Members
  pub meant : Value
  pub rules : List Members
  pub fills : List Members
  pub cancels : List Members
  pub liquidation : Option Members
  pub post_kill_switch_attempt : Option Members
  pub funding : List Members
  pub margin_updates : List Members
  pub account : List (Text × Value)
  pub first_seq : ℕ
  pub last_seq : ℕ

-- The events of a turn are a range of the stream that starts with the observation.
unfoldable pub turn_range : List Members → Result (Members × (ℕ × ℕ))
turn_range [] = err projection_error
turn_range (first ∷ rest) = do
  seqs ← field_numbers (codes "seq") (first ∷ rest)
  first_seq ← natural (find_member (codes "seq") first)
  last_seq ← or_raise (last_of seqs) projection_error
  raise_if (not (is_range first_seq seqs)) projection_error
  raise_if (not (is_type (codes "ObservationEmitted") (find_member (codes "type") first)))
      projection_error
  ok (first, (first_seq, last_seq))

-- The body of the loop over the turns, up to the record.
unfoldable pub view_turn : List Members → Members → Result TurnView
view_turn events row = do
  (first, range) ← turn_range events
  observations ← typed_payloads events (codes "ObservationEmitted")
  saw ← one observations
  ts ← natural (find_member (codes "ts") first)
  bar_index ← natural (find_member (codes "bar_index") first)
  attempts ← typed_payloads events (codes "AgentResponded")
  attempt_numbers ← field_numbers (codes "attempt") attempts
  raise_if (not (is_range 1 attempt_numbers)) projection_error
  parsed ← typed_payloads events (codes "ActionParsed")
  rejected ← typed_payloads events (codes "ActionRejected")
  meant ← meant_of parsed rejected
  rules ← typed_payloads events (codes "RiskCheck")
  fills ← typed_payloads events (codes "OrderFilled")
  cancels ← typed_payloads events (codes "OrderCancelled")
  liquidations ← typed_payloads events (codes "LiquidationTriggered")
  liquidation ← zero_or_one liquidations
  late ← typed_payloads events (codes "PostKillSwitchAttempt")
  post_kill_switch_attempt ← zero_or_one late
  funding ← typed_payloads events (codes "FundingApplied")
  margin_updates ← typed_payloads events (codes "MarginUpdate")
  account ← account_after row
  ok (record {
    bar_index = bar_index;
    ts = ts;
    saw = saw;
    attempts = attempts;
    meant = meant;
    rules = rules;
    fills = fills;
    cancels = cancels;
    liquidation = liquidation;
    post_kill_switch_attempt = post_kill_switch_attempt;
    funding = funding;
    margin_updates = margin_updates;
    account = account;
    first_seq = range.0;
    last_seq = range.1;
  })

abbrev pub nested : List (Text × Value) → Value
nested members = object (dict members)

-- The record.
unfoldable pub decision_record : Text → ℕ → TurnView → Members
decision_record run_id turn v = dict (
    (codes "schema", str (codes "decision_record/v1"))
    ∷ (codes "run_id", str run_id)
    ∷ (codes "turn", int (pos turn))
    ∷ (codes "bar_index", int (pos v.bar_index))
    ∷ (codes "ts", int (pos v.ts))
    ∷ (codes "saw", object v.saw)
    ∷ (codes "said", nested ((codes "attempts", array (object_array v.attempts)) ∷ []))
    ∷ (codes "meant", v.meant)
    ∷ (codes "rules", array (object_array v.rules))
    ∷ (
      codes "happened",
      nested (
          (codes "fills", array (object_array v.fills))
          ∷ (codes "cancels", array (object_array v.cancels))
          ∷ (codes "liquidation", object_or_null v.liquidation)
          ∷ (codes "post_kill_switch_attempt", object_or_null v.post_kill_switch_attempt)
          ∷ []),
    )
    ∷ (
      codes "cost_to_hold",
      nested (
          (codes "funding", array (object_array v.funding))
          ∷ (codes "margin_after", object_or_null (last_of v.margin_updates))
          ∷ []),
    )
    ∷ (codes "account_after", nested v.account)
    ∷ (
      codes "event_seq_range",
      nested (
          (codes "first_seq", int (pos v.first_seq))
          ∷ (codes "last_seq", int (pos v.last_seq))
          ∷ []),
    )
    ∷ [])

-- The loop over the turns, with what a missing entry would raise.
unfoldable pub view_turns :
    List ℕ → ByTurn (List Members) → ByTurn Members → Result (ByTurn TurnView)
view_turns [] events rows = ok []
view_turns (turn ∷ turns) events rows = do
  turn_events ← or_raise (at_turn turn events) projection_error
  row ← or_raise (at_turn turn rows) projection_error
  view ← view_turn turn_events row
  rest ← view_turns turns events rows
  ok ((turn, view) ∷ rest)

unfoldable pub lay_out : Text → ByTurn TurnView → List Members
lay_out run_id [] = []
lay_out run_id ((turn, view) ∷ rest) = decision_record run_id turn view ∷ lay_out run_id rest

-- The views of the turns in their order: what comes before the records.
unfoldable pub decision_views : List Members → List Members → Result (ByTurn TurnView)
decision_views events ledger_rows = do
  grouped ← events_by_turn 0 events []
  let turns = sort_by leb (turns_of grouped)
  raise_if (not (is_range 0 turns)) projection_error
  rows ← rows_by_turn ledger_rows []
  raise_if (not (covers_turns rows grouped && covers_turns grouped rows)) projection_error
  view_turns turns grouped rows

unfoldable pub generate_decision_records :
    List Members → List Members → Text → Result (List Members)
generate_decision_records events ledger_rows run_id = do
  raise_if (not (is_run_id run_id)) projection_error
  views ← decision_views events ledger_rows
  ok (lay_out run_id views)
