-- ===== src/Tests/Records.antt =====
-- recorder/: the events of one turn.
use wagmi_bench.Prelude.{
  ℕ, ◌≡◌, refl, true, List, [], ◌∷◌, All, Text, codes, text_eqb, sort_by, Result, ok, err, ◌>>=◌,
}
use wagmi_bench.Prelude.Int.{pos}
use wagmi_bench.Prelude.Objects.{Value, null, int, str, object, Members, dict, find_member}
use wagmi_bench.Recorder.Decisions.{
  integer, natural, payload_of, is_type, typed_payloads, one, zero_or_one, copy_fields,
  account_after, ByTurn, add_event, at_turn, turn_of, is_str, event_turn, keep_event,
  events_by_turn, is_range, is_given, rows_by_turn, turns_of, covers_turns,
}
use wagmi_bench.Recorder.Decisions.Records.{
  TurnView, meant_of, field_numbers, last_of, turn_range, view_turn, view_turns, decision_views,
}
use wagmi_bench.Recorder.Decisions.Ranges.{OwnsRange, decision_views-OwnsRange}

abbrev event : ℕ → Text → Value → Members
event seq event_type turn = dict (
    (codes "seq", int (pos seq))
    ∷ (codes "type", str event_type)
    ∷ (codes "turn", turn)
    ∷ (codes "ts", int (pos 60))
    ∷ (codes "bar_index", int (pos 0))
    ∷ (codes "payload", object (dict ((codes "attempt", int (pos 1)) ∷ [])))
    ∷ [])

abbrev stream : List Members
stream =
    event 0 (codes "EpisodeStart") null
    ∷ event 1 (codes "ObservationEmitted") (int (pos 0))
    ∷ event 2 (codes "AgentResponded") (int (pos 0))
    ∷ event 3 (codes "ActionParsed") (int (pos 0))
    ∷ event 4 (codes "EpisodeEnd") null
    ∷ []

abbrev row : Members
row = dict (
    (codes "profile", str (codes "primary"))
    ∷ (codes "turn", int (pos 0))
    ∷ (codes "nav_micro", int (pos 5))
    ∷ (codes "cash_micro", int (pos 5))
    ∷ (codes "realized_pnl_micro", int (pos 0))
    ∷ (codes "d_nav_micro", int (pos 0))
    ∷ (codes "d_price_pnl_micro", int (pos 0))
    ∷ (codes "d_funding_micro", int (pos 0))
    ∷ (codes "d_fees_micro", int (pos 0))
    ∷ (codes "d_liq_penalty_micro", int (pos 0))
    ∷ [])

abbrev result_views : Result (ByTurn TurnView) → ByTurn TurnView
result_views (ok views) = views
result_views (err e) = []

abbrev views : ByTurn TurnView
views = result_views (decision_views stream (row ∷ []))

-- One turn is viewed, from the second event to the fourth.
stream-viewed : decision_views stream (row ∷ []) ≡ ok views
unfolding decision_views ◌>>=◌ events_by_turn event_turn natural integer find_member is_str turn_of
    is_range sort_by keep_event add_event rows_by_turn is_type is_given at_turn covers_turns
    text_eqb field_numbers last_of meant_of turn_range view_turn view_turns account_after
    copy_fields one payload_of typed_payloads zero_or_one
stream-viewed = refl

decision_views-OwnsRange_example :
    (is_range 0 (turns_of views) ≡ true) × All (OwnsRange stream) views
decision_views-OwnsRange_example = decision_views-OwnsRange stream (row ∷ []) views stream-viewed
