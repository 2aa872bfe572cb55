-- ===== src/Recorder/Decisions/Ranges.antt =====
-- recorder/decisions.py: which events of the stream a record stands for.
use wagmi_bench.Prelude.{
  ℕ, ◌+◌, true, not, ◌&&◌, leb, some, List, [], ◌∷◌, get_elem?, sort_by, ◌≡◌, refl, sym, ap, subst,
  ◌∙◌, arith, All, codes, Keeps, Keeps-any, Keeps-ok, Ensures-eq-ok, All-map_pred, ok, or_raise,
  projection_error, >>=-ok, raise_if-ok, or_raise-some, ok-injective,
}
use wagmi_bench.Prelude.Objects.{Members}
use wagmi_bench.Recorder.Decisions.{
  ByTurn, at_turn, events_by_turn, is_range, rows_by_turn, turns_of, covers_turns,
}
use wagmi_bench.Recorder.Decisions.Records.{
  TurnView, field_numbers, turn_range, view_turn, view_turns, decision_views,
}
use wagmi_bench.Recorder.Decisions.Places.{
  has_turn, own_events, places, events_by_turn-own, places-has_number, turn_range-places,
}

view_turn-turn_range :
    (events : List Members) (row : Members)
    → Keeps
        (λ view.
          (first : Members) × (turn_range events ≡ ok (first, (view.first_seq, view.last_seq))))
        (view_turn events row)
unfolding view_turn
view_turn-turn_range events row = Keeps-any (λ (first, range) ranged. Keeps-any (λ observations h1.
    Keeps-any (λ saw h2. Keeps-any (λ ts h3. Keeps-any (λ bar_index h4. Keeps-any (λ attempts h5.
      Keeps-any (λ numbers h6. Keeps-any (λ tested h7. Keeps-any (λ parsed h8.
        Keeps-any (λ rejected h9. Keeps-any (λ meant h10. Keeps-any (λ rules h11.
          Keeps-any (λ fills h12. Keeps-any (λ cancels h13. Keeps-any (λ liquidations h14.
            Keeps-any (λ liquidation h15. Keeps-any (λ late h16. Keeps-any (λ attempt h17.
              Keeps-any (λ funding h18. Keeps-any (λ updates h19.
                Keeps-any (λ account h20. Keeps-ok (first, ranged))))))))))))))))))))))

-- The views of the turns come from the events and the row that the dictionaries have for them.
view_turns-ok :
    (turns : List ℕ) (grouped : ByTurn (List Members)) (rows : ByTurn Members)
    (views : ByTurn TurnView)
    → view_turns turns grouped rows ≡ ok views
    → (turns_of views ≡ turns)
      × All
          (λ v.
            (events : List Members) × (at_turn v.0 grouped ≡ some events)
            × ((row : Members) × (view_turn events row ≡ ok v.1)))
          views
unfolding view_turns
view_turns-ok [] grouped rows views e = rw (← ok-injective e) (refl, tt)
view_turns-ok (turn ∷ turns) grouped rows views e =
    let (events, found, s) = >>=-ok (or_raise (at_turn turn grouped) projection_error) _ views e in
    let (row, kept, t) = >>=-ok (or_raise (at_turn turn rows) projection_error) _ views s in
    let (view, seen, u) = >>=-ok (view_turn events row) _ views t in
    let (rest, others, done) = >>=-ok (view_turns turns grouped rows) _ views u in
    let (named, all) = view_turns-ok turns grouped rows rest others in
    let at = or_raise-some (at_turn turn grouped) projection_error events found in
    subst
      (λ vs.
        (turns_of vs ≡ turn ∷ turns)
        × All
            (λ v.
              (events : List Members) × (at_turn v.0 grouped ≡ some events)
              × ((row : Members) × (view_turn events row ≡ ok v.1)))
            vs)
      (ok-injective done) (ap (λ ts. turn ∷ ts) named, ((events, at, (row, seen)), all))

-- The record of the turn stands for the events of its range and no others.
abbrev pub OwnsRange : List Members → ℕ × TurnView → Type 0
OwnsRange events v =
    (i : ℕ) (event : Members)
    → get_elem? events i ≡ some event
    → has_turn v.0 event ≡ (leb v.1.first_seq i && leb i v.1.last_seq)

view_turn-OwnsRange :
    (events own : List Members) (grouped : ByTurn (List Members)) (row : Members) (turn : ℕ)
    (view : TurnView)
    → events_by_turn 0 events [] ≡ ok grouped
    → at_turn turn grouped ≡ some own
    → view_turn own row ≡ ok view
    → OwnsRange events (turn, view)
unfolding at_turn
view_turn-OwnsRange events own grouped row turn view e at seen i event h =
    let (collected, placed) = events_by_turn-own turn 0 events [] grouped e in
    let same : own ≡ own_events turn events = rw at at collected in
    let numbers =
      subst (λ es. field_numbers (codes "seq") es ≡ ok (places turn 0 events)) (sym same) placed in
    let (first, ranged) =
      Ensures-eq-ok _ (view_turn own row) (view_turn-turn_range own row).holds seen in
    let bounds =
      Ensures-eq-ok _ (turn_range own) (turn_range-places own (places turn 0 events) numbers).holds
        ranged in
    let there = places-has_number turn 0 i events event h in
    let inside = bounds (0 + i) in
    let start : 0 + i ≡ i = omega arith in
    subst (λ k. has_turn turn event ≡ (leb view.first_seq k && leb k view.last_seq)) start
      (sym there ∙ inside)

-- If the view of the decisions is generated, there is one for each turn from zero up without a gap,
-- and the event at a place of the stream belongs to the turn exactly if the place lies in the
-- sequence range of its view.
pub decision_views-OwnsRange :
    (events ledger_rows : List Members) (views : ByTurn TurnView)
    → decision_views events ledger_rows ≡ ok views
    → (is_range 0 (turns_of views) ≡ true) × All (OwnsRange events) views
unfolding decision_views
decision_views-OwnsRange events ledger_rows views e =
    let (grouped, collected, s) = >>=-ok (events_by_turn 0 events []) _ views e in
    let turns = sort_by leb (turns_of grouped) in
    let (ranged, t) = raise_if-ok (not (is_range 0 turns)) projection_error _ views s in
    let (rows, read, u) = >>=-ok (rows_by_turn ledger_rows []) _ views t in
    let (covered, w) =
      raise_if-ok (not (covers_turns rows grouped && covers_turns grouped rows)) projection_error _
        views u in
    let (named, all) = view_turns-ok turns grouped rows views w in
    (
      rw named (ground arith),
      All-map_pred _ _ views
          (λ v (own, at, (row, seen)).
            view_turn-OwnsRange events own grouped row v.0 v.1 collected at seen)
          all,
    )
