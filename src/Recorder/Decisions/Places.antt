-- ===== src/Recorder/Decisions/Places.antt =====
-- recorder/decisions.py: the events of a turn and their places in the stream.
use mathlib.Core.List.{append-nil}
use mathlib.Core.Option.{some-injective}
use wagmi_bench.Prelude.{
  ℕ, zero, suc, ◌+◌, ◌<◌, Bool, true, false, not, ◌&&◌, ◌||◌, ltb, leb, ◌==◌, if◌then◌else◌, Option,
  none, some, List, [], ◌∷◌, ◌++◌, length, get_elem?, append_assoc, ◌≡◌, refl, sym, ap, subst, ◌∙◌,
  inl, inr, arith, codes, Bool-cases, Keeps, Keeps-any, Keeps-ok, Result, ok, err, projection_error,
  ◌>>=◌, >>=-ok, raise_if-ok, raise_if-passes, or_raise-some, ok-injective,
}
use wagmi_bench.Prelude.Objects.{Members, find_member}
use wagmi_bench.Recorder.Decisions.{
  natural, ByTurn, at_turn, add_event, turn_of, is_str, event_turn, keep_event, events_by_turn,
  is_range,
}
use wagmi_bench.Recorder.Decisions.Records.{field_numbers, last_of, turn_range}

-- The turn of an event is the given one.
abbrev pub is_turn : ℕ → Result (Option ℕ) → Bool
is_turn turn (ok (some t)) = t == turn
is_turn turn (ok none) = false
is_turn turn (err e) = false

abbrev pub has_turn : ℕ → Members → Bool
has_turn turn event = is_turn turn (turn_of (find_member (codes "turn") event))

-- The events of a turn, and their places from `seq` on.
abbrev pub own_events : ℕ → List Members → List Members
own_events turn [] = []
own_events turn (event ∷ events) =
    let rest = own_events turn events in if has_turn turn event then event ∷ rest else rest

abbrev pub places : ℕ → ℕ → List Members → List ℕ
places turn seq [] = []
places turn seq (event ∷ events) =
    let rest = places turn (suc seq) events in if has_turn turn event then seq ∷ rest else rest

abbrev pub or_empty {ℓ} : {A : Type ℓ} → Option (List A) → List A
or_empty none = []
or_empty (some xs) = xs

add_event-at_turn :
    (t turn : ℕ) (event : Members) (grouped : ByTurn (List Members))
    → or_empty (at_turn t (add_event turn event grouped)) ≡ (
        if turn == t
        then or_empty (at_turn t grouped) ++ event ∷ []
        else or_empty (at_turn t grouped))
unfolding add_event at_turn
add_event-at_turn t turn event [] = ground arith
add_event-at_turn t turn event ((t', events) ∷ rest) =
    ground (arith, add_event-at_turn t turn event rest)

-- What a step of the loop over the events has tested.
event_turn-ok :
    (seq : ℕ) (event : Members) (turn : Option ℕ)
    → event_turn seq event ≡ ok turn
    → (natural (find_member (codes "seq") event) ≡ ok seq)
      × (turn_of (find_member (codes "turn") event) ≡ ok turn)
unfolding event_turn
event_turn-ok seq event turn e =
    let (s, found, rest) = >>=-ok (natural (find_member (codes "seq") event)) _ (turn) e in
    let (same, typed) = raise_if-ok (not (s == seq)) projection_error _ turn rest in
    let given = is_str (find_member (codes "type") event) in
    (found ∙ ap ok (ground arith), (raise_if-ok (not given) projection_error _ turn typed).1)

keep_event-own :
    (t : ℕ) (turn : Option ℕ) (event : Members) (events : List Members)
    (grouped : ByTurn (List Members))
    → turn_of (find_member (codes "turn") event) ≡ ok turn
    → or_empty (at_turn t (keep_event turn event grouped)) ++ own_events t events
      ≡ or_empty (at_turn t grouped) ++ own_events t (event ∷ events)
unfolding keep_event
keep_event-own t none event events grouped h = rw h refl
keep_event-own t (some turn) event events grouped h = elim (Bool-cases (turn == t)) [
  | inl e ↦
      rw (h, add_event-at_turn t turn event grouped, e)
        (append_assoc (or_empty (at_turn t grouped)) (event ∷ []) (own_events t events))
  | inr e ↦ rw (h, add_event-at_turn t turn event grouped, e) refl
]

field_numbers-own :
    (t seq : ℕ) (event : Members) (events : List Members)
    → natural (find_member (codes "seq") event) ≡ ok seq
    → field_numbers (codes "seq") (own_events t events) ≡ ok (places t (suc seq) events)
    → field_numbers (codes "seq") (own_events t (event ∷ events))
      ≡ ok (places t seq (event ∷ events))
unfolding field_numbers ◌>>=◌
field_numbers-own t seq event events h k = elim (Bool-cases (has_turn t event)) [
  | inl e ↦ rw (e, h, k) refl
  | inr e ↦ rw e k
]

-- The loop collects, for each turn, its events in their order; they carry their places.
pub events_by_turn-own :
    (t seq : ℕ) (events : List Members) (grouped out : ByTurn (List Members))
    → events_by_turn seq events grouped ≡ ok out
    → (or_empty (at_turn t out) ≡ or_empty (at_turn t grouped) ++ own_events t events)
      × (field_numbers (codes "seq") (own_events t events) ≡ ok (places t seq events))
unfolding events_by_turn field_numbers
events_by_turn-own t seq [] grouped out e = (rw (← ok-injective e) (sym (append-nil _)), refl)
events_by_turn-own t seq (event ∷ events) grouped out e =
    let (turn, tested, rest) = >>=-ok (event_turn seq event) _ out e in
    let (numbered, turned) = event_turn-ok seq event turn tested in
    let (collected, placed) = events_by_turn-own t (suc seq) events _ out rest in
    (
      collected ∙ keep_event-own t turn event events grouped turned,
      field_numbers-own t seq event events numbered placed,
    )

-- `k in xs`
abbrev pub has_number : ℕ → List ℕ → Bool
has_number k [] = false
has_number k (x ∷ xs) = x == k || has_number k xs

is_range-has_number :
    (start k : ℕ) (xs : List ℕ)
    → is_range start xs ≡ true
    → has_number k xs ≡ (leb start k && ltb k (start + length xs))
unfolding is_range
is_range-has_number start k [] h = ground arith
is_range-has_number start k (x ∷ xs) h =
    ground (arith, is_range-has_number (suc start) k xs (ground arith))

is_range-last_of :
    (start x : ℕ) (xs : List ℕ)
    → is_range start (x ∷ xs) ≡ true
    → last_of (x ∷ xs) ≡ some (start + length xs)
unfolding is_range last_of
is_range-last_of start x [] h = ground arith
is_range-last_of start x (y ∷ ys) h =
    is_range-last_of (suc start) y ys (ground arith) ∙ ap some (omega arith)

-- The places from `seq` on are not before it, and say which events have the turn.
places-before :
    (t seq k : ℕ) (events : List Members) → k < seq → has_number k (places t seq events) ≡ false
places-before t seq k [] h = refl
places-before t seq k (event ∷ events) h =
    ground (arith, places-before t (suc seq) k events (omega arith))

pub places-has_number :
    (t seq i : ℕ) (events : List Members) (event : Members)
    → get_elem? events i ≡ some event
    → has_number (seq + i) (places t seq events) ≡ has_turn t event
places-has_number t seq i [] event e = cc
places-has_number t seq zero (first ∷ events) event e =
    let same = some-injective first event e in
    rw (← same) (ground (arith, places-before t (suc seq) (seq + 0) events (omega arith)))
places-has_number t seq (suc i) (first ∷ events) event e =
    let rest = places-has_number t (suc seq) i events event e in
    let moved : has_number (seq + suc i) (places t (suc seq) events) ≡ has_turn t event =
      subst (λ k. has_number k (places t (suc seq) events) ≡ has_turn t event) (omega arith) rest in
    ground (arith, moved)

range_bounds :
    (start stop k : ℕ) (numbers : List ℕ)
    → is_range start numbers ≡ true
    → last_of numbers ≡ some stop
    → has_number k numbers ≡ (leb start k && leb k stop)
unfolding last_of
range_bounds start stop k [] h e = cc
range_bounds start stop k (x ∷ xs) h e =
    let last : start + length xs ≡ stop =
      some-injective _ _ (sym (is_range-last_of start x xs h) ∙ e) in
    let inside = is_range-has_number start k (x ∷ xs) h in ground (arith, last, inside)

-- The range that is read off the events of a turn is all of its places.
pub turn_range-places :
    (events : List Members) (numbers : List ℕ)
    → field_numbers (codes "seq") events ≡ ok numbers
    → Keeps (λ r. (k : ℕ) → has_number k numbers ≡ (leb r.1.0 k && leb k r.1.1)) (turn_range events)
unfolding turn_range
turn_range-places [] numbers h = record { holds = tt }
turn_range-places (event ∷ events) numbers h = Keeps-any (λ seqs read. Keeps-any (λ start started.
    Keeps-any (λ stop stopped. Keeps-any (λ u ranged. Keeps-any (λ u' typed. Keeps-ok (λ k.
      let same = ok-injective (sym h ∙ read) in
      let in_range = raise_if-passes (not (is_range start seqs)) projection_error u ranged in
      subst (λ ns. has_number k ns ≡ (leb start k && leb k stop)) (sym same)
        (range_bounds start stop k seqs (ground arith)
          (or_raise-some (last_of seqs) projection_error stop stopped))))))))
