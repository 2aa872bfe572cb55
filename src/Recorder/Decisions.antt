-- ===== src/Recorder/Decisions.antt =====
-- recorder/decisions.py: one record for each turn, copied from the events and the primary ledger.
pub mod Records
pub mod Places
pub mod Ranges
use wagmi_bench.Prelude.{
  ℕ, zero, suc, ◌+◌, ◌-◌, Bool, true, false, not, ◌&&◌, ◌||◌, leb, ◌==◌, if◌then◌else◌, Option,
  none, some, List, [], ◌∷◌, ◌++◌, map, length, sort_by, Text, codes, text_eqb, Result, ok, err,
  raise_if, or_raise, projection_error, ◌>>=◌, ◌>>◌,
}
use wagmi_bench.Prelude.Int.{ℤ, pos, negsuc, pos_part, ltb_ℤ, eqb_ℤ}
use wagmi_bench.Prelude.Objects.{
  Value, null, bool, int, float, str, array, object, Values, nil, item, Members, empty, member,
  dict, find_member,
}
use wagmi_bench.Spec.Chain.{strip_prefix, all_lower_hex, is_lower_hex}

-- `_integer`
unfoldable pub integer : Option Value → ℤ → Result ℤ
integer (some (int n)) minimum = if ltb_ℤ n minimum then err projection_error else ok n
integer other minimum = err projection_error

-- An integer from zero up.
unfoldable pub natural : Option Value → Result ℕ
natural value = do n ← integer value (pos 0); ok (pos_part n)

-- `_payload`
unfoldable pub payload_of : Members → Result Members
payload_of event = elim (find_member (codes "payload") event) [
  | some (object members) ↦ ok members
  | _ ↦ err projection_error
]

-- `event.get(key) == text`
unfoldable pub is_type : Text → Option Value → Bool
is_type text (some (str value)) = text_eqb value text
is_type text other = false

-- `_typed_payloads`
unfoldable pub typed_payloads : List Members → Text → Result (List Members)
typed_payloads [] event_type = ok []
typed_payloads (event ∷ events) event_type =
    let rest = typed_payloads events event_type in
    if is_type event_type (find_member (codes "type") event)
    then (do first ← payload_of event; others ← rest; ok (first ∷ others))
    else rest

-- `_one`
unfoldable pub one : List Members → Result Members
one (only ∷ []) = ok only
one other = err projection_error

-- `_zero_or_one`
unfoldable pub zero_or_one : List Members → Result (Option Members)
zero_or_one [] = ok none
zero_or_one (only ∷ []) = ok (some only)
zero_or_one (first ∷ second ∷ rest) = err projection_error

-- `_ACCOUNT_FIELDS`
abbrev pub account_fields : List Text
account_fields =
    codes "nav_micro"
    ∷ codes "cash_micro"
    ∷ codes "realized_pnl_micro"
    ∷ codes "d_nav_micro"
    ∷ codes "d_price_pnl_micro"
    ∷ codes "d_funding_micro"
    ∷ codes "d_fees_micro"
    ∷ codes "d_liq_penalty_micro"
    ∷ []

unfoldable pub copy_fields : Members → List Text → Result (List (Text × Value))
copy_fields row [] = ok []
copy_fields row (field ∷ fields) = do
  n ← integer (find_member field row) (negsuc 9_007_199_254_740_990)
  rest ← copy_fields row fields
  ok ((field, int n) ∷ rest)

-- `_account_after`
unfoldable pub account_after : Members → Result (List (Text × Value))
account_after row = copy_fields row account_fields

-- `_RUN_ID`
unfoldable pub is_run_id : Text → Bool
is_run_id run_id = elim (strip_prefix (codes "run_") run_id) [
  | none ↦ false
  | some digits ↦ length digits == 16 && all_lower_hex digits
]

-- A `dict` from turns.
abbrev pub ByTurn {ℓ} : Type ℓ → Type ℓ
ByTurn A = List (ℕ × A)

-- `events_by_turn.setdefault(turn, []).append(event)`
unfoldable pub add_event : ℕ → Members → ByTurn (List Members) → ByTurn (List Members)
add_event turn event [] = (turn, event ∷ []) ∷ []
add_event turn event ((t, events) ∷ rest) =
    let others = add_event turn event rest in
    if t == turn then (t, events ++ event ∷ []) ∷ rest else (t, events) ∷ others

unfoldable pub at_turn {ℓ} : {A : Type ℓ} → ℕ → ByTurn A → Option A
at_turn turn [] = none
at_turn turn ((t, a) ∷ rest) = let other = at_turn turn rest in if t == turn then some a else other

-- The turn of an event or a row: `None` is no turn.
unfoldable pub turn_of : Option Value → Result (Option ℕ)
turn_of none = ok none
turn_of (some null) = ok none
turn_of (some value) = do turn ← natural (some value); ok (some turn)

unfoldable pub is_str : Option Value → Bool
is_str (some (str text)) = true
is_str other = false

-- The turn of an event of the stream at a sequence number.
unfoldable pub event_turn : ℕ → Members → Result (Option ℕ)
event_turn expected_seq event = do
  seq ← natural (find_member (codes "seq") event)
  raise_if (not (seq == expected_seq)) projection_error
  raise_if (not (is_str (find_member (codes "type") event))) projection_error
  turn_of (find_member (codes "turn") event)

unfoldable pub keep_event : Option ℕ → Members → ByTurn (List Members) → ByTurn (List Members)
keep_event none event grouped = grouped
keep_event (some turn) event grouped = add_event turn event grouped

-- The loop over the events.
unfoldable pub events_by_turn :
    ℕ → List Members → ByTurn (List Members) → Result (ByTurn (List Members))
events_by_turn seq [] grouped = ok grouped
events_by_turn seq (event ∷ events) grouped = do
  turn ← event_turn seq event
  events_by_turn (suc seq) events (keep_event turn event grouped)

-- `xs == list(range(start, start + len(xs)))`
unfoldable pub is_range : ℕ → List ℕ → Bool
is_range start [] = true
is_range start (x ∷ xs) = x == start && is_range (suc start) xs

unfoldable pub is_given {ℓ} : {A : Type ℓ} → Option A → Bool
is_given none = false
is_given (some a) = true

-- The loop over the rows of the ledger.
unfoldable pub rows_by_turn : List Members → ByTurn Members → Result (ByTurn Members)
rows_by_turn [] rows = ok rows
rows_by_turn (row ∷ rest) rows =
    raise_if (not (is_type (codes "primary") (find_member (codes "profile") row))) projection_error
    >> (turn_of (find_member (codes "turn") row) >>= λ turn. elim turn [
      | none ↦ rows_by_turn rest rows
      | some t ↦
          raise_if (is_given (at_turn t rows)) projection_error
          >> rows_by_turn rest (rows ++ (t, row) ∷ [])
    ])

abbrev pub turns_of {ℓ} : {A : Type ℓ} → ByTurn A → List ℕ
turns_of entries = map (λ e. e.0) entries

-- Every key of the first is one of the second.
unfoldable pub covers_turns {ℓ κ} : {A : Type ℓ} {B : Type κ} → ByTurn A → ByTurn B → Bool
covers_turns [] b = true
covers_turns ((t, x) ∷ rest) b = is_given (at_turn t b) && covers_turns rest b
