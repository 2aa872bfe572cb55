-- ===== src/Recorder/Streams.antt =====
-- recorder/verify.py: the decisions, the links of the two streams, and the ledgers.
use wagmi_bench.Prelude.{
  ℕ, suc, ◌+◌, ◌*◌, ◌-◌, Bool, true, false, not, ◌&&◌, ◌||◌, ltb, leb, ◌==◌, if◌then◌else◌, Option,
  none, some, List, [], ◌∷◌, ◌++◌, length, take, Text, codes, text_eqb, Result, ok, err, Error,
  raise_if, or_raise, chain_error, bundle_error, ◌>>=◌, ◌>>◌,
}
use wagmi_bench.Prelude.Int.{ℤ, pos, ◌+ℤ◌, ◌-ℤ◌, eqb_ℤ}
use wagmi_bench.Prelude.Objects.{Value, bool, int, str, Members, find_member}
use wagmi_bench.Spec.Chain.{
  Bytes, StreamName, events, decisions, stream_text, ChainLink, verify_chain,
}
use wagmi_bench.Recorder.Bundle.{
  Bundle, unplaced, forbid, JsonlRead, exists, read_document, read_jsonl,
}

-- `value == n` of Python, where `True` is 1 and `False` is 0.
unfoldable pub equals_number : Option Value → ℕ → Bool
equals_number (some (int (pos m))) n = m == n
equals_number (some (bool true)) n = n == 1
equals_number (some (bool false)) n = n == 0
equals_number other n = false

-- `isinstance(value, str)`, and an integer from zero up.
unfoldable pub text_value : Option Value → Option Text
text_value (some (str text)) = some text
text_value other = none

unfoldable pub count_value : Option Value → Option ℕ
count_value (some (int (pos n))) = some n
count_value other = none

abbrev is_same : Option Text → Text → Bool
is_same none text = false
is_same (some value) text = text_eqb value text

unfoldable pub equals_text : Option Value → Text → Bool
equals_text value text = is_same (text_value value) text

abbrev pub text_or : Error → Option Value → Result Text
text_or raised value = or_raise (text_value value) raised

abbrev pub is_decimal : ℕ → Bool
is_decimal c = leb 48 c && leb c 57

-- `_DECISION_NAME`: four digits and `.json`.
unfoldable pub numbered_name : Text → Option ℕ
numbered_name (a ∷ b ∷ c ∷ d ∷ rest) =
    if (is_decimal a && is_decimal b)
      && (is_decimal c && is_decimal d)
      && text_eqb rest (codes ".json")
    then some (((a - 48) * 10 + (b - 48)) * 100 + ((c - 48) * 10 + (d - 48)))
    else none
numbered_name other = none

-- The files of a directory that are looked at: without the hidden ones, unless sealed.
unfoldable pub visible : Bool → List Text → List Text
visible sealed [] = []
visible sealed (name ∷ names) =
    let rest = visible sealed names in
    if sealed || not (elim name [ [] ↦ false | c ∷ others ↦ c == 46 ]) then name ∷ rest else rest

-- The links of each stream, in the order of the file.
pub record Links : Type 0 where
  pub of_events : List ChainLink
  pub of_decisions : List ChainLink

abbrev pub links_of : Links → StreamName → List ChainLink
links_of links events = links.of_events
links_of links decisions = links.of_decisions

-- A link that fits the schema `chain_link`, by its fields.
unfoldable pub link_fields :
    Option Value → Option Value → Option Value → Option Value → Option Value → Option ChainLink
link_fields (some (str schema)) (some (str stream)) (some (int seq)) (some (str record_hash))
      (some (str link)) =
    some (record {
      schema = schema;
      stream = stream;
      seq = seq;
      record_sha256 = record_hash;
      link_sha256 = link;
    })
link_fields a b c d e = none

unfoldable pub link_of : Members → Option ChainLink
link_of value =
    link_fields (find_member (codes "schema") value) (find_member (codes "stream") value)
      (find_member (codes "seq") value) (find_member (codes "record_sha256") value)
      (find_member (codes "link_sha256") value)

-- What a sealed head says: its genesis, its head and its count.
pub record SealedHead : Type 0 where
  pub genesis : Option Value
  pub head : Option Value
  pub count : Option Value

module _ (loads : Text → Option Value) (valid : Text → Members → Bool) where
  -- The loop of `_read_decisions`, with the stored bytes of each.
  unfoldable pub read_decisions_from : Bundle → ℕ → List Text → Result (List (Members × Bytes))
  read_decisions_from bundle expected [] = ok []
  read_decisions_from bundle expected (name ∷ names) = do
    let misplaced = bundle_error (some (codes "decisions")) (some expected)
    number ← or_raise (numbered_name name) misplaced
    raise_if (not (number == expected)) misplaced
    (value, raw) ←
        read_document loads valid bundle (codes "decisions/" ++ name) (codes "decision_record")
          forbid
    raise_if (not (equals_number (find_member (codes "turn") value) expected)) misplaced
    rest ← read_decisions_from bundle (suc expected) names
    ok ((value, raw) ∷ rest)

  -- `_read_decisions`
  unfoldable pub read_decisions : Bundle → Bool → Result (List (Members × Bytes))
  read_decisions bundle sealed = do
    raise_if (not (bundle.is_safe (codes "decisions"))) unplaced
    read_decisions_from bundle 0 (visible sealed (bundle.names (codes "decisions")))

  -- `_stream_links`, from a line on; a link has no stream in its failure.
  unfoldable pub stream_links : ℕ → List Members → Result Links
  stream_links line [] = ok (record { of_events = []; of_decisions = [] })
  stream_links line (value ∷ values) = do
    let misplaced = bundle_error none (some line)
    raise_if (not (valid (codes "chain_link") value)) misplaced
    link ← or_raise (link_of value) misplaced
    let to_events = text_eqb link.stream (codes "events")
    raise_if (not (to_events || text_eqb link.stream (codes "decisions"))) misplaced
    rest ← stream_links (suc line) values
    ok (
        if to_events
        then record rest { of_events = link ∷ rest.of_events }
        else record rest { of_decisions = link ∷ rest.of_decisions })

  -- The test of a ledger row, against the NAV of the row before.
  unfoldable pub row_int : Members → ℕ → Text → Result ℤ
  row_int row index field = elim (find_member field row) [
    | some (int n) ↦ ok n
    | _ ↦ err (bundle_error none (some index))
  ]

  abbrev follows : Option ℤ → ℤ → ℤ → Bool
  follows none nav delta = true
  follows (some previous) nav delta = eqb_ℤ (nav -ℤ previous) delta

  unfoldable pub check_ledger_row : Text → ℕ → Option ℤ → Members → Result ℤ
  check_ledger_row profile index previous row = do
    let misplaced = bundle_error none (some index)
    raise_if (not (equals_text (find_member (codes "profile") row) profile)) misplaced
    d_nav ← row_int row index (codes "d_nav_micro")
    d_price ← row_int row index (codes "d_price_pnl_micro")
    d_funding ← row_int row index (codes "d_funding_micro")
    d_fees ← row_int row index (codes "d_fees_micro")
    d_penalty ← row_int row index (codes "d_liq_penalty_micro")
    nav ← row_int row index (codes "nav_micro")
    raise_if (not (eqb_ℤ d_nav (d_price +ℤ d_funding +ℤ d_fees +ℤ d_penalty))) misplaced
    raise_if (not (follows previous nav d_nav)) misplaced
    ok nav

  unfoldable pub check_ledger : Text → ℕ → Option ℤ → List Members → Result (Unit {0})
  check_ledger profile index previous [] = ok tt
  check_ledger profile index previous (row ∷ rows) = do
    nav ← check_ledger_row profile index previous row
    check_ledger profile (suc index) (some nav) rows

  -- `_ledger_rows`; without a seal the file may be missing.
  unfoldable pub ledger_file : Bundle → Text → Text → Bool → Result (Option JsonlRead)
  ledger_file bundle relative profile sealed =
      if not (exists bundle relative) then (if sealed then err unplaced else ok none) else (do
        rows ← read_jsonl loads valid bundle relative (some (codes "ledger_row")) sealed none
        check_ledger profile 0 none rows.objects
        ok (some rows))

-- `ChainVerificationError` of a stream; any other error of the chain names no stream.
abbrev pub placed : StreamName → Error → Error
placed stream (chain_error seq) = bundle_error (some (stream_text stream)) (some seq)
placed stream other = unplaced

unfoldable pub place_error {ℓ} : {A : Type ℓ} → StreamName → Result A → Result A
place_error stream (ok a) = ok a
place_error stream (err e) = err (placed stream e)

module _ (hexdigest : Bytes → Text) where
  -- `_verify_stream`: without a seal one record may lack its link. The schema of a seal allows no
  -- negative count.
  unfoldable pub verify_stream :
      StreamName → Text → List Bytes → List ChainLink → Option SealedHead → Result Text
  verify_stream stream genesis records links none = do
    let named = some (stream_text stream)
    raise_if (ltb (length records) (length links)) (bundle_error named (some (length records)))
    raise_if (ltb 1 (length records - length links)) (bundle_error named (some (length links)))
    place_error stream
        (verify_chain hexdigest stream genesis (take (length links) records) links none none)
  verify_stream stream genesis records links (some sealed) = do
    let named = bundle_error (some (stream_text stream)) none
    raise_if (not (equals_text sealed.genesis genesis)) named
    head ← text_or named sealed.head
    count ← or_raise (count_value sealed.count) named
    place_error stream
        (verify_chain hexdigest stream genesis records links (some head) (some count))
