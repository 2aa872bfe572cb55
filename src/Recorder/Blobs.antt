-- ===== src/Recorder/Blobs.antt =====
-- recorder/verify.py: the observations and raw replies that the events refer to, and the redactions.
use wagmi_bench.Prelude.{
  ℕ, suc, Bool, true, false, not, ◌&&◌, ◌||◌, ◌==◌, if◌then◌else◌, Option, none, some, List, [],
  ◌∷◌, ◌++◌, length, Text, codes, text_eqb, Result, ok, err, Error, raise_if, or_raise,
  bundle_error, ◌>>=◌, ◌>>◌,
}
use wagmi_bench.Prelude.Int.{ℤ, pos, negsuc, eqb_ℤ}
use wagmi_bench.Prelude.Objects.{Value, int, str, array, object, Members, find_member, values_list}
use wagmi_bench.Report.Format.{zero_padded}
use wagmi_bench.Spec.Chain.{Bytes, sha256_prefixed}
use wagmi_bench.Recorder.Bundle.{Bundle, unplaced, forbid, optional, exists, read_document}
use wagmi_bench.Recorder.Streams.{equals_text, text_or, is_decimal, visible}

-- A blob by its path, with its digest and a number: the turn of an observation, the bytes of a reply.
abbrev pub Blobs : Type 0
Blobs = List (Text × (Text × ℤ))

unfoldable pub find_blob : Text → Blobs → Option (Text × ℤ)
find_blob path [] = none
find_blob path ((p, blob) ∷ rest) =
    let other = find_blob path rest in if text_eqb p path then some blob else other

abbrev pub is_listed : Text → Blobs → Bool
is_listed path blobs = elim (find_blob path blobs) [ none ↦ false | some blob ↦ true ]

-- `f"{turn:04d}"`
unfoldable pub turn_digits : ℤ → Text
turn_digits (pos n) = zero_padded 4 n
turn_digits (negsuc n) = codes "-" ++ zero_padded 3 (suc n)

-- The parts between slashes that are not empty and not `.`, and the last of them: `Path(...).name`.
unfoldable pub last_part : Text → Text → Text → Text
last_part name current [] =
    if text_eqb current [] || text_eqb current (codes ".") then name else current
last_part name current (c ∷ rest) =
    let same = last_part name (current ++ c ∷ []) rest in
    let skip = last_part name [] rest in
    let next = last_part current [] rest in
    if c == 47
    then (if text_eqb current [] || text_eqb current (codes ".") then skip else next)
    else same

-- `_RAW_NAME`
unfoldable pub is_raw_name : Text → Bool
is_raw_name (a ∷ b ∷ c ∷ d ∷ rest) =
    ((is_decimal a && is_decimal b) && (is_decimal c && is_decimal d))
    && (text_eqb rest (codes "-a1.txt") || text_eqb rest (codes "-a2.txt"))
is_raw_name other = false

-- `relative.startswith("raw/")`
unfoldable pub starts_with : Text → Text → Bool
starts_with [] text = true
starts_with (p ∷ prefix) [] = false
starts_with (p ∷ prefix) (c ∷ text) = p == c && starts_with prefix text

-- The references so far.
pub record References : Type 0 where
  pub observations : Blobs
  pub raw : Blobs

abbrev misplaced_event : ℕ → Error
misplaced_event index = bundle_error (some (codes "events")) (some index)

-- A reference of an observation.
unfoldable pub observation_ref : ℕ → Option Value → Members → Blobs → Result Blobs
observation_ref index turn payload found = do
  number ← elim turn [ some (int n) ↦ ok n | _ ↦ err (misplaced_event index) ]
  let expected = codes "observations/" ++ turn_digits number ++ codes ".json"
  raise_if (not (equals_text (find_member (codes "observation_ref") payload) expected))
      (misplaced_event index)
  digest ← text_or (misplaced_event index) (find_member (codes "observation_sha256") payload)
  raise_if (is_listed expected found) (misplaced_event index)
  ok (found ++ (expected, (digest, number)) ∷ [])

-- A reference of a raw reply.
unfoldable pub raw_ref : ℕ → Members → Blobs → Result Blobs
raw_ref index payload found = do
  relative ← text_or (misplaced_event index) (find_member (codes "raw_ref") payload)
  raise_if (not (is_raw_name (last_part [] [] relative) && starts_with (codes "raw/") relative))
      (misplaced_event index)
  digest ← text_or (misplaced_event index) (find_member (codes "raw_sha256") payload)
  size ← elim (find_member (codes "raw_bytes") payload) [
    | some (int n) ↦ ok n
    | _ ↦ err (misplaced_event index)
  ]
  raise_if (is_listed relative found) (misplaced_event index)
  ok (found ++ (relative, (digest, size)) ∷ [])

-- What an event adds; a payload that is no object adds nothing.
unfoldable pub event_refs : ℕ → Members → Option Value → References → Result References
event_refs index event (some (object payload)) refs =
    if equals_text (find_member (codes "type") event) (codes "ObservationEmitted")
    then (do
      found ← observation_ref index (find_member (codes "turn") event) payload refs.observations
      ok (record refs { observations = found }))
    else if equals_text (find_member (codes "type") event) (codes "AgentResponded")
    then (do found ← raw_ref index payload refs.raw; ok (record refs { raw = found }))
    else ok refs
event_refs index event other refs = ok refs

unfoldable pub refs_from : ℕ → List Members → References → Result References
refs_from index [] refs = ok refs
refs_from index (event ∷ events) refs = do
  found ← event_refs index event (find_member (codes "payload") event) refs
  refs_from (suc index) events found

-- `_referenced_blobs`
unfoldable pub referenced_blobs : List Members → Result References
referenced_blobs events = refs_from 0 events (record { observations = []; raw = [] })

abbrev same_blob : Option (Text × ℤ) → Text → ℤ → Bool
same_blob none digest size = false
same_blob (some (d, n)) digest size = text_eqb d digest && eqb_ℤ n size

-- The loop over the removals.
unfoldable pub removals_from : Bundle → Blobs → ℕ → List Value → Blobs → Result Blobs
removals_from bundle raw index [] disclosed = ok disclosed
removals_from bundle raw index (removal ∷ removals) disclosed = do
  let misplaced = bundle_error none (some index)
  members ← elim removal [ object members ↦ ok members | _ ↦ err misplaced ]
  relative ← text_or misplaced (find_member (codes "path") members)
  digest ← text_or misplaced (find_member (codes "sha256") members)
  size ← elim (find_member (codes "bytes") members) [ some (int n) ↦ ok n | _ ↦ err misplaced ]
  raise_if (is_listed relative disclosed) misplaced
  raise_if (not (same_blob (find_blob relative raw) digest size)) misplaced
  raise_if (exists bundle relative) misplaced
  removals_from bundle raw (suc index) removals (disclosed ++ (relative, (digest, size)) ∷ [])

unfoldable pub has_name : Text → List Text → Bool
has_name n [] = false
has_name n (m ∷ names) = text_eqb m n || has_name n names

-- `set(names) <= set(others)`
unfoldable pub names_covered : List Text → List Text → Bool
names_covered [] others = true
names_covered (n ∷ names) others = has_name n others && names_covered names others

-- The mismatch of a store: a sealed one has exactly the files, another at least these.
abbrev pub is_mismatch : Bool → List Text → List Text → Bool
is_mismatch sealed actual expected =
    not (names_covered expected actual) || sealed && not (names_covered actual expected)

unfoldable pub paths_of : Blobs → List Text
paths_of [] = []
paths_of ((path, blob) ∷ rest) = path ∷ paths_of rest

-- `set(raw_refs) - set(disclosed)`
unfoldable pub undisclosed : Blobs → Blobs → List Text
undisclosed [] disclosed = []
undisclosed ((path, blob) ∷ rest) disclosed =
    let others = undisclosed rest disclosed in
    if is_listed path disclosed then others else path ∷ others

unfoldable pub under : Text → List Text → List Text
under directory [] = []
under directory (name ∷ names) = (directory ++ name) ∷ under directory names

abbrev is_sealed {ℓ} : {A : Type ℓ} → Option A → Bool
is_sealed none = false
is_sealed (some root) = true

-- `len(stored) != byte_count`
abbrev is_size : ℤ → ℕ → Bool
is_size (pos n) m = n == m
is_size (negsuc n) m = false

module _ (hexdigest : Bytes → Text) (loads : Text → Option Value)
    (valid : Text → Members → Bool) where
  -- `_redactions`; `seal` is the root of the seal, if any.
  unfoldable pub redactions : Bundle → Option (Option Value) → Text → Blobs → Result Blobs
  redactions bundle seal run_id raw =
      if not (exists bundle (codes "redaction.json")) then ok [] else (do
        root ← or_raise seal unplaced
        (redaction, stored) ←
            read_document loads valid bundle (codes "redaction.json") (codes "redaction") optional
        raise_if (not (equals_text (find_member (codes "run_id") redaction) run_id)) unplaced
        raise_if
            (not (elim root [
              | some (str text) ↦ equals_text (find_member (codes "parent_root") redaction) text
              | _ ↦ false
            ]))
            unplaced
        removals ← elim (find_member (codes "removals") redaction) [
          | some (array values) ↦ ok (values_list values)
          | _ ↦ err unplaced
        ]
        removals_from bundle raw 0 removals [])

  -- The loop over the observations.
  unfoldable pub check_observations : Bundle → Blobs → Result (Unit {0})
  check_observations bundle [] = ok tt
  check_observations bundle ((relative, (digest, turn)) ∷ rest) = do
    (document, raw) ← read_document loads valid bundle relative (codes "observation") forbid
    raise_if (not (text_eqb (sha256_prefixed hexdigest raw) digest)) unplaced
    check_observations bundle rest

  -- The loop over the raw replies: a missing one has to be disclosed.
  unfoldable pub check_raw : Bundle → Blobs → Blobs → Result (Unit {0})
  check_raw bundle disclosed [] = ok tt
  check_raw bundle disclosed ((relative, (digest, size)) ∷ rest) =
      raise_if (not (bundle.is_safe relative)) unplaced
      >> (elim (bundle.file relative) [
        | none ↦ raise_if (not (is_listed relative disclosed)) unplaced
        | some stored ↦
            raise_if (not (is_size size (length stored))) unplaced
            >> raise_if (not (text_eqb (sha256_prefixed hexdigest stored) digest)) unplaced
      ]
          >> check_raw bundle disclosed rest)

  -- `_verify_blobs`: the numbers of observations, raw replies and disclosed removals.
  unfoldable pub verify_blobs :
      Bundle → List Members → Option (Option Value) → Text → Result (ℕ × (ℕ × ℕ))
  verify_blobs bundle events seal run_id = do
    refs ← referenced_blobs events
    disclosed ← redactions bundle seal run_id refs.raw
    check_observations bundle refs.observations
    check_raw bundle disclosed refs.raw
    let sealed = is_sealed seal
    let observations =
        under (codes "observations/") (visible sealed (bundle.names (codes "observations")))
    let raw = under (codes "raw/") (visible sealed (bundle.names (codes "raw")))
    raise_if (is_mismatch sealed observations (paths_of refs.observations)) unplaced
    raise_if (is_mismatch sealed raw (undisclosed refs.raw disclosed)) unplaced
    ok (length refs.observations, (length refs.raw, length disclosed))
