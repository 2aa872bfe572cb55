-- ===== src/Recorder/Bundle.antt =====
-- recorder/verify.py, how the stored bytes of a bundle are read. The directory is a record of what the
-- file system answers; `json.loads` with the hooks of the source and the JSON schemas are parameters.
use wagmi_bench.Prelude.{
  ℕ, suc, Bool, true, false, not, ◌&&◌, ◌==◌, if◌then◌else◌, Option, none, some, List, [], ◌∷◌,
  length, Text, text_eqb, Result, ok, err, raise_if, or_raise, bundle_error, Error, ◌>>=◌, ◌>>◌,
}
use wagmi_bench.Prelude.Objects.{Value, object, Members}
use wagmi_bench.Spec.Canonical.{canonical_bytes}
use wagmi_bench.Spec.Chain.{Bytes}
use wagmi_bench.Core.Action.Utf8.{utf8_decode}

-- A bundle directory. `is_safe` is the test of `_safe_bundle_path`: a relative path without `..` that
-- meets no symbolic link and stays inside. A path is a regular file or is not there. `names` lists a directory in the order of its paths.
pub record Bundle : Type 0 where
  pub is_directory : Bool
  pub is_safe : Text → Bool
  pub has_directory : Text → Bool
  pub names : Text → List Text
  pub file : Text → Option Bytes

-- A failure that names no stream.
abbrev pub unplaced : Error
unplaced = bundle_error none none

-- `_VerificationFailure` in place of what a call raises.
unfoldable pub or_failure {ℓ} : {A : Type ℓ} → Result A → Error → Result A
or_failure (ok a) raised = ok a
or_failure (err e) raised = err raised

abbrev is_present {ℓ} : {A : Type ℓ} → Option A → Bool
is_present none = false
is_present (some a) = true

-- `(root / relative).exists()`
abbrev pub exists : Bundle → Text → Bool
exists bundle relative = is_present (bundle.file relative)

-- The bytes of a document without its newline.
pub data Newline : Type 0 where
  forbid require optional : Newline

-- `raw[:-1]`, if raw ends with a newline.
unfoldable pub strip_newline : Bytes → Option Bytes
strip_newline [] = none
strip_newline (b ∷ []) = if b == 10 then some [] else none
strip_newline (b ∷ c ∷ rest) =
    let stripped = strip_newline (c ∷ rest) in
    elim stripped [ none ↦ none | some bytes ↦ some (b ∷ bytes) ]

unfoldable pub ends_with_newline : Bytes → Bool
ends_with_newline bytes = is_present (strip_newline bytes)

unfoldable pub logical_bytes : Newline → Bytes → Result Bytes
logical_bytes forbid raw = if ends_with_newline raw then err unplaced else ok raw
logical_bytes require raw = elim (strip_newline raw) [
  | none ↦ err unplaced
  | some logical ↦ if ends_with_newline logical then err unplaced else ok logical
]
logical_bytes optional raw = elim (strip_newline raw) [
  | none ↦ ok raw
  | some logical ↦ if ends_with_newline logical then err unplaced else ok logical
]

-- `raw.split(b"\n")`: the complete lines, and the last piece.
unfoldable pub split_lines : Bytes → List Bytes × Bytes
split_lines [] = ([], [])
split_lines (b ∷ rest) =
    let (lines, tail) = split_lines rest in
    if b == 10
    then ([] ∷ lines, tail)
    else elim lines [ [] ↦ ([], b ∷ tail) | line ∷ others ↦ ((b ∷ line) ∷ others, tail) ]

-- `_JsonlRead`
pub record JsonlRead : Type 0 where
  pub objects : List Members
  pub records : List Bytes
  pub partial_tail : Bytes

module _ (loads : Text → Option Value) (valid : Text → Members → Bool) where
  -- `_object` of `_decode_json`
  unfoldable pub decode_object : Bytes → Option Members
  decode_object raw = elim (utf8_decode raw) [
    | none ↦ none
    | some text ↦ elim (loads text) [ some (object members) ↦ some members | _ ↦ none ]
  ]

  -- One stored document, which has to be its own canonical form and to fit its schema, if any. What
  -- does not decode is reported without a stream.
  unfoldable pub read_object : Bytes → Option Text → Error → Result Members
  read_object logical schema raised = do
    value ← or_raise (decode_object logical) unplaced
    expected ← or_failure (canonical_bytes (object value)) raised
    raise_if (not (text_eqb logical expected)) raised
    raise_if (elim schema [ none ↦ false | some name ↦ not (valid name value) ]) raised
    ok value

  -- `_read_document`, with the stored bytes
  unfoldable pub read_document : Bundle → Text → Text → Newline → Result (Members × Bytes)
  read_document bundle relative schema newline = do
    raise_if (not (bundle.is_safe relative)) unplaced
    raw ← or_raise (bundle.file relative) unplaced
    logical ← logical_bytes newline raw
    value ← read_object logical (some schema) unplaced
    ok (value, raw)

  -- The loop over the complete lines. A failure names the index of its line.
  unfoldable pub read_lines : Option Text → Option Text → ℕ → List Bytes → Result (List Members)
  read_lines schema stream index [] = ok []
  read_lines schema stream index (line ∷ lines) = do
    raise_if (elim line [ [] ↦ true | _ ↦ false ]) (bundle_error stream (some index))
    value ← read_object line schema (bundle_error stream (some index))
    values ← read_lines schema stream (suc index) lines
    ok (value ∷ values)

  -- `_read_jsonl`
  unfoldable pub read_jsonl : Bundle → Text → Option Text → Bool → Option Text → Result JsonlRead
  read_jsonl bundle relative schema sealed stream = do
    raise_if (not (bundle.is_safe relative)) unplaced
    raw ← or_raise (bundle.file relative) (bundle_error stream none)
    let (complete, partial) = split_lines raw
    raise_if (sealed && not (elim partial [ [] ↦ true | _ ↦ false ]))
        (bundle_error stream (some (length complete)))
    objects ← read_lines schema stream 0 complete
    ok (record { objects = objects; records = complete; partial_tail = partial })
