-- ===== src/Recorder/Verify.antt =====
-- recorder/verify.py: what `verify_bundle` passes between its parts, and its tests of decoded values.
use wagmi_bench.Prelude.{
  ℕ, suc, Bool, true, false, not, ◌&&◌, ltb, ◌==◌, if◌then◌else◌, Option, none, some, List, [], ◌∷◌,
  ◌++◌, map, length, Text, codes, text_eqb, Result, ok, err, Error, raise_if, bundle_error, ◌>>=◌,
  ◌>>◌,
}
use wagmi_bench.Prelude.Int.{ℤ, pos, ◌-ℤ◌}
use wagmi_bench.Prelude.Objects.{Value, object, Members, find_member}
use wagmi_bench.Spec.Canonical.{canonical_bytes}
use wagmi_bench.Spec.Chain.{Bytes}
use wagmi_bench.Recorder.Decisions.Records.{generate_decision_records}
use wagmi_bench.Recorder.Bundle.{Bundle, unplaced, or_failure, JsonlRead, exists}
use wagmi_bench.Recorder.Streams.{equals_number, text_or, Links, SealedHead}
use wagmi_bench.Recorder.Blobs.{has_name}

-- `Verdict`
pub data Verdict : Type 0 where
  complete truncated corrupt : Verdict

-- `VerificationResult`, without the message and the inventories. The last good sequence numbers are -1
-- in a stream that has none.
pub record VerificationResult : Type 0 where
  pub verdict : Verdict
  pub root : Option Text
  pub last_good_event : ℤ
  pub last_good_decision : ℤ

-- The identity of a bundle: what its two chains start from.
pub record Identity : Type 0 where
  pub run_id : Text
  pub event_genesis : Text
  pub decision_genesis : Text

-- The streams as they are read, before they are checked.
pub record Streams : Type 0 where
  pub event_lines : JsonlRead
  pub stored_decisions : List (Members × Bytes)
  pub links : Links

-- The ledgers and the metrics; without a seal they may be missing.
pub record BundleAccounts : Type 0 where
  pub primary : Option JsonlRead
  pub stress : Option JsonlRead
  pub metrics : Option Bytes

-- `_SEALED_TOP_LEVEL` and `_SEALED_FILES`
abbrev sealed_top_level : List Text
sealed_top_level =
    codes "manifest.json"
    ∷ codes "agent_manifest.json"
    ∷ codes "observations"
    ∷ codes "raw"
    ∷ codes "events.jsonl"
    ∷ codes "chain.jsonl"
    ∷ codes "decisions"
    ∷ codes "ledger.jsonl"
    ∷ codes "ledger_stress_2x.jsonl"
    ∷ codes "metrics.json"
    ∷ codes "chain.json"
    ∷ []

abbrev pub sealed_files : List Text
sealed_files =
    codes "agent_manifest.json"
    ∷ codes "chain.jsonl"
    ∷ codes "ledger.jsonl"
    ∷ codes "ledger_stress_2x.jsonl"
    ∷ codes "manifest.json"
    ∷ codes "metrics.json"
    ∷ []

unfoldable pub all_named : List Text → List Text → Bool
all_named [] names = true
all_named (n ∷ rest) names = has_name n names && all_named rest names

-- `_verify_layout`
unfoldable pub verify_layout : Bundle → Bool → Result (Unit {0})
verify_layout bundle sealed = do
  raise_if
      (not (bundle.is_safe (codes "observations") && bundle.has_directory (codes "observations")))
      unplaced
  raise_if (not (bundle.is_safe (codes "raw") && bundle.has_directory (codes "raw"))) unplaced
  raise_if (not (bundle.is_safe (codes "decisions") && bundle.has_directory (codes "decisions")))
      unplaced
  let redacted = codes "redaction.json"
  let allowed =
      if exists bundle redacted then sealed_top_level ++ redacted ∷ [] else sealed_top_level
  let actual = bundle.names []
  raise_if (sealed && not (all_named actual allowed && all_named allowed actual)) unplaced
  ok tt

unfoldable pub text_member : Members → Text → Result Text
text_member members key = text_or unplaced (find_member key members)

unfoldable pub object_member : Members → Text → Error → Result Members
object_member members key raised = elim (find_member key members) [
  | some (object inner) ↦ ok inner
  | _ ↦ err raised
]

-- `_sealed_stream_head`
unfoldable pub sealed_stream_head : Members → Text → Result SealedHead
sealed_stream_head seal stream = do
  streams ← object_member seal (codes "streams") unplaced
  head ← object_member streams stream (bundle_error (some stream) none)
  ok (record {
    genesis = find_member (codes "genesis") head;
    head = find_member (codes "head") head;
    count = find_member (codes "count") head;
  })

-- The heads of the two streams, if the bundle is sealed.
unfoldable pub sealed_head : Option Members → Text → Result (Option SealedHead)
sealed_head none stream = ok none
sealed_head (some seal) stream = do head ← sealed_stream_head seal stream; ok (some head)

-- The last of a list, if any.
abbrev pub last_event : List Members → Option Members
last_event [] = none
last_event (x ∷ []) = some x
last_event (x ∷ y ∷ rest) = last_event (y ∷ rest)

-- The loop over the events: each has its index as `seq`.
unfoldable pub check_seqs : ℕ → List Members → Result (Unit {0})
check_seqs index [] = ok tt
check_seqs index (event ∷ rest) = do
  raise_if (not (equals_number (find_member (codes "seq") event) index))
      (bundle_error (some (codes "events")) (some index))
  check_seqs (suc index) rest

-- The loop over the stored decisions and the regenerated ones, which are as many.
unfoldable pub compare_decisions : ℕ → List Members → List (Members × Bytes) → Result (Unit {0})
compare_decisions seq [] [] = ok tt
compare_decisions seq (expected ∷ others) ((value, stored) ∷ rest) = do
  bytes ← or_failure (canonical_bytes (object expected)) unplaced
  raise_if (not (text_eqb bytes stored)) (bundle_error (some (codes "decisions")) (some seq))
  compare_decisions (suc seq) others rest
compare_decisions seq expected stored = err (bundle_error (some (codes "decisions")) (some seq))

abbrev pub fewer : ℕ → ℕ → ℕ
fewer a b = if ltb b a then b else a

-- `_verify_decision_projection`
unfoldable pub verify_decision_projection :
    List Members → List (Members × Bytes) → List Members → Text → Result (Unit {0})
verify_decision_projection stream stored ledger run_id = do
  regenerated ←
      or_failure (generate_decision_records stream ledger run_id)
        (bundle_error (some (codes "decisions")) none)
  raise_if (not (length regenerated == length stored))
      (bundle_error (some (codes "decisions")) (some (fewer (length regenerated) (length stored))))
  compare_decisions 0 regenerated stored

abbrev pub same_keys : List (Text × Value) → List Text → Bool
same_keys members names =
    all_named (map (λ m. m.0) members) names && all_named names (map (λ m. m.0) members)

-- `block.get("count") != n`
abbrev pub counts : Option Value → ℕ → Bool
counts (some (object block)) n = equals_number (find_member (codes "count") block) n
counts other n = false

-- `len(...) - 1`
abbrev pub before : ℕ → ℤ
before n = pos n -ℤ pos 1

-- `len(primary.objects) != len(stress.objects)`, if both are there.
abbrev pub same_rows : Option JsonlRead → Option JsonlRead → Bool
same_rows (some a) (some b) = length a.objects == length b.objects
same_rows a b = true
