-- ===== src/Recorder/Verdict.antt =====
-- recorder/verify.py, `verify_bundle`: the three-valued verdict on the stored bytes of a bundle.
use wagmi_bench.Prelude.{
  ℕ, ◌-◌, Bool, true, false, not, if◌then◌else◌, Option, none, some, List, [], ◌∷◌, length, take,
  Text, codes, text_eqb, Result, ok, err, Error, raise_if, or_raise, bundle_error, ◌>>=◌, ◌>>◌,
}
use wagmi_bench.Prelude.Int.{ℤ}
use wagmi_bench.Prelude.Objects.{Value, Members, members_list, find_member}
use wagmi_bench.Spec.Chain.{Bytes, sha256_prefixed}
use wagmi_bench.Recorder.Bundle.{Bundle, unplaced}
use wagmi_bench.Recorder.Streams.{equals_text, Links}
use wagmi_bench.Recorder.Blobs.{verify_blobs}
use wagmi_bench.Recorder.Verify.{
  complete, truncated, corrupt, VerificationResult, Identity, Streams, BundleAccounts, sealed_files,
  object_member, last_event, verify_decision_projection, same_keys, counts, before,
}
use wagmi_bench.Recorder.Phases.{
  read_identity, read_seal, read_streams, verify_streams, read_accounts,
}

-- The stream and the sequence number of a failure move the last good entry of the stream.
unfoldable pub last_good : Text → ℤ → Error → ℤ
last_good stream known (bundle_error (some named) (some seq)) =
    if text_eqb named stream then before seq else known
last_good stream known other = known

-- The result of a failure, with the root and the links that were known by then.
unfoldable pub failed_result : Option Text → Links → Error → VerificationResult
failed_result root links e = record {
  verdict = corrupt;
  root = root;
  last_good_event = last_good (codes "events") (before (length links.of_events)) e;
  last_good_decision = last_good (codes "decisions") (before (length links.of_decisions)) e;
}

abbrev pub no_links : Links
no_links = record { of_events = []; of_decisions = [] }

abbrev pub root_of : Option (Members × Text) → Option Text
root_of none = none
root_of (some (seal, root)) = some root

abbrev pub seal_of : Option (Members × Text) → Option Members
seal_of none = none
seal_of (some (seal, root)) = some seal

abbrev pub has_seal : Option (Members × Text) → Bool
has_seal none = false
has_seal (some seal) = true

abbrev pub named_root : Option Members → Option (Option Value)
named_root none = none
named_root (some seal) = some (find_member (codes "root") seal)

module _ (hexdigest : Bytes → Text) (loads : Text → Option Value)
    (valid : Text → Members → Bool) where
  -- The loop over the files of the seal.
  unfoldable pub check_files : Bundle → Members → List Text → Result (Unit {0})
  check_files bundle files [] = ok tt
  check_files bundle files (relative ∷ rest) = do
    raw ← or_raise (bundle.file relative) unplaced
    raise_if (not (equals_text (find_member relative files) (sha256_prefixed hexdigest raw)))
        unplaced
    check_files bundle files rest

  -- `_verify_seal_files`
  unfoldable pub verify_seal_files : Bundle → Members → Result (Unit {0})
  verify_seal_files bundle seal = do
    files ← object_member seal (codes "files") unplaced
    raise_if (not (same_keys (members_list files) sealed_files)) unplaced
    check_files bundle files sealed_files

  -- What only a sealed bundle has to pass, once its blobs are counted.
  unfoldable pub verify_sealed :
      Bundle → Members → Identity → Streams → BundleAccounts → ℕ × (ℕ × ℕ) → Result (Unit {0})
  verify_sealed bundle seal identity streams accounts counted = do
    let stream = streams.event_lines.objects
    let misplaced = bundle_error (some (codes "events")) (some (length stream - 1))
    final ← or_raise (last_event stream) misplaced
    raise_if (not (equals_text (find_member (codes "type") final) (codes "EpisodeEnd"))) misplaced
    metrics ← or_raise accounts.metrics unplaced
    payload ← object_member final (codes "payload") misplaced
    raise_if
        (not (
          equals_text (find_member (codes "metrics_sha256") payload)
            (sha256_prefixed hexdigest metrics)))
        misplaced
    primary ← or_raise accounts.primary unplaced
    verify_decision_projection stream streams.stored_decisions primary.objects identity.run_id
    verify_seal_files bundle seal
    blobs ← object_member seal (codes "blobs") unplaced
    raise_if (not (counts (find_member (codes "observations") blobs) counted.0)) unplaced
    raise_if (not (counts (find_member (codes "raw") blobs) counted.1.0)) unplaced
    ok tt

  -- The end of `verify_bundle`, for a sealed bundle and for another.
  unfoldable pub verify_end :
      Bundle
      → Option (Members × Text)
      → Identity
      → Streams
      → BundleAccounts
      → ℕ × (ℕ × ℕ)
      → Result VerificationResult
  verify_end bundle none identity streams accounts counted = ok (record {
    verdict = truncated;
    root = none;
    last_good_event = before (length streams.links.of_events);
    last_good_decision = before (length streams.links.of_decisions);
  })
  verify_end bundle (some (seal, root)) identity streams accounts counted = do
    verify_sealed bundle seal identity streams accounts counted
    ok (record {
      verdict = complete;
      root = some root;
      last_good_event = before (length streams.event_lines.objects);
      last_good_decision = before (length streams.stored_decisions);
    })

  -- What follows once the links are known.
  unfoldable pub verify_contents :
      Bundle → Option (Members × Text) → Identity → Streams → Result VerificationResult
  verify_contents bundle seal identity streams = do
    verify_streams hexdigest loads valid (seal_of seal) identity streams
    accounts ← read_accounts hexdigest loads valid bundle (has_seal seal) identity.run_id
    let committed = take (length streams.links.of_events) streams.event_lines.objects
    counted ←
        verify_blobs hexdigest loads valid bundle committed (named_root (seal_of seal))
          identity.run_id
    verify_end bundle seal identity streams accounts counted

  abbrev pub or_failed : Option Text → Links → Result VerificationResult → VerificationResult
  or_failed root links (ok result) = result
  or_failed root links (err e) = failed_result root links e

  -- Each part with what its failure may tell.
  unfoldable pub verify_from_streams :
      Bundle → Identity → Option (Members × Text) → Result Streams → VerificationResult
  verify_from_streams bundle identity seal (err e) = failed_result (root_of seal) no_links e
  verify_from_streams bundle identity seal (ok streams) =
      or_failed (root_of seal) streams.links (verify_contents bundle seal identity streams)

  unfoldable pub verify_from_seal :
      Bundle → Identity → Result (Option (Members × Text)) → VerificationResult
  verify_from_seal bundle identity (err e) = failed_result none no_links e
  verify_from_seal bundle identity (ok seal) =
      verify_from_streams bundle identity seal
        (read_streams hexdigest loads valid bundle (has_seal seal))

  unfoldable pub verify_from_identity : Bundle → Result Identity → VerificationResult
  verify_from_identity bundle (err e) = failed_result none no_links e
  verify_from_identity bundle (ok identity) =
      verify_from_seal bundle identity (read_seal hexdigest loads valid bundle identity.run_id)

  -- `verify_bundle`
  unfoldable pub verify_bundle : Bundle → VerificationResult
  verify_bundle bundle =
      if not bundle.is_directory
      then failed_result none no_links unplaced
      else verify_from_identity bundle (read_identity hexdigest loads valid bundle)
