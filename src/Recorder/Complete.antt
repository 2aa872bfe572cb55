-- ===== src/Recorder/Complete.antt =====
-- recorder/verify.py: the steps that a bundle has passed whose verdict is COMPLETE.
use wagmi_bench.Prelude.{
  ℕ, Bool, true, false, not, if◌then◌else◌, Option, none, some, Text, ◌≡◌, ◌≢◌, refl, sym, ap,
  Result, ok, err, >>=-ok, ok-injective,
}
use wagmi_bench.Prelude.Objects.{Value, Members}
use wagmi_bench.Spec.Chain.{Bytes}
use wagmi_bench.Recorder.Bundle.{Bundle, unplaced}
use wagmi_bench.Recorder.Streams.{Links}
use wagmi_bench.Recorder.Verify.{complete, VerificationResult, Identity, Streams, BundleAccounts}
use wagmi_bench.Recorder.Blobs.{verify_blobs}
use wagmi_bench.Recorder.Phases.{
  read_identity, read_seal, read_streams, verify_streams, read_accounts,
}
use wagmi_bench.Recorder.Verdict.{
  failed_result, no_links, root_of, has_seal, named_root, or_failed, verify_sealed, verify_end,
  verify_contents, verify_from_streams, verify_from_seal, verify_from_identity, verify_bundle,
}

module _ (hexdigest : Bytes → Text) (loads : Text → Option Value)
    (valid : Text → Members → Bool) where
  pub record Passed (bundle : Bundle) : Type 0 where
    pub identity : Identity
    pub seal : Members
    pub root : Text
    pub streams : Streams
    pub accounts : BundleAccounts
    pub identified : read_identity hexdigest loads valid bundle ≡ ok identity
    pub sealed : read_seal hexdigest loads valid bundle identity.run_id ≡ ok (some (seal, root))
    pub streamed : read_streams hexdigest loads valid bundle true ≡ ok streams
    pub chained : verify_streams hexdigest loads valid (some seal) identity streams ≡ ok tt
    pub accounted : read_accounts hexdigest loads valid bundle true identity.run_id ≡ ok accounts
    pub counted : ℕ × (ℕ × ℕ)
    pub ended :
        verify_sealed hexdigest loads valid bundle seal identity streams accounts counted ≡ ok tt

  or_failed-complete :
      (root : Option Text) (links : Links) (r : Result VerificationResult)
      → (or_failed hexdigest loads valid root links r).verdict ≡ complete
      → (result : VerificationResult) × (r ≡ ok result) × (result.verdict ≡ complete)
  unfolding failed_result
  or_failed-complete root links (ok result) c = (result, refl, c)
  or_failed-complete root links (err e) c = cc

  module _ (bundle : Bundle) (identity : Identity) where
    -- Only the end of a sealed bundle says COMPLETE.
    verify_end-unsealed :
        (streams : Streams) (accounts : BundleAccounts) (counted : ℕ × (ℕ × ℕ))
        (result : VerificationResult)
        → verify_end hexdigest loads valid bundle none identity streams accounts counted ≡ ok result
        → result.verdict ≢ complete
    unfolding verify_end
    verify_end-unsealed streams accounts counted result e h =
        let made = ap (λ r. r.verdict) (ok-injective e) in cc

    verify_end-sealed :
        (seal : Members) (root : Text) (streams : Streams) (accounts : BundleAccounts)
        (counted : ℕ × (ℕ × ℕ)) (result : VerificationResult)
        → verify_end hexdigest loads valid bundle
            (some (seal, root))
            identity
            streams
            accounts
            counted
          ≡ ok result
        → (verify_sealed hexdigest loads valid bundle seal identity streams accounts counted
            ≡ ok tt)
          × (result.root ≡ some root)
    unfolding verify_end
    verify_end-sealed seal root streams accounts counted result e =
        let (u, passed, made) =
          >>=-ok (verify_sealed hexdigest loads valid bundle seal identity streams accounts counted)
            _ result e in
        (passed, ap (λ r. r.root) (sym (ok-injective made)))

    verify_contents-Passed :
        (seal : Option (Members × Text)) (streams : Streams) (result : VerificationResult)
        → verify_contents hexdigest loads valid bundle seal identity streams ≡ ok result
        → result.verdict ≡ complete
        → read_identity hexdigest loads valid bundle ≡ ok identity
        → read_seal hexdigest loads valid bundle identity.run_id ≡ ok seal
        → read_streams hexdigest loads valid bundle (has_seal seal) ≡ ok streams
        → Passed bundle
    unfolding verify_contents
    verify_contents-Passed none streams result e c identified sealed streamed =
        let (u, chained, s) =
          >>=-ok (verify_streams hexdigest loads valid none identity streams) _ result e in
        let (accounts, read, t) =
          >>=-ok (read_accounts hexdigest loads valid bundle false identity.run_id) _ result s in
        let (counted, blobs, end) =
          >>=-ok (verify_blobs hexdigest loads valid bundle _ none identity.run_id) _ result t in
        absurd (verify_end-unsealed streams accounts counted result end c)
    verify_contents-Passed (some (seal, root)) streams result e c identified sealed streamed =
        let (u, chained, s) =
          >>=-ok (verify_streams hexdigest loads valid (some seal) identity streams) _ result e in
        let (accounts, read, t) =
          >>=-ok (read_accounts hexdigest loads valid bundle true identity.run_id) _ result s in
        let (counted, blobs, end) =
          >>=-ok
            (verify_blobs hexdigest loads valid bundle _ (named_root (some seal)) identity.run_id) _
            result t in
        let (ended, named) = verify_end-sealed seal root streams accounts counted result end in
        record {
          identity = identity;
          seal = seal;
          root = root;
          streams = streams;
          accounts = accounts;
          identified = identified;
          sealed = sealed;
          streamed = streamed;
          chained = chained;
          accounted = read;
          counted = counted;
          ended = ended;
        }

    verify_from_streams-Passed :
        (seal : Option (Members × Text)) (r : Result Streams)
        → (verify_from_streams hexdigest loads valid bundle identity seal r).verdict ≡ complete
        → read_identity hexdigest loads valid bundle ≡ ok identity
        → read_seal hexdigest loads valid bundle identity.run_id ≡ ok seal
        → read_streams hexdigest loads valid bundle (has_seal seal) ≡ r
        → Passed bundle
    unfolding verify_from_streams failed_result
    verify_from_streams-Passed seal (err e) c identified sealed streamed = cc
    verify_from_streams-Passed seal (ok streams) c identified sealed streamed =
        let (result, e, done) =
          or_failed-complete (root_of seal) streams.links
            (verify_contents hexdigest loads valid bundle seal identity streams) c in
        verify_contents-Passed seal streams result e done identified sealed streamed

    verify_from_seal-Passed :
        (r : Result (Option (Members × Text)))
        → (verify_from_seal hexdigest loads valid bundle identity r).verdict ≡ complete
        → read_identity hexdigest loads valid bundle ≡ ok identity
        → read_seal hexdigest loads valid bundle identity.run_id ≡ r
        → Passed bundle
    unfolding verify_from_seal failed_result
    verify_from_seal-Passed (err e) c identified sealed = cc
    verify_from_seal-Passed (ok seal) c identified sealed =
        verify_from_streams-Passed seal (read_streams hexdigest loads valid bundle (has_seal seal))
          c identified sealed refl

  verify_from_identity-Passed :
      (bundle : Bundle) (r : Result Identity)
      → (verify_from_identity hexdigest loads valid bundle r).verdict ≡ complete
      → read_identity hexdigest loads valid bundle ≡ r
      → Passed bundle
  unfolding verify_from_identity failed_result
  verify_from_identity-Passed bundle (err e) c identified = cc
  verify_from_identity-Passed bundle (ok identity) c identified =
      verify_from_seal-Passed bundle identity
        (read_seal hexdigest loads valid bundle identity.run_id) c identified refl

  if_directory :
      (bundle : Bundle) (b : Bool) (result : VerificationResult)
      → (if not b then failed_result none no_links unplaced else result).verdict ≡ complete
      → result.verdict ≡ complete
  unfolding failed_result
  if_directory bundle true result h = h
  if_directory bundle false result h = cc

  -- A complete bundle has passed every step.
  pub verify_bundle-Passed :
      (bundle : Bundle)
      → (verify_bundle hexdigest loads valid bundle).verdict ≡ complete
      → Passed bundle
  unfolding verify_bundle
  verify_bundle-Passed bundle c =
      verify_from_identity-Passed bundle (read_identity hexdigest loads valid bundle)
        (if_directory bundle bundle.is_directory _ c) refl
