-- ===== src/Recorder/Binding.antt =====
-- recorder/verify.py: what `chain.json` fixes of a bundle that verifies as COMPLETE.
use mathlib.Core.Option.{some-injective}
use wagmi_bench.Prelude.{
  Bool, true, not, Option, some, List, [], ◌∷◌, map, Text, codes, ◌≡◌, ◌⊎◌, sym, ap, subst, ◌∙◌,
  inl, inr, arith, All, ok, raise_if-ok, or_raise, or_raise-some, >>=-ok, Ensures-eq-ok,
  ok-injective,
}
use wagmi_bench.Prelude.Objects.{Value, Members, find_member, members_list}
use wagmi_bench.Spec.Chain.{
  Bytes, StreamName, events, decisions, ChainLink, sha256_prefixed, verify_chain,
}
use wagmi_bench.Spec.Chain.Binding.{Collision, same_or_collision, verify_chain-binds}
use wagmi_bench.Recorder.Bundle.{Bundle, unplaced, forbid}
use wagmi_bench.Recorder.Streams.{equals_text, SealedHead}
use wagmi_bench.Recorder.Verify.{
  complete, Streams, sealed_stream_head, sealed_files, same_keys, object_member,
}
use wagmi_bench.Recorder.Phases.{read_streams}
use wagmi_bench.Recorder.Verdict.{check_files, verify_seal_files, verify_bundle}
use wagmi_bench.Recorder.Complete.{Passed, verify_bundle-Passed}
use wagmi_bench.Recorder.Steps.{
  equals_text-value, document_of, IsStored, read_seal-IsStored, verify_sealed-files, Chained,
  verify_streams-BothChained,
}

all_or_collision {ℓ} : {A B C K : Type ℓ} → A ⊎ K → B ⊎ K → C ⊎ K → (A × B × C) ⊎ K
all_or_collision (inl a) (inl b) (inl c) = inl (a, b, c)
all_or_collision (inr k) b c = inr k
all_or_collision (inl a) (inr k) c = inr k
all_or_collision (inl a) (inl b) (inr k) = inr k

module _ (hexdigest : Bytes → Text) (loads : Text → Option Value)
    (valid : Text → Members → Bool) where
  -- One digest for two files.
  same_file :
      (a b : Bundle) (files : Members) (name : Text) (raw raw' : Bytes)
      → a.file name ≡ some raw
      → b.file name ≡ some raw'
      → equals_text (find_member name files) (sha256_prefixed hexdigest raw) ≡ true
      → equals_text (find_member name files) (sha256_prefixed hexdigest raw') ≡ true
      → (a.file name ≡ b.file name) ⊎ Collision hexdigest
  same_file a b files name raw raw' h k e e' =
      let same = some-injective _ _ (sym (equals_text-value _ _ e) ∙ equals_text-value _ _ e') in
      elim (same_or_collision hexdigest raw raw' same) [
        | inl equal ↦ inl (h ∙ ap some equal ∙ sym k)
        | inr collision ↦ inr collision
      ]

  -- The files that a seal lists are the same in two bundles that pass.
  check_files-binds :
      (a b : Bundle) (files : Members) (names : List Text)
      → check_files hexdigest loads valid a files names ≡ ok tt
      → check_files hexdigest loads valid b files names ≡ ok tt
      → (All (λ name. a.file name ≡ b.file name) names) ⊎ Collision hexdigest
  unfolding check_files
  check_files-binds a b files [] e e' = inl tt
  check_files-binds a b files (name ∷ names) e e' =
      let (raw, found, s) = >>=-ok (or_raise (a.file name) unplaced) _ tt e in
      let (raw', found', s') = >>=-ok (or_raise (b.file name) unplaced) _ tt e' in
      let (t, rest) =
        raise_if-ok (not (equals_text (find_member name files) (sha256_prefixed hexdigest raw)))
          unplaced _ tt s in
      let (t', rest') =
        raise_if-ok (not (equals_text (find_member name files) (sha256_prefixed hexdigest raw')))
          unplaced _ tt s' in
      elim (same_file a b files name raw raw' (or_raise-some _ unplaced raw found)
        (or_raise-some _ unplaced raw' found') (ground arith) (ground arith)) [
          | inr collision ↦ inr collision
          | inl same ↦ elim (check_files-binds a b files names rest rest') [
            | inr collision ↦ inr collision
            | inl others ↦ inl (same, others)
          ]
        ]

  -- Two streams that end at one head have the same records.
  same_records :
      (stream : StreamName) (genesis genesis' : Text) (records records' : List Bytes)
      (links links' : List ChainLink) (sealed : SealedHead)
      → Chained hexdigest loads valid stream genesis records links sealed
      → Chained hexdigest loads valid stream genesis' records' links' sealed
      → (records ≡ records') ⊎ Collision hexdigest
  same_records stream genesis genesis' records records' links links' sealed
        (head, count, h, n, (end, e)) (head', count', h', n', (end', e')) =
      let same = some-injective _ _ (sym h ∙ h') in
      let as_many = some-injective _ _ (sym n ∙ n') in
      let moved =
        subst
          (λ hd.
            verify_chain hexdigest stream genesis' records' links' (some hd) (some count) ≡ ok end')
          (sym same)
          (subst
            (λ c.
              verify_chain hexdigest stream genesis' records' links' (some head') (some c)
              ≡ ok end')
            (sym as_many) e') in
      elim (verify_chain-binds hexdigest stream genesis genesis' records records' links links' head
        count end end' e moved) [ inl both ↦ inl both.1 | inr collision ↦ inr collision ]

  verify_seal_files-binds :
      (a b : Bundle) (seal : Members)
      → verify_seal_files hexdigest loads valid a seal ≡ ok tt
      → verify_seal_files hexdigest loads valid b seal ≡ ok tt
      → (All (λ name. a.file name ≡ b.file name) sealed_files) ⊎ Collision hexdigest
  unfolding verify_seal_files
  verify_seal_files-binds a b seal e e' =
      let (files, found, s) = >>=-ok (object_member seal (codes "files") unplaced) _ tt e in
      let (files', found', s') = >>=-ok (object_member seal (codes "files") unplaced) _ tt e' in
      let same = ok-injective (sym found' ∙ found) in
      let (t, checked) =
        raise_if-ok (not (same_keys (members_list files) sealed_files)) unplaced _ tt s in
      let (t', checked') =
        raise_if-ok (not (same_keys (members_list files') sealed_files)) unplaced _ tt s' in
      check_files-binds a b files sealed_files checked
        (subst (λ f. check_files hexdigest loads valid b f sealed_files ≡ ok tt) same checked')

  -- One `chain.json` is one seal.
  same_seal :
      (a b : Bundle) (p : Passed hexdigest loads valid a) (q : Passed hexdigest loads valid b)
      → a.file (codes "chain.json") ≡ b.file (codes "chain.json")
      → p.seal ≡ q.seal
  same_seal a b p q h =
      let (raw, at, decoded) =
        Ensures-eq-ok (IsStored hexdigest loads valid a) _
          (read_seal-IsStored hexdigest loads valid a p.identity.run_id).holds p.sealed in
      let (raw', at', decoded') =
        Ensures-eq-ok (IsStored hexdigest loads valid b) _
          (read_seal-IsStored hexdigest loads valid b q.identity.run_id).holds q.sealed in
      let same = some-injective _ _ (sym at ∙ h ∙ at') in
      ok-injective (
        sym decoded ∙ ap (document_of hexdigest loads valid forbid (codes "chain")) same ∙ decoded')

  -- The files of the seal, and the records of both streams.
  abbrev pub SameEvidence : Bundle → Bundle → Streams → Streams → Type 0
  SameEvidence a b s t =
      All (λ name. a.file name ≡ b.file name) sealed_files
      × (s.event_lines.records ≡ t.event_lines.records)
      × (map (λ d. d.1) s.stored_decisions ≡ map (λ d. d.1) t.stored_decisions)

  same_evidence :
      (a b : Bundle) (p : Passed hexdigest loads valid a) (q : Passed hexdigest loads valid b)
      → p.seal ≡ q.seal
      → SameEvidence a b p.streams q.streams ⊎ Collision hexdigest
  same_evidence a b p q same =
      let (files, made) =
        Ensures-eq-ok _ _
          (verify_sealed-files hexdigest loads valid a p.seal p.identity p.streams p.accounts
            p.counted).holds
          p.ended in
      let (files', made') =
        Ensures-eq-ok _ _
          (verify_sealed-files hexdigest loads valid b q.seal q.identity q.streams q.accounts
            q.counted).holds
          q.ended in
      let (he, hd, e, d, ce, cd) =
        Ensures-eq-ok _ _
          (verify_streams-BothChained hexdigest loads valid p.seal p.identity p.streams).holds
          p.chained in
      let (he', hd', e', d', ce', cd') =
        Ensures-eq-ok _ _
          (verify_streams-BothChained hexdigest loads valid q.seal q.identity q.streams).holds
          q.chained in
      let events_at =
        ok-injective (sym e' ∙ ap (λ x. sealed_stream_head x (codes "events")) (sym same) ∙ e) in
      let decisions_at =
        ok-injective (sym d' ∙ ap (λ x. sealed_stream_head x (codes "decisions")) (sym same) ∙ d) in
      let moved =
        subst (λ x. verify_seal_files hexdigest loads valid b x ≡ ok tt) (sym same) files' in
      let chain_moved =
        subst
          (λ h.
            Chained hexdigest loads valid events q.identity.event_genesis
              q.streams.event_lines.records q.streams.links.of_events h)
          events_at ce' in
      let trace_moved =
        subst
          (λ h.
            Chained hexdigest loads valid decisions q.identity.decision_genesis
              (map (λ d. d.1) q.streams.stored_decisions) q.streams.links.of_decisions h)
          decisions_at cd' in
      all_or_collision (verify_seal_files-binds a b p.seal files moved)
        (same_records events _ _ _ _ _ _ he ce chain_moved)
        (same_records decisions _ _ _ _ _ _ hd cd trace_moved)

  -- If two bundles verify as COMPLETE and have the same `chain.json`, then every file that the seal
  -- lists, every event record and every decision record is the same in both, or there are two
  -- different byte strings with one digest.
  pub verify_bundle-binds :
      (a b : Bundle) (s t : Streams)
      → (verify_bundle hexdigest loads valid a).verdict ≡ complete
      → (verify_bundle hexdigest loads valid b).verdict ≡ complete
      → a.file (codes "chain.json") ≡ b.file (codes "chain.json")
      → read_streams hexdigest loads valid a true ≡ ok s
      → read_streams hexdigest loads valid b true ≡ ok t
      → SameEvidence a b s t ⊎ Collision hexdigest
  verify_bundle-binds a b s t h k same e e' =
      let p = verify_bundle-Passed hexdigest loads valid a h in
      let q = verify_bundle-Passed hexdigest loads valid b k in
      let first = ok-injective (sym p.streamed ∙ e) in
      let second = ok-injective (sym q.streamed ∙ e') in
      subst (λ y. SameEvidence a b s y ⊎ Collision hexdigest) second
        (subst (λ x. SameEvidence a b x q.streams ⊎ Collision hexdigest) first
          (same_evidence a b p q (same_seal a b p q same)))
