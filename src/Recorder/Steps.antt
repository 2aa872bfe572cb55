-- ===== src/Recorder/Steps.antt =====
-- recorder/verify.py: what the steps of the verifier tell of the bytes, when they pass.
use wagmi_bench.Prelude.{
  ℕ, Bool, true, not, Option, none, some, List, map, Text, codes, text_eqb_iff, ◌≡◌, refl, ap,
  subst, ◌∙◌, inl, inr, arith, Option-cases, Result, ok, err, or_raise-some, bundle_error, ◌>>=◌,
  >>=-of, Keeps, Keeps-bind, Keeps-any, Keeps-ok, Keeps-if, Keeps-eq, Ensures-eq-ok,
}
use wagmi_bench.Prelude.Objects.{Value, Members}
use wagmi_bench.Spec.Chain.{
  Bytes, StreamName, events, decisions, stream_text, ChainLink, verify_chain,
}
use wagmi_bench.Recorder.Bundle.{
  Bundle, unplaced, Newline, forbid, JsonlRead, exists, logical_bytes, read_object, read_document,
}
use wagmi_bench.Recorder.Streams.{
  equals_text, text_value, count_value, SealedHead, place_error, verify_stream,
}
use wagmi_bench.Recorder.Verify.{
  Identity, Streams, BundleAccounts, sealed_stream_head, sealed_head, verify_decision_projection,
}
use wagmi_bench.Recorder.Phases.{read_seal, verify_streams}
use wagmi_bench.Recorder.Verdict.{verify_seal_files, verify_sealed}

pub equals_text-value :
    (v : Option Value) (t : Text) → equals_text v t ≡ true → text_value v ≡ some t
unfolding equals_text
equals_text-value v t e = elim (Option-cases (text_value v)) [
  | inl none_ ↦ ground arith
  | inr (s, found) ↦ found ∙ ap some ((text_eqb_iff s t).0 (ground arith))
]

place_error-ok {ℓ} :
    {A : Type ℓ} (stream : StreamName) (r : Result A) (a : A)
    → place_error stream r ≡ ok a
    → r ≡ ok a
unfolding place_error
place_error-ok stream (ok b) a e = e
place_error-ok stream (err x) a e = cc

module _ (hexdigest : Bytes → Text) (loads : Text → Option Value)
    (valid : Text → Members → Bool) where
  abbrev pub document_of : Newline → Text → Bytes → Result Members
  document_of newline schema raw = logical_bytes newline raw >>= λ logical.
      read_object loads valid logical (some schema) unplaced

  -- A document that has been read is what its file decodes to.
  read_document-file :
      (bundle : Bundle) (relative schema : Text) (newline : Newline)
      → Keeps
          (λ p. (bundle.file relative ≡ some p.1) × (document_of newline schema p.1 ≡ ok p.0))
          (read_document loads valid bundle relative schema newline)
  unfolding read_document
  read_document-file bundle relative schema newline = Keeps-any (λ u safe.
      Keeps-any (λ stored found. Keeps-any (λ logical stripped. Keeps-any (λ v read. Keeps-ok (
        or_raise-some _ unplaced stored found,
        >>=-of (logical_bytes newline stored) _ logical stripped ∙ read,
      )))))

  -- The seal is what `chain.json` decodes to.
  abbrev pub IsStored : Bundle → Option (Members × Text) → Type 0
  IsStored bundle none = Unit
  IsStored bundle (some (seal, root)) =
      (raw : Bytes) × (bundle.file (codes "chain.json") ≡ some raw)
      × (document_of forbid (codes "chain") raw ≡ ok seal)

  pub read_seal-IsStored :
      (bundle : Bundle) (run_id : Text)
      → Keeps (IsStored bundle) (read_seal hexdigest loads valid bundle run_id)
  unfolding read_seal
  read_seal-IsStored bundle run_id =
      Keeps-if (not (exists bundle (codes "chain.json"))) _ _ (λ h. Keeps-ok tt)
        (λ h.
          Keeps-bind _ (read_document-file bundle (codes "chain.json") (codes "chain") forbid)
            (λ (seal, raw) stored. Keeps-any (λ u named. Keeps-any (λ u' completed.
              Keeps-any
                (λ root rooted. Keeps-any (λ u'' matched. Keeps-ok (raw, stored.0, stored.1)))))))

  -- The steps of a sealed bundle that bind it.
  abbrev pub Regenerates : BundleAccounts → Identity → Streams → Type 0
  Regenerates accounts identity streams =
      (ledger : JsonlRead) × (accounts.primary ≡ some ledger)
      × (verify_decision_projection streams.event_lines.objects streams.stored_decisions
            ledger.objects identity.run_id
          ≡ ok tt)

  pub verify_sealed-files :
      (bundle : Bundle) (seal : Members) (identity : Identity) (streams : Streams)
      (accounts : BundleAccounts) (counted : ℕ × (ℕ × ℕ))
      → Keeps
          (λ u.
            (verify_seal_files hexdigest loads valid bundle seal ≡ ok tt)
            × Regenerates accounts identity streams)
          (verify_sealed hexdigest loads valid bundle seal identity streams accounts counted)
  unfolding verify_sealed
  verify_sealed-files bundle seal identity streams accounts counted = Keeps-any (λ final h1.
      Keeps-any (λ u2 h2. Keeps-any (λ metrics h3. Keeps-any (λ payload h4. Keeps-any (λ u5 h5.
        Keeps-any (λ primary h6. Keeps-any (λ u7 projected. Keeps-any (λ u8 files.
          Keeps-any (λ blobs h9. Keeps-any (λ u10 h10. Keeps-any (λ u11 h11.
            Keeps-ok (files, (primary, or_raise-some _ unplaced primary h6, projected)))))))))))))

  -- The chain of a sealed stream ends at the head of the seal.
  abbrev pub Chained : StreamName → Text → List Bytes → List ChainLink → SealedHead → Type 0
  Chained stream genesis records links sealed =
      (head : Text) × (count : ℕ) × (text_value sealed.head ≡ some head)
      × (count_value sealed.count ≡ some count)
      × ((end : Text) × (verify_chain hexdigest stream genesis records links (some head)
              (some count)
            ≡ ok end))

  verify_stream-Chained :
      (stream : StreamName) (genesis : Text) (records : List Bytes) (links : List ChainLink)
      (sealed : SealedHead)
      → Keeps
          (λ end. Chained stream genesis records links sealed)
          (verify_stream hexdigest stream genesis records links (some sealed))
  unfolding verify_stream
  verify_stream-Chained stream genesis records links sealed = Keeps-any (λ u same.
      Keeps-any (λ head found. Keeps-any (λ count counted.
        let at = or_raise-some _ (bundle_error (some (stream_text stream)) none) head found in
        let as_many =
          or_raise-some _ (bundle_error (some (stream_text stream)) none) count counted in
        Keeps-eq _ (λ end e. (head, count, at, as_many, (end, place_error-ok stream _ end e))))))

  sealed_head-some :
      (seal : Members) (stream : Text)
      → Keeps
          (λ o. (h : SealedHead) × (o ≡ some h) × (sealed_stream_head seal stream ≡ ok h))
          (sealed_head (some seal) stream)
  unfolding sealed_head
  sealed_head-some seal stream = Keeps-any (λ h found. Keeps-ok (h, refl, found))

  abbrev pub BothChained : Members → Identity → Streams → Type 0
  BothChained seal identity streams =
      (he : SealedHead) × (hd : SealedHead) × (sealed_stream_head seal (codes "events") ≡ ok he)
      × (sealed_stream_head seal (codes "decisions") ≡ ok hd)
      × Chained events identity.event_genesis streams.event_lines.records streams.links.of_events he
      × Chained decisions identity.decision_genesis (map (λ d. d.1) streams.stored_decisions)
          streams.links.of_decisions hd

  verify_stream-head :
      (stream : StreamName) (genesis : Text) (records : List Bytes) (links : List ChainLink)
      (o : Option SealedHead) (h : SealedHead) (end : Text)
      → o ≡ some h
      → verify_stream hexdigest stream genesis records links o ≡ ok end
      → Chained stream genesis records links h
  verify_stream-head stream genesis records links o h end same e =
      Ensures-eq-ok _ _ (verify_stream-Chained stream genesis records links h).holds
        (subst (λ s. verify_stream hexdigest stream genesis records links s ≡ ok end) same e)

  pub verify_streams-BothChained :
      (seal : Members) (identity : Identity) (streams : Streams)
      → Keeps
          (λ u. BothChained seal identity streams)
          (verify_streams hexdigest loads valid (some seal) identity streams)
  unfolding verify_streams
  verify_streams-BothChained seal identity streams =
      Keeps-bind _ (sealed_head-some seal (codes "events")) (λ o (he, same, found).
        Keeps-bind _ (sealed_head-some seal (codes "decisions")) (λ o' (hd, same', found').
          Keeps-any (λ end chained. Keeps-any (λ end' chained'. Keeps-ok (
            he,
            hd,
            found,
            found',
            verify_stream-head events _ _ _ o he end same chained,
            verify_stream-head decisions _ _ _ o' hd end' same' chained',
          )))))
