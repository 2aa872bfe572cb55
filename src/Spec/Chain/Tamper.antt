-- ===== src/Spec/Chain/Tamper.antt =====
-- What `verify_chain` says of records that were changed after they were chained.
use wagmi_bench.Prelude.{
  ℕ, ◌+◌, ◌≡◌, ◌≢◌, ◌∙◌, sym, Bool-cases, inl, inr, ◌⊎◌, Option, List, [], ◌∷◌, ◌++◌, length,
  length-append, Text, text_eqb, text_eqb_iff, ok, err, Result-cases, >>=-ok, chain_error, ◌>>=◌,
  arith,
}
use wagmi_bench.Spec.Chain.{
  Bytes, StreamName, ChainLink, sha256_prefixed, check_link, verify_links, verify_chain,
}
use wagmi_bench.Spec.Chain.Binding.{Collision, same_or_collision, check_link-ok}

module _ (hexdigest : Bytes → Text) where
  -- A link passes one record only.
  check_link-tampered :
      (stream : StreamName) (seq : ℕ) (prev : Text) (r r' : Bytes) (link : ChainLink) (value : Text)
      → check_link hexdigest stream seq prev r link ≡ ok value
      → r ≢ r'
      → (check_link hexdigest stream seq prev r' link ≡ err (chain_error seq)) ⊎ Collision hexdigest
  unfolding check_link ◌>>=◌
  check_link-tampered stream seq prev r r' link value e d =
      let (made, stored) = check_link-ok hexdigest stream seq prev r link value e in
      elim (Bool-cases (text_eqb link.record_sha256 (sha256_prefixed hexdigest r'))) [
        | inl same ↦
            elim (same_or_collision hexdigest r r' (
              sym ((text_eqb_iff link.record_sha256 (sha256_prefixed hexdigest r)).0 stored)
              ∙ (text_eqb_iff link.record_sha256 (sha256_prefixed hexdigest r')).0 same)) [
                | inl k ↦ absurd (d k)
                | inr c ↦ inr c
              ]
        | inr differ ↦ inl (ground arith)
      ]

  verify_links-tampered :
      (stream : StreamName) (seq : ℕ) (prev : Text) (before : List Bytes) (r r' : Bytes)
      (after after' : List Bytes) (links : List ChainLink) (head : Text)
      → verify_links hexdigest stream seq prev (before ++ r ∷ after) links ≡ ok head
      → length links ≡ length (before ++ r ∷ after)
      → r ≢ r'
      → (verify_links hexdigest stream seq prev (before ++ r' ∷ after') links
          ≡ err (chain_error (seq + length before)))
        ⊎ Collision hexdigest
  unfolding verify_links ◌>>=◌
  verify_links-tampered stream seq prev [] r r' after after' [] head e n d = absurd (omega arith)
  verify_links-tampered stream seq prev [] r r' after after' (l ∷ links) head e n d =
      let (value, c, e) =
        >>=-ok (check_link hexdigest stream seq prev r l)
          (λ next. verify_links hexdigest stream (seq + 1) next after links) head e in
      elim (check_link-tampered stream seq prev r r' l value c d) [
        | inl found ↦ inl (rw found (ground arith))
        | inr c ↦ inr c
      ]
  verify_links-tampered stream seq prev (b ∷ before) r r' after after' [] head e n d =
      absurd (omega arith)
  verify_links-tampered stream seq prev (b ∷ before) r r' after after' (l ∷ links) head e n d =
      let (value, c, e) =
        >>=-ok (check_link hexdigest stream seq prev b l)
          (λ next. verify_links hexdigest stream (seq + 1) next (before ++ r ∷ after) links) head
          e in
      elim (verify_links-tampered stream (seq + 1) value before r r' after after' links head e
        (omega arith) d) [ inl found ↦ inl (rw (c, found) (ground arith)) | inr c ↦ inr c ]

  -- If a chain verifies, and the records from one on are replaced by as many others of which the
  -- first differs, then `verify_chain` on the same links raises at exactly that record, or there
  -- are two different byte strings with one digest.
  pub verify_chain-tampered :
      (stream : StreamName) (genesis : Text) (before : List Bytes) (r r' : Bytes)
      (after after' : List Bytes) (links : List ChainLink) (expected_head : Option Text)
      (expected_count : Option ℕ) (result : Text)
      → verify_chain hexdigest stream genesis
          (before ++ r ∷ after)
          links
          expected_head
          expected_count
        ≡ ok result
      → r ≢ r'
      → length after ≡ length after'
      → (verify_chain hexdigest stream genesis
            (before ++ r' ∷ after')
            links
            expected_head
            expected_count
          ≡ err (chain_error (length before)))
        ⊎ Collision hexdigest
  unfolding verify_chain ◌>>=◌
  verify_chain-tampered stream genesis before r r' after after' links eh ec result e d n =
      let same : length (before ++ r ∷ after) ≡ length (before ++ r' ∷ after') =
        omega (arith, length-append before (r ∷ after), length-append before (r' ∷ after')) in
      elim (Result-cases (verify_links hexdigest stream 0 genesis (before ++ r ∷ after) links)) [
        | inl (found, m) ↦
            elim (verify_links-tampered stream 0 genesis before r r' after after' links found m
              (ground arith) d) [ inl t ↦ inl (rw (← same, t) (ground arith)) | inr c ↦ inr c ]
        | inr (raised, m) ↦ absurd (ground arith)
      ]
