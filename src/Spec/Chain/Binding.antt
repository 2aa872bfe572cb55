-- ===== src/Spec/Chain/Binding.antt =====
-- spec/canonical.py, what the sealed head of a chain fixes.
use wagmi_bench.Prelude.{
  ℕ, ◌+◌, ◌≡◌, ◌≢◌, refl, ◌∙◌, sym, ap, true, Bool-cases, inl, inr, ◌⊎◌, some, List, [], ◌∷◌,
  length, append-inj, Text, text_eqb, text_eqb_iff, ok, ok-injective, Result-cases, ◌>>=◌, >>=-ok,
  arith,
}
use wagmi_bench.Prelude.Int.{pos}
use wagmi_bench.Spec.Chain.{
  Bytes, StreamName, hash_prefix, ChainLink, sha256_prefixed, chain_link_value, check_link,
  verify_links, verify_chain,
}
use wagmi_bench.Spec.Chain.Link.{chain_link_value-ok, link_text-inj}

module _ (hexdigest : Bytes → Text) where
  -- Two different byte strings with one digest.
  abbrev pub Collision : Type 0
  Collision = (a : Bytes) × (b : Bytes) × (a ≢ b) × (hexdigest a ≡ hexdigest b)

  pub same_or_collision :
      (a b : Bytes)
      → sha256_prefixed hexdigest a ≡ sha256_prefixed hexdigest b
      → (a ≡ b) ⊎ Collision
  unfolding sha256_prefixed
  same_or_collision a b e = elim (Bool-cases (text_eqb a b)) [
    | inl same ↦ inl ((text_eqb_iff a b).0 same)
    | inr differ ↦
        let differ : a ≢ b = (λ k. ground (arith, (text_eqb_iff a b).1 k)) in
        inr (a, b, differ, (append-inj hash_prefix hash_prefix _ _ refl e).1)
  ]

  -- What a link that passes has: the value of its fields, and its record's hash.
  pub check_link-ok :
      (stream : StreamName) (seq : ℕ) (prev : Text) (r : Bytes) (link : ChainLink) (value : Text)
      → check_link hexdigest stream seq prev r link ≡ ok value
      → (chain_link_value hexdigest stream (pos seq) (sha256_prefixed hexdigest r) prev ≡ ok value)
        × (text_eqb link.record_sha256 (sha256_prefixed hexdigest r) ≡ true)
  unfolding check_link ◌>>=◌
  check_link-ok stream seq prev r link value e =
      elim (Result-cases
        (chain_link_value hexdigest stream (pos seq) (sha256_prefixed hexdigest r) prev)) [
          | inl (made, m) ↦ ground arith
          | inr (raised, m) ↦ ground arith
        ]

  -- One link of two chains, from the end back: the same value has the same record and predecessor.
  link_binds :
      (stream : StreamName) (seq : ℕ) (prev prev' : Text) (r r' : Bytes) (link : Text)
      → chain_link_value hexdigest stream (pos seq) (sha256_prefixed hexdigest r) prev ≡ ok link
      → chain_link_value hexdigest stream (pos seq) (sha256_prefixed hexdigest r') prev' ≡ ok link
      → ((prev ≡ prev') × (r ≡ r')) ⊎ Collision
  link_binds stream seq prev prev' r r' link e e' =
      let (h, k, t) =
        chain_link_value-ok hexdigest stream seq (sha256_prefixed hexdigest r) prev link e in
      let (h', k', t') =
        chain_link_value-ok hexdigest stream seq (sha256_prefixed hexdigest r') prev' link e' in
      elim (same_or_collision _ _ (t ∙ sym t')) [
        | inr c ↦ inr c
        | inl same ↦
            let (records, prevs) = link_text-inj stream seq _ _ prev prev' h h' k k' same in
            elim (same_or_collision r r' records) [ inr c ↦ inr c | inl q ↦ inl (prevs, q) ]
      ]

  verify_links-binds :
      (stream : StreamName) (seq : ℕ) (prev prev' : Text) (records records' : List Bytes)
      (links links' : List ChainLink) (head : Text)
      → length links ≡ length records
      → length links' ≡ length records'
      → length records ≡ length records'
      → verify_links hexdigest stream seq prev records links ≡ ok head
      → verify_links hexdigest stream seq prev' records' links' ≡ ok head
      → ((prev ≡ prev') × (records ≡ records')) ⊎ Collision
  unfolding verify_links
  verify_links-binds stream seq prev prev' [] [] [] [] head h h' n e e' =
      inl (ok-injective (e ∙ sym e'), refl)
  verify_links-binds stream seq prev prev' (r ∷ rs) (r' ∷ rs') (l ∷ ls) (l' ∷ ls') head h h' n e
        e' =
      let (v, c, e) =
        >>=-ok (check_link hexdigest stream seq prev r l)
          (λ next. verify_links hexdigest stream (seq + 1) next rs ls) head e in
      let (v', c', e') =
        >>=-ok (check_link hexdigest stream seq prev' r' l')
          (λ next. verify_links hexdigest stream (seq + 1) next rs' ls') head e' in
      elim (verify_links-binds stream (seq + 1) v v' rs rs' ls ls' head (omega arith) (omega arith)
        (omega arith) e e') [
          | inr c ↦ inr c
          | inl (same, rest) ↦
              elim (link_binds stream seq prev prev' r r' v
                (check_link-ok stream seq prev r l v c).0
                ((check_link-ok stream seq prev' r' l' v' c').0 ∙ ap ok (sym same))) [
                  | inr c ↦ inr c
                  | inl (prevs, q) ↦ inl (prevs, cc)
                ]
        ]
  verify_links-binds stream seq prev prev' [] [] (l ∷ ls) ls' head h h' n e e' =
      absurd (omega arith)
  verify_links-binds stream seq prev prev' [] [] [] (l' ∷ ls') head h h' n e e' =
      absurd (omega arith)
  verify_links-binds stream seq prev prev' [] (r' ∷ rs') links ls' head h h' n e e' =
      absurd (omega arith)
  verify_links-binds stream seq prev prev' (r ∷ rs) [] links ls' head h h' n e e' =
      absurd (omega arith)
  verify_links-binds stream seq prev prev' (r ∷ rs) (r' ∷ rs') [] ls' head h h' n e e' =
      absurd (omega arith)
  verify_links-binds stream seq prev prev' (r ∷ rs) (r' ∷ rs') (l ∷ ls) [] head h h' n e e' =
      absurd (omega arith)

  -- A sealed chain that verifies.
  verify_chain-ok :
      (stream : StreamName) (genesis : Text) (records : List Bytes) (links : List ChainLink)
      (head : Text) (count : ℕ) (result : Text)
      → verify_chain hexdigest stream genesis records links (some head) (some count) ≡ ok result
      → (length records ≡ count)
        × (length links ≡ length records)
        × (verify_links hexdigest stream 0 genesis records links ≡ ok head)
  unfolding verify_chain ◌>>=◌
  verify_chain-ok stream genesis records links head count result e =
      elim (Result-cases (verify_links hexdigest stream 0 genesis records links)) [
        | inl (found, m) ↦ ground (arith, text_eqb_iff found head)
        | inr (raised, m) ↦ ground arith
      ]

  -- Two chains that verify against one sealed head and count have the same genesis and the same
  -- records, or there are two different byte strings with one digest.
  pub verify_chain-binds :
      (stream : StreamName) (genesis genesis' : Text) (records records' : List Bytes)
      (links links' : List ChainLink) (head : Text) (count : ℕ) (result result' : Text)
      → verify_chain hexdigest stream genesis records links (some head) (some count) ≡ ok result
      → verify_chain hexdigest stream genesis' records' links' (some head) (some count) ≡ ok result'
      → ((genesis ≡ genesis') × (records ≡ records')) ⊎ Collision
  verify_chain-binds stream genesis genesis' records records' links links' head count result result'
        e e' =
      let (n, h, v) = verify_chain-ok stream genesis records links head count result e in
      let (n', h', v') = verify_chain-ok stream genesis' records' links' head count result' e' in
      verify_links-binds stream 0 genesis genesis' records records' links links' head h h'
        (n ∙ sym n') v v'
