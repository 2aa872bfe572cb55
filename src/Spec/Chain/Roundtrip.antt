-- ===== src/Spec/Chain/Roundtrip.antt =====
-- spec/canonical.py, the verification of what a builder writes.
use wagmi_bench.Prelude.{
  ◌+◌, ◌≤◌, ◌≡◌, refl, true, some, List, [], ◌∷◌, length, Text, codes, text_eqb, text_eqb_iff, ok,
  ◌>>=◌, arith,
}
use wagmi_bench.Prelude.Int.{pos}
use wagmi_bench.Spec.Canonical.{max_safe_int}
use wagmi_bench.Spec.Chain.{
  Bytes, StreamName, stream_text, all_lower_hex, is_hash, require_hash, ChainLink, ChainBuilder,
  sha256_prefixed, new_builder, append, append_all, stream_head, check_link, verify_links,
  verify_chain,
}
use wagmi_bench.Spec.Chain.Link.{link_text, chain_link_value-text}

-- `hashlib.sha256(...).hexdigest()` is 64 lower-case hexadecimal digits.
abbrev pub IsHexdigest : (Bytes → Text) → Type 0
IsHexdigest hexdigest =
    (data_bytes : Bytes)
    → (length (hexdigest data_bytes) ≡ 64) × (all_lower_hex (hexdigest data_bytes) ≡ true)

module _ (hexdigest : Bytes → Text) (digest : IsHexdigest hexdigest) where
  sha256_prefixed-is_hash : (b : Bytes) → is_hash (sha256_prefixed hexdigest b) ≡ true
  unfolding sha256_prefixed require_hash
  sha256_prefixed-is_hash b = ground (arith, digest b)

  text_eqb_refl : (s : Text) → text_eqb s s ≡ true
  text_eqb_refl s = (text_eqb_iff s s).1 refl

  -- The entry that a builder writes passes.
  append-checked :
      (b : ChainBuilder) (r : Bytes)
      → is_hash b.head ≡ true
      → b.count ≤ max_safe_int
      → (link : ChainLink) × (head : Text) × (append hexdigest b r
          ≡ ok (record b { head = head; count = b.count + 1 }, link))
        × (is_hash head ≡ true)
        × (check_link hexdigest b.stream b.count b.head r link ≡ ok head)
  unfolding append check_link ◌>>=◌
  append-checked b r h n =
      let value =
        sha256_prefixed hexdigest
          (link_text b.stream b.count (sha256_prefixed hexdigest r) b.head) in
      let made =
        chain_link_value-text hexdigest b.stream b.count (sha256_prefixed hexdigest r) b.head
          (ground arith) (sha256_prefixed-is_hash r) h in
      let link : ChainLink = record {
        schema = codes "chain_link/v1";
        stream = stream_text b.stream;
        seq = pos b.count;
        record_sha256 = sha256_prefixed hexdigest r;
        link_sha256 = value;
      } in
      (
        link,
        value,
        rw made,
        sha256_prefixed-is_hash _,
        rw
            (
              made,
              text_eqb_refl (stream_text b.stream),
              text_eqb_refl (sha256_prefixed hexdigest r),
              text_eqb_refl value,
            )
            (ground arith),
      )

  -- What a writer appends from a state on passes from that state on.
  append_all-verified :
      (records : List Bytes) (b : ChainBuilder)
      → is_hash b.head ≡ true
      → b.count + length records ≤ max_safe_int + 1
      → (b' : ChainBuilder) × (links : List ChainLink) × (append_all hexdigest b records
          ≡ ok (b', links))
        × (length links ≡ length records)
        × (b'.count ≡ b.count + length records)
        × (is_hash b'.head ≡ true)
        × (b'.genesis ≡ b.genesis)
        × (verify_links hexdigest b.stream b.count b.head records links ≡ ok b'.head)
  unfolding append_all verify_links ◌>>=◌
  append_all-verified [] b h n = (b, [], refl, refl, omega arith, h, refl, refl)
  append_all-verified (r ∷ records) b h n =
      let (link, head, made, hh, checked) = append-checked b r h (omega arith) in
      let (b', links, wrote, ls, c, k, g, v) =
        append_all-verified records (record b { head = head; count = b.count + 1 }) hh
          (omega arith) in
      (b', link ∷ links, rw (made, wrote), omega arith, omega arith, k, g, rw (checked, v))

  -- If a digest is 64 lower-case hexadecimal digits, the genesis is well-formed and the sequence
  -- numbers stay in the safe range, then a new builder appends every record, and `verify_chain`
  -- accepts the links that it wrote against the head and the count that it reports.
  pub append_all-verify_chain :
      (stream : StreamName) (genesis : Text) (records : List Bytes)
      → is_hash genesis ≡ true
      → length records ≤ max_safe_int + 1
      → (b : ChainBuilder) × (links : List ChainLink) × ((new_builder stream genesis >>= λ start.
            append_all hexdigest start records)
          ≡ ok (b, links))
        × (verify_chain hexdigest stream genesis records links
              (some (stream_head b).head)
              (some (stream_head b).count)
            ≡ ok (stream_head b).head)
  unfolding new_builder verify_chain require_hash ◌>>=◌
  append_all-verify_chain stream genesis records h n =
      let start : ChainBuilder = record {
        stream = stream;
        genesis = genesis;
        head = genesis;
        count = 0;
      } in
      let (b, links, wrote, ls, c, k, g, v) = append_all-verified records start h (omega arith) in
      (b, links, rw (h, wrote), rw (h, k, v, text_eqb_refl b.head) (ground arith))
